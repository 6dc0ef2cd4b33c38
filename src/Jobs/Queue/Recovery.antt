-- ===== src/Jobs/Queue/Recovery.antt =====
-- Recovery of orphaned jobs, the counts by status, and the fixed prefix of a live job
-- (internal/store/jobs.go).
use muesli.Base.{
  ℕ, ◌+◌, ◌≡◌, refl, ap, ◌⊎◌, Bool, true, false, none, some, [], ◌∷◌, inl, inr, Bool-cases,
  Option-cases, length, arith,
}
use muesli.Base.Int.{ℤ}
use muesli.Base.Text.{Text, text_eq}
use muesli.Jobs.{Job, Table, ok, err, not_found, pending, running, is_running}
use muesli.Jobs.Queue.Rows.{
  HasLapsed, Pairwise, update_where-Pairwise, lapsed, lapses, running_status,
}
use muesli.Jobs.Queue.{
  update_where, count_where, requeued, expired_running, reset_running_jobs,
  reset_expired_running_jobs, StatusCounts, job_status_counts, find_job, with_id, coalesce,
  set_job_target_revision_if_null,
}

-- Every job is counted under exactly one status.
pub job_status_counts-sum :
    (t : Table)
    → let c = job_status_counts t in
      c.pending_jobs + c.running_jobs + c.done_jobs + c.failed_jobs + c.cancelled_jobs ≡ length t
unfolding job_status_counts count_where
job_status_counts-sum [] = refl
job_status_counts-sum (j ∷ t) = ground (arith, job_status_counts-sum t)

-- What a recovery of `n` jobs does to the counts.
abbrev pub Recovers : ℕ → StatusCounts → StatusCounts → Type 0
Recovers n c d =
    (d.pending_jobs ≡ c.pending_jobs + n)
    × (d.running_jobs + n ≡ c.running_jobs)
    × (d.done_jobs ≡ c.done_jobs)
    × (d.failed_jobs ≡ c.failed_jobs)
    × (d.cancelled_jobs ≡ c.cancelled_jobs)

requeue-Recovers :
    (fits : Job → Bool) (db_now : ℕ) (t : Table)
    → ((j : Job) → fits j ≡ true → j.status ≡ running)
    → Recovers
        (count_where fits t)
        (job_status_counts t)
        (job_status_counts (update_where fits (requeued db_now) t))
unfolding job_status_counts update_where count_where
requeue-Recovers fits db_now [] h = ground arith
requeue-Recovers fits db_now (j ∷ t) h = ground (arith, h j, requeue-Recovers fits db_now t h)

running_count :
    (t : Table) → count_where (λ j. is_running j.status) t ≡ (job_status_counts t).running_jobs
unfolding job_status_counts count_where
running_count [] = refl
running_count (j ∷ t) = ground (arith, running_count t)

-- The startup reset moves exactly the running jobs back to pending: it returns their number, and
-- afterwards none is running and the other counts are as before.
pub reset_running_jobs-Recovers :
    (db_now : ℕ) (t : Table)
    → let (n, t') = reset_running_jobs db_now t in
      (n ≡ (job_status_counts t).running_jobs)
      × ((job_status_counts t').running_jobs ≡ 0)
      × Recovers n (job_status_counts t) (job_status_counts t')
unfolding reset_running_jobs
reset_running_jobs-Recovers db_now t =
    let moved = requeue-Recovers (λ j. is_running j.status) db_now t (λ j h. ground arith) in
    (running_count t, ground (arith, running_count t, moved), moved)

-- A running row whose lease has passed goes back to pending without a lease; any other row, a
-- running one with a lease that lasts included, stays as it is.
abbrev pub Swept : ℕ → Job → Job → Type 0
Swept db_now j k =
    ((j.status ≡ running)
      × HasLapsed db_now j
      × (k ≡ record j { status = pending; lease_expires_at = none; updated_at = db_now }))
    ⊎ (¬ ((j.status ≡ running) × HasLapsed db_now j) × (k ≡ j))

expired_row :
    (db_now : ℕ) (j : Job) → expired_running db_now j ≡ true → Swept db_now j (requeued db_now j)
expired_row db_now j h =
    inl (running_status j.status (ground (arith, h)), lapsed db_now j (ground (arith, h)), refl)

kept_row : (db_now : ℕ) (j : Job) → expired_running db_now j ≡ false → Swept db_now j j
kept_row db_now j h = inr (
  (λ both. let late = lapses db_now j both.1 in let now = both.0 in ground (arith, h, late, now)),
  refl,
)

-- The sweep moves exactly the running jobs whose lease had passed by the database's clock back to
-- pending, without a lease, and changes no other row, so a running job whose lease lasts is not
-- taken from its worker. It returns the number of jobs that it moves, which leave the running and
-- join the pending ones, and changes no other count.
pub reset_expired_running_jobs-Recovers :
    (db_now : ℕ) (t : Table)
    → let (n, t') = reset_expired_running_jobs db_now t in
      Pairwise (Swept db_now) t t' × Recovers n (job_status_counts t) (job_status_counts t')
unfolding reset_expired_running_jobs
reset_expired_running_jobs-Recovers db_now t = (
  update_where-Pairwise (Swept db_now) (expired_running db_now) (requeued db_now) t
      (expired_row db_now) (kept_row db_now),
  requeue-Recovers (expired_running db_now) db_now t (λ j h. ground arith),
)

find_job-update :
    (id : Text) (change : Job → Job) (t : Table) (j : Job)
    → ((k : Job) → (change k).id ≡ k.id)
    → find_job id t ≡ some j
    → find_job id (update_where (with_id id) change t) ≡ some (change j)
unfolding find_job update_where
find_job-update id change [] j h e = cc
find_job-update id change (k ∷ t) j h e = elim (Bool-cases (text_eq k.id id)) [
  | inl s ↦
      let same : k ≡ j = ground arith in
      let hit : text_eq (change k).id id ≡ true = rw (h k) s in
      rw (s, hit) (ap (λ (x : Job). some (change x)) same)
  | inr n ↦ rw (n, n) (find_job-update id change t j h (ground arith))
]

fixed_revision : ℕ → ℤ → Job → Job
fixed_revision db_now revision k = record k {
  target_revision = some (coalesce k.target_revision revision);
  updated_at = db_now;
}

set_found :
    (db_now : ℕ) (id : Text) (r : ℤ) (t : Table) (j : Job)
    → find_job id t ≡ some j
    → set_job_target_revision_if_null db_now id r t
      ≡ ok (coalesce j.target_revision r, update_where (with_id id) (fixed_revision db_now r) t)
unfolding set_job_target_revision_if_null fixed_revision
set_found db_now id r t j e = rw (e, set_job_target_revision_if_null)

set_missing :
    (db_now : ℕ) (id : Text) (r : ℤ) (t : Table)
    → find_job id t ≡ none
    → set_job_target_revision_if_null db_now id r t ≡ err not_found
unfolding set_job_target_revision_if_null
set_missing db_now id r t e = rw (e, set_job_target_revision_if_null)

-- The target revision of a job is written once: a later call, with any revision, returns the one
-- that the first call returned.
pub set_job_target_revision_if_null_once :
    (first_at second_at : ℕ) (id : Text) (r r' a b : ℤ) (t t' t'' : Table)
    → set_job_target_revision_if_null first_at id r t ≡ ok (a, t')
    → set_job_target_revision_if_null second_at id r' t' ≡ ok (b, t'')
    → b ≡ a
set_job_target_revision_if_null_once first_at second_at id r r' a b t t' t'' e e' =
    elim (Option-cases (find_job id t)) [
      | inl n ↦ absurd (cc (set_missing first_at id r t n))
      | inr (j, s) ↦
          let first = set_found first_at id r t j s in
          let written : update_where (with_id id) (fixed_revision first_at r) t ≡ t' = cc in
          let kept =
            find_job-update id (fixed_revision first_at r) t j (λ k. unfold fixed_revision in refl)
              s in
          let found : find_job id t' ≡ some (fixed_revision first_at r j) = rw written at kept in
          let later = set_found second_at id r' t' (fixed_revision first_at r j) found in
          unfold fixed_revision in cc
    ]
