-- ===== src/Jobs/Queue/Lease.antt =====
-- How long a job stays out of ClaimJob's reach after each statement (internal/store/jobs.go).
use mathlib.Core.List.{Memᴰ}
use muesli.Base.{
  ℕ, ◌+◌, ◌≤◌, ◌<◌, ◌≡◌, ◌≢◌, refl, sym, ◌∙◌, ap, subst, Bool, true, false, some, [], ◌∷◌, inl, inr,
  All, Bool-cases, arith,
}
use muesli.Base.Int.{pos}
use muesli.Base.Text.{Text, text_eq_iff}
use muesli.Jobs.{Job, Table, ok, max_job_attempts, retry_backoff}
use muesli.Jobs.Queue.{
  claimable, update_where, with_id, claimed, claim_job, find_job, failed_row, fail_job,
  complete_job, completed_row,
}
use muesli.Jobs.Queue.Claim.{claim_job-Takes, claim_job-rows}

pub All-Memᴰ : (P : Job → Type 0) (t : Table) {j : Job} → All P t → Memᴰ j t → P j
All-Memᴰ P [] h m = elim m [ ]
All-Memᴰ P (x ∷ t) h (Memᴰ.head e) = subst P (sym e) h.0
All-Memᴰ P (x ∷ t) h (Memᴰ.tail m) = All-Memᴰ P t h.1 m

-- What holds of every row that an update leaves.
pub update_where-All :
    (P : Job → Type 0) (fits : Job → Bool) (change : Job → Job) (t : Table)
    → ((j : Job) → fits j ≡ true → P (change j))
    → ((j : Job) → fits j ≡ false → P j)
    → All P (update_where fits change t)
unfolding update_where
update_where-All P fits change [] h k = tt
update_where-All P fits change (j ∷ t) h k = elim (Bool-cases (fits j)) [
  | inl e ↦ rw e (h j e, update_where-All P fits change t h k)
  | inr e ↦ rw e (k j e, update_where-All P fits change t h k)
]

-- At this time of the database's clock no row of the id is claimable.
abbrev pub OutOfReach : Text → ℕ → Table → Type 0
OutOfReach id db_now t = All (λ j. j.id ≡ id → claimable db_now j ≡ false) t

claim_job_avoids :
    (locked : Job → Bool) (db_now app_now lease : ℕ) (t : Table) (id : Text) (k : Job)
    → OutOfReach id db_now t
    → (claim_job locked db_now app_now lease t).0 ≡ some k
    → k.id ≢ id
unfolding claimed
claim_job_avoids locked db_now app_now lease t id k h e same =
    let taken = claim_job-Takes locked db_now app_now lease t k e in
    let out = All-Memᴰ (λ j. j.id ≡ id → claimable db_now j ≡ false) t h taken.first.member in
    let from : taken.chosen.id ≡ k.id = sym (ap (λ (j : Job). j.id) taken.returned) in
    ground (arith, out (from ∙ same), taken.first.fit)

with_id_change-OutOfReach :
    (id : Text) (db_now : ℕ) (change : Job → Job) (t : Table)
    → ((j : Job) → claimable db_now (change j) ≡ false)
    → OutOfReach id db_now (update_where (with_id id) change t)
with_id_change-OutOfReach id db_now change t h =
    update_where-All (λ j. j.id ≡ id → claimable db_now j ≡ false) (with_id id) change t
      (λ j _ _. h j) (λ j n same. cc (n, (text_eq_iff j.id id).1 same))

claimed-not_claimable :
    (db_now app_now lease later : ℕ) (j : Job)
    → later ≤ app_now + lease
    → claimable later (claimed db_now app_now lease j) ≡ false
unfolding claimable claimed
claimed-not_claimable db_now app_now lease later j h = ground arith

-- Until its lease has run out by the database's clock, a claimed job is not taken again by the next
-- claim, of any worker and whatever rows are locked then.
pub claim_job_exclusive :
    (locked locked' : Job → Bool) (db_now app_now lease later app_later lease' : ℕ) (t : Table)
    (k k' : Job)
    → later ≤ app_now + lease
    → (claim_job locked db_now app_now lease t).0 ≡ some k
    → (claim_job locked' later app_later lease' (claim_job locked db_now app_now lease t).1).0
      ≡ some k'
    → k'.id ≢ k.id
claim_job_exclusive locked locked' db_now app_now lease later app_later lease' t k k' h e e' =
    claim_job_avoids locked' later app_later lease' (claim_job locked db_now app_now lease t).1 k.id
      k'
      (rw (claim_job-rows locked db_now app_now lease t k e) (
        with_id_change-OutOfReach k.id later (claimed db_now app_now lease) t
          (λ j. claimed-not_claimable db_now app_now lease later j h)))
      e'

failed_row-not_claimable :
    (db_now app_now : ℕ) (message : Text) (retryable : Bool) (attempts later : ℕ) (j : Job)
    → (retryable ≡ true
        → attempts < max_job_attempts
        → later ≤ app_now + retry_backoff (pos attempts))
    → claimable later (failed_row db_now app_now message retryable attempts j) ≡ false
unfolding claimable failed_row
failed_row-not_claimable db_now app_now message retryable attempts later j h = ground arith

fail_job_rows :
    (db_now app_now : ℕ) (id message : Text) (retryable : Bool) (t t' : Table) (j : Job)
    → find_job id t ≡ some j
    → fail_job db_now app_now id message retryable t ≡ ok t'
    → update_where (with_id id) (failed_row db_now app_now message retryable j.attempts) t ≡ t'
unfolding fail_job
fail_job_rows db_now app_now id message retryable t t' j f e =
    let written : fail_job db_now app_now id message retryable t
        ≡ ok
            (update_where (with_id id) (failed_row db_now app_now message retryable j.attempts) t) =
      rw (f, fail_job) in
    cc

-- A failed job that may be retried and has attempts left is not taken by the next claim before its
-- backoff has passed; one that may not, or has none left, is not taken by it at any time.
pub fail_job_backs_off :
    (locked : Job → Bool) (db_now app_now later app_later lease : ℕ) (id message : Text)
    (retryable : Bool) (t t' : Table) (j k : Job)
    → find_job id t ≡ some j
    → (retryable ≡ true
        → j.attempts < max_job_attempts
        → later ≤ app_now + retry_backoff (pos j.attempts))
    → fail_job db_now app_now id message retryable t ≡ ok t'
    → (claim_job locked later app_later lease t').0 ≡ some k
    → k.id ≢ id
fail_job_backs_off locked db_now app_now later app_later lease id message retryable t t' j k f h e =
    claim_job_avoids locked later app_later lease t' id k (
      subst (OutOfReach id later) (fail_job_rows db_now app_now id message retryable t t' j f e) (
        with_id_change-OutOfReach id later (failed_row db_now app_now message retryable j.attempts)
          t (λ i. failed_row-not_claimable db_now app_now message retryable j.attempts later i h)))

complete_job_rows :
    (db_now : ℕ) (id : Text) (t t' : Table)
    → complete_job db_now id t ≡ ok t'
    → update_where (with_id id) (completed_row db_now) t ≡ t'
unfolding complete_job
complete_job_rows db_now id t t' e = ground arith

completed_row-not_claimable :
    (db_now later : ℕ) (j : Job) → claimable later (completed_row db_now j) ≡ false
unfolding claimable completed_row
completed_row-not_claimable db_now later j = refl

-- A completed job is never claimed again, at any time and by any worker.
complete_job_final :
    (locked : Job → Bool) (db_now later app_later lease : ℕ) (id : Text) (t t' : Table) (k : Job)
    → complete_job db_now id t ≡ ok t'
    → (claim_job locked later app_later lease t').0 ≡ some k
    → k.id ≢ id
complete_job_final locked db_now later app_later lease id t t' k e =
    claim_job_avoids locked later app_later lease t' id k (
      subst (OutOfReach id later) (complete_job_rows db_now id t t' e) (
        with_id_change-OutOfReach id later (completed_row db_now) t
          (completed_row-not_claimable db_now later)))
