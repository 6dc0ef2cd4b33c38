-- ===== src/Jobs/Queue/Priority.antt =====
-- "Process next": BumpNoteJobPriority against ClaimJob's order (internal/store/jobs.go).
use mathlib.Core.List.{Memᴰ}
use muesli.Base.{
  ℕ, ◌+◌, ◌≤◌, ◌<◌, ◌≡◌, refl, Bool, true, false, not, ◌&&◌, [], ◌∷◌, inl, inr, All, Bool-cases,
  if◌then◌else◌, arith,
}
use muesli.Base.Text.{Text, text_eq}
use muesli.Jobs.{Job, Table, is_pending}
use muesli.Jobs.Queue.{
  before, claimable, update_where, max_pending_priority, pending_of_note, bump_note_job_priority,
}
use muesli.Jobs.Queue.Claim.{Takes}
use muesli.Jobs.Queue.Lease.{All-Memᴰ}

abbrev Capped : ℕ → Table → Type 0
Capped n t = All (λ j. is_pending j.status ≡ true → j.priority ≤ n) t

Capped-mono : (m n : ℕ) (t : Table) → m ≤ n → Capped m t → Capped n t
Capped-mono m n [] h c = tt
Capped-mono m n (j ∷ t) h c = (λ p. omega (arith, c.0 p), Capped-mono m n t h c.1)

max_pending_priority-Capped : (t : Table) → Capped (max_pending_priority t) t
unfolding max_pending_priority
max_pending_priority-Capped [] = tt
max_pending_priority-Capped (j ∷ t) = (
  λ p. ground arith,
  Capped-mono (max_pending_priority t) (max_pending_priority (j ∷ t)) t (ground arith)
      (max_pending_priority-Capped t),
)

-- Of the pending jobs, those of the note stand at `n`, and the others below it.
abbrev RaisedRow : Text → ℕ → Job → Type 0
RaisedRow note_id n j =
    (is_pending j.status ≡ true → text_eq j.note_id note_id ≡ true → j.priority ≡ n)
    × (is_pending j.status ≡ true → text_eq j.note_id note_id ≡ false → j.priority < n)

raise : ℕ → ℕ → Job → Job
raise db_now n j = record j { priority = n; updated_at = db_now }

raise-RaisedRow :
    (db_now : ℕ) (note_id : Text) (n : ℕ) (j : Job)
    → (is_pending j.status ≡ true → j.priority ≤ n)
    → RaisedRow note_id (n + 1) (if pending_of_note note_id j then raise db_now (n + 1) j else j)
unfolding raise
raise-RaisedRow db_now note_id n j h = elim (Bool-cases (pending_of_note note_id j)) [
  | inl e ↦ rw e (λ p q. refl, λ p q. ground arith)
  | inr e ↦ rw e (λ p q. ground arith, λ p q. ground arith)
]

update_where-Raised :
    (db_now : ℕ) (note_id : Text) (n : ℕ) (t : Table)
    → Capped n t
    → All
        (RaisedRow note_id (n + 1))
        (update_where (pending_of_note note_id) (raise db_now (n + 1)) t)
unfolding update_where
update_where-Raised db_now note_id n [] h = tt
update_where-Raised db_now note_id n (j ∷ t) h =
    (raise-RaisedRow db_now note_id n j h.0, update_where-Raised db_now note_id n t h.1)

bump-Raised :
    (db_now : ℕ) (note_id : Text) (t : Table)
    → All
        (RaisedRow note_id (max_pending_priority t + 1))
        (bump_note_job_priority db_now note_id t).1
unfolding bump_note_job_priority raise
bump-Raised db_now note_id t =
    update_where-Raised db_now note_id (max_pending_priority t) t (max_pending_priority-Capped t)

-- After "process next" for a note, if some pending job of that note is claimable and not held,
-- a claim that takes a pending job takes one of that note's.
pub bump_first :
    (locked : Job → Bool) (bumped_at db_now app_now lease : ℕ) (note_id : Text) (t : Table)
    (m k : Job)
    → Memᴰ m (bump_note_job_priority bumped_at note_id t).1
    → pending_of_note note_id m ≡ true
    → (claimable db_now m && not (locked m)) ≡ true
    → (took : Takes locked db_now app_now lease (bump_note_job_priority bumped_at note_id t).1 k)
    → is_pending took.chosen.status ≡ true
    → text_eq took.chosen.note_id note_id ≡ true
unfolding before
bump_first locked bumped_at db_now app_now lease note_id t m k member ours free took p =
    let rows = bump-Raised bumped_at note_id t in
    let n = max_pending_priority t + 1 in
    let top = All-Memᴰ (RaisedRow note_id n) _ rows member in
    let own = All-Memᴰ (RaisedRow note_id n) _ rows took.first.member in
    let unbeaten =
      All-Memᴰ (λ j. (claimable db_now j && not (locked j)) ≡ true → before j took.chosen ≡ false) _
        took.first.unbeaten member free in
    ground arith
