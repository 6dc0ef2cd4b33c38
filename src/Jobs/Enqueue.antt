-- ===== src/Jobs/Enqueue.antt =====
-- The targets of enqueued jobs, and the retry delays (internal/store/jobs.go,
-- internal/model/model.go and the check constraints of internal/db/migrations).
use native.Mathlib.Nat.{zero-add, suc-add, le_refl, le_trans}
use muesli.Base.{
  ℕ, zero, suc, ◌+◌, ◌-◌, ◌*◌, ◌≤◌, ◌≡◌, refl, true, none, some, ◌==◌, if◌then◌else◌, arith,
}
use muesli.Base.Int.{ℤ, pos, negsuc, pos_part, ◌≤ℤ◌}
use muesli.Base.Text.{Text, is_empty}
use muesli.Jobs.{
  Job, pre_generate, is_pre_generate, JobEnqueue, validate, row, checks, target_xor_check,
  target_type_check, brief_fields_check, live_fields_check, target_kind, target_note,
  target_calendar_event, retry_backoff, second, max_retry_backoff,
}

-- The brief fields come together, as jobs_brief_fields_check wants them.
abbrev pub BriefComplete : JobEnqueue → Type 0
BriefComplete spec = is_empty spec.brief_id ≡ (pos_part spec.brief_generation == 0)

-- A specification that EnqueueJob validates, and whose brief id and generation come together,
-- meets all four check constraints of the jobs table.
pub validate-checks :
    (id : Text) (db_now : ℕ) (spec : JobEnqueue)
    → validate spec ≡ none
    → BriefComplete spec
    → checks (row id db_now spec) ≡ true
unfolding validate checks row target_xor_check target_type_check brief_fields_check
    live_fields_check
validate-checks id db_now spec v b = ground arith

-- A validated pre_generate specification always carries its brief fields together.
pub validate-pre_generate :
    (spec : JobEnqueue) → validate spec ≡ none → spec.job_type ≡ pre_generate → BriefComplete spec
unfolding validate
validate-pre_generate spec v p = ground arith

-- A row that meets the constraints has a target: a calendar event for pre_generate, else a note.
pub target_kind-checks :
    (j : Job)
    → checks j ≡ true
    → target_kind j
      ≡ some (if is_pre_generate j.job_type then target_calendar_event else target_note)
unfolding target_kind checks target_xor_check target_type_check brief_fields_check live_fields_check
target_kind-checks j h = ground arith

-- The delay in seconds, as a table.
abbrev backoff_seconds : ℕ → ℕ
backoff_seconds zero = 2
backoff_seconds (suc zero) = 2
backoff_seconds (suc (suc zero)) = 4
backoff_seconds (suc (suc (suc zero))) = 8
backoff_seconds (suc (suc (suc (suc zero)))) = 16
backoff_seconds (suc (suc (suc (suc (suc n))))) = 30

retry_backoff_table : (n : ℕ) → retry_backoff (pos n) ≡ backoff_seconds n * second
unfolding retry_backoff
retry_backoff_table zero = refl
retry_backoff_table (suc zero) = refl
retry_backoff_table (suc (suc zero)) = refl
retry_backoff_table (suc (suc (suc zero))) = refl
retry_backoff_table (suc (suc (suc (suc zero)))) = refl
retry_backoff_table (suc (suc (suc (suc (suc zero))))) = refl
retry_backoff_table (suc (suc (suc (suc (suc (suc n)))))) = ground arith

retry_backoff_negative : (n : ℕ) → retry_backoff (negsuc n) ≡ 2 * second
unfolding retry_backoff
retry_backoff_negative n = ground arith

backoff_seconds-bounds : (n : ℕ) → (2 ≤ backoff_seconds n) × (backoff_seconds n ≤ 30)
backoff_seconds-bounds zero = omega arith
backoff_seconds-bounds (suc zero) = omega arith
backoff_seconds-bounds (suc (suc zero)) = omega arith
backoff_seconds-bounds (suc (suc (suc zero))) = omega arith
backoff_seconds-bounds (suc (suc (suc (suc zero)))) = omega arith
backoff_seconds-bounds (suc (suc (suc (suc (suc n))))) = omega arith

-- One more attempt never shortens the delay.
backoff_seconds-suc : (n : ℕ) → backoff_seconds n ≤ backoff_seconds (suc n)
backoff_seconds-suc zero = omega arith
backoff_seconds-suc (suc zero) = omega arith
backoff_seconds-suc (suc (suc zero)) = omega arith
backoff_seconds-suc (suc (suc (suc zero))) = omega arith
backoff_seconds-suc (suc (suc (suc (suc zero)))) = omega arith
backoff_seconds-suc (suc (suc (suc (suc (suc n))))) = omega arith

backoff_seconds-add : (k n : ℕ) → backoff_seconds n ≤ backoff_seconds (k + n)
backoff_seconds-add zero n = rw zero-add (le_refl _)
backoff_seconds-add (suc k) n =
    rw suc-add (le_trans (backoff_seconds-add k n) (backoff_seconds-suc (k + n)))

backoff_seconds_mono : (m n : ℕ) → m ≤ n → backoff_seconds m ≤ backoff_seconds n
backoff_seconds_mono m n h =
    let e : n - m + m ≡ n = omega arith in rw e at (backoff_seconds-add (n - m) m)

-- The retry delay lies between 2 and 30 seconds for every count of attempts, the negative ones
-- too, and more attempts never get a shorter delay.
pub retry_backoff_bounds :
    (a b : ℤ)
    → (2 * second ≤ retry_backoff a)
      × (retry_backoff a ≤ max_retry_backoff)
      × (a ≤ℤ b → retry_backoff a ≤ retry_backoff b)
retry_backoff_bounds (pos m) (pos n) =
    rw (retry_backoff_table m, retry_backoff_table n)
      (
        omega (arith, backoff_seconds-bounds m),
        omega (arith, backoff_seconds-bounds m),
        λ h. omega (arith, backoff_seconds_mono m n (omega arith)),
      )
retry_backoff_bounds (pos m) (negsuc n) = rw (retry_backoff_table m) (
  omega (arith, backoff_seconds-bounds m),
  omega (arith, backoff_seconds-bounds m),
  λ h. absurd (omega arith),
)
retry_backoff_bounds (negsuc m) (pos n) =
    rw (retry_backoff_negative m, retry_backoff_table n)
      (omega arith, omega arith, λ h. omega (arith, backoff_seconds-bounds n))
retry_backoff_bounds (negsuc m) (negsuc n) =
    rw (retry_backoff_negative m, retry_backoff_negative n)
      (omega arith, omega arith, λ h. omega arith)
