-- ===== src/Jobs/Queue.antt =====
-- The statements on queued jobs: internal/store/jobs.go and internal/store/retry.go.
pub mod Rows
pub mod Claim
pub mod Claimed
pub mod Lease
pub mod Priority
pub mod Recovery
mod Tests
use muesli.Base.{
  ℕ, zero, suc, ◌+◌, Bool, true, false, not, ◌&&◌, ◌||◌, Option, none, some, List, [], ◌∷◌, ◌++◌,
  map, ltb, leb, ◌==◌, if◌then◌else◌,
}
use muesli.Base.Int.{ℤ, pos}
use muesli.Base.Text.{Text, text_eq}
use muesli.Jobs.{
  Job, JobStatus, JobType, Table, pending, running, done, failed, cancelled, is_pending, is_running,
  is_summarize, max_job_attempts, retry_backoff, StoreError, Result, ok, err, not_found,
  invalid_transition,
}

-- `lease_expires_at < now()`: false on NULL.
abbrev pub lease_expired : ℕ → Option ℕ → Bool
lease_expired db_now none = false
lease_expired db_now (some expires) = ltb expires db_now

abbrev pub is_null : Option ℕ → Bool
is_null none = true
is_null (some x) = false

-- The condition of ClaimJob's SELECT.
pub claimable : ℕ → Job → Bool
claimable db_now j =
    (is_pending j.status && (is_null j.lease_expires_at || lease_expired db_now j.lease_expires_at))
    || (is_running j.status && lease_expired db_now j.lease_expires_at)

-- ORDER BY priority DESC, created_at ASC: a row that stands before another.
pub before : Job → Job → Bool
before a b =
    ltb b.priority a.priority || ((a.priority == b.priority) && ltb a.created_at b.created_at)

-- The first of the rows that fit, in that order; of equal rows the first in the table.
pub first_of_rows : (Job → Bool) → Table → Option Job
first_of_rows fits [] = none
first_of_rows fits (j ∷ t) =
    let best = first_of_rows fits t in
    if fits j
    then elim best [ none ↦ some j | some b ↦ if before b j then some b else some j ]
    else best

-- UPDATE jobs SET … WHERE …
pub update_where : (Job → Bool) → (Job → Job) → Table → Table
update_where fits change [] = []
update_where fits change (j ∷ t) = (if fits j then change j else j) ∷ update_where fits change t

-- RowsAffected.
pub count_where : (Job → Bool) → Table → ℕ
count_where fits [] = 0
count_where fits (j ∷ t) = if fits j then suc (count_where fits t) else count_where fits t

abbrev pub with_id : Text → Job → Bool
with_id id j = text_eq j.id id

pub find_job : Text → Table → Option Job
find_job id [] = none
find_job id (j ∷ t) = if text_eq j.id id then some j else find_job id t

-- What ClaimJob writes, and returns of the job it selected.
pub claimed : ℕ → ℕ → ℕ → Job → Job
claimed db_now app_now lease j = record j {
  status = running;
  attempts = j.attempts + 1;
  lease_expires_at = some (app_now + lease);
  started_at = some db_now;
  finished_at = none;
  updated_at = db_now;
}

-- FOR UPDATE SKIP LOCKED passes over the rows that other transactions hold.
pub claim_job : (Job → Bool) → ℕ → ℕ → ℕ → Table → Option Job × Table
claim_job locked db_now app_now lease t =
    elim (first_of_rows (λ j. claimable db_now j && not (locked j)) t) [
      | none ↦ (none, t)
      | some j ↦ (
        some (claimed db_now app_now lease j),
        update_where (with_id j.id) (claimed db_now app_now lease) t,
      )
    ]

pub update_job_payload : ℕ → Text → Text → Table → Result Table
update_job_payload db_now id payload t =
    if count_where (with_id id) t == 0
    then err not_found
    else ok (update_where (with_id id) (λ j. record j { payload = payload; updated_at = db_now }) t)

pub completed_row : ℕ → Job → Job
completed_row db_now j = record j {
  status = done;
  lease_expires_at = none;
  last_error = none;
  finished_at = some db_now;
  updated_at = db_now;
}

pub complete_job : ℕ → Text → Table → Result Table
complete_job db_now id t =
    if count_where (with_id id) t == 0
    then err not_found
    else ok (update_where (with_id id) (completed_row db_now) t)

-- What FailJob writes, from the attempts that it read.
pub failed_row : ℕ → ℕ → Text → Bool → ℕ → Job → Job
failed_row db_now app_now message retryable attempts j =
    let retries = retryable && ltb attempts max_job_attempts in
    record j {
      status = if retries then pending else failed;
      last_error = some message;
      lease_expires_at = if retries then some (app_now + retry_backoff (pos attempts)) else none;
      finished_at = some db_now;
      updated_at = db_now;
    }

pub fail_job : ℕ → ℕ → Text → Text → Bool → Table → Result Table
fail_job db_now app_now id message retryable t = elim (find_job id t) [
  | none ↦ err not_found
  | some j ↦
      ok (update_where (with_id id) (failed_row db_now app_now message retryable j.attempts) t)
]

pub count_active_summarize_jobs : Text → Table → ℕ
count_active_summarize_jobs note_id = count_where (λ j.
    text_eq j.note_id note_id
    && (is_summarize j.job_type && (is_pending j.status || is_running j.status)))

-- COALESCE(MAX(priority), 0) over the pending jobs.
pub max_pending_priority : Table → ℕ
max_pending_priority [] = 0
max_pending_priority (j ∷ t) =
    let rest = max_pending_priority t in
    if is_pending j.status && ltb rest j.priority then j.priority else rest

abbrev pub pending_of_note : Text → Job → Bool
pending_of_note note_id j = text_eq j.note_id note_id && is_pending j.status

pub bump_note_job_priority : ℕ → Text → Table → ℕ × Table
bump_note_job_priority db_now note_id t = (
  count_where (pending_of_note note_id) t,
  update_where (pending_of_note note_id)
      (λ j. record j { priority = max_pending_priority t + 1; updated_at = db_now }) t,
)

abbrev pub pending_with_id : Text → Job → Bool
pending_with_id id j = text_eq j.id id && is_pending j.status

pub cancel_job : ℕ → Text → Table → Result Table
cancel_job db_now id t =
    if count_where (pending_with_id id) t == 0
    then err invalid_transition
    else ok (
        update_where (pending_with_id id)
          (λ j. record j { status = cancelled; updated_at = db_now }) t)

abbrev pub requeued : ℕ → Job → Job
requeued db_now j = record j { status = pending; lease_expires_at = none; updated_at = db_now }

pub reset_running_jobs : ℕ → Table → ℕ × Table
reset_running_jobs db_now t = (
  count_where (λ j. is_running j.status) t,
  update_where (λ j. is_running j.status) (requeued db_now) t,
)

abbrev pub expired_running : ℕ → Job → Bool
expired_running db_now j = is_running j.status && lease_expired db_now j.lease_expires_at

pub reset_expired_running_jobs : ℕ → Table → ℕ × Table
reset_expired_running_jobs db_now t = (
  count_where (expired_running db_now) t,
  update_where (expired_running db_now) (requeued db_now) t,
)

pub get_job : Text → Table → Result Job
get_job id t = elim (find_job id t) [ none ↦ err not_found | some j ↦ ok j ]

-- The row's count for each status, in the order of the map's literal.
pub record StatusCounts : Type 0 where
  pub pending_jobs : ℕ
  pub running_jobs : ℕ
  pub done_jobs : ℕ
  pub failed_jobs : ℕ
  pub cancelled_jobs : ℕ

abbrev pub status_eq : JobStatus → JobStatus → Bool
status_eq pending pending = true
status_eq running running = true
status_eq done done = true
status_eq failed failed = true
status_eq cancelled cancelled = true
status_eq _ _ = false

pub job_status_counts : Table → StatusCounts
job_status_counts t = record {
  pending_jobs = count_where (λ j. status_eq j.status pending) t;
  running_jobs = count_where (λ j. status_eq j.status running) t;
  done_jobs = count_where (λ j. status_eq j.status done) t;
  failed_jobs = count_where (λ j. status_eq j.status failed) t;
  cancelled_jobs = count_where (λ j. status_eq j.status cancelled) t;
}

abbrev pub coalesce : Option ℤ → ℤ → ℤ
coalesce none r = r
coalesce (some r) _ = r

pub set_job_target_revision_if_null : ℕ → Text → ℤ → Table → Result (ℤ × Table)
set_job_target_revision_if_null db_now id revision t = elim (find_job id t) [
  | none ↦ err not_found
  | some j ↦ ok (
    coalesce j.target_revision revision,
    update_where (with_id id)
        (λ k. record k {
          target_revision = some (coalesce k.target_revision revision);
          updated_at = db_now;
        })
        t,
  )
]
