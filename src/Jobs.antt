-- ===== src/Jobs.antt =====
-- The job queue: internal/store/jobs.go, with the job of internal/model/model.go and the check
-- constraints of internal/db/migrations.
--
-- The table is a list of rows, each statement one function on it. A NULL text is the empty text
-- and a NULL generation is 0, which is how the code writes and reads them. The database's clock
-- (`now()`) and the process's clock (`time.Now()`) are two arguments, in nanoseconds. The ids are
-- those of the uuid package. `locked` says which rows other open transactions hold, and `refuses`
-- stands for the foreign keys and the unique index, which are not modelled.
pub mod Queue
pub mod Enqueue
mod Tests
use muesli.Base.{
  ℕ, zero, suc, ◌+◌, ◌*◌, ◌^◌, ◌≡◌, Bool, true, false, not, ◌&&◌, ◌||◌, Option, none, some, List,
  [], ◌∷◌, ◌++◌, map, length, ltb, leb, ◌==◌, if◌then◌else◌,
}
use muesli.Base.Int.{ℤ, pos, negsuc, leb_ℤ, ltb_ℤ, pos_part}
use muesli.Base.Text.{Text, is_empty, text_eq, codes}

-- The five types that the constraint jobs_type_check admits.
pub data JobType : Type 0 where
  transcribe summarize embed pre_generate live_generate : JobType

pub data JobStatus : Type 0 where
  pending running done failed cancelled : JobStatus

pub record Job : Type 0 where
  pub id : Text
  pub note_id : Text
  pub calendar_event_id : Text
  pub brief_id : Text
  pub brief_generation : ℕ
  pub template_id : Text
  pub stream_id : Text
  pub live_output_id : Text
  pub target_revision : Option ℤ
  pub job_type : JobType
  pub status : JobStatus
  pub attempts : ℕ
  pub last_error : Option Text
  pub priority : ℕ
  pub payload : Text
  pub lease_expires_at : Option ℕ
  pub created_at : ℕ
  pub updated_at : ℕ
  pub started_at : Option ℕ
  pub finished_at : Option ℕ

abbrev pub Table : Type 0
Table = List Job

abbrev pub is_pending : JobStatus → Bool
is_pending pending = true
is_pending _ = false

abbrev pub is_running : JobStatus → Bool
is_running running = true
is_running _ = false

abbrev pub is_summarize : JobType → Bool
is_summarize summarize = true
is_summarize _ = false

abbrev pub is_pre_generate : JobType → Bool
is_pre_generate pre_generate = true
is_pre_generate _ = false

abbrev pub is_live_generate : JobType → Bool
is_live_generate live_generate = true
is_live_generate _ = false

pub data TargetKind : Type 0 where
  target_note target_calendar_event : TargetKind

-- model.Job.TargetKind.
pub target_kind : Job → Option TargetKind
target_kind j =
    let has_note = not (is_empty j.note_id) in
    let has_event = not (is_empty j.calendar_event_id) in
    if has_note && not has_event
    then some target_note
    else if has_event && not has_note
    then some target_calendar_event
    else none

abbrev pub second : ℕ
second = 1_000_000_000

abbrev pub max_job_attempts : ℕ
max_job_attempts = 3

abbrev pub max_retry_backoff : ℕ
max_retry_backoff = 30 * second

-- RetryBackoff.
pub retry_backoff : ℤ → ℕ
retry_backoff attempts =
    let clamped =
      if ltb_ℤ attempts (pos 1)
      then 1
      else if ltb_ℤ (pos 5) attempts
      then 5
      else pos_part attempts in
    let backoff = 2 ^ clamped * second in
    if ltb max_retry_backoff backoff then max_retry_backoff else backoff

pub record JobEnqueue : Type 0 where
  pub note_id : Text
  pub calendar_event_id : Text
  pub brief_id : Text
  pub brief_generation : ℤ
  pub template_id : Text
  pub stream_id : Text
  pub live_output_id : Text
  pub job_type : JobType
  pub payload : Text

pub data StoreError : Type 0 where
  one_target_required : StoreError
  event_required : StoreError
  brief_required : StoreError
  note_required : StoreError
  live_fields_required : StoreError
  constraint_violated : StoreError
  not_found : StoreError
  invalid_transition : StoreError

pub data Result {ℓ} (A : Type ℓ) : Type ℓ where
  ok : A → Result A
  err : StoreError → Result A

-- The checks of EnqueueJob before it writes.
pub validate : JobEnqueue → Option StoreError
validate spec =
    let has_note = not (is_empty spec.note_id) in
    let has_event = not (is_empty spec.calendar_event_id) in
    let same = (has_note && has_event) || (not has_note && not has_event) in
    let live =
      if is_live_generate spec.job_type
        && (is_empty spec.template_id || is_empty spec.stream_id || is_empty spec.live_output_id)
      then some live_fields_required
      else none in
    if same
    then some one_target_required
    else if is_pre_generate spec.job_type
    then (if not has_event
        then some event_required
        else if is_empty spec.brief_id || leb_ℤ spec.brief_generation (pos 0)
        then some brief_required
        else live)
    else if not has_note
    then some note_required
    else live

-- The row that EnqueueJob inserts.
pub row : Text → ℕ → JobEnqueue → Job
row id db_now spec = record {
  id = id;
  note_id = spec.note_id;
  calendar_event_id = spec.calendar_event_id;
  brief_id = spec.brief_id;
  brief_generation = pos_part spec.brief_generation;
  template_id = spec.template_id;
  stream_id = spec.stream_id;
  live_output_id = spec.live_output_id;
  target_revision = none;
  job_type = spec.job_type;
  status = pending;
  attempts = 0;
  last_error = none;
  priority = 0;
  payload = if is_empty spec.payload then codes "{}" else spec.payload;
  lease_expires_at = none;
  created_at = db_now;
  updated_at = db_now;
  started_at = none;
  finished_at = none;
}

-- jobs_target_xor_check.
target_xor_check : Job → Bool
target_xor_check j =
    (not (is_empty j.note_id) && is_empty j.calendar_event_id)
    || (is_empty j.note_id && not (is_empty j.calendar_event_id))

-- jobs_target_type_check.
target_type_check : Job → Bool
target_type_check j =
    (is_pre_generate j.job_type && not (is_empty j.calendar_event_id))
    || (not (is_pre_generate j.job_type) && not (is_empty j.note_id))

-- jobs_brief_fields_check: a generation of 0 stands for NULL.
brief_fields_check : Job → Bool
brief_fields_check j =
    (is_empty j.brief_id && (j.brief_generation == 0))
    || (not (is_empty j.brief_id) && not (j.brief_generation == 0))

-- jobs_live_fields_check.
live_fields_check : Job → Bool
live_fields_check j =
    not (is_live_generate j.job_type)
    || (not (is_empty j.template_id)
        && (not (is_empty j.stream_id) && not (is_empty j.live_output_id)))

pub checks : Job → Bool
checks j =
    target_xor_check j && (target_type_check j && (brief_fields_check j && live_fields_check j))

-- The primary key.
pub has_id : Text → Table → Bool
has_id id [] = false
has_id id (j ∷ t) = text_eq j.id id || has_id id t

pub insert : (Table → Job → Bool) → Job → Table → Result Table
insert refuses j t =
    if checks j && (not (has_id j.id t) && not (refuses t j))
    then ok (t ++ j ∷ [])
    else err constraint_violated

pub enqueue_job : (Table → Job → Bool) → Text → ℕ → JobEnqueue → Table → Result (Text × Table)
enqueue_job refuses id db_now spec t = elim (validate spec) [
  | some e ↦ err e
  | none ↦ elim (insert refuses (row id db_now spec) t) [ ok t' ↦ ok (id, t') | err e ↦ err e ]
]

pub enqueue_note_job :
    (Table → Job → Bool) → Text → ℕ → Text → JobType → Text → Table → Result (Text × Table)
enqueue_note_job refuses id db_now note_id job_type payload t =
    enqueue_job refuses id db_now
      (record {
        note_id = note_id;
        calendar_event_id = [];
        brief_id = [];
        brief_generation = pos 0;
        template_id = [];
        stream_id = [];
        live_output_id = [];
        job_type = job_type;
        payload = payload;
      })
      t
