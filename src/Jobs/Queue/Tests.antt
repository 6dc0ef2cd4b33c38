-- ===== src/Jobs/Queue/Tests.antt =====
-- A small queue, and the theorems at it.
use mathlib.Core.List.{Memᴰ}
use muesli.Base.{ℕ, ◌≡◌, ◌≢◌, refl, Bool, true, false, Option, none, some, [], ◌∷◌, arith}
use muesli.Base.Text.{Text, codes, text_eq}
use muesli.Jobs.{Job, JobStatus, Table, ok, pending, running, summarize, retry_backoff}
use muesli.Jobs.Queue.{
  claimable, before, first_of_rows, update_where, count_where, claimed, claim_job, find_job,
  failed_row, fail_job, completed_row, complete_job, max_pending_priority, bump_note_job_priority,
  reset_expired_running_jobs, job_status_counts,
}
use muesli.Jobs.Queue.Claim.{Takes}
use muesli.Jobs.Queue.Claimed.{Claims, claim_job-Claims}
use muesli.Jobs.Queue.Lease.{claim_job_exclusive, fail_job_backs_off}
use muesli.Jobs.Queue.Priority.{bump_first}
use muesli.Jobs.Queue.Rows.{Pairwise}
use muesli.Jobs.Queue.Recovery.{Recovers, Swept, reset_expired_running_jobs-Recovers}

abbrev job : Text → Text → JobStatus → Option ℕ → ℕ → Job
job id note status lease created = record {
  id = id;
  note_id = note;
  calendar_event_id = [];
  brief_id = [];
  brief_generation = 0;
  template_id = [];
  stream_id = [];
  live_output_id = [];
  target_revision = none;
  job_type = summarize;
  status = status;
  attempts = 1;
  last_error = none;
  priority = 0;
  payload = [];
  lease_expires_at = lease;
  created_at = created;
  updated_at = created;
  started_at = none;
  finished_at = none;
}

abbrev older : Job
older = job (codes "a") (codes "n") pending none 1

abbrev newer : Job
newer = job (codes "b") (codes "m") pending none 2

abbrev orphan : Job
orphan = job (codes "c") (codes "n") running (some 10) 3

abbrev queue : Table
queue = older ∷ newer ∷ orphan ∷ []

abbrev nothing_locked : Job → Bool
nothing_locked j = false

-- The older of two jobs of the same priority goes first, the other next.
claims_oldest : (claim_job nothing_locked 5 5 30 queue).0 ≡ some (claimed 5 5 30 older)
unfolding claim_job first_of_rows claimable before
claims_oldest = refl

claims_next :
    (claim_job nothing_locked 6 6 30 (claim_job nothing_locked 5 5 30 queue).1).0
    ≡ some (claimed 6 6 30 newer)
unfolding claim_job first_of_rows claimable before update_where claimed
claims_next = refl

claim_job-Claims_example :
    let (k, t') = claim_job nothing_locked 5 5 30 queue in Claims nothing_locked 5 5 30 queue k t'
claim_job-Claims_example = claim_job-Claims nothing_locked 5 5 30 queue

claim_job_exclusive_example : (claimed 6 6 30 newer).id ≢ (claimed 5 5 30 older).id
claim_job_exclusive_example =
    claim_job_exclusive nothing_locked nothing_locked 5 5 30 6 6 30 queue (claimed 5 5 30 older)
      (claimed 6 6 30 newer) (omega arith) claims_oldest claims_next

after_failure : Table
after_failure =
    update_where (λ j. text_eq j.id (codes "a")) (failed_row 5 5 (codes "x") true 1) queue

fails_older : fail_job 5 5 (codes "a") (codes "x") true queue ≡ ok after_failure
unfolding fail_job find_job after_failure
fails_older = refl

claims_after_failure :
    (claim_job nothing_locked 6 6 30 after_failure).0 ≡ some (claimed 6 6 30 newer)
unfolding claim_job first_of_rows claimable before update_where after_failure failed_row
    retry_backoff
claims_after_failure = refl

fail_job_backs_off_example : (claimed 6 6 30 newer).id ≢ codes "a"
unfolding find_job retry_backoff
fail_job_backs_off_example =
    fail_job_backs_off nothing_locked 5 5 6 6 30 (codes "a") (codes "x") true queue after_failure
      older (claimed 6 6 30 newer) refl (λ r a. omega arith) fails_older claims_after_failure

completed : Table
completed = update_where (λ j. text_eq j.id (codes "a")) (completed_row 5) queue

completes_older : complete_job 5 (codes "a") queue ≡ ok completed
unfolding complete_job count_where completed
completes_older = refl

claims_after_completion :
    (claim_job nothing_locked 6 6 30 completed).0 ≡ some (claimed 6 6 30 newer)
unfolding claim_job first_of_rows claimable before update_where completed completed_row
claims_after_completion = refl

abbrev bumped : Table
bumped = (bump_note_job_priority 5 (codes "m") queue).1

abbrev raised : Job
raised = record newer { priority = 1; updated_at = 5 }

bumped_rows : bumped ≡ older ∷ raised ∷ orphan ∷ []
unfolding bump_note_job_priority update_where max_pending_priority
bumped_rows = refl

abbrev took_bumped : Takes nothing_locked 6 6 30 bumped (claimed 6 6 30 raised)
unfolding claimable before bump_note_job_priority update_where max_pending_priority
took_bumped = record {
  chosen = raised;
  first = record {
    fit = refl;
    member = Memᴰ.tail (Memᴰ.head refl);
    unbeaten = (λ _. refl, (λ _. refl, (λ _. refl, tt)));
  };
  returned = refl;
}

bump_first_example : text_eq took_bumped.chosen.note_id (codes "m") ≡ true
unfolding bump_note_job_priority update_where max_pending_priority claimable took_bumped
bump_first_example =
    bump_first nothing_locked 5 6 6 30 (codes "m") queue raised (claimed 6 6 30 raised)
      (Memᴰ.tail (Memᴰ.head refl)) refl refl took_bumped refl

-- The lease of the running job ended at 10: it lasts at 8, and has passed at 20.
keeps_lease : reset_expired_running_jobs 8 queue ≡ (0, queue)
unfolding reset_expired_running_jobs count_where update_where
keeps_lease = refl

reset_expired_running_jobs-Recovers_example :
    let (n, t') = reset_expired_running_jobs 20 queue in
    Pairwise (Swept 20) queue t' × Recovers n (job_status_counts queue) (job_status_counts t')
reset_expired_running_jobs-Recovers_example = reset_expired_running_jobs-Recovers 20 queue
