-- ===== src/Jobs/Tests.antt =====
-- Enqueued jobs, and the theorems at them.
use muesli.Base.{◌≡◌, refl, true, Option, []}
use muesli.Base.Int.{pos}
use muesli.Base.Text.{codes}
use muesli.Jobs.{JobEnqueue, pre_generate, checks, row, validate}
use muesli.Jobs.Enqueue.{validate-checks}

abbrev brief : JobEnqueue
brief = record {
  note_id = [];
  calendar_event_id = codes "event";
  brief_id = codes "brief";
  brief_generation = pos 2;
  template_id = [];
  stream_id = [];
  live_output_id = [];
  job_type = pre_generate;
  payload = [];
}

brief_valid : validate brief ≡ Option.none
unfolding validate
brief_valid = refl

validate-checks_example : checks (row (codes "job") 5 brief) ≡ true
validate-checks_example = validate-checks (codes "job") 5 brief brief_valid refl
