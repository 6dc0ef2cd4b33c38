-- ===== src/Outbound/Tests.antt =====
-- Runs of the mailbox, and the theorems at them.
use muesli.Base.{◌≡◌, refl, Bool, true, false, none, List, [], ◌∷◌}
use muesli.Base.Int.{pos}
use muesli.Base.Text.{codes}
use muesli.Outbound.Order.{delivered, all_offered, finals_of, run-delivered}
use muesli.Outbound.Wakeups.{has_work, some_ready, run_never_stuck, returned_delivers}
use muesli.Outbound.{
  StreamSegmentMessage, Event, enqueues, closes, advances, wait_idle, wait_partial, step, run,
  new_writer, new_mailbox, enqueue, perform, decide_action, kind_from_message, close,
  closed_and_empty, next_priority, write_message, at_top, at_check_closed, at_check_partial,
  advance,
}

message : Bool → StreamSegmentMessage
message final = record {
  kind = codes "segment";
  text = codes "hello";
  start_ms = pos 0;
  end_ms = pos 900;
  speaker = none;
  provisional = true;
  final = final;
  stream_id = [];
  note_id = [];
  dropped_ms = pos 0;
}

abbrev always : StreamSegmentMessage → Bool
always m = true

-- The final replaces the partial before it, and drops the one behind it.
abbrev session : List Event
session =
    enqueues (message false)
    ∷ enqueues (message true)
    ∷ enqueues (message false)
    ∷ advances
    ∷ closes
    ∷ advances
    ∷ []

session_writes : (run always session new_writer).writes ≡ message true ∷ []
unfolding run step new_writer new_mailbox enqueue perform decide_action kind_from_message close
    closed_and_empty next_priority write_message at_top at_check_closed at_check_partial advance
    message
session_writes = refl

run-delivered_example : delivered (run always session new_writer) ≡ all_offered session
run-delivered_example = run-delivered always session

run_never_stuck_example :
    let w = run always session new_writer in
    (w.phase ≡ wait_idle → has_work w ≡ true → some_ready w ≡ true)
    × (w.phase ≡ wait_partial → w.timer ≡ true)
run_never_stuck_example = run_never_stuck always session

returned_delivers_example :
    let w = run always session new_writer in
    (w.closed ≡ true) × (w.partial ≡ none) × (finals_of w.writes ≡ all_offered session)
unfolding run step new_writer new_mailbox enqueue perform decide_action kind_from_message close
    closed_and_empty next_priority write_message at_top at_check_closed at_check_partial advance
    message
returned_delivers_example = returned_delivers always session advances (λ e. cc) refl
