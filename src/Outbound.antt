-- ===== src/Outbound.antt =====
-- The outbound mailbox of a live stream: internal/api/stream_outbound.go, with the message of
-- internal/api/stream.go.
--
-- Each section under the mailbox's lock is one function, and each channel of capacity one is a
-- flag. The writer's loop is cut where it releases the lock or blocks, so that a list of events
-- is any interleaving of the writer with callers of `enqueue` and `close`. Which ready channel a
-- `select` takes is part of the event. `writes` holds what was handed to the write function, in
-- order; the outcome of a write is a parameter.
pub mod Order
pub mod Wakeups
mod Tests
use muesli.Base.{
  ℕ, Bool, true, false, not, ◌&&◌, Option, none, some, List, [], ◌∷◌, ◌++◌, if◌then◌else◌,
}
use muesli.Base.Int.{ℤ}
use muesli.Base.Text.{Text}

pub record StreamSegmentMessage : Type 0 where
  pub kind : Text  -- the field Type
  pub text : Text
  pub start_ms : ℤ
  pub end_ms : ℤ
  pub speaker : Option Text
  pub provisional : Bool
  pub final : Bool
  pub stream_id : Text
  pub note_id : Text
  pub dropped_ms : ℤ

pub data MessageKind : Type 0 where
  partial_message final_message : MessageKind

pub record QueueState : Type 0 where
  pub has_pending_final : Bool
  pub has_pending_partial : Bool

pub data Action : Type 0 where
  queue_partial coalesce_partial drop_partial queue_priority : Action

-- The kinds are these two, so the switch's default is never taken.
decide_action : QueueState → MessageKind → Action
decide_action state final_message = queue_priority
decide_action state partial_message =
    if state.has_pending_final
    then drop_partial
    else if state.has_pending_partial
    then coalesce_partial
    else queue_partial

kind_from_message : StreamSegmentMessage → MessageKind
kind_from_message msg = if msg.final then final_message else partial_message

pub record Mailbox : Type 0 where
  pub partial_wake : Bool
  pub final_wake : Bool
  pub close_wake : Bool
  pub partial : Option StreamSegmentMessage
  pub finals : List StreamSegmentMessage
  pub closed : Bool

pub new_mailbox : Mailbox
new_mailbox = record {
  partial_wake = false;
  final_wake = false;
  close_wake = false;
  partial = none;
  finals = [];
  closed = false;
}

abbrev pub is_some {ℓ} : {A : Type ℓ} → Option A → Bool
is_some none = false
is_some (some a) = true

abbrev pub is_nil {ℓ} : {A : Type ℓ} → List A → Bool
is_nil [] = true
is_nil (x ∷ xs) = false

abbrev not_nil {ℓ} : {A : Type ℓ} → List A → Bool
not_nil [] = false
not_nil (x ∷ xs) = true

-- The switch of `enqueue`: a send on a full channel of capacity one changes nothing.
perform : Action → StreamSegmentMessage → Mailbox → Mailbox
perform queue_priority msg q = record q {
  finals = q.finals ++ msg ∷ [];
  partial = none;
  final_wake = true;
}
perform queue_partial msg q = record q { partial = some msg; partial_wake = true }
perform coalesce_partial msg q = record q { partial = some msg; partial_wake = true }
perform drop_partial msg q = q

pub enqueue : StreamSegmentMessage → Mailbox → Mailbox
enqueue msg q =
    let state : QueueState = record {
      has_pending_final = not_nil q.finals;
      has_pending_partial = is_some q.partial;
    } in
    perform (decide_action state (kind_from_message msg)) msg q

pub close : Mailbox → Mailbox
close q = record q { closed = true; close_wake = true }

pub closed_and_empty : Mailbox → Bool
closed_and_empty q = q.closed && (is_nil q.finals && not (is_some q.partial))

next_priority : Mailbox → Option (StreamSegmentMessage × Mailbox)
next_priority q = elim q.finals [ [] ↦ none | msg ∷ rest ↦ some (msg, record q { finals = rest }) ]

next_writable_partial : Mailbox → Option (StreamSegmentMessage × Mailbox)
next_writable_partial q =
    if not_nil q.finals
    then none
    else elim q.partial [ none ↦ none | some msg ↦ some (msg, record q { partial = none }) ]

-- Where the writer's loop stands: at its top, before its second and third test, blocked in one of
-- its two selects, or returned, with or without an error.
pub data Phase : Type 0 where
  top check_closed check_partial wait_partial wait_idle returned failed : Phase

pub record Writer : Type 0 where
  pub mailbox : Mailbox
  pub open mailbox use *
  pub phase : Phase
  pub timer : Bool
  pub writes : List StreamSegmentMessage

pub new_writer : Writer
new_writer = record { mailbox = new_mailbox; phase = top; timer = false; writes = [] }

-- The channel that a select takes.
pub data Channel : Type 0 where
  final_channel partial_channel timer_channel close_channel : Channel

module _ (write : StreamSegmentMessage → Bool) where
  -- A write that fails ends the loop.
  write_message : StreamSegmentMessage → Writer → Writer
  write_message msg w = record w {
    writes = w.writes ++ msg ∷ [];
    phase = if write msg then top else failed;
  }

  at_top : Writer → Writer
  at_top w = elim (next_priority w.mailbox) [
    | none ↦ record w { phase = check_closed }
    | some (msg, q) ↦ write_message msg (record w { mailbox = q; timer = false })
  ]

  at_check_closed : Writer → Writer
  at_check_closed w = record w {
    phase = if closed_and_empty w.mailbox then returned else check_partial;
  }

  at_check_partial : Writer → Writer
  at_check_partial w =
      if is_some w.partial
      then record w { phase = wait_partial; timer = true }
      else record w { phase = wait_idle; timer = false }

  -- One step of the loop between two blocking points.
  advance : Phase → Writer → Writer
  advance top w = at_top w
  advance check_closed w = at_check_closed w
  advance check_partial w = at_check_partial w
  advance _ w = w

  on_timer : Writer → Writer
  on_timer w = elim (next_writable_partial w.mailbox) [
    | none ↦ record w { timer = false; phase = top }
    | some (msg, q) ↦ write_message msg (record w { mailbox = q; timer = false })
  ]

  take_final : Writer → Writer
  take_final w = record w { mailbox = record (w.mailbox) { final_wake = false }; phase = top }

  take_partial : Writer → Writer
  take_partial w = record w { mailbox = record (w.mailbox) { partial_wake = false }; phase = top }

  take_close : Writer → Writer
  take_close w = record w { mailbox = record (w.mailbox) { close_wake = false }; phase = top }

  -- The selects. A channel that is not ready leaves the writer blocked.
  select : Phase → Channel → Writer → Writer
  select wait_partial final_channel w =
      if w.final_wake then record (take_final w) { timer = false } else w
  select wait_partial partial_channel w = if w.partial_wake then take_partial w else w
  select wait_partial timer_channel w = if w.timer then on_timer w else w
  select wait_partial close_channel w =
      if w.close_wake then record (take_close w) { timer = false } else w
  select wait_idle final_channel w = if w.final_wake then take_final w else w
  select wait_idle partial_channel w = if w.partial_wake then take_partial w else w
  select wait_idle close_channel w =
      if w.close_wake
      then record (take_close w) { phase = if closed_and_empty w.mailbox then returned else top }
      else w
  select _ _ w = w

pub data Event : Type 0 where
  enqueues : StreamSegmentMessage → Event
  closes : Event
  advances : Event
  selects : Channel → Event

module _ (write : StreamSegmentMessage → Bool) where
  pub step : Event → Writer → Writer
  step (enqueues msg) w = record w { mailbox = enqueue msg w.mailbox }
  step closes w = record w { mailbox = close w.mailbox }
  step advances w = advance write w.phase w
  step (selects c) w = select write w.phase c w

  pub run : List Event → Writer → Writer
  run [] w = w
  run (e ∷ es) w = run es (step e w)
