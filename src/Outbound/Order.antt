-- ===== src/Outbound/Order.antt =====
-- Which messages the mailbox delivers, and in what order (internal/api/stream_outbound.go).
use muesli.Base.{
  ◌≡◌, refl, sym, ◌∙◌, Bool, true, false, Option, none, some, List, [], ◌∷◌, ◌++◌, All, All-append,
  append_assoc, append-nil, if_cases, if◌then◌else◌, arith,
}
use muesli.Outbound.{
  StreamSegmentMessage, Mailbox, Writer, Phase, top, check_closed, check_partial, wait_partial,
  wait_idle, Channel, final_channel, partial_channel, timer_channel, close_channel, Event, enqueues,
  closes, advances, selects, decide_action, kind_from_message, perform, enqueue, close,
  next_priority, next_writable_partial, write_message, at_top, at_check_closed, at_check_partial,
  advance, on_timer, take_final, take_partial, take_close, select, step, run, new_mailbox,
  new_writer, is_some,
}

abbrev IsFinal : StreamSegmentMessage → Type 0
IsFinal m = m.final ≡ true

abbrev PartialOk : List StreamSegmentMessage → Option StreamSegmentMessage → Type 0
PartialOk finals none = Unit {0}
PartialOk finals (some m) = (m.final ≡ false) × (finals ≡ [])

-- The queue holds finals only, and a partial waits only while no final does.
pub record IsSorted (q : Mailbox) : Type 0 where
  pub queue : All IsFinal q.finals
  pub preview : PartialOk q.finals q.partial

enqueue-IsSorted : (m : StreamSegmentMessage) (q : Mailbox) → IsSorted q → IsSorted (enqueue m q)
unfolding enqueue perform decide_action kind_from_message
enqueue-IsSorted m q h =
    ground (arith, λ (e : m.final ≡ true). All-append IsFinal q.finals (m ∷ []) h.queue (e, tt))

abbrev pub finals_of : List StreamSegmentMessage → List StreamSegmentMessage
finals_of [] = []
finals_of (m ∷ ms) = if m.final then m ∷ finals_of ms else finals_of ms

finals_of-append :
    (xs ys : List StreamSegmentMessage) → finals_of (xs ++ ys) ≡ finals_of xs ++ finals_of ys
finals_of-append [] ys = refl
finals_of-append (m ∷ ms) ys = ground (arith, finals_of-append ms ys)

finals_of-final :
    (xs : List StreamSegmentMessage) (m : StreamSegmentMessage)
    → m.final ≡ true
    → finals_of (xs ++ m ∷ []) ≡ finals_of xs ++ m ∷ []
finals_of-final xs m h = rw (finals_of-append xs (m ∷ []), h)

finals_of-partial :
    (xs : List StreamSegmentMessage) (m : StreamSegmentMessage)
    → m.final ≡ false
    → finals_of (xs ++ m ∷ []) ≡ finals_of xs
finals_of-partial xs m h = rw (finals_of-append xs (m ∷ []), h) (append-nil (finals_of xs))

-- The finals that were handed to the write function, then those that wait.
abbrev pub delivered : Writer → List StreamSegmentMessage
delivered w = finals_of w.writes ++ w.finals

-- A step is lawful if it keeps the queue sorted and adds to what is delivered just what it offers.
record Lawful (offered : List StreamSegmentMessage) (w t : Writer) : Type 0 where
  added : delivered t ≡ delivered w ++ offered
  sorted : IsSorted t.mailbox

-- A step that leaves the messages alone is lawful.
quiet :
    {w t : Writer}
    → IsSorted w.mailbox
    → t.writes ≡ w.writes
    → t.finals ≡ w.finals
    → t.partial ≡ w.partial
    → Lawful [] w t
quiet h e f g = record {
  added = rw (e, f) (sym (append-nil _));
  sorted = record { queue = rw f h.queue; preview = rw (f, g) h.preview };
}

-- The finals that an event offers.
abbrev pub offered : Event → List StreamSegmentMessage
offered (enqueues m) = finals_of (m ∷ [])
offered _ = []

-- The finals among the messages that a run enqueues.
abbrev pub all_offered : List Event → List StreamSegmentMessage
all_offered [] = []
all_offered (e ∷ es) = offered e ++ all_offered es

module _ (write : StreamSegmentMessage → Bool) where
  write_final-Lawful :
      (m : StreamSegmentMessage) (ms : List StreamSegmentMessage) (w : Writer)
      → w.finals ≡ m ∷ ms
      → IsSorted w.mailbox
      → Lawful [] w (
          write_message write m
            (record w { mailbox = record (w.mailbox) { finals = ms }; timer = false }))
  unfolding write_message
  write_final-Lawful m ms w e h =
      let sorted = rw e at h.queue in
      record {
        added = rw (finals_of-final w.writes m sorted.0, e) (simp (append_assoc, append-nil));
        sorted = record { queue = sorted.1; preview = ground arith };
      }

  at_top_none : (w : Writer) → w.finals ≡ [] → at_top write w ≡ record w { phase = check_closed }
  unfolding at_top next_priority
  at_top_none w e = ground arith

  at_top_some :
      (m : StreamSegmentMessage) (ms : List StreamSegmentMessage) (w : Writer)
      → w.finals ≡ m ∷ ms
      → at_top write w
        ≡ write_message write m
            (record w { mailbox = record (w.mailbox) { finals = ms }; timer = false })
  unfolding at_top next_priority
  at_top_some m ms w e = ground arith

  at_top-Lawful :
      (fs : List StreamSegmentMessage) (w : Writer)
      → w.finals ≡ fs
      → IsSorted w.mailbox
      → Lawful [] w (at_top write w)
  at_top-Lawful [] w e h = rw (at_top_none w e) (quiet h refl refl refl)
  at_top-Lawful (m ∷ ms) w e h = rw (at_top_some m ms w e) (write_final-Lawful m ms w e h)

  on_timer-none :
      (w : Writer) → w.partial ≡ none → on_timer write w ≡ record w { timer = false; phase = top }
  unfolding on_timer next_writable_partial
  on_timer-none w e = ground arith

  on_timer-some :
      (m : StreamSegmentMessage) (w : Writer)
      → w.partial ≡ some m
      → w.finals ≡ []
      → on_timer write w
        ≡ write_message write m
            (record w { mailbox = record (w.mailbox) { partial = none }; timer = false })
  unfolding on_timer next_writable_partial
  on_timer-some m w e f = ground arith

  on_timer-Lawful :
      (p : Option StreamSegmentMessage) (w : Writer)
      → w.partial ≡ p
      → IsSorted w.mailbox
      → Lawful [] w (on_timer write w)
  unfolding write_message
  on_timer-Lawful none w e h = rw (on_timer-none w e) (quiet h refl refl refl)
  on_timer-Lawful (some m) w e h =
      let preview = rw e at h.preview in
      rw (on_timer-some m w e preview.1) (record {
        added = rw (finals_of-partial w.writes m preview.0) (sym (append-nil _));
        sorted = record { queue = h.queue; preview = tt };
      })

  advance-Lawful : (p : Phase) (w : Writer) → IsSorted w.mailbox → Lawful [] w (advance write p w)
  unfolding advance at_check_closed at_check_partial
  advance-Lawful top w h = at_top-Lawful w.finals w refl h
  advance-Lawful check_closed w h = (quiet h refl refl refl)
  advance-Lawful check_partial w h =
      if_cases (Lawful [] w) (is_some w.partial) (λ _. (quiet h refl refl refl))
        (λ _. (quiet h refl refl refl))
  advance-Lawful _ w h = (quiet h refl refl refl)

  select-Lawful :
      (p : Phase) (c : Channel) (w : Writer) → IsSorted w.mailbox → Lawful [] w (select write p c w)
  unfolding select take_final take_partial take_close
  select-Lawful wait_partial timer_channel w h =
      if_cases (Lawful [] w) w.timer (λ _. on_timer-Lawful w.partial w refl h)
        (λ _. (quiet h refl refl refl))
  select-Lawful wait_partial final_channel w h =
      if_cases (Lawful [] w) w.final_wake (λ _. quiet h refl refl refl)
        (λ _. quiet h refl refl refl)
  select-Lawful wait_partial partial_channel w h =
      if_cases (Lawful [] w) w.partial_wake (λ _. quiet h refl refl refl)
        (λ _. quiet h refl refl refl)
  select-Lawful wait_partial close_channel w h =
      if_cases (Lawful [] w) w.close_wake (λ _. quiet h refl refl refl)
        (λ _. quiet h refl refl refl)
  select-Lawful wait_idle final_channel w h =
      if_cases (Lawful [] w) w.final_wake (λ _. quiet h refl refl refl)
        (λ _. quiet h refl refl refl)
  select-Lawful wait_idle partial_channel w h =
      if_cases (Lawful [] w) w.partial_wake (λ _. quiet h refl refl refl)
        (λ _. quiet h refl refl refl)
  select-Lawful wait_idle close_channel w h =
      if_cases (Lawful [] w) w.close_wake (λ _. quiet h refl refl refl)
        (λ _. quiet h refl refl refl)
  select-Lawful _ c w h = quiet h refl refl refl

  enqueue-Lawful :
      (m : StreamSegmentMessage) (w : Writer)
      → IsSorted w.mailbox
      → Lawful (finals_of (m ∷ [])) w (record w { mailbox = enqueue m w.mailbox })
  unfolding enqueue perform decide_action kind_from_message
  enqueue-Lawful m w h = record {
    added =
        ground
          (arith, append_assoc (finals_of w.writes) w.finals (m ∷ []), append-nil (delivered w));
    sorted = enqueue-IsSorted m w.mailbox h;
  }

  step-Lawful :
      (e : Event) (w : Writer) → IsSorted w.mailbox → Lawful (offered e) w (step write e w)
  unfolding step close
  step-Lawful (enqueues m) w h = enqueue-Lawful m w h
  step-Lawful closes w h = quiet h refl refl refl
  step-Lawful advances w h = advance-Lawful w.phase w h
  step-Lawful (selects c) w h = select-Lawful w.phase c w h

  run-Lawful :
      (es : List Event) (w : Writer)
      → IsSorted w.mailbox
      → Lawful (all_offered es) w (run write es w)
  unfolding run
  run-Lawful [] w h = quiet h refl refl refl
  run-Lawful (e ∷ es) w h =
      let first = step-Lawful e w h in
      let rest = run-Lawful es (step write e w) first.sorted in
      record {
        added =
            rest.added ∙ rw first.added (append_assoc (delivered w) (offered e) (all_offered es));
        sorted = rest.sorted;
      }

  -- However enqueues, closes and the writer's steps interleave: the finals handed to the write
  -- function so far, followed by those still queued, are the finals enqueued, in the order in
  -- which they were enqueued. None is lost, repeated or reordered.
  pub run-delivered : (es : List Event) → delivered (run write es new_writer) ≡ all_offered es
  unfolding new_writer new_mailbox
  run-delivered es = (run-Lawful es new_writer (record { queue = tt; preview = tt })).added

  -- However the calls interleave, the queue holds only finals, and a partial is kept only while
  -- no final waits: a final that arrives replaces the partial before it.
  run-IsSorted : (es : List Event) → IsSorted (run write es new_writer).mailbox
  unfolding new_writer new_mailbox
  run-IsSorted es = (run-Lawful es new_writer (record { queue = tt; preview = tt })).sorted
