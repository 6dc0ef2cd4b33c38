-- ===== src/Outbound/Wakeups.antt =====
-- The writer of the mailbox never sleeps through work (internal/api/stream_outbound.go).
use muesli.Base.{
  ◌≡◌, ◌≢◌, refl, sym, ◌∙◌, append-nil, Bool, true, false, ◌||◌, none, List, [], ◌∷◌, arith,
}
use muesli.Outbound.Order.{finals_of, all_offered, run-delivered}
use muesli.Outbound.{
  StreamSegmentMessage, Writer, Phase, top, check_closed, check_partial, wait_partial, wait_idle,
  returned, Channel, final_channel, timer_channel, Event, enqueues, closes, advances, selects,
  is_nil, is_some, not_nil, decide_action, kind_from_message, perform, enqueue, close,
  closed_and_empty, next_priority, next_writable_partial, write_message, at_top, at_check_closed,
  at_check_partial, advance, on_timer, take_final, take_partial, take_close, select, step, run,
  new_mailbox, new_writer,
}

-- Past the first test of its loop, and not yet returned.
abbrev past_top : Phase → Bool
past_top check_closed = true
past_top check_partial = true
past_top wait_partial = true
past_top wait_idle = true
past_top _ = false

pub record IsAwake (w : Writer) : Type 0 where
  finals_wake : is_nil w.finals ≡ false → past_top w.phase ≡ true → w.final_wake ≡ true
  partials_wake : is_some w.partial ≡ true → w.phase ≡ wait_idle → w.partial_wake ≡ true
  close_seen :
      w.closed ≡ true
      → w.phase ≡ check_partial
      → (w.close_wake || (w.final_wake || is_some w.partial)) ≡ true
  close_wakes :
      w.closed ≡ true
      → w.phase ≡ wait_idle
      → (w.close_wake || (w.final_wake || w.partial_wake)) ≡ true
  armed : w.phase ≡ wait_partial → w.timer ≡ true

enqueue-IsAwake :
    (m : StreamSegmentMessage) (w : Writer)
    → IsAwake w
    → IsAwake (record w { mailbox = enqueue m w.mailbox })
unfolding enqueue perform decide_action kind_from_message
enqueue-IsAwake m w h = ground arith

close-IsAwake : (w : Writer) → IsAwake w → IsAwake (record w { mailbox = close w.mailbox })
unfolding close
close-IsAwake w h = ground arith

-- The writer blocks on some channel that is ready.
abbrev pub some_ready : Writer → Bool
some_ready w = w.final_wake || (w.partial_wake || w.close_wake)

abbrev pub has_work : Writer → Bool
has_work w = w.closed || (not_nil w.finals || is_some w.partial)

module _ (write : StreamSegmentMessage → Bool) where
  at_top-IsAwake : (w : Writer) → w.phase ≡ top → IsAwake w → IsAwake (at_top write w)
  unfolding at_top next_priority write_message
  at_top-IsAwake w p h = ground arith

  at_check_closed-IsAwake :
      (w : Writer) → w.phase ≡ check_closed → IsAwake w → IsAwake (at_check_closed write w)
  unfolding at_check_closed closed_and_empty
  at_check_closed-IsAwake w p h = ground arith

  at_check_partial-IsAwake :
      (w : Writer) → w.phase ≡ check_partial → IsAwake w → IsAwake (at_check_partial write w)
  unfolding at_check_partial
  at_check_partial-IsAwake w p h = ground arith

  on_timer-IsAwake : (w : Writer) → IsAwake w → IsAwake (on_timer write w)
  unfolding on_timer next_writable_partial write_message
  on_timer-IsAwake w h = ground arith

  advance-IsAwake : (p : Phase) (w : Writer) → w.phase ≡ p → IsAwake w → IsAwake (advance write p w)
  unfolding advance
  advance-IsAwake top w e h = at_top-IsAwake w e h
  advance-IsAwake check_closed w e h = at_check_closed-IsAwake w e h
  advance-IsAwake check_partial w e h = at_check_partial-IsAwake w e h
  advance-IsAwake _ w e h = h

  select-IsAwake :
      (p : Phase) (c : Channel) (w : Writer)
      → w.phase ≡ p
      → IsAwake w
      → IsAwake (select write p c w)
  unfolding select take_final take_partial take_close closed_and_empty
  select-IsAwake wait_partial final_channel w e h = ground arith
  select-IsAwake wait_partial timer_channel w e h = ground (arith, on_timer-IsAwake w)
  select-IsAwake wait_partial _ w e h = ground arith
  select-IsAwake wait_idle final_channel w e h = ground arith
  select-IsAwake wait_idle _ w e h = ground arith
  select-IsAwake _ c w e h = h

  step-IsAwake : (e : Event) (w : Writer) → IsAwake w → IsAwake (step write e w)
  unfolding step
  step-IsAwake (enqueues m) w h = enqueue-IsAwake m w h
  step-IsAwake closes w h = close-IsAwake w h
  step-IsAwake advances w h = advance-IsAwake w.phase w refl h
  step-IsAwake (selects c) w h = select-IsAwake w.phase c w refl h

  run-IsAwake : (es : List Event) (w : Writer) → IsAwake w → IsAwake (run write es w)
  unfolding run
  run-IsAwake [] w h = h
  run-IsAwake (e ∷ es) w h = run-IsAwake es (step write e w) (step-IsAwake e w h)

  -- However calls and steps interleave: a writer that sleeps with no timer while a message waits,
  -- or after the mailbox was closed, has a wake-up pending; and one that holds back a partial has
  -- its timer armed. So no final, partial or close is slept through.
  pub run_never_stuck :
      (es : List Event)
      → let w = run write es new_writer in
        (w.phase ≡ wait_idle → has_work w ≡ true → some_ready w ≡ true)
        × (w.phase ≡ wait_partial → w.timer ≡ true)
  unfolding new_writer new_mailbox
  run_never_stuck es = let h = run-IsAwake es new_writer (ground arith) in (ground arith, h.armed)

  returned_when_drained :
      (e : Event) (w : Writer)
      → w.phase ≢ returned
      → (step write e w).phase ≡ returned
      → (w.closed ≡ true) × (w.finals ≡ []) × (w.partial ≡ none)
  unfolding step select advance at_top at_check_closed at_check_partial on_timer closed_and_empty
      write_message next_priority next_writable_partial take_final take_partial take_close
  returned_when_drained e w n r = ground arith

  -- When, after any interleaving, the writer returns without an error, the mailbox was closed, no
  -- partial was left in it, and the finals it wrote are all the finals ever enqueued, in order.
  pub returned_delivers :
      (es : List Event) (e : Event)
      → let w = run write es new_writer in
        w.phase ≢ returned
        → (step write e w).phase ≡ returned
        → (w.closed ≡ true) × (w.partial ≡ none) × (finals_of w.writes ≡ all_offered es)
  returned_delivers es e n r =
      let w = run write es new_writer in
      let (shut, drained, previewed) = returned_when_drained e w n r in
      (
        shut,
        previewed,
        sym (append-nil (finals_of w.writes)) ∙ rw drained at (run-delivered write es),
      )
