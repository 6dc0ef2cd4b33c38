-- ===== src/Relay.antt =====
-- Which transcription events a stream relays: internal/api/stream_relay_state.go, with the event of
-- internal/plugin/stream.go.
--
-- A float64 is of the type F. `seconds_to_ms` stands for the floating-point rounding of
-- secondsToMS in internal/api/stream.go.
pub mod Settled
mod Tests
use muesli.Base.{Bool, true, false, Option, List, [], ◌∷◌, ◌++◌, ◌==◌, if◌then◌else◌}
use muesli.Base.Int.{ℤ, pos, negsuc}
use muesli.Base.Text.{Text}

pub record StreamingEvent (F : Type 0) : Type 0 where
  pub event_type : Text
  pub final : Bool
  pub text : Text
  pub t0 : F
  pub t1 : F
  pub speaker : Option Text
  pub message : Text

pub eq_ℤ : ℤ → ℤ → Bool
eq_ℤ (pos a) (pos b) = a == b
eq_ℤ (negsuc a) (negsuc b) = a == b
eq_ℤ _ _ = false

-- The keys of finalizedByT0.
abbrev pub RelayState : Type 0
RelayState = List ℤ

pub is_finalized : RelayState → ℤ → Bool
is_finalized [] key = false
is_finalized (k ∷ keys) key = if eq_ℤ k key then true else is_finalized keys key

module _ {F : Type 0} (seconds_to_ms : F → ℤ) where
  pub should_relay : StreamingEvent F → RelayState → Bool × RelayState
  should_relay ev s =
      let key = seconds_to_ms ev.t0 in
      if is_finalized s key then (false, s) else (true, if ev.final then key ∷ s else s)

  -- A stream of events: those relayed, in order.
  pub relayed : List (StreamingEvent F) → RelayState → List (StreamingEvent F)
  relayed [] s = []
  relayed (ev ∷ evs) s =
      let (passes, s') = should_relay ev s in
      let rest = relayed evs s' in if passes then ev ∷ rest else rest

  -- The state that they leave.
  pub relay_all : List (StreamingEvent F) → RelayState → RelayState
  relay_all [] s = s
  relay_all (ev ∷ evs) s = relay_all evs (should_relay ev s).1
