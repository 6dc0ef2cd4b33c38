-- ===== src/Relay/Tests.antt =====
-- A final, a late partial of the same start time, and another utterance.
use muesli.Base.{ℕ, ◌≡◌, refl, Bool, true, false, none, List, [], ◌∷◌}
use muesli.Base.Int.{ℤ, pos}
use muesli.Base.Text.{codes}
use muesli.Relay.{StreamingEvent, eq_ℤ, is_finalized, should_relay, relayed}
use muesli.Relay.Settled.{IsSettled, relayed-IsSettled}

abbrev event : ℕ → Bool → StreamingEvent ℕ
event t final = record {
  event_type = codes "segment";
  final = final;
  text = codes "x";
  t0 = t;
  t1 = t;
  speaker = none;
  message = [];
}

-- Start times in milliseconds already.
abbrev as_ms : ℕ → ℤ
as_ms t = pos t

abbrev events : List (StreamingEvent ℕ)
events = event 1 false ∷ event 1 true ∷ event 1 false ∷ event 1 true ∷ event 2 false ∷ []

relays_three : relayed as_ms events [] ≡ event 1 false ∷ event 1 true ∷ event 2 false ∷ []
unfolding relayed should_relay is_finalized eq_ℤ
relays_three = refl

relayed-IsSettled_example : IsSettled as_ms (relayed as_ms events [])
relayed-IsSettled_example = relayed-IsSettled as_ms events
