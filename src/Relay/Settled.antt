-- ===== src/Relay/Settled.antt =====
-- A start time is finalised once, and nothing follows its final (internal/api/stream_relay_state.go).
use muesli.Base.{
  ◌≡◌, Bool, true, false, not, ◌||◌, List, [], ◌∷◌, inl, inr, All, Bool-cases, if◌then◌else◌, arith,
}
use muesli.Base.Int.{ℤ}
use muesli.Relay.{StreamingEvent, eq_ℤ, RelayState, is_finalized, should_relay, relayed, relay_all}

module _ {F : Type 0} (seconds_to_ms : F → ℤ) where
  -- An event that does not share a key.
  abbrev pub Apart : ℤ → List (StreamingEvent F) → Type 0
  Apart key evs = All (λ (x : StreamingEvent F). eq_ℤ key (seconds_to_ms x.t0) ≡ false) evs

  -- No event follows a final of its own key.
  abbrev pub IsSettled : List (StreamingEvent F) → Type 0
  IsSettled [] = Unit {0}
  IsSettled (ev ∷ evs) = (ev.final ≡ true → Apart (seconds_to_ms ev.t0) evs) × IsSettled evs

  -- Whether a final of a key is among the events.
  pub has_final : ℤ → List (StreamingEvent F) → Bool
  has_final key [] = false
  has_final key (ev ∷ evs) =
      if ev.final
      then (if eq_ℤ (seconds_to_ms ev.t0) key then true else has_final key evs)
      else has_final key evs

  -- Events whose keys are not finalised.
  abbrev Open : RelayState → List (StreamingEvent F) → Type 0
  Open s evs = All (λ (x : StreamingEvent F). is_finalized s (seconds_to_ms x.t0) ≡ false) evs

  module _ (ev : StreamingEvent F) (evs : List (StreamingEvent F)) (s : RelayState) where
    relayed-drop :
        is_finalized s (seconds_to_ms ev.t0) ≡ true
        → relayed seconds_to_ms (ev ∷ evs) s ≡ relayed seconds_to_ms evs s
    unfolding relayed should_relay
    relayed-drop h = rw (h, relayed, should_relay) (ground (arith, h))

    relayed-pass :
        is_finalized s (seconds_to_ms ev.t0) ≡ false
        → relayed seconds_to_ms (ev ∷ evs) s
          ≡ ev ∷ relayed seconds_to_ms evs (if ev.final then seconds_to_ms ev.t0 ∷ s else s)
    unfolding relayed should_relay
    relayed-pass h = ground (arith, h)

  Open-cons :
      (k : ℤ) (s : RelayState) (evs : List (StreamingEvent F))
      → Open (k ∷ s) evs
      → Apart k evs × Open s evs
  unfolding is_finalized
  Open-cons k s [] h = (tt, tt)
  Open-cons k s (ev ∷ evs) h =
      let rest = Open-cons k s evs h.1 in
      let x = h.0 in ((ground arith, rest.0), (ground arith, rest.1))

  relayed-IsOpen :
      (evs : List (StreamingEvent F)) (s : RelayState)
      → Open s (relayed seconds_to_ms evs s) × IsSettled (relayed seconds_to_ms evs s)
  unfolding relayed
  relayed-IsOpen [] s = (tt, tt)
  relayed-IsOpen (ev ∷ evs) s = elim (Bool-cases (is_finalized s (seconds_to_ms ev.t0))) [
    | inl h ↦ rw (relayed-drop ev evs s h) (relayed-IsOpen evs s)
    | inr h ↦ elim (Bool-cases ev.final) [
      | inl f ↦
          let key = seconds_to_ms ev.t0 in
          let rest = relayed-IsOpen evs (key ∷ s) in
          let parts = Open-cons key s (relayed seconds_to_ms evs (key ∷ s)) rest.0 in
          rw (relayed-pass ev evs s h) (rw f ((h, parts.1), (λ _. parts.0, rest.1)))
      | inr f ↦
          let rest = relayed-IsOpen evs s in
          rw (relayed-pass ev evs s h) (rw f ((h, rest.0), (λ e. absurd (cc e), rest.1)))
    ]
  ]

  -- In what a stream relays from its start, no event follows a final of its own start time: each
  -- start time is finalised at most once, and no partial comes after.
  pub relayed-IsSettled : (evs : List (StreamingEvent F)) → IsSettled (relayed seconds_to_ms evs [])
  relayed-IsSettled evs = (relayed-IsOpen evs []).1

  relay_all-is_finalized :
      (evs : List (StreamingEvent F)) (s : RelayState) (key : ℤ)
      → is_finalized (relay_all seconds_to_ms evs s) key
        ≡ (is_finalized s key || has_final key (relayed seconds_to_ms evs s))
  unfolding relay_all relayed should_relay has_final is_finalized
  relay_all-is_finalized [] s key = ground arith
  relay_all-is_finalized (ev ∷ evs) s key =
      let dropped = relay_all-is_finalized evs s key in
      let passed = relay_all-is_finalized evs (seconds_to_ms ev.t0 ∷ s) key in
      elim (Bool-cases (is_finalized s (seconds_to_ms ev.t0))) [
        | inl h ↦ rw h dropped
        | inr h ↦ elim (Bool-cases ev.final) [
          | inl f ↦
              rw (h, f)
                (elim (Bool-cases (eq_ℤ (seconds_to_ms ev.t0) key)) [
                  | inl k ↦ ground arith
                  | inr k ↦ ground arith
                ])
          | inr f ↦ rw (h, f) dropped
        ]
      ]

  -- After any events, an event is dropped exactly when a final of its start time has been relayed.
  pub should_relay_iff :
      (evs : List (StreamingEvent F)) (ev : StreamingEvent F)
      → (should_relay seconds_to_ms ev (relay_all seconds_to_ms evs [])).0
        ≡ not (has_final (seconds_to_ms ev.t0) (relayed seconds_to_ms evs []))
  unfolding should_relay is_finalized
  should_relay_iff evs ev =
      let same = relay_all-is_finalized evs [] (seconds_to_ms ev.t0) in ground arith
