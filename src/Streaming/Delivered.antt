-- ===== src/Streaming/Delivered.antt =====
-- What the goroutines emit lies in order in the stream (internal/pluginkit/streaming.go).
use native.Mathlib.Nat.{div-mul-le_self, le-div_iff_mul-le}
use muesli.Base.{
  ℕ, zero, suc, ◌*◌, ◌/◌, ◌≤◌, ◌≡◌, refl, Bool, true, Option, some, List, [], ◌∷◌, inl, inr, set,
  get_elem?, All, All-append, All-erase_at, All-get_elem?, Option-cases, if_cases, arith,
}
use muesli.Base.Int.{pos, leb_ℤ}
use muesli.Base.Text.{Text, is_empty, trim_space}
use muesli.Streaming.Config.{StreamingConfig, max_samples, samples_to_ms}
use muesli.Streaming.Window.{IsWindow, classify-IsWindow, commit_open-IsWindow}
use muesli.Streaming.Induction.{run_keeps}
use muesli.Streaming.{
  Utterance, Goroutine, PendingCommit, transcribing, handing_over, launch_transcription, emission,
  hand_over, advance, run_goroutine, Event, new_session, run,
}
use muesli.Streaming.Timed.{
  Spans, FlightSpans, IsOrdered, IsTimed, IsTimed-same, launch_transcription-IsTimed,
  classify-IsTimed, commit_open-IsTimed,
}

div_mono : (a b k : ℕ) → a ≤ b → a / k ≤ b / k
div_mono a b zero h = omega arith
div_mono a b (suc k) h =
    (le-div_iff_mul-le (omega arith)).1 (omega (arith, div-mul-le_self a (suc k)))

module _ {F : Type 0} (cfg : StreamingConfig F) where
  samples_to_ms_mono : (a b : ℕ) → a ≤ b → samples_to_ms cfg a ≤ samples_to_ms cfg b
  unfolding samples_to_ms
  samples_to_ms_mono a b h = div_mono (a * 1000) (b * 1000) _ (omega arith)

module _ {F A : Type 0} (cfg : StreamingConfig F) (transcribe : List A → Option Text) where
  emission-IsOrdered :
      (final : Bool) (c : PendingCommit A)
      → Spans c
      → All IsOrdered (emission cfg transcribe final c)
  unfolding emission
  emission-IsOrdered final c h = elim (Option-cases (transcribe c.samples)) [
    | inl e ↦ rw (e, emission) (tt, tt)
    | inr (text, e) ↦
        rw (e, emission)
          (if_cases (All IsOrdered) (is_empty (trim_space text)) (λ _. tt)
            (λ _. (samples_to_ms_mono cfg c.start c.end (omega arith), tt)))
  ]

set-FlightSpans :
    {A : Type 0} (gs : List (Goroutine A)) (i : ℕ)
    → All FlightSpans gs
    → All FlightSpans (set gs i handing_over)
set-FlightSpans [] i h = tt
set-FlightSpans (g ∷ gs) zero h = (tt, h.1)
set-FlightSpans (g ∷ gs) (suc i) h = (h.0, set-FlightSpans gs i h.1)

module _ {F A V : Type 0} (cfg : StreamingConfig F) (transcribe : List A → Option Text) where
  hand_over-IsTimed :
      (cs : List (PendingCommit A)) (s : Utterance A V)
      → s.pending_commits ≡ cs
      → IsTimed s
      → IsTimed (hand_over cfg transcribe s)
  unfolding hand_over
  hand_over-IsTimed [] s e h = rw (e, hand_over) (IsTimed-same h refl refl refl)
  hand_over-IsTimed (c ∷ cs) s e h =
      let waiting = rw e at h.commits in
      rw (e, hand_over)
        (launch_transcription-IsTimed true c (record s { pending_commits = cs }) waiting.0
          (record { commits = waiting.1; flights = h.flights; delivered = h.delivered }))

  advance-IsTimed :
      (i : ℕ) (g : Goroutine A) (s : Utterance A V)
      → get_elem? s.goroutines i ≡ some g
      → IsTimed s
      → IsTimed (advance cfg transcribe i g s)
  unfolding advance
  advance-IsTimed i (transcribing final c) s e h = record {
    commits = h.commits;
    flights = set-FlightSpans s.goroutines i h.flights;
    delivered = All-append IsOrdered s.emitted (emission cfg transcribe final c) h.delivered (
        emission-IsOrdered cfg transcribe final c
          (All-get_elem? FlightSpans s.goroutines i h.flights e));
  }
  advance-IsTimed i handing_over s e h = hand_over-IsTimed s.pending_commits _ refl (record {
    commits = h.commits;
    flights = All-erase_at FlightSpans s.goroutines i h.flights;
    delivered = h.delivered;
  })

  run_goroutine-IsTimed :
      (i : ℕ) (s : Utterance A V) → IsTimed s → IsTimed (run_goroutine cfg transcribe i s)
  unfolding run_goroutine
  run_goroutine-IsTimed i s h = elim (Option-cases (get_elem? s.goroutines i)) [
    | inl e ↦ rw (e, run_goroutine) h
    | inr (g, e) ↦ rw (e, run_goroutine) (advance-IsTimed i g s e h)
  ]

  -- The goroutines leave the window alone.
  run_goroutine-IsWindow :
      (room : leb_ℤ (pos 0) (max_samples cfg) ≡ true) (i : ℕ) (s : Utterance A V)
      → IsWindow cfg room s
      → IsWindow cfg room (run_goroutine cfg transcribe i s)
  unfolding run_goroutine advance hand_over launch_transcription
  run_goroutine-IsWindow room i s h = grind arith

module _ {F A V : Type 0} (cfg : StreamingConfig F) (is_speech : V → List A → Bool × V)
    (transcribe : List A → Option Text) (room : leb_ℤ (pos 0) (max_samples cfg) ≡ true) where
  run-IsTimed :
      (es : List (Event A)) (vad : V)
      → let u = (run cfg is_speech transcribe es (new_session vad)).utterance in
        IsWindow cfg room u × IsTimed u
  unfolding new_session
  run-IsTimed es vad =
      run_keeps cfg is_speech transcribe (λ u. IsWindow cfg room u × IsTimed u)
        (λ frame s h. (
          classify-IsWindow cfg room is_speech frame s h.0,
          classify-IsTimed cfg room is_speech frame s h.0 h.1,
        ))
        (λ s h. (
          commit_open-IsWindow cfg room is_speech s h.0,
          commit_open-IsTimed cfg room is_speech s h.0 h.1,
        ))
        (λ i s h. (
          run_goroutine-IsWindow cfg transcribe room i s h.0,
          run_goroutine-IsTimed cfg transcribe i s h.1,
        ))
        es (new_session vad)
        (
          record {
            idle_empty = λ _. refl;
            bounded = room;
            spans = omega arith;
            ends = omega arith;
          },
          record { commits = tt; flights = tt; delivered = tt },
        )

  -- With a window bound that is not negative, from a new session and after any calls of Feed and
  -- Finish interleaved with the steps of the goroutines: the window never holds more samples than
  -- the bound, it is empty while no utterance is active, and its audio is no longer than the
  -- stretch of the stream from its start to the last speech, which lies within what was fed.
  pub run-new_session-IsWindow :
      (es : List (Event A)) (vad : V)
      → IsWindow cfg room (run cfg is_speech transcribe es (new_session vad)).utterance
  run-new_session-IsWindow es vad = (run-IsTimed es vad).0

  -- With a window bound that is not negative, no segment that a session ever emits, whatever the
  -- interleaving, ends before it starts.
  emitted-IsOrdered :
      (es : List (Event A)) (vad : V)
      → All IsOrdered (run cfg is_speech transcribe es (new_session vad)).utterance.emitted
  emitted-IsOrdered es vad = (run-IsTimed es vad).1.delivered
