-- ===== src/Streaming/Serial.antt =====
-- One transcription at a time, and a bounded queue behind it (internal/pluginkit/streaming.go).
use muesli.Base.{
  ℕ, ◌+◌, ◌≤◌, ◌≡◌, refl, Bool, true, false, Option, some, List, [], length, get_elem?, erase_at,
  length-append, length-set, length-erase_at, inl, inr, Option-cases, if_cases, arith,
}
use muesli.Base.Text.{Text}
use muesli.Base.Int.{pos, leb_ℤ, ◌-ℤ◌}
use muesli.Streaming.Config.{StreamingConfig, partial_samples, silence_samples, hysteresis_samples}
use muesli.Streaming.Induction.{run_keeps}
use muesli.Streaming.{
  Utterance, Goroutine, transcribing, handing_over, Event, max_pending_commits, queue_commit,
  snapshot, launch_transcription, start_transcription, begin_next_window, reset_utterance,
  bound_window, partial_cadence, append_speech, on_speech, on_silence, on_low_energy, classify,
  commit_open, hand_over, advance, run_goroutine, new_session, run,
}

abbrev pub flights : Bool → ℕ
flights true = 1
flights false = 0

module _ {A V : Type 0} where
  -- The flag says whether the one goroutine exists, and the queue waits behind it.
  pub record IsSerial (s : Utterance A V) : Type 0 where
    pub one_flight : length s.goroutines ≡ flights s.transcription_in_flight
    pub bounded : length s.pending_commits ≤ max_pending_commits
    pub idle : s.transcription_in_flight ≡ false → s.pending_commits ≡ []

  -- The invariant reads three fields: a state that shares them shares it.
  IsSerial-same :
      {s t : Utterance A V}
      → IsSerial s
      → t.goroutines ≡ s.goroutines
      → t.transcription_in_flight ≡ s.transcription_in_flight
      → t.pending_commits ≡ s.pending_commits
      → IsSerial t
  IsSerial-same h e f g = ground arith

  start_transcription-IsSerial :
      (final : Bool) (s : Utterance A V) → IsSerial s → IsSerial (start_transcription final s)
  unfolding start_transcription queue_commit launch_transcription snapshot
  start_transcription-IsSerial final s h = grind (arith, length-append)

  begin_next_window-IsSerial : (s : Utterance A V) → IsSerial s → IsSerial (begin_next_window s)
  unfolding begin_next_window
  begin_next_window-IsSerial s h = IsSerial-same h refl refl refl

  reset_utterance-IsSerial : (s : Utterance A V) → IsSerial s → IsSerial (reset_utterance s)
  unfolding reset_utterance
  reset_utterance-IsSerial s h = IsSerial-same h refl refl refl

module _ {F A V : Type 0} (cfg : StreamingConfig F) where
  bound_window-IsSerial : (s : Utterance A V) → IsSerial s → IsSerial (bound_window cfg s)
  unfolding bound_window
  bound_window-IsSerial s h =
      if_cases IsSerial _ (λ _. h)
        (λ _. begin_next_window-IsSerial _ (start_transcription-IsSerial true s h))

  partial_cadence-IsSerial : (s : Utterance A V) → IsSerial s → IsSerial (partial_cadence cfg s)
  unfolding partial_cadence
  partial_cadence-IsSerial s h =
      if_cases IsSerial (leb_ℤ (partial_samples cfg) (pos s.speech_since_partial))
        (λ _. start_transcription-IsSerial false _ (IsSerial-same h refl refl refl)) (λ _. h)

  append_speech-IsSerial :
      (frame : List A) (s : Utterance A V) → IsSerial s → IsSerial (append_speech cfg frame s)
  unfolding append_speech
  append_speech-IsSerial frame s h =
      partial_cadence-IsSerial _ (bound_window-IsSerial _ (IsSerial-same h refl refl refl))

  on_speech-IsSerial :
      (n : ℕ) (frame : List A) (s : Utterance A V) → IsSerial s → IsSerial (on_speech cfg n frame s)
  unfolding on_speech
  on_speech-IsSerial n frame s h =
      let begun = if_cases IsSerial s.active (λ _. h) (λ _. IsSerial-same h refl refl refl) in
      append_speech-IsSerial frame _ (IsSerial-same begun refl refl refl)

  on_silence-IsSerial : (s : Utterance A V) → IsSerial s → IsSerial (on_silence cfg s)
  unfolding on_silence
  on_silence-IsSerial s h =
      if_cases IsSerial
        (leb_ℤ (silence_samples cfg) (pos s.low_energy_samples -ℤ hysteresis_samples cfg))
        (λ _.
          reset_utterance-IsSerial _
            (start_transcription-IsSerial true _ (IsSerial-same h refl refl refl)))
        (λ _. IsSerial-same h refl refl refl)

  on_low_energy-IsSerial :
      (frame : List A) (s : Utterance A V) → IsSerial s → IsSerial (on_low_energy cfg frame s)
  unfolding on_low_energy
  on_low_energy-IsSerial frame s h =
      if_cases IsSerial (leb_ℤ (pos (s.low_energy_samples + length frame)) (hysteresis_samples cfg))
        (λ _. append_speech-IsSerial frame _ (IsSerial-same h refl refl refl))
        (λ _. on_silence-IsSerial _ (IsSerial-same h refl refl refl))

  module _ (is_speech : V → List A → Bool × V) where
    pub classify-IsSerial :
        (frame : List A) (s : Utterance A V)
        → IsSerial s
        → IsSerial (classify cfg is_speech frame s)
    unfolding classify
    classify-IsSerial frame s h =
        if_cases IsSerial (is_speech s.vad frame).0
          (λ _. on_speech-IsSerial s.total_samples frame _ (IsSerial-same h refl refl refl))
          (λ _.
            if_cases IsSerial s.active
              (λ _. on_low_energy-IsSerial frame _ (IsSerial-same h refl refl refl))
              (λ _. IsSerial-same h refl refl refl))

    commit_open-IsSerial : (s : Utterance A V) → IsSerial s → IsSerial (commit_open cfg is_speech s)
    unfolding commit_open
    commit_open-IsSerial s h =
        if_cases IsSerial _
          (λ _. reset_utterance-IsSerial _ (start_transcription-IsSerial true s h)) (λ _. h)

  module _ (transcribe : List A → Option Text) where
    hand_over-IsSerial :
        (s : Utterance A V)
        → length s.goroutines ≡ 0
        → length s.pending_commits ≤ max_pending_commits
        → IsSerial (hand_over cfg transcribe s)
    unfolding hand_over launch_transcription
    hand_over-IsSerial s e h = grind (arith, length-append)

    advance-IsSerial :
        (i : ℕ) (g : Goroutine A) (s : Utterance A V)
        → IsSerial s
        → get_elem? s.goroutines i ≡ some g
        → IsSerial (advance cfg transcribe i g s)
    unfolding advance
    advance-IsSerial i (transcribing final c) s h e =
        ground (arith, length-set s.goroutines i handing_over)
    advance-IsSerial i handing_over s h e =
        let erased = length-erase_at s.goroutines i e in
        hand_over-IsSerial (record s { goroutines = erase_at s.goroutines i })
          (ground (arith, erased)) h.bounded

    pub run_goroutine-IsSerial :
        (i : ℕ) (s : Utterance A V) → IsSerial s → IsSerial (run_goroutine cfg transcribe i s)
    unfolding run_goroutine
    run_goroutine-IsSerial i s h = elim (Option-cases (get_elem? s.goroutines i)) [
      | inl e ↦ rw (e, run_goroutine) h
      | inr (g, e) ↦ rw (e, run_goroutine) (advance-IsSerial i g s h e)
    ]

module _ {F A V : Type 0} (cfg : StreamingConfig F) (is_speech : V → List A → Bool × V)
    (transcribe : List A → Option Text) where
  -- From a new session, after any calls of Feed and Finish interleaved in any order with the
  -- steps of the goroutines: there is one transcription goroutine if the in-flight flag is set
  -- and none if it is not, at most two commits are queued, and none is queued while no
  -- transcription is in flight.
  pub run-new_session-IsSerial :
      (es : List (Event A)) (vad : V)
      → IsSerial (run cfg is_speech transcribe es (new_session vad)).utterance
  unfolding new_session
  run-new_session-IsSerial es vad =
      run_keeps cfg is_speech transcribe IsSerial (classify-IsSerial cfg is_speech)
        (commit_open-IsSerial cfg is_speech) (run_goroutine-IsSerial cfg transcribe) es
        (new_session vad) (record { one_flight = refl; bounded = omega arith; idle = λ _. refl })
