-- ===== src/Streaming/Window.antt =====
-- The window of an utterance: its bound and its place in the stream
-- (internal/pluginkit/streaming.go).
use muesli.Base.{
  ℕ, ◌+◌, ◌≤◌, ◌≡◌, Bool, true, false, List, [], ◌++◌, length, length-append, if_cases, arith,
}
use muesli.Base.Int.{pos, leb_ℤ, ◌-ℤ◌}
use muesli.Streaming.Config.{StreamingConfig, max_samples, hysteresis_samples}
use muesli.Streaming.{
  Utterance, queue_commit, launch_transcription, start_transcription, begin_next_window,
  reset_utterance, bound_window, partial_cadence, append_speech, on_speech, on_silence,
  on_low_energy, classify, commit_open,
}

module _ {A V : Type 0} where
  -- A start of a transcription leaves the utterance as it is.
  start_fields :
      (final : Bool) (s : Utterance A V)
      → let t = start_transcription final s in
        (t.window ≡ s.window)
        × (t.window_start_sample ≡ s.window_start_sample)
        × (t.last_speech_end_sample ≡ s.last_speech_end_sample)
        × (t.total_samples ≡ s.total_samples)
        × (t.active ≡ s.active)
  unfolding start_transcription queue_commit launch_transcription
  start_fields final s = ground arith

module _ {F A V : Type 0} (cfg : StreamingConfig F)
    (room : leb_ℤ (pos 0) (max_samples cfg) ≡ true) where
  pub record IsWindow (s : Utterance A V) : Type 0 where
    pub idle_empty : s.active ≡ false → s.window ≡ []
    pub bounded : leb_ℤ (pos (length s.window)) (max_samples cfg) ≡ true
    pub spans : s.window_start_sample + length s.window ≤ s.last_speech_end_sample
    pub ends : s.last_speech_end_sample ≤ s.total_samples

  start_transcription-IsWindow :
      (final : Bool) (s : Utterance A V) → IsWindow s → IsWindow (start_transcription final s)
  start_transcription-IsWindow final s h = ground (arith, start_fields final s)

  pub bound_window-IsWindow :
      (s : Utterance A V)
      → s.active ≡ true
      → s.window_start_sample + length s.window ≤ s.last_speech_end_sample
      → s.last_speech_end_sample ≤ s.total_samples
      → IsWindow (bound_window cfg s)
  unfolding bound_window begin_next_window
  bound_window-IsWindow s a h k = ground (arith, start_fields true s)

  partial_cadence-IsWindow : (s : Utterance A V) → IsWindow s → IsWindow (partial_cadence cfg s)
  unfolding partial_cadence
  partial_cadence-IsWindow s h =
      ground (arith, start_fields false (record s { speech_since_partial = 0 }))

  append_speech-IsWindow :
      (frame : List A) (s : Utterance A V)
      → s.active ≡ true
      → s.window_start_sample + length s.window + length frame ≤ s.total_samples
      → IsWindow (append_speech cfg frame s)
  unfolding append_speech
  append_speech-IsWindow frame s a h = partial_cadence-IsWindow _ (
      bound_window-IsWindow
        (record s {
          speech_since_partial = s.speech_since_partial + length frame;
          last_speech_end_sample = s.total_samples;
          window = s.window ++ frame;
        })
        a (omega (arith, length-append s.window frame)) (omega arith))

  -- The state between the count of a frame's samples and the decision on it.
  on_speech-IsWindow :
      (n : ℕ) (frame : List A) (s : Utterance A V)
      → IsWindow (record s { total_samples = n })
      → s.total_samples ≡ n + length frame
      → IsWindow (on_speech cfg n frame s)
  unfolding on_speech
  on_speech-IsWindow n frame s h e = append_speech-IsWindow frame _ (ground arith) (ground arith)

  on_silence-IsWindow : (s : Utterance A V) → IsWindow s → IsWindow (on_silence cfg s)
  unfolding on_silence reset_utterance
  on_silence-IsWindow s h = ground (
    arith,
    start_fields true
        (record s { continuous_silence = pos s.low_energy_samples -ℤ hysteresis_samples cfg }),
  )

  on_low_energy-IsWindow :
      (n : ℕ) (frame : List A) (s : Utterance A V)
      → s.active ≡ true
      → IsWindow (record s { total_samples = n })
      → s.total_samples ≡ n + length frame
      → IsWindow (on_low_energy cfg frame s)
  unfolding on_low_energy
  on_low_energy-IsWindow n frame s a h e =
      if_cases IsWindow (leb_ℤ (pos (s.low_energy_samples + length frame)) (hysteresis_samples cfg))
        (λ _. append_speech-IsWindow frame _ a (omega arith))
        (λ _. on_silence-IsWindow _ (ground arith))

  module _ (is_speech : V → List A → Bool × V) where
    pub classify-IsWindow :
        (frame : List A) (s : Utterance A V)
        → IsWindow s
        → IsWindow (classify cfg is_speech frame s)
    unfolding classify
    classify-IsWindow frame s h =
        if_cases IsWindow (is_speech s.vad frame).0
          (λ _. on_speech-IsWindow s.total_samples frame _ (ground arith) (omega arith))
          (λ _.
            if_cases IsWindow s.active
              (λ a. on_low_energy-IsWindow s.total_samples frame _ a (ground arith) (omega arith))
              (λ _. ground arith))

    pub commit_open-IsWindow :
        (s : Utterance A V) → IsWindow s → IsWindow (commit_open cfg is_speech s)
    unfolding commit_open reset_utterance
    commit_open-IsWindow s h = ground (arith, start_fields true s)
