-- ===== src/Streaming/Counted.antt =====
-- Every sample that a session classifies is counted (internal/pluginkit/streaming.go).
use muesli.Base.{ℕ, ◌+◌, ◌≡◌, refl, ◌∙◌, Bool, true, false, List, length, if_cases, arith}
use muesli.Base.Int.{pos, ◌-ℤ◌}
use muesli.Streaming.Config.{StreamingConfig, hysteresis_samples}
use muesli.Streaming.{
  Utterance, start_transcription, queue_commit, launch_transcription, begin_next_window,
  reset_utterance, bound_window, partial_cadence, append_speech, on_speech, on_silence,
  on_low_energy, classify, commit_open,
}

module _ {F A V : Type 0} (cfg : StreamingConfig F) where
  -- The same number of samples.
  abbrev Keeps : Utterance A V → Utterance A V → Type 0
  Keeps s r = r.total_samples ≡ s.total_samples

  start_transcription-Keeps :
      (final : Bool) (s : Utterance A V) → Keeps s (start_transcription final s)
  unfolding start_transcription queue_commit launch_transcription
  start_transcription-Keeps final s = ground arith

  bound_window-Keeps : (s : Utterance A V) → Keeps s (bound_window cfg s)
  unfolding bound_window begin_next_window
  bound_window-Keeps s = ground (arith, start_transcription-Keeps true s)

  partial_cadence-Keeps : (s : Utterance A V) → Keeps s (partial_cadence cfg s)
  unfolding partial_cadence
  partial_cadence-Keeps s =
      if_cases (Keeps s) _
        (λ _. start_transcription-Keeps false (record s { speech_since_partial = 0 })) (λ _. refl)

  append_speech-Keeps : (frame : List A) (s : Utterance A V) → Keeps s (append_speech cfg frame s)
  unfolding append_speech
  append_speech-Keeps frame s = partial_cadence-Keeps _ ∙ bound_window-Keeps _

  on_speech-Keeps : (n : ℕ) (frame : List A) (s : Utterance A V) → Keeps s (on_speech cfg n frame s)
  unfolding on_speech
  on_speech-Keeps n frame s = append_speech-Keeps frame _ ∙ ground arith

  on_silence-Keeps : (s : Utterance A V) → Keeps s (on_silence cfg s)
  unfolding on_silence reset_utterance
  on_silence-Keeps s =
      let silent = record s {
        continuous_silence = pos s.low_energy_samples -ℤ hysteresis_samples cfg;
      } in
      ground (arith, start_transcription-Keeps true silent)

  on_low_energy-Keeps : (frame : List A) (s : Utterance A V) → Keeps s (on_low_energy cfg frame s)
  unfolding on_low_energy
  on_low_energy-Keeps frame s =
      let low = record s { low_energy_samples = s.low_energy_samples + length frame } in
      ground (arith, append_speech-Keeps frame low, on_silence-Keeps low)

  module _ (is_speech : V → List A → Bool × V) where
    pub classify-total :
        (frame : List A) (s : Utterance A V)
        → (classify cfg is_speech frame s).total_samples ≡ s.total_samples + length frame
    unfolding classify
    classify-total frame s =
        let vad = (is_speech s.vad frame).1 in
        let heard = record s { vad = vad; total_samples = s.total_samples + length frame } in
        ground (arith, on_speech-Keeps s.total_samples frame heard, on_low_energy-Keeps frame heard)

    pub commit_open-total :
        (s : Utterance A V) → (commit_open cfg is_speech s).total_samples ≡ s.total_samples
    unfolding commit_open reset_utterance
    commit_open-total s = if_cases (Keeps s) _ (λ _. start_transcription-Keeps true s) (λ _. refl)
