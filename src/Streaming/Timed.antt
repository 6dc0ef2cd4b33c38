-- ===== src/Streaming/Timed.antt =====
-- Where commits and segments lie in the stream (internal/pluginkit/streaming.go).
use muesli.Base.{
  ℕ, ◌+◌, ◌≤◌, ◌<◌, ◌≡◌, refl, Bool, true, false, List, [], ◌∷◌, ◌++◌, length, All, All-append,
  length-append, if_cases, ◌&&◌, not, arith,
}
use muesli.Base.Int.{pos, leb_ℤ, ◌-ℤ◌}
use muesli.Streaming.Config.{
  StreamingConfig, max_samples, partial_samples, silence_samples, hysteresis_samples,
}
use muesli.Streaming.Window.{IsWindow, bound_window-IsWindow}
use muesli.Streaming.{
  Utterance, Goroutine, PendingCommit, Emission, segment, failed, transcribing, handing_over,
  is_nil, tail, queue_commit, snapshot, launch_transcription, start_transcription,
  begin_next_window, reset_utterance, bound_window, partial_cadence, append_speech, on_speech,
  on_silence, on_low_energy, classify, commit_open,
}

-- A commit holds audio, and its span in the stream is at least as long as the audio.
abbrev pub Spans : {A : Type 0} → PendingCommit A → Type 0
Spans c = (0 < length c.samples) × (c.start + length c.samples ≤ c.end)

abbrev pub FlightSpans : {A : Type 0} → Goroutine A → Type 0
FlightSpans (transcribing final c) = Spans c
FlightSpans handing_over = Unit {0}

abbrev pub IsOrdered : Emission → Type 0
IsOrdered (segment g) = g.start_ms ≤ g.end_ms
IsOrdered failed = Unit {0}

tail-All : {A : Type 0} (P : A → Type 0) (cs : List A) → All P cs → All P (tail cs)
tail-All P [] h = tt
tail-All P (c ∷ cs) h = h.1

module _ {A V : Type 0} where
  pub record IsTimed (s : Utterance A V) : Type 0 where
    pub commits : All Spans s.pending_commits
    pub flights : All FlightSpans s.goroutines
    pub delivered : All IsOrdered s.emitted

  pub IsTimed-same :
      {s t : Utterance A V}
      → IsTimed s
      → t.pending_commits ≡ s.pending_commits
      → t.goroutines ≡ s.goroutines
      → t.emitted ≡ s.emitted
      → IsTimed t
  IsTimed-same h e f g = record {
    commits = rw e h.commits;
    flights = rw f h.flights;
    delivered = rw g h.delivered;
  }

  queue_commit-IsTimed :
      (s : Utterance A V) → Spans (snapshot s) → IsTimed s → IsTimed (queue_commit s)
  unfolding queue_commit
  queue_commit-IsTimed s w h = record {
    commits =
        All-append Spans _ (snapshot s ∷ [])
          (if_cases (All Spans) _ (λ _. tail-All Spans s.pending_commits h.commits)
            (λ _. h.commits))
          (w, tt);
    flights = h.flights;
    delivered = h.delivered;
  }

  pub launch_transcription-IsTimed :
      (final : Bool) (c : PendingCommit A) (s : Utterance A V)
      → Spans c
      → IsTimed s
      → IsTimed (launch_transcription final c s)
  unfolding launch_transcription
  launch_transcription-IsTimed final c s w h = record {
    commits = h.commits;
    flights = All-append FlightSpans s.goroutines (transcribing final c ∷ []) h.flights (w, tt);
    delivered = h.delivered;
  }

  snapshot-Spans :
      (s : Utterance A V)
      → is_nil s.window ≡ false
      → s.window_start_sample + length s.window ≤ s.last_speech_end_sample
      → Spans (snapshot s)
  unfolding snapshot
  snapshot-Spans s n h = grind arith

  start_transcription-IsTimed :
      (final : Bool) (s : Utterance A V)
      → s.window_start_sample + length s.window ≤ s.last_speech_end_sample
      → IsTimed s
      → IsTimed (start_transcription final s)
  unfolding start_transcription
  start_transcription-IsTimed final s w h =
      if_cases IsTimed (is_nil s.window) (λ _. h)
        (λ n.
          if_cases IsTimed s.transcription_in_flight
            (λ _.
              if_cases IsTimed final (λ _. queue_commit-IsTimed s (snapshot-Spans s n w) h)
                (λ _. h))
            (λ _. launch_transcription-IsTimed final (snapshot s) s (snapshot-Spans s n w) h))

module _ {F A V : Type 0} (cfg : StreamingConfig F)
    (room : leb_ℤ (pos 0) (max_samples cfg) ≡ true) where
  bound_window-IsTimed :
      (s : Utterance A V)
      → s.window_start_sample + length s.window ≤ s.last_speech_end_sample
      → IsTimed s
      → IsTimed (bound_window cfg s)
  unfolding bound_window begin_next_window
  bound_window-IsTimed s w h =
      if_cases IsTimed (leb_ℤ (pos (length s.window)) (max_samples cfg)) (λ _. h)
        (λ _. IsTimed-same (start_transcription-IsTimed true s w h) refl refl refl)

  partial_cadence-IsTimed :
      (s : Utterance A V)
      → s.window_start_sample + length s.window ≤ s.last_speech_end_sample
      → IsTimed s
      → IsTimed (partial_cadence cfg s)
  unfolding partial_cadence
  partial_cadence-IsTimed s w h =
      if_cases IsTimed (leb_ℤ (partial_samples cfg) (pos s.speech_since_partial))
        (λ _. start_transcription-IsTimed false _ w (IsTimed-same h refl refl refl)) (λ _. h)

  append_speech-IsTimed :
      (frame : List A) (s : Utterance A V)
      → s.active ≡ true
      → s.window_start_sample + length s.window + length frame ≤ s.total_samples
      → IsTimed s
      → IsTimed (append_speech cfg frame s)
  unfolding append_speech
  append_speech-IsTimed frame s a w h =
      let heard = record s {
        speech_since_partial = s.speech_since_partial + length frame;
        last_speech_end_sample = s.total_samples;
        window = s.window ++ frame;
      } in
      let w' : heard.window_start_sample + length heard.window ≤ heard.last_speech_end_sample =
        omega (arith, length-append s.window frame) in
      partial_cadence-IsTimed _ (bound_window-IsWindow cfg room heard a w' (omega arith)).spans
        (bound_window-IsTimed heard w' (IsTimed-same h refl refl refl))

  on_speech-IsTimed :
      (n : ℕ) (frame : List A) (s : Utterance A V)
      → IsWindow cfg room (record s { total_samples = n })
      → s.total_samples ≡ n + length frame
      → IsTimed s
      → IsTimed (on_speech cfg n frame s)
  unfolding on_speech
  on_speech-IsTimed n frame s w e h =
      let begun =
        if_cases IsTimed s.active {x = s} {y = record s { active = true; window_start_sample = n }}
          (λ _. h) (λ _. IsTimed-same h refl refl refl) in
      append_speech-IsTimed frame _ (ground arith) (ground arith)
        (IsTimed-same begun refl refl refl)

  on_silence-IsTimed :
      (s : Utterance A V) → IsWindow cfg room s → IsTimed s → IsTimed (on_silence cfg s)
  unfolding on_silence reset_utterance
  on_silence-IsTimed s w h =
      if_cases IsTimed
        (leb_ℤ (silence_samples cfg) (pos s.low_energy_samples -ℤ hysteresis_samples cfg))
        (λ _.
          IsTimed-same
            (start_transcription-IsTimed true
              (record s { continuous_silence = pos s.low_energy_samples -ℤ hysteresis_samples cfg })
              w.spans (IsTimed-same h refl refl refl))
            refl refl refl)
        (λ _. IsTimed-same h refl refl refl)

  on_low_energy-IsTimed :
      (n : ℕ) (frame : List A) (s : Utterance A V)
      → s.active ≡ true
      → IsWindow cfg room (record s { total_samples = n })
      → s.total_samples ≡ n + length frame
      → IsTimed s
      → IsTimed (on_low_energy cfg frame s)
  unfolding on_low_energy
  on_low_energy-IsTimed n frame s a w e h =
      if_cases IsTimed (leb_ℤ (pos (s.low_energy_samples + length frame)) (hysteresis_samples cfg))
        (λ _. append_speech-IsTimed frame _ a (omega arith) (IsTimed-same h refl refl refl))
        (λ _. on_silence-IsTimed _ (ground arith) (IsTimed-same h refl refl refl))

  module _ (is_speech : V → List A → Bool × V) where
    pub classify-IsTimed :
        (frame : List A) (s : Utterance A V)
        → IsWindow cfg room s
        → IsTimed s
        → IsTimed (classify cfg is_speech frame s)
    unfolding classify
    classify-IsTimed frame s w h =
        if_cases IsTimed (is_speech s.vad frame).0
          (λ _.
            on_speech-IsTimed s.total_samples frame _ (ground arith) (omega arith)
              (IsTimed-same h refl refl refl))
          (λ _.
            if_cases IsTimed s.active
              (λ a.
                on_low_energy-IsTimed s.total_samples frame _ a (ground arith) (omega arith)
                  (IsTimed-same h refl refl refl))
              (λ _. IsTimed-same h refl refl refl))

    pub commit_open-IsTimed :
        (s : Utterance A V)
        → IsWindow cfg room s
        → IsTimed s
        → IsTimed (commit_open cfg is_speech s)
    unfolding commit_open reset_utterance
    commit_open-IsTimed s w h =
        if_cases IsTimed (s.active && not (is_nil s.window))
          (λ _. IsTimed-same (start_transcription-IsTimed true s w.spans h) refl refl refl) (λ _. h)
