-- ===== src/Streaming.antt =====
-- Live transcription sessions: internal/pluginkit/streaming.go.
--
-- A call that takes the session's lock is one function on the session. A transcription goroutine
-- is an entry of `goroutines`, in one of two phases: before it emits its result, and after that,
-- when it waits for the lock to hand over to the next queued commit. So every interleaving of
-- callers and goroutines is a list of events. The detector, the transcriber and the samples are
-- parameters. Durations and the sample rate are signed 64-bit numbers, and `duration_samples`
-- wraps as the code does; the counters of samples are unbounded here (they are int64 there, and
-- pass 2 ^ 63 / 1000 only after eighteen thousand years at 16 kHz).
pub mod Config
pub mod Framing
pub mod Serial
pub mod Window
pub mod Induction
pub mod Timed
pub mod Delivered
pub mod Drain
pub mod Counted
pub mod Finish
mod Tests
use muesli.Base.{
  ℕ, zero, suc, ◌+◌, ◌-◌, ◌*◌, ◌/◌, Bool, true, false, not, ◌&&◌, ◌||◌, Option, none, some, List,
  [], ◌∷◌, ◌++◌, length, get_elem?, set, erase_at, take, drop, leb, ltb, ◌==◌, if◌then◌else◌,
}
use muesli.Base.Int.{ℤ, pos, leb_ℤ, ltb_ℤ, ◌-ℤ◌}
use muesli.Base.Text.{Text, is_empty, trim_space}
use muesli.Streaming.Config.{
  StreamingConfig, max_samples, partial_samples, silence_samples, hysteresis_samples, subframe,
  samples_to_ms,
}

pub record StreamingSegment : Type 0 where
  pub start_ms : ℕ
  pub end_ms : ℕ
  pub text : Text
  pub final : Bool

-- What the segment handler receives: a segment with no error, or an error with a zero segment.
pub data Emission : Type 0 where
  segment : StreamingSegment → Emission
  failed : Emission

-- A final snapshot that waits behind a transcription in flight.
pub record PendingCommit (A : Type 0) : Type 0 where
  pub samples : List A
  pub start : ℕ
  pub end : ℕ

-- A transcription goroutine, before and after it has emitted.
pub data Goroutine (A : Type 0) : Type 0 where
  transcribing : Bool → PendingCommit A → Goroutine A
  handing_over : Goroutine A

-- The fields of StreamingSession but `pending`, with the goroutines and what they emitted so far.
pub record Utterance (A V : Type 0) : Type 0 where
  pub vad : V
  pub window : List A
  pub total_samples : ℕ
  pub window_start_sample : ℕ
  pub last_speech_end_sample : ℕ
  pub speech_since_partial : ℕ
  pub continuous_silence : ℤ
  pub low_energy_samples : ℕ
  pub active : Bool
  pub transcription_in_flight : Bool
  pub pending_commits : List (PendingCommit A)
  pub goroutines : List (Goroutine A)
  pub emitted : List Emission

pub record StreamingSession (A V : Type 0) : Type 0 where
  pub pending : List A
  pub utterance : Utterance A V
  pub open utterance use *

abbrev pub max_pending_commits : ℕ
max_pending_commits = 2

abbrev pub is_nil {ℓ} : {A : Type ℓ} → List A → Bool
is_nil [] = true
is_nil (x ∷ xs) = false

abbrev pub tail {ℓ} : {A : Type ℓ} → List A → List A
tail [] = []
tail (x ∷ xs) = xs

module _ {A V : Type 0} where
  pub new_session : V → StreamingSession A V
  new_session vad = record {
    pending = [];
    utterance = record {
      vad = vad;
      window = [];
      total_samples = 0;
      window_start_sample = 0;
      last_speech_end_sample = 0;
      speech_since_partial = 0;
      continuous_silence = pos 0;
      low_energy_samples = 0;
      active = false;
      transcription_in_flight = false;
      pending_commits = [];
      goroutines = [];
      emitted = [];
    };
  }

  pub snapshot : Utterance A V → PendingCommit A
  snapshot s = record {
    samples = s.window;
    start = s.window_start_sample;
    end = s.last_speech_end_sample;
  }

  -- Full, the queue drops its oldest entry.
  queue_commit : Utterance A V → Utterance A V
  queue_commit s =
      let kept =
        if leb max_pending_commits (length s.pending_commits)
        then tail s.pending_commits
        else s.pending_commits in
      record s { pending_commits = kept ++ snapshot s ∷ [] }

  pub launch_transcription : Bool → PendingCommit A → Utterance A V → Utterance A V
  launch_transcription final commit s = record s {
    transcription_in_flight = true;
    goroutines = s.goroutines ++ transcribing final commit ∷ [];
  }

  -- A partial that meets a transcription in flight is dropped, a final is queued.
  pub start_transcription : Bool → Utterance A V → Utterance A V
  start_transcription final s =
      if is_nil s.window
      then s
      else if s.transcription_in_flight
      then (if final then queue_commit s else s)
      else launch_transcription final (snapshot s) s

  begin_next_window : Utterance A V → Utterance A V
  begin_next_window s = record s {
    window = [];
    speech_since_partial = 0;
    window_start_sample = s.total_samples;
    last_speech_end_sample = s.total_samples;
  }

  reset_utterance : Utterance A V → Utterance A V
  reset_utterance s = record s {
    window = [];
    active = false;
    continuous_silence = pos 0;
    low_energy_samples = 0;
    speech_since_partial = 0;
    window_start_sample = 0;
    last_speech_end_sample = 0;
  }

module _ {F A : Type 0} (cfg : StreamingConfig F) (transcribe : List A → Option Text) where
  -- What a goroutine hands to the segment handler: nothing where the text is blank.
  pub emission : Bool → PendingCommit A → List Emission
  emission final commit = elim (transcribe commit.samples) [
    | none ↦ failed ∷ []
    | some text ↦
        let trimmed = trim_space text in
        if is_empty trimmed
        then []
        else segment (record {
          start_ms = samples_to_ms cfg commit.start;
          end_ms = samples_to_ms cfg commit.end;
          text = trimmed;
          final = final;
        })
          ∷ []
  ]

module _ {F A V : Type 0} (cfg : StreamingConfig F) where
  -- A window beyond the bound is committed whole, and the utterance goes on in a fresh one.
  pub bound_window : Utterance A V → Utterance A V
  bound_window s =
      if leb_ℤ (pos (length s.window)) (max_samples cfg)
      then s
      else begin_next_window (start_transcription true s)

  partial_cadence : Utterance A V → Utterance A V
  partial_cadence s =
      if leb_ℤ (partial_samples cfg) (pos s.speech_since_partial)
      then start_transcription false (record s { speech_since_partial = 0 })
      else s

  append_speech : List A → Utterance A V → Utterance A V
  append_speech frame s = partial_cadence (
      bound_window (record s {
        speech_since_partial = s.speech_since_partial + length frame;
        last_speech_end_sample = s.total_samples;
        window = s.window ++ frame;
      }))

  -- The branch of a frame of speech.
  on_speech : ℕ → List A → Utterance A V → Utterance A V
  on_speech frame_start frame s =
      let begun =
        if s.active then s else record s { active = true; window_start_sample = frame_start } in
      append_speech frame (record begun { continuous_silence = pos 0; low_energy_samples = 0 })

  -- The silence that counts once the run of low energy outlasts the hysteresis.
  on_silence : Utterance A V → Utterance A V
  on_silence s =
      let silent = record s {
        continuous_silence = pos s.low_energy_samples -ℤ hysteresis_samples cfg;
      } in
      if leb_ℤ (silence_samples cfg) silent.continuous_silence
      then reset_utterance (start_transcription true silent)
      else silent

  -- The branch of a frame below the threshold, in an active utterance.
  on_low_energy : List A → Utterance A V → Utterance A V
  on_low_energy frame s =
      let low = record s { low_energy_samples = s.low_energy_samples + length frame } in
      if leb_ℤ (pos low.low_energy_samples) (hysteresis_samples cfg)
      then append_speech frame low
      else on_silence low

  module _ (is_speech : V → List A → Bool × V) where
    pub classify : List A → Utterance A V → Utterance A V
    classify frame s =
        let (speech, vad) = is_speech s.vad frame in
        let heard = record s { vad = vad; total_samples = s.total_samples + length frame } in
        if speech
        then on_speech s.total_samples frame heard
        else if s.active
        then on_low_energy frame heard
        else heard

    -- The loop of Feed over whole subframes: what is left over is shorter than one.
    classify_subframes : ℕ → ℕ → List A → Utterance A V → List A × Utterance A V
    classify_subframes zero k buffer s = (buffer, s)
    classify_subframes (suc fuel) k buffer s =
        let rest = classify_subframes fuel k (drop k buffer) (classify (take k buffer) s) in
        if leb k (length buffer) then rest else (buffer, s)

    feed_subframes : ℕ → List A → StreamingSession A V → StreamingSession A V
    feed_subframes k frame s =
        let buffer = s.pending ++ frame in
        let (rest, u) = classify_subframes (length buffer) k buffer s.utterance in
        record { pending = rest; utterance = u }

    pub feed : List A → StreamingSession A V → StreamingSession A V
    feed frame s =
        if is_nil frame
        then s
        else if subframe cfg == 0
        then record s { utterance = classify frame s.utterance }
        else feed_subframes (subframe cfg) frame s

    -- Finish up to its unlock: the remainder is classified, and an open window is committed.
    pub finish_remainder : StreamingSession A V → StreamingSession A V
    finish_remainder s =
        if is_nil s.pending
        then s
        else record { pending = []; utterance = classify s.pending s.utterance }

    pub commit_open : Utterance A V → Utterance A V
    commit_open s =
        if s.active && not (is_nil s.window)
        then reset_utterance (start_transcription true s)
        else s

    pub finish : StreamingSession A V → StreamingSession A V
    finish s = let t = finish_remainder s in record t { utterance = commit_open t.utterance }

  module _ (transcribe : List A → Option Text) where
    -- Under the lock: the next queued commit is launched, or the flight ends.
    hand_over : Utterance A V → Utterance A V
    hand_over s = elim s.pending_commits [
      | [] ↦ record s { transcription_in_flight = false }
      | next ∷ rest ↦ launch_transcription true next (record s { pending_commits = rest })
    ]

    -- One step of the goroutine at an index.
    advance : ℕ → Goroutine A → Utterance A V → Utterance A V
    advance i (transcribing final commit) s = record s {
      goroutines = set s.goroutines i handing_over;
      emitted = s.emitted ++ emission cfg transcribe final commit;
    }
    advance i handing_over s = hand_over (record s { goroutines = erase_at s.goroutines i })

    pub run_goroutine : ℕ → Utterance A V → Utterance A V
    run_goroutine i s = elim (get_elem? s.goroutines i) [ none ↦ s | some g ↦ advance i g s ]

-- What happens to a session: calls, and steps of its goroutines.
pub data Event (A : Type 0) : Type 0 where
  feeds : List A → Event A
  finishes : Event A
  runs : ℕ → Event A

module _ {F A V : Type 0} (cfg : StreamingConfig F) (is_speech : V → List A → Bool × V)
    (transcribe : List A → Option Text) where
  pub step : Event A → StreamingSession A V → StreamingSession A V
  step (feeds frame) s = feed cfg is_speech frame s
  step finishes s = finish cfg is_speech s
  step (runs i) s = record s { utterance = run_goroutine cfg transcribe i s.utterance }

  pub run : List (Event A) → StreamingSession A V → StreamingSession A V
  run [] s = s
  run (e ∷ es) s = run es (step e s)

module _ {F A V : Type 0} (cfg : StreamingConfig F) (transcribe : List A → Option Text) where
  -- The wait of Finish: the goroutine in flight runs until none is left.
  pub wait : ℕ → Utterance A V → Utterance A V
  wait zero s = s
  wait (suc fuel) s = wait fuel (run_goroutine cfg transcribe 0 s)
