-- ===== src/Streaming/Tests.antt =====
-- Runs of a small session, and the theorems at them.
use mathlib.Core.List.{flatten}
use muesli.Base.{
  ℕ, ◌≡◌, refl, ltb, Bool, true, false, ◌||◌, Option, some, List, [], ◌∷◌, ◌+◌, length, arith,
}
use muesli.Base.Int.{pos, leb_ℤ, int64, quot, ◌*ℤ◌}
use muesli.Base.Text.{Text, codes, trim_space, trim_left, trim_right, is_space}
use muesli.Streaming.Config.{StreamingConfig, duration_samples, max_samples, samples_to_ms}
use muesli.Streaming.Framing.{feed_all, feed_all-chunking}
use muesli.Streaming.Serial.{IsSerial, run-new_session-IsSerial}
use muesli.Streaming.Window.{IsWindow}
use muesli.Streaming.Delivered.{run-new_session-IsWindow}
use muesli.Streaming.Drain.{Delivers, work, wait-Delivers, owed}
use muesli.Streaming.Finish.{committed, heard, finish_flushes}
use muesli.Streaming.{
  StreamingSession, Utterance, PendingCommit, transcribing, Event, feeds, finishes, runs,
  new_session, step, run, wait, finish, start_transcription, snapshot, emission, segment,
  queue_commit, launch_transcription, begin_next_window, reset_utterance, bound_window,
  partial_cadence, append_speech, on_speech, on_silence, on_low_energy, classify,
  classify_subframes, feed_subframes, feed, finish_remainder, commit_open, hand_over, advance,
  run_goroutine,
}

-- A sample a millisecond, subframes of two, windows of ten.
abbrev small : StreamingConfig ℕ
small = record {
  sample_rate = pos 1000;
  max_window = pos 10_000_000;
  partial_interval = pos 4_000_000;
  silence_duration = pos 3_000_000;
  energy_threshold = 1;
  silence_hysteresis = pos 1_000_000;
  vad_frame = pos 2_000_000;
}

abbrev loud : List ℕ → Bool
loud [] = false
loud (x ∷ xs) = ltb 0 x || loud xs

abbrev detector : Unit {0} → List ℕ → Bool × Unit {0}
detector v frame = (loud frame, v)

abbrev echo : List ℕ → Option Text
echo samples = some (codes "hi ")

abbrev speech : List ℕ
speech = 1 ∷ 1 ∷ 1 ∷ 1 ∷ 0 ∷ 0 ∷ 0 ∷ 0 ∷ 0 ∷ 0 ∷ 0 ∷ []

abbrev events : List (Event ℕ)
events = feeds speech ∷ runs 0 ∷ feeds speech ∷ runs 0 ∷ finishes ∷ runs 0 ∷ runs 0 ∷ []

abbrev fresh : StreamingSession ℕ (Unit {0})
fresh = new_session tt

abbrev after : StreamingSession ℕ (Unit {0})
after = run small detector echo events fresh

subframe_small : duration_samples (pos 2_000_000) (pos 1000) ≡ pos 2
unfolding duration_samples int64 quot ◌*ℤ◌
subframe_small = refl

-- The first partial of four samples is emitted with its trimmed text.
first_emitted :
    (run small detector echo (feeds speech ∷ runs 0 ∷ []) fresh).emitted
    ≡ segment (record { start_ms = 0; end_ms = 4; text = codes "hi"; final = false }) ∷ []
unfolding run step new_session feed feed_subframes classify_subframes classify on_speech
    on_low_energy on_silence append_speech bound_window partial_cadence start_transcription
    queue_commit launch_transcription snapshot begin_next_window reset_utterance run_goroutine
    advance hand_over emission finish finish_remainder commit_open duration_samples int64 quot ◌*ℤ◌
    samples_to_ms trim_space trim_left trim_right is_space
first_emitted = refl

after-IsSerial : IsSerial after.utterance
after-IsSerial = run-new_session-IsSerial small detector echo events tt

after-IsWindow : (r : leb_ℤ (pos 0) (max_samples small) ≡ true) → IsWindow small r after.utterance
after-IsWindow r = run-new_session-IsWindow small detector echo r events tt

run-new_session-IsSerial_example : IsSerial after.utterance
run-new_session-IsSerial_example = run-new_session-IsSerial small detector echo events tt

room : leb_ℤ (pos 0) (max_samples small) ≡ true
unfolding duration_samples int64 quot ◌*ℤ◌
room = refl

run-new_session-IsWindow_example : IsWindow small room after.utterance
run-new_session-IsWindow_example = run-new_session-IsWindow small detector echo room events tt

feed_all-chunking_example :
    feed_all small detector ((1 ∷ 1 ∷ 1 ∷ []) ∷ (0 ∷ []) ∷ []) fresh
    ≡ feed_all small detector ((1 ∷ 1 ∷ []) ∷ (1 ∷ 0 ∷ []) ∷ []) fresh
unfolding duration_samples int64 quot ◌*ℤ◌ flatten
feed_all-chunking_example =
    feed_all-chunking small detector ((1 ∷ 1 ∷ 1 ∷ []) ∷ (0 ∷ []) ∷ [])
      ((1 ∷ 1 ∷ []) ∷ (1 ∷ 0 ∷ []) ∷ []) fresh (omega arith) refl

wait-Delivers_example :
    Delivers small echo after.utterance (wait small echo (work after.utterance) after.utterance)
wait-Delivers_example =
    wait-Delivers small echo (work after.utterance) after.utterance after-IsSerial (omega arith)

-- An utterance with audio, while one commit is in flight and two are queued.
abbrev commit_of : ℕ → PendingCommit ℕ
commit_of n = record { samples = n ∷ []; start = n; end = n + 1 }

abbrev busy : Utterance ℕ (Unit {0})
busy = record {
  vad = tt;
  window = 1 ∷ 1 ∷ [];
  total_samples = 9;
  window_start_sample = 7;
  last_speech_end_sample = 9;
  speech_since_partial = 2;
  continuous_silence = pos 0;
  low_energy_samples = 0;
  active = true;
  transcription_in_flight = true;
  pending_commits = commit_of 2 ∷ commit_of 3 ∷ [];
  goroutines = transcribing true (commit_of 1) ∷ [];
  emitted = [];
}

busy-IsSerial : IsSerial busy
busy-IsSerial = record { one_flight = refl; bounded = omega arith; idle = λ e. cc }

-- Two samples of an utterance in the window, and a third in the buffer.
abbrev open_session : StreamingSession ℕ (Unit {0})
open_session = run small detector echo (feeds (1 ∷ 1 ∷ 1 ∷ []) ∷ []) fresh

open_buffered : (open_session.pending ≡ 1 ∷ []) × (open_session.window ≡ 1 ∷ 1 ∷ [])
unfolding run step new_session feed feed_subframes classify_subframes classify on_speech
    append_speech bound_window partial_cadence duration_samples int64 quot ◌*ℤ◌
open_buffered = (refl, refl)

finish_flushes_example :
    ((finish small detector open_session).pending ≡ [])
    × ((finish small detector open_session).window ≡ [])
    × ((finish small detector open_session).total_samples
        ≡ open_session.total_samples + length open_session.pending)
    × (owed small echo (finish small detector open_session).utterance
        ≡ committed small detector echo (heard small detector open_session))
finish_flushes_example =
    finish_flushes small detector echo room open_session
      (run-new_session-IsWindow small detector echo room (feeds (1 ∷ 1 ∷ 1 ∷ []) ∷ []) tt)
      (run-new_session-IsSerial small detector echo (feeds (1 ∷ 1 ∷ 1 ∷ []) ∷ []) tt)
