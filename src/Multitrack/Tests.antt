-- ===== src/Multitrack/Tests.antt =====
-- Runs of internal/pluginkit/multitrack.go on short recordings.
use muesli.Base.{
  ℕ, ◌+◌, ◌≡◌, refl, ◌↔◌, Bool, true, false, Option, none, some, List, [], ◌∷◌, ◌==◌, if◌then◌else◌,
}
use muesli.Base.Int.{ℤ, pos}
use muesli.Base.Text.{Text, codes, digits}
use muesli.Execution.{Segment}
use muesli.Multitrack.{
  TranscribeResult, Media, deinterleave, channels_from, channel_samples, label_all, join,
  insert_segment, sort_segments, transcribe_channels, orchestrate_channels, channel_speaker,
  channel_source, run_multitrack, run_mono, run_channels,
}
use muesli.Multitrack.Sorted.{IsOrdered, starting_at}
use muesli.Multitrack.Stable.{
  Fails, all_segments, orchestrate_channels-merges, orchestrate_channels-none_iff,
}

abbrev said : ℕ → Text → Segment
said t words = record {
  id = [];
  start_ms = pos t;
  end_ms = pos (t + 10);
  text = words;
  source = [];
  speaker = [];
  boundary = [];
  provisional = false;
}

abbrev labelled_as : Text → Text → Segment → Segment
labelled_as who where_from s = record s { speaker = who; source = where_from }

-- A channel without samples is silent, one whose first sample is 9 cannot be transcribed, and any
-- other is heard twice, at its first sample and at 5.
abbrev is_near_silent : List ℕ → Bool
is_near_silent [] = true
is_near_silent (x ∷ xs) = false

abbrev transcribe : List ℕ → Option TranscribeResult
transcribe (x ∷ xs) =
    if x == 9
    then none
    else some (record {
      segments = said x (codes "a") ∷ said 5 (codes "b") ∷ [];
      language = codes "en";
      model = codes "base";
      duration_ms = pos x;
    })
transcribe [] = none

abbrev merged : TranscribeResult
merged = record {
  segments =
      labelled_as (codes "Speaker 3") (codes "channel 2") (said 1 (codes "a"))
      ∷ labelled_as (codes "You") (codes "mic") (said 5 (codes "a"))
      ∷ labelled_as (codes "You") (codes "mic") (said 5 (codes "b"))
      ∷ labelled_as (codes "Speaker 3") (codes "channel 2") (said 5 (codes "b"))
      ∷ [];
  language = codes "en";
  model = codes "base";
  duration_ms = pos 5;
}

orchestrate_three :
    orchestrate_channels is_near_silent transcribe ((5 ∷ []) ∷ [] ∷ (1 ∷ []) ∷ []) ≡ some merged
unfolding orchestrate_channels transcribe_channels join label_all sort_segments insert_segment
    channel_speaker channel_source digits
orchestrate_three = refl

deinterleave_two :
    deinterleave {A = ℕ} 0 (1 ∷ 2 ∷ 3 ∷ 4 ∷ 5 ∷ []) 2 ≡ (1 ∷ 3 ∷ []) ∷ (2 ∷ 4 ∷ []) ∷ []
unfolding deinterleave channels_from channel_samples
deinterleave_two = refl

-- The download gives `raw`, the probe its first byte, and each decoder the bytes as they are.
abbrev media : List ℕ → Media ℕ
media raw = record {
  fetch = λ url. some raw;
  probe = first;
  decode_mono = λ bytes. some bytes;
  decode_channels = λ bytes n. some (deinterleave {A = ℕ} 0 bytes n);
}
  where
    first : List ℕ → Option ℕ
    first [] = none
    first (n ∷ ns) = some n

-- Without a channel count, and with one channel, the audio is transcribed as it is.
mono_unlabelled :
    run_multitrack (media (1 ∷ 7 ∷ [])) is_near_silent transcribe [] ≡ transcribe (1 ∷ 7 ∷ [])
unfolding run_multitrack run_mono
mono_unlabelled = refl

unknown_channels : run_multitrack (media []) is_near_silent transcribe [] ≡ none
unfolding run_multitrack run_mono
unknown_channels = refl

two_channels :
    run_multitrack (media (2 ∷ 9 ∷ [])) is_near_silent transcribe []
    ≡ orchestrate_channels is_near_silent transcribe ((2 ∷ []) ∷ (9 ∷ []) ∷ [])
unfolding run_multitrack run_channels deinterleave channels_from channel_samples
two_channels = refl

orchestrate_channels-merges_example :
    IsOrdered merged.segments
    × ((t : ℤ)
        → starting_at t merged.segments
          ≡ starting_at t
              (all_segments is_near_silent transcribe 0 ((5 ∷ []) ∷ [] ∷ (1 ∷ []) ∷ [])))
orchestrate_channels-merges_example =
    orchestrate_channels-merges is_near_silent transcribe ((5 ∷ []) ∷ [] ∷ (1 ∷ []) ∷ []) merged
      orchestrate_three

orchestrate_channels-none_iff_example :
    (orchestrate_channels is_near_silent transcribe ((1 ∷ []) ∷ (9 ∷ []) ∷ []) ≡ none)
    ↔ Fails is_near_silent transcribe ((1 ∷ []) ∷ (9 ∷ []) ∷ [])
orchestrate_channels-none_iff_example =
    orchestrate_channels-none_iff is_near_silent transcribe ((1 ∷ []) ∷ (9 ∷ []) ∷ [])
