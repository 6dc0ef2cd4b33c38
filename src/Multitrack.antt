-- ===== src/Multitrack.antt =====
-- Multitrack transcription: internal/pluginkit/multitrack.go, one channel of the audio for each
-- speaker.
--
-- A sample is any type: the silence test, the transcriber, ffmpeg and the download are parameters.
-- A 32-bit word of a sample is read by `from_bits`, which stands for math.Float32frombits.
pub mod Sorted
pub mod Stable
pub mod Channels
mod Tests
use muesli.Base.{
  ℕ, zero, suc, ◌+◌, ◌*◌, ◌/◌, ◌%◌, Bool, true, false, Option, none, some, List, [], ◌∷◌, ◌++◌,
  length, get_elem?, leb, ltb, ◌==◌, if◌then◌else◌,
}
use muesli.Base.Int.{ℤ, pos, leb_ℤ, ltb_ℤ}
use muesli.Base.Text.{Text, codes, decimal, is_empty}
use muesli.Execution.{Segment}

-- get_elem? with a default: every use is inside the list.
abbrev pub get_or {ℓ} : {A : Type ℓ} → List A → ℕ → A → A
get_or [] i d = d
get_or (x ∷ xs) zero d = x
get_or (x ∷ xs) (suc i) d = get_or xs i d

module _ {A : Type 0} (silence : A) where
  -- Samples of channel `c` from frame `i` on, `n` of them.
  pub channel_samples : List A → ℕ → ℕ → ℕ → ℕ → List A
  channel_samples interleaved channels c i zero = []
  channel_samples interleaved channels c i (suc n) =
      get_or interleaved (i * channels + c) silence
      ∷ channel_samples interleaved channels c (i + 1) n

  -- Channels from `c` on, `k` of them.
  pub channels_from : List A → ℕ → ℕ → ℕ → List (List A)
  channels_from interleaved channels c zero = []
  channels_from interleaved channels c (suc k) =
      channel_samples interleaved channels c 0 (length interleaved / channels)
      ∷ channels_from interleaved channels (c + 1) k

  pub deinterleave : List A → ℕ → List (List A)
  deinterleave interleaved channels = channels_from interleaved channels 0 channels

-- channelSpeaker and channelSource; the first two are model.SpeakerYou and model.SpeakerThem.
pub channel_speaker : ℕ → Text
channel_speaker zero = codes "You"
channel_speaker (suc zero) = codes "Them"
channel_speaker i = codes "Speaker " ++ decimal (i + 1)

pub channel_source : ℕ → Text
channel_source zero = codes "mic"
channel_source (suc zero) = codes "system"
channel_source i = codes "channel " ++ decimal i

pub record TranscribeResult : Type 0 where
  pub segments : List Segment
  pub language : Text
  pub model : Text
  pub duration_ms : ℤ

-- A segment of channel `i`.
abbrev pub labelled : ℕ → Segment → Segment
labelled i s = record s { speaker = channel_speaker i; source = channel_source i }

pub label_all : ℕ → List Segment → List Segment
label_all i [] = []
label_all i (s ∷ ss) = labelled i s ∷ label_all i ss

-- One channel's result on top of those before it.
pub join : ℕ → TranscribeResult → TranscribeResult → TranscribeResult
join i res acc = record {
  segments = acc.segments ++ label_all i res.segments;
  language = if is_empty res.language then acc.language else res.language;
  model = if is_empty res.model then acc.model else res.model;
  duration_ms = if ltb_ℤ acc.duration_ms res.duration_ms then res.duration_ms else acc.duration_ms;
}

-- sort.SliceStable by StartMS, by insertion before the later ones.
pub insert_segment : Segment → List Segment → List Segment
insert_segment s [] = s ∷ []
insert_segment s (t ∷ ts) =
    let rest = insert_segment s ts in if ltb_ℤ t.start_ms s.start_ms then t ∷ rest else s ∷ t ∷ ts

pub sort_segments : List Segment → List Segment
sort_segments [] = []
sort_segments (s ∷ ss) = insert_segment s (sort_segments ss)

abbrev pub no_result : TranscribeResult
no_result = record { segments = []; language = []; model = []; duration_ms = pos 0 }

module _ {A : Type 0} (is_near_silent : List A → Bool)
    (transcribe : List A → Option TranscribeResult) where
  -- The loop over the channels, from the `i`-th on: an error ends it.
  pub transcribe_channels : ℕ → List (List A) → TranscribeResult → Option TranscribeResult
  transcribe_channels i [] acc = some acc
  transcribe_channels i (pcm ∷ channels) acc = elim (is_near_silent pcm) [
    | true ↦ transcribe_channels (i + 1) channels acc
    | false ↦ elim (transcribe pcm) [
      | none ↦ none
      | some res ↦ transcribe_channels (i + 1) channels (join i res acc)
    ]
  ]

  pub orchestrate_channels : List (List A) → Option TranscribeResult
  orchestrate_channels channels = elim (transcribe_channels 0 channels no_result) [
    | none ↦ none
    | some r ↦ some (record r { segments = sort_segments r.segments })
  ]

-- binary.LittleEndian.Uint32.
abbrev pub uint32 : ℕ → ℕ → ℕ → ℕ → ℕ
uint32 a b c d = a + 256 * b + 65_536 * c + 16_777_216 * d

-- decodeFFmpegF32LE: `none` when the bytes are not whole samples.
pub decode_f32le {ℓ} : {A : Type ℓ} → (ℕ → A) → List ℕ → Option (List A)
decode_f32le from_bits [] = some []
decode_f32le from_bits (a ∷ b ∷ c ∷ d ∷ out) = elim (decode_f32le from_bits out) [
  | none ↦ none
  | some pcm ↦ some (from_bits (uint32 a b c d) ∷ pcm)
]
decode_f32le from_bits _ = none

-- What runMultitrack calls: the download, the probe (`none` is an error), the decoders.
pub record Media (A : Type 0) : Type 0 where
  pub fetch : Text → Option (List ℕ)
  pub probe : List ℕ → Option ℕ
  pub decode_mono : List ℕ → Option (List A)
  pub decode_channels : List ℕ → ℕ → Option (List (List A))

module _ {A : Type 0} (media : Media A) (is_near_silent : List A → Bool)
    (transcribe : List A → Option TranscribeResult) where
  pub run_mono : List ℕ → Option TranscribeResult
  run_mono raw = elim (media.decode_mono raw) [ none ↦ none | some pcm ↦ transcribe pcm ]

  pub run_channels : List ℕ → ℕ → Option TranscribeResult
  run_channels raw n = elim (media.decode_channels raw n) [
    | none ↦ none
    | some channels ↦ orchestrate_channels is_near_silent transcribe channels
  ]

  pub run_multitrack : Text → Option TranscribeResult
  run_multitrack audio_url = elim (media.fetch audio_url) [
    | none ↦ none
    | some raw ↦ elim (media.probe raw) [
      | none ↦ run_mono raw
      | some n ↦ if leb n 1 then run_mono raw else run_channels raw n
    ]
  ]
