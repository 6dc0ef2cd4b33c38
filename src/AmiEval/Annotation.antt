-- ===== src/AmiEval/Annotation.antt =====
-- The reference of a meeting: internal/annotation/annotation.go of ami-eval.
pub mod Apart
pub mod Covered
pub mod Merged
mod Tests
use muesli.Base.{
  ℕ, suc, ◌+◌, ◌-◌, ◌*◌, ◌/◌, Bool, true, false, ◌&&◌, Option, none, some, List, [], ◌∷◌, ◌++◌, ltb,
  leb, if◌then◌else◌,
}
use muesli.Base.Int.{ℤ, pos, negsuc, ltb_ℤ, pos_part}
use muesli.AmiEval.{Interval, sort_slice}

abbrev pub merge_gap_millis : ℕ
merge_gap_millis = 300

abbrev pub end_overrun_fatal_millis : ℕ
end_overrun_fatal_millis = 1000

-- A timed word in samples, before clamping.
pub record Word : Type 0 where
  pub first : ℤ
  pub last : ℤ

pub record Counters : Type 0 where
  pub clamped_start : ℕ
  pub clamped_end : ℕ
  pub clamped_empty : ℕ

pub record Reference : Type 0 where
  pub counters : Counters
  pub duration_samples : ℕ
  pub merge_gap_samples : ℕ
  pub intervals : List Interval

-- What the loop over the words has made so far.
pub record Flat : Type 0 where
  pub counts : Counters
  pub spans : List Interval

-- The bound on the start: past the audio, or before it.
pub clamp_start : ℕ → ℤ → Counters → ℕ × Counters
clamp_start samples z c =
    if ltb_ℤ (pos samples) z
    then (samples, record c { clamped_start = c.clamped_start + 1 })
    else if ltb_ℤ z (pos 0)
    then (0, record c { clamped_start = c.clamped_start + 1 })
    else (pos_part z, c)

-- The rest of a word's turn: its start is bounded, and an empty interval is dropped.
pub keep : ℕ → ℤ → ℤ → Flat → Flat
keep samples first last f =
    let (start, c) = clamp_start samples first f.counts in
    if ltb_ℤ (pos start) last
    then record {
      counts = c;
      spans = f.spans ++ record { start = start; stop = pos_part last } ∷ [];
    }
    else record f { counts = record c { clamped_empty = c.clamped_empty + 1 } }

-- One word; an end too far beyond the audio is an error.
pub flatten : ℕ → ℕ → Word → Flat → Option Flat
flatten samples fatal w f =
    if ltb_ℤ (pos samples) w.last
    then (if ltb fatal (pos_part w.last - samples)
        then none
        else some (
            keep samples w.first (pos samples)
              (record f { counts = record (f.counts) { clamped_end = f.counts.clamped_end + 1 } })))
    else some (keep samples w.first w.last f)

pub flatten_all : ℕ → ℕ → List Word → Flat → Option Flat
flatten_all samples fatal [] f = some f
flatten_all samples fatal (w ∷ ws) f = elim (flatten samples fatal w f) [
  | none ↦ none
  | some f' ↦ flatten_all samples fatal ws f'
]

-- mergeIntervals: `last` is the last entry of `out`.
pub merge_from : ℕ → Interval → List Interval → List Interval
merge_from gap last [] = last ∷ []
merge_from gap last (x ∷ xs) = elim (leb x.start (last.stop + gap)) [
  | true ↦ merge_from gap (if ltb last.stop x.stop then record last { stop = x.stop } else last) xs
  | false ↦ last ∷ merge_from gap x xs
]

pub merge_intervals : ℕ → List Interval → List Interval
merge_intervals gap [] = []
merge_intervals gap (x ∷ xs) = merge_from gap x xs

-- BuildReference on the words of all participants, one after the other.
pub build_reference : List Word → ℕ → ℕ → Option Reference
build_reference words samples sample_rate =
    let gap = sample_rate * merge_gap_millis / 1000 in
    elim (flatten_all samples (sample_rate * end_overrun_fatal_millis / 1000) words (record {
      counts = record { clamped_start = 0; clamped_end = 0; clamped_empty = 0 };
      spans = [];
    })) [
      | none ↦ none
      | some f ↦ some (record {
        counters = f.counts;
        duration_samples = samples;
        merge_gap_samples = gap;
        intervals = merge_intervals gap (sort_slice f.spans);
      })
    ]
