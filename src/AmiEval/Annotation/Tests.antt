-- ===== src/AmiEval/Annotation/Tests.antt =====
-- Runs of BuildReference: internal/annotation/annotation.go of ami-eval.
use muesli.Base.{ℕ, ◌*◌, ◌/◌, ◌≡◌, refl, none, some, List, [], ◌∷◌, All}
use muesli.Base.Int.{pos}
use muesli.AmiEval.{Interval, IsSeparated, before, insert, sort_slice}
use muesli.AmiEval.Annotation.{
  Word, Flat, Reference, build_reference, flatten_all, flatten, keep, clamp_start, merge_intervals,
  merge_from, merge_gap_millis,
}
use muesli.AmiEval.Annotation.Apart.{IsInside}
use muesli.AmiEval.Annotation.Covered.{IsCovered}
use muesli.AmiEval.Annotation.Merged.{clamped_words, build_reference-IsSeparated}

abbrev span : ℕ → ℕ → Interval
span a b = record { start = a; stop = b }

-- At 1000 samples a second the merge gap is 300 samples; the last word overruns by 50.
abbrev words : List Word
words =
    record { first = pos 1_000; last = pos 1_200 }
    ∷ record { first = pos 100; last = pos 400 }
    ∷ record { first = pos 700; last = pos 750 }
    ∷ record { first = pos 1_900; last = pos 2_050 }
    ∷ []

abbrev reference : Reference
reference = record {
  counters = record { clamped_start = 0; clamped_end = 1; clamped_empty = 0 };
  duration_samples = 2_000;
  merge_gap_samples = 300;
  intervals = span 100 1_200 ∷ span 1_900 2_000 ∷ [];
}

builds : build_reference words 2_000 1_000 ≡ some reference
unfolding build_reference flatten_all flatten keep clamp_start merge_intervals merge_from sort_slice
    insert before
builds = refl

overrun : build_reference (record { first = pos 0; last = pos 3_001 } ∷ []) 2_000 1_000 ≡ none
unfolding build_reference flatten_all flatten
overrun = refl

build_reference-IsSeparated_example :
    IsSeparated (1_000 * merge_gap_millis / 1000) reference.intervals
    × All (IsInside 2_000) reference.intervals
    × ((f : Flat) × (clamped_words words 2_000 1_000 ≡ some f)
        × All (IsCovered reference.intervals) f.spans)
build_reference-IsSeparated_example = build_reference-IsSeparated words 2_000 1_000 builds
