-- ===== src/AmiEval.antt =====
-- The scores of the voice detector: cmd/whisper-cpp-streaming/ami-eval/internal/annotation and
-- internal/score.
--
-- Sample indices and counts are natural numbers, as the program makes no others; the reference's
-- words come in as integers, after secondsToSamples. Weights are sums of whole samples, which a
-- float64 holds exactly below 2^53. Ratios, medians and the boundary errors are floating point and
-- left out.
pub mod Annotation
pub mod Frame
pub mod Utterance
use muesli.Base.{
  ℕ, ◌+◌, ◌≤◌, ◌<◌, Bool, true, false, ◌&&◌, ◌||◌, List, [], ◌∷◌, All, ltb, leb, ◌==◌,
  if◌then◌else◌,
}

-- A half-open span of samples: annotation.Interval and score.Interval.
pub record Interval : Type 0 where
  pub start : ℕ
  pub stop : ℕ

-- The order of sort.Slice in BuildReference and ScoreFrames: by Start, then by End.
pub before : Interval → Interval → Bool
before a b = if a.start == b.start then ltb a.stop b.stop else ltb a.start b.start

-- sort.Slice, by insertion: intervals that compare as equal are equal, so there is one result.
pub insert : Interval → List Interval → List Interval
insert x [] = x ∷ []
insert x (y ∷ ys) = let rest = insert x ys in if before y x then y ∷ rest else x ∷ y ∷ ys

pub sort_slice : List Interval → List Interval
sort_slice [] = []
sort_slice (x ∷ xs) = insert x (sort_slice xs)

-- overlaps: a common part of positive duration.
pub overlaps : Interval → Interval → Bool
overlaps a b =
    let low = if ltb a.start b.start then b.start else a.start in
    let high = if ltb b.stop a.stop then b.stop else a.stop in ltb low high

-- Each interval has a positive duration, and the next ones start more than `gap` after its end.
abbrev pub IsSeparated : ℕ → List Interval → Type 0
IsSeparated gap [] = Unit
IsSeparated gap (x ∷ xs) =
    (x.start < x.stop) × All (λ y. x.stop + gap < y.start) xs × IsSeparated gap xs
