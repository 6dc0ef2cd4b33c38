-- ===== src/AmiEval/Frame.antt =====
-- Frame scores: internal/score/frame.go of ami-eval, with Go's sort.Search.
pub mod Searched
pub mod Sorted
pub mod Exact
mod Tests
use muesli.Base.{
  ℕ, zero, suc, ◌+◌, ◌/◌, Bool, true, false, not, ◌&&◌, Option, none, some, List, [], ◌∷◌, length,
  get_elem?, drop, ltb, leb, ◌==◌, if◌then◌else◌,
}
use muesli.AmiEval.{Interval, sort_slice, overlaps}

pub record Frame : Type 0 where
  pub start : ℕ
  pub valid_samples : ℕ
  pub predicted : Bool

-- validSpan: a frame without samples of its own has none.
pub valid_span : Frame → Option Interval
valid_span f =
    if f.valid_samples == 0
    then none
    else some (record { start = f.start; stop = f.start + f.valid_samples })

pub record FrameCounts : Type 0 where
  pub tp : ℕ
  pub fp : ℕ
  pub tn : ℕ
  pub fn : ℕ

-- sort.Search: the loop takes at most one round more than its range is long.
pub search_loop : ℕ → (ℕ → Bool) → ℕ → ℕ → ℕ
search_loop zero f i j = i
search_loop (suc fuel) f i j =
    if ltb i j
    then elim (f ((i + j) / 2)) [
      | false ↦ search_loop fuel f ((i + j) / 2 + 1) j
      | true ↦ search_loop fuel f i ((i + j) / 2)
    ]
    else i

pub sort_search : ℕ → (ℕ → Bool) → ℕ
sort_search n f = search_loop (suc n) f 0 n

-- sortedRefs[i].End > span.Start.
pub ends_after : Interval → List Interval → ℕ → Bool
ends_after span refs i = elim (get_elem? refs i) [ none ↦ false | some r ↦ ltb span.start r.stop ]

-- The scan from the index found, while the references start before the span's end.
pub scan : Interval → List Interval → Bool
scan span [] = false
scan span (r ∷ rs) =
    let rest = scan span rs in
    if ltb r.start span.stop then (if overlaps span r then true else rest) else false

pub reference_positive : Interval → List Interval → Bool
reference_positive span refs =
    scan span (drop (sort_search (length refs) (ends_after span refs)) refs)

-- The weight of a frame goes to one of the four counts.
pub add_weight : Bool → Bool → ℕ → FrameCounts → FrameCounts
add_weight predicted actual weight c =
    if predicted && actual
    then record c { tp = c.tp + weight }
    else if predicted && not actual
    then record c { fp = c.fp + weight }
    else if not predicted && actual
    then record c { fn = c.fn + weight }
    else record c { tn = c.tn + weight }

pub count_frame : List Interval → Frame → FrameCounts → FrameCounts
count_frame refs f c = elim (valid_span f) [
  | none ↦ c
  | some span ↦ add_weight f.predicted (reference_positive span refs) f.valid_samples c
]

pub count_frames : List Interval → List Frame → FrameCounts → FrameCounts
count_frames refs [] c = c
count_frames refs (f ∷ fs) c = count_frames refs fs (count_frame refs f c)

abbrev pub no_counts : FrameCounts
no_counts = record { tp = 0; fp = 0; tn = 0; fn = 0 }

pub score_frames : List Frame → List Interval → FrameCounts
score_frames frames reference = count_frames (sort_slice reference) frames no_counts
