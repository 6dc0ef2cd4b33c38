-- ===== src/AmiEval/Frame/Sorted.antt =====
-- Intervals that are apart, in any order, and what their sort keeps: ScoreFrames
-- (internal/score/frame.go of ami-eval).
use muesli.Base.{
  ℕ, ◌+◌, ◌<◌, ◌≡◌, ◌⊎◌, refl, ap, ◌∙◌, Bool, false, ◌&&◌, ◌||◌, List, [], ◌∷◌, inl, inr, ltb, All,
  All-map, Bool-cases, arith,
}
use muesli.AmiEval.{Interval, IsSeparated, overlaps, before, insert, sort_slice}
use muesli.AmiEval.Frame.Searched.{any_overlap}

-- Some sample is in both spans.
abbrev pub meets : Interval → Interval → Bool
meets a b = ltb a.start b.stop && ltb b.start a.stop

pub any_meets : Interval → List Interval → Bool
any_meets span [] = false
any_meets span (r ∷ rs) = meets span r || any_meets span rs

-- Each interval has a positive duration, and of any two one starts more than `gap` after the end
-- of the other, in whatever order they stand.
abbrev pub Apart : ℕ → Interval → Interval → Type 0
Apart gap x y = (x.stop + gap < y.start) ⊎ (y.stop + gap < x.start)

abbrev pub IsApart : ℕ → List Interval → Type 0
IsApart gap [] = Unit
IsApart gap (x ∷ xs) = (x.start < x.stop) × All (Apart gap x) xs × IsApart gap xs

insert-All :
    (P : Interval → Type 0) (x : Interval) (ys : List Interval)
    → P x
    → All P ys
    → All P (insert x ys)
unfolding insert
insert-All P x [] p h = (p, tt)
insert-All P x (y ∷ ys) p h = ground (arith, insert-All P x ys p h.1)

sort_slice-All : (P : Interval → Type 0) (xs : List Interval) → All P xs → All P (sort_slice xs)
unfolding sort_slice
sort_slice-All P [] h = tt
sort_slice-All P (x ∷ xs) h = insert-All P x (sort_slice xs) h.0 (sort_slice-All P xs h.1)

all_behind :
    (gap : ℕ) (x y : Interval) (ys : List Interval)
    → x.stop + gap < y.start
    → y.start < y.stop
    → All (λ z. y.stop + gap < z.start) ys
    → All (λ z. x.stop + gap < z.start) ys
all_behind gap x y ys near real h = All-map _ _ (λ z le. omega (arith, near, real, le)) ys h

insert-IsSeparated :
    (gap : ℕ) (x : Interval) (ys : List Interval)
    → x.start < x.stop
    → All (Apart gap x) ys
    → IsSeparated gap ys
    → IsSeparated gap (insert x ys)
unfolding insert before
insert-IsSeparated gap x [] real h sep = (real, tt, tt)
insert-IsSeparated gap x (y ∷ ys) real h sep = elim (Bool-cases (before y x)) [
  | inl e ↦
      let rest = insert-IsSeparated gap x ys real h.1 sep.2 in
      let first = h.0 in
      let solid = sep.0 in
      let ahead : y.stop + gap < x.start = ground (arith, e, first, real, solid) in
      rw (insert, e) (sep.0, insert-All (λ z. y.stop + gap < z.start) x ys ahead sep.1, rest)
  | inr e ↦
      let first = h.0 in
      let solid = sep.0 in
      let ahead : x.stop + gap < y.start = ground (arith, e, first, real, solid) in
      rw (insert, e) (real, (ahead, all_behind gap x y ys ahead solid sep.1), sep)
]

pub sort_slice-IsSeparated :
    (gap : ℕ) (refs : List Interval) → IsApart gap refs → IsSeparated gap (sort_slice refs)
unfolding sort_slice
sort_slice-IsSeparated gap [] h = tt
sort_slice-IsSeparated gap (x ∷ xs) h =
    insert-IsSeparated gap x (sort_slice xs) h.0 (sort_slice-All (Apart gap x) xs h.1)
      (sort_slice-IsSeparated gap xs h.2)

insert-any_meets :
    (span x : Interval) (ys : List Interval)
    → any_meets span (insert x ys) ≡ any_meets span (x ∷ ys)
unfolding insert any_meets
insert-any_meets span x [] = refl
insert-any_meets span x (y ∷ ys) = ground (arith, insert-any_meets span x ys)

pub sort_slice-any_meets :
    (span : Interval) (refs : List Interval)
    → any_meets span (sort_slice refs) ≡ any_meets span refs
unfolding sort_slice any_meets
sort_slice-any_meets span [] = refl
sort_slice-any_meets span (x ∷ xs) =
    insert-any_meets span x (sort_slice xs)
    ∙ ap (λ b. meets span x || b) (sort_slice-any_meets span xs)

overlaps-meets :
    (span x : Interval) → span.start < span.stop → x.start < x.stop → overlaps span x ≡ meets span x
unfolding overlaps
overlaps-meets span x p q = ground (arith, p, q)

pub any_overlap-any_meets :
    (gap : ℕ) (span : Interval) (refs : List Interval)
    → span.start < span.stop
    → IsSeparated gap refs
    → any_overlap span refs ≡ any_meets span refs
unfolding any_overlap any_meets
any_overlap-any_meets gap span [] p h = refl
any_overlap-any_meets gap span (x ∷ xs) p h =
    let one = overlaps-meets span x p h.0 in
    let rest = any_overlap-any_meets gap span xs p h.2 in ground (arith, one, rest)
