-- ===== src/AmiEval/Annotation/Apart.antt =====
-- mergeIntervals leaves intervals that are apart: internal/annotation/annotation.go of ami-eval.
use muesli.Base.{
  ℕ, ◌+◌, ◌≤◌, ◌<◌, ◌≡◌, true, false, List, [], ◌∷◌, inl, inr, Bool-cases, arith, All, All-map, ltb,
  leb, if_cases,
}
use muesli.AmiEval.{Interval, before, insert, sort_slice, IsSeparated}
use muesli.AmiEval.Annotation.{merge_from, merge_intervals}

-- A positive duration, inside the audio.
abbrev pub IsInside : ℕ → Interval → Type 0
IsInside samples x = (x.start < x.stop) × (x.stop ≤ samples)

-- Ordered by start.
abbrev pub IsAscending : List Interval → Type 0
IsAscending [] = Unit
IsAscending (x ∷ xs) = All (λ y. x.start ≤ y.start) xs × IsAscending xs

module _ (P : Interval → Type 0) where
  insert-All : (x : Interval) (xs : List Interval) → P x → All P xs → All P (insert x xs)
  unfolding insert
  insert-All x [] p h = (p, tt)
  insert-All x (y ∷ ys) p h = ground (arith, insert-All x ys p h.1)

  pub sort_slice-All : (xs : List Interval) → All P xs → All P (sort_slice xs)
  unfolding sort_slice
  sort_slice-All [] h = tt
  sort_slice-All (x ∷ xs) h = insert-All x (sort_slice xs) h.0 (sort_slice-All xs h.1)

before-le : (a b : Interval) → before a b ≡ true → a.start ≤ b.start
unfolding before
before-le a b h = ground arith

before-ge : (a b : Interval) → before a b ≡ false → b.start ≤ a.start
unfolding before
before-ge a b h = ground arith

insert-IsAscending :
    (x : Interval) (xs : List Interval) → IsAscending xs → IsAscending (insert x xs)
unfolding insert
insert-IsAscending x [] h = (tt, tt)
insert-IsAscending x (y ∷ ys) h = elim (Bool-cases (before y x)) [
  | inl e ↦
      rw (insert, e)
        (
          insert-All (λ z. y.start ≤ z.start) x ys (before-le y x e) h.0,
          insert-IsAscending x ys h.1,
        )
  | inr e ↦
      let first = before-ge y x e in
      rw (insert, e)
        (
          (
            first,
            All-map (λ z. y.start ≤ z.start) (λ z. x.start ≤ z.start)
                (λ z le. omega (arith, first, le)) ys h.0,
          ),
          h,
        )
]

pub sort_slice-IsAscending : (xs : List Interval) → IsAscending (sort_slice xs)
unfolding sort_slice
sort_slice-IsAscending [] = tt
sort_slice-IsAscending (x ∷ xs) = insert-IsAscending x (sort_slice xs) (sort_slice-IsAscending xs)

module _ (gap samples : ℕ) where
  -- What merge_from makes: apart, inside, and from the first start on.
  abbrev Merges : Interval → List Interval → Type 0
  Merges last out =
      IsSeparated gap out × All (IsInside samples) out × All (λ y. last.start ≤ y.start) out

  merge_from-Merges :
      (last : Interval) (xs : List Interval)
      → IsInside samples last
      → All (IsInside samples) xs
      → All (λ y. last.start ≤ y.start) xs
      → IsAscending xs
      → Merges last (merge_from gap last xs)
  unfolding merge_from
  merge_from-Merges last [] v h a s = ((v.0, tt, tt), (v, tt), (omega arith, tt))
  merge_from-Merges last (x ∷ xs) v h a s = elim (Bool-cases (leb x.start (last.stop + gap))) [
    | inl e ↦
        rw (merge_from, e)
          (if_cases (λ l. Merges last (merge_from gap l xs)) (ltb last.stop x.stop)
            (λ longer.
              merge_from-Merges (record last { stop = x.stop }) xs (omega (arith, h.0, a.0), h.0.1)
                h.1 a.1 s.1)
            (λ _. merge_from-Merges last xs v h.1 a.1 s.1))
    | inr e ↦
        let (apart, inside, from) = merge_from-Merges x xs h.0 h.1 s.0 s.1 in
        let far : last.stop + gap < x.start = ground (arith, e) in
        let later = a.0 in
        rw (merge_from, e)
          (
            (
              v.0,
              All-map (λ y. x.start ≤ y.start) (λ y. last.stop + gap < y.start)
                  (λ y le. omega (arith, far, le)) (merge_from gap x xs) from,
              apart,
            ),
            (v, inside),
            (
              omega arith,
              All-map (λ y. x.start ≤ y.start) (λ y. last.start ≤ y.start)
                  (λ y le. omega (arith, later, le)) (merge_from gap x xs) from,
            ),
          )
  ]

  pub merge_intervals-IsSeparated :
      (xs : List Interval)
      → All (IsInside samples) xs
      → IsAscending xs
      → IsSeparated gap (merge_intervals gap xs) × All (IsInside samples) (merge_intervals gap xs)
  unfolding merge_intervals
  merge_intervals-IsSeparated [] h s = (tt, tt)
  merge_intervals-IsSeparated (x ∷ xs) h s =
      let (apart, inside, from) = merge_from-Merges x xs h.0 h.1 s.0 s.1 in (apart, inside)
