-- ===== src/AmiEval/Annotation/Covered.antt =====
-- mergeIntervals loses no interval: internal/annotation/annotation.go of ami-eval.
use muesli.Base.{
  ℕ, ◌+◌, ◌≤◌, ◌≡◌, refl, sym, subst, true, false, List, [], ◌∷◌, inl, inr, ◌⊎◌, Bool-cases, arith,
  All, All-map, ltb, leb, if◌then◌else◌, if_cases,
}
use muesli.AmiEval.{Interval, insert, sort_slice}
use muesli.AmiEval.Annotation.{merge_from, merge_intervals}
use muesli.AmiEval.Annotation.Apart.{IsAscending}

-- An interval lies in one of a list.
abbrev pub IsCovered : List Interval → Interval → Type 0
IsCovered [] x = ⊥
IsCovered (y ∷ ys) x = ((y.start ≤ x.start) × (x.stop ≤ y.stop)) ⊎ IsCovered ys x

covers_part :
    (ys : List Interval) (big x : Interval)
    → big.start ≤ x.start
    → x.stop ≤ big.stop
    → IsCovered ys big
    → IsCovered ys x
covers_part [] big x a b h = h
covers_part (y ∷ ys) big x a b (inl h) = inl (omega (arith, a, b, h))
covers_part (y ∷ ys) big x a b (inr h) = inr (covers_part ys big x a b h)

-- The entry that merge_from extends by `x`.
abbrev extended : Interval → Interval → Interval
extended last x = if ltb last.stop x.stop then record last { stop = x.stop } else last

module _ (gap : ℕ) where
  joined :
      (last x : Interval) (xs : List Interval)
      → leb x.start (last.stop + gap) ≡ true
      → merge_from gap last (x ∷ xs) ≡ merge_from gap (extended last x) xs
  unfolding merge_from
  joined last x xs e = rw (merge_from, e) refl

  emitted :
      (last x : Interval) (xs : List Interval)
      → leb x.start (last.stop + gap) ≡ false
      → merge_from gap last (x ∷ xs) ≡ last ∷ merge_from gap x xs
  unfolding merge_from
  emitted last x xs e = rw (merge_from, e) refl

  merge_from-covers :
      (last : Interval) (xs : List Interval)
      → All (λ y. last.start ≤ y.start) xs
      → IsAscending xs
      → IsCovered (merge_from gap last xs) last × All (IsCovered (merge_from gap last xs)) xs
  unfolding merge_from
  merge_from-covers last [] a s = (inl (omega arith), tt)
  merge_from-covers last (x ∷ xs) a s = elim (Bool-cases (leb x.start (last.stop + gap))) [
    | inl e ↦
        let later = a.0 in
        let h =
          if_cases
            (λ l. IsCovered (merge_from gap l xs) l × All (IsCovered (merge_from gap l xs)) xs)
            (ltb last.stop x.stop)
            (λ longer. merge_from-covers (record last { stop = x.stop }) xs a.1 s.1)
            (λ _. merge_from-covers last xs a.1 s.1) in
        let out = merge_from gap (extended last x) xs in
        subst (λ o. IsCovered o last × All (IsCovered o) (x ∷ xs)) (sym (joined last x xs e))
          (
            covers_part out (extended last x) last (ground arith) (ground arith) h.0,
            (covers_part out (extended last x) x (ground arith) (ground arith) h.0, h.1),
          )
    | inr e ↦
        let h = merge_from-covers x xs s.0 s.1 in
        subst (λ o. IsCovered o last × All (IsCovered o) (x ∷ xs)) (sym (emitted last x xs e))
          (inl (omega arith), (inr h.0, All-map _ _ (λ y c. inr c) xs h.1))
  ]

  pub merge_intervals-covers :
      (xs : List Interval) → IsAscending xs → All (IsCovered (merge_intervals gap xs)) xs
  unfolding merge_intervals
  merge_intervals-covers [] s = tt
  merge_intervals-covers (x ∷ xs) s = let h = merge_from-covers x xs s.0 s.1 in (h.0, h.1)

module _ (P : Interval → Type 0) where
  insert-parts : (x : Interval) (xs : List Interval) → All P (insert x xs) → P x × All P xs
  unfolding insert
  insert-parts x [] h = (h.0, tt)
  insert-parts x (y ∷ ys) h = ground (arith, insert-parts x ys)

  pub sort_slice-parts : (xs : List Interval) → All P (sort_slice xs) → All P xs
  unfolding sort_slice
  sort_slice-parts [] h = tt
  sort_slice-parts (x ∷ xs) h =
      let (first, rest) = insert-parts x (sort_slice xs) h in (first, sort_slice-parts xs rest)
