-- ===== src/AmiEval/Frame/Searched.antt =====
-- The binary search and the scan find an overlap exactly when there is one: referencePositive
-- (internal/score/frame.go of ami-eval).
use muesli.Base.{
  ℕ, zero, suc, ◌+◌, ◌/◌, ◌≤◌, ◌<◌, ◌≡◌, refl, sym, ◌∙◌, Bool, true, false, ◌||◌, List, [], ◌∷◌,
  inl, inr, Bool-cases, arith, All, All-map, length, drop, ltb,
}
use muesli.AmiEval.{Interval, overlaps, IsSeparated}
use muesli.AmiEval.Frame.{search_loop, sort_search, ends_after, scan, reference_positive}

-- Where the answers of `f` below `n` turn from false to true.
abbrev pub Splits : (ℕ → Bool) → ℕ → ℕ → Type 0
Splits f n r = (r ≤ n) × ((k : ℕ) → k < r → f k ≡ false) × ((k : ℕ) → r ≤ k → k < n → f k ≡ true)

abbrev pub IsMonotone : (ℕ → Bool) → ℕ → Type 0
IsMonotone f n = (i j : ℕ) → i ≤ j → j < n → f i ≡ true → f j ≡ true

module _ (f : ℕ → Bool) (n : ℕ) (mono : IsMonotone f n) where
  below_too : (h k : ℕ) → h < n → f h ≡ false → k < h + 1 → f k ≡ false
  below_too h k p e q = elim (Bool-cases (f k)) [
    | inr down ↦ down
    | inl up ↦ absurd (let too = mono k h (omega (arith, q)) p up in cc)
  ]

  search_loop-Splits :
      (fuel i j : ℕ)
      → i ≤ j
      → j ≤ n
      → ((k : ℕ) → k < i → f k ≡ false)
      → ((k : ℕ) → j ≤ k → k < n → f k ≡ true)
      → j < i + fuel
      → Splits f n (search_loop fuel f i j)
  unfolding search_loop
  search_loop-Splits zero i j le end low high enough = absurd (omega arith)
  search_loop-Splits (suc fuel) i j le end low high enough = elim (Bool-cases (ltb i j)) [
    | inr e ↦
        rw (search_loop, e) (omega (arith, le, end), low, λ k p q. high k (ground (arith, e)) q)
    | inl e ↦
        let less : i < j = ground (arith, e) in
        let h = (i + j) / 2 in
        elim (Bool-cases (f h)) [
          | inr down ↦
              rw (search_loop, e, down)
                (search_loop-Splits fuel (h + 1) j (omega (arith, less)) end
                  (λ k q. below_too h k (omega (arith, less, end)) down q) high
                  (omega (arith, less, enough)))
          | inl up ↦
              rw (search_loop, e, up)
                (search_loop-Splits fuel i h (omega (arith, less)) (omega (arith, less, end)) low
                  (λ k p q. mono h k p q up) (omega (arith, less, enough)))
        ]
  ]

  -- sort.Search returns the split of a monotone predicate, with the fuel that it has.
  pub sort_search-Splits : Splits f n (sort_search n f)
  unfolding sort_search
  sort_search-Splits =
      search_loop-Splits (suc n) 0 n (omega arith) (omega arith) (λ k p. absurd (omega (arith, p)))
        (λ k p q. absurd (omega (arith, p, q))) (omega arith)

-- The reference definition: some interval overlaps the span.
unfoldable pub any_overlap : Interval → List Interval → Bool
any_overlap span [] = false
any_overlap span (r ∷ rs) = overlaps span r || any_overlap span rs

module _ (gap : ℕ) (span : Interval) (real : span.start < span.stop) where
  later_ends :
      (x : Interval) (xs : List Interval) → IsSeparated gap (x ∷ xs) → All (λ y. x.stop < y.stop) xs
  later_ends x [] h = tt
  later_ends x (y ∷ ys) h =
      let first : x.stop < y.stop = omega (arith, h.1.0, h.2.0) in
      (first, All-map _ _ (λ z le. omega (arith, first, le)) ys (later_ends y ys h.2))

  ends_after_all :
      (xs : List Interval) (j : ℕ)
      → All (λ y. span.start < y.stop) xs
      → j < length xs
      → ends_after span xs j ≡ true
  unfolding ends_after
  ends_after_all [] j h p = absurd (omega arith)
  ends_after_all (x ∷ xs) zero h p = ground (arith, h.0)
  ends_after_all (x ∷ xs) (suc j) h p = ends_after_all xs j h.1 (omega arith)

  ends_after-IsMonotone :
      (refs : List Interval)
      → IsSeparated gap refs
      → IsMonotone (ends_after span refs) (length refs)
  unfolding ends_after
  ends_after-IsMonotone [] h i j le p e = absurd (omega (arith, p))
  ends_after-IsMonotone (x ∷ xs) h zero zero le p e = e
  ends_after-IsMonotone (x ∷ xs) h (suc i) zero le p e = absurd (omega (arith, le))
  ends_after-IsMonotone (x ∷ xs) h zero (suc j) le p e =
      let here : span.start < x.stop = ground (arith, e) in
      ends_after_all xs j (All-map _ _ (λ y more. omega (arith, here, more)) xs (later_ends x xs h))
        (omega (arith, p))
  ends_after-IsMonotone (x ∷ xs) h (suc i) (suc j) le p e =
      ends_after-IsMonotone xs h.2 i j (omega (arith, le)) (omega (arith, p)) e

  none_after :
      (xs : List Interval) → All (λ y. span.stop ≤ y.start) xs → any_overlap span xs ≡ false
  unfolding any_overlap overlaps
  none_after [] h = refl
  none_after (x ∷ xs) h = ground (arith, h.0, none_after xs h.1)

  scan-any_overlap :
      (refs : List Interval) → IsSeparated gap refs → scan span refs ≡ any_overlap span refs
  unfolding scan any_overlap
  scan-any_overlap [] h = refl
  scan-any_overlap (r ∷ rs) h = elim (Bool-cases (ltb r.start span.stop)) [
    | inl e ↦ let rest = scan-any_overlap rs h.2 in ground (arith, e, rest)
    | inr e ↦
        let beyond : span.stop ≤ r.start = ground (arith, e) in
        let later =
          All-map (λ y. r.stop + gap < y.start) (λ y. span.stop ≤ y.start)
            (λ y far. omega (arith, beyond, far, h.0)) rs h.1 in
        let none_found = none_after (r ∷ rs) (beyond, later) in rw (scan, e) (sym none_found)
  ]

  dropped :
      (refs : List Interval) (k : ℕ)
      → ((i : ℕ) → i < k → ends_after span refs i ≡ false)
      → any_overlap span refs ≡ any_overlap span (drop k refs)
  unfolding any_overlap ends_after overlaps
  dropped refs zero h = refl
  dropped [] (suc k) h = refl
  dropped (r ∷ rs) (suc k) h =
      let first = h 0 (omega arith) in
      let rest = dropped rs k (λ i p. h (suc i) (omega (arith, p))) in ground (arith, first, rest)

  drop-IsSeparated :
      (refs : List Interval) (k : ℕ) → IsSeparated gap refs → IsSeparated gap (drop k refs)
  drop-IsSeparated refs zero h = h
  drop-IsSeparated [] (suc k) h = h
  drop-IsSeparated (r ∷ rs) (suc k) h = drop-IsSeparated rs k h.2

  -- On intervals that are apart, the search with its scan is the plain test.
  pub reference_positive-any_overlap :
      (refs : List Interval)
      → IsSeparated gap refs
      → reference_positive span refs ≡ any_overlap span refs
  unfolding reference_positive
  reference_positive-any_overlap refs h =
      let k = sort_search (length refs) (ends_after span refs) in
      let found =
        sort_search-Splits (ends_after span refs) (length refs) (ends_after-IsMonotone refs h) in
      scan-any_overlap (drop k refs) (drop-IsSeparated refs k h) ∙ sym (dropped refs k found.1)
