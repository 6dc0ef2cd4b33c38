-- ===== src/Base/Rows.antt =====
-- The rows of a table, and what UPDATE, DELETE and a count do to them.
use Prim.Native.Nat.{ℕ, zero, suc, ◌+◌, ◌≤◌}
use mathlib.Core.Path.{◌≡◌, refl, subst}
use mathlib.Core.Bool.{Bool, true, false}
use mathlib.Core.List.{List, [], ◌∷◌, ◌++◌}
use mathlib.Core.Option.{Option, none, some}
use native.Mathlib.Omega.{arith}
use mathlib.Core.Logic.{◌↔◌, inl, inr}
use muesli.Base.Tests.{if◌then◌else◌, Bool-cases}
use muesli.Base.Lists.{All, take}

module _ {A : Type 0} where
  -- UPDATE … SET change WHERE fits.
  unfoldable pub update_rows : (A → Bool) → (A → A) → List A → List A
  update_rows fits change [] = []
  update_rows fits change (x ∷ t) = (if fits x then change x else x) ∷ update_rows fits change t

  -- RowsAffected.
  unfoldable pub count_rows : (A → Bool) → List A → ℕ
  count_rows fits [] = 0
  count_rows fits (x ∷ t) = if fits x then suc (count_rows fits t) else count_rows fits t

  -- SELECT … WHERE fits, in the table's order.
  unfoldable pub select_rows : (A → Bool) → List A → List A
  select_rows fits [] = []
  select_rows fits (x ∷ t) = if fits x then x ∷ select_rows fits t else select_rows fits t

  -- The first row that fits.
  unfoldable pub find_row : (A → Bool) → List A → Option A
  find_row fits [] = none
  find_row fits (x ∷ t) = if fits x then some x else find_row fits t

  pub update_rows-All :
      (P : A → Type 0) (fits : A → Bool) (change : A → A) (t : List A)
      → ((x : A) → P x → fits x ≡ true → P (change x))
      → All P t
      → All P (update_rows fits change t)
  unfolding update_rows
  update_rows-All P fits change [] keep h = tt
  update_rows-All P fits change (x ∷ t) keep h =
      ground (arith, keep x h.0, update_rows-All P fits change t keep h.1)

  -- With one condition on the rows that fit and another on the rest.
  pub update_rows-change :
      (P Q : A → Type 0) (fits : A → Bool) (change : A → A) (t : List A)
      → ((x : A) → P x → fits x ≡ true → Q (change x))
      → ((x : A) → P x → fits x ≡ false → Q x)
      → All P t
      → All Q (update_rows fits change t)
  unfolding update_rows
  update_rows-change P Q fits change [] hit miss h = tt
  update_rows-change P Q fits change (x ∷ t) hit miss h =
      ground (arith, hit x h.0, miss x h.0, update_rows-change P Q fits change t hit miss h.1)

  pub select_rows-All :
      (P : A → Type 0) (fits : A → Bool) (t : List A)
      → ((x : A) → fits x ≡ true → P x)
      → All P (select_rows fits t)
  unfolding select_rows
  select_rows-All P fits [] h = tt
  select_rows-All P fits (x ∷ t) h = ground (arith, h x, select_rows-All P fits t h)

  pub find_row-fits :
      (fits : A → Bool) (t : List A) {x : A} → find_row fits t ≡ some x → fits x ≡ true
  unfolding find_row
  find_row-fits fits [] e = cc
  find_row-fits fits (y ∷ t) {x} e = ground (arith, find_row-fits fits t {x = x})

  -- An UPDATE that affects no row changes nothing.
  pub update_rows_none :
      (fits : A → Bool) (change : A → A) (t : List A)
      → count_rows fits t ≡ 0
      → update_rows fits change t ≡ t
  unfolding update_rows count_rows
  update_rows_none fits change [] h = refl
  update_rows_none fits change (x ∷ t) h = ground (arith, update_rows_none fits change t)

  -- An UPDATE that does not touch a condition leaves its count.
  pub count_rows-update_rows :
      (counted fits : A → Bool) (change : A → A) (t : List A)
      → ((x : A) → counted (change x) ≡ counted x)
      → count_rows counted (update_rows fits change t) ≡ count_rows counted t
  unfolding update_rows count_rows
  count_rows-update_rows counted fits change [] h = refl
  count_rows-update_rows counted fits change (x ∷ t) h =
      ground (arith, h x, count_rows-update_rows counted fits change t h)

  pub count_rows-append :
      (fits : A → Bool) (s t : List A)
      → count_rows fits (s ++ t) ≡ count_rows fits s + count_rows fits t
  unfolding count_rows
  count_rows-append fits [] t = omega arith
  count_rows-append fits (x ∷ s) t = ground (arith, count_rows-append fits s t)

  pub count_rows-select_rows :
      (fits chosen : A → Bool) (t : List A)
      → count_rows fits (select_rows chosen t) ≤ count_rows fits t
  unfolding count_rows select_rows
  count_rows-select_rows fits chosen [] = omega arith
  count_rows-select_rows fits chosen (x ∷ t) = ground (arith, count_rows-select_rows fits chosen t)

  pub count_rows-take :
      (fits : A → Bool) (n : ℕ) (t : List A) → count_rows fits (take n t) ≤ count_rows fits t
  unfolding count_rows
  count_rows-take fits zero t = omega arith
  count_rows-take fits (suc n) [] = omega arith
  count_rows-take fits (suc n) (x ∷ t) = ground (arith, count_rows-take fits n t)

  pub select_rows-kept :
      (P : A → Type 0) (fits : A → Bool) (t : List A) → All P t → All P (select_rows fits t)
  unfolding select_rows
  select_rows-kept P fits [] h = tt
  select_rows-kept P fits (x ∷ t) h = ground (arith, select_rows-kept P fits t h.1)

  pub take-All : (P : A → Type 0) (n : ℕ) (t : List A) → All P t → All P (take n t)
  take-All P zero t h = tt
  take-All P (suc n) [] h = tt
  take-All P (suc n) (x ∷ t) h = (h.0, take-All P n t h.1)

  pub find_row-All :
      (P : A → Type 0) (fits : A → Bool) (t : List A) {x : A}
      → All P t
      → find_row fits t ≡ some x
      → P x
  unfolding find_row
  find_row-All P fits [] h e = cc
  find_row-All P fits (y ∷ t) {x} h e =
      elim (fits y) as (λ b. (if b then some y else find_row fits t) ≡ some x → P x) [
        | true ↦ λ q. let same : y ≡ x = cc in subst P same h.0
        | false ↦ λ q. find_row-All P fits t h.1 q
      ]
        e

  pub count_rows-witness :
      (P : A → Type 0) (fits : A → Bool) (t : List A)
      → All P t
      → 1 ≤ count_rows fits t
      → (x : A) × P x × (fits x ≡ true)
  unfolding count_rows
  count_rows-witness P fits [] h n = absurd (omega arith)
  count_rows-witness P fits (y ∷ t) h n = elim (Bool-cases (fits y)) [
    | inl e ↦ (y, h.0, e)
    | inr e ↦ count_rows-witness P fits t h.1 (ground (arith, n))
  ]

  pub find_row-some :
      (fits : A → Bool) (t : List A) → 1 ≤ count_rows fits t → (x : A) × (find_row fits t ≡ some x)
  unfolding count_rows find_row
  find_row-some fits [] n = absurd (omega arith)
  find_row-some fits (y ∷ t) n = elim (Bool-cases (fits y)) [
    | inl e ↦ (y, simp e)
    | inr e ↦ let (x, found) = find_row-some fits t (ground (arith, n)) in (x, rw e found)
  ]

  -- No row fits exactly when the count is zero.
  pub count_rows_zero :
      (fits : A → Bool) (t : List A) → (count_rows fits t ≡ 0) ↔ All (λ x. fits x ≡ false) t
  unfolding count_rows
  count_rows_zero fits [] = (λ _. tt, λ _. refl)
  count_rows_zero fits (x ∷ t) =
      let rest = count_rows_zero fits t in (λ h. ground (arith, rest), λ h. ground (arith, rest))
