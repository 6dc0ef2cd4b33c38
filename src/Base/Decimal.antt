-- ===== src/Base/Decimal.antt =====
-- Decimal numerals: they tell numbers apart, and end a key without ambiguity.
use mathlib.Core.Path.{◌≡◌, refl, sym, ap, subst, ◌∙◌}
use mathlib.Core.Logic.{inl, inr}
use mathlib.Core.List.{[], ◌∷◌, ◌++◌}
use native.Mathlib.Omega.{arith}
use Prim.Native.Nat.{ℕ, zero, suc, ◌+◌, ◌-◌, ◌*◌, ◌/◌, ◌%◌, ◌<◌}
use muesli.Base.Tests.{ltb, Bool-cases}
use muesli.Base.Lists.{All}
use muesli.Base.Text.{Text, digits, decimal}

-- The number that a numeral stands for, after `n`.
read : ℕ → Text → ℕ
read n [] = n
read n (c ∷ s) = read (n * 10 + (c - 48)) s

read-append : (n c : ℕ) (s : Text) → read n (s ++ c ∷ []) ≡ read n s * 10 + (c - 48)
unfolding read
read-append n c [] = refl
read-append n c (x ∷ s) = read-append (n * 10 + (x - 48)) c s

abbrev HasNoNul : Text → Type 0
HasNoNul = All (λ c. 0 < c)

HasNoNul-append : (s : Text) (c : ℕ) → HasNoNul s → 0 < c → HasNoNul (s ++ c ∷ [])
HasNoNul-append [] c h p = (p, tt)
HasNoNul-append (x ∷ s) c h p = (h.0, HasNoNul-append s c h.1 p)

read-digits : (fuel n : ℕ) → n < fuel → (read 0 (digits fuel n) ≡ n) × HasNoNul (digits fuel n)
unfolding digits read
read-digits zero n h = absurd (omega (arith, h))
read-digits (suc fuel) n h = elim (Bool-cases (ltb n 10)) [
  | inl e ↦ rw (digits, e) (omega arith, (omega arith, tt))
  | inr e ↦
      let (reads, no_nul) = read-digits fuel (n / 10) (ground (arith, e, h)) in
      let s = digits fuel (n / 10) in
      rw (digits, e)
        (
          read-append 0 (48 + n % 10) s ∙ ap (λ w. w * 10 + (48 + n % 10 - 48)) reads ∙ omega arith,
          HasNoNul-append s (48 + n % 10) no_nul (omega arith),
        )
]

pub decimal-injective : (m n : ℕ) → decimal m ≡ decimal n → m ≡ n
decimal-injective m n e =
    sym (read-digits (suc m) m (omega arith)).0
    ∙ ap (read 0) e
    ∙ (read-digits (suc n) n (omega arith)).0

nul_inside : (s t : Text) → HasNoNul (s ++ 0 ∷ t) → ⊥
nul_inside [] t h = let zero_first = h.0 in omega (arith, zero_first)
nul_inside (x ∷ s) t h = nul_inside s t h.1

split_nul : (s t d e : Text) → HasNoNul d → HasNoNul e → s ++ 0 ∷ d ≡ t ++ 0 ∷ e → (s ≡ t) × (d ≡ e)
split_nul [] [] d e p q h = (refl, cc h)
split_nul [] (y ∷ t) d e p q h = absurd (nul_inside t e (subst HasNoNul (cc h) p))
split_nul (x ∷ s) [] d e p q h = absurd (nul_inside s d (subst HasNoNul (cc h) q))
split_nul (x ∷ s) (y ∷ t) d e p q h =
    let (rest, same) = split_nul s t d e p q (cc h) in
    let first : x ≡ y = cc h in (cc (first, rest), same)

-- A text and a number are told apart by the text, a NUL and the number's numeral.
pub keyed_by_number :
    (s t : Text) (m n : ℕ) → s ++ 0 ∷ decimal m ≡ t ++ 0 ∷ decimal n → (s ≡ t) × (m ≡ n)
keyed_by_number s t m n h =
    let (texts, numerals) =
      split_nul s t (decimal m) (decimal n) (read-digits (suc m) m (omega arith)).1
        (read-digits (suc n) n (omega arith)).1 h in
    (texts, decimal-injective m n numerals)
