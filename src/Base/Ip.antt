-- ===== src/Base/Ip.antt =====
-- Go's net.IP: the bytes of an address and the methods that the code calls, written out.
use Prim.Native.Nat.{ℕ, ◌/◌, ◌%◌}
use mathlib.Core.Bool.{Bool, true, false, ◌&&◌, ◌||◌}
use mathlib.Core.Option.{Option, none, some}
use mathlib.Core.List.{List, [], ◌∷◌}
use muesli.Base.Tests.{◌==◌, if◌then◌else◌}
use muesli.Base.Lists.{length}
use muesli.Base.Text.{text_eq}

abbrev pub Ip : Type 0
Ip = List ℕ

pub record Ip4 : Type 0 where
  pub a : ℕ
  pub b : ℕ
  pub c : ℕ
  pub d : ℕ

abbrev pub are_zeros : List ℕ → Bool
are_zeros [] = true
are_zeros (x ∷ xs) = (x == 0) && are_zeros xs

-- net.IP.To4: four bytes, or the last four of an IPv4-mapped address.
unfoldable pub to4 : Ip → Option Ip4
to4 (a ∷ b ∷ c ∷ d ∷ []) = some (record { a = a; b = b; c = c; d = d })
to4 (p ∷ q ∷ r ∷ s ∷ t ∷ u ∷ v ∷ w ∷ x ∷ y ∷ m ∷ n ∷ a ∷ b ∷ c ∷ d ∷ []) =
    if are_zeros (p ∷ q ∷ r ∷ s ∷ t ∷ u ∷ v ∷ w ∷ x ∷ y ∷ []) && ((m == 255) && (n == 255))
    then some (record { a = a; b = b; c = c; d = d })
    else none
to4 _ = none

-- Tests on the first two bytes of sixteen.
abbrev pub test6 : (ℕ → ℕ → Bool) → Ip → Bool
test6 test (a ∷ b ∷ rest) = (length rest == 14) && test a b
test6 test _ = false

abbrev pub by_family : (Ip4 → Bool) → (Ip → Bool) → Ip → Bool
by_family v4 v6 ip = elim (to4 ip) [ some x ↦ v4 x | none ↦ v6 ip ]

-- net.IPv6loopback.
abbrev pub loopback6 : Ip → Bool
loopback6 ip = text_eq ip (0 ∷ 0 ∷ 0 ∷ 0 ∷ 0 ∷ 0 ∷ 0 ∷ 0 ∷ 0 ∷ 0 ∷ 0 ∷ 0 ∷ 0 ∷ 0 ∷ 0 ∷ 1 ∷ [])

abbrev pub unspecified6 : Ip → Bool
unspecified6 ip = (length ip == 16) && are_zeros ip

unfoldable pub is_loopback : Ip → Bool
is_loopback = by_family (λ x. x.a == 127) loopback6

unfoldable pub is_private : Ip → Bool
is_private =
    by_family
      (λ x. (x.a == 10) || ((x.a == 172) && (x.b / 16 == 1)) || ((x.a == 192) && (x.b == 168)))
      (test6 (λ a b. a / 2 == 126))

unfoldable pub is_link_local_unicast : Ip → Bool
is_link_local_unicast =
    by_family (λ x. (x.a == 169) && (x.b == 254)) (test6 (λ a b. (a == 254) && (b / 64 == 2)))

unfoldable pub is_link_local_multicast : Ip → Bool
is_link_local_multicast =
    by_family (λ x. (x.a == 224) && ((x.b == 0) && (x.c == 0)))
      (test6 (λ a b. (a == 255) && (b % 16 == 2)))

unfoldable pub is_unspecified : Ip → Bool
is_unspecified =
    by_family (λ x. (x.a == 0) && ((x.b == 0) && ((x.c == 0) && (x.d == 0)))) unspecified6

unfoldable pub is_multicast : Ip → Bool
is_multicast = by_family (λ x. x.a / 16 == 14) (test6 (λ a b. a == 255))
