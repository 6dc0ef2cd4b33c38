-- ===== src/Webhook/Address/Ranges.antt =====
-- The ranges that the guard refuses, against the list in the comment of IsPrivateIP
-- (internal/webhook/validate.go).
use muesli.Base.{
  ℕ, zero, suc, ◌+◌, ◌*◌, ◌/◌, ◌%◌, ◌<◌, ◌≡◌, refl, Bool, true, ◌||◌, ◌&&◌, none, some, List, [],
  ◌∷◌, inl, inr, ◌⊎◌, ◌↔◌, ◌≢◌, Option-cases, arith, ◌==◌, length, All, ◌++◌,
}
use muesli.Base.Text.{text_eq_iff}
use muesli.Base.Ip.{
  Ip, Ip4, to4, is_loopback, is_private, is_link_local_unicast, is_link_local_multicast,
  is_unspecified, is_multicast, are_zeros, by_family, test6, loopback6, unspecified6,
}
use muesli.Webhook.Address.{is_private_ip}

-- The numbers whose first bits are those of a base: base/prefix, where 2 ^ (32 - prefix) is `size`.
abbrev pub Within : ℕ → ℕ → ℕ → Type 0
Within base size v = v / size ≡ base / size

abbrev pub dotted : ℕ → ℕ → ℕ → ℕ → ℕ
dotted a b c d = ((a * 256 + b) * 256 + c) * 256 + d

-- 127.0.0.0/8, 10.0.0.0/8, 172.16.0.0/12, 192.168.0.0/16, 169.254.0.0/16, 0.0.0.0 and 224.0.0.0/4.
abbrev pub IsReserved : ℕ → Type 0
IsReserved v =
    Within (dotted 127 0 0 0) 16_777_216 v
    ⊎ Within (dotted 10 0 0 0) 16_777_216 v
    ⊎ Within (dotted 172 16 0 0) 1_048_576 v
    ⊎ Within (dotted 192 168 0 0) 65_536 v
    ⊎ Within (dotted 169 254 0 0) 65_536 v
    ⊎ (v ≡ 0)
    ⊎ Within (dotted 224 0 0 0) 268_435_456 v

module _ (a b c d : ℕ) (ha : a < 256) (hb : b < 256) (hc : c < 256) (hd : d < 256) where
  first_byte : dotted a b c d / 16_777_216 ≡ a
  first_byte = omega arith

  first_twelve_bits : dotted a b c d / 1_048_576 ≡ a * 16 + b / 16
  first_twelve_bits = omega arith

  first_two_bytes : dotted a b c d / 65_536 ≡ a * 256 + b
  first_two_bytes = omega arith

  first_four_bits : dotted a b c d / 268_435_456 ≡ a / 16
  first_four_bits = omega arith

  ip4_ranges : (is_private_ip (a ∷ b ∷ c ∷ d ∷ []) ≡ true) ↔ IsReserved (dotted a b c d)
  unfolding is_private_ip is_loopback is_private is_link_local_unicast is_link_local_multicast
      is_unspecified is_multicast to4
  ip4_ranges = ground (arith, first_byte, first_twelve_bits, first_two_bytes, first_four_bits)

abbrev pub IsByte : ℕ → Type 0
IsByte b = b < 256

abbrev IsSmall : Ip4 → Type 0
IsSmall x = (x.a < 256) × (x.b < 256) × (x.c < 256) × (x.d < 256)

to4-IsSmall : (ip : Ip) {x : Ip4} → All IsByte ip → to4 ip ≡ some x → IsSmall x
unfolding to4
to4-IsSmall [] h e = cc
to4-IsSmall (p ∷ []) h e = cc
to4-IsSmall (p ∷ q ∷ []) h e = cc
to4-IsSmall (p ∷ q ∷ r ∷ []) h e = cc
to4-IsSmall (a ∷ b ∷ c ∷ d ∷ []) {x} h e = ground arith
to4-IsSmall (p ∷ q ∷ r ∷ s ∷ t ∷ []) h e = cc
to4-IsSmall (p ∷ q ∷ r ∷ s ∷ t ∷ u ∷ []) h e = cc
to4-IsSmall (p ∷ q ∷ r ∷ s ∷ t ∷ u ∷ v ∷ []) h e = cc
to4-IsSmall (p ∷ q ∷ r ∷ s ∷ t ∷ u ∷ v ∷ w ∷ []) h e = cc
to4-IsSmall (p ∷ q ∷ r ∷ s ∷ t ∷ u ∷ v ∷ w ∷ x ∷ []) h e = cc
to4-IsSmall (p ∷ q ∷ r ∷ s ∷ t ∷ u ∷ v ∷ w ∷ x ∷ y ∷ []) h e = cc
to4-IsSmall (p ∷ q ∷ r ∷ s ∷ t ∷ u ∷ v ∷ w ∷ x ∷ y ∷ m ∷ []) h e = cc
to4-IsSmall (p ∷ q ∷ r ∷ s ∷ t ∷ u ∷ v ∷ w ∷ x ∷ y ∷ m ∷ n ∷ []) h e = cc
to4-IsSmall (p ∷ q ∷ r ∷ s ∷ t ∷ u ∷ v ∷ w ∷ x ∷ y ∷ m ∷ n ∷ a ∷ []) h e = cc
to4-IsSmall (p ∷ q ∷ r ∷ s ∷ t ∷ u ∷ v ∷ w ∷ x ∷ y ∷ m ∷ n ∷ a ∷ b ∷ []) h e = cc
to4-IsSmall (p ∷ q ∷ r ∷ s ∷ t ∷ u ∷ v ∷ w ∷ x ∷ y ∷ m ∷ n ∷ a ∷ b ∷ c ∷ []) h e = cc
to4-IsSmall (p ∷ q ∷ r ∷ s ∷ t ∷ u ∷ v ∷ w ∷ i ∷ j ∷ m ∷ n ∷ a ∷ b ∷ c ∷ d ∷ []) {x} h e =
    ground arith
to4-IsSmall (p ∷ q ∷ r ∷ s ∷ t ∷ u ∷ v ∷ w ∷ i ∷ j ∷ m ∷ n ∷ a ∷ b ∷ c ∷ d ∷ k ∷ ks) h e = cc

abbrev pub zeros : ℕ → List ℕ
zeros zero = []
zeros (suc n) = 0 ∷ zeros n

are_zeros_iff : (xs : List ℕ) (n : ℕ) → (((length xs == n) && are_zeros xs) ≡ true) ↔ (xs ≡ zeros n)
are_zeros_iff [] zero = (λ _. refl, λ _. refl)
are_zeros_iff [] (suc n) = (λ h. ground arith, λ h. ground arith)
are_zeros_iff (x ∷ xs) zero = (λ h. ground arith, λ h. ground arith)
are_zeros_iff (x ∷ xs) (suc n) =
    (λ h. ground (arith, are_zeros_iff xs n), λ h. ground (arith, are_zeros_iff xs n))

-- ::1, ::, fc00::/7, fe80::/10 and ff00::/8, the last three on the first sixteen bits.
abbrev pub IsReserved6 : Ip → Type 0
IsReserved6 (a ∷ b ∷ rest) =
    (a ∷ b ∷ rest ≡ zeros 15 ++ 1 ∷ [])
    ⊎ (a ∷ b ∷ rest ≡ zeros 16)
    ⊎ Within 0xFC00 512 (a * 256 + b)
    ⊎ Within 0xFE80 64 (a * 256 + b)
    ⊎ Within 0xFF00 256 (a * 256 + b)
IsReserved6 _ = ⊥

module _ (ip : Ip) (e : to4 ip ≡ none) where
  by_family_none : (v4 : Ip4 → Bool) (v6 : Ip → Bool) → by_family v4 v6 ip ≡ v6 ip
  by_family_none v4 v6 = rw (by_family, e) refl

  is_private_ip6 :
      is_private_ip ip
      ≡ loopback6 ip
        || test6 (λ a b. a / 2 == 126) ip
        || test6 (λ a b. (a == 254) && (b / 64 == 2)) ip
        || test6 (λ a b. (a == 255) && (b % 16 == 2)) ip
        || unspecified6 ip
        || test6 (λ a b. a == 255) ip
  unfolding is_private_ip is_loopback is_private is_link_local_unicast is_link_local_multicast
      is_unspecified is_multicast
  is_private_ip6 =
      rw
        (
          by_family_none, by_family_none, by_family_none, by_family_none, by_family_none,
          by_family_none,
        )
        refl

test6_iff :
    (test : ℕ → ℕ → Bool) (a b : ℕ) (rest : List ℕ)
    → length rest ≡ 14
    → test6 test (a ∷ b ∷ rest) ≡ test a b
test6_iff test a b rest n = rw n refl

six_cases :
    {A B C D E : Type 0} (l p u m z f : Bool)
    → ((l ≡ true) ↔ A)
    → ((z ≡ true) ↔ B)
    → ((p ≡ true) ↔ C)
    → ((u ≡ true) ↔ D)
    → ((f ≡ true) ↔ E)
    → (m ≡ true → f ≡ true)
    → ((l || p || u || m || z || f) ≡ true) ↔ (A ⊎ B ⊎ C ⊎ D ⊎ E)
six_cases l p u m z f hl hz hp hu hf hm = ground arith

ip6_ranges :
    (ip : Ip)
    → All IsByte ip
    → length ip ≡ 16
    → to4 ip ≡ none
    → (is_private_ip ip ≡ true) ↔ IsReserved6 ip
ip6_ranges [] h n e = absurd (omega arith)
ip6_ranges (a ∷ []) h n e = absurd (omega arith)
ip6_ranges (a ∷ b ∷ rest) h n e =
    let m : length rest ≡ 14 = omega arith in
    let ha = h.0 in
    let hb = h.1.0 in
    rw (is_private_ip6 (a ∷ b ∷ rest) e) (
      six_cases _ _ _ _ _ _ (text_eq_iff (a ∷ b ∷ rest) (zeros 15 ++ 1 ∷ []))
        (are_zeros_iff (a ∷ b ∷ rest) 16) (rw (test6, m) (ground arith))
        (rw (test6, m) (ground arith)) (rw (test6, m) (ground arith))
        (rw (test6, m) (ground arith)))

-- An address is in one of the ranges that the guard's comment lists: by the four bytes of an IPv4
-- address, mapped or not, and else by the sixteen of an IPv6 address.
abbrev pub IsListed : Ip → Type 0
IsListed ip = elim (to4 ip) [ some x ↦ IsReserved (dotted x.a x.b x.c x.d) | none ↦ IsReserved6 ip ]

same_family :
    (ip : Ip) {x : Ip4}
    → to4 ip ≡ some x
    → (v4 : Ip4 → Bool) (v6 : Ip → Bool)
    → by_family v4 v6 ip ≡ by_family v4 v6 (x.a ∷ x.b ∷ x.c ∷ x.d ∷ [])
unfolding to4
same_family ip e v4 v6 = rw (by_family, e) refl

embedded_ip4 :
    (ip : Ip) {x : Ip4}
    → to4 ip ≡ some x
    → is_private_ip ip ≡ is_private_ip (x.a ∷ x.b ∷ x.c ∷ x.d ∷ [])
unfolding is_private_ip is_loopback is_private is_link_local_unicast is_link_local_multicast
    is_unspecified is_multicast
embedded_ip4 ip e = let same = same_family ip e in rw (same, same, same, same, same, same) refl

four_bytes : (ip : Ip) → length ip ≡ 4 → to4 ip ≢ none
unfolding to4
four_bytes (a ∷ b ∷ c ∷ d ∷ []) n e = cc
four_bytes [] n e = omega arith
four_bytes (a ∷ []) n e = omega arith
four_bytes (a ∷ b ∷ []) n e = omega arith
four_bytes (a ∷ b ∷ c ∷ []) n e = omega arith
four_bytes (a ∷ b ∷ c ∷ d ∷ k ∷ ks) n e = omega arith

-- IsPrivateIP refuses exactly the addresses in the ranges that its comment lists: loopback, the
-- private and unique local ranges, link-local, unspecified and multicast. An IPv4-mapped address
-- is judged as the IPv4 address in it. The address has four or sixteen bytes.
pub is_private_ip_ranges :
    (ip : Ip)
    → All IsByte ip
    → (length ip ≡ 4) ⊎ (length ip ≡ 16)
    → (is_private_ip ip ≡ true) ↔ IsListed ip
is_private_ip_ranges ip h n = elim (Option-cases (to4 ip)) [
  | inl e ↦ rw (IsListed, e) (ip6_ranges ip h (not_four e) e)
  | inr (x, e) ↦
      let small = to4-IsSmall ip h e in
      rw (embedded_ip4 ip e, IsListed, e)
        (ip4_ranges x.a x.b x.c x.d small.0 small.1 small.2 small.3)
]
  where
    not_four : to4 ip ≡ none → length ip ≡ 16
    not_four e = elim n [ inl four ↦ absurd (four_bytes ip four e) | inr sixteen ↦ sixteen ]
