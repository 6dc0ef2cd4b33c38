-- ===== src/Listener/Candidates/Eligible.antt =====
-- Which addresses are eligible, and which pairs are offered
-- (internal/iosaccess/network_candidates.go).
use muesli.Base.{
  ◌≡◌, refl, sym, ap, subst, ◌∙◌, true, false, Option, none, some, List, [], ◌∷◌, ◌++◌, inl, inr,
  ◌⊎◌, ◌↔◌, Bool-cases, Option-cases, arith, if◌then◌else◌,
}
use muesli.Base.Text.{Text}
use muesli.Base.Ip.{
  Ip, Ip4, to4, by_family, is_loopback, is_private, is_unspecified, is_link_local_unicast,
  is_link_local_multicast,
}
use muesli.Listener.{Family, ipv4, ipv6, InterfaceAddressPair}
use muesli.Listener.Candidates.{
  RawInterface, is_rfc1918, is_ula, classify, candidate, candidates_of, eligible_pairs,
  parse_address,
}

-- IPv4 for an address of four bytes, mapped or not, and else IPv6.
abbrev pub family_of : Ip → Family
family_of ip = elim (to4 ip) [ some x ↦ ipv4 | none ↦ ipv6 ]

classify4 :
    (ip : Ip) (x : Ip4)
    → to4 ip ≡ some x
    → classify ip ≡ (if is_private ip then some (family_of ip) else none)
unfolding classify is_loopback is_private is_unspecified is_link_local_unicast
    is_link_local_multicast is_rfc1918
classify4 ip x e =
    rw
      (
        classify, is_loopback, is_private, is_unspecified, is_link_local_unicast,
        is_link_local_multicast, by_family, family_of, e,
      )
      (ground arith)

classify6 :
    (ip : Ip) → to4 ip ≡ none → classify ip ≡ (if is_private ip then some (family_of ip) else none)
unfolding classify is_loopback is_private is_unspecified is_link_local_unicast
    is_link_local_multicast is_ula to4
classify6 [] e = ground arith
classify6 (a ∷ []) e = ground arith
classify6 (a ∷ b ∷ rest) e =
    rw
      (
        classify, is_loopback, is_private, is_unspecified, is_link_local_unicast,
        is_link_local_multicast, is_ula, by_family, family_of, e,
      )
      (ground arith)

-- The eligible addresses are exactly the private ones of net.IP.IsPrivate, which are the RFC 1918
-- and unique local ranges: the exclusions before the range tests exclude none of these.
pub classify-private :
    (ip : Ip) → classify ip ≡ (if is_private ip then some (family_of ip) else none)
classify-private ip = elim (Option-cases (to4 ip)) [
  | inl e ↦ classify6 ip e
  | inr (x, e) ↦ classify4 ip x e
]

-- A pair of the list.
abbrev pub Mem : {A : Type 0} → A → List A → Type 0
Mem x [] = ⊥
Mem x (y ∷ ys) = (x ≡ y) ⊎ Mem x ys

module _ (parse_ip : Text → Option Ip) (to_string : Ip → Text) where
  -- An address of an interface that parses and is private, as its pair.
  abbrev pub IsOffered : List RawInterface → InterfaceAddressPair → Type 0
  IsOffered interfaces p =
      (i : RawInterface) × (raw : Text) × (ip : Ip) × Mem i interfaces
      × Mem raw i.addresses
      × (parse_address parse_ip raw ≡ some ip)
      × (is_private ip ≡ true)
      × (p ≡ record { interface_name = i.name; address = to_string ip; family = family_of ip })

  module _ (name raw : Text) where
    candidate_unparsed :
        parse_address parse_ip raw ≡ none → candidate parse_ip to_string name raw ≡ none
    unfolding candidate
    candidate_unparsed e = rw (candidate, e) refl

    candidate_other :
        {ip : Ip}
        → parse_address parse_ip raw ≡ some ip
        → is_private ip ≡ false
        → candidate parse_ip to_string name raw ≡ none
    unfolding candidate
    candidate_other {ip} e q =
        let none_class = classify-private ip in rw (candidate, e, none_class, q) refl

    candidate_private :
        {ip : Ip}
        → parse_address parse_ip raw ≡ some ip
        → is_private ip ≡ true
        → candidate parse_ip to_string name raw
          ≡ some (record { interface_name = name; address = to_string ip; family = family_of ip })
    unfolding candidate
    candidate_private {ip} e q = let class = classify-private ip in rw (candidate, e, class, q) refl

  -- What one address offers.
  abbrev Offers : Text → Text → InterfaceAddressPair → Type 0
  Offers name raw p =
      (ip : Ip) × (parse_address parse_ip raw ≡ some ip)
      × (is_private ip ≡ true)
      × (p ≡ record { interface_name = name; address = to_string ip; family = family_of ip })

  candidate_iff :
      (name raw : Text) (p : InterfaceAddressPair)
      → (candidate parse_ip to_string name raw ≡ some p) ↔ Offers name raw p
  candidate_iff name raw p =
      (there, λ h. let (ip, e, q, same) = h in candidate_private name raw e q ∙ ap some (sym same))
    where
      there : candidate parse_ip to_string name raw ≡ some p → Offers name raw p
      there h = elim (Option-cases (parse_address parse_ip raw)) [
        | inl e ↦ absurd (let no = sym (candidate_unparsed name raw e) ∙ h in cc)
        | inr (ip, e) ↦ elim (Bool-cases (is_private ip)) [
          | inl q ↦ let same = sym (candidate_private name raw e q) ∙ h in (ip, e, q, cc)
          | inr q ↦ absurd (let no = sym (candidate_other name raw e q) ∙ h in cc)
        ]
      ]

  candidates_of_skip :
      (name raw : Text) (raws : List Text)
      → candidate parse_ip to_string name raw ≡ none
      → candidates_of parse_ip to_string name (raw ∷ raws)
        ≡ candidates_of parse_ip to_string name raws
  unfolding candidates_of
  candidates_of_skip name raw raws e = rw (candidates_of, e) refl

  candidates_of_take :
      (name raw : Text) (raws : List Text) {p : InterfaceAddressPair}
      → candidate parse_ip to_string name raw ≡ some p
      → candidates_of parse_ip to_string name (raw ∷ raws)
        ≡ p ∷ candidates_of parse_ip to_string name raws
  unfolding candidates_of
  candidates_of_take name raw raws e = rw (candidates_of, e) refl

  abbrev OffersOne : Text → List Text → InterfaceAddressPair → Type 0
  OffersOne name raws p = (raw : Text) × Mem raw raws × Offers name raw p

  candidates_of_sound :
      (name : Text) (raws : List Text) (p : InterfaceAddressPair)
      → Mem p (candidates_of parse_ip to_string name raws)
      → OffersOne name raws p
  unfolding candidates_of
  candidates_of_sound name [] p h = absurd h
  candidates_of_sound name (raw ∷ raws) p h =
      elim (Option-cases (candidate parse_ip to_string name raw)) [
        | inl e ↦
            later (
              candidates_of_sound name raws p
                (subst (Mem p) (candidates_of_skip name raw raws e) h))
        | inr (q, e) ↦ elim (subst (Mem p) (candidates_of_take name raw raws e) h) [
          | inl same ↦ (raw, inl refl, (candidate_iff name raw p).0 (e ∙ ap some (sym same)))
          | inr m ↦ later (candidates_of_sound name raws p m)
        ]
      ]
    where
      later : OffersOne name raws p → OffersOne name (raw ∷ raws) p
      later (r, m, o) = (r, inr m, o)

  candidates_of_complete :
      (name : Text) (raws : List Text) (p : InterfaceAddressPair) (raw : Text)
      → Mem raw raws
      → Offers name raw p
      → Mem p (candidates_of parse_ip to_string name raws)
  unfolding candidates_of
  candidates_of_complete name [] p raw m o = absurd m
  candidates_of_complete name (r ∷ raws) p raw (inl same) o =
      let hit = (candidate_iff name r p).1 (subst (λ x. Offers name x p) same o) in
      subst (Mem p) (sym (candidates_of_take name r raws hit)) (inl refl)
  candidates_of_complete name (r ∷ raws) p raw (inr m) o =
      let rest = candidates_of_complete name raws p raw m o in
      elim (Option-cases (candidate parse_ip to_string name r)) [
        | inl e ↦ subst (Mem p) (sym (candidates_of_skip name r raws e)) rest
        | inr (q, e) ↦ subst (Mem p) (sym (candidates_of_take name r raws e)) (inr rest)
      ]

  Mem-append :
      (p : InterfaceAddressPair) (xs ys : List InterfaceAddressPair)
      → Mem p (xs ++ ys) ↔ (Mem p xs ⊎ Mem p ys)
  Mem-append p [] ys = (λ h. inr h, λ h. elim h [ inl m ↦ absurd m | inr m ↦ m ])
  Mem-append p (x ∷ xs) ys =
      let rest = Mem-append p xs ys in
      (
        λ h. elim h [
          | inl same ↦ inl (inl same)
          | inr m ↦ elim (rest.0 m) [ inl a ↦ inl (inr a) | inr b ↦ inr b ]
        ],
        λ h. elim h [
          | inl (inl same) ↦ inl same
          | inl (inr a) ↦ inr (rest.1 (inl a))
          | inr b ↦ inr (rest.1 (inr b))
        ],
      )

  -- The candidates are exactly the private addresses of the interfaces: a pair is offered if and
  -- only if some interface has an address that parses, is private and gives that pair. Public,
  -- loopback, wildcard and link-local addresses are never offered, and none that is private is lost.
  pub eligible_pairs-IsOffered :
      (interfaces : List RawInterface) (p : InterfaceAddressPair)
      → Mem p (eligible_pairs parse_ip to_string interfaces) ↔ IsOffered interfaces p
  unfolding eligible_pairs
  eligible_pairs-IsOffered [] p = (λ h. absurd h, λ h. absurd (let m = h.3 in m))
  eligible_pairs-IsOffered (i ∷ interfaces) p =
      let here = candidates_of parse_ip to_string i.name i.addresses in
      let split = Mem-append p here (eligible_pairs parse_ip to_string interfaces) in
      let rest = eligible_pairs-IsOffered interfaces p in
      (
        λ h. elim (split.0 h) [
          | inl m ↦
              let (raw, n, o) = candidates_of_sound i.name i.addresses p m in
              (i, raw, o.0, inl refl, n, o.1, o.2, o.3)
          | inr m ↦
              let (j, raw, ip, k, n, e, q, same) = rest.0 m in (j, raw, ip, inr k, n, e, q, same)
        ],
        λ h.
            let (j, raw, ip, k, n, e, q, pair) = h in
            elim k [
              | inl same ↦ split.1 (
                  inl (
                    candidates_of_complete i.name i.addresses p raw
                      (subst (λ (x : RawInterface). Mem raw x.addresses) same n)
                      (subst (λ (x : RawInterface). Offers x.name raw p) same (ip, e, q, pair))))
              | inr m ↦ split.1 (inr (rest.1 (j, raw, ip, m, n, e, q, pair)))
            ],
      )
