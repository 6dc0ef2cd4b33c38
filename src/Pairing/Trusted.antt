-- ===== src/Pairing/Trusted.antt =====
-- What an accepted payload tells: DecodePairingPayload (internal/iosaccess/pairing.go).
use muesli.Base.{
  ◌≡◌, refl, sym, ap, subst, ◌∙◌, ◌≢◌, inl, inr, true, false, Bool-cases, Option-cases, ◌||◌,
  Option, none, some, [], ◌∷◌, arith,
}
use muesli.Base.Text.{Text, codes, is_empty, text_eq}
use muesli.Base.Ip.{Ip, is_private}
use muesli.Execution.Admission.{byte_length}
use muesli.Listener.{Family}
use muesli.Listener.Candidates.{classify}
use muesli.Listener.Candidates.Eligible.{classify-private}
use muesli.Pairing.Accepted.{decode-checks}
use muesli.Pairing.{
  Codec, OriginUrl, PairingPayload, is_int, trim_suffix, trim_prefix, check_port, check_literal,
  check_url, validate_private_https_origin, are_hex_digits, check_fingerprint, accepted, refused,
  not_literal, not_private, malformed, unsupported_version, invalid_origin, PairingError,
  decode_pairing_payload, is_version,
}

-- An address and a port of the private network, over HTTPS and with nothing else.
abbrev pub IsPrivateUrl : Codec → OriginUrl → Type 0
IsPrivateUrl k u =
    (text_eq u.scheme (codes "https") ≡ true)
    × (is_empty u.path || text_eq u.path (codes "/") ≡ true)
    × (u.raw_query ≡ [])
    × (u.fragment ≡ [])
    × (u.has_user ≡ false)
    × ((ip : Ip) × (k.parse_ip (trim_prefix (trim_suffix u.hostname)) ≡ some ip)
        × (is_private ip ≡ true))
    × (is_int u.port ≡ true)

is_empty→[] : (s : Text) → is_empty s ≡ true → s ≡ []
is_empty→[] [] h = refl
is_empty→[] (c ∷ s) h = absurd cc

check_port-none : (port : Text) → check_port port ≡ none → is_int port ≡ true
unfolding check_port
check_port-none port h = ground (arith, h)

classified : (ip : Ip) {f : Family} → classify ip ≡ some f → is_private ip ≡ true
classified ip h = let same = classify-private ip in ground (arith, h, same)

never : {A : Type 0} {x : A} → ◌≡◌ {A = Option A} none (some x) → ⊥
never e = cc

module _ (k : Codec) (u : OriginUrl) where
  abbrev host_ip : Option Ip
  host_ip = k.parse_ip (trim_prefix (trim_suffix u.hostname))

  no_literal : host_ip ≡ none → check_literal k u ≡ some not_literal
  unfolding check_literal
  no_literal e = rw (check_literal, e) refl

  public_literal :
      {ip : Ip} → host_ip ≡ some ip → classify ip ≡ none → check_literal k u ≡ some not_private
  unfolding check_literal
  public_literal e c = rw (check_literal, e, c) refl

  private_literal :
      {ip : Ip} {f : Family}
      → host_ip ≡ some ip
      → classify ip ≡ some f
      → check_literal k u ≡ check_port u.port
  unfolding check_literal
  private_literal e c = rw (check_literal, e, c) refl

  check_literal-none :
      check_literal k u ≡ none
      → ((ip : Ip) × (host_ip ≡ some ip) × (is_private ip ≡ true)) × (is_int u.port ≡ true)
  check_literal-none h = elim (Option-cases host_ip) [
    | inl e ↦ absurd (never (sym h ∙ no_literal e))
    | inr (ip, e) ↦ elim (Option-cases (classify ip)) [
      | inl c ↦ absurd (never (sym h ∙ public_literal e c))
      | inr (f, c) ↦
          ((ip, e, classified ip c), check_port-none u.port (sym (private_literal e c) ∙ h))
    ]
  ]

check_url-none :
    (k : Codec) (u : OriginUrl)
    → check_url k u ≡ none
    → (text_eq u.scheme (codes "https") ≡ true)
      × (is_empty u.path || text_eq u.path (codes "/") ≡ true)
      × (is_empty u.raw_query ≡ true)
      × (is_empty u.fragment ≡ true)
      × (u.has_user ≡ false)
      × (check_literal k u ≡ none)
unfolding check_url
check_url-none k u h = (
  ground (arith, h),
  ground (arith, h),
  ground (arith, h),
  ground (arith, h),
  ground (arith, h),
  ground (arith, h),
)

check_fingerprint-accepted :
    (p q : PairingPayload)
    → check_fingerprint p ≡ accepted q
    → (p ≡ q)
      × (byte_length p.spki_sha256 ≡ 64)
      × (are_hex_digits p.spki_sha256 ≡ true)
      × (is_empty p.phrase ≡ false)
unfolding check_fingerprint
check_fingerprint-accepted p q h =
    (ground (arith, h), ground (arith, h), ground (arith, h), ground (arith, h))

shown_text : (s : Text) → is_empty s ≡ false → s ≢ []
shown_text s h e = cc (h, ap is_empty e)

not_accepted : {e : PairingError} {p : PairingPayload} → refused e ≡ accepted p → ⊥
not_accepted e = cc

module _ (k : Codec) (raw : Text) where
  unread : k.unmarshal raw ≡ none → decode_pairing_payload k raw ≡ refused malformed
  unfolding decode_pairing_payload
  unread e = rw (decode_pairing_payload, e) refl

  other_version :
      {p : PairingPayload}
      → k.unmarshal raw ≡ some p
      → is_version p.version ≡ false
      → decode_pairing_payload k raw ≡ refused (unsupported_version p.version)
  unfolding decode_pairing_payload
  other_version e v = rw (decode_pairing_payload, e, v) refl

  bad_origin :
      {p : PairingPayload} {e : PairingError}
      → k.unmarshal raw ≡ some p
      → is_version p.version ≡ true
      → validate_private_https_origin k p.origin ≡ some e
      → decode_pairing_payload k raw ≡ refused e
  unfolding decode_pairing_payload
  bad_origin r v o = rw (decode_pairing_payload, r, v, o) refl

  unparsed :
      {origin : Text}
      → k.parse_url origin ≡ none
      → validate_private_https_origin k origin ≡ some invalid_origin
  unfolding validate_private_https_origin
  unparsed e = rw (validate_private_https_origin, e) refl

  parsed :
      {origin : Text} {u : OriginUrl}
      → k.parse_url origin ≡ some u
      → validate_private_https_origin k origin ≡ check_url k u
  unfolding validate_private_https_origin
  parsed e = rw (validate_private_https_origin, e) refl

  validated :
      (origin : Text)
      → validate_private_https_origin k origin ≡ none
      → (u : OriginUrl) × (k.parse_url origin ≡ some u) × IsPrivateUrl k u
  validated origin h = elim (Option-cases (k.parse_url origin)) [
    | inl e ↦ absurd (never (sym h ∙ unparsed e))
    | inr (u, e) ↦
        let (scheme, path, query, fragment, user, rest) = check_url-none k u (sym (parsed e) ∙ h) in
        let (address, port) = check_literal-none k u rest in
        (
          u,
          e,
          (
            scheme,
            path,
            is_empty→[] u.raw_query query,
            is_empty→[] u.fragment fragment,
            user,
            address,
            port,
          ),
        )
  ]

  -- A payload that is accepted is the one that was read, of version 1; its origin is an HTTPS
  -- URL without path (but for a slash), query, fragment and credentials, whose host is a private IP address and whose port
  -- is a number; its fingerprint has 64 hexadecimal digits, and it has a phrase.
  pub decode_pairing_payload-IsTrusted :
      (p : PairingPayload)
      → decode_pairing_payload k raw ≡ accepted p
      → (k.unmarshal raw ≡ some p)
        × (is_version p.version ≡ true)
        × ((u : OriginUrl) × (k.parse_url p.origin ≡ some u) × IsPrivateUrl k u)
        × (byte_length p.spki_sha256 ≡ 64)
        × (are_hex_digits p.spki_sha256 ≡ true)
        × (p.phrase ≢ [])
  decode_pairing_payload-IsTrusted p h = elim (Option-cases (k.unmarshal raw)) [
    | inl e ↦ absurd (not_accepted (sym (unread e) ∙ h))
    | inr (q, e) ↦ elim (Bool-cases (is_version q.version)) [
      | inr v ↦ absurd (not_accepted (sym (other_version e v) ∙ h))
      | inl v ↦ elim (Option-cases (validate_private_https_origin k q.origin)) [
        | inr (bad, o) ↦ absurd (not_accepted (sym (bad_origin e v o) ∙ h))
        | inl o ↦
            let (same, long, hex, shown) =
              check_fingerprint-accepted q p (sym (decode-checks k raw q e v o) ∙ h) in
            subst
              (λ r.
                (k.unmarshal raw ≡ some r)
                × (is_version r.version ≡ true)
                × ((u : OriginUrl) × (k.parse_url r.origin ≡ some u) × IsPrivateUrl k u)
                × (byte_length r.spki_sha256 ≡ 64)
                × (are_hex_digits r.spki_sha256 ≡ true)
                × (r.phrase ≢ []))
              same (e, v, validated q.origin o, long, hex, shown_text q.phrase shown)
      ]
    ]
  ]
