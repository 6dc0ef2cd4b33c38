-- ===== src/Pairing/Tests.antt =====
-- Runs of the pairing payload: internal/iosaccess/pairing.go.
use muesli.Base.{
  ℕ, ◌≡◌, ◌≢◌, ◌↔◌, refl, sym, ap, true, none, some, List, [], ◌∷◌, ◌++◌, take, arith,
  if◌then◌else◌,
}
use muesli.Base.Int.{pos}
use muesli.Base.Text.{codes, digits, text_eq}
use muesli.Base.Ip.{
  to4, is_loopback, is_unspecified, is_link_local_unicast, is_link_local_multicast,
}
use muesli.Execution.Admission.{byte_length, code_bytes}
use muesli.Listener.{ipv4}
use muesli.Listener.Candidates.{classify, is_rfc1918}
use muesli.Pairing.{
  Codec, OriginUrl, PairingPayload, accepted, refused, unsupported_version, has_path, build_origin,
  origin_host, base32_groups, grouped, verification_phrase, print_hex, build_pairing_payload,
  encode, value, is_number, is_int, trim_suffix, trim_prefix, check_port, check_literal, check_url,
  validate_private_https_origin, are_hex_digits, check_fingerprint, is_version,
  decode_pairing_payload,
}
use muesli.Pairing.Phrase.{IsFingerprint, verification_phrase_bits}
use muesli.Pairing.Accepted.{url_of, decode_pairing_payload-build}
use muesli.Pairing.Trusted.{IsPrivateUrl, decode_pairing_payload-IsTrusted}

-- The bytes 1 to 32.
abbrev fingerprint : List ℕ
fingerprint =
    1 ∷ 2 ∷ 3 ∷ 4 ∷ 5 ∷ 6 ∷ 7 ∷ 8 ∷ 9 ∷ 10 ∷ 11 ∷ 12 ∷ 13 ∷ 14 ∷ 15 ∷ 16 ∷ 17 ∷ 18 ∷ 19 ∷ 20 ∷ 21
    ∷ 22 ∷ 23 ∷ 24 ∷ 25 ∷ 26 ∷ 27 ∷ 28 ∷ 29 ∷ 30 ∷ 31 ∷ 32 ∷ []

-- As above with other bytes after the fifth.
abbrev other : List ℕ
other = take 5 fingerprint ++ take 27 fingerprint

fingerprint-IsFingerprint : IsFingerprint fingerprint
fingerprint-IsFingerprint = ground arith

other-IsFingerprint : IsFingerprint other
other-IsFingerprint = ground arith

-- A parser that reads one address and one URL, and a file that holds one payload.
abbrev codec : OriginUrl → PairingPayload → Codec
codec u p = record {
  marshal = λ q. codes "{}";
  unmarshal = λ raw. if text_eq raw (codes "{}") then some p else none;
  parse_url = λ raw. some u;
  parse_ip = λ raw. if text_eq raw (codes "10.0.0.7") then some (10 ∷ 0 ∷ 0 ∷ 7 ∷ []) else none;
}

abbrev local : OriginUrl
local = url_of (codes "10.0.0.7") 8_443

abbrev payload : PairingPayload
payload = record {
  version = pos 1;
  origin = codes "https://10.0.0.7:8443";
  spki_sha256 = print_hex fingerprint;
  phrase = codes "AEBA-GBAF";
}

build_local :
    build_pairing_payload
      (build_origin (codec local payload) (codes "10.0.0.7") (pos 8_443))
      fingerprint
    ≡ payload
unfolding build_pairing_payload build_origin origin_host to4 digits verification_phrase grouped
    base32_groups
build_local = refl

decode_local : decode_pairing_payload (codec local payload) (codes "{}") ≡ accepted payload
unfolding decode_pairing_payload validate_private_https_origin check_url check_literal check_port
    check_fingerprint is_int is_number value trim_prefix trim_suffix classify is_rfc1918 is_loopback
    is_unspecified is_link_local_unicast is_link_local_multicast to4 digits byte_length code_bytes
    print_hex
decode_local = refl

decode_later :
    decode_pairing_payload (codec local (record payload { version = pos 2 })) (codes "{}")
    ≡ refused (unsupported_version (pos 2))
unfolding decode_pairing_payload
decode_later = refl

decode_path :
    decode_pairing_payload (codec (record local { path = codes "/x" }) payload) (codes "{}")
    ≡ refused has_path
unfolding decode_pairing_payload validate_private_https_origin check_url
decode_path = refl

signed_port : is_int (codes "-8443") ≡ true
unfolding is_int is_number value
signed_port = refl

verification_phrase_bits_example :
    (verification_phrase fingerprint ≡ verification_phrase other)
    ↔ (take 5 fingerprint ≡ take 5 other)
verification_phrase_bits_example =
    verification_phrase_bits fingerprint other fingerprint-IsFingerprint other-IsFingerprint

classify_local : classify (10 ∷ 0 ∷ 0 ∷ 7 ∷ []) ≡ some ipv4
unfolding classify is_rfc1918 is_loopback is_unspecified is_link_local_unicast
    is_link_local_multicast to4
classify_local = refl

plain_local : trim_prefix (trim_suffix (codes "10.0.0.7")) ≡ codes "10.0.0.7"
unfolding trim_prefix trim_suffix
plain_local = refl

abbrev built : PairingPayload
built =
    build_pairing_payload (build_origin (codec local payload) (codes "10.0.0.7") (pos 8_443))
      fingerprint

origin_local :
    build_origin (codec local payload) (codes "10.0.0.7") (pos 8_443)
    ≡ codes "https://10.0.0.7:8443"
unfolding build_origin origin_host to4 digits
origin_local = refl

written_local : (codec local payload).unmarshal ((codec local payload).marshal built) ≡ some built
written_local = ap (λ p. some p) (sym build_local)

decode_pairing_payload-build_example :
    decode_pairing_payload (codec local payload) (encode (codec local payload) built)
    ≡ accepted built
decode_pairing_payload-build_example =
    decode_pairing_payload-build (codec local payload) (codes "10.0.0.7") 8_443 fingerprint
      (10 ∷ 0 ∷ 0 ∷ 7 ∷ []) ipv4 fingerprint-IsFingerprint refl classify_local (omega arith)
      plain_local refl written_local

decode_pairing_payload-IsTrusted_example :
    ((codec local payload).unmarshal (codes "{}") ≡ some payload)
    × (is_version payload.version ≡ true)
    × ((u : OriginUrl) × ((codec local payload).parse_url payload.origin ≡ some u)
        × IsPrivateUrl (codec local payload) u)
    × (byte_length payload.spki_sha256 ≡ 64)
    × (are_hex_digits payload.spki_sha256 ≡ true)
    × (payload.phrase ≢ [])
decode_pairing_payload-IsTrusted_example =
    decode_pairing_payload-IsTrusted (codec local payload) (codes "{}") payload decode_local
