-- ===== src/Pairing/Accepted.antt =====
-- The payload that the desktop builds is accepted: DecodePairingPayload
-- (internal/iosaccess/pairing.go).
use muesli.Base.{
  ℕ, zero, suc, ◌+◌, ◌*◌, ◌-◌, ◌/◌, ◌%◌, ◌≤◌, ◌<◌, ◌≡◌, refl, ap, ◌∙◌, inl, inr, true, false,
  Bool-cases, none, some, List, [], ◌∷◌, ◌++◌, length, leb, ltb, ◌==◌, arith, All,
}
use muesli.Base.Int.{pos}
use muesli.Base.Text.{Text, codes, digits, decimal, is_empty}
use muesli.Base.Ip.{Ip}
use muesli.Execution.Admission.{byte_length, code_bytes}
use muesli.Listener.{Family}
use muesli.Listener.Candidates.{classify}
use muesli.Pairing.{
  Codec, OriginUrl, PairingPayload, build_origin, build_pairing_payload, encode, is_digit,
  are_digits, value, is_number, is_int, trim_suffix, trim_prefix, check_port, check_literal,
  check_url, validate_private_https_origin, is_hex_digit, are_hex_digits, hex_char, print_hex,
  check_fingerprint, grouped, base32_groups, accepted, decode_pairing_payload, is_version,
  verification_phrase,
}
use muesli.Pairing.Phrase.{IsFingerprint, first_five}

value-append : (acc d : ℕ) (s : Text) → value acc (s ++ d ∷ []) ≡ value acc s * 10 + (d - 48)
unfolding value
value-append acc d [] = refl
value-append acc d (c ∷ s) = value-append (acc * 10 + (c - 48)) d s

are_digits-append :
    (s : Text) (d : ℕ) → are_digits s ≡ true → is_digit d ≡ true → are_digits (s ++ d ∷ []) ≡ true
are_digits-append [] d h k = ground (arith, h, k)
are_digits-append (c ∷ s) d h k = ground (arith, h, k, are_digits-append s d)

is_empty-append : (s : Text) (d : ℕ) → is_empty (s ++ d ∷ []) ≡ false
is_empty-append [] d = refl
is_empty-append (c ∷ s) d = refl

abbrev Reads : ℕ → Text → Type 0
Reads n s = (value 0 s ≡ n) × (are_digits s ≡ true) × (is_empty s ≡ false)

digits-Reads : (fuel n : ℕ) → n < fuel → Reads n (digits fuel n)
unfolding digits value
digits-Reads zero n h = absurd (omega (arith, h))
digits-Reads (suc fuel) n h = elim (Bool-cases (ltb n 10)) [
  | inl e ↦ rw (digits, e) (ground (arith, e), ground (arith, e), refl)
  | inr e ↦
      let (v, ds, ne) = digits-Reads fuel (n / 10) (ground (arith, e, h)) in
      let s = digits fuel (n / 10) in
      rw (digits, e)
        (
          value-append 0 (48 + n % 10) s ∙ ap (λ w. w * 10 + (48 + n % 10 - 48)) v ∙ omega arith,
          are_digits-append s (48 + n % 10) ds (ground arith),
          is_empty-append s (48 + n % 10),
        )
]

le_limit : (n v : ℕ) → v ≡ n → n ≤ 65_535 → leb v 9_223_372_036_854_775_807 ≡ true
le_limit n v e h = ground (arith, e, h)

is_int-Reads : (n : ℕ) (s : Text) → Reads n s → n ≤ 65_535 → is_int s ≡ true
unfolding is_int is_number
is_int-Reads n [] (v, ds, ne) h = cc ne
is_int-Reads n (c ∷ s) (v, ds, ne) h =
    let small = le_limit n (value 0 (c ∷ s)) v h in ground (arith, ds, small)

-- The port of an address is accepted.
check_port-decimal : (n : ℕ) → n ≤ 65_535 → check_port (decimal n) ≡ none
unfolding check_port
check_port-decimal n h =
    let (v, ds, ne) = digits-Reads (suc n) n (omega arith) in
    let number = is_int-Reads n (decimal n) (v, ds, ne) h in rw (check_port, ne, number) refl

hex_char-hex : (v : ℕ) → v < 16 → is_hex_digit (hex_char v) ≡ true
hex_char-hex v h = ground (arith, h)

code_bytes-hex_char : (v : ℕ) → v < 16 → code_bytes (hex_char v) ≡ 1
unfolding code_bytes
code_bytes-hex_char v h = ground (arith, h)

print_hex-hex : (f : List ℕ) → All (λ b. b < 256) f → are_hex_digits (print_hex f) ≡ true
unfolding print_hex
print_hex-hex [] h = refl
print_hex-hex (b ∷ f) h =
    let rest = print_hex-hex f h.1 in
    let byte = h.0 in
    let high = hex_char-hex (b / 16) (omega (arith, byte)) in
    let low = hex_char-hex (b % 16) (omega arith) in rw (high, low) rest

byte_length-print_hex :
    (f : List ℕ) → All (λ b. b < 256) f → byte_length (print_hex f) ≡ length f * 2
unfolding print_hex byte_length code_bytes
byte_length-print_hex [] h = refl
byte_length-print_hex (b ∷ f) h =
    let rest = byte_length-print_hex f h.1 in
    let byte = h.0 in
    let high = code_bytes-hex_char (b / 16) (omega (arith, byte)) in
    let low = code_bytes-hex_char (b % 16) (omega arith) in omega (arith, high, low, rest)

phrase_shown : (f : List ℕ) → IsFingerprint f → is_empty (verification_phrase f) ≡ false
unfolding verification_phrase grouped base32_groups
phrase_shown f h =
    let (a, b, c, d, e, rest, same, bytes) = first_five f h in
    ap (λ g. is_empty (verification_phrase g)) same

sixty_four : (n l : ℕ) → n ≡ l * 2 → l ≡ 32 → (n == 64) ≡ true
sixty_four n l e h = ground (arith, e, h)

check_fingerprint-build :
    (origin : Text) (f : List ℕ)
    → IsFingerprint f
    → check_fingerprint (build_pairing_payload origin f) ≡ accepted (build_pairing_payload origin f)
unfolding check_fingerprint build_pairing_payload
check_fingerprint-build origin f h =
    let bytes = byte_length-print_hex f h.1 in
    let all = h.0 in
    let long = sixty_four (byte_length (print_hex f)) (length f) bytes all in
    let hex = print_hex-hex f h.1 in
    let shown = phrase_shown f h in rw (check_fingerprint, long, hex, shown) refl

-- What net/url reads of the origin of an address and a port.
abbrev pub url_of : Text → ℕ → OriginUrl
url_of address port = record {
  scheme = codes "https";
  path = [];
  raw_query = [];
  fragment = [];
  has_user = false;
  hostname = address;
  port = decimal port;
}

check_url-url_of :
    (k : Codec) (address : Text) (port : ℕ) (ip : Ip) (family : Family)
    → k.parse_ip address ≡ some ip
    → classify ip ≡ some family
    → trim_prefix (trim_suffix address) ≡ address
    → port ≤ 65_535
    → check_url k (url_of address port) ≡ none
unfolding check_url check_literal
check_url-url_of k address port ip family parsed private plain bound =
    let read = ap k.parse_ip plain ∙ parsed in
    rw (check_url, check_literal, read, private) (check_port-decimal port bound)

validate-parsed :
    (k : Codec) (origin : Text) (u : OriginUrl)
    → k.parse_url origin ≡ some u
    → check_url k u ≡ none
    → validate_private_https_origin k origin ≡ none
unfolding validate_private_https_origin
validate-parsed k origin u e fine = rw (validate_private_https_origin, e) fine

pub decode-checks :
    (k : Codec) (raw : Text) (p : PairingPayload)
    → k.unmarshal raw ≡ some p
    → is_version p.version ≡ true
    → validate_private_https_origin k p.origin ≡ none
    → decode_pairing_payload k raw ≡ check_fingerprint p
unfolding decode_pairing_payload
decode-checks k raw p e v o = rw (decode_pairing_payload, e, v, o) refl

-- The payload that is built for a private address, a port and a fingerprint is accepted as it is,
-- if encoding/json reads back what it wrote, net/url splits the origin into the address and the
-- port, and the address itself has no brackets.
pub decode_pairing_payload-build :
    (k : Codec) (address : Text) (port : ℕ) (f : List ℕ) (ip : Ip) (family : Family)
    → IsFingerprint f
    → k.parse_ip address ≡ some ip
    → classify ip ≡ some family
    → port ≤ 65_535
    → trim_prefix (trim_suffix address) ≡ address
    → k.parse_url (build_origin k address (pos port)) ≡ some (url_of address port)
    → (k.unmarshal (k.marshal (build_pairing_payload (build_origin k address (pos port)) f))
        ≡ some (build_pairing_payload (build_origin k address (pos port)) f))
    → decode_pairing_payload k
        (encode k (build_pairing_payload (build_origin k address (pos port)) f))
      ≡ accepted (build_pairing_payload (build_origin k address (pos port)) f)
unfolding encode build_pairing_payload
decode_pairing_payload-build k address port f ip family h parsed private bound plain split written =
    let fine = check_url-url_of k address port ip family parsed private plain bound in
    let origin = build_origin k address (pos port) in
    decode-checks k (k.marshal (build_pairing_payload origin f)) (build_pairing_payload origin f)
      written refl (validate-parsed k origin (url_of address port) split fine)
    ∙ check_fingerprint-build origin f h
