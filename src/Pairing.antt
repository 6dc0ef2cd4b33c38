-- ===== src/Pairing.antt =====
-- The payload that pairs a phone with the desktop: internal/iosaccess/pairing.go.
--
-- net/url, net.ParseIP and encoding/json are parameters; base32, %x and strconv.Atoi are written out.
pub mod Phrase
pub mod Accepted
pub mod Trusted
mod Tests
use muesli.Base.{
  ℕ, zero, suc, ◌+◌, ◌*◌, ◌-◌, ◌/◌, ◌%◌, ◌^◌, Bool, true, false, ◌&&◌, ◌||◌, not, Option, none,
  some, List, [], ◌∷◌, ◌++◌, length, take, drop, leb, ltb, ◌==◌, if◌then◌else◌,
}
use muesli.Base.Int.{ℤ, pos, negsuc}
use muesli.Base.Text.{Text, codes, decimal, is_empty, text_eq}
use muesli.Base.Ip.{Ip, to4}
use muesli.Execution.Admission.{byte_length}
use muesli.Listener.Candidates.{classify}

abbrev pub pairing_payload_version : ℤ
pairing_payload_version = pos 1

pub record PairingPayload : Type 0 where
  pub version : ℤ
  pub origin : Text
  pub spki_sha256 : Text
  pub phrase : Text

-- What the code reads of a url.URL.
pub record OriginUrl : Type 0 where
  pub scheme : Text
  pub path : Text
  pub raw_query : Text
  pub fragment : Text
  pub has_user : Bool
  pub hostname : Text
  pub port : Text

pub record Codec : Type 0 where
  pub marshal : PairingPayload → Text
  pub unmarshal : Text → Option PairingPayload
  pub parse_url : Text → Option OriginUrl
  pub parse_ip : Text → Option Ip

-- %d.
abbrev pub print_int : ℤ → Text
print_int (pos n) = decimal n
print_int (negsuc n) = codes "-" ++ decimal (n + 1)

-- An address other than IPv4 stands in brackets.
pub origin_host : Codec → Text → Text
origin_host k address = elim (k.parse_ip address) [
  | none ↦ address
  | some ip ↦ elim (to4 ip) [ some x ↦ address | none ↦ codes "[" ++ address ++ codes "]" ]
]

pub build_origin : Codec → Text → ℤ → Text
build_origin k address port =
    codes "https://" ++ origin_host k address ++ codes ":" ++ print_int port

-- The alphabet A to Z, 2 to 7.
abbrev pub base32_char : ℕ → ℕ
base32_char v = if ltb v 26 then 65 + v else 24 + v

-- base32.StdEncoding on whole groups of five bytes, the only ones that the code encodes.
pub base32_groups : List ℕ → Text
base32_groups (a ∷ b ∷ c ∷ d ∷ e ∷ rest) =
    base32_char (a / 8)
    ∷ base32_char (a % 8 * 4 + b / 64)
    ∷ base32_char (b / 2 % 32)
    ∷ base32_char (b % 2 * 16 + c / 16)
    ∷ base32_char (c % 16 * 2 + d / 128)
    ∷ base32_char (d / 4 % 32)
    ∷ base32_char (d % 4 * 8 + e / 32)
    ∷ base32_char (e % 32)
    ∷ base32_groups rest
base32_groups _ = []

-- strings.ToUpper on ASCII.
abbrev pub upper : ℕ → ℕ
upper c = if leb 97 c && leb c 122 then c - 32 else c

abbrev pub to_upper : Text → Text
to_upper [] = []
to_upper (c ∷ s) = upper c ∷ to_upper s

-- Two groups of four letters; a shorter text stays as it is.
pub grouped : Text → Text
grouped enc = if ltb (length enc) 8 then enc else take 4 enc ++ codes "-" ++ take 4 (drop 4 enc)

pub verification_phrase : List ℕ → Text
verification_phrase fingerprint = grouped (to_upper (base32_groups (take 5 fingerprint)))

-- A hexadecimal digit in lower case.
abbrev pub hex_char : ℕ → ℕ
hex_char v = if ltb v 10 then 48 + v else 87 + v

-- %x.
pub print_hex : List ℕ → Text
print_hex [] = []
print_hex (b ∷ bytes) = hex_char (b / 16) ∷ hex_char (b % 16) ∷ print_hex bytes

pub build_pairing_payload : Text → List ℕ → PairingPayload
build_pairing_payload origin fingerprint = record {
  version = pairing_payload_version;
  origin = origin;
  spki_sha256 = print_hex fingerprint;
  phrase = verification_phrase fingerprint;
}

pub encode : Codec → PairingPayload → Text
encode k p = k.marshal p

abbrev pub is_digit : ℕ → Bool
is_digit c = leb 48 c && leb c 57

abbrev pub are_digits : Text → Bool
are_digits [] = true
are_digits (c ∷ s) = is_digit c && are_digits s

pub value : ℕ → Text → ℕ
value acc [] = acc
value acc (c ∷ s) = value (acc * 10 + (c - 48)) s

-- Whether a number of at most `limit` stands here.
pub is_number : ℕ → Text → Bool
is_number limit s = not (is_empty s) && (are_digits s && leb (value 0 s) limit)

-- Whether strconv.Atoi accepts the text: a sign (43 is +, 45 is -) and digits, within int64.
pub is_int : Text → Bool
is_int [] = false
is_int (c ∷ s) =
    if c == 45
    then is_number (2 ^ 63) s
    else if c == 43
    then is_number (2 ^ 63 - 1) s
    else is_number (2 ^ 63 - 1) (c ∷ s)

-- Without a final ].
pub trim_suffix : Text → Text
trim_suffix [] = []
trim_suffix (c ∷ []) = if c == 93 then [] else c ∷ []
trim_suffix (c ∷ d ∷ s) = c ∷ trim_suffix (d ∷ s)

-- Without a leading [.
pub trim_prefix : Text → Text
trim_prefix [] = []
trim_prefix (c ∷ s) = if c == 91 then s else c ∷ s

pub data PairingError : Type 0 where
  malformed : PairingError
  unsupported_version : ℤ → PairingError
  invalid_origin : PairingError
  not_https : PairingError
  has_path : PairingError
  has_query : PairingError
  has_credentials : PairingError
  not_literal : PairingError
  not_private : PairingError
  no_port : PairingError
  invalid_port : PairingError
  fingerprint_length : PairingError
  fingerprint_encoding : PairingError
  missing_phrase : PairingError

pub check_port : Text → Option PairingError
check_port port =
    if is_empty port then some no_port else if is_int port then none else some invalid_port

pub check_literal : Codec → OriginUrl → Option PairingError
check_literal k u = elim (k.parse_ip (trim_prefix (trim_suffix u.hostname))) [
  | none ↦ some not_literal
  | some ip ↦ elim (classify ip) [ none ↦ some not_private | some f ↦ check_port u.port ]
]

pub check_url : Codec → OriginUrl → Option PairingError
check_url k u =
    if not (text_eq u.scheme (codes "https"))
    then some not_https
    else if not (is_empty u.path) && not (text_eq u.path (codes "/"))
    then some has_path
    else if not (is_empty u.raw_query) || not (is_empty u.fragment)
    then some has_query
    else if u.has_user
    then some has_credentials
    else check_literal k u

pub validate_private_https_origin : Codec → Text → Option PairingError
validate_private_https_origin k origin = elim (k.parse_url origin) [
  | none ↦ some invalid_origin
  | some u ↦ check_url k u
]

abbrev pub is_hex_digit : ℕ → Bool
is_hex_digit c = is_digit c || (leb 97 c && leb c 102) || (leb 65 c && leb c 70)

abbrev pub are_hex_digits : Text → Bool
are_hex_digits [] = true
are_hex_digits (c ∷ s) = is_hex_digit c && are_hex_digits s

pub data Decoded : Type 0 where
  refused : PairingError → Decoded
  accepted : PairingPayload → Decoded

pub check_fingerprint : PairingPayload → Decoded
check_fingerprint p =
    if not (byte_length p.spki_sha256 == 64)
    then refused fingerprint_length
    else if not (are_hex_digits p.spki_sha256)
    then refused fingerprint_encoding
    else if is_empty p.phrase
    then refused missing_phrase
    else accepted p

abbrev pub is_version : ℤ → Bool
is_version (pos n) = n == 1
is_version (negsuc n) = false

pub decode_pairing_payload : Codec → Text → Decoded
decode_pairing_payload k raw = elim (k.unmarshal raw) [
  | none ↦ refused malformed
  | some p ↦
      if not (is_version p.version)
      then refused (unsupported_version p.version)
      else elim (validate_private_https_origin k p.origin) [
        | some e ↦ refused e
        | none ↦ check_fingerprint p
      ]
]
