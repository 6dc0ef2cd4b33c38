-- ===== src/Listener/Candidates.antt =====
-- The addresses that the private listener may bind: internal/iosaccess/network_candidates.go.
--
-- net.ParseIP and IP.String are parameters; the methods of net.IP are those of Base.Ip.
pub mod Eligible
mod Tests
use muesli.Base.{
  ℕ, ◌/◌, Bool, true, false, ◌&&◌, ◌||◌, Option, none, some, List, [], ◌∷◌, ◌++◌, length, leb, ◌==◌,
  if◌then◌else◌,
}
use muesli.Base.Text.{Text}
use muesli.Base.Ip.{
  Ip, Ip4, to4, is_loopback, is_unspecified, is_link_local_unicast, is_link_local_multicast,
}
use muesli.Listener.{Family, ipv4, ipv6, InterfaceAddressPair}

pub record RawInterface : Type 0 where
  pub name : Text
  pub addresses : List Text

-- raw[:i] up to the first byte `c`, or the whole of it.
pub cut_at : ℕ → Text → Text
cut_at c [] = []
cut_at c (x ∷ s) = let rest = cut_at c s in if x == c then [] else x ∷ rest

-- Without a zone (37 is %) and a prefix length (47 is /).
pub parse_address : (Text → Option Ip) → Text → Option Ip
parse_address parse_ip raw = parse_ip (cut_at 47 (cut_at 37 raw))

unfoldable pub is_rfc1918 : Ip4 → Bool
is_rfc1918 v4 =
    if v4.a == 10
    then true
    else if (v4.a == 172) && (leb 16 v4.b && leb v4.b 31)
    then true
    else (v4.a == 192) && (v4.b == 168)

-- v6[0]&0xFE == 0xFC, where To16 leaves the sixteen bytes as they are.
unfoldable pub is_ula : Ip → Bool
is_ula ip = elim (to4 ip) [
  | some x ↦ false
  | none ↦ elim ip [ [] ↦ false | a ∷ rest ↦ (length rest == 15) && (a / 2 == 126) ]
]

unfoldable pub classify : Ip → Option Family
classify ip =
    if is_loopback ip || is_unspecified ip || is_link_local_unicast ip || is_link_local_multicast ip
    then none
    else elim (to4 ip) [
      | some v4 ↦ if is_rfc1918 v4 then some ipv4 else none
      | none ↦ if is_ula ip then some ipv6 else none
    ]

-- One address of an interface: its pair, if it is eligible.
pub candidate : (Text → Option Ip) → (Ip → Text) → Text → Text → Option InterfaceAddressPair
candidate parse_ip to_string name raw = elim (parse_address parse_ip raw) [
  | none ↦ none
  | some ip ↦ elim (classify ip) [
    | none ↦ none
    | some family ↦ some (record { interface_name = name; address = to_string ip; family = family })
  ]
]

pub candidates_of : (Text → Option Ip) → (Ip → Text) → Text → List Text → List InterfaceAddressPair
candidates_of parse_ip to_string name [] = []
candidates_of parse_ip to_string name (raw ∷ addresses) =
    let rest = candidates_of parse_ip to_string name addresses in
    elim (candidate parse_ip to_string name raw) [ none ↦ rest | some p ↦ p ∷ rest ]

pub eligible_pairs :
    (Text → Option Ip) → (Ip → Text) → List RawInterface → List InterfaceAddressPair
eligible_pairs parse_ip to_string [] = []
eligible_pairs parse_ip to_string (i ∷ interfaces) =
    candidates_of parse_ip to_string i.name i.addresses
    ++ eligible_pairs parse_ip to_string interfaces

pub record SelectionOutcome : Type 0 where
  pub candidates : List InterfaceAddressPair
  pub auto_selected : Option InterfaceAddressPair

pub evaluate : List InterfaceAddressPair → SelectionOutcome
evaluate (c ∷ []) = record { candidates = c ∷ []; auto_selected = some c }
evaluate candidates = record { candidates = candidates; auto_selected = none }
