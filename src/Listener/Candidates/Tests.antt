-- ===== src/Listener/Candidates/Tests.antt =====
-- Runs of the candidates: internal/iosaccess/network_candidates.go.
use muesli.Base.{◌≡◌, ◌↔◌, refl, Option, none, some, List, [], ◌∷◌, if◌then◌else◌}
use muesli.Base.Text.{Text, text_eq, codes}
use muesli.Base.Ip.{
  Ip, to4, is_loopback, is_unspecified, is_link_local_unicast, is_link_local_multicast,
}
use muesli.Listener.{ipv4, ipv6, InterfaceAddressPair}
use muesli.Listener.Candidates.{
  RawInterface, cut_at, parse_address, is_rfc1918, is_ula, classify, candidate, candidates_of,
  eligible_pairs, evaluate,
}
use muesli.Listener.Candidates.Eligible.{Mem, IsOffered, eligible_pairs-IsOffered}

-- 192.168.1.20, 169.254.3.4, fd00::1 and fe80::1.
abbrev parse : Text → Option Ip
parse raw =
    if text_eq raw (codes "L")
    then some (192 ∷ 168 ∷ 1 ∷ 20 ∷ [])
    else if text_eq raw (codes "A")
    then some (169 ∷ 254 ∷ 3 ∷ 4 ∷ [])
    else if text_eq raw (codes "U")
    then some (253 ∷ 0 ∷ 0 ∷ 0 ∷ 0 ∷ 0 ∷ 0 ∷ 0 ∷ 0 ∷ 0 ∷ 0 ∷ 0 ∷ 0 ∷ 0 ∷ 0 ∷ 1 ∷ [])
    else if text_eq raw (codes "Z")
    then some (254 ∷ 128 ∷ 0 ∷ 0 ∷ 0 ∷ 0 ∷ 0 ∷ 0 ∷ 0 ∷ 0 ∷ 0 ∷ 0 ∷ 0 ∷ 0 ∷ 0 ∷ 1 ∷ [])
    else none

abbrev print : Ip → Text
print ip = ip

abbrev interfaces : List RawInterface
interfaces =
    record { name = codes "en0"; addresses = codes "L/24" ∷ codes "Z%en0" ∷ codes "U/64" ∷ [] }
    ∷ record { name = codes "en1"; addresses = codes "A/16" ∷ codes "?" ∷ [] }
    ∷ []

abbrev local : InterfaceAddressPair
local = record { interface_name = codes "en0"; address = 192 ∷ 168 ∷ 1 ∷ 20 ∷ []; family = ipv4 }

abbrev unique : InterfaceAddressPair
unique = record {
  interface_name = codes "en0";
  address = 253 ∷ 0 ∷ 0 ∷ 0 ∷ 0 ∷ 0 ∷ 0 ∷ 0 ∷ 0 ∷ 0 ∷ 0 ∷ 0 ∷ 0 ∷ 0 ∷ 0 ∷ 1 ∷ [];
  family = ipv6;
}

offers_two : eligible_pairs parse print interfaces ≡ local ∷ unique ∷ []
unfolding eligible_pairs candidates_of candidate parse_address cut_at classify is_rfc1918 is_ula
    is_loopback is_unspecified is_link_local_unicast is_link_local_multicast to4
offers_two = refl

asks_for_a_choice : (evaluate (local ∷ unique ∷ [])).auto_selected ≡ none
unfolding evaluate
asks_for_a_choice = refl

selects_the_only_one : (evaluate (local ∷ [])).auto_selected ≡ some local
unfolding evaluate
selects_the_only_one = refl

eligible_pairs-IsOffered_example :
    Mem local (eligible_pairs parse print interfaces) ↔ IsOffered parse print interfaces local
eligible_pairs-IsOffered_example = eligible_pairs-IsOffered parse print interfaces local
