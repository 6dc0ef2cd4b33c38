-- ===== src/Webhook/Address/Tests.antt =====
-- Runs of the address guard: internal/webhook/validate.go and the dialer of deliver.go.
use muesli.Base.{
  ◌≡◌, ◌↔◌, inl, refl, true, false, Option, none, some, List, [], ◌∷◌, All, arith, if◌then◌else◌,
}
use muesli.Base.Text.{Text, text_eq, codes}
use muesli.Base.Ip.{
  Ip, is_loopback, is_private, is_link_local_unicast, is_link_local_multicast, is_unspecified,
  is_multicast, to4,
}
use muesli.Webhook.Address.{
  Net, Url, is_private_ip, dial_context, dials, refuses, resolved_private, validate_webhook_url,
  private_address, choose_ip, dial_chosen, check_addresses, check_host, no_safe_ip,
}
use muesli.Webhook.Address.Ranges.{IsListed, is_private_ip_ranges}
use muesli.Webhook.Address.Dials.{IsPublic, Mem, Parses, dial_context-IsPublic}

-- 93.184.216.34 is public, 10.0.0.7 is not.
abbrev public_text : Text
public_text = codes "P"

abbrev private_text : Text
private_text = codes "Q"

abbrev parse : Text → Option Ip
parse raw =
    if text_eq raw (codes "P")
    then some (93 ∷ 184 ∷ 216 ∷ 34 ∷ [])
    else if text_eq raw (codes "Q")
    then some (10 ∷ 0 ∷ 0 ∷ 7 ∷ [])
    else none

abbrev url : Url
url = record {
  scheme = codes "https";
  has_user = false;
  host = codes "h:443";
  hostname = codes "h";
}

-- A resolver that returns the addresses given for every host.
abbrev net : List Text → Net
net addrs = record {
  parse_url = λ raw. some url;
  lookup_host = λ host. some addrs;
  parse_ip = parse;
  split_host_port = λ addr. some (codes "h", codes "443");
}

dial_public :
    dial_context (net (codes "?" ∷ public_text ∷ [])) (codes "h:443")
    ≡ dials public_text (codes "443")
unfolding dial_context dial_chosen choose_ip is_private_ip is_loopback is_private
    is_link_local_unicast is_link_local_multicast is_unspecified is_multicast to4
dial_public = refl

dial_rebound :
    dial_context (net (public_text ∷ private_text ∷ [])) (codes "h:443")
    ≡ refuses (resolved_private private_text)
unfolding dial_context dial_chosen choose_ip is_private_ip is_loopback is_private
    is_link_local_unicast is_link_local_multicast is_unspecified is_multicast to4
dial_rebound = refl

dial_unparsed : dial_context (net (codes "?" ∷ [])) (codes "h:443") ≡ refuses no_safe_ip
unfolding dial_context dial_chosen choose_ip
dial_unparsed = refl

-- ::ffff:10.0.0.7 is judged as 10.0.0.7; the shared range 100.64.0.0/10 passes.
mapped_address :
    is_private_ip (0 ∷ 0 ∷ 0 ∷ 0 ∷ 0 ∷ 0 ∷ 0 ∷ 0 ∷ 0 ∷ 0 ∷ 255 ∷ 255 ∷ 10 ∷ 0 ∷ 0 ∷ 7 ∷ []) ≡ true
unfolding is_private_ip is_loopback is_private is_link_local_unicast is_link_local_multicast
    is_unspecified is_multicast to4
mapped_address = refl

shared_address : is_private_ip (100 ∷ 64 ∷ 0 ∷ 1 ∷ []) ≡ false
unfolding is_private_ip is_loopback is_private is_link_local_unicast is_link_local_multicast
    is_unspecified is_multicast to4
shared_address = refl

validate_private :
    validate_webhook_url (net (public_text ∷ private_text ∷ [])) (codes "https://h")
    ≡ some (private_address private_text)
unfolding validate_webhook_url check_host check_addresses is_private_ip is_loopback is_private
    is_link_local_unicast is_link_local_multicast is_unspecified is_multicast to4
validate_private = refl

is_private_ip_ranges_example :
    (is_private_ip (172 ∷ 20 ∷ 0 ∷ 1 ∷ []) ≡ true) ↔ IsListed (172 ∷ 20 ∷ 0 ∷ 1 ∷ [])
is_private_ip_ranges_example =
    is_private_ip_ranges (172 ∷ 20 ∷ 0 ∷ 1 ∷ [])
      (omega arith, (omega arith, (omega arith, (omega arith, tt)))) (inl refl)

dial_context-IsPublic_example :
    (host : Text) × (ips : List Text) × ((net (codes "?" ∷ public_text ∷ [])).split_host_port
        (codes "h:443")
      ≡ some (host, codes "443"))
    × ((net (codes "?" ∷ public_text ∷ [])).lookup_host host ≡ some ips)
    × All (IsPublic (net (codes "?" ∷ public_text ∷ []))) ips
    × Mem public_text ips
    × Parses (net (codes "?" ∷ public_text ∷ [])) public_text
dial_context-IsPublic_example =
    dial_context-IsPublic (net (codes "?" ∷ public_text ∷ [])) (codes "h:443") dial_public
