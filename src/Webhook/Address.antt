-- ===== src/Webhook/Address.antt =====
-- The address guard: internal/webhook/validate.go, webhook.go, and the dialer of deliver.go.
--
-- The methods of net.IP are those of Base.Ip. net.ParseIP, url.Parse, net.SplitHostPort and the
-- resolver are parameters; the texts of the errors are left out.
pub mod Ranges
pub mod Dials
pub mod Validated
mod Tests
use muesli.Base.{
  ℕ, suc, ◌/◌, ◌%◌, Bool, true, false, not, ◌&&◌, ◌||◌, Option, none, some, List, [], ◌∷◌, ◌++◌,
  length, ◌==◌, if◌then◌else◌,
}
use muesli.Base.Ip.{
  Ip, is_loopback, is_private, is_link_local_unicast, is_link_local_multicast, is_unspecified,
  is_multicast,
}
use muesli.Base.Text.{Text, text_eq, codes, is_empty}

pub is_private_ip : Ip → Bool
is_private_ip ip =
    is_loopback ip
    || is_private ip
    || is_link_local_unicast ip
    || is_link_local_multicast ip
    || is_unspecified ip
    || is_multicast ip

pub data IpError : Type 0 where
  loopback private link_local link_local_multicast unspecified multicast : IpError

pub validate_ip : Ip → Option IpError
validate_ip ip =
    if is_loopback ip
    then some loopback
    else if is_private ip
    then some private
    else if is_link_local_unicast ip
    then some link_local
    else if is_link_local_multicast ip
    then some link_local_multicast
    else if is_unspecified ip
    then some unspecified
    else if is_multicast ip
    then some multicast
    else none

-- What the code reads of a url.URL.
pub record Url : Type 0 where
  pub scheme : Text
  pub has_user : Bool
  pub host : Text
  pub hostname : Text

pub record Net : Type 0 where
  pub parse_url : Text → Option Url
  pub lookup_host : Text → Option (List Text)
  pub parse_ip : Text → Option Ip
  pub split_host_port : Text → Option (Text × Text)

pub data UrlError : Type 0 where
  invalid_url bad_scheme has_credentials no_host lookup_failed no_addresses : UrlError
  non_ip_address private_address : Text → UrlError

pub check_addresses : Net → List Text → Option UrlError
check_addresses n [] = none
check_addresses n (addr ∷ addrs) = elim (n.parse_ip addr) [
  | none ↦ some (non_ip_address addr)
  | some ip ↦ if is_private_ip ip then some (private_address addr) else check_addresses n addrs
]

pub check_host : Net → Text → Option UrlError
check_host n hostname = elim (n.lookup_host hostname) [
  | none ↦ some lookup_failed
  | some [] ↦ some no_addresses
  | some (addr ∷ addrs) ↦ check_addresses n (addr ∷ addrs)
]

pub validate_webhook_url : Net → Text → Option UrlError
validate_webhook_url n raw = elim (n.parse_url raw) [
  | none ↦ some invalid_url
  | some u ↦
      if not (text_eq u.scheme (codes "http")) && not (text_eq u.scheme (codes "https"))
      then some bad_scheme
      else if u.has_user
      then some has_credentials
      else if is_empty u.host
      then some no_host
      else check_host n u.hostname
]

pub data DialError : Type 0 where
  bad_address dns_failed dns_empty no_safe_ip : DialError
  resolved_private : Text → DialError

pub data Dial : Type 0 where
  dials : Text → Text → Dial
  refuses : DialError → Dial

-- The loop over the resolved addresses: `safe` is safeIP, whose empty text is `none`.
pub choose_ip : Net → Option Text → List Text → Option DialError × Option Text
choose_ip n safe [] = (none, safe)
choose_ip n safe (raw ∷ ips) = elim (n.parse_ip raw) [
  | none ↦ choose_ip n safe ips
  | some ip ↦
      if is_private_ip ip
      then (some (resolved_private raw), safe)
      else elim safe [ none ↦ choose_ip n (some raw) ips | some s ↦ choose_ip n (some s) ips ]
]

pub dial_chosen : Text → Option DialError × Option Text → Dial
dial_chosen port (some e, safe) = refuses e
dial_chosen port (none, none) = refuses no_safe_ip
dial_chosen port (none, some ip) = dials ip port

-- DialContext: the address that it connects to, or why it does not.
pub dial_context : Net → Text → Dial
dial_context n addr = elim (n.split_host_port addr) [
  | none ↦ refuses bad_address
  | some (host, port) ↦ elim (n.lookup_host host) [
    | none ↦ refuses dns_failed
    | some [] ↦ refuses dns_empty
    | some (ip ∷ ips) ↦ dial_chosen port (choose_ip n none (ip ∷ ips))
  ]
]
