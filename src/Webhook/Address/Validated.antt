-- ===== src/Webhook/Address/Validated.antt =====
-- When ValidateWebhookURL has no error (internal/webhook/validate.go).
use muesli.Base.{
  ◌≡◌, refl, subst, ◌∙◌, true, false, not, ◌&&◌, Option, none, some, List, [], ◌∷◌, inl, inr, ◌⊎◌,
  ◌↔◌, ◌≢◌, Bool-cases, Option-cases, arith, All, if◌then◌else◌,
}
use muesli.Base.Text.{Text, text_eq, text_eq_iff, codes, is_empty}
use muesli.Base.Ip.{Ip}
use muesli.Webhook.Address.{
  Net, Url, is_private_ip, check_addresses, check_host, validate_webhook_url, UrlError, bad_scheme,
  has_credentials, no_host,
}
use muesli.Webhook.Address.Dials.{Parses}

check_addresses-IsPublic :
    (n : Net) (addr : Text) (addrs : List Text)
    → (check_addresses n (addr ∷ addrs) ≡ none) ↔ (Parses n addr × (check_addresses n addrs ≡ none))
unfolding check_addresses
check_addresses-IsPublic n addr addrs = elim (Option-cases (n.parse_ip addr)) [
  | inl p ↦ rw (check_addresses, p) (λ h. cc, λ h. let q = h.0.1 in cc)
  | inr (ip, p) ↦ elim (Bool-cases (is_private_ip ip)) [
    | inl q ↦ rw (check_addresses, p, q) ((λ h. cc), (λ h. absurd (other ip q h.0.0 h.0.1 h.0.2)))
    | inr q ↦ rw (check_addresses, p, q) ((λ h. ((ip, refl, q), h)), (λ h. h.1))
  ]
]
  where
    other :
        (ip : Ip)
        → is_private_ip ip ≡ true
        → (ip' : Ip) → ◌≡◌ {A = Option Ip} (some ip) (some ip')
        → is_private_ip ip' ≡ false
        → ⊥
    other ip q ip' e q' = let same : ip ≡ ip' = cc in cc

check_addresses-none_iff :
    (n : Net) (addrs : List Text) → (check_addresses n addrs ≡ none) ↔ All (Parses n) addrs
unfolding check_addresses
check_addresses-none_iff n [] = (λ h. tt, λ h. refl)
check_addresses-none_iff n (a ∷ rest) =
    let first = check_addresses-IsPublic n a rest in
    let later = check_addresses-none_iff n rest in
    ((λ h. let (p, q) = first.0 h in (p, later.0 q)), (λ h. first.1 (h.0, later.1 h.1)))

-- The host resolves, to addresses that all parse and are public.
abbrev pub ResolvesPublic : Net → Text → Type 0
ResolvesPublic n hostname =
    (addrs : List Text) × (n.lookup_host hostname ≡ some addrs)
    × (addrs ≢ [])
    × All (Parses n) addrs

check_host-none_iff :
    (n : Net) (hostname : Text) → (check_host n hostname ≡ none) ↔ ResolvesPublic n hostname
unfolding check_host
check_host-none_iff n hostname = elim (Option-cases (n.lookup_host hostname)) [
  | inl l ↦ rw (check_host, l) ((λ h. cc), (λ h. let q = h.1 in cc))
  | inr ([], l) ↦ rw (check_host, l) ((λ h. cc), (λ h. absurd (h.2 (let q = h.1 in cc))))
  | inr (a ∷ rest, l) ↦
      let all = check_addresses-none_iff n (a ∷ rest) in
      rw (check_host, l)
        (
          (λ h. (a ∷ rest, refl, (λ e. cc), all.0 h)),
          (λ h.
              let same : h.0 ≡ a ∷ rest = (let q = h.1 in cc) in
              all.1 (subst (All (Parses n)) same h.3)),
        )
]

-- What ValidateWebhookURL asks of a URL.
abbrev pub IsAllowed : Net → Url → Type 0
IsAllowed n u =
    ((u.scheme ≡ codes "http") ⊎ (u.scheme ≡ codes "https"))
    × (u.has_user ≡ false)
    × (u.host ≢ [])
    × ResolvesPublic n u.hostname

is_empty_iff : (s : Text) → (is_empty s ≡ false) ↔ (s ≢ [])
is_empty_iff [] = (λ h. cc, λ h. absurd (h refl))
is_empty_iff (c ∷ s) = (λ h e. cc, λ h. refl)

module _ (n : Net) (u : Url) where
  checked : Option UrlError
  checked =
      if not (text_eq u.scheme (codes "http")) && not (text_eq u.scheme (codes "https"))
      then some bad_scheme
      else if u.has_user
      then some has_credentials
      else if is_empty u.host
      then some no_host
      else check_host n u.hostname

  checked-none_iff : (checked ≡ none) ↔ IsAllowed n u
  unfolding checked
  checked-none_iff = ground (
    arith,
    check_host-none_iff n u.hostname,
    text_eq_iff u.scheme (codes "http"),
    text_eq_iff u.scheme (codes "https"),
    is_empty_iff u.host,
  )

-- The check of a webhook's URL has no error exactly when the URL parses, its scheme is http or
-- https, it has no credentials and a host, and the host resolves to addresses that are all public.
pub validate_webhook_url-none_iff :
    (n : Net) (raw : Text)
    → (validate_webhook_url n raw ≡ none) ↔ ((u : Url) × (n.parse_url raw ≡ some u) × IsAllowed n u)
unfolding validate_webhook_url checked
validate_webhook_url-none_iff n raw = elim (Option-cases (n.parse_url raw)) [
  | inl p ↦ rw (validate_webhook_url, p) ((λ h. cc), (λ h. let q = h.1 in cc))
  | inr (u, p) ↦
      let same : (v : Url) → n.parse_url raw ≡ some v → v ≡ u = (λ v q. cc) in
      let all = checked-none_iff n u in
      rw (validate_webhook_url, p)
        ((λ h. (u, refl, all.0 h)), (λ h. all.1 (subst (IsAllowed n) (same h.0 (p ∙ h.1)) h.2)))
]
