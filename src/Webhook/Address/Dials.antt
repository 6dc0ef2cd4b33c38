-- ===== src/Webhook/Address/Dials.antt =====
-- Where the guarded dialer connects (internal/webhook/deliver.go), and the two checks of an address
-- (internal/webhook/webhook.go, validate.go).
use muesli.Base.{
  ◌≡◌, refl, sym, subst, ◌∙◌, true, false, Option, none, some, List, [], ◌∷◌, inl, inr, ◌⊎◌, ◌↔◌,
  Bool-cases, Option-cases, arith, All,
}
use muesli.Base.Text.{Text}
use muesli.Base.Ip.{Ip}
use muesli.Webhook.Address.{
  Net, is_private_ip, validate_ip, choose_ip, dial_chosen, dial_context, dials, refuses,
  bad_address, dns_failed, dns_empty, DialError, resolved_private,
}

-- The two checks of an address agree: ValidateIP has no error exactly where IsPrivateIP is false.
pub validate_ip-none_iff : (ip : Ip) → (validate_ip ip ≡ none) ↔ (is_private_ip ip ≡ false)
unfolding validate_ip is_private_ip
validate_ip-none_iff ip = ground arith

-- A resolved text that is an address is a public one.
abbrev pub IsPublic : Net → Text → Type 0
IsPublic n raw = (ip : Ip) → n.parse_ip raw ≡ some ip → is_private_ip ip ≡ false

abbrev pub Parses : Net → Text → Type 0
Parses n raw = (ip : Ip) × (n.parse_ip raw ≡ some ip) × (is_private_ip ip ≡ false)

-- A text of the list.
abbrev pub Mem : Text → List Text → Type 0
Mem x [] = ⊥
Mem x (y ∷ ys) = (x ≡ y) ⊎ Mem x ys

-- What the loop leaves in safeIP: what it held, or else one of the addresses read.
abbrev IsChosen : Net → Option Text → List Text → Option Text → Type 0
IsChosen n (some s) ips chosen = chosen ≡ some s
IsChosen n none ips chosen =
    (chosen ≡ none) ⊎ ((ip : Text) × (chosen ≡ some ip) × Mem ip ips × Parses n ip)

module _ (n : Net) (raw : Text) (ips : List Text) where
  choose_ip_skip :
      (safe : Option Text)
      → n.parse_ip raw ≡ none
      → choose_ip n safe (raw ∷ ips) ≡ choose_ip n safe ips
  unfolding choose_ip
  choose_ip_skip safe p = rw (choose_ip, p) refl

  choose_ip_private :
      (safe : Option Text) {ip : Ip}
      → n.parse_ip raw ≡ some ip
      → is_private_ip ip ≡ true
      → choose_ip n safe (raw ∷ ips) ≡ (some (resolved_private raw), safe)
  unfolding choose_ip
  choose_ip_private safe p q = rw (choose_ip, p, q) refl

  choose_ip_first :
      {ip : Ip}
      → n.parse_ip raw ≡ some ip
      → is_private_ip ip ≡ false
      → choose_ip n none (raw ∷ ips) ≡ choose_ip n (some raw) ips
  unfolding choose_ip
  choose_ip_first p q = rw (choose_ip, p, q) refl

  choose_ip_later :
      (s : Text) {ip : Ip}
      → n.parse_ip raw ≡ some ip
      → is_private_ip ip ≡ false
      → choose_ip n (some s) (raw ∷ ips) ≡ choose_ip n (some s) ips
  unfolding choose_ip
  choose_ip_later s p q = rw (choose_ip, p, q) refl

-- A loop that ends without an error has found every address public.
choose_ip-IsPublic :
    (n : Net) (safe : Option Text) (ips : List Text) {chosen : Option Text}
    → choose_ip n safe ips ≡ (none, chosen)
    → All (IsPublic n) ips × IsChosen n safe ips chosen
unfolding choose_ip
choose_ip-IsPublic n none [] e = (tt, inl cc)
choose_ip-IsPublic n (some s) [] e = (tt, cc)
choose_ip-IsPublic n safe (raw ∷ ips) {chosen} e = elim (Option-cases (n.parse_ip raw)) [
  | inl p ↦
      let rest = choose_ip-IsPublic n safe ips (sym (choose_ip_skip n raw ips safe p) ∙ e) in
      ((λ ip q. cc, rest.0), widen safe rest.1)
  | inr (ip, p) ↦ elim (Bool-cases (is_private_ip ip)) [
    | inl q ↦ absurd (private ip p q)
    | inr q ↦ public (λ s. choose_ip-IsPublic n s ips) safe ip p q e
  ]
]
  where
    widen : (safe : Option Text) → IsChosen n safe ips chosen → IsChosen n safe (raw ∷ ips) chosen
    widen none (inl h) = inl h
    widen none (inr (ip, h, m, p)) = inr (ip, h, inr m, p)
    widen (some s) h = h

    private : (ip : Ip) → n.parse_ip raw ≡ some ip → is_private_ip ip ≡ true → ⊥
    private ip p q = let h = sym (choose_ip_private n raw ips safe p q) ∙ e in cc

    here : (ip : Ip) → n.parse_ip raw ≡ some ip → is_private_ip ip ≡ false → IsPublic n raw
    here ip p q ip' p' = let same : ip ≡ ip' = cc in subst (λ x. is_private_ip x ≡ false) same q

    public :
        ((s : Option Text)
          → choose_ip n s ips ≡ (none, chosen)
          → All (IsPublic n) ips × IsChosen n s ips chosen)
        → (safe : Option Text) (ip : Ip) → n.parse_ip raw ≡ some ip
        → is_private_ip ip ≡ false
        → choose_ip n safe (raw ∷ ips) ≡ (none, chosen)
        → All (IsPublic n) (raw ∷ ips) × IsChosen n safe (raw ∷ ips) chosen
    public rest_of none ip p q h =
        let rest = rest_of (some raw) (sym (choose_ip_first n raw ips p q) ∙ h) in
        ((here ip p q, rest.0), inr (raw, rest.1, inl refl, (ip, p, q)))
    public rest_of (some s) ip p q h =
        let rest = rest_of (some s) (sym (choose_ip_later n raw ips s p q) ∙ h) in
        ((here ip p q, rest.0), rest.1)

dial_chosen-some :
    (port : Text) (r : Option DialError × Option Text) {ip port' : Text}
    → dial_chosen port r ≡ dials ip port'
    → (r ≡ (none, some ip)) × (port' ≡ port)
unfolding dial_chosen
dial_chosen-some port (some e, safe) h = cc
dial_chosen-some port (none, none) h = cc
dial_chosen-some port (none, some ip) h = (cc, cc)

module _ (n : Net) (addr : Text) where
  dial_context_no_port : n.split_host_port addr ≡ none → dial_context n addr ≡ refuses bad_address
  unfolding dial_context
  dial_context_no_port e = rw (dial_context, e) refl

  module _ {host port : Text} (e : n.split_host_port addr ≡ some (host, port)) where
    dial_context_unresolved : n.lookup_host host ≡ none → dial_context n addr ≡ refuses dns_failed
    unfolding dial_context
    dial_context_unresolved l = rw (dial_context, e, l) refl

    dial_context_empty : n.lookup_host host ≡ some [] → dial_context n addr ≡ refuses dns_empty
    unfolding dial_context
    dial_context_empty l = rw (dial_context, e, l) refl

    dial_context_resolved :
        (ip : Text) (ips : List Text)
        → n.lookup_host host ≡ some (ip ∷ ips)
        → dial_context n addr ≡ dial_chosen port (choose_ip n none (ip ∷ ips))
    unfolding dial_context
    dial_context_resolved ip ips l = rw (dial_context, e, l) refl

-- The dialer connects only to an address that the resolver has just returned for the host, that
-- parses and is public, and only if every address returned for the host that parses is public.
pub dial_context-IsPublic :
    (n : Net) (addr : Text) {ip port : Text}
    → dial_context n addr ≡ dials ip port
    → (host : Text) × (ips : List Text) × (n.split_host_port addr ≡ some (host, port))
      × (n.lookup_host host ≡ some ips)
      × All (IsPublic n) ips
      × Mem ip ips
      × Parses n ip
dial_context-IsPublic n addr {ip} {port} e = elim (Option-cases (n.split_host_port addr)) [
  | inl s ↦ absurd (let h = sym (dial_context_no_port n addr s) ∙ e in cc)
  | inr ((host, port'), s) ↦ elim (Option-cases (n.lookup_host host)) [
    | inl l ↦ absurd (let h = sym (dial_context_unresolved n addr s l) ∙ e in cc)
    | inr ([], l) ↦ absurd (let h = sym (dial_context_empty n addr s l) ∙ e in cc)
    | inr (x ∷ xs, l) ↦
        let chosen = dial_chosen-some port' _ (sym (dial_context_resolved n addr s x xs l) ∙ e) in
        let found = choose_ip-IsPublic n none (x ∷ xs) chosen.0 in
        let same : n.split_host_port addr ≡ some (host, port) = cc in
        elim found.1 [
          | inl h ↦ absurd cc
          | inr (raw, h, m, p) ↦
              let here : raw ≡ ip = cc in
              (
                host,
                x ∷ xs,
                same,
                l,
                found.0,
                subst (λ r. Mem r (x ∷ xs)) here m,
                subst (Parses n) here p,
              )
        ]
  ]
]
