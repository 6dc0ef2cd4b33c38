-- ===== src/Guard/Exclusive.antt =====
-- A key has one holder at most (internal/api/inflight_guard.go).
use muesli.Base.{
  ℕ, ◌≡◌, ◌↔◌, refl, sym, ap, subst, ◌∙◌, true, false, ◌&&◌, List, [], ◌∷◌, inl, inr, All,
  Bool-cases, if_cases, ◌==◌, arith,
}
use muesli.Base.Text.{Text, text_eq, text_eq_iff}
use muesli.Guard.{
  InFlight, loaded, try_acquire, release, Holder, Guarded, Event, acquires, releases, holds,
  drop_holder, step, run,
}

-- Holders of different keys.
abbrev pub Exclusive : List Holder → Type 0
Exclusive [] = Unit {0}
Exclusive (h ∷ hs) = All (λ (x : Holder). text_eq h.key x.key ≡ false) hs × Exclusive hs

-- The keys of holders.
abbrev pub keys : List Holder → InFlight
keys [] = []
keys (h ∷ hs) = h.key ∷ keys hs

-- The map has the keys held, each of one holder.
pub record IsGuarded (s : Guarded) : Type 0 where
  pub held : s.in_flight ≡ keys s.holders
  pub exclusive : Exclusive s.holders

text_eq_sym : (s t : Text) → text_eq s t ≡ false → text_eq t s ≡ false
text_eq_sym s t h = elim (Bool-cases (text_eq t s)) [
  | inl e ↦
      let same : s ≡ t = sym ((text_eq_iff t s).0 e) in
      absurd (let yes = (text_eq_iff s t).1 same in cc)
  | inr e ↦ e
]

loaded-Apart :
    (key : Text) (hs : List Holder)
    → loaded key (keys hs) ≡ false
    → All (λ (x : Holder). text_eq key x.key ≡ false) hs
unfolding loaded
loaded-Apart key [] h = tt
loaded-Apart key (x ∷ hs) h =
    (text_eq_sym x.key key (ground arith), loaded-Apart key hs (ground arith))

Apart-loaded :
    (key : Text) (hs : List Holder)
    → All (λ (x : Holder). text_eq key x.key ≡ false) hs
    → loaded key (keys hs) ≡ false
unfolding loaded
Apart-loaded key [] h = refl
Apart-loaded key (x ∷ hs) h = rw (text_eq_sym key x.key h.0, loaded) (Apart-loaded key hs h.1)

-- Holders of other keys than one are kept, in the map and among the holders.
release-apart :
    (key : Text) (r : ℕ) (hs : List Holder)
    → All (λ (x : Holder). text_eq key x.key ≡ false) hs
    → (release key (keys hs) ≡ keys hs) × (drop_holder r key hs ≡ hs)
unfolding release drop_holder
release-apart key r [] h = (refl, refl)
release-apart key r (x ∷ hs) h =
    let rest = release-apart key r hs h.1 in
    let other : text_eq x.key key ≡ false = text_eq_sym key x.key h.0 in
    let test : ((x.request == r) && text_eq x.key key) ≡ false = ground arith in
    (
      rw (other, release) (ap (λ ks. x.key ∷ ks) rest.0),
      rw (test, drop_holder) (ap (λ (l : List Holder). x ∷ l) rest.1),
    )

holds-apart :
    (key : Text) (r : ℕ) (hs : List Holder)
    → All (λ (x : Holder). text_eq key x.key ≡ false) hs
    → holds r key hs ≡ false
unfolding holds
holds-apart key r [] h = refl
holds-apart key r (x ∷ hs) h =
    let rest = holds-apart key r hs h.1 in let other = text_eq_sym key x.key h.0 in ground arith

drop_holder-Apart :
    (key k : Text) (r : ℕ) (hs : List Holder)
    → All (λ (x : Holder). text_eq k x.key ≡ false) hs
    → All (λ (x : Holder). text_eq k x.key ≡ false) (drop_holder r key hs)
unfolding drop_holder
drop_holder-Apart key k r [] h = tt
drop_holder-Apart key k r (x ∷ hs) h =
    if_cases (λ (l : List Holder). All (λ (y : Holder). text_eq k y.key ≡ false) l)
      ((x.request == r) && text_eq x.key key) (λ _. drop_holder-Apart key k r hs h.1)
      (λ _. (h.0, drop_holder-Apart key k r hs h.1))

release-held :
    (key : Text) (r : ℕ) (hs : List Holder)
    → Exclusive hs
    → holds r key hs ≡ true
    → (release key (keys hs) ≡ keys (drop_holder r key hs)) × Exclusive (drop_holder r key hs)
unfolding release drop_holder holds
release-held key r [] h k = absurd (cc k)
release-held key r (x ∷ hs) h k = elim (Bool-cases (text_eq x.key key)) [
  | inl e ↦
      let same : x.key ≡ key = (text_eq_iff x.key key).0 e in
      let apart = rw same at h.0 in
      let kept = release-apart key r hs apart in
      elim (Bool-cases (x.request == r)) [
        | inl t ↦ rw (e, t) (kept.0 ∙ sym (ap keys kept.1), subst Exclusive (sym kept.1) h.1)
        | inr t ↦ absurd (let none_holds = holds-apart key r hs apart in ground arith)
      ]
  | inr e ↦
      let test : ((x.request == r) && text_eq x.key key) ≡ false = ground arith in
      let rest = release-held key r hs h.1 (ground arith) in
      rw (test, e) (ap (λ ks. x.key ∷ ks) rest.0, (drop_holder-Apart key x.key r hs h.0, rest.1))
]

step-IsGuarded : (e : Event) (s : Guarded) → IsGuarded s → IsGuarded (step e s)
step-IsGuarded (acquires r key) s h = elim (Bool-cases (loaded key s.in_flight)) [
  | inl l ↦ unfold step try_acquire in rw l (record { held = h.held; exclusive = h.exclusive })
  | inr l ↦
      let apart = loaded-Apart key s.holders (rw h.held at l) in
      unfold step try_acquire in
      rw l (record { held = ap (λ ks. key ∷ ks) h.held; exclusive = (apart, h.exclusive) })
]
step-IsGuarded (releases r key) s h = elim (Bool-cases (holds r key s.holders)) [
  | inl t ↦
      let kept = release-held key r s.holders h.exclusive t in
      unfold step in rw t (record { held = ap (release key) h.held ∙ kept.0; exclusive = kept.1 })
  | inr t ↦ unfold step in rw t h
]

run_keeps : (es : List Event) (s : Guarded) → IsGuarded s → IsGuarded (run es s)
unfolding run
run_keeps [] s h = h
run_keeps (e ∷ es) s h = run_keeps es (step e s) (step-IsGuarded e s h)

-- From an empty guard, in any order of calls in which a request releases only keys that it holds,
-- the map has exactly the keys held, and no key has two holders.
pub run-IsGuarded : (es : List Event) → IsGuarded (run es (record { in_flight = []; holders = [] }))
run-IsGuarded es = run_keeps es _ (record { held = refl; exclusive = tt })

acquired : (key : Text) (g : InFlight) → (try_acquire key g).0 ≡ true → loaded key g ≡ false
unfolding try_acquire
acquired key g h = ground arith

-- A request wins a key just when no request holds it, whatever came before.
pub try_acquire_iff :
    (es : List Event) (key : Text)
    → let s = run es (record { in_flight = []; holders = [] }) in
      ((try_acquire key s.in_flight).0 ≡ true)
      ↔ All (λ (x : Holder). text_eq key x.key ≡ false) s.holders
unfolding try_acquire
try_acquire_iff es key =
    let s = run es (record { in_flight = []; holders = [] }) in
    let held = (run-IsGuarded es).held in
    (
      λ won. loaded-Apart key s.holders (rw held at (acquired key s.in_flight won)),
      λ h.
          let free : loaded key s.in_flight ≡ false = rw held (Apart-loaded key s.holders h) in
          rw (free, try_acquire) refl,
    )
