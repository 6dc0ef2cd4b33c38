-- ===== src/Listener/Acting.antt =====
-- What a watcher does under the mutex, and what its end leaves (internal/api/listener_controller.go).
use muesli.Base.{
  ℕ, ◌≡◌, refl, ap, ◌∙◌, Bool, true, false, ◌&&◌, Option, none, some, List, ◌∷◌, inl, inr,
  get_elem?, erase_at, All, All-erase_at, All-get_elem?, Bool-cases, if_cases, ◌==◌, ==_iff,
  if◌then◌else◌, arith,
}
use muesli.Base.Text.{text_eq_iff}
use muesli.Listener.{
  InterfaceAddressPair, Family, family_eq, pair_equal, ListenerController, Watcher, World,
  disable_locked, is_pair, is_channel, act, has,
}
use muesli.Listener.Marks.{
  has_cons, NoDup-erase_at, has-erase_at, has-erase_other, channels, channels-erase_at,
  get-channels, All_map, All-apart,
}
use muesli.Listener.Sound.{Shape, IsLawful, IsSound}
use muesli.Listener.Calls.{disable_locked-IsSound, marked, marked-IsSound}

act_lem :
    (v : Watcher) (w : World)
    → act v w ≡ (
        if is_pair w.controller.pair v.bound && is_channel w.controller.unusable_ch v.channel
        then marked true (disable_locked w)
        else w)
unfolding act
act_lem v w = refl

pub act-IsSound : (v : Watcher) (w : World) → IsSound w → IsSound (act v w)
act-IsSound v w h = rw (act_lem v w) (
    if_cases IsSound
      (is_pair w.controller.pair v.bound && is_channel w.controller.unusable_ch v.channel)
      (λ _. marked-IsSound true (disable_locked w) (disable_locked-IsSound w h)) (λ _. h))

pub act-watchers : (v : Watcher) (w : World) → (act v w).watchers ≡ w.watchers
unfolding disable_locked
act-watchers v w = rw (act_lem v w) (
    if_cases (λ (x : World). x.watchers ≡ w.watchers)
      (is_pair w.controller.pair v.bound && is_channel w.controller.unusable_ch v.channel)
      (λ _. refl) (λ _. refl))

family_eq_refl : (f : Family) → family_eq f f ≡ true
unfolding family_eq
family_eq_refl Family.ipv4 = refl
family_eq_refl Family.ipv6 = refl

pair_equal_refl : (p : InterfaceAddressPair) → pair_equal p p ≡ true
unfolding pair_equal
pair_equal_refl p =
    rw
      (
        (text_eq_iff p.interface_name p.interface_name).1 refl,
        (text_eq_iff p.address p.address).1 refl,
      )
      (family_eq_refl p.family)

abbrev pub owns : Watcher → World → Bool
owns v w = is_pair w.controller.pair v.bound && is_channel w.controller.unusable_ch v.channel

act_owned : (v : Watcher) (w : World) → owns v w ≡ true → act v w ≡ marked true (disable_locked w)
act_owned v w h = act_lem v w ∙ rw h refl

pub act_stale : (v : Watcher) (w : World) → owns v w ≡ false → act v w ≡ w
act_stale v w h = act_lem v w ∙ rw h refl

-- A lawful watcher of the enabled generation passes the test under the mutex.
lawful-owns :
    (v : Watcher) (w : World)
    → IsLawful w.controller w.closed w.next v
    → w.controller.unusable_ch ≡ some v.channel
    → owns v w ≡ true
unfolding is_pair is_channel
lawful-owns v w l e =
    rw (l.binds e, e, is_pair, is_channel, pair_equal_refl v.bound)
      ((==_iff v.channel v.channel).1 refl)

-- After a watcher has acted, its generation is not the one enabled.
pub act-over :
    (v : Watcher) (w : World)
    → IsLawful w.controller w.closed w.next v
    → (g : ℕ) → (act v w).controller.unusable_ch ≡ some g
    → (g == v.channel) ≡ false
unfolding disable_locked
act-over v w l g e = elim (Bool-cases (owns v w)) [
  | inl h ↦ absurd (let gone = rw (act_owned v w h) at e in cc gone)
  | inr h ↦
      let kept = rw (act_stale v w h) at e in
      elim (Bool-cases (g == v.channel)) [
        | inl s ↦
            let same : g ≡ v.channel = (==_iff g v.channel).0 s in
            let owned = lawful-owns v w l (kept ∙ ap some same) in absurd (cc owned)
        | inr o ↦ o
      ]
]

-- A watcher that ends, and is not the enabled generation's, leaves the rest sound.
Shape-erased :
    (o : Option ℕ) (w : World) (i : ℕ) (v : Watcher) (closed : List ℕ)
    → get_elem? w.watchers i ≡ some v
    → ((g : ℕ) → w.controller.unusable_ch ≡ some g → (g == v.channel) ≡ false)
    → Shape o w
    → Shape o (record w { watchers = erase_at w.watchers i; closed = closed })
Shape-erased none w i v closed e other h = record {
  no_pair = h.no_pair;
  no_server = h.no_server;
  no_cancel = h.no_cancel;
  no_channel = h.no_channel;
  none_serves = h.none_serves;
}
Shape-erased (some g) w i v closed e other h = record {
  bound = h.bound;
  pair = h.pair;
  server = h.server;
  cancel = h.cancel;
  channel = h.channel;
  serves = h.serves;
  watched = rw (channels-erase_at w.watchers i) (
      has-erase_other (channels w.watchers) i v.channel g (get-channels w.watchers i v e)
        (other g h.channel) h.watched);
  alive = h.alive;
  made = h.made;
}

pub erased-IsSound :
    (w : World) (i : ℕ) (v : Watcher)
    → get_elem? w.watchers i ≡ some v
    → ((g : ℕ) → w.controller.unusable_ch ≡ some g → (g == v.channel) ≡ false)
    → IsSound w
    → IsSound (record w { watchers = erase_at w.watchers i })
erased-IsSound w i v e other h = record {
  generation = h.generation;
  shape = Shape-erased h.generation w i v w.closed e other h.shape;
  lawful = All-erase_at _ w.watchers i h.lawful;
  apart = rw (channels-erase_at w.watchers i) (NoDup-erase_at (channels w.watchers) i h.apart);
  closed_below = h.closed_below;
  cancelled_below = h.cancelled_below;
  closed_once = h.closed_once;
}

closed-IsLawful :
    (c : ListenerController) (closed : List ℕ) (next k : ℕ) (vs : List Watcher)
    → has k (channels vs) ≡ false
    → All (IsLawful c closed next) vs
    → All (IsLawful c (k ∷ closed) next) vs
closed-IsLawful c closed next k vs h l =
    All_map (λ u. IsLawful c closed next u × ((k == u.channel) ≡ false)) _ vs
      (λ u p. record {
        own = p.0.own;
        made = p.0.made;
        unclosed =
            rw (has_cons u.channel k closed) (let x = p.1 in let y = p.0.unclosed in ground arith);
        binds = p.0.binds;
      })
      (All-apart (IsLawful c closed next) k vs h l)

pub closing-IsSound :
    (w : World) (i : ℕ) (v : Watcher)
    → get_elem? w.watchers i ≡ some v
    → ((g : ℕ) → w.controller.unusable_ch ≡ some g → (g == v.channel) ≡ false)
    → IsSound w
    → IsSound (record w { closed = v.channel ∷ w.closed; watchers = erase_at w.watchers i })
closing-IsSound w i v e other h =
    let l = All-get_elem? (IsLawful w.controller w.closed w.next) w.watchers i h.lawful e in
    let gone : has v.channel (channels (erase_at w.watchers i)) ≡ false =
      rw (channels-erase_at w.watchers i)
        (has-erase_at (channels w.watchers) i v.channel h.apart (get-channels w.watchers i v e)) in
    record {
      generation = h.generation;
      shape = Shape-erased h.generation w i v (v.channel ∷ w.closed) e other h.shape;
      lawful =
          closed-IsLawful w.controller w.closed w.next v.channel (erase_at w.watchers i) gone
            (All-erase_at _ w.watchers i h.lawful);
      apart = rw (channels-erase_at w.watchers i) (NoDup-erase_at (channels w.watchers) i h.apart);
      closed_below = (l.made, h.closed_below);
      cancelled_below = h.cancelled_below;
      closed_once = (l.unclosed, h.closed_once);
    }
