-- ===== src/Listener/Generations.antt =====
-- One listener at a time, watched by its own watcher (internal/api/listener_controller.go).
use muesli.Base.{
  ℕ, ◌<◌, ◌≡◌, refl, sym, ◌∙◌, true, false, not, ◌&&◌, Option, none, some, List, [], ◌∷◌, inl, inr,
  get_elem?, set, All, All-get_elem?, Bool-cases, Option-cases, if_cases, ◌==◌, ==_iff, arith,
}
use muesli.Listener.{
  InterfaceAddressPair, Watcher, World, new_world, Outside, disable_locked, serve, enable, is_pair,
  is_channel, act, has, still_present, Event, on_enable, on_reset, on_disable, watcher_done,
  watcher_ticks, watcher_acts, watcher_step, at_watcher, step, run,
}
use muesli.Listener.Marks.{channels, channels-set, All-set}
use muesli.Listener.Sound.{Shape, IsLawful, IsSound, new_world-IsSound}
use muesli.Listener.Calls.{enable-cases, enable-IsSound, disable-IsSound, reset-IsSound}
use muesli.Listener.Acting.{
  act-IsSound, act-watchers, owns, act_stale, act-over, erased-IsSound, closing-IsSound,
}

done_other :
    (w : World) (v : Watcher)
    → v.context ≡ v.channel
    → has v.context w.cancelled ≡ true
    → (o : Option ℕ) → Shape o w
    → (g : ℕ) → w.controller.unusable_ch ≡ some g
    → (g == v.channel) ≡ false
done_other w v own c none h g e = absurd (let n = h.no_channel in cc)
done_other w v own c (some k) h g e = elim (Bool-cases (g == v.channel)) [
  | inl s ↦
      let same : g ≡ v.channel = (==_iff g v.channel).0 s in
      let current : some k ≡ some g = sym h.channel ∙ e in
      let number : k ≡ v.context = ground (arith, same, current, own) in
      absurd (let x = rw number at h.alive in cc)
  | inr o ↦ o
]

set-IsLawful :
    (w : World) (i : ℕ) (v : Watcher)
    → IsLawful w.controller w.closed w.next v
    → All (IsLawful w.controller w.closed w.next) w.watchers
    → All (IsLawful w.controller w.closed w.next) (set w.watchers i (record v { detected = true }))
set-IsLawful w i v l h =
    All-set _ w.watchers i _ h
      (record { own = l.own; made = l.made; unclosed = l.unclosed; binds = l.binds })

Shape-watchers :
    (o : Option ℕ) (w : World) (vs : List Watcher)
    → channels vs ≡ channels w.watchers
    → Shape o w
    → Shape o (record w { watchers = vs })
Shape-watchers none w vs e h = record {
  no_pair = h.no_pair;
  no_server = h.no_server;
  no_cancel = h.no_cancel;
  no_channel = h.no_channel;
  none_serves = h.none_serves;
}
Shape-watchers (some g) w vs e h = record {
  bound = h.bound;
  pair = h.pair;
  server = h.server;
  cancel = h.cancel;
  channel = h.channel;
  serves = h.serves;
  watched = rw e h.watched;
  alive = h.alive;
  made = h.made;
}

detected-IsSound :
    (w : World) (i : ℕ) (v : Watcher)
    → get_elem? w.watchers i ≡ some v
    → IsSound w
    → IsSound (record w { watchers = set w.watchers i (record v { detected = true }) })
detected-IsSound w i v e h =
    let l = All-get_elem? (IsLawful w.controller w.closed w.next) w.watchers i h.lawful e in
    let same : channels (set w.watchers i (record v { detected = true })) ≡ channels w.watchers =
      channels-set w.watchers i v (record v { detected = true }) e refl in
    record {
      generation = h.generation;
      shape = Shape-watchers h.generation w _ same h.shape;
      lawful = set-IsLawful w i v l h.lawful;
      apart = rw same h.apart;
      closed_below = h.closed_below;
      cancelled_below = h.cancelled_below;
      closed_once = h.closed_once;
    }

watcher_step-IsSound :
    (w : World) (i : ℕ) (v : Watcher) (e : Event)
    → get_elem? w.watchers i ≡ some v
    → IsSound w
    → IsSound (watcher_step w i v e)
unfolding watcher_step
watcher_step-IsSound w i v (watcher_done _) at h =
    let l = All-get_elem? (IsLawful w.controller w.closed w.next) w.watchers i h.lawful at in
    if_cases IsSound (not v.detected && has v.context w.cancelled)
      (λ t. erased-IsSound w i v at (done_other w v l.own (ground arith) h.generation h.shape) h)
      (λ _. h)
watcher_step-IsSound w i v (watcher_ticks _ current) at h =
    if_cases IsSound (not v.detected && not (still_present current v.bound))
      (λ _. detected-IsSound w i v at h) (λ _. h)
watcher_step-IsSound w i v (watcher_acts _) at h =
    let l = All-get_elem? (IsLawful w.controller w.closed w.next) w.watchers i h.lawful at in
    if_cases IsSound v.detected
      (λ _.
        closing-IsSound (act v w) i v (rw (act-watchers v w) at) (act-over v w l)
          (act-IsSound v w h))
      (λ _. h)
watcher_step-IsSound w i v (on_enable o p) at h = h
watcher_step-IsSound w i v (on_reset r o p) at h = h
watcher_step-IsSound w i v on_disable at h = h

at_watcher-IsSound : (w : World) (i : ℕ) (e : Event) → IsSound w → IsSound (at_watcher w i e)
unfolding at_watcher
at_watcher-IsSound w i e h = elim (Option-cases (get_elem? w.watchers i)) [
  | inl n ↦ rw (n, at_watcher) h
  | inr (v, s) ↦ rw (s, at_watcher) (watcher_step-IsSound w i v e s h)
]

step-IsSound : (w : World) (e : Event) → IsSound w → IsSound (step w e)
unfolding step
step-IsSound w (on_enable o p) h = enable-IsSound o p w h
step-IsSound w (on_reset r o p) h = reset-IsSound r o p w h
step-IsSound w on_disable h = disable-IsSound w h
step-IsSound w (watcher_done i) h = at_watcher-IsSound w i (watcher_done i) h
step-IsSound w (watcher_ticks i current) h = at_watcher-IsSound w i (watcher_ticks i current) h
step-IsSound w (watcher_acts i) h = at_watcher-IsSound w i (watcher_acts i) h

run_keeps : (es : List Event) (w : World) → IsSound w → IsSound (run w es)
unfolding run
run_keeps [] w h = h
run_keeps (e ∷ es) w h = run_keeps es (step w e) (step-IsSound w e h)

-- From a new controller, after any calls and watcher steps in any order, either nothing serves, or
-- one generation is enabled: its server is the only one that serves, and its own watcher is there
-- with a context that is not cancelled. Watchers are of different generations, each with a channel
-- that is not closed yet, and no channel is ever closed twice.
pub run-IsSound : (es : List Event) → IsSound (run new_world es)
run-IsSound es = run_keeps es new_world new_world-IsSound

serve-stale :
    (p : InterfaceAddressPair) (w : World) (v : Watcher)
    → v.channel < w.next
    → owns v (serve p w) ≡ false
unfolding serve is_channel
serve-stale p w v h = ground arith

disable_locked-stale : (w : World) (v : Watcher) → owns v (disable_locked w) ≡ false
unfolding disable_locked is_pair
disable_locked-stale w v = refl

disable_locked-next : (w : World) → (disable_locked w).next ≡ w.next
unfolding disable_locked
disable_locked-next w = refl

-- After an Enable on any pair, and so on the same one, that succeeds or fails, a watcher that was
-- running before leaves the controller, its servers and its contexts as they are when it acts.
pub stale_watcher_harmless :
    (es : List Event) (o : Outside) (p : InterfaceAddressPair) (i : ℕ) (v : Watcher)
    → get_elem? (run new_world es).watchers i ≡ some v
    → act v (enable o p (run new_world es)).1 ≡ (enable o p (run new_world es)).1
stale_watcher_harmless es o p i v at =
    let w = run new_world es in
    let h = run-IsSound es in
    let l = All-get_elem? (IsLawful w.controller w.closed w.next) w.watchers i h.lawful at in
    elim (enable-cases o p w) [
      | inl e ↦ rw e (act_stale v (disable_locked w) (disable_locked-stale w v))
      | inr e ↦
          let old : v.channel < (disable_locked w).next = rw (disable_locked-next w) l.made in
          rw e (act_stale v (serve p (disable_locked w)) (serve-stale p (disable_locked w) v old))
    ]
