-- ===== src/Listener/Calls.antt =====
-- The calls of the listener controller keep its invariant (internal/api/listener_controller.go).
use muesli.Base.{
  ℕ, suc, ◌≡◌, ◌⊎◌, refl, ap, Bool, true, false, Option, none, some, List, [], ◌∷◌, inl, inr, All,
  All-append, arith,
}
use muesli.Listener.{
  InterfaceAddressPair, ListenerController, Watcher, World, Outside, Enabled, listening, refused,
  remove, close_server, cancel_context, disable_locked, disable, serve, admit, enable, reset,
}
use muesli.Listener.Marks.{
  Below, Below-mono, has-fresh, has-append_last, NoDup-append, channels, channels-append, All_map,
}
use muesli.Listener.Sound.{IsIdle, Shape, IsLawful, IsSound}

disable_locked-serving : (o : Option ℕ) (w : World) → Shape o w → (disable_locked w).serving ≡ []
unfolding disable_locked close_server remove
disable_locked-serving none w h = rw (h.no_server, close_server) h.none_serves
disable_locked-serving (some g) w h = rw (h.server, h.serves, close_server, remove) (ground arith)

disable_locked-IsIdle : (w : World) → IsSound w → IsIdle (disable_locked w)
unfolding disable_locked
disable_locked-IsIdle w h = record {
  no_pair = refl;
  no_server = refl;
  no_cancel = refl;
  no_channel = refl;
  none_serves = disable_locked-serving h.generation w h.shape;
}

disable_locked-cancelled :
    (o : Option ℕ) (w : World)
    → Shape o w
    → Below w.next w.cancelled
    → Below w.next (disable_locked w).cancelled
unfolding disable_locked cancel_context
disable_locked-cancelled none w h b = rw (h.no_cancel, cancel_context) b
disable_locked-cancelled (some g) w h b = rw (h.cancel, cancel_context) (h.made, b)

pub disable_locked-IsSound : (w : World) → IsSound w → IsSound (disable_locked w)
unfolding disable_locked
disable_locked-IsSound w h = record {
  generation = none;
  shape = disable_locked-IsIdle w h;
  lawful =
      All_map (IsLawful w.controller w.closed w.next) _ w.watchers
        (λ v l. record {
          own = l.own;
          made = l.made;
          unclosed = l.unclosed;
          binds = λ e. absurd (cc e);
        })
        h.lawful;
  apart = h.apart;
  closed_below = h.closed_below;
  cancelled_below = disable_locked-cancelled h.generation w h.shape h.cancelled_below;
  closed_once = h.closed_once;
}

abbrev pub marked : Bool → World → World
marked b w = record w { controller = record w.controller { unusable = b } }

Shape-marked : (b : Bool) (o : Option ℕ) (w : World) → Shape o w → Shape o (marked b w)
Shape-marked b none w h = record {
  no_pair = h.no_pair;
  no_server = h.no_server;
  no_cancel = h.no_cancel;
  no_channel = h.no_channel;
  none_serves = h.none_serves;
}
Shape-marked b (some g) w h = record {
  bound = h.bound;
  pair = h.pair;
  server = h.server;
  cancel = h.cancel;
  channel = h.channel;
  serves = h.serves;
  watched = h.watched;
  alive = h.alive;
  made = h.made;
}

pub marked-IsSound : (b : Bool) (w : World) → IsSound w → IsSound (marked b w)
marked-IsSound b w h = record {
  generation = h.generation;
  shape = Shape-marked b h.generation w h.shape;
  lawful =
      All_map (IsLawful w.controller w.closed w.next) _ w.watchers
        (λ v l. record { own = l.own; made = l.made; unclosed = l.unclosed; binds = l.binds })
        h.lawful;
  apart = h.apart;
  closed_below = h.closed_below;
  cancelled_below = h.cancelled_below;
  closed_once = h.closed_once;
}

channels-Below :
    (c : ListenerController) (closed : List ℕ) (next : ℕ) (vs : List Watcher)
    → All (IsLawful c closed next) vs
    → Below next (channels vs)
channels-Below c closed next [] h = tt
channels-Below c closed next (v ∷ vs) h = (h.0.made, channels-Below c closed next vs h.1)

serve-IsLawful :
    (p : InterfaceAddressPair) (w : World)
    → IsSound w
    → All (IsLawful (serve p w).controller w.closed (suc w.next)) (serve p w).watchers
unfolding serve
serve-IsLawful p w h =
    All-append _ w.watchers _
      (All_map (IsLawful w.controller w.closed w.next) _ w.watchers
        (λ v l. record {
          own = l.own;
          made = let x = l.made in omega arith;
          unclosed = l.unclosed;
          binds = λ e. absurd (let x = l.made in let same : w.next ≡ v.channel = cc in omega arith);
        })
        h.lawful)
      (
        record {
          own = refl;
          made = omega arith;
          unclosed = has-fresh w.next w.closed h.closed_below;
          binds = λ _. refl;
        },
        tt,
      )

serve-IsSound : (p : InterfaceAddressPair) (w : World) → IsSound w → IsIdle w → IsSound (serve p w)
unfolding serve
serve-IsSound p w h i =
    let fresh =
      has-fresh w.next (channels w.watchers)
        (channels-Below w.controller w.closed w.next w.watchers h.lawful) in
    record {
      generation = some w.next;
      shape = record {
        bound = p;
        pair = refl;
        server = refl;
        cancel = refl;
        channel = refl;
        serves = ap (λ ns. w.next ∷ ns) i.none_serves;
        watched = rw (channels-append w.watchers _) (has-append_last w.next (channels w.watchers));
        alive = has-fresh w.next w.cancelled h.cancelled_below;
        made = omega arith;
      };
      lawful = serve-IsLawful p w h;
      apart =
          rw (channels-append w.watchers _)
            (NoDup-append w.next (channels w.watchers) fresh h.apart);
      closed_below = Below-mono w.next (suc w.next) w.closed (omega arith) h.closed_below;
      cancelled_below = Below-mono w.next (suc w.next) w.cancelled (omega arith) h.cancelled_below;
      closed_once = h.closed_once;
    }

abbrev enabled_world : Enabled → InterfaceAddressPair → World → Enabled × World
enabled_world (refused e) p w = (refused e, disable_locked w)
enabled_world (listening n) p w = (listening n, serve p (disable_locked w))

enabled_world-cases :
    (x : Enabled) (p : InterfaceAddressPair) (w : World)
    → ((enabled_world x p w).1 ≡ disable_locked w)
      ⊎ ((enabled_world x p w).1 ≡ serve p (disable_locked w))
enabled_world-cases (refused e) p w = inl refl
enabled_world-cases (listening n) p w = inr refl

enable_unfolded :
    (x : Enabled) (p : InterfaceAddressPair) (w : World)
    → elim x [
      | refused e ↦ (refused e, disable_locked w)
      | listening n ↦ (listening n, serve p (disable_locked w))
    ]
      ≡ enabled_world x p w
enable_unfolded (refused e) p w = refl
enable_unfolded (listening n) p w = refl

enable_lem :
    (o : Outside) (p : InterfaceAddressPair) (w : World)
    → enable o p w ≡ enabled_world (admit o p) p w
unfolding enable
enable_lem o p w = enable_unfolded (admit o p) p w

-- What Enable does to the world, whatever it returns.
pub enable-cases :
    (o : Outside) (p : InterfaceAddressPair) (w : World)
    → ((enable o p w).1 ≡ disable_locked w) ⊎ ((enable o p w).1 ≡ serve p (disable_locked w))
enable-cases o p w = rw (enable_lem o p w) (enabled_world-cases (admit o p) p w)

pub enable-IsSound :
    (o : Outside) (p : InterfaceAddressPair) (w : World) → IsSound w → IsSound (enable o p w).1
enable-IsSound o p w h = elim (enable-cases o p w) [
  | inl e ↦ rw e (disable_locked-IsSound w h)
  | inr e ↦
      rw e (
        serve-IsSound p (disable_locked w) (disable_locked-IsSound w h) (disable_locked-IsIdle w h))
]

pub disable-IsSound : (w : World) → IsSound w → IsSound (disable w)
unfolding disable
disable-IsSound w h = marked-IsSound false (disable_locked w) (disable_locked-IsSound w h)

pub reset-IsSound :
    (removed : Bool) (o : Outside) (p : InterfaceAddressPair) (w : World)
    → IsSound w
    → IsSound (reset removed o p w).1
unfolding reset
reset-IsSound true o p w h = enable-IsSound o p w h
reset-IsSound false o p w h = h
