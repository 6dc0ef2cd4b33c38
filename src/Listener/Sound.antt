-- ===== src/Listener/Sound.antt =====
-- The invariant of the listener controller (internal/api/listener_controller.go).
use muesli.Base.{ℕ, ◌<◌, ◌≡◌, refl, true, false, Option, none, some, List, [], ◌∷◌, All}
use muesli.Listener.{InterfaceAddressPair, ListenerController, Watcher, World, new_world, has}
use muesli.Listener.Marks.{NoDup, Below, channels}

-- Nothing is enabled and nothing serves.
pub record IsIdle (w : World) : Type 0 where
  pub no_pair : w.controller.pair ≡ none
  pub no_server : w.controller.http_srv ≡ none
  pub no_cancel : w.controller.cancel ≡ none
  pub no_channel : w.controller.unusable_ch ≡ none
  pub none_serves : w.serving ≡ []

-- Generation `g` is enabled: its server is the only one that serves, and its watcher runs with a
-- context that is not cancelled.
pub record IsEnabled (g : ℕ) (w : World) : Type 0 where
  pub bound : InterfaceAddressPair
  pub pair : w.controller.pair ≡ some bound
  pub server : w.controller.http_srv ≡ some g
  pub cancel : w.controller.cancel ≡ some g
  pub channel : w.controller.unusable_ch ≡ some g
  pub serves : w.serving ≡ g ∷ []
  pub watched : has g (channels w.watchers) ≡ true
  pub alive : has g w.cancelled ≡ false
  pub made : g < w.next

abbrev pub Shape : Option ℕ → World → Type 0
Shape none w = IsIdle w
Shape (some g) w = IsEnabled g w

-- A watcher has a context and a channel of one generation, whose channel is still open, and the
-- pair of the listener if that is the one enabled.
pub record IsLawful (c : ListenerController) (closed : List ℕ) (next : ℕ) (v : Watcher)
    : Type 0 where
  pub own : v.context ≡ v.channel
  pub made : v.channel < next
  pub unclosed : has v.channel closed ≡ false
  pub binds : c.unusable_ch ≡ some v.channel → c.pair ≡ some v.bound

-- Either idle or enabled, with lawful watchers of different generations, and no channel closed twice.
pub record IsSound (w : World) : Type 0 where
  pub generation : Option ℕ
  pub shape : Shape generation w
  pub lawful : All (IsLawful w.controller w.closed w.next) w.watchers
  pub apart : NoDup (channels w.watchers)
  pub closed_below : Below w.next w.closed
  pub cancelled_below : Below w.next w.cancelled
  pub closed_once : NoDup w.closed

pub new_world-IsSound : IsSound new_world
new_world-IsSound = record {
  generation = none;
  shape = record {
    no_pair = refl;
    no_server = refl;
    no_cancel = refl;
    no_channel = refl;
    none_serves = refl;
  };
  lawful = tt;
  apart = tt;
  closed_below = tt;
  cancelled_below = tt;
  closed_once = tt;
}
