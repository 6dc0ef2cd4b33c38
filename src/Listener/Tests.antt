-- ===== src/Listener/Tests.antt =====
-- A listener that is enabled, loses its address, and is enabled again.
use muesli.Base.{◌≡◌, refl, true, false, none, some, List, [], ◌∷◌, ◌++◌}
use muesli.Base.Text.{codes}
use muesli.Listener.{
  Family, InterfaceAddressPair, family_eq, pair_equal, contains_pair, Watcher, new_world, Outside,
  remove, cancel_context, close_server, disable_locked, serve, admit, enable, status, still_present,
  is_pair, is_channel, act, Event, on_enable, watcher_ticks, watcher_acts, watcher_step, at_watcher,
  step, run,
}
use muesli.Listener.Sound.{IsSound}
use muesli.Listener.Generations.{run-IsSound, stale_watcher_harmless}

abbrev lan : InterfaceAddressPair
lan = record { interface_name = codes "en0"; address = codes "10.0.0.2"; family = Family.ipv4 }

abbrev up : Outside
up = record {
  snapshot = some (lan ∷ []);
  certificate = true;
  key_pair = true;
  bind = true;
  port = some 4433;
}

-- The watcher has seen the address gone, but has not acted yet.
abbrev gone : List Event
gone = on_enable up lan ∷ watcher_ticks 0 (some []) ∷ []

abbrev watcher : Watcher
watcher = record { context = 0; bound = lan; channel = 0; detected = true }

-- When it acts, the listener is closed and stays unusable.
closes_once :
    status (run new_world (gone ++ watcher_acts 0 ∷ [])).controller
    ≡ record { enabled = false; unusable = true; pair = none }
unfolding run step enable admit contains_pair pair_equal family_eq serve disable_locked close_server
    cancel_context remove at_watcher watcher_step still_present act is_pair is_channel status
closes_once = refl

run-IsSound_example : IsSound (run new_world (gone ++ on_enable up lan ∷ watcher_acts 0 ∷ []))
run-IsSound_example = run-IsSound (gone ++ on_enable up lan ∷ watcher_acts 0 ∷ [])

stale_watcher_harmless_example :
    act watcher (enable up lan (run new_world gone)).1 ≡ (enable up lan (run new_world gone)).1
unfolding run step enable admit contains_pair pair_equal family_eq serve disable_locked close_server
    cancel_context remove at_watcher watcher_step still_present
stale_watcher_harmless_example = stale_watcher_harmless gone up lan 0 watcher refl
