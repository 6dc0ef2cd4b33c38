-- ===== src/Guard/Tests.antt =====
-- Two requests for the same key.
use muesli.Base.{◌≡◌, refl, List, [], ◌∷◌}
use muesli.Base.Text.{codes}
use muesli.Guard.{
  loaded, try_acquire, release, Event, acquires, releases, holds, drop_holder, step, run,
}
use muesli.Guard.Exclusive.{IsGuarded, run-IsGuarded}

-- The second is refused, and gets the key once the first has released it.
abbrev calls : List Event
calls =
    acquires 1 (codes "n")
    ∷ acquires 2 (codes "n")
    ∷ releases 1 (codes "n")
    ∷ acquires 2 (codes "n")
    ∷ []

second_holds :
    (run calls (record { in_flight = []; holders = [] })).holders
    ≡ record { request = 2; key = codes "n" } ∷ []
unfolding run step try_acquire loaded holds release drop_holder
second_holds = refl

run-IsGuarded_example : IsGuarded (run calls (record { in_flight = []; holders = [] }))
run-IsGuarded_example = run-IsGuarded calls
