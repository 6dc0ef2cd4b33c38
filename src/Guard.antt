-- ===== src/Guard.antt =====
-- One request at a time for a key: internal/api/inflight_guard.go.
--
-- The sync.Map is the list of its keys. LoadOrStore and Delete are one atomic step each, so calls
-- of several goroutines are a list of steps. A holder is the number of the request whose
-- try_acquire succeeded; as the code asks of its callers, a request releases only what it holds.
pub mod Exclusive
mod Tests
use muesli.Base.{ℕ, Bool, true, false, not, ◌&&◌, List, [], ◌∷◌, ◌==◌, if◌then◌else◌}
use muesli.Base.Text.{Text, text_eq}

abbrev pub InFlight : Type 0
InFlight = List Text

pub loaded : Text → InFlight → Bool
loaded key [] = false
loaded key (k ∷ ks) = if text_eq k key then true else loaded key ks

pub try_acquire : Text → InFlight → Bool × InFlight
try_acquire key g = if loaded key g then (false, g) else (true, key ∷ g)

pub release : Text → InFlight → InFlight
release key [] = []
release key (k ∷ ks) = let rest = release key ks in if text_eq k key then rest else k ∷ rest

-- Which request holds which key.
pub record Holder : Type 0 where
  pub request : ℕ
  pub key : Text

pub record Guarded : Type 0 where
  pub in_flight : InFlight
  pub holders : List Holder

pub data Event : Type 0 where
  acquires : ℕ → Text → Event
  releases : ℕ → Text → Event

pub holds : ℕ → Text → List Holder → Bool
holds r key [] = false
holds r key (h ∷ hs) = if (h.request == r) && text_eq h.key key then true else holds r key hs

-- The list without the holders of a key by a request.
pub drop_holder : ℕ → Text → List Holder → List Holder
drop_holder r key [] = []
drop_holder r key (h ∷ hs) =
    let rest = drop_holder r key hs in
    if (h.request == r) && text_eq h.key key then rest else h ∷ rest

-- A request that already holds a key and asks again is refused like any other.
pub step : Event → Guarded → Guarded
step (acquires r key) s =
    let (won, g) = try_acquire key s.in_flight in
    record {
      in_flight = g;
      holders = if won then record { request = r; key = key } ∷ s.holders else s.holders;
    }
step (releases r key) s =
    if holds r key s.holders
    then record { in_flight = release key s.in_flight; holders = drop_holder r key s.holders }
    else s

pub run : List Event → Guarded → Guarded
run [] s = s
run (e ∷ es) s = run es (step e s)
