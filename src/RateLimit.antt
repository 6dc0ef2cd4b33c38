-- ===== src/RateLimit.antt =====
-- Rate limiting for each client: internal/ratelimit/ratelimit.go.
--
-- A limiter of golang.org/x/time/rate is a number, the place where its bucket is; `allow` says what
-- its Allow answers for a request. The map is a list of its entries. The process's clock is an
-- argument, in nanoseconds.
pub mod Kept
mod Tests
use muesli.Base.{
  ℕ, suc, ◌+◌, Bool, true, false, Option, none, some, List, [], ◌∷◌, ltb, ◌==◌, if◌then◌else◌,
}
use muesli.Base.Text.{Text, text_eq, is_empty}

pub record Entry : Type 0 where
  pub limiter : ℕ
  pub last_used : ℕ

pub record LimiterStore : Type 0 where
  pub entries : List (Text × Entry)
  pub next : ℕ

abbrev pub new_limiter_store : LimiterStore
new_limiter_store = record { entries = []; next = 0 }

pub find_entry : Text → List (Text × Entry) → Option Entry
find_entry key [] = none
find_entry key ((k, e) ∷ es) = if text_eq k key then some e else find_entry key es

pub touch : Text → ℕ → List (Text × Entry) → List (Text × Entry)
touch key now [] = []
touch key now ((k, e) ∷ es) =
    let rest = touch key now es in
    if text_eq k key then (k, record e { last_used = now }) ∷ es else (k, e) ∷ rest

pub get : Text → ℕ → LimiterStore → ℕ × LimiterStore
get key now s = elim (find_entry key s.entries) [
  | none ↦ (
    s.next,
    record {
      entries = (key, record { limiter = s.next; last_used = now }) ∷ s.entries;
      next = suc s.next;
    },
  )
  | some e ↦ (e.limiter, record s { entries = touch key now s.entries })
]

-- The entries that are not last used before `now - ttl`.
pub sweep_entries : ℕ → ℕ → List (Text × Entry) → List (Text × Entry)
sweep_entries now ttl [] = []
sweep_entries now ttl ((k, e) ∷ es) =
    let rest = sweep_entries now ttl es in
    if ltb (e.last_used + ttl) now then rest else (k, e) ∷ rest

pub sweep : ℕ → ℕ → LimiterStore → LimiterStore
sweep now ttl s = record s { entries = sweep_entries now ttl s.entries }

-- RemoteAddr up to its last colon, or all of it.
pub up_to_last_colon : Text → Option Text
up_to_last_colon [] = none
up_to_last_colon (c ∷ s) = elim (up_to_last_colon s) [
  | some host ↦ some (c ∷ host)
  | none ↦ if c == 58 then some [] else none
]

pub client_ip : Text → Text
client_ip addr = elim (up_to_last_colon addr) [ none ↦ addr | some host ↦ host ]

pub data Answer : Type 0 where
  served : Answer
  denied : Answer

-- The middleware of NewIPLimiter, when it is not disabled.
pub limit_ip : (ℕ → Bool) → Text → ℕ → LimiterStore → Answer × LimiterStore
limit_ip allow addr now s =
    let (limiter, s') = get (client_ip addr) now s in (if allow limiter then served else denied, s')

-- The middleware of NewUserLimiter, when it is not disabled.
pub limit_user : (ℕ → Bool) → Option Text → ℕ → LimiterStore → Answer × LimiterStore
limit_user allow none now s = (served, s)
limit_user allow (some uid) now s =
    let (limiter, s') = get uid now s in
    if is_empty uid then (served, s) else (if allow limiter then served else denied, s')

-- Requests of clients and ticks of the sweeper.
pub data Event : Type 0 where
  gets : Text → ℕ → Event
  sweeps : ℕ → Event

pub step : ℕ → Event → LimiterStore → LimiterStore
step ttl (gets key now) s = (get key now s).1
step ttl (sweeps now) s = sweep now ttl s

pub run : ℕ → List Event → LimiterStore → LimiterStore
run ttl [] s = s
run ttl (e ∷ es) s = run ttl es (step ttl e s)
