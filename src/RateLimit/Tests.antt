-- ===== src/RateLimit/Tests.antt =====
-- Two clients, a sweep, and the theorems at them.
use muesli.Base.{◌≡◌, refl, false, List, [], ◌∷◌, arith}
use muesli.Base.Text.{codes}
use muesli.RateLimit.{
  new_limiter_store, find_entry, touch, get, sweep_entries, sweep, Event, gets, sweeps, step, run,
  limit_ip, denied,
}
use muesli.RateLimit.Kept.{get-kept}

abbrev later_events : List Event
later_events = gets (codes "b") 3 ∷ sweeps 9 ∷ []

get-kept_example :
    (get (codes "a") 10 (run 8 later_events (get (codes "a") 1 new_limiter_store).1)).0
    ≡ (get (codes "a") 1 new_limiter_store).0
get-kept_example =
    get-kept (codes "a") 1 10 8 later_events new_limiter_store (omega arith, (omega arith, tt))

-- A sweep after the idle time drops the bucket.
swept : (get (codes "a") 20 (run 8 (sweeps 10 ∷ []) (get (codes "a") 1 new_limiter_store).1)).0 ≡ 1
unfolding run step sweep sweep_entries get find_entry touch
swept = refl

denies : (limit_ip (λ n. false) (codes "10.0.0.1:80") 1 new_limiter_store).0 ≡ denied
unfolding limit_ip
denies = refl
