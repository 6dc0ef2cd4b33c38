-- ===== src/Webhook/Worker/Backoff.antt =====
-- The wait before the next attempt (internal/webhook/deliver.go).
use muesli.Base.{ℕ, ◌*◌, ◌^◌, ◌≤◌, ◌≡◌, arith, if◌then◌else◌, ltb}
use native.Mathlib.Nat.{pow-le-pow_right}
use muesli.Base.Int.{pos, int64-pos, ◌*ℤ◌}
use muesli.Webhook.Worker.{backoff, second, max_backoff}

abbrev pub capped : ℕ → ℕ
capped n = if ltb max_backoff n then max_backoff else n

-- 5, 10, 20, … seconds and at most an hour, as long as 64 bits hold the product: up to the
-- thirtieth attempt, and the limit of a delivery is 5.
backoff_exact :
    (attempts : ℕ) → attempts ≤ 30 → backoff attempts ≡ pos (capped (5 * 2 ^ attempts * second))
unfolding backoff ◌*ℤ◌
backoff_exact attempts h =
    let small = pow-le-pow_right {n = 2} (omega arith) h in
    let first = int64-pos (5 * 2 ^ attempts) (omega arith) in
    let whole = int64-pos (5 * 2 ^ attempts * second) (omega arith) in
    rw (backoff, first, whole) (ground arith)
