-- ===== src/Core/Bucket.antt =====
-- core/bucket.py: the token bucket of one agent. The refill rate is the fraction `num / den` of a
-- token per millisecond, and `tokens` counts parts of which `den` make a token, so that the
-- fractions of the source are whole numbers here. The clock's reading is an argument.
pub mod Laws
use moot.Common.{
  ℕ, zero, suc, ◌+◌, ◌-◌, ◌*◌, min, Bool, true, false, Option, none, some, ◌||◌, ltb, leb, eqb,
  if◌then◌else◌,
}

pub record TokenBucket : Type 0 where
  pub capacity : ℕ
  pub num : ℕ
  pub den : ℕ
  pub tokens : ℕ
  pub last : ℕ

-- ValueError unless the capacity and the rate are positive
unfoldable pub create : ℕ → ℕ → ℕ → ℕ → Option TokenBucket
create now capacity num den =
    if eqb capacity 0 || eqb num 0 || eqb den 0
    then none
    else some
        (record { capacity = capacity; num = num; den = den; tokens = capacity * den; last = now })

unfoldable pub refill : ℕ → TokenBucket → TokenBucket
refill now b =
    if ltb b.last now
    then record b {
      tokens = min (b.capacity * b.den) (b.tokens + (now - b.last) * b.num);
      last = now;
    }
    else b

unfoldable pub take : ℕ → TokenBucket → TokenBucket × Bool
unfolding refill
take now b =
    let b' = refill now b in
    if leb b'.den b'.tokens then (record b' { tokens = b'.tokens - b'.den }, true) else (b', false)

-- A length of time, as a fraction of milliseconds.
pub record Wait : Type 0 where
  pub parts : ℕ
  pub per_ms : ℕ

-- `0.0` if a token is there, else what is missing over the rate
unfoldable pub retry_after : ℕ → TokenBucket → TokenBucket × Wait
unfolding refill
retry_after now b =
    let b' = refill now b in
    let missing = b'.den - b'.tokens in (b', record { parts = missing; per_ms = b'.num })
