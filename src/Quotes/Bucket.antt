-- ===== src/Quotes/Bucket.antt =====
-- `TokenBucket` of packages/market-core/src/rps-budget.ts. Times are whole milliseconds and the
-- capacity and the rate whole numbers, so that `tokens` is a whole number of thousandths: `tokens`
-- here counts those, and the slack of 1e-9 in `tryTake`, less than a thousandth, decides nothing.
pub mod Bound
use sotama.Prelude.{◌==◌, ◌-◌, ◌+◌, ◌*◌, ℕ, true, min, ltb, leb, if◌then◌else◌, false, Bool}

-- `lastRefillMs` moves only forward: a clock that goes back refills nothing.
pub record Bucket : Type 0 where
  pub capacity : ℕ
  pub refill_per_sec : ℕ
  -- in thousandths
  pub tokens : ℕ
  pub last_refill_ms : ℕ

pub data BucketError : Type 0 where
  capacity_not_positive refill_not_positive : BucketError

pub data Opened : Type 0 where
  opened : Bucket → Opened
  refused : BucketError → Opened

-- the constructor
unfoldable pub new_bucket : ℕ → ℕ → ℕ → Opened
new_bucket capacity refill_per_sec now =
    if capacity == 0
    then refused capacity_not_positive
    else if refill_per_sec == 0
    then refused refill_not_positive
    else opened (record {
      capacity = capacity;
      refill_per_sec = refill_per_sec;
      tokens = capacity * 1000;
      last_refill_ms = now;
    })

-- A thousandth comes in for each millisecond and unit of the rate.
unfoldable pub refill : ℕ → Bucket → Bucket
refill now b = if leb now b.last_refill_ms then b else record {
  capacity = b.capacity;
  refill_per_sec = b.refill_per_sec;
  tokens = min (b.capacity * 1000) (b.tokens + (now - b.last_refill_ms) * b.refill_per_sec);
  last_refill_ms = now;
}

unfoldable pub try_take : ℕ → ℕ → Bucket → Bool × Bucket
unfolding refill
try_take now n b =
    let full = refill now b in
    if ltb full.tokens (n * 1000) then (false, full) else (
      true,
      record {
        capacity = full.capacity;
        refill_per_sec = full.refill_per_sec;
        tokens = full.tokens - n * 1000;
        last_refill_ms = full.last_refill_ms;
      },
    )

unfoldable pub available : ℕ → Bucket → ℕ × Bucket
unfolding refill
available now b = let full = refill now b in (full.tokens, full)
