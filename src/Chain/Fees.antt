-- ===== src/Chain/Fees.antt =====
-- `estimateTimeFee` and `loopModeToCadence` of src/lib/linked-chains.ts, `timeElapsedToSecs` and the
-- loop constants of src/lib/types.ts.
use sotama.Prelude.{ℕ, ◌+◌, ◌-◌, ◌*◌, ◌/◌, ◌≤◌, ◌<◌, arith, ltb, leb, if◌then◌else◌}
use sotama.Chain.Types.{Cadence, once, repeat, until, LoopMode, frequency, infinite}

abbrev pub time_fee_max_days : ℕ
time_fee_max_days = 30

abbrev pub secs_per_day : ℕ
secs_per_day = 86400

abbrev pub infinite_loop_unix_deadline : ℕ
infinite_loop_unix_deadline = 4102444800

abbrev pub self_loop_infinite_fund_cycles : ℕ
self_loop_infinite_fund_cycles = 100

-- The days charged, at `now_sec` seconds since the epoch. `delta <= 0n` is `deadline ≤ now`.
unfoldable pub charged_days : ℕ → Cadence → ℕ
charged_days now_sec (until unix_deadline) =
    if leb unix_deadline now_sec
    then 1
    else let ceil_days = (unix_deadline - now_sec + secs_per_day - 1) / secs_per_day in
      (if ltb ceil_days time_fee_max_days then ceil_days else time_fee_max_days)
charged_days now_sec _ = time_fee_max_days

unfoldable pub estimate_time_fee : ℕ → Cadence → ℕ → ℕ
estimate_time_fee now_sec cadence lamports_per_day = charged_days now_sec cadence * lamports_per_day

unfoldable pub loop_mode_to_cadence : LoopMode → Cadence
loop_mode_to_cadence (frequency cycles) = repeat cycles
loop_mode_to_cadence infinite = until infinite_loop_unix_deadline

-- A deadline's fee: at least one day and at most thirty are charged; fewer than thirty days cover
-- the time to the deadline, and one day less would not, unless the deadline has passed.
pub deadline_days_exact :
    (now_sec deadline : ℕ)
    → (1 ≤ charged_days now_sec (until deadline))
      × (charged_days now_sec (until deadline) ≤ time_fee_max_days)
      × (charged_days now_sec (until deadline) < time_fee_max_days
          → deadline ≤ now_sec + charged_days now_sec (until deadline) * secs_per_day)
      × (now_sec < deadline
          → now_sec + charged_days now_sec (until deadline) * secs_per_day
            < deadline + secs_per_day)
unfolding charged_days
deadline_days_exact now_sec deadline = ground arith

charged_days_mono :
    (now_sec d e : ℕ)
    → d ≤ e
    → (charged_days now_sec (until d) ≤ charged_days now_sec (until e))
      × (charged_days now_sec (until e) ≤ charged_days now_sec once)
unfolding charged_days
charged_days_mono now_sec d e h = ground arith

scaled : (a b k : ℕ) → a ≤ b → a * k ≤ b * k
scaled a b k h = grind arith

-- A later deadline never costs less, and no deadline costs more than an unbounded cadence.
pub estimate_time_fee_mono :
    (now_sec d e lamports_per_day : ℕ)
    → d ≤ e
    → (estimate_time_fee now_sec (until d) lamports_per_day
        ≤ estimate_time_fee now_sec (until e) lamports_per_day)
      × (estimate_time_fee now_sec (until e) lamports_per_day
          ≤ estimate_time_fee now_sec once lamports_per_day)
unfolding estimate_time_fee
estimate_time_fee_mono now_sec d e lamports_per_day h =
    let (later, capped) = charged_days_mono now_sec d e h in
    (scaled _ _ lamports_per_day later, scaled _ _ lamports_per_day capped)
