-- ===== src/Telemetry.antt =====
-- `SchedulerTelemetry` of services/stat-arb-bot/src/scheduler-telemetry.ts: counters per pair over a
-- window of time.
pub mod Totals
mod Tests
use sotama.Prelude.Text.{set, get, Dict}
use sotama.Prelude.{◌∷◌, ◌+◌, ℕ, or_default, ltb, if◌then◌else◌, [], Option, List, Bool}

pub record PairCounters : Type 0 where
  pub scheduled : ℕ
  pub admitted : ℕ
  pub dropped_rps : ℕ
  pub dropped_stale_pyth : ℕ
  pub dropped_market_session : ℕ

abbrev pub no_counts : PairCounters
no_counts = record {
  scheduled = 0;
  admitted = 0;
  dropped_rps = 0;
  dropped_stale_pyth = 0;
  dropped_market_session = 0;
}

pub record Telemetry : Type 0 where
  pub window_ms : ℕ
  pub window_start_ms : ℕ
  pub per_pair : Dict PairCounters

-- `windowMs` is a minute unless given.
unfoldable pub new_telemetry : Option ℕ → ℕ → Telemetry
new_telemetry window_ms now = record {
  window_ms = or_default window_ms 60000;
  window_start_ms = now;
  per_pair = [];
}

-- `maybeReset`; a clock before the window's start is within it.
unfoldable pub maybe_reset : ℕ → Telemetry → Telemetry
maybe_reset now t =
    if ltb now (t.window_start_ms + t.window_ms)
    then t
    else record { window_ms = t.window_ms; window_start_ms = now; per_pair = [] }

-- The five counters, and the method that adds one to each.
pub data Counter : Type 0 where
  of_scheduled of_admitted of_dropped_rps of_dropped_stale_pyth of_dropped_market_session : Counter

abbrev pub bump : Counter → PairCounters → PairCounters
bump of_scheduled c = record {
  scheduled = c.scheduled + 1;
  admitted = c.admitted;
  dropped_rps = c.dropped_rps;
  dropped_stale_pyth = c.dropped_stale_pyth;
  dropped_market_session = c.dropped_market_session;
}
bump of_admitted c = record {
  scheduled = c.scheduled;
  admitted = c.admitted + 1;
  dropped_rps = c.dropped_rps;
  dropped_stale_pyth = c.dropped_stale_pyth;
  dropped_market_session = c.dropped_market_session;
}
bump of_dropped_rps c = record {
  scheduled = c.scheduled;
  admitted = c.admitted;
  dropped_rps = c.dropped_rps + 1;
  dropped_stale_pyth = c.dropped_stale_pyth;
  dropped_market_session = c.dropped_market_session;
}
bump of_dropped_stale_pyth c = record {
  scheduled = c.scheduled;
  admitted = c.admitted;
  dropped_rps = c.dropped_rps;
  dropped_stale_pyth = c.dropped_stale_pyth + 1;
  dropped_market_session = c.dropped_market_session;
}
bump of_dropped_market_session c = record {
  scheduled = c.scheduled;
  admitted = c.admitted;
  dropped_rps = c.dropped_rps;
  dropped_stale_pyth = c.dropped_stale_pyth;
  dropped_market_session = c.dropped_market_session + 1;
}

abbrev pub count_of : Counter → PairCounters → ℕ
count_of of_scheduled c = c.scheduled
count_of of_admitted c = c.admitted
count_of of_dropped_rps c = c.dropped_rps
count_of of_dropped_stale_pyth c = c.dropped_stale_pyth
count_of of_dropped_market_session c = c.dropped_market_session

-- `this.counters(pairId).… += 1`, where a pair without counters gets a set of zeros first
abbrev pub add_one : Counter → List ℕ → Dict PairCounters → Dict PairCounters
add_one which pair_id d = set pair_id (bump which (or_default (get pair_id d) no_counts)) d

-- `recordScheduled`, `recordAdmitted`, `recordDroppedRps`, `recordDroppedStalePyth` and
-- `recordDroppedMarketSession`, by the counter.
unfoldable pub record_one : Counter → List ℕ → ℕ → Telemetry → Telemetry
unfolding maybe_reset
record_one which pair_id now t =
    let u = maybe_reset now t in
    record {
      window_ms = u.window_ms;
      window_start_ms = u.window_start_ms;
      per_pair = add_one which pair_id u.per_pair;
    }

abbrev pub total : Counter → Dict PairCounters → ℕ
total which [] = 0
total which ((pair_id, c) ∷ rest) = count_of which c + total which rest

pub record Snapshot : Type 0 where
  pub scheduled_quotes_1m : ℕ
  pub admitted_quotes_1m : ℕ
  pub dropped_due_to_rps_1m : ℕ
  pub dropped_due_to_stale_pyth_1m : ℕ
  pub dropped_due_to_market_session_1m : ℕ
  pub per_pair : Dict PairCounters

-- The rows in the order of `localeCompare`, which `before` stands for.
abbrev pub insert :
    (List ℕ → List ℕ → Bool) → List ℕ × PairCounters → Dict PairCounters → Dict PairCounters
insert before row [] = row ∷ []
insert before row (r ∷ rows) =
    if before r.0 row.0 then r ∷ insert before row rows else row ∷ r ∷ rows

abbrev pub sorted : (List ℕ → List ℕ → Bool) → Dict PairCounters → Dict PairCounters
sorted before [] = []
sorted before (row ∷ rows) = insert before row (sorted before rows)

unfoldable pub snapshot : (List ℕ → List ℕ → Bool) → ℕ → Telemetry → Snapshot × Telemetry
unfolding maybe_reset
snapshot before now t =
    let u = maybe_reset now t in
    (
      record {
        scheduled_quotes_1m = total of_scheduled u.per_pair;
        admitted_quotes_1m = total of_admitted u.per_pair;
        dropped_due_to_rps_1m = total of_dropped_rps u.per_pair;
        dropped_due_to_stale_pyth_1m = total of_dropped_stale_pyth u.per_pair;
        dropped_due_to_market_session_1m = total of_dropped_market_session u.per_pair;
        per_pair = sorted before u.per_pair;
      },
      u,
    )
