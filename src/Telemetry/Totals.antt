-- ===== src/Telemetry/Totals.antt =====
-- What the snapshots of `SchedulerTelemetry` count.
use sotama.Prelude.{
  subst, or_default, ◌≤◌, ◌∙◌, sym, ltb, false, ap, refl, lt→ltb, inr, inl, if◌then◌else◌,
  Bool-cases, Bool, All, ◌≡◌, ◌∷◌, ◌<◌, ◌+◌, ℕ, arith, [], List,
}
use sotama.Prelude.Text.{set, get, same_text, Dict}
use sotama.Telemetry.{
  sorted, snapshot, no_counts, maybe_reset, insert, Snapshot, total, record_one, of_scheduled,
  of_dropped_stale_pyth, of_dropped_rps, of_dropped_market_session, of_admitted, count_of, bump,
  add_one, Telemetry, PairCounters, Counter,
}

abbrev pub is_same : Counter → Counter → ℕ
is_same of_scheduled of_scheduled = 1
is_same of_admitted of_admitted = 1
is_same of_dropped_rps of_dropped_rps = 1
is_same of_dropped_stale_pyth of_dropped_stale_pyth = 1
is_same of_dropped_market_session of_dropped_market_session = 1
is_same _ _ = 0

count_of-bump :
    (which k : Counter) (c : PairCounters)
    → count_of k (bump which c) ≡ is_same which k + count_of k c
count_of-bump of_scheduled k c = ground arith
count_of-bump of_admitted k c = ground arith
count_of-bump of_dropped_rps k c = ground arith
count_of-bump of_dropped_stale_pyth k c = ground arith
count_of-bump of_dropped_market_session k c = ground arith

count_of-none : (k : Counter) → count_of k no_counts ≡ 0
count_of-none of_scheduled = refl
count_of-none of_admitted = refl
count_of-none of_dropped_rps = refl
count_of-none of_dropped_stale_pyth = refl
count_of-none of_dropped_market_session = refl

total-replace :
    (k : Counter) (pair_id : List ℕ) (v : PairCounters) (d : Dict PairCounters)
    → total k (set pair_id v d) + count_of k (or_default (get pair_id d) no_counts)
      ≡ count_of k v + total k d
total-replace k pair_id v [] = let none_of = count_of-none k in omega (arith, none_of)
total-replace k pair_id v ((j, c) ∷ rest) =
    let later = total-replace k pair_id v rest in
    elim (Bool-cases (same_text pair_id j)) [
      | inl e ↦ rw (e, if◌then◌else◌) (omega arith)
      | inr e ↦ rw (e, if◌then◌else◌) (omega (arith, later))
    ]

total-set :
    (which k : Counter) (pair_id : List ℕ) (d : Dict PairCounters)
    → total k (add_one which pair_id d) ≡ is_same which k + total k d
total-set which k pair_id d =
    let old = or_default (get pair_id d) no_counts in
    let one = count_of-bump which k old in
    omega (arith, one, total-replace k pair_id (bump which old) d)

-- One `record…` at a time.
pub record Record : Type 0 where
  pub which : Counter
  pub pair_id : List ℕ
  pub now : ℕ

unfoldable pub record_all : List Record → Telemetry → Telemetry
record_all [] t = t
record_all (r ∷ rs) t = record_all rs (record_one r.which r.pair_id r.now t)

-- How many of them are for a counter, whatever the pair.
abbrev pub occurrences : Counter → List Record → ℕ
occurrences k [] = 0
occurrences k (r ∷ rs) = is_same r.which k + occurrences k rs

abbrev pub IsInWindow : Telemetry → Record → Type 0
IsInWindow t r = r.now < t.window_start_ms + t.window_ms

abbrev counted : Record → Telemetry → Telemetry
counted r t = record {
  window_ms = t.window_ms;
  window_start_ms = t.window_start_ms;
  per_pair = add_one r.which r.pair_id t.per_pair;
}

record_one-in_window :
    (r : Record) (t : Telemetry)
    → IsInWindow t r
    → record_one r.which r.pair_id r.now t ≡ counted r t
unfolding record_one maybe_reset
record_one-in_window r t h =
    let within = lt→ltb r.now (t.window_start_ms + t.window_ms) h in
    rw (within, maybe_reset, if◌then◌else◌) refl

record_all-total :
    (rs : List Record) (t : Telemetry) (k : Counter)
    → All (IsInWindow t) rs
    → (total k (record_all rs t).per_pair ≡ occurrences k rs + total k t.per_pair)
      × ((record_all rs t).window_start_ms ≡ t.window_start_ms)
      × ((record_all rs t).window_ms ≡ t.window_ms)
unfolding record_all
record_all-total [] t k h = (omega arith, refl, refl)
record_all-total (r ∷ rs) t k h =
    let now = total-set r.which k r.pair_id t.per_pair in
    let (later, start, long) = record_all-total rs (counted r t) k h.1 in
    subst
      (λ u.
        (total k (record_all rs u).per_pair ≡ occurrences k (r ∷ rs) + total k t.per_pair)
        × ((record_all rs u).window_start_ms ≡ t.window_start_ms)
        × ((record_all rs u).window_ms ≡ t.window_ms))
      (sym (record_one-in_window r t h.0)) (omega (arith, now, later), start, long)

-- What a snapshot says of a counter.
abbrev pub shown : Counter → Snapshot → ℕ
shown of_scheduled s = s.scheduled_quotes_1m
shown of_admitted s = s.admitted_quotes_1m
shown of_dropped_rps s = s.dropped_due_to_rps_1m
shown of_dropped_stale_pyth s = s.dropped_due_to_stale_pyth_1m
shown of_dropped_market_session s = s.dropped_due_to_market_session_1m

shown-snapshot :
    (before : List ℕ → List ℕ → Bool) (now : ℕ) (t : Telemetry) (k : Counter)
    → shown k (snapshot before now t).0 ≡ total k (maybe_reset now t).per_pair
unfolding snapshot
shown-snapshot before now t of_scheduled = refl
shown-snapshot before now t of_admitted = refl
shown-snapshot before now t of_dropped_rps = refl
shown-snapshot before now t of_dropped_stale_pyth = refl
shown-snapshot before now t of_dropped_market_session = refl

total-insert :
    (before : List ℕ → List ℕ → Bool) (k : Counter) (row : List ℕ × PairCounters)
    (rows : Dict PairCounters)
    → total k (insert before row rows) ≡ count_of k row.1 + total k rows
total-insert before k row [] = refl
total-insert before k row (r ∷ rows) =
    let later = total-insert before k row rows in
    elim (Bool-cases (before r.0 row.0)) [
      | inl e ↦ rw (e, if◌then◌else◌) (omega (arith, later))
      | inr e ↦ rw (e, if◌then◌else◌) (omega arith)
    ]

total-sorted :
    (before : List ℕ → List ℕ → Bool) (k : Counter) (rows : Dict PairCounters)
    → total k (sorted before rows) ≡ total k rows
total-sorted before k [] = refl
total-sorted before k (row ∷ rows) =
    let first = total-insert before k row (sorted before rows) in
    omega (arith, first, total-sorted before k rows)

-- Records made within the window that a telemetry is in are all counted, and only they: a snapshot
-- within the window shows, for each counter, what there was and one for each record of it, whatever
-- the pairs; and its rows add up to that.
pub snapshot-totals :
    (before : List ℕ → List ℕ → Bool) (rs : List Record) (t : Telemetry) (now : ℕ) (k : Counter)
    → All (IsInWindow t) rs
    → now < t.window_start_ms + t.window_ms
    → (shown k (snapshot before now (record_all rs t)).0 ≡ occurrences k rs + total k t.per_pair)
      × (total k (snapshot before now (record_all rs t)).0.per_pair
          ≡ shown k (snapshot before now (record_all rs t)).0)
unfolding snapshot maybe_reset
snapshot-totals before rs t now k h inside =
    let (sum, start, long) = record_all-total rs t k h in
    let u = record_all rs t in
    let within =
      lt→ltb now (u.window_start_ms + u.window_ms) (omega (arith, start, long, inside)) in
    let kept : maybe_reset now u ≡ u = rw (within, maybe_reset, if◌then◌else◌) refl in
    let first = shown-snapshot before now u k in
    let rows = total-sorted before k (maybe_reset now u).per_pair in
    let same = ap (λ v. total k v.per_pair) kept in (first ∙ same ∙ sum, rows ∙ sym first)

-- A window that is over by the time of a record leaves only that record: every counter restarts.
pub record_one-restarts :
    (which k : Counter) (pair_id : List ℕ) (now : ℕ) (t : Telemetry)
    → t.window_start_ms + t.window_ms ≤ now
    → (total k (record_one which pair_id now t).per_pair ≡ is_same which k)
      × ((record_one which pair_id now t).window_start_ms ≡ now)
unfolding record_one maybe_reset
record_one-restarts which k pair_id now t over =
    let late : ltb now (t.window_start_ms + t.window_ms) ≡ false = ground arith in
    rw (late, maybe_reset, if◌then◌else◌) (omega (arith, total-set which k pair_id []), refl)
