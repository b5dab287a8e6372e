-- ===== src/Horizon.antt =====
-- packages/market-core/src/hold-horizon.ts: for each horizon, a replay of live quotes that holds a
-- position of each size until it can be sold at no loss or the horizon is over. `F` is `number`;
-- times are milliseconds. The maps are association lists over the sizes, in the order of insertion.
pub mod Balanced
pub mod Totals
mod Tests
use sotama.Backtest.{Observation, Side, buy_tokenized, sell_tokenized}
use sotama.Prelude.Int.{pos}
use sotama.Prelude.Num.{Num}
use sotama.Prelude.{
  ◌∷◌, ◌+◌, ◌-◌, ◌*◌, ◌++◌, ◌&&◌, ◌||◌, ◌==◌, ℕ, true, some, select, not, none, map, leb, any,
  is_some, if◌then◌else◌, false, [], Option, List, Bool,
}

pub record Position (F : Type 0) : Type 0 where
  pub size_usd : F
  pub token_units : F
  pub entry_at_ms : ℕ
  pub entry_ratio : Option F

-- `MutableSizeResult`, without the fields that only `finalizeSizeResult` fills.
pub record SizeResult (F : Type 0) : Type 0 where
  pub size_usd : F
  pub pnl_usd : F
  pub closed_trades : ℕ
  pub winning_trades : ℕ
  pub timed_out_trades : ℕ
  pub open_positions : ℕ
  pub deployed_usd : F
  pub hold_seconds_sum : F
  pub deployed_usd_seconds : F
  pub ratio_move_bps_sum : F
  pub ratio_move_count : ℕ

pub record Options (F : Type 0) : Type 0 where
  pub min_net_edge_bps : F
  pub transaction_cost_bps : F
  pub horizons_ms : List ℕ

-- The variables of `runOneHorizon`.
pub record Replay (F : Type 0) : Type 0 where
  pub positions : List (Position F)
  pub sell_route_seen : List F
  pub results : List (SizeResult F)

-- What a result row reports; for a size, and for all of them together.
pub record Report (F : Type 0) : Type 0 where
  pub pnl_usd : F
  pub closed_trades : ℕ
  pub winning_trades : ℕ
  pub timed_out_trades : ℕ
  pub open_positions : ℕ
  pub deployed_usd : F
  pub return_pct : F
  pub annualized_return_pct : Option F
  pub avg_ratio_move_bps : Option F
  pub win_rate : F
  pub avg_hold_seconds : F

pub record HorizonRow (F : Type 0) : Type 0 where
  pub horizon_ms : ℕ
  pub sample_window_ms : ℕ
  pub horizon_covered : Bool
  pub totals : Report F
  pub size_results : List (F × Report F)

module _ (N : Num) where
  open N use {F, int, add, sub, mul, div, lt, le, eq}

  abbrev pub zero_num : F
  zero_num = int (pos 0)

  unfoldable pub compute_spot_exit_pnl_usd : F → F → F → F → F
  compute_spot_exit_pnl_usd size_usd token_units exit_token_price_usd transaction_cost_bps =
      let gross = mul token_units exit_token_price_usd in
      let rate = div transaction_cost_bps (int (pos 10000)) in
      sub (sub (sub gross size_usd) (mul size_usd rate)) (mul gross rate)

  -- `positions.get(size)`
  abbrev pub position_of : F → List (Position F) → Option (Position F)
  position_of size [] = none
  position_of size (p ∷ ps) = if eq p.size_usd size then some p else position_of size ps

  -- `positions.delete(size)`
  abbrev pub without : F → List (Position F) → List (Position F)
  without size = select (λ p. not (eq p.size_usd size))

  abbrev pub no_trades : F → SizeResult F
  no_trades size = record {
    size_usd = size;
    pnl_usd = zero_num;
    closed_trades = 0;
    winning_trades = 0;
    timed_out_trades = 0;
    open_positions = 0;
    deployed_usd = zero_num;
    hold_seconds_sum = zero_num;
    deployed_usd_seconds = zero_num;
    ratio_move_bps_sum = zero_num;
    ratio_move_count = 0;
  }

  -- `ensureResult`, and a change of the result that it returns
  unfoldable pub ensure_result :
      F → (SizeResult F → SizeResult F) → List (SizeResult F) → List (SizeResult F)
  ensure_result size change [] = change (no_trades size) ∷ []
  ensure_result size change (r ∷ rs) =
      if eq r.size_usd size then change r ∷ rs else r ∷ ensure_result size change rs

  unfoldable pub compute_ratio : Observation F → Option F
  compute_ratio row =
      if lt zero_num row.base_price_usd && lt zero_num row.token_price_usd
      then some (div row.token_price_usd row.base_price_usd)
      else none

  unfoldable pub compute_ratio_move_bps : Option F → Option F → Option F
  compute_ratio_move_bps (some entry) (some exit) =
      if le entry zero_num
      then none
      else some (mul (sub (div exit entry) (int (pos 1))) (int (pos 10000)))
  compute_ratio_move_bps _ _ = none

  unfoldable pub maybe_open : Options F → Observation F → Replay F → Replay F
  maybe_open options row s =
      if is_some (position_of row.size_usd s.positions)
        || not (any (λ x. eq x row.size_usd) s.sell_route_seen)
        || lt row.net_bps options.min_net_edge_bps
        || le row.token_price_usd zero_num
      then s
      else record s {
        positions =
            s.positions
            ++ (record {
              size_usd = row.size_usd;
              token_units = div row.size_usd row.token_price_usd;
              entry_at_ms = row.observed_at_ms;
              entry_ratio = compute_ratio row;
            })
              ∷ [];
      }

  abbrev pub one_if : Bool → ℕ
  one_if true = 1
  one_if false = 0

  abbrev pub cent : F
  cent = div (int (pos 1)) (int (pos 100))

  -- What a close adds to its size's result.
  abbrev pub closed_result : F → Bool → F → F → Option F → SizeResult F → SizeResult F
  closed_result pnl timed_out size hold_seconds ratio_move r = record {
    size_usd = r.size_usd;
    pnl_usd = add r.pnl_usd pnl;
    closed_trades = r.closed_trades + 1;
    winning_trades = r.winning_trades + one_if (lt cent pnl);
    timed_out_trades = r.timed_out_trades + one_if (timed_out && not (le zero_num pnl));
    open_positions = r.open_positions;
    deployed_usd = add r.deployed_usd size;
    hold_seconds_sum = add r.hold_seconds_sum hold_seconds;
    deployed_usd_seconds = add r.deployed_usd_seconds (mul size hold_seconds);
    ratio_move_bps_sum = elim ratio_move [
      | none ↦ r.ratio_move_bps_sum
      | some m ↦ add r.ratio_move_bps_sum m
    ];
    ratio_move_count = r.ratio_move_count + one_if (is_some ratio_move);
  }

  -- The part of `maybeClose` for a position that is there and entered before the row.
  unfoldable pub close_position : Options F → ℕ → Observation F → Position F → Replay F → Replay F
  close_position options horizon_ms row p s =
      let pnl =
        compute_spot_exit_pnl_usd p.size_usd p.token_units row.token_price_usd
          options.transaction_cost_bps in
      let timed_out = leb (p.entry_at_ms + horizon_ms) row.observed_at_ms in
      let hold_seconds = div (int (pos (row.observed_at_ms - p.entry_at_ms))) (int (pos 1000)) in
      if not (le zero_num pnl) && not timed_out then s else record s {
        positions = without row.size_usd s.positions;
        results =
            ensure_result row.size_usd
              (closed_result pnl timed_out p.size_usd hold_seconds
                (compute_ratio_move_bps p.entry_ratio (compute_ratio row)))
              s.results;
      }

  unfoldable pub maybe_close : Options F → ℕ → Observation F → Replay F → Replay F
  maybe_close options horizon_ms row s = elim (position_of row.size_usd s.positions) [
    | none ↦ s
    | some p ↦
        if leb row.observed_at_ms p.entry_at_ms
        then s
        else close_position options horizon_ms row p s
  ]

  -- The body of the loop, by the row's side.
  abbrev pub step_of : Side → Options F → ℕ → Observation F → Replay F → Replay F
  step_of sell_tokenized options horizon_ms row s =
      maybe_close options horizon_ms row
        (record s { sell_route_seen = row.size_usd ∷ s.sell_route_seen })
  step_of buy_tokenized options horizon_ms row s = maybe_open options row s

  unfoldable pub step : Options F → ℕ → Observation F → Replay F → Replay F
  step options horizon_ms row s =
      step_of row.side options horizon_ms row
        (record s { results = ensure_result row.size_usd (λ r. r) s.results })

  unfoldable pub replay : Options F → ℕ → List (Observation F) → Replay F → Replay F
  replay options horizon_ms [] s = s
  replay options horizon_ms (row ∷ rows) s =
      replay options horizon_ms rows (step options horizon_ms row s)

  abbrev pub blank : Replay F
  blank = record { positions = []; sell_route_seen = []; results = [] }

  abbrev pub one_open : SizeResult F → SizeResult F
  one_open r = record r { open_positions = r.open_positions + 1 }

  -- The loop over the positions that are still open.
  unfoldable pub count_open : List (Position F) → List (SizeResult F) → List (SizeResult F)
  count_open [] results = results
  count_open (p ∷ ps) results = count_open ps (ensure_result p.size_usd one_open results)

  -- `resultRows.reduce`, from the left: the number fields are sums of doubles.
  abbrev pub add_results : SizeResult F → SizeResult F → SizeResult F
  add_results acc r = record {
    size_usd = acc.size_usd;
    pnl_usd = add acc.pnl_usd r.pnl_usd;
    closed_trades = acc.closed_trades + r.closed_trades;
    winning_trades = acc.winning_trades + r.winning_trades;
    timed_out_trades = acc.timed_out_trades + r.timed_out_trades;
    open_positions = acc.open_positions + r.open_positions;
    deployed_usd = add acc.deployed_usd r.deployed_usd;
    hold_seconds_sum = add acc.hold_seconds_sum r.hold_seconds_sum;
    deployed_usd_seconds = add acc.deployed_usd_seconds r.deployed_usd_seconds;
    ratio_move_bps_sum = add acc.ratio_move_bps_sum r.ratio_move_bps_sum;
    ratio_move_count = acc.ratio_move_count + r.ratio_move_count;
  }

  unfoldable pub total_of : SizeResult F → List (SizeResult F) → SizeResult F
  total_of acc [] = acc
  total_of acc (r ∷ rs) = total_of (add_results acc r) rs

  -- `sort((a, b) => a.sizeUsd - b.sizeUsd)`
  abbrev pub insert_size : SizeResult F → List (SizeResult F) → List (SizeResult F)
  insert_size r [] = r ∷ []
  insert_size r (q ∷ qs) = if le r.size_usd q.size_usd then r ∷ q ∷ qs else q ∷ insert_size r qs

  abbrev pub by_size : List (SizeResult F) → List (SizeResult F)
  by_size [] = []
  by_size (r ∷ rs) = insert_size r (by_size rs)

  abbrev pub whole : ℕ → F
  whole n = int (pos n)

  abbrev pub seconds_per_year : F
  seconds_per_year = whole (365 * 24 * 60 * 60)

  abbrev pub compute_return_pct : F → F → F
  compute_return_pct pnl deployed = if eq deployed zero_num then zero_num else div pnl deployed

  abbrev pub compute_annualized_return_pct : F → F → Option F
  compute_annualized_return_pct pnl usd_seconds =
      if eq usd_seconds zero_num then none else some (div (mul pnl seconds_per_year) usd_seconds)

  abbrev pub compute_average_ratio_move_bps : F → ℕ → Option F
  compute_average_ratio_move_bps bps_sum moves =
      if moves == 0 then none else some (div bps_sum (whole moves))

  -- `finalizeSizeResult`, and the same fields of the totals
  abbrev pub report_of : SizeResult F → Report F
  report_of r = record {
    pnl_usd = r.pnl_usd;
    closed_trades = r.closed_trades;
    winning_trades = r.winning_trades;
    timed_out_trades = r.timed_out_trades;
    open_positions = r.open_positions;
    deployed_usd = r.deployed_usd;
    return_pct = compute_return_pct r.pnl_usd r.deployed_usd;
    annualized_return_pct = compute_annualized_return_pct r.pnl_usd r.deployed_usd_seconds;
    avg_ratio_move_bps = compute_average_ratio_move_bps r.ratio_move_bps_sum r.ratio_move_count;
    win_rate =
        if r.closed_trades == 0
        then zero_num
        else div (whole r.winning_trades) (whole r.closed_trades);
    avg_hold_seconds =
        if r.closed_trades == 0 then zero_num else div r.hold_seconds_sum (whole r.closed_trades);
  }

  abbrev pub result_rows : Replay F → List (SizeResult F)
  result_rows s = by_size (count_open s.positions s.results)

  unfoldable pub run_one_horizon : List (Observation F) → ℕ → ℕ → Options F → HorizonRow F
  run_one_horizon rows horizon_ms sample_window_ms options =
      let results = result_rows (replay options horizon_ms rows blank) in
      record {
        horizon_ms = horizon_ms;
        sample_window_ms = sample_window_ms;
        horizon_covered = leb horizon_ms sample_window_ms;
        totals = report_of (total_of (no_trades zero_num) results);
        size_results = map (λ r. (r.size_usd, report_of r)) results;
      }

  -- `sort((a, b) => a.observedAtMs - b.observedAtMs)`, which is stable
  abbrev pub insert_row : Observation F → List (Observation F) → List (Observation F)
  insert_row row [] = row ∷ []
  insert_row row (q ∷ qs) =
      if leb row.observed_at_ms q.observed_at_ms then row ∷ q ∷ qs else q ∷ insert_row row qs

  abbrev pub by_time : List (Observation F) → List (Observation F)
  by_time [] = []
  by_time (row ∷ rows) = insert_row row (by_time rows)

  abbrev pub last_time : ℕ → List (Observation F) → ℕ
  last_time t [] = t
  last_time t (row ∷ rows) = last_time row.observed_at_ms rows

  abbrev pub sample_window : List (Observation F) → ℕ
  sample_window [] = 0
  sample_window (row ∷ rows) = last_time row.observed_at_ms rows - row.observed_at_ms

  unfoldable pub run_hold_horizon_replay : List (Observation F) → Options F → List (HorizonRow F)
  run_hold_horizon_replay observations options =
      let rows = by_time (select (λ row. row.is_live) observations) in
      map (λ horizon_ms. run_one_horizon rows horizon_ms (sample_window rows) options)
        options.horizons_ms
