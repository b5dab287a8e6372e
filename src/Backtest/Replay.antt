-- ===== src/Backtest/Replay.antt =====
-- `runTwoSizeBacktestV2` of packages/market-core/src/two-size-backtest.ts: the rows in the order of
-- time, the loop over them, and the result.
use sotama.Prelude.Int.{pos}
use sotama.Prelude.Num.{Num}
use sotama.Prelude.{
  ◌∷◌, ◌+◌, ℕ, true, some, none, ltb, if◌then◌else◌, false, [], Option, List, Bool,
}
use sotama.Backtest.{
  Books, turn_of, missing_exit_quote, turn, size_of, size_250, size_1000, same_reason,
  recommend_action, position_already_open, non_live, marginal_next_750_edge_bps,
  exit_not_profitable, edge_below_threshold, Skips, SkipReason, Size, RecommendedAction, Options,
  Observation,
}

-- `[...skipped.entries()]` is kept as one count for each reason.
pub record Replay (F : Type 0) : Type 0 where
  pub books : Books F
  pub skips : Skips
  pub live_count : ℕ

abbrev pub inc : Option SkipReason → Skips → Skips
inc none s = s
inc (some reason) s = record {
  non_live = s.non_live + same_reason reason non_live;
  edge_below_threshold = s.edge_below_threshold + same_reason reason edge_below_threshold;
  missing_exit_quote = s.missing_exit_quote + same_reason reason missing_exit_quote;
  position_already_open = s.position_already_open + same_reason reason position_already_open;
  exit_not_profitable = s.exit_not_profitable + same_reason reason exit_not_profitable;
}

abbrev pub live_step : Bool → ℕ
live_step true = 1
live_step false = 0

module _ (N : Num) where
  open N use {F, int}

  abbrev pub empty_books : Books F
  empty_books = record {
    latest_buy = λ size. none;
    latest_sell = λ size. none;
    positions = λ size. none;
    pnl = λ size. int (pos 0);
    closed = λ size. 0;
  }

  abbrev pub start : Replay F
  start = record {
    books = empty_books;
    skips = record {
      non_live = 0;
      edge_below_threshold = 0;
      missing_exit_quote = 0;
      position_already_open = 0;
      exit_not_profitable = 0;
    };
    live_count = 0;
  }

  unfoldable pub step : Options F → Size × Observation F → Replay F → Replay F
  unfolding turn_of
  step options (size, row) r =
      let t = turn N options size row r.books in
      record {
        books = t.0;
        skips = inc t.1 r.skips;
        live_count = r.live_count + live_step row.is_live;
      }

  unfoldable pub replay : Options F → List (Size × Observation F) → Replay F → Replay F
  unfolding step
  replay options [] r = r
  replay options (row ∷ rows) r = replay options rows (step options row r)

  -- `filter`, with the size that a row was kept for
  abbrev pub sized : List (Observation F) → List (Size × Observation F)
  sized [] = []
  sized (row ∷ rows) =
      let rest = sized rows in
      elim (size_of N row.size_usd) [ none ↦ rest | some size ↦ (size, row) ∷ rest ]

  -- `sort` is stable: a row goes before the first later one.
  abbrev pub insert_row :
      Size × Observation F → List (Size × Observation F) → List (Size × Observation F)
  insert_row x [] = x ∷ []
  insert_row x (y ∷ ys) =
      let rest = insert_row x ys in
      if ltb y.1.observed_at_ms x.1.observed_at_ms then y ∷ rest else x ∷ y ∷ ys

  abbrev pub by_time : List (Size × Observation F) → List (Size × Observation F)
  by_time [] = []
  by_time (x ∷ xs) = insert_row x (by_time xs)

  abbrev edge_of : Option (Observation F) → Option F
  edge_of none = none
  edge_of (some row) = some row.net_bps

  pub record Result : Type 0 where
    pub edge_250_bps : Option F
    pub edge_1000_bps : Option F
    pub edge_next_750_bps : Option F
    pub recommended_action : RecommendedAction
    pub final : Replay F

  unfoldable pub run_two_size_backtest_v2 : List (Observation F) → Options F → Result
  unfolding size_of replay marginal_next_750_edge_bps recommend_action
  run_two_size_backtest_v2 observations options =
      let r = replay options (by_time (sized observations)) start in
      let edge_250 = edge_of (r.books.latest_buy size_250) in
      let edge_1000 = edge_of (r.books.latest_buy size_1000) in
      let next_750 =
        marginal_next_750_edge_bps N (r.books.latest_buy size_250) (r.books.latest_buy size_1000)
          options.transaction_cost_bps in
      record {
        edge_250_bps = edge_250;
        edge_1000_bps = edge_1000;
        edge_next_750_bps = next_750;
        recommended_action = recommend_action N edge_250 edge_1000 next_750 r.live_count options;
        final = r;
      }
