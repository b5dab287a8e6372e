-- ===== src/Backtest.antt =====
-- packages/market-core/src/two-size-backtest.ts: a replay of observed quotes that opens and closes
-- one position for each of two trade sizes. `F` is `number`; `a >= b` is `le b a`.
pub mod Replay
pub mod Branches
pub mod Moves
pub mod Apart
mod Tests
use sotama.Prelude.Int.{pos}
use sotama.Prelude.Num.{Num}
use sotama.Prelude.{
  ◌||◌, ◌+◌, ◌&&◌, ℕ, true, some, not, none, ltb, leb, is_some, if◌then◌else◌, false, Option, Bool,
}

-- `250` and `1000`: the sizes of `SIZES`
pub data Size : Type 0 where
  size_250 size_1000 : Size

pub data Side : Type 0 where
  buy_tokenized sell_tokenized : Side

pub data SkipReason : Type 0 where
  non_live edge_below_threshold missing_exit_quote position_already_open : SkipReason
  exit_not_profitable : SkipReason

pub data RecommendedAction : Type 0 where
  do_nothing trade_250 trade_1000 research_only : RecommendedAction

-- `is_live` is `qualityStatus === "LIVE_ELIGIBLE"`.
pub record Observation (F : Type 0) : Type 0 where
  pub side : Side
  pub size_usd : F
  pub observed_at_ms : ℕ
  pub base_price_usd : F
  pub token_price_usd : F
  pub net_bps : F
  pub is_live : Bool

pub record Options (F : Type 0) : Type 0 where
  pub min_net_edge_bps : F
  pub transaction_cost_bps : F
  pub min_live_samples : ℕ
  pub is_research_only : Bool

pub record Position (F : Type 0) : Type 0 where
  pub token_units : F
  pub entry_at_ms : ℕ

-- The maps `latestBuy`, `latestSell`, `positions`, `pnl` and `closed`, which all sizes share, keyed by
-- the size.
pub record Books (F : Type 0) : Type 0 where
  pub latest_buy : Size → Option (Observation F)
  pub latest_sell : Size → Option (Observation F)
  pub positions : Size → Option (Position F)
  pub pnl : Size → F
  pub closed : Size → ℕ

-- `map.set(size, x)`
unfoldable pub set_at : {A : Type 0} → Size → A → (Size → A) → Size → A
set_at size_250 x f size_250 = x
set_at size_1000 x f size_1000 = x
set_at size x f key = f key

pub record Skips : Type 0 where
  pub non_live : ℕ
  pub edge_below_threshold : ℕ
  pub missing_exit_quote : ℕ
  pub position_already_open : ℕ
  pub exit_not_profitable : ℕ

-- The maps after a row, and the reason by which the row was skipped, if it was.
abbrev pub Turn : Type 0 → Type 0
Turn F = Books F × Option SkipReason

abbrev pub same_reason : SkipReason → SkipReason → ℕ
same_reason non_live non_live = 1
same_reason edge_below_threshold edge_below_threshold = 1
same_reason missing_exit_quote missing_exit_quote = 1
same_reason position_already_open position_already_open = 1
same_reason exit_not_profitable exit_not_profitable = 1
same_reason _ _ = 0

module _ (N : Num) where
  open N use {F, int, add, sub, mul, div, lt, le, eq}

  -- `SIZES.includes(row.sizeUsd)`, with the size that it is
  unfoldable pub size_of : F → Option Size
  size_of x =
      if eq x (int (pos 250))
      then some size_250
      else if eq x (int (pos 1000))
      then some size_1000
      else none

  abbrev pub cost_of : F → F → F
  cost_of x transaction_cost_bps = mul x (div transaction_cost_bps (int (pos 10000)))

  unfoldable pub compute_spot_exit_pnl_usd : F → F → F → F → F
  compute_spot_exit_pnl_usd size_usd token_units exit_token_price_usd transaction_cost_bps =
      let gross = mul token_units exit_token_price_usd in
      sub (sub (sub gross size_usd) (cost_of size_usd transaction_cost_bps))
        (cost_of gross transaction_cost_bps)

  abbrev pub opened : Size → Observation F → Books F → Books F
  opened size row bs = record bs {
    positions =
        set_at size
          (some (record {
            token_units = div row.size_usd row.token_price_usd;
            entry_at_ms = row.observed_at_ms;
          }))
          bs.positions;
  }

  -- `size` is the row's, as a key of the maps.
  unfoldable pub maybe_open : Options F → Size → Observation F → Books F → Turn F
  unfolding set_at
  maybe_open options size row bs =
      if lt row.net_bps options.min_net_edge_bps
      then (bs, some edge_below_threshold)
      else if is_some (bs.positions size)
      then (bs, some position_already_open)
      else if not (is_some (bs.latest_sell size))
      then (bs, some missing_exit_quote)
      else if le row.token_price_usd (int (pos 0))
      then (bs, none)
      else (opened size row bs, none)

  abbrev pub exit_pnl : Options F → Observation F → Position F → F
  exit_pnl options row p =
      compute_spot_exit_pnl_usd row.size_usd p.token_units row.token_price_usd
        options.transaction_cost_bps

  abbrev pub closed_with : Size → F → Books F → Books F
  closed_with size profit bs = record bs {
    pnl = set_at size (add (bs.pnl size) profit) bs.pnl;
    closed = set_at size (bs.closed size + 1) bs.closed;
    positions = set_at size none bs.positions;
  }

  unfoldable pub maybe_close : Options F → Size → Observation F → Books F → Turn F
  unfolding set_at
  maybe_close options size row bs = elim (bs.positions size) [
    | none ↦ (bs, none)
    | some p ↦
        if leb row.observed_at_ms p.entry_at_ms
        then (bs, none)
        else if lt (exit_pnl options row p) (int (pos 0))
        then (bs, some exit_not_profitable)
        else (closed_with size (exit_pnl options row p) bs, none)
  ]

  abbrev pub bought : Size → Observation F → Books F → Books F
  bought size row bs = record bs { latest_buy = set_at size (some row) bs.latest_buy }

  abbrev pub sold : Size → Observation F → Books F → Books F
  sold size row bs = record bs { latest_sell = set_at size (some row) bs.latest_sell }

  -- The body of the loop; `is_live` and `side` are the row's.
  unfoldable pub turn_of :
      (is_live : Bool) → Side → Options F → Size → Observation F → Books F → Turn F
  unfolding maybe_open maybe_close
  turn_of false side options size row bs = (bs, some non_live)
  turn_of true buy_tokenized options size row bs = maybe_open options size row (bought size row bs)
  turn_of true sell_tokenized options size row bs = maybe_close options size row (sold size row bs)

  abbrev pub turn : Options F → Size → Observation F → Books F → Turn F
  turn options size row bs = turn_of row.is_live row.side options size row bs

  unfoldable pub marginal_next_750_edge_bps :
      Option (Observation F) → Option (Observation F) → F → Option F
  marginal_next_750_edge_bps (some small) (some large) transaction_cost_bps =
      let zero_usd = int (pos 0) in
      let out_next =
        sub (div (int (pos 1000)) large.token_price_usd)
          (div (int (pos 250)) small.token_price_usd) in
      if le small.base_price_usd zero_usd || le large.base_price_usd zero_usd
      then none
      else if le small.token_price_usd zero_usd || le large.token_price_usd zero_usd
      then none
      else if le out_next zero_usd
      then none
      else some (
          sub
            (mul
              (div (sub large.base_price_usd (div (int (pos 750)) out_next)) large.base_price_usd)
              (int (pos 10000)))
            transaction_cost_bps)
  marginal_next_750_edge_bps _ _ transaction_cost_bps = none

  -- An edge that is not there is -Infinity: below every threshold, and not at least it.
  abbrev pub is_below : Option F → F → Bool
  is_below none least = true
  is_below (some x) least = lt x least

  abbrev pub reaches : Option F → F → Bool
  reaches none least = false
  reaches (some x) least = le least x

  abbrev pub first_present : Option F → Option F → Option F
  first_present none y = y
  first_present (some x) y = some x

  unfoldable pub recommend_action :
      Option F → Option F → Option F → ℕ → Options F → RecommendedAction
  recommend_action edge_250 edge_1000 edge_next_750 live_count options =
      if options.is_research_only || ltb live_count options.min_live_samples
      then research_only
      else if is_below edge_250 options.min_net_edge_bps
          && is_below edge_1000 options.min_net_edge_bps
      then do_nothing
      else if reaches edge_1000 options.min_net_edge_bps
          && reaches (first_present edge_next_750 edge_1000) options.min_net_edge_bps
      then trade_1000
      else if reaches edge_250 options.min_net_edge_bps
      then trade_250
      else do_nothing
