-- ===== src/Trading/Engine.antt =====
-- `SignalEngine` of services/stat-arb-bot/src/signal-engine.ts. A quote to buy may open a position, a
-- quote to sell may close the open positions of its pair and size. The executor is the interface
-- `TradeExecution`; an engine without one acts as with one in mode paper. `await` lets nothing else
-- run on the table here: observations are taken one after the other.
pub mod Observe
pub mod Lifecycle
pub mod Single
pub mod Backed
pub mod Verdict
pub mod Live
pub mod Race
use sotama.Backtest.{Side, sell_tokenized}
use sotama.Prelude.Int.{ℤ, pos, negsuc}
use sotama.Prelude.Num.{Num}
use sotama.Quality.{QuoteQualityStatus}
use sotama.Trading.Signals.{
  Entry, Outcome, closed_win, closed_loss, closed_flat, closed_stale, ExitReason, converged, stale,
  Exit, Signal, SignalTable, SignalKey,
}
use sotama.Trading.{
  PairConfig, TradeExecutionMode, TradeExecutionAction, success, TradeExecutionInput,
  TradeExecutionResult, Executed, returned, threw, paper, jupiter_dry_run, is_success,
  open_position,
}
use sotama.Prelude.{
  ◌∷◌, [], ◌+◌, ◌&&◌, ◌≡◌, ℕ, true, some, none, leb, is_some, if◌then◌else◌, false, String, Option,
  List, Bool,
}

-- What the engine asks of the executor, and what it relies on: a success leaves a record of the
-- action under the id that it returns, and records stay. `Log` is what the executor keeps.
pub record TradeExecution (F : Type 0) : Type 1 where
  pub Log : Type 0
  pub mode : TradeExecutionMode
  pub execute : TradeExecutionInput F → Log → Executed × Log
  pub attach : (execution_id signal_id : ℕ) → Log → Log
  pub output_token_units : TradeExecutionResult → PairConfig F → Option F
  pub Recorded : TradeExecutionAction → ℕ → Log → Type 0
  pub success_recorded :
      (args : TradeExecutionInput F) (log : Log) (r : TradeExecutionResult)
      → (execute args log).0 ≡ returned r
      → r.status ≡ success
      → (id : ℕ) × (r.execution_id ≡ some id) × Recorded args.action id (execute args log).1
  pub execute_keeps :
      (args : TradeExecutionInput F) (log : Log) (action : TradeExecutionAction) (id : ℕ)
      → Recorded action id log
      → Recorded action id (execute args log).1
  pub attach_keeps :
      (execution_id signal_id : ℕ) (log : Log) (action : TradeExecutionAction) (id : ℕ)
      → Recorded action id log
      → Recorded action id (attach execution_id signal_id log)

pub record EngineConfig (F : Type 0) : Type 0 where
  pub stale_after_ms : ℕ
  pub transaction_cost_bps : F

pub record Observed (F : Type 0) : Type 0 where
  pub pair : PairConfig F
  pub side : Side
  pub size_usd : F
  pub base_price_usd : F
  pub token_price_usd : F
  pub net_edge_bps : F
  pub quote_id : ℕ
  pub basis_id : ℕ
  pub quality_status : QuoteQualityStatus
  pub quality_reason : String
  pub observed_at_ms : ℕ
  pub now_ms : ℕ

pub record World (F Log : Type 0) : Type 0 where
  pub signals : SignalTable F
  pub log : Log

-- How the promise of an observation settles.
pub data Ended : Type 0 where
  finished : Ended
  failed_with : String → Ended

-- The executor's result, `null` if it was not asked, or the error that it threw.
pub data Call : Type 0 where
  no_execution : Call
  execution : TradeExecutionResult → Call
  call_threw : String → Call

abbrev pub called : {Log : Type 0} → Executed × Log → Call × Log
called (returned r, log) = (execution r, log)
called (threw message, log) = (call_threw message, log)

-- `execution?.status === "success"`
abbrev pub has_succeeded : Call → Bool
has_succeeded (execution r) = is_success r.status
has_succeeded _ = false

abbrev pub execution_id_of : Call → Option ℕ
execution_id_of (execution r) = r.execution_id
execution_id_of _ = none

abbrev pub mode_of : Call → TradeExecutionMode
mode_of (execution r) = r.mode
mode_of _ = paper

-- `position.executionMode` is neither "paper" nor "jupiter-dry-run"
abbrev pub was_live : TradeExecutionMode → Bool
was_live paper = false
was_live jupiter_dry_run = false
was_live _ = true

-- After a step that did not fail, the next.
abbrev pub and_then : {W : Type 0} → Ended × W → (W → Ended × W) → Ended × W
and_then (finished, w) next = next w
and_then (failed_with message, w) next = (failed_with message, w)

abbrev pub is_empty : {A : Type 0} → List A → Bool
is_empty [] = true
is_empty (x ∷ xs) = false

module _ (N : Num) where
  open N use {F, int, mul, sub, div, lt, le}

  unfoldable pub compute_spot_exit_pnl_usd : F → F → F → F → F
  compute_spot_exit_pnl_usd size_usd token_units exit_token_price_usd transaction_cost_bps =
      let exit_gross_usd = mul token_units exit_token_price_usd in
      let entry_costs_usd = mul size_usd (div transaction_cost_bps (int (pos 10000))) in
      let exit_costs_usd = mul exit_gross_usd (div transaction_cost_bps (int (pos 10000))) in
      sub (sub (sub exit_gross_usd size_usd) entry_costs_usd) exit_costs_usd

  -- `0.01` and `-0.01`, the doubles nearest to these quotients
  abbrev pub cent : F
  cent = div (int (pos 1)) (int (pos 100))

  abbrev pub minus_cent : F
  minus_cent = div (int (negsuc 0)) (int (pos 100))

  unfoldable pub outcome_of : Bool → F → Outcome
  outcome_of is_stale pnl =
      if is_stale && le pnl cent
      then closed_stale
      else if lt cent pnl
      then closed_win
      else if lt pnl minus_cent
      then closed_loss
      else closed_flat

  -- `nowMs - entryAt >= staleAfterMs`
  abbrev pub is_stale_at : EngineConfig F → ℕ → Signal F → Bool
  is_stale_at cfg now p = leb (p.entry.entry_at + cfg.stale_after_ms) now

  abbrev pub has_converged : F → Bool
  has_converged pnl = le (int (pos 0)) pnl

  abbrev pub entry_of : Observed F → Call → Option F → Entry F
  entry_of o c executed_token_units = record {
    pair_id = o.pair.pair_id;
    side = Side.buy_tokenized;
    size_usd = o.size_usd;
    threshold_bps = o.pair.min_net_edge_bps;
    entry_edge_bps = o.net_edge_bps;
    entry_token_price_usd = some o.token_price_usd;
    entry_base_price_usd = some o.base_price_usd;
    entry_quote_id = some o.quote_id;
    entry_basis_id = some o.basis_id;
    token_units = elim executed_token_units [
      | none ↦ some (div o.size_usd o.token_price_usd)
      | some units ↦ some units
    ];
    entry_observed_at = some o.observed_at_ms;
    entry_quality_status = o.quality_status;
    entry_quality_reason = o.quality_reason;
    execution_mode = mode_of c;
    entry_execution_id = execution_id_of c;
    entry_at = o.now_ms;
  }

  abbrev pub exit_of : EngineConfig F → Observed F → Signal F → F → Call → Exit F
  exit_of cfg o p pnl c = record {
    exit_edge_bps = o.net_edge_bps;
    exit_side = sell_tokenized;
    exit_token_price_usd = o.token_price_usd;
    exit_base_price_usd = o.base_price_usd;
    exit_quote_id = some o.quote_id;
    exit_basis_id = some o.basis_id;
    exit_observed_at = o.observed_at_ms;
    exit_quality_status = o.quality_status;
    exit_quality_reason = o.quality_reason;
    exit_reason = if has_converged pnl then converged else stale;
    pnl_usd = pnl;
    outcome = outcome_of (is_stale_at cfg o.now_ms p) pnl;
    exit_at = o.now_ms;
    exit_execution_id = execution_id_of c;
  }

  abbrev pub key_of : Observed F → SignalKey F
  key_of o = record { pair_id = o.pair.pair_id; side = Side.buy_tokenized; size_usd = o.size_usd }

  -- The units of a position, if its three entry columns are there.
  abbrev pub complete_units : Signal F → Option F
  complete_units p =
      if is_some p.entry.entry_token_price_usd && is_some p.entry.entry_base_price_usd
      then p.entry.token_units
      else none

  abbrev pub pnl_of : EngineConfig F → Observed F → Signal F → F → F
  pnl_of cfg o p token_units =
      compute_spot_exit_pnl_usd p.entry.size_usd token_units o.token_price_usd
        cfg.transaction_cost_bps
