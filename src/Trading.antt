-- ===== src/Trading.antt =====
-- services/stat-arb-bot: how an observed edge becomes a trade. `PairConfig` of
-- packages/market-core/src/pair-config.ts, and the words that the trade executor
-- (services/stat-arb-bot/src/trade-executor.ts) and the signal engine share. Times are milliseconds,
-- ids and block heights are numbers, `F` is `number`, and `bigint` is ℤ.
pub mod Amount
pub mod Signals
pub mod Jupiter
pub mod Sender
pub mod Executions
pub mod Executor
pub mod Engine
mod Tests
use sotama.Backtest.{Side, buy_tokenized, sell_tokenized}
use sotama.Prelude.Int.{ℤ}
use sotama.Prelude.{ℕ, true, String, Option, List, false, Bool}

-- What the bot reads of a `PairConfig`.
pub record PairConfig (F : Type 0) : Type 0 where
  pub pair_id : String
  pub tokenized_mint : String
  pub tokenized_decimals : ℕ
  pub quote_mint : String
  pub quote_decimals : ℕ
  pub directions : List Side
  pub slippage_bps : F
  pub min_net_edge_bps : F

abbrev pub same_side : Side → Side → Bool
same_side buy_tokenized buy_tokenized = true
same_side sell_tokenized sell_tokenized = true
same_side _ _ = false

pub data TradeExecutionMode : Type 0 where
  paper jupiter_dry_run jupiter_managed helius_sender : TradeExecutionMode

pub data TradeExecutionAction : Type 0 where
  open_position close_position : TradeExecutionAction

-- `TradeExecutionStatus`, and the two results that leave no record.
pub data TradeExecutionStatus : Type 0 where
  dry_run submitted success failed error skipped cooldown disabled : TradeExecutionStatus

pub record TradeExecutionInput (F : Type 0) : Type 0 where
  pub action : TradeExecutionAction
  pub pair : PairConfig F
  pub side : Side
  pub size_usd : F
  pub base_price_usd : F
  pub token_price_usd : F
  pub edge_bps : F
  pub input_amount : ℤ
  pub signal_id : Option ℕ
  pub dedupe_key : List ℕ

pub record TradeExecutionResult : Type 0 where
  pub mode : TradeExecutionMode
  pub status : TradeExecutionStatus
  pub execution_id : Option ℕ
  pub expected_out_amount : Option ℤ
  pub actual_out_amount : Option ℤ
  pub message : Option String

-- What a call of `execute` comes to: its promise resolves, or is rejected.
pub data Executed : Type 0 where
  returned : TradeExecutionResult → Executed
  threw : String → Executed

-- `enabled`
abbrev pub is_enabled : TradeExecutionMode → Bool
is_enabled paper = false
is_enabled _ = true

-- `requiresLiveSuccess`
abbrev pub is_live_mode : TradeExecutionMode → Bool
is_live_mode jupiter_managed = true
is_live_mode helius_sender = true
is_live_mode _ = false

abbrev pub is_success : TradeExecutionStatus → Bool
is_success success = true
is_success _ = false
