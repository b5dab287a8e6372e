-- ===== src/Trading/Executor.antt =====
-- `TradeExecutor` of services/stat-arb-bot/src/trade-executor.ts: it orders a swap from Jupiter, signs
-- and submits it the way its mode says, and records the attempt. What the clock and the network
-- answer during one call is its `Outside`. Inserting a row into the database does not fail.
pub mod Submit
pub mod Execute
pub mod Rows
pub mod Recorded
pub mod Spacing
pub mod Success
pub mod Unrecorded
use sotama.Backtest.{Side, buy_tokenized, sell_tokenized}
use sotama.Prelude.Int.{ℤ}
use sotama.Prelude.Num.{Num}
use sotama.Prelude.Text.{Dict, get, set}
use sotama.Trading.Amount.{atomic_to_ui}
use sotama.Trading.Executions.{
  Execution, ExecutionTable, RawExecute, raw_jupiter, raw_sender, insert_trade_execution,
}
use sotama.Trading.Jupiter.{
  is_empty_text, Answer, Js, HttpRequest, OrderJson, ExecuteJson, OrderRequest, OkOrder,
  OrderResult, order_ok, order_rate_limited, order_error, ExecuteResult, execute_ok,
  execute_rate_limited, execute_error, OkExecute, swap_success, SwapStatus,
}
use sotama.Trading.Sender.{
  Kit, Fallible, ok, err, Sent, SenderJson, Waiting, Waited, waited, wait_threw,
  wait_for_confirmation, send_with_sender, prepare_sender_transaction, sign_wire_transaction,
}
use sotama.Trading.{
  PairConfig, TradeExecutionMode, paper, jupiter_dry_run, jupiter_managed, helius_sender,
  TradeExecutionStatus, dry_run, submitted, success, failed, error, skipped, cooldown, disabled,
  TradeExecutionInput, TradeExecutionResult, Executed, returned, threw, is_enabled,
}
use sotama.Prelude.{
  ◌+◌, ◌&&◌, ◌==◌, ℕ, true, some, or_default, not, none, ltb, leb, is_some, if◌then◌else◌, false,
  [], String, Option, List, Bool,
}

pub record Config (Signer : Type 0) : Type 0 where
  pub mode : TradeExecutionMode
  pub taker : Option String
  pub signer : Option Signer
  pub min_interval_ms : ℕ
  pub retain_raw : Bool
  pub helius_rpc_url : Option String
  pub helius_sender_tip_lamports : ℤ
  pub sender_exclude_routers : String
  pub confirmation_timeout_ms : ℕ
  -- the Jupiter client's
  pub api_key : Option String

-- One call's clock readings and times, and what the network answers. `order_thrown` is the message
-- of the error of a `BigInt` conversion.
pub record Outside (F Transaction Message : Type 0) : Type 0 where
  pub now : ℕ
  pub order_thrown : String
  pub order_answer : HttpRequest → Answer (OrderJson F)
  pub order_response_at : ℕ
  pub sign_ms : ℤ
  pub prepare_ms : ℤ
  pub execute_answer : HttpRequest → Answer (ExecuteJson F)
  pub execute_response_at : ℕ
  pub decompile : Transaction → Option ℤ → Fallible Message
  pub sender_answer : String → Answer SenderJson
  pub waiting : Waiting

-- The executor's fields that change, and the table that it writes.
pub record ExecutorState (F : Type 0) : Type 0 where
  pub last_attempt_at : Dict ℕ
  pub next_tip_index : ℕ
  pub executions : ExecutionTable F

abbrev pub is_helius : TradeExecutionMode → Bool
is_helius helius_sender = true
is_helius _ = false

abbrev pub is_given : Option String → Bool
is_given none = false
is_given (some s) = not (is_empty_text s)

-- `senderRpc` is there
abbrev pub has_rpc : {Signer : Type 0} → Config Signer → Bool
has_rpc cfg = is_helius cfg.mode && is_given cfg.helius_rpc_url

-- The constructor.
unfoldable pub new_executor :
    {F Signer : Type 0} → Config Signer → ExecutionTable F → Fallible (ExecutorState F)
new_executor cfg executions =
    if is_helius cfg.mode && not (is_given cfg.helius_rpc_url)
    then err "helius-sender requires HELIUS_RPC_URL"
    else ok (record { last_attempt_at = []; next_tip_index = 0; executions = executions })

-- The optional fields of what `record` is given.
pub record Details (F : Type 0) : Type 0 where
  pub actual_out_amount : Option ℤ
  pub execute_response_at : Option ℕ
  pub sign_ms : Option ℤ
  pub sender_prepare_ms : Option ℤ
  pub execute_request_ms : Option ℤ
  pub signature : Option String
  pub slot : Option String
  pub error_code : Option F
  pub error_message : Option String
  pub raw_execute : Option (RawExecute F)

abbrev pub only_message : {F : Type 0} → Option ℤ → Option String → Details F
only_message actual message = record {
  actual_out_amount = actual;
  execute_response_at = none;
  sign_ms = none;
  sender_prepare_ms = none;
  execute_request_ms = none;
  signature = none;
  slot = none;
  error_code = none;
  error_message = message;
  raw_execute = none;
}

abbrev pub result_of :
    TradeExecutionMode
    → TradeExecutionStatus
    → Option ℕ
    → Option ℤ
    → Option ℤ
    → Option String
    → TradeExecutionResult
result_of mode status id expected actual message = record {
  mode = mode;
  status = status;
  execution_id = id;
  expected_out_amount = expected;
  actual_out_amount = actual;
  message = message;
}

abbrev pub disabled_result : TradeExecutionResult
disabled_result = result_of paper disabled none none none none

abbrev pub cooldown_result : TradeExecutionMode → TradeExecutionResult
cooldown_result mode = result_of mode cooldown none none none (some "execution cooldown active")

abbrev pub input_mint : {F : Type 0} → Side → PairConfig F → String
input_mint buy_tokenized pair = pair.quote_mint
input_mint sell_tokenized pair = pair.tokenized_mint

abbrev pub output_mint : {F : Type 0} → Side → PairConfig F → String
output_mint buy_tokenized pair = pair.tokenized_mint
output_mint sell_tokenized pair = pair.quote_mint

-- `order` if its status is ok
abbrev pub ok_part : {F : Type 0} → OrderResult F → Option (OkOrder F)
ok_part (order_ok o) = some o
ok_part _ = none

abbrev pub request_time : {F : Type 0} → OrderResult F → ℤ
request_time (order_ok o) = o.request_ms
request_time (order_rate_limited ms) = ms
request_time (order_error ms message) = ms

abbrev pub in_order : {F A : Type 0} → (OkOrder F → Option A) → OrderResult F → Option A
in_order field o = elim (ok_part o) [ none ↦ none | some x ↦ field x ]

abbrev pub if_retained : {A : Type 0} → Bool → Option A → Option A
if_retained retain raw = if retain then raw else none

abbrev pub jupiter_status : {F : Type 0} → ExecuteResult F → TradeExecutionStatus
jupiter_status (execute_ok e) = elim e.swap_status [ swap_success ↦ success | _ ↦ failed ]
jupiter_status (execute_rate_limited ms) = skipped
jupiter_status (execute_error ms message) = error

abbrev pub in_execute : {F A : Type 0} → (OkExecute F → Option A) → ExecuteResult F → Option A
in_execute field (execute_ok e) = field e
in_execute field _ = none

abbrev pub execute_time : {F : Type 0} → ExecuteResult F → ℤ
execute_time (execute_ok e) = e.request_ms
execute_time (execute_rate_limited ms) = ms
execute_time (execute_error ms message) = ms

abbrev pub jupiter_message : {F : Type 0} → ExecuteResult F → Option String
jupiter_message (execute_ok e) = e.error
jupiter_message (execute_rate_limited ms) = some "Jupiter execute was rate-limited"
jupiter_message (execute_error ms message) = some message

-- `confirmed?.ok === true`
abbrev pub is_confirmed : Option Waited → Bool
is_confirmed (some (waited is_ok message)) = is_ok
is_confirmed _ = false

abbrev pub sender_status : Sent → Option Waited → TradeExecutionStatus
sender_status sent confirmed =
    if sent.is_ok then if is_confirmed confirmed then success else submitted else error

abbrev pub wait_message : Option Waited → Option String
wait_message (some (waited is_ok message)) = message
wait_message _ = none

abbrev pub sender_message : Sent → Option Waited → Option String
sender_message sent confirmed = elim sent.message [
  | none ↦ wait_message confirmed
  | some m ↦ some m
]

abbrev pub either : {A : Type 0} → Option A → Option A → Option A
either none b = b
either (some a) b = some a

-- the statuses of the column `status`
abbrev pub is_stored : TradeExecutionStatus → Bool
is_stored cooldown = false
is_stored disabled = false
is_stored _ = true
