-- ===== src/Trading/Executions.antt =====
-- packages/db/src/executions.ts: the table `trade_executions`, one row for each attempt to trade
-- that got as far as an order.
use sotama.Backtest.{Side}
use sotama.Trading.Jupiter.{OrderJson, ExecuteJson, JsonValue}
use sotama.Trading.Sender.{SenderJson}
use sotama.Trading.{TradeExecutionAction, TradeExecutionMode, TradeExecutionStatus}
use sotama.Prelude.Int.{ℤ}
use sotama.Prelude.{◌∷◌, ◌+◌, ◌++◌, ◌==◌, ℕ, some, map, if◌then◌else◌, [], String, Option, List}

pub data RawExecute (F : Type 0) : Type 0 where
  raw_jupiter : ExecuteJson F → RawExecute F
  raw_sender : SenderJson → RawExecute F

-- A row without its id: `TradeExecutionInsert`.
pub record Execution (F : Type 0) : Type 0 where
  pub pair_id : String
  pub signal_id : Option ℕ
  pub action : TradeExecutionAction
  pub side : Side
  pub size_usd : F
  pub mode : TradeExecutionMode
  pub status : TradeExecutionStatus
  pub edge_bps : F
  pub base_price_usd : F
  pub token_price_usd : F
  pub in_mint : String
  pub out_mint : String
  pub in_amount : ℤ
  pub expected_out_amount : Option ℤ
  pub actual_out_amount : Option ℤ
  pub router : Option (JsonValue F)
  pub order_request_id : Option String
  pub order_quote_id : Option String
  pub signature : Option String
  pub slot : Option String
  pub error_code : Option F
  pub error_message : Option String
  pub order_request_ms : ℤ
  pub sign_ms : Option ℤ
  pub sender_prepare_ms : Option ℤ
  pub execute_request_ms : Option ℤ
  pub request_started_at : ℕ
  pub order_response_at : Option ℕ
  pub execute_response_at : Option ℕ
  pub raw_order : Option (OrderJson F)
  pub raw_execute : Option (RawExecute F)

pub record ExecutionTable (F : Type 0) : Type 0 where
  pub next_id : ℕ
  pub rows : List (ℕ × Execution F)

module _ {F : Type 0} where
  unfoldable pub insert_trade_execution : Execution F → ExecutionTable F → ℕ × ExecutionTable F
  insert_trade_execution row t =
      (t.next_id, record { next_id = t.next_id + 1; rows = t.rows ++ (t.next_id, row) ∷ [] })

  abbrev pub attach_row : ℕ → ℕ → ℕ × Execution F → ℕ × Execution F
  attach_row execution_id signal_id (id, row) =
      if id == execution_id then (id, record row { signal_id = some signal_id }) else (id, row)

  unfoldable pub attach_trade_execution_signal : ℕ → ℕ → ExecutionTable F → ExecutionTable F
  attach_trade_execution_signal execution_id signal_id t = record {
    next_id = t.next_id;
    rows = map (attach_row execution_id signal_id) t.rows;
  }
