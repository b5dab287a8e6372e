-- ===== src/Trading/Tests.antt =====
-- A concrete outside world for the executor and the engine: numbers are integers, a transaction is its
-- text, Jupiter always sells fifty units and the swap succeeds.
mod Executions
mod Engines
use sotama.Prelude.Int.{ℤ, pos}
use sotama.Prelude.Num.{Int_num}
use sotama.Backtest.{Side, buy_tokenized, sell_tokenized}
use sotama.Quality.{live_eligible}
use sotama.Trading.{
  error, PairConfig, TradeExecutionMode, jupiter_managed, helius_sender, paper, TradeExecutionInput,
  open_position,
}
use sotama.Trading.Jupiter.{Js, JsonValue, text, Answer, json, OrderJson, ExecuteJson}
use sotama.Trading.Sender.{
  wait, Kit, ok, Waiting, polled, confirmed, poll_rejected, SenderJson, no_error,
}
use sotama.Trading.Executions.{ExecutionTable}
use sotama.Trading.Executor.{Config, Outside, ExecutorState}
use sotama.Trading.Engine.{EngineConfig, Observed}
use sotama.Prelude.{ℕ, zero, suc, none, some, [], ◌∷◌, String, List, Option, true, ◌*◌}

abbrev pub js : Js
js = record {
  num = Int_num;
  big_int = λ v. some (pos 50);
  to_number = λ v. pos 7;
  to_text = λ v. "7";
  date_time = λ v. pos 7;
  big_text = λ n. "50";
  http_message = λ status. "HTTP";
}

abbrev pub kit : Kit
kit = record {
  Signer = String;
  Transaction = String;
  Message = String;
  address_of = λ s. s;
  decode = λ wire. ok wire;
  sign = λ s t. ok t;
  encode = λ t. t;
  append = λ i m. m;
  compile = λ m. ok m;
}

abbrev pub fifty : Option (JsonValue ℤ)
fifty = some (text "50")

abbrev pub order_json : OrderJson ℤ
order_json = record {
  out_amount = fifty;
  in_amount = fifty;
  transaction = some (text "tx");
  price_impact_pct = none;
  price_impact = none;
  router = none;
  quote_id = none;
  request_id = some (text "r1");
  id = none;
  last_valid_block_height = none;
  mode = none;
  expires_at = none;
  expire_at = none;
  context_slot = none;
}

abbrev pub execute_json : ExecuteJson ℤ
execute_json = record {
  status = some (text "Success");
  signature = some (text "sig");
  slot = none;
  code = none;
  input_amount_result = none;
  output_amount_result = fifty;
  total_output_amount = none;
  error = none;
}

abbrev pub answered : {J : Type 0} → J → Answer J
answered body = record { response = json 200 body; request_ms = pos 20; caught_ms = pos 30 }

abbrev pub sender_json : SenderJson
sender_json = record { result = some "sig"; error = no_error }

-- The third poll shows the confirmation.
abbrev pub third_poll : ℕ → Option ℕ
third_poll zero = none
third_poll (suc zero) = none
third_poll (suc (suc n)) = some n

abbrev pub waiting : Waiting
waiting = record {
  started_at = 1000;
  lag = λ n. 40;
  poll = λ n. elim (third_poll n) [
    | none ↦ polled none
    | some k ↦ polled (some (record { error_json = none; confirmation_status = some confirmed }))
  ];
}

abbrev pub failing_wait : Waiting
failing_wait = record { started_at = 1000; lag = λ n. 40; poll = λ n. poll_rejected "RPC down" }

abbrev pub outside : ℕ → Waiting → Outside ℤ String String
outside now wait = record {
  now = now;
  order_thrown = "SyntaxError";
  order_answer = λ request. answered order_json;
  order_response_at = now;
  sign_ms = pos 1;
  prepare_ms = pos 2;
  execute_answer = λ request. answered execute_json;
  execute_response_at = now;
  decompile = λ t height. ok t;
  sender_answer = λ signed. answered sender_json;
  waiting = wait;
}

abbrev pub config : TradeExecutionMode → Config String
config mode = record {
  mode = mode;
  taker = none;
  signer = some "key";
  min_interval_ms = 1000;
  retain_raw = true;
  helius_rpc_url = some "https://rpc";
  helius_sender_tip_lamports = pos 5000;
  sender_exclude_routers = "";
  confirmation_timeout_ms = 2000;
  api_key = none;
}

abbrev pub no_executions : ExecutorState ℤ
no_executions = record {
  last_attempt_at = [];
  next_tip_index = 0;
  executions = record { next_id = 1; rows = [] };
}

abbrev pub pair : PairConfig ℤ
pair = record {
  pair_id = "AAPL";
  tokenized_mint = "AAPLx";
  tokenized_decimals = 0;
  quote_mint = "USDC";
  quote_decimals = 0;
  directions = buy_tokenized ∷ sell_tokenized ∷ [];
  slippage_bps = pos 30;
  min_net_edge_bps = pos 30;
}

abbrev pub opening : TradeExecutionInput ℤ
opening = record {
  action = open_position;
  pair = pair;
  side = buy_tokenized;
  size_usd = pos 250;
  base_price_usd = pos 5;
  token_price_usd = pos 5;
  edge_bps = pos 40;
  input_amount = pos 250;
  signal_id = none;
  dedupe_key = 1 ∷ [];
}

abbrev pub observed : Side → ℤ → ℕ → Observed ℤ
observed side price now = record {
  pair = pair;
  side = side;
  size_usd = pos 250;
  base_price_usd = price;
  token_price_usd = price;
  net_edge_bps = pos 40;
  quote_id = 11;
  basis_id = 12;
  quality_status = live_eligible;
  quality_reason = "ok";
  observed_at_ms = now;
  now_ms = now;
}

abbrev pub engine : EngineConfig ℤ
engine = record { stale_after_ms = 100000; transaction_cost_bps = pos 0 }
