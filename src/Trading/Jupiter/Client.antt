-- ===== src/Trading/Jupiter/Client.antt =====
-- `order` and `execute` of services/stat-arb-bot/src/jupiter-client.ts, with the parsers of its fields.
use sotama.Prelude.Int.{ℤ, pos}
use sotama.Prelude.{
  ◌∷◌, ◌||◌, ◌==◌, ◌++◌, ℕ, true, some, not, none, str_eq, if◌then◌else◌, [], String, Option, List,
  Bool,
}
use sotama.Trading.Jupiter.{
  JsonValue, Js, is_empty_text, OrderRequest, OrderJson, OkOrder, OrderResult, ExecuteRequest,
  ExecuteJson, SwapStatus, OkExecute, ExecuteResult, Answer, is_ok_status, HttpRequest, present,
  first_present, string_of, non_empty_string, first_string, given, json_headers, null, text, number,
  other, order_ok, order_rate_limited, order_error, swap_success, swap_failed, swap_other,
  execute_ok, execute_rate_limited, execute_error, rejected, no_json, json,
}

module _ (js : Js) where
  open js use {num, big_int, to_number, to_text, date_time, big_text, http_message}
  open num use {F, int, mul, lt, eq, is_finite}

  unfoldable pub parse_finite_number : Option (JsonValue F) → Option F
  parse_finite_number v = elim (present v) [
    | none ↦ none
    | some (number n) ↦ if is_finite n then some n else none
    | some x ↦ if is_finite (to_number x) then some (to_number x) else none
  ]

  unfoldable pub first_finite_number : List (Option (JsonValue F)) → Option F
  first_finite_number [] = none
  first_finite_number (v ∷ vs) =
      let rest = first_finite_number vs in
      elim (parse_finite_number v) [ none ↦ rest | some n ↦ some n ]

  unfoldable pub parse_optional_big_int : Option (JsonValue F) → Option ℤ
  parse_optional_big_int v = elim (non_empty_string v) [ none ↦ none | some s ↦ big_int (text s) ]

  abbrev pub finite_time : F → Option F
  finite_time t = if is_finite t then some t else none

  unfoldable pub parse_date : Option (JsonValue F) → Option F
  parse_date (some (number v)) =
      let ms = if lt (int (pos 10000000000)) v then v else mul v (int (pos 1000)) in
      finite_time (date_time (number ms))
  parse_date v = elim (non_empty_string v) [
    | none ↦ none
    | some s ↦ finite_time (date_time (text s))
  ]

  -- `!v`; a number is false if it is zero or not a number
  abbrev pub is_falsy : Option (JsonValue F) → Bool
  is_falsy none = true
  is_falsy (some null) = true
  is_falsy (some (text s)) = is_empty_text s
  is_falsy (some (number n)) = eq n (int (pos 0)) || not (eq n n)
  is_falsy (some (other truthy)) = not truthy

  -- `BigInt(v)` of a field that is there
  abbrev pub amount_of : Option (JsonValue F) → Option ℤ
  amount_of none = none
  amount_of (some v) = big_int v

  abbrev pub text_of : Option (JsonValue F) → Option String
  text_of v = elim (present v) [ none ↦ none | some x ↦ some (to_text x) ]

  abbrev slippage_field : Option F → List (String × String)
  slippage_field none = []
  slippage_field (some bps) = ("slippageBps", to_text (number bps)) ∷ []

  unfoldable pub order_request : Option String → OrderRequest F → HttpRequest
  order_request api_key req = record {
    headers = json_headers api_key [];
    fields =
        ("inputMint", req.input_mint)
          ∷ ("outputMint", req.output_mint)
          ∷ ("amount", big_text req.amount)
          ∷ slippage_field req.slippage_bps
        ++ given "taker" req.taker
        ++ given "excludeRouters" req.exclude_routers;
  }

  abbrev pub ok_order : ℤ → OrderJson F → ℤ → ℤ → OkOrder F
  ok_order ms body out_amount in_amount = record {
    out_amount = out_amount;
    in_amount = in_amount;
    price_impact_pct = first_finite_number (body.price_impact ∷ body.price_impact_pct ∷ []);
    router = present body.router;
    quote_id = first_string (body.quote_id ∷ body.id ∷ body.request_id ∷ []);
    request_id = first_string (body.request_id ∷ []);
    transaction = non_empty_string body.transaction;
    last_valid_block_height = text_of body.last_valid_block_height;
    mode = string_of body.mode;
    expires_at = parse_date (first_present body.expires_at body.expire_at);
    context_slot = parse_finite_number body.context_slot;
    request_ms = ms;
    raw = body;
  }

  -- The message of the error that `BigInt` throws comes from the platform.
  unfoldable pub read_order : String → ℤ → ℤ → OrderJson F → OrderResult F
  read_order thrown ms caught body =
      if is_falsy body.out_amount || is_falsy body.in_amount
      then order_error ms "missing outAmount/inAmount"
      else elim (amount_of body.out_amount) [
        | none ↦ order_error caught thrown
        | some out_amount ↦ elim (amount_of body.in_amount) [
          | none ↦ order_error caught thrown
          | some in_amount ↦ order_ok (ok_order ms body out_amount in_amount)
        ]
      ]

  abbrev pub order_status : String → ℤ → ℤ → ℕ → OrderResult F → OrderResult F
  order_status thrown ms caught status otherwise =
      if status == 429
      then order_rate_limited ms
      else if is_ok_status status
      then otherwise
      else order_error ms (http_message status)

  unfoldable pub order_result : String → Answer (OrderJson F) → OrderResult F
  order_result thrown a = elim a.response [
    | rejected message ↦ order_error a.caught_ms message
    | no_json status message ↦
        order_status thrown a.request_ms a.caught_ms status (order_error a.caught_ms message)
    | json status body ↦
        order_status thrown a.request_ms a.caught_ms status
          (read_order thrown a.request_ms a.caught_ms body)
  ]

  -- `fetch` is what the network answers to a request.
  unfoldable pub order :
      Option String → String → (HttpRequest → Answer (OrderJson F)) → OrderRequest F → OrderResult F
  order api_key thrown fetch req = order_result thrown (fetch (order_request api_key req))

  unfoldable pub execute_request : Option String → ExecuteRequest → HttpRequest
  execute_request api_key req = record {
    headers = json_headers api_key (("content-type", "application/json") ∷ []);
    fields =
        ("signedTransaction", req.signed_transaction)
        ∷ ("requestId", req.request_id)
        ∷ given "lastValidBlockHeight" req.last_valid_block_height;
  }

  abbrev pub swap_text : JsonValue F → SwapStatus F
  swap_text (text s) =
      if str_eq s "Success"
      then swap_success
      else if str_eq s "Failed"
      then swap_failed
      else swap_other (text s)
  swap_text v = swap_other v

  -- `json.status ?? (json.error ? "Failed" : "Success")`
  unfoldable pub swap_status_of : ExecuteJson F → SwapStatus F
  swap_status_of body = elim (present body.status) [
    | none ↦ if is_falsy body.error then swap_success else swap_failed
    | some v ↦ swap_text v
  ]

  abbrev pub read_execute : ℤ → ExecuteJson F → OkExecute F
  read_execute ms body = record {
    swap_status = swap_status_of body;
    signature = first_string (body.signature ∷ []);
    slot = text_of body.slot;
    code = parse_finite_number body.code;
    input_amount_result = parse_optional_big_int body.input_amount_result;
    output_amount_result =
        parse_optional_big_int (first_present body.output_amount_result body.total_output_amount);
    error = first_string (body.error ∷ []);
    request_ms = ms;
    raw = body;
  }

  abbrev pub execute_status : ℤ → ℕ → ExecuteResult F → ExecuteResult F
  execute_status ms status otherwise =
      if status == 429
      then execute_rate_limited ms
      else if is_ok_status status
      then otherwise
      else execute_error ms (http_message status)

  unfoldable pub execute_result : Answer (ExecuteJson F) → ExecuteResult F
  execute_result a = elim a.response [
    | rejected message ↦ execute_error a.caught_ms message
    | no_json status message ↦
        execute_status a.request_ms status (execute_error a.caught_ms message)
    | json status body ↦
        execute_status a.request_ms status (execute_ok (read_execute a.request_ms body))
  ]

  unfoldable pub execute :
      Option String → (HttpRequest → Answer (ExecuteJson F)) → ExecuteRequest → ExecuteResult F
  execute api_key fetch req = execute_result (fetch (execute_request api_key req))
