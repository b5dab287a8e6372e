-- ===== src/Trading/Jupiter.antt =====
-- services/stat-arb-bot/src/jupiter-client.ts: the order and the execution of a swap over HTTP. What
-- `fetch` answers is an argument; the timeouts are among its rejections. A parsed body is a record
-- of its fields, `none` where a field is missing.
pub mod Client
pub mod Answers
pub mod Swapped
use sotama.Prelude.Int.{ℤ, pos}
use sotama.Prelude.Num.{Num}
use sotama.Prelude.{
  ◌∷◌, ◌&&◌, ◌||◌, ◌==◌, ◌++◌, ℕ, true, some, not, none, str_eq, ltb, leb, if◌then◌else◌, false, [],
  String, Option, List, Bool,
}

pub data JsonValue (F : Type 0) : Type 0 where
  null : JsonValue F
  text : String → JsonValue F
  number : F → JsonValue F
  -- a Boolean, an array or an object, and whether it counts as true
  other : Bool → JsonValue F

-- JavaScript's conversions: `BigInt(v)`, `none` if it throws, `Number(v)`, `String(v)`,
-- `new Date(v).getTime()`, the text of a `bigint`, and `HTTP ${status}`.
pub record Js : Type 1 where
  pub num : Num
  pub big_int : JsonValue (Num.F num) → Option ℤ
  pub to_number : JsonValue (Num.F num) → Num.F num
  pub to_text : JsonValue (Num.F num) → String
  pub date_time : JsonValue (Num.F num) → Num.F num
  pub big_text : ℤ → String
  pub http_message : ℕ → String

abbrev pub is_empty_text : String → Bool
is_empty_text String.[] = true
is_empty_text _ = false

pub record OrderRequest (F : Type 0) : Type 0 where
  pub input_mint : String
  pub output_mint : String
  pub amount : ℤ
  pub slippage_bps : Option F
  pub taker : Option String
  pub exclude_routers : Option String

pub record OrderJson (F : Type 0) : Type 0 where
  pub out_amount : Option (JsonValue F)
  pub in_amount : Option (JsonValue F)
  pub transaction : Option (JsonValue F)
  pub price_impact_pct : Option (JsonValue F)
  pub price_impact : Option (JsonValue F)
  pub router : Option (JsonValue F)
  pub quote_id : Option (JsonValue F)
  pub request_id : Option (JsonValue F)
  pub id : Option (JsonValue F)
  pub last_valid_block_height : Option (JsonValue F)
  pub mode : Option (JsonValue F)
  pub expires_at : Option (JsonValue F)
  pub expire_at : Option (JsonValue F)
  pub context_slot : Option (JsonValue F)

pub record OkOrder (F : Type 0) : Type 0 where
  pub out_amount : ℤ
  pub in_amount : ℤ
  pub price_impact_pct : Option F
  pub router : Option (JsonValue F)
  pub quote_id : Option String
  pub request_id : Option String
  pub transaction : Option String
  pub last_valid_block_height : Option String
  pub mode : Option String
  pub expires_at : Option F
  pub context_slot : Option F
  pub request_ms : ℤ
  pub raw : OrderJson F

pub data OrderResult (F : Type 0) : Type 0 where
  order_ok : OkOrder F → OrderResult F
  order_rate_limited : ℤ → OrderResult F
  order_error : ℤ → String → OrderResult F

pub record ExecuteRequest : Type 0 where
  pub signed_transaction : String
  pub request_id : String
  pub last_valid_block_height : Option String

pub record ExecuteJson (F : Type 0) : Type 0 where
  pub status : Option (JsonValue F)
  pub signature : Option (JsonValue F)
  pub slot : Option (JsonValue F)
  pub code : Option (JsonValue F)
  pub input_amount_result : Option (JsonValue F)
  pub output_amount_result : Option (JsonValue F)
  pub total_output_amount : Option (JsonValue F)
  pub error : Option (JsonValue F)

pub data SwapStatus (F : Type 0) : Type 0 where
  swap_success swap_failed : SwapStatus F
  swap_other : JsonValue F → SwapStatus F

pub record OkExecute (F : Type 0) : Type 0 where
  pub swap_status : SwapStatus F
  pub signature : Option String
  pub slot : Option String
  pub code : Option F
  pub input_amount_result : Option ℤ
  pub output_amount_result : Option ℤ
  pub error : Option String
  pub request_ms : ℤ
  pub raw : ExecuteJson F

pub data ExecuteResult (F : Type 0) : Type 0 where
  execute_ok : OkExecute F → ExecuteResult F
  execute_rate_limited : ℤ → ExecuteResult F
  execute_error : ℤ → String → ExecuteResult F

-- What `fetch` and then `res.json()` come to; a body that is `null` throws where it is first read.
pub data Response (J : Type 0) : Type 0 where
  rejected : String → Response J
  no_json : (http_status : ℕ) → String → Response J
  json : (http_status : ℕ) → J → Response J

-- `request_ms` and, where an error is caught, `caught_ms` are the times since the call.
pub record Answer (J : Type 0) : Type 0 where
  pub response : Response J
  pub request_ms : ℤ
  pub caught_ms : ℤ

-- `res.ok`
abbrev pub is_ok_status : ℕ → Bool
is_ok_status status = leb 200 status && ltb status 300

pub record HttpRequest : Type 0 where
  pub headers : List (String × String)
  -- the search parameters, or the fields of the JSON body
  pub fields : List (String × String)

module _ {F : Type 0} where
  -- `v == null`, `v ?? w`
  abbrev pub present : Option (JsonValue F) → Option (JsonValue F)
  present (some null) = none
  present v = v

  abbrev pub first_present : Option (JsonValue F) → Option (JsonValue F) → Option (JsonValue F)
  first_present v w = elim (present v) [ none ↦ w | some x ↦ some x ]

  abbrev pub string_of : Option (JsonValue F) → Option String
  string_of (some (text s)) = some s
  string_of _ = none

  abbrev pub non_empty_string : Option (JsonValue F) → Option String
  non_empty_string v = elim (string_of v) [
    | none ↦ none
    | some s ↦ if is_empty_text s then none else some s
  ]

  unfoldable pub first_string : List (Option (JsonValue F)) → Option String
  first_string [] = none
  first_string (v ∷ vs) =
      let rest = first_string vs in elim (non_empty_string v) [ none ↦ rest | some s ↦ some s ]

-- `if (value) fields.set(name, value)`
abbrev pub given : String → Option String → List (String × String)
given name none = []
given name (some s) = if is_empty_text s then [] else (name, s) ∷ []

abbrev pub json_headers : Option String → List (String × String) → List (String × String)
json_headers api_key more = ("accept", "application/json") ∷ more ++ given "x-api-key" api_key
