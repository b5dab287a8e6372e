-- ===== src/Trading/Jupiter/Swapped.antt =====
-- What stands behind a swap that counts as a success: `json.status` and `json.error`.
use sotama.Trading.Jupiter.{
  Js, JsonValue, text, null, number, other, Answer, Response, rejected, no_json, json, ExecuteJson,
  OkExecute, ExecuteResult, execute_ok, is_ok_status, present, swap_success, SwapStatus,
}
use sotama.Trading.Jupiter.Client.{
  execute_result, swap_status_of, is_falsy, execute_status, swap_text, read_execute,
}
use sotama.Prelude.{
  ◌≡◌, ◌⊎◌, ℕ, true, some, none, refl, inl, inr, arith, Option-cases, String, str_eq, ◌∙◌, ap,
}

Response-cases :
    {J : Type 0} (r : Response J)
    → ((message : String) × (r ≡ rejected message))
      ⊎ (((status : ℕ) × (message : String) × (r ≡ no_json status message))
          ⊎ ((status : ℕ) × (body : J) × (r ≡ json status body)))
Response-cases (rejected message) = inl (message, refl)
Response-cases (no_json status message) = inr (inl (status, message, refl))
Response-cases (json status body) = inr (inr (status, body, refl))

module _ (js : Js) where
  open js use {num}
  open num use {F}

  -- A body that says the swap succeeded: its status is the text `Success`, or it has no status, or a
  -- null one, and no error that counts as true.
  pub data SaysSuccess (body : ExecuteJson F) : Type 0 where
    stated :
        (s : String)
        → present body.status ≡ some (text s)
        → str_eq s "Success" ≡ true
        → SaysSuccess body
    unopposed : present body.status ≡ none → is_falsy js body.error ≡ true → SaysSuccess body

  -- An HTTP answer with such a body and a 2xx status.
  pub record IsSuccess (a : Answer (ExecuteJson F)) : Type 0 where
    pub http_status : ℕ
    pub body : ExecuteJson F
    pub responded : a.response ≡ json http_status body
    pub is_2xx : is_ok_status http_status ≡ true
    pub says : SaysSuccess body

  swap_text-stated :
      (v : JsonValue F)
      → swap_text js v ≡ swap_success
      → (s : String) × (v ≡ text s) × (str_eq s "Success" ≡ true)
  swap_text-stated (text s) h = (s, refl, ground arith)
  swap_text-stated null h = absurd (cc h)
  swap_text-stated (number n) h = absurd (cc h)
  swap_text-stated (other b) h = absurd (cc h)

  swap_status_of-SaysSuccess :
      (body : ExecuteJson F) → swap_status_of js body ≡ swap_success → SaysSuccess body
  unfolding swap_status_of
  swap_status_of-SaysSuccess body h = elim (Option-cases (present body.status)) [
    | inl e ↦ unopposed e (ground arith)
    | inr (v, e) ↦
        let (s, same, is_text) = swap_text-stated v (ground arith) in
        stated s (e ∙ ap some same) is_text
  ]

  read_execute-IsSuccess :
      (a : Answer (ExecuteJson F)) (status : ℕ) (body : ExecuteJson F) (e : OkExecute F)
      → a.response ≡ json status body
      → execute_status js a.request_ms status (execute_ok (read_execute js a.request_ms body))
        ≡ execute_ok e
      → e.swap_status ≡ swap_success
      → IsSuccess a
  read_execute-IsSuccess a status body e responded h swapped =
      let good : is_ok_status status ≡ true = ground arith in
      let same : execute_ok (read_execute js a.request_ms body) ≡ execute_ok e = ground arith in
      record {
        http_status = status;
        body = body;
        responded = responded;
        is_2xx = good;
        says = swap_status_of-SaysSuccess body (ap status_of same ∙ swapped);
      }
    where
      status_of : ExecuteResult F → SwapStatus F
      status_of (execute_ok x) = x.swap_status
      status_of _ = swap_success

  pub execute_result-IsSuccess :
      (a : Answer (ExecuteJson F)) (e : OkExecute F)
      → execute_result js a ≡ execute_ok e
      → e.swap_status ≡ swap_success
      → IsSuccess a
  unfolding execute_result
  execute_result-IsSuccess a e h swapped = elim (Response-cases a.response) [
    | inl (message, r) ↦ absurd (ground arith)
    | inr (inl (status, message, r)) ↦ absurd (ground arith)
    | inr (inr (status, body, r)) ↦ read_execute-IsSuccess a status body e r (ground arith) swapped
  ]
