-- ===== src/Trading/Jupiter/Answers.antt =====
-- What an order's result says of the answer that it was read from.
use sotama.Prelude.Int.{ℤ}
use sotama.Trading.Jupiter.{
  given, Js, JsonValue, Answer, Response, rejected, no_json, json, OrderJson, OkOrder, OrderResult,
  order_ok, order_rate_limited, order_error, is_ok_status, is_empty_text, non_empty_string,
  first_string,
}
use sotama.Trading.Jupiter.Client.{order_result, order_status, read_order, amount_of, is_falsy}
use sotama.Prelude.{
  ◌∙◌, ap, ==_iff, ◌≢◌, ◌≡◌, ◌≢◌, ◌⊎◌, ◌==◌, ◌||◌, ℕ, true, false, some, none, refl, inl, inr,
  arith, Bool-cases, Option-cases, if◌then◌else◌, String, Option, ◌∷◌, [],
}

-- `res.status`, if there was a response
abbrev pub status_of : {J : Type 0} → Response J → Option ℕ
status_of (rejected message) = none
status_of (no_json status message) = some status
status_of (json status body) = some status

module _ (js : Js) where
  open js use {num, big_int}
  open num use {F}

  -- An order is good for what its body says: the two amounts are the integers of its fields, and the
  -- transaction and the request id, where there are any, are texts that are not empty.
  pub record IsRead (a : Answer (OrderJson F)) (o : OkOrder F) : Type 0 where
    pub http_status : ℕ
    pub body : OrderJson F
    pub responded : a.response ≡ json http_status body
    pub is_2xx : is_ok_status http_status ≡ true
    pub out_read : amount_of js body.out_amount ≡ some o.out_amount
    pub in_read : amount_of js body.in_amount ≡ some o.in_amount
    pub transaction_given : (t : String) → o.transaction ≡ some t → is_empty_text t ≡ false
    pub request_given : (t : String) → o.request_id ≡ some t → is_empty_text t ≡ false

  -- What each kind of result says of the answer.
  abbrev pub Says : Answer (OrderJson F) → OrderResult F → Type 0
  Says a (order_ok o) = IsRead a o
  Says a (order_rate_limited ms) = status_of a.response ≡ some 429
  Says a (order_error ms message) = status_of a.response ≢ some 429

  given_text :
      (v : Option (JsonValue F)) (t : String)
      → non_empty_string v ≡ some t
      → is_empty_text t ≡ false
  given_text v t h = ground arith

  first_given :
      (v : Option (JsonValue F)) (t : String)
      → first_string (v ∷ []) ≡ some t
      → is_empty_text t ≡ false
  unfolding first_string
  first_given v t h = ground arith

  not_429 :
      (status : ℕ) (a : Answer (OrderJson F))
      → status_of a.response ≡ some status
      → is_ok_status status ≡ true
      → status_of a.response ≢ some 429
  not_429 status a e good same = absurd (ground arith)

  read_order-Says :
      (thrown : String) (ms caught : ℤ) (status : ℕ) (body : OrderJson F) (a : Answer (OrderJson F))
      → a.response ≡ json status body
      → is_ok_status status ≡ true
      → Says a (read_order js thrown ms caught body)
  unfolding read_order
  read_order-Says thrown ms caught status body a e good =
      elim (Bool-cases (is_falsy js body.out_amount || is_falsy js body.in_amount)) [
        | inl missing ↦ rw (missing, if◌then◌else◌) (not_429 status a (ap status_of e) good)
        | inr given ↦ elim (Option-cases (amount_of js body.out_amount)) [
          | inl o ↦ rw (given, o, if◌then◌else◌) (not_429 status a (ap status_of e) good)
          | inr (out_amount, o) ↦ elim (Option-cases (amount_of js body.in_amount)) [
            | inl i ↦ rw (given, o, i, if◌then◌else◌) (not_429 status a (ap status_of e) good)
            | inr (in_amount, i) ↦
                rw (given, o, i, if◌then◌else◌)
                  (record {
                    http_status = status;
                    body = body;
                    responded = e;
                    is_2xx = good;
                    out_read = o;
                    in_read = i;
                    transaction_given = given_text body.transaction;
                    request_given = first_given body.request_id;
                  })
          ]
        ]
      ]

  order_status-Says :
      (thrown : String) (ms caught : ℤ) (status : ℕ) (otherwise : OrderResult F)
      (a : Answer (OrderJson F))
      → status_of a.response ≡ some status
      → (is_ok_status status ≡ true → Says a otherwise)
      → Says a (order_status js thrown ms caught status otherwise)
  order_status-Says thrown ms caught status otherwise a e says = elim (Bool-cases (status == 429)) [
    | inl limited ↦ rw (limited, if◌then◌else◌) (e ∙ ap some ((==_iff _ _).0 limited))
    | inr free ↦ elim (Bool-cases (is_ok_status status)) [
      | inl good ↦ rw (free, good, if◌then◌else◌) (says good)
      | inr bad ↦ rw (free, bad, if◌then◌else◌) λ same. absurd (ground arith)
    ]
  ]

  response_cases :
      (r : Response (OrderJson F))
      → ((message : String) × (r ≡ rejected message))
        ⊎ (((status : ℕ) × ((message : String) × (r ≡ no_json status message)))
            ⊎ ((status : ℕ) × ((body : OrderJson F) × (r ≡ json status body))))
  response_cases (rejected message) = inl (message, refl)
  response_cases (no_json status message) = inr (inl (status, (message, refl)))
  response_cases (json status body) = inr (inr (status, (body, refl)))

  -- Every result of an order tells the truth about the answer: one that is ok was read from the body of
  -- a 2xx response, one is rate-limited only for the status 429, and the status 429 is never an error.
  pub order_result-Says :
      (thrown : String) (a : Answer (OrderJson F)) → Says a (order_result js thrown a)
  unfolding order_result
  order_result-Says thrown a = elim (response_cases a.response) [
    | inl (message, e) ↦ rw (e, order_result) λ same. absurd (cc same)
    | inr (inl (status, (message, e))) ↦
        rw (e, order_result)
          (order_status-Says thrown a.request_ms a.caught_ms status
            (order_error a.caught_ms message) (record a { response = no_json status message }) refl
            (not_429 status (record a { response = no_json status message }) refl))
    | inr (inr (status, (body, e))) ↦
        rw (e, order_result)
          (order_status-Says thrown a.request_ms a.caught_ms status
            (read_order js thrown a.request_ms a.caught_ms body)
            (record a { response = json status body }) refl
            (read_order-Says thrown a.request_ms a.caught_ms status body
              (record a { response = json status body }) refl))
  ]
