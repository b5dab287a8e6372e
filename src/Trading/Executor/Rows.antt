-- ===== src/Trading/Executor/Rows.antt =====
-- What an attempt to trade that is answered by an order leaves in the table of executions.
use sotama.Prelude.{true, arith, ◌≡◌, ℕ, some, String}
use sotama.Trading.Sender.{send_with_sender, Fallible-cases, Kit}
use sotama.Trading.Jupiter.{ExecuteResult, execute_ok, execute_rate_limited, execute_error, Js}
use sotama.Trading.Executions.{insert_trade_execution, ExecutionTable, Execution}
use sotama.Trading.{TradeExecutionResult, TradeExecutionInput, Executed}
use sotama.Trading.{
  returned, threw, TradeExecutionStatus, TradeExecutionMode, jupiter_dry_run, jupiter_managed,
}
use sotama.Trading.Sender.{
  Waited, waited, wait_threw, Sent, sign_wire_transaction, prepare_sender_transaction,
}
use sotama.Trading.Jupiter.{OkOrder, OrderResult, order_ok}
use sotama.Trading.Executor.Submit.{
  confirmation, record_result, record_sent, execute_via_jupiter, execute_via_helius_sender,
}
use sotama.Trading.Executor.Execute.{submit, dry_run_or_submit}
use sotama.Prelude.{inl, inr, refl, some, none, Option}
use sotama.Trading.Executor.{
  in_order, either, is_stored, jupiter_status, sender_status, has_rpc, Config, Outside,
  ExecutorState, Details,
}

either_same : {A : Type 0} (x : Option A) → either x x ≡ x
either_same none = refl
either_same (some a) = refl

module _ (js : Js) (kit : Kit) where
  open js use {num}
  open num use {F}
  open kit use {Signer, Transaction, Message}

  -- The new row agrees with the result on mode, status, amounts and message, with what was asked for
  -- on action, pair, side, size, edge, prices and the amount paid in, and with the answered order on
  -- the amount that is expected.
  pub record IsRecord (cfg : Config Signer) (args : TradeExecutionInput F) (o : OrderResult F)
      (r : TradeExecutionResult) (id : ℕ) (row : Execution F) : Type 0 where
    pub named : r.execution_id ≡ some id
    pub own_mode : row.mode ≡ cfg.mode
    pub same_mode : row.mode ≡ r.mode
    pub same_status : row.status ≡ r.status
    pub stored : is_stored r.status ≡ true
    pub same_expected : row.expected_out_amount ≡ r.expected_out_amount
    pub quoted : row.expected_out_amount ≡ in_order (λ x. some x.out_amount) o
    pub same_actual : row.actual_out_amount ≡ r.actual_out_amount
    pub same_message : row.error_message ≡ r.message
    pub same_action : row.action ≡ args.action
    pub same_pair : row.pair_id ≡ args.pair.pair_id
    pub same_signal : row.signal_id ≡ args.signal_id
    pub same_side : row.side ≡ args.side
    pub same_size : row.size_usd ≡ args.size_usd
    pub same_edge : row.edge_bps ≡ args.edge_bps
    pub same_base_price : row.base_price_usd ≡ args.base_price_usd
    pub same_token_price : row.token_price_usd ≡ args.token_price_usd
    pub same_amount : row.in_amount ≡ args.input_amount

  -- What an attempt whose order was answered by `o` leaves: one row, unless the call is rejected,
  -- which it is only without a signer or by a rejected poll for the confirmation.
  pub data Recorded (cfg : Config Signer) (out : Outside F Transaction Message)
      (args : TradeExecutionInput F) (o : OrderResult F) (t : ExecutionTable F)
      : Executed → ExecutionTable F → Type 0 where
    unsigned : (message : String) → cfg.signer ≡ none → Recorded cfg out args o t (threw message) t
    unpolled :
        (signed message : String)
        → confirmation js kit cfg out (send_with_sender js (out.sender_answer signed))
          ≡ some (wait_threw message)
        → Recorded cfg out args o t (threw message) t
    recorded :
        (r : TradeExecutionResult) (row : Execution F)
        → IsRecord cfg args o r t.next_id row
        → Recorded cfg out args o t (returned r) (insert_trade_execution row t).1

  record_result-Recorded :
      (cfg : Config Signer) (out : Outside F Transaction Message) (args : TradeExecutionInput F)
      (o : OrderResult F) (status : TradeExecutionStatus) (details : Details F)
      (s : ExecutorState F)
      → is_stored status ≡ true
      → let r =
          record_result js kit cfg out args o status
            (in_order (λ x. some x.out_amount) o)
            details
            s in
        Recorded cfg out args o s.executions r.0 r.1.executions
  unfolding record_result insert_trade_execution
  record_result-Recorded cfg out args o status details s h = recorded _ _ (record {
    named = refl;
    own_mode = refl;
    same_mode = refl;
    same_status = refl;
    stored = h;
    same_expected = either_same _;
    quoted = either_same _;
    same_actual = refl;
    same_message = refl;
    same_action = refl;
    same_pair = refl;
    same_signal = refl;
    same_side = refl;
    same_size = refl;
    same_edge = refl;
    same_base_price = refl;
    same_token_price = refl;
    same_amount = refl;
  })

  -- A call's result and state, after its state before: also, no more attempts are remembered.
  abbrev pub Leaves :
      Config Signer
      → Outside F Transaction Message
      → TradeExecutionInput F
      → OrderResult F
      → ExecutorState F
      → Executed × ExecutorState F
      → Type 0
  Leaves cfg out args o s r =
      Recorded cfg out args o s.executions r.0 r.1.executions
      × (r.1.last_attempt_at ≡ s.last_attempt_at)

  pub record_result-Leaves :
      (cfg : Config Signer) (out : Outside F Transaction Message) (args : TradeExecutionInput F)
      (o : OrderResult F) (status : TradeExecutionStatus) (details : Details F)
      (s : ExecutorState F)
      → is_stored status ≡ true
      → Leaves cfg out args o s (
          record_result js kit cfg out args o status
            (in_order (λ x. some x.out_amount) o)
            details
            s)
  unfolding record_result
  record_result-Leaves cfg out args o status details s h =
      (record_result-Recorded cfg out args o status details s h, refl)

  jupiter_status-stored : (e : ExecuteResult F) → is_stored (jupiter_status e) ≡ true
  jupiter_status-stored (execute_ok e) = ground arith
  jupiter_status-stored (execute_rate_limited ms) = refl
  jupiter_status-stored (execute_error ms message) = refl

  sender_status-stored :
      (sent : Sent) (outcome : Option Waited) → is_stored (sender_status sent outcome) ≡ true
  sender_status-stored sent outcome = ground arith

  via_jupiter-Leaves :
      (cfg : Config Signer) (out : Outside F Transaction Message) (args : TradeExecutionInput F)
      (o : OkOrder F) (wire request_id : String) (signer : Signer) (s : ExecutorState F)
      → Leaves cfg out args
          (order_ok o)
          s
          (execute_via_jupiter js kit cfg out args o wire request_id signer s)
  unfolding execute_via_jupiter
  via_jupiter-Leaves cfg out args o wire request_id signer s =
      elim (Fallible-cases (sign_wire_transaction kit wire signer)) [
        | inl (signed, e) ↦
            rw (e, execute_via_jupiter)
              (record_result-Leaves cfg out args (order_ok o) _ _ s (jupiter_status-stored _))
        | inr (message, e) ↦
            rw (e, execute_via_jupiter) (record_result-Leaves cfg out args (order_ok o) _ _ s refl)
      ]

  record_sent-Leaves :
      (cfg : Config Signer) (out : Outside F Transaction Message) (args : TradeExecutionInput F)
      (o : OkOrder F) (sent : Sent) (outcome : Option Waited) (s : ExecutorState F)
      (signed : String)
      → confirmation js kit cfg out (send_with_sender js (out.sender_answer signed)) ≡ outcome
      → Leaves cfg out args (order_ok o) s (record_sent js kit cfg out args o sent outcome s)
  record_sent-Leaves cfg out args o sent (some (wait_threw message)) s signed e =
      (unpolled signed message e, refl)
  record_sent-Leaves cfg out args o sent none s signed e =
      record_result-Leaves cfg out args (order_ok o) _ _ s (sender_status-stored sent none)
  record_sent-Leaves cfg out args o sent (some (waited is_ok message)) s signed e =
      record_result-Leaves cfg out args (order_ok o) _ _ s
        (sender_status-stored sent (some (waited is_ok message)))

  via_sender-Leaves :
      (cfg : Config Signer) (out : Outside F Transaction Message) (args : TradeExecutionInput F)
      (o : OkOrder F) (wire : String) (signer : Signer) (s : ExecutorState F)
      → Leaves cfg out args
          (order_ok o)
          s
          (execute_via_helius_sender js kit cfg out args o wire signer s)
  unfolding execute_via_helius_sender
  via_sender-Leaves cfg out args o wire signer s =
      elim (Fallible-cases
        (prepare_sender_transaction kit js (has_rpc cfg) out.decompile
          cfg.helius_sender_tip_lamports wire signer o.last_valid_block_height
          s.next_tip_index).0) [
            | inl (signed, e) ↦
                rw (e, execute_via_helius_sender)
                  (record_sent-Leaves cfg out args o _ _ _ signed refl)
            | inr (message, e) ↦
                rw (e, execute_via_helius_sender)
                  (record_result-Leaves cfg out args (order_ok o) _ _ _ refl)
          ]

  submit-Leaves :
      (cfg : Config Signer) (out : Outside F Transaction Message) (args : TradeExecutionInput F)
      (o : OkOrder F) (wire request_id : String) (signer : Option Signer)
      (mode : TradeExecutionMode) (s : ExecutorState F)
      → cfg.signer ≡ signer
      → Leaves cfg out args
          (order_ok o)
          s
          (submit js kit cfg out args o wire request_id signer mode s)
  submit-Leaves cfg out args o wire request_id none mode s e = (unsigned _ e, refl)
  submit-Leaves cfg out args o wire request_id (some signer) jupiter_managed s e =
      via_jupiter-Leaves cfg out args o wire request_id signer s
  submit-Leaves cfg out args o wire request_id (some signer) mode s e =
      via_sender-Leaves cfg out args o wire signer s

  pub dry_run_or_submit-Leaves :
      (cfg : Config Signer) (out : Outside F Transaction Message) (args : TradeExecutionInput F)
      (o : OkOrder F) (wire request_id : String) (mode : TradeExecutionMode) (s : ExecutorState F)
      → Leaves cfg out args
          (order_ok o)
          s
          (dry_run_or_submit js kit cfg out args o wire request_id mode s)
  dry_run_or_submit-Leaves cfg out args o wire request_id jupiter_dry_run s =
      record_result-Leaves cfg out args (order_ok o) _ _ s refl
  dry_run_or_submit-Leaves cfg out args o wire request_id mode s =
      submit-Leaves cfg out args o wire request_id cfg.signer mode s refl
