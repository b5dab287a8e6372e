-- ===== src/Trading/Executor/Recorded.antt =====
-- What a call of `execute` leaves in the table of executions.
use sotama.Trading.Executor.Rows.{record_result-Leaves, dry_run_or_submit-Leaves, Recorded, Leaves}
use sotama.Prelude.{◌≤◌, ◌<◌, false, true, arith, ◌≡◌, some, String}
use sotama.Trading.Sender.{Kit}
use sotama.Trading.Jupiter.{Js}
use sotama.Trading.Executions.{ExecutionTable}
use sotama.Trading.{error, TradeExecutionInput, Executed}
use sotama.Trading.{returned, is_enabled}
use sotama.Trading.Jupiter.{OkOrder, OrderResult, order_ok, order_error, order_rate_limited}
use sotama.Trading.Executor.Submit.{record_terminal}
use sotama.Trading.Executor.Execute.{dry_run_or_submit, after_order, order_for, ready_at, execute}
use sotama.Prelude.{Bool-cases, inl, inr, ltb, if◌then◌else◌, refl, some, none, Option}
use sotama.Trading.Executor.{disabled_result, cooldown_result, Config, Outside, ExecutorState}

module _ (js : Js) (kit : Kit) where
  open js use {num}
  open num use {F}
  open kit use {Signer, Transaction, Message}

  -- What a call leaves: nothing if the mode is off or the key cools down.
  pub data Attempted (cfg : Config Signer) (out : Outside F Transaction Message)
      (args : TradeExecutionInput F) (s : ExecutorState F)
      : Executed → ExecutionTable F → Type 0 where
    was_disabled :
        is_enabled cfg.mode ≡ false
        → Attempted cfg out args s (returned disabled_result) s.executions
    was_cooling :
        is_enabled cfg.mode ≡ true
        → out.now < ready_at js kit cfg args.dedupe_key s
        → Attempted cfg out args s (returned (cooldown_result cfg.mode)) s.executions
    was_answered :
        {x : Executed} {t : ExecutionTable F}
        → is_enabled cfg.mode ≡ true
        → ready_at js kit cfg args.dedupe_key s ≤ out.now
        → Recorded js kit cfg out args (order_for js kit cfg out args) s.executions x t
        → Attempted cfg out args s x t

  ordered-Leaves :
      (cfg : Config Signer) (out : Outside F Transaction Message) (args : TradeExecutionInput F)
      (o : OkOrder F) (s : ExecutorState F) (transaction request : Option String)
      → Leaves js kit cfg out args (order_ok o) s (elim transaction [
        | none ↦
            record_terminal js kit cfg out args
              (order_ok o)
              error
              (some o.out_amount)
              (some "Jupiter order did not return transaction/requestId")
              s
        | some wire ↦ elim request [
          | none ↦
              record_terminal js kit cfg out args
                (order_ok o)
                error
                (some o.out_amount)
                (some "Jupiter order did not return transaction/requestId")
                s
          | some request_id ↦ dry_run_or_submit js kit cfg out args o wire request_id cfg.mode s
        ]
      ])
  ordered-Leaves cfg out args o s none request =
      record_result-Leaves js kit cfg out args (order_ok o) _ _ s refl
  ordered-Leaves cfg out args o s (some wire) none =
      record_result-Leaves js kit cfg out args (order_ok o) _ _ s refl
  ordered-Leaves cfg out args o s (some wire) (some request_id) =
      dry_run_or_submit-Leaves js kit cfg out args o wire request_id cfg.mode s

  pub after_order-Leaves :
      (cfg : Config Signer) (out : Outside F Transaction Message) (args : TradeExecutionInput F)
      (o : OrderResult F) (s : ExecutorState F)
      → Leaves js kit cfg out args o s (after_order js kit cfg out args o s)
  after_order-Leaves cfg out args (order_rate_limited ms) s =
      record_result-Leaves js kit cfg out args (order_rate_limited ms) _ _ s refl
  after_order-Leaves cfg out args (order_error ms message) s =
      record_result-Leaves js kit cfg out args (order_error ms message) _ _ s refl
  after_order-Leaves cfg out args (order_ok o) s =
      ordered-Leaves cfg out args o s o.transaction o.request_id

  -- A call in mode paper or before the interval of its key is over leaves the table as it was. Any
  -- other call asks for an order and then leaves exactly one new row, which its result names, and
  -- which agrees with the result, the request and the order on mode, status, message, action, pair,
  -- signal, side, size, edge, prices and the amounts paid in, expected and received. Only where no
  -- signer is configured, or a poll for the confirmation is rejected, may the call be rejected
  -- instead, and leave no row.
  pub execute-Recorded :
      (cfg : Config Signer) (out : Outside F Transaction Message) (args : TradeExecutionInput F)
      (s : ExecutorState F)
      → Attempted cfg out args s
          (execute js kit cfg out args s).0
          (execute js kit cfg out args s).1.executions
  unfolding execute
  execute-Recorded cfg out args s = elim (Bool-cases (is_enabled cfg.mode)) [
    | inr e ↦ rw (e, if◌then◌else◌) (was_disabled e)
    | inl e ↦ elim (Bool-cases (ltb out.now (ready_at js kit cfg args.dedupe_key s))) [
      | inl d ↦ rw (e, d, if◌then◌else◌) (was_cooling e (ground arith))
      | inr d ↦
          rw (e, d, if◌then◌else◌)
            (was_answered e (ground arith)
              (after_order-Leaves cfg out args (order_for js kit cfg out args) _).0)
    ]
  ]
