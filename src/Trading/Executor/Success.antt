-- ===== src/Trading/Executor/Success.antt =====
-- What a success stands on: Jupiter's answer, or a confirmation seen in time.
use sotama.Trading.Tests.{answered}
use sotama.Trading.Jupiter.Swapped.{execute_result-IsSuccess, IsSuccess}
use sotama.Prelude.Int.{ℤ}
use sotama.Trading.{
  TradeExecutionStatus, TradeExecutionMode, TradeExecutionInput, TradeExecutionResult, Executed,
  returned, threw, success, jupiter_managed, helius_sender, jupiter_dry_run, is_enabled, paper,
}
use sotama.Trading.Jupiter.{
  Js, OkOrder, OrderResult, order_ok, order_error, order_rate_limited, ExecuteRequest,
  ExecuteResult, OkExecute, execute_ok, execute_rate_limited, execute_error, swap_success,
}
use sotama.Trading.Jupiter.Client.{execute_request, execute as jupiter_execute}
use sotama.Trading.Sender.{
  Kit, Sent, Waited, waited, wait_threw, Fallible-cases, sign_wire_transaction,
  prepare_sender_transaction, send_with_sender, wait_for_confirmation, decision,
}
use sotama.Trading.Sender.Wait.{turn_at, wait_for_confirmation-confirmed, timed_out}
use sotama.Trading.Executor.{
  Config, Outside, ExecutorState, Details, has_rpc, jupiter_status, is_confirmed, is_helius,
  is_given,
}
use sotama.Trading.Executor.Submit.{
  record_result, record_sent, execute_via_jupiter, execute_via_helius_sender, confirmation,
}
use sotama.Trading.Executor.Execute.{
  submit, dry_run_or_submit, after_order, order_for, ready_at, execute,
}
use sotama.Prelude.{
  ◌&&◌, Bool, ◌≡◌, ◌<◌, ◌+◌, ◌∙◌, ℕ, true, false, some, none, ltb, refl, ap, inl, inr, arith,
  Bool-cases, Option-cases, if◌then◌else◌, String, Option, or_default,
}

module _ (js : Js) (kit : Kit) where
  open js use {num}
  open num use {F}
  open kit use {Signer, Transaction, Message}

  pub data Evidence (cfg : Config Signer) (out : Outside F Transaction Message) : Type 0 where
    by_jupiter :
        (request : ExecuteRequest)
        → cfg.mode ≡ jupiter_managed
        → IsSuccess js (out.execute_answer (execute_request js cfg.api_key request))
        → Evidence cfg out
    by_chain :
        (signed : String) (turn : ℕ) (message : Option String)
        → cfg.mode ≡ helius_sender
        → (send_with_sender js (out.sender_answer signed)).is_ok ≡ true
        → turn_at out.waiting turn < out.waiting.started_at + cfg.confirmation_timeout_ms
        → decision (out.waiting.poll turn) ≡ some (waited true message)
        → Evidence cfg out

  abbrev Backs : Config Signer → Outside F Transaction Message → Executed × ExecutorState F → Type 0
  Backs cfg out r =
      (x : TradeExecutionResult) → r.0 ≡ returned x → x.status ≡ success → Evidence cfg out

  record_result-Backs :
      (cfg : Config Signer) (out : Outside F Transaction Message) (args : TradeExecutionInput F)
      (o : OrderResult F) (status : TradeExecutionStatus) (expected : Option ℤ)
      (details : Details F) (s : ExecutorState F)
      → (status ≡ success → Evidence cfg out)
      → Backs cfg out (record_result js kit cfg out args o status expected details s)
  unfolding record_result
  record_result-Backs cfg out args o status expected details s why x e h = why (ap status_of e ∙ h)
    where
      status_of : Executed → TradeExecutionStatus
      status_of (returned r) = r.status
      status_of (threw message) = status

  jupiter_execute-IsSuccess :
      (cfg : Config Signer) (out : Outside F Transaction Message) (request : ExecuteRequest)
      (e : OkExecute F)
      → jupiter_execute js cfg.api_key out.execute_answer request ≡ execute_ok e
      → e.swap_status ≡ swap_success
      → IsSuccess js (out.execute_answer (execute_request js cfg.api_key request))
  unfolding jupiter_execute
  jupiter_execute-IsSuccess cfg out request e = execute_result-IsSuccess js _ e

  jupiter_success :
      (e : ExecuteResult F)
      → jupiter_status e ≡ success
      → (x : OkExecute F) × (e ≡ execute_ok x) × (x.swap_status ≡ swap_success)
  jupiter_success (execute_ok x) h = (x, refl, ground arith)
  jupiter_success (execute_rate_limited ms) h = absurd (cc h)
  jupiter_success (execute_error ms message) h = absurd (cc h)

  via_jupiter-Backs :
      (cfg : Config Signer) (out : Outside F Transaction Message) (args : TradeExecutionInput F)
      (o : OkOrder F) (wire request_id : String) (signer : Signer) (s : ExecutorState F)
      → cfg.mode ≡ jupiter_managed
      → Backs cfg out (execute_via_jupiter js kit cfg out args o wire request_id signer s)
  unfolding execute_via_jupiter
  via_jupiter-Backs cfg out args o wire request_id signer s m =
      elim (Fallible-cases (sign_wire_transaction kit wire signer)) [
        | inl (signed, e) ↦
            rw (e, execute_via_jupiter)
              (record_result-Backs cfg out args (order_ok o) _ _ _ s λ h.
                let (x, answered, swapped) = jupiter_success _ h in
                by_jupiter _ m (jupiter_execute-IsSuccess cfg out _ x answered swapped))
        | inr (message, e) ↦
            rw (e, execute_via_jupiter)
              (record_result-Backs cfg out args (order_ok o) _ _ _ s λ h. absurd (cc h))
      ]

  record_sent-Backs :
      (cfg : Config Signer) (out : Outside F Transaction Message) (args : TradeExecutionInput F)
      (o : OkOrder F) (sent : Sent) (outcome : Option Waited) (s : ExecutorState F)
      → (sent.is_ok ≡ true → is_confirmed outcome ≡ true → Evidence cfg out)
      → Backs cfg out (record_sent js kit cfg out args o sent outcome s)
  record_sent-Backs cfg out args o sent (some (wait_threw message)) s why x e h = absurd (cc e)
  record_sent-Backs cfg out args o sent none s why x e h =
      record_result-Backs cfg out args (order_ok o) _ _ _ s (λ k. absurd (ground arith)) x e h
  record_sent-Backs cfg out args o sent (some (waited is_ok message)) s why x e h =
      record_result-Backs cfg out args (order_ok o) _ _ _ s (λ k. why (ground arith) (ground arith))
        x e h

  helius_only : (mode : TradeExecutionMode) → is_helius mode ≡ true → mode ≡ helius_sender
  helius_only helius_sender h = refl
  helius_only paper h = absurd (cc h)
  helius_only jupiter_dry_run h = absurd (cc h)
  helius_only jupiter_managed h = absurd (cc h)

  guarded :
      (b : Bool) (c : Option Waited)
      → is_confirmed (if b then c else none) ≡ true
      → (b ≡ true) × (is_confirmed c ≡ true)
  guarded true c h = (refl, h)
  guarded false c h = absurd (cc h)

  waited-true :
      (w : Option Waited)
      → is_confirmed (some (or_default w timed_out)) ≡ true
      → (message : Option String) × (w ≡ some (waited true message))
  waited-true none h = absurd (cc h)
  waited-true (some (waited true message)) h = (message, refl)
  waited-true (some (waited false message)) h = absurd (cc h)
  waited-true (some (wait_threw message)) h = absurd (cc h)

  -- An outcome that confirms comes from a wait that confirmed, in the mode that waits.
  confirmation-waited :
      (cfg : Config Signer) (out : Outside F Transaction Message) (sent : Sent)
      → is_confirmed (confirmation js kit cfg out sent) ≡ true
      → (cfg.mode ≡ helius_sender)
        × ((message : Option String) × (wait_for_confirmation cfg.confirmation_timeout_ms
                out.waiting
              ≡ some (waited true message)))
  confirmation-waited cfg out sent h =
      let (asked, ok_wait) =
        guarded (is_given sent.signature && has_rpc cfg && ltb 0 cfg.confirmation_timeout_ms) _ h in
      (
        helius_only cfg.mode (ground arith),
        waited-true (wait_for_confirmation cfg.confirmation_timeout_ms out.waiting) ok_wait,
      )

  sent-Evidence :
      (cfg : Config Signer) (out : Outside F Transaction Message) (signed : String)
      → (send_with_sender js (out.sender_answer signed)).is_ok ≡ true
      → is_confirmed (confirmation js kit cfg out (send_with_sender js (out.sender_answer signed)))
        ≡ true
      → Evidence cfg out
  sent-Evidence cfg out signed sent_ok h =
      let (m, (message, w)) =
        confirmation-waited cfg out (send_with_sender js (out.sender_answer signed)) h in
      let (turn, early, d) =
        wait_for_confirmation-confirmed cfg.confirmation_timeout_ms out.waiting message w in
      by_chain signed turn message m sent_ok early d

  via_sender-Backs :
      (cfg : Config Signer) (out : Outside F Transaction Message) (args : TradeExecutionInput F)
      (o : OkOrder F) (wire : String) (signer : Signer) (s : ExecutorState F)
      → Backs cfg out (execute_via_helius_sender js kit cfg out args o wire signer s)
  unfolding execute_via_helius_sender
  via_sender-Backs cfg out args o wire signer s =
      elim (Fallible-cases
        (prepare_sender_transaction kit js (has_rpc cfg) out.decompile
          cfg.helius_sender_tip_lamports wire signer o.last_valid_block_height
          s.next_tip_index).0) [
            | inl (signed, e) ↦
                rw (e, execute_via_helius_sender)
                  (record_sent-Backs cfg out args o _ _ _ (sent-Evidence cfg out signed))
            | inr (message, e) ↦
                rw (e, execute_via_helius_sender)
                  (record_result-Backs cfg out args (order_ok o) _ _ _ _ λ h. absurd (cc h))
          ]

  submit-Backs :
      (cfg : Config Signer) (out : Outside F Transaction Message) (args : TradeExecutionInput F)
      (o : OkOrder F) (wire request_id : String) (signer : Option Signer)
      (mode : TradeExecutionMode) (s : ExecutorState F)
      → cfg.mode ≡ mode
      → Backs cfg out (submit js kit cfg out args o wire request_id signer mode s)
  submit-Backs cfg out args o wire request_id none mode s m x e h = absurd (cc e)
  submit-Backs cfg out args o wire request_id (some signer) jupiter_managed s m x e h =
      via_jupiter-Backs cfg out args o wire request_id signer s m x e h
  submit-Backs cfg out args o wire request_id (some signer) mode s m x e h =
      via_sender-Backs cfg out args o wire signer s x e h

  dry_run_or_submit-Backs :
      (cfg : Config Signer) (out : Outside F Transaction Message) (args : TradeExecutionInput F)
      (o : OkOrder F) (wire request_id : String) (mode : TradeExecutionMode) (s : ExecutorState F)
      → cfg.mode ≡ mode
      → Backs cfg out (dry_run_or_submit js kit cfg out args o wire request_id mode s)
  dry_run_or_submit-Backs cfg out args o wire request_id jupiter_dry_run s m =
      record_result-Backs cfg out args (order_ok o) _ _ _ s λ h. absurd (cc h)
  dry_run_or_submit-Backs cfg out args o wire request_id mode s m =
      submit-Backs cfg out args o wire request_id cfg.signer mode s m

  after_order-Backs :
      (cfg : Config Signer) (out : Outside F Transaction Message) (args : TradeExecutionInput F)
      (o : OrderResult F) (s : ExecutorState F)
      → Backs cfg out (after_order js kit cfg out args o s)
  after_order-Backs cfg out args (order_rate_limited ms) s =
      record_result-Backs cfg out args (order_rate_limited ms) _ _ _ s λ h. absurd (cc h)
  after_order-Backs cfg out args (order_error ms message) s =
      record_result-Backs cfg out args (order_error ms message) _ _ _ s λ h. absurd (cc h)
  after_order-Backs cfg out args (order_ok o) s = elim (Option-cases o.transaction) [
    | inl e ↦
        rw (e, after_order)
          (record_result-Backs cfg out args (order_ok o) _ _ _ s λ h. absurd (cc h))
    | inr (wire, e) ↦ elim (Option-cases o.request_id) [
      | inl d ↦
          rw (e, d, after_order)
            (record_result-Backs cfg out args (order_ok o) _ _ _ s λ h. absurd (cc h))
      | inr (request_id, d) ↦
          rw (e, d, after_order)
            (dry_run_or_submit-Backs cfg out args o wire request_id cfg.mode s refl)
    ]
  ]

  -- A result is a success only on evidence: in Jupiter's mode Jupiter answered with a 2xx status and
  -- a body whose status is `Success`, or one with neither a status nor an error that counts as true;
  -- in the sender's mode the sender took the transaction and a poll before the timeout showed it
  -- confirmed. No other mode has a success.
  pub execute-Evidence :
      (cfg : Config Signer) (out : Outside F Transaction Message) (args : TradeExecutionInput F)
      (s : ExecutorState F) (r : TradeExecutionResult)
      → (execute js kit cfg out args s).0 ≡ returned r
      → r.status ≡ success
      → Evidence cfg out
  unfolding execute
  execute-Evidence cfg out args s r = elim (Bool-cases (is_enabled cfg.mode)) [
    | inr e ↦ rw (e, if◌then◌else◌) λ same h. absurd (cc (same, h))
    | inl e ↦ elim (Bool-cases (ltb out.now (ready_at js kit cfg args.dedupe_key s))) [
      | inl d ↦ rw (e, d, if◌then◌else◌) λ same h. absurd (cc (same, h))
      | inr d ↦
          rw (e, d, if◌then◌else◌)
            (after_order-Backs cfg out args (order_for js kit cfg out args) _ r)
    ]
  ]
