-- ===== src/Trading/Engine/Live.antt =====
-- The trade executor, with what the outside answers to its n-th call, is what the engine asks for:
-- the laws of `TradeExecution` hold of its code.
use sotama.Trading.Executor.Rows.{unsigned, unpolled, recorded, Recorded}
use sotama.Prelude.Num.{Num}
use sotama.Trading.{
  TradeExecutionAction, TradeExecutionStatus, success, TradeExecutionResult, TradeExecutionInput,
  Executed, returned, threw, is_live_mode,
}
use sotama.Trading.Jupiter.{OrderResult, Js}
use sotama.Trading.Sender.{Kit}
use sotama.Trading.Executions.{
  Execution, ExecutionTable, insert_trade_execution, attach_trade_execution_signal, attach_row,
}
use sotama.Trading.Executor.{Config, Outside, ExecutorState}
use sotama.Trading.Executor.Execute.{execute, output_token_units}
use sotama.Trading.Executor.Recorded.{
  Attempted, was_disabled, was_cooling, was_answered, execute-Recorded,
}
use sotama.Trading.Engine.{TradeExecution, EngineConfig, Observed, World}
use sotama.Trading.Engine.Backed.{IsBacked, observe_all-IsBacked}
use sotama.Trading.Engine.Observe.{observe_all}
use sotama.Prelude.{
  true, if◌then◌else◌, ◌∷◌, ◌∙◌, ◌==◌, ◌+◌, ℕ, some, refl, none, map, [], Option, List, In,
  In-append_left, In-append_right, inl, inr, ap, sym, Bool-cases, ◌≡◌,
}

module _ {F : Type 0} where
  -- A successful execution of an action is in the table under an id.
  abbrev pub HasSuccess : TradeExecutionAction → ℕ → List (ℕ × Execution F) → Type 0
  HasSuccess action id rows =
      (row : Execution F) × In (id, row) rows × (row.status ≡ success) × (row.action ≡ action)

  HasSuccess-attach :
      (action : TradeExecutionAction) (id execution_id signal_id : ℕ)
      (rows : List (ℕ × Execution F))
      → HasSuccess action id rows
      → HasSuccess action id (map (attach_row execution_id signal_id) rows)
  HasSuccess-attach action id execution_id signal_id [] h = elim h.1 [ ]
  HasSuccess-attach action id execution_id signal_id ((j, r) ∷ rows) (row, inl e, done, same) =
      elim (Bool-cases (j == execution_id)) [
        | inl hit ↦ (
          record r { signal_id = some signal_id },
          inl (
              rw (hit, if◌then◌else◌) (ap (λ x. (x.0, record r { signal_id = some signal_id })) e)),
          ap (λ x. x.1.status) (sym e) ∙ done,
          ap (λ x. x.1.action) (sym e) ∙ same,
        )
        | inr miss ↦ (
          r,
          inl (rw (miss, if◌then◌else◌) (ap (λ x. (x.0, r)) e)),
          ap (λ x. x.1.status) (sym e) ∙ done,
          ap (λ x. x.1.action) (sym e) ∙ same,
        )
      ]
  HasSuccess-attach action id execution_id signal_id ((j, r) ∷ rows) (row, inr m, done, same) =
      let (row', m', done', same') =
        HasSuccess-attach action id execution_id signal_id rows (row, m, done, same) in
      (row', inr m', done', same')

pub attach_keeps_lem :
    {F : Type 0} (execution_id signal_id : ℕ) (t : ExecutionTable F) (action : TradeExecutionAction)
    (id : ℕ)
    → HasSuccess action id t.rows
    → HasSuccess action id (attach_trade_execution_signal execution_id signal_id t).rows
unfolding attach_trade_execution_signal
attach_keeps_lem execution_id signal_id t action id h =
    HasSuccess-attach action id execution_id signal_id t.rows h

module _ (js : Js) (kit : Kit) (cfg : Config (Kit.Signer kit)) where
  open js use {num}
  open num use {F}
  open kit use {Transaction, Message}

  status_of : Executed → TradeExecutionStatus
  status_of (returned r) = r.status
  status_of (threw message) = TradeExecutionStatus.error

  id_of : Executed → Option ℕ
  id_of (returned r) = r.execution_id
  id_of (threw message) = none

  Recorded-success :
      (out : Outside F Transaction Message) (args : TradeExecutionInput F) (o : OrderResult F)
      {t u : ExecutionTable F} {x : Executed}
      → Recorded js kit cfg out args o t x u
      → (r : TradeExecutionResult) → x ≡ returned r
      → r.status ≡ success
      → (id : ℕ) × (r.execution_id ≡ some id) × HasSuccess args.action id u.rows
  unfolding insert_trade_execution status_of id_of
  Recorded-success out args o (unsigned message no_signer) r e h = absurd (cc e)
  Recorded-success out args o (unpolled signed message poll) r e h = absurd (cc e)
  Recorded-success out args o {t = t} (recorded x row is) r e h = (
    t.next_id,
    sym (ap id_of e) ∙ is.named,
    (
      row,
      In-append_right (t.next_id, row) t.rows _ (inl refl),
      is.same_status ∙ ap status_of e ∙ h,
      is.same_action,
    ),
  )

  Recorded-keeps :
      (out : Outside F Transaction Message) (args : TradeExecutionInput F) (o : OrderResult F)
      {t u : ExecutionTable F} {x : Executed}
      → Recorded js kit cfg out args o t x u
      → (action : TradeExecutionAction) (id : ℕ) → HasSuccess action id t.rows
      → HasSuccess action id u.rows
  unfolding insert_trade_execution
  Recorded-keeps out args o (unsigned message no_signer) action id h = h
  Recorded-keeps out args o (unpolled signed message poll) action id h = h
  Recorded-keeps out args o {t = t} (recorded x row is) action id (old, m, done, same) =
      (old, In-append_left (id, old) t.rows _ m, done, same)

  pub Attempted-success :
      (out : Outside F Transaction Message) (args : TradeExecutionInput F) (s : ExecutorState F)
      {u : ExecutionTable F} {x : Executed}
      → Attempted js kit cfg out args s x u
      → (r : TradeExecutionResult) → x ≡ returned r
      → r.status ≡ success
      → (id : ℕ) × (r.execution_id ≡ some id) × HasSuccess args.action id u.rows
  unfolding status_of
  Attempted-success out args s (was_disabled off) r e h = absurd (cc (ap status_of e, h))
  Attempted-success out args s (was_cooling on early) r e h = absurd (cc (ap status_of e, h))
  Attempted-success out args s (was_answered on due left) r e h =
      Recorded-success out args _ left r e h

  pub Attempted-keeps :
      (out : Outside F Transaction Message) (args : TradeExecutionInput F) (s : ExecutorState F)
      {u : ExecutionTable F} {x : Executed}
      → Attempted js kit cfg out args s x u
      → (action : TradeExecutionAction) (id : ℕ) → HasSuccess action id s.executions.rows
      → HasSuccess action id u.rows
  Attempted-keeps out args s (was_disabled off) action id h = h
  Attempted-keeps out args s (was_cooling on early) action id h = h
  Attempted-keeps out args s (was_answered on due left) action id h =
      Recorded-keeps out args _ left action id h

  -- `world n` is the outside of the n-th call.
  abbrev pub trade_execution : (ℕ → Outside F Transaction Message) → TradeExecution F
  trade_execution world = record {
    Log = ExecutorState F × ℕ;
    mode = cfg.mode;
    execute =
        λ args log. let r = execute js kit cfg (world log.1) args log.0 in (r.0, (r.1, log.1 + 1));
    attach = λ execution_id signal_id log. (
      record log.0 {
        executions = attach_trade_execution_signal execution_id signal_id log.0.executions;
      },
      log.1,
    );
    output_token_units = output_token_units js kit;
    Recorded = λ action id log. HasSuccess action id log.0.executions.rows;
    success_recorded = λ args log.
        Attempted-success (world log.1) args log.0
          (execute-Recorded js kit cfg (world log.1) args log.0);
    execute_keeps = λ args log.
        Attempted-keeps (world log.1) args log.0
          (execute-Recorded js kit cfg (world log.1) args log.0);
    attach_keeps = λ execution_id signal_id log action id h.
        attach_keeps_lem execution_id signal_id log.0.executions action id h;
  }

module _ (js : Js) (kit : Kit) (cfg : Config (Kit.Signer kit))
    (world : ℕ → Outside (Num.F (Js.num js)) (Kit.Transaction kit) (Kit.Message kit))
    (show : Num.F (Js.num js) → List ℕ) (show_id : ℕ → List ℕ)
    (engine : EngineConfig (Num.F (Js.num js))) where
  open js use {num}
  open num use {F}

  -- A row of the table of signals whose entry and, if it is closed, whose exit name successful
  -- executions in the executor's table.
  abbrev pub IsExecuted : World F (ExecutorState F × ℕ) → Type 0
  IsExecuted = IsBacked num show show_id (trade_execution js kit cfg world) engine

  -- In a live mode the engine and the trade executor together keep this: every signal names a row of
  -- `trade_executions` that is a success and opens, and every closed one also a success that closes.
  -- It holds whatever Jupiter, the sender and the chain answer to the calls.
  pub live_signals-IsExecuted :
      (os : List (Observed F)) (w : World F (ExecutorState F × ℕ))
      → is_live_mode cfg.mode ≡ true
      → IsExecuted w
      → IsExecuted (observe_all num show show_id (trade_execution js kit cfg world) engine os w)
  live_signals-IsExecuted =
      observe_all-IsBacked num show show_id (trade_execution js kit cfg world) engine
