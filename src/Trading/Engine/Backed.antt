-- ===== src/Trading/Engine/Backed.antt =====
-- In a live mode, what the table of signals says was executed has an execution behind it.
use sotama.Prelude.{
  ◌∷◌, ◌||◌, ◌==◌, map, false, arith, [], Option-cases, All-impl, All-append, ◌≡◌, ◌&&◌, ℕ, true,
  subst, some, refl, or_default, not, none, inr, inl, if◌then◌else◌, Option, List, Bool-cases, All,
}
use sotama.Backtest.{Side, buy_tokenized, sell_tokenized}
use sotama.Prelude.Int.{ℤ, pos}
use sotama.Prelude.Num.{Num}
use sotama.Trading.Amount.{ui_to_atomic}
use sotama.Trading.Signals.{Signal, Exit, open_signal, close_signal, close_row}
use sotama.Trading.{
  TradeExecutionAction, open_position, close_position, TradeExecutionStatus, success, is_success,
  TradeExecutionResult, Executed, returned, threw, is_live_mode, is_enabled, TradeExecutionInput,
}
use sotama.Trading.Engine.{
  TradeExecution, EngineConfig, Observed, World, Call, call_threw, no_execution, called,
  has_succeeded, execution_id_of, Ended, finished, failed_with, and_then, exit_of, pnl_of,
  is_stale_at, has_converged, complete_units,
}
use sotama.Trading.Engine.Observe.{
  may_open, open_with, maybe_open_spot_inventory, close_with, close_position_at, close_one,
  close_all, maybe_close_spot_inventory, dispatch, on_observation, execute_open, execute_close,
  is_refused, open_positions, call_with, attached, has_live_entry, observe_all,
}

module _ (N : Num) (show : Num.F N → List ℕ) (show_id : ℕ → List ℕ) (E : TradeExecution (Num.F N))
    (cfg : EngineConfig (Num.F N)) where
  open N use {F, int}
  open E use {Log, mode, execute, attach, Recorded, success_recorded, execute_keeps, attach_keeps}

  -- An id that names a recorded execution.
  abbrev Named : TradeExecutionAction → Option ℕ → Log → Type 0
  Named action field log = (id : ℕ) × (field ≡ some id) × Recorded action id log

  abbrev NamedExit : Option (Exit F) → Log → Type 0
  NamedExit none log = Unit
  NamedExit (some x) log = Named close_position x.exit_execution_id log

  abbrev pub RowBacked : Log → Signal F → Type 0
  RowBacked log row = Named open_position row.entry.entry_execution_id log × NamedExit row.exit log

  abbrev pub IsBacked : World F Log → Type 0
  IsBacked w = All (RowBacked w.log) w.signals.rows

  abbrev Keeps : Log → Log → Type 0
  Keeps before after =
      (action : TradeExecutionAction) (id : ℕ)
      → Recorded action id before
      → Recorded action id after

  -- What a call of the executor leaves the engine with.
  record Served (action : TradeExecutionAction) (before : Log) (r : Call × Log) : Type 0 where
    pub kept : Keeps before r.1
    pub earned : has_succeeded r.0 ≡ true → Named action (execution_id_of r.0) r.1

  success_only : (status : TradeExecutionStatus) → is_success status ≡ true → status ≡ success
  success_only success h = refl
  success_only _ h = absurd (cc h)

  unasked-Served :
      (action : TradeExecutionAction) (log : Log) → Served action log (no_execution, log)
  unasked-Served action log = record { kept = λ a id h. h; earned = λ h. absurd (cc h) }

  called-Served :
      (action : TradeExecutionAction) (log : Log) (x : Executed × Log)
      → Keeps log x.1
      → ((r : TradeExecutionResult)
          → x.0 ≡ returned r
          → r.status ≡ success
          → Named action r.execution_id x.1)
      → Served action log (called x)
  called-Served action log (returned r, after) kept named = record {
    kept = kept;
    earned = λ h. named r refl (success_only r.status h);
  }
  called-Served action log (threw message, after) kept named = record {
    kept = kept;
    earned = λ h. absurd (cc h);
  }

  call_with-Served :
      (action : TradeExecutionAction) (args : ℤ → TradeExecutionInput F) (amount : Option ℤ)
      (log : Log)
      → ((a : ℤ) → (args a).action ≡ action)
      → Served action log (call_with N show show_id E cfg args amount log)
  call_with-Served action args none log same = record {
    kept = λ a id h. h;
    earned = λ h. absurd (cc h);
  }
  call_with-Served action args (some amount) log same =
      called-Served action log (execute (args amount) log)
        (λ a id h. execute_keeps (args amount) log a id h)
        (λ r e h.
          subst (λ a. Named a r.execution_id (execute (args amount) log).1) (same amount)
            (success_recorded (args amount) log r e h))

  execute_open-Served :
      (o : Observed F) (log : Log)
      → Served open_position log (execute_open N show show_id E cfg o log)
  unfolding execute_open
  execute_open-Served o log = elim (Bool-cases (is_enabled mode)) [
    | inl e ↦
        rw (e, if◌then◌else◌)
          (call_with-Served open_position _ (ui_to_atomic N o.size_usd o.pair.quote_decimals) log
            (λ a. refl))
    | inr e ↦ rw (e, if◌then◌else◌) (unasked-Served open_position log)
  ]

  execute_close-Served :
      (o : Observed F) (p : Signal F) (log : Log)
      → Served close_position log (execute_close N show show_id E cfg o p log)
  unfolding execute_close
  execute_close-Served o p log = elim (Bool-cases (is_enabled mode)) [
    | inr e ↦ rw (e, if◌then◌else◌) (unasked-Served close_position log)
    | inl e ↦ elim (Bool-cases (is_live_mode mode && not (has_live_entry N show show_id E cfg p))) [
      | inl d ↦ rw (e, d, if◌then◌else◌) (unasked-Served close_position log)
      | inr d ↦
          rw (e, d, if◌then◌else◌)
            (call_with-Served close_position _
              (ui_to_atomic N (or_default p.entry.token_units (int (pos 0)))
                o.pair.tokenized_decimals)
              log (λ a. refl))
    ]
  ]

  Named-Keeps :
      (action : TradeExecutionAction) (field : Option ℕ) (before after : Log)
      → Keeps before after
      → Named action field before
      → Named action field after
  Named-Keeps action field before after kept h = (h.0, h.1, kept action h.0 h.2)

  RowBacked-Keeps :
      (before after : Log) (row : Signal F)
      → Keeps before after
      → RowBacked before row
      → RowBacked after row
  RowBacked-Keeps before after row kept h =
      (Named-Keeps open_position _ before after kept h.0, exit_kept row.exit h.1)
    where
      exit_kept : (x : Option (Exit F)) → NamedExit x before → NamedExit x after
      exit_kept none k = tt
      exit_kept (some x) k = Named-Keeps close_position x.exit_execution_id before after kept k

  rows-Keeps :
      (before after : Log) (rows : List (Signal F))
      → Keeps before after
      → All (RowBacked before) rows
      → All (RowBacked after) rows
  rows-Keeps before after rows kept = All-impl (λ row. RowBacked-Keeps before after row kept) rows

  attached-Keeps :
      (field : Option ℕ) (signal_id : ℕ) (log : Log)
      → Keeps log (attached N show show_id E cfg field signal_id log)
  attached-Keeps none signal_id log action id h = h
  attached-Keeps (some execution_id) signal_id log action id h =
      attach_keeps execution_id signal_id log action id h

  -- A call that a live mode goes on with has succeeded.
  has_earned :
      (c : Call)
      → is_live_mode mode ≡ true
      → is_refused N show show_id E cfg c ≡ false
      → has_succeeded c ≡ true
  has_earned c live e = ground arith

  open_with-Backed :
      (o : Observed F) (w : World F Log) (r : Call × Log)
      → is_live_mode mode ≡ true
      → Served open_position w.log r
      → IsBacked w
      → IsBacked (open_with N show show_id E cfg o w.signals r).1
  unfolding open_signal
  open_with-Backed o w (call_threw message, log) live served backed =
      rows-Keeps w.log log w.signals.rows served.kept backed
  open_with-Backed o w (c, log) live served backed =
      elim (Bool-cases (is_refused N show show_id E cfg c)) [
        | inl e ↦ rw (e, if◌then◌else◌) (rows-Keeps w.log log w.signals.rows served.kept backed)
        | inr e ↦
            rw (e, if◌then◌else◌)
              (rows-Keeps log _ _ (attached-Keeps (execution_id_of c) w.signals.next_id log) (
                All-append (RowBacked log) w.signals.rows _
                  (rows-Keeps w.log log w.signals.rows served.kept backed)
                  ((served.earned (has_earned c live e), tt), tt)))
      ]

  All-close_row :
      (id : ℕ) (x : Exit F) (log : Log) (rows : List (Signal F))
      → Named close_position x.exit_execution_id log
      → All (RowBacked log) rows
      → All (RowBacked log) (map (close_row id x) rows)
  All-close_row id x log [] named backed = tt
  All-close_row id x log (row ∷ rows) named backed = (
    elim (Bool-cases (row.signal_id == id)) [
      | inl e ↦ rw (e, if◌then◌else◌) (backed.0.0, named)
      | inr e ↦ rw (e, if◌then◌else◌) backed.0
    ],
    All-close_row id x log rows named backed.1,
  )

  close_with-Backed :
      (o : Observed F) (p : Signal F) (pnl : F) (w : World F Log) (r : Call × Log)
      → is_live_mode mode ≡ true
      → Served close_position w.log r
      → IsBacked w
      → IsBacked (close_with N show show_id E cfg o p pnl w.signals r).1
  unfolding close_signal
  close_with-Backed o p pnl w (call_threw message, log) live served backed =
      rows-Keeps w.log log w.signals.rows served.kept backed
  close_with-Backed o p pnl w (c, log) live served backed =
      elim (Bool-cases (is_refused N show show_id E cfg c)) [
        | inl e ↦ rw (e, if◌then◌else◌) (rows-Keeps w.log log w.signals.rows served.kept backed)
        | inr e ↦
            rw (e, if◌then◌else◌)
              (All-close_row p.signal_id (exit_of N cfg o p pnl c) log w.signals.rows
                (served.earned (has_earned c live e))
                (rows-Keeps w.log log w.signals.rows served.kept backed))
      ]

  close_position_at-Backed :
      (o : Observed F) (p : Signal F) (units : F) (w : World F Log)
      → is_live_mode mode ≡ true
      → IsBacked w
      → IsBacked (close_position_at N show show_id E cfg o p units w).1
  unfolding close_position_at
  close_position_at-Backed o p units w live backed =
      elim (Bool-cases (is_stale_at N cfg o.now_ms p || has_converged N (pnl_of N cfg o p units))) [
        | inl e ↦
            rw (e, if◌then◌else◌)
              (close_with-Backed o p (pnl_of N cfg o p units) w _ live
                (execute_close-Served o p w.log) backed)
        | inr e ↦ rw (e, if◌then◌else◌) backed
      ]

  close_one-Backed :
      (o : Observed F) (p : Signal F) (w : World F Log)
      → is_live_mode mode ≡ true
      → IsBacked w
      → IsBacked (close_one N show show_id E cfg o p w).1
  unfolding close_one
  close_one-Backed o p w live backed = elim (Option-cases (complete_units N p)) [
    | inl e ↦ rw (e, close_one) backed
    | inr (units, e) ↦ rw (e, close_one) (close_position_at-Backed o p units w live backed)
  ]

  and_then-Backed :
      (r : Ended × World F Log) (rest : World F Log → Ended × World F Log)
      → IsBacked r.1
      → ((w : World F Log) → IsBacked w → IsBacked (rest w).1)
      → IsBacked (and_then r rest).1
  and_then-Backed (finished, w) rest first later = later w first
  and_then-Backed (failed_with message, w) rest first later = first

  close_all-Backed :
      (o : Observed F) (ps : List (Signal F)) (w : World F Log)
      → is_live_mode mode ≡ true
      → IsBacked w
      → IsBacked (close_all N show show_id E cfg o ps w).1
  unfolding close_all
  close_all-Backed o [] w live backed = backed
  close_all-Backed o (p ∷ ps) w live backed =
      and_then-Backed (close_one N show show_id E cfg o p w) (close_all N show show_id E cfg o ps)
        (close_one-Backed o p w live backed) (λ w' b. close_all-Backed o ps w' live b)

  maybe_open-Backed :
      (o : Observed F) (w : World F Log)
      → is_live_mode mode ≡ true
      → IsBacked w
      → IsBacked (maybe_open_spot_inventory N show show_id E cfg o w).1
  unfolding maybe_open_spot_inventory
  maybe_open-Backed o w live backed = elim (Bool-cases (may_open N show show_id E cfg o w)) [
    | inl e ↦
        rw (e, if◌then◌else◌) (open_with-Backed o w _ live (execute_open-Served o w.log) backed)
    | inr e ↦ rw (e, if◌then◌else◌) backed
  ]

  dispatch-Backed :
      (side : Side) (o : Observed F) (w : World F Log)
      → is_live_mode mode ≡ true
      → IsBacked w
      → IsBacked (dispatch N show show_id E cfg side o w).1
  unfolding maybe_close_spot_inventory
  dispatch-Backed buy_tokenized o w live backed = maybe_open-Backed o w live backed
  dispatch-Backed sell_tokenized o w live backed =
      close_all-Backed o (open_positions N show show_id E cfg o w) w live backed

  -- In a live mode, if every signal of the table names a recorded successful execution, of its entry
  -- and, once it is closed, of its exit, then so it is after any sequence of observations.
  pub observe_all-IsBacked :
      (os : List (Observed F)) (w : World F Log)
      → is_live_mode mode ≡ true
      → IsBacked w
      → IsBacked (observe_all N show show_id E cfg os w)
  unfolding observe_all on_observation
  observe_all-IsBacked [] w live backed = backed
  observe_all-IsBacked (o ∷ os) w live backed =
      observe_all-IsBacked os (on_observation N show show_id E cfg o w).1 live
        (dispatch-Backed o.side o w live backed)
