-- ===== src/Trading/Tests/Engines.antt =====
-- The engine's theorems at a concrete run.
use sotama.Prelude.Int.{◌-ℤ◌, ◌+ℤ◌, ◌*ℤ◌, ℤ, pos, eqb_ℤ, ltb_ℤ, leb_ℤ, eq_of_parts}
use sotama.Prelude.Num.{Int_num}
use sotama.Backtest.{buy_tokenized, sell_tokenized}
use sotama.Trading.Tests.{js, kit, outside, waiting, config, no_executions, observed, engine}
use sotama.Trading.{jupiter_managed, paper}
use sotama.Trading.Signals.{
  closed_win, Signal, Outcome, open_signal, close_signal, open_signals_by_key,
}
use sotama.Trading.Signals.Rows.{open_count}
use sotama.Trading.Amount.{ui_to_atomic, bankers_round, atomic_to_ui}
use sotama.Trading.Executions.{attach_trade_execution_signal}
use sotama.Trading.Jupiter.{first_string}
use sotama.Trading.Jupiter.Client.{
  order_result, order, read_order, order_request, execute as jupiter_execute, execute_result,
  swap_status_of, execute_request, parse_finite_number, first_finite_number, parse_optional_big_int,
  parse_date,
}
use sotama.Trading.Sender.{sign_wire_transaction}
use sotama.Trading.Executor.Submit.{record_result, execute_via_jupiter}
use sotama.Trading.Executor.Execute.{execute, output_token_units}
use sotama.Trading.Executor.{ExecutorState}
use sotama.Trading.Engine.{
  compute_spot_exit_pnl_usd, outcome_of, minus_cent, cent, TradeExecution, World, Observed, key_of,
}
use sotama.Trading.Engine.Observe.{
  maybe_open_spot_inventory, maybe_close_spot_inventory, close_all, close_one, close_position_at,
  execute_open, execute_close, on_observation, observe_all, may_open,
}
use sotama.Trading.Engine.Lifecycle.{Run, on_observation-Run}
use sotama.Trading.Engine.Single.{EqCongruent, IsSingle, observe_all-IsSingle}
use sotama.Trading.Engine.Verdict.{CentOrder, IsJudged, observe_all-IsJudged}
use sotama.Trading.Engine.Live.{trade_execution, IsExecuted, live_signals-IsExecuted}
use sotama.Trading.Engine.Race.{Reaches, interleaved_opens_two}
use sotama.Prelude.{
  map, Option, ◌≡◌, ◌∷◌, ◌+◌, ◌*◌, ℕ, refl, arith, false, [], List, none, some, true, length,
}

abbrev text_of_id : ℕ → List ℕ
text_of_id n = n ∷ []

abbrev text_of_size : ℤ → List ℕ
text_of_size x = []

abbrev live : TradeExecution ℤ
live = trade_execution js kit (config jupiter_managed) (λ n. outside (5000 + 5000 * n) waiting)

abbrev on_paper : TradeExecution ℤ
on_paper = trade_execution js kit (config paper) (λ n. outside (5000 + 5000 * n) waiting)

abbrev nothing_yet : World ℤ (ExecutorState ℤ × ℕ)
nothing_yet = record { signals = record { next_id = 1; rows = [] }; log = (no_executions, 0) }

-- Fifty tokens bought for 250 and sold for 300.
abbrev quotes : List (Observed ℤ)
quotes = observed buy_tokenized (pos 5) 5000 ∷ observed sell_tokenized (pos 6) 11000 ∷ []

eqb_ℤ→≡ : (a b : ℤ) → eqb_ℤ a b ≡ true → a ≡ b
eqb_ℤ→≡ a b h = eq_of_parts a b (ground arith)

integers_congruent : EqCongruent Int_num
integers_congruent a b c h = rw (eqb_ℤ→≡ a b h) refl

below_cent : (x : ℤ) → ltb_ℤ x (minus_cent Int_num) ≡ true → leb_ℤ x (cent Int_num) ≡ true
below_cent x h = ground arith

below_nought : (x : ℤ) → ltb_ℤ x (minus_cent Int_num) ≡ true → leb_ℤ (pos 0) x ≡ false
below_nought x h = ground arith

integers_ordered : CentOrder Int_num
integers_ordered = record { at_most_cent = below_cent; below_zero = below_nought }

on_observation-Run_example :
    Run Int_num text_of_size text_of_id live engine
      (observed buy_tokenized (pos 5) 5000)
      nothing_yet.signals
      nothing_yet.signals
      (on_observation Int_num text_of_size text_of_id live engine
        (observed buy_tokenized (pos 5) 5000)
        nothing_yet).1.signals
on_observation-Run_example =
    on_observation-Run Int_num text_of_size text_of_id live engine
      (observed buy_tokenized (pos 5) 5000) nothing_yet

observe_all-IsSingle_example :
    IsSingle Int_num
      (observe_all Int_num text_of_size text_of_id live engine quotes nothing_yet).signals
observe_all-IsSingle_example =
    observe_all-IsSingle Int_num text_of_size text_of_id live engine integers_congruent quotes
      nothing_yet (λ key. omega arith)

observe_all-IsJudged_example :
    IsJudged Int_num
      (observe_all Int_num text_of_size text_of_id live engine quotes nothing_yet).signals
observe_all-IsJudged_example =
    observe_all-IsJudged Int_num text_of_size text_of_id live engine integers_ordered quotes
      nothing_yet tt

live_signals-IsExecuted_example :
    IsExecuted js kit
      (config jupiter_managed)
      (λ n. outside (5000 + 5000 * n) waiting)
      text_of_size
      text_of_id
      engine
      (observe_all Int_num text_of_size text_of_id live engine quotes nothing_yet)
live_signals-IsExecuted_example =
    live_signals-IsExecuted js kit (config jupiter_managed) (λ n. outside (5000 + 5000 * n) waiting)
      text_of_size text_of_id engine quotes nothing_yet refl tt

abbrev a_quote : Observed ℤ
a_quote = observed buy_tokenized (pos 5) 5000

quote_may_open : may_open Int_num text_of_size text_of_id on_paper engine a_quote nothing_yet ≡ true
unfolding open_signals_by_key
quote_may_open = refl

abbrev second : Observed ℤ
second = observed buy_tokenized (pos 5) 5001

second-may_open : may_open Int_num text_of_size text_of_id on_paper engine second nothing_yet ≡ true
unfolding open_signals_by_key
second-may_open = refl

interleaved_opens_two_example :
    (last : World ℤ (TradeExecution.Log on_paper)) × Reaches Int_num text_of_size text_of_id
      on_paper engine
      (nothing_yet, [])
      (last, [])
    × (open_count eqb_ℤ (key_of Int_num a_quote) last.signals.rows ≡ 2)
interleaved_opens_two_example =
    interleaved_opens_two Int_num text_of_size text_of_id on_paper engine a_quote second nothing_yet
      refl refl refl refl refl refl quote_may_open second-may_open

-- The run in Jupiter's mode closes its position with a win.
abbrev outcomes : List (Signal ℤ) → List (Option Outcome)
outcomes = map (λ row. elim row.exit [ none ↦ none | some x ↦ some x.outcome ])

live_run_wins :
    outcomes
      (observe_all Int_num text_of_size text_of_id live engine quotes nothing_yet).signals.rows
    ≡ some closed_win ∷ []
unfolding observe_all on_observation maybe_open_spot_inventory maybe_close_spot_inventory close_all
    close_one close_position_at execute_open execute_close compute_spot_exit_pnl_usd outcome_of
    open_signal close_signal open_signals_by_key ui_to_atomic bankers_round execute
    execute_via_jupiter record_result order order_result order_request read_order jupiter_execute
    execute_result execute_request swap_status_of first_string parse_finite_number
    first_finite_number parse_optional_big_int parse_date sign_wire_transaction output_token_units
    atomic_to_ui attach_trade_execution_signal sotama.Prelude.Int.◌-ℤ◌ sotama.Prelude.Int.◌*ℤ◌
    sotama.Prelude.Int.◌+ℤ◌
live_run_wins = refl
