-- ===== src/Trading/Engine/Observe.antt =====
-- `onObservation`, `maybeOpenSpotInventory`, `maybeCloseSpotInventory`, `executeOpen` and
-- `executeClose` of services/stat-arb-bot/src/signal-engine.ts. `show` and `show_id` are the texts of
-- numbers in template literals.
use sotama.Backtest.{Side, buy_tokenized, sell_tokenized}
use sotama.Prelude.Int.{ℤ, pos}
use sotama.Prelude.Num.{Num}
use sotama.Prelude.Text.{codes}
use sotama.Trading.Amount.{ui_to_atomic}
use sotama.Trading.Signals.{SignalTable, Signal, open_signal, close_signal, open_signals_by_key}
use sotama.Trading.{
  same_side, TradeExecutionInput, is_enabled, is_live_mode, open_position, close_position,
}
use sotama.Trading.Engine.{
  is_empty, key_of, complete_units, pnl_of, TradeExecution, EngineConfig, Observed, World, Ended,
  finished, failed_with, Call, no_execution, execution, call_threw, called, has_succeeded,
  execution_id_of, was_live, and_then, entry_of, exit_of, is_stale_at, has_converged,
}
use sotama.Prelude.{
  ◌∷◌, ◌++◌, ◌&&◌, ◌||◌, ℕ, any, some, or_default, not, none, is_some, if◌then◌else◌, [], Option,
  List, Bool,
}

module _ (N : Num) (show : Num.F N → List ℕ) (show_id : ℕ → List ℕ) (E : TradeExecution (Num.F N))
    (cfg : EngineConfig (Num.F N)) where
  open N use {F, int, lt, le, eq}
  open E use {Log, mode, execute, attach, output_token_units}

  -- `:`
  abbrev colon : ℕ
  colon = 58

  abbrev open_args : Observed F → ℤ → TradeExecutionInput F
  open_args o amount = record {
    action = open_position;
    pair = o.pair;
    side = buy_tokenized;
    size_usd = o.size_usd;
    base_price_usd = o.base_price_usd;
    token_price_usd = o.token_price_usd;
    edge_bps = o.net_edge_bps;
    input_amount = amount;
    signal_id = none;
    dedupe_key = codes "open:" ++ codes o.pair.pair_id ++ colon ∷ show o.size_usd;
  }

  abbrev close_args : Observed F → Signal F → ℤ → TradeExecutionInput F
  close_args o p amount = record {
    action = close_position;
    pair = o.pair;
    side = sell_tokenized;
    size_usd = o.size_usd;
    base_price_usd = o.base_price_usd;
    token_price_usd = o.token_price_usd;
    edge_bps = o.net_edge_bps;
    input_amount = amount;
    signal_id = some p.signal_id;
    dedupe_key = codes "close:" ++ show_id p.signal_id;
  }

  -- The amount is computed first, and throws if it is not finite or negative.
  abbrev pub call_with : (ℤ → TradeExecutionInput F) → Option ℤ → Log → Call × Log
  call_with args none log = (call_threw "bad amount", log)
  call_with args (some amount) log = called (execute (args amount) log)

  unfoldable pub execute_open : Observed F → Log → Call × Log
  execute_open o log =
      if is_enabled mode
      then call_with (open_args o) (ui_to_atomic N o.size_usd o.pair.quote_decimals) log
      else (no_execution, log)

  abbrev pub has_live_entry : Signal F → Bool
  has_live_entry p =
      is_some p.entry.entry_execution_id
      && was_live p.entry.execution_mode
      && is_some p.entry.token_units

  unfoldable pub execute_close : Observed F → Signal F → Log → Call × Log
  execute_close o p log =
      if not (is_enabled mode)
      then (no_execution, log)
      else if is_live_mode mode && not (has_live_entry p)
      then (no_execution, log)
      else call_with (close_args o p)
          (ui_to_atomic N (or_default p.entry.token_units (int (pos 0))) o.pair.tokenized_decimals)
          log

  abbrev with_signals : SignalTable F → Log → World F Log
  with_signals signals log = record { signals = signals; log = log }

  -- a live mode without a success goes no further
  abbrev pub is_refused : Call → Bool
  is_refused c = is_live_mode mode && not (has_succeeded c)

  abbrev pub executed_units : Observed F → Call → Option F
  executed_units o (execution r) = output_token_units r o.pair
  executed_units o _ = none

  -- `attachTradeExecutionSignal`, if there is an execution to name
  abbrev pub attached : Option ℕ → ℕ → Log → Log
  attached none signal_id log = log
  attached (some id) signal_id log = attach id signal_id log

  abbrev pub opened_signal : Observed F → Call → SignalTable F → ℕ × SignalTable F
  opened_signal o c signals = open_signal (entry_of N o c (executed_units o c)) signals

  abbrev pub open_with : Observed F → SignalTable F → Call × Log → Ended × World F Log
  open_with o signals (call_threw message, log) = (failed_with message, with_signals signals log)
  open_with o signals (c, log) = if is_refused c then (finished, with_signals signals log) else (
    finished,
    with_signals (opened_signal o c signals).1
        (attached (execution_id_of c) (opened_signal o c signals).0 log),
  )

  abbrev pub open_positions : Observed F → World F Log → List (Signal F)
  open_positions o w = open_signals_by_key eq (key_of N o) w.signals

  -- The conditions under which a quote to buy goes on to an execution.
  abbrev pub may_open : Observed F → World F Log → Bool
  may_open o w =
      any (same_side sell_tokenized) o.pair.directions
      && not (le o.token_price_usd (int (pos 0)))
      && is_empty (open_positions o w)
      && not (lt o.net_edge_bps o.pair.min_net_edge_bps)

  -- What follows the conditions. The source awaits the query of the open signals before them, and the
  -- executor after them, so that other observations may run in between.
  abbrev pub open_now : Observed F → World F Log → Ended × World F Log
  open_now o w = open_with o w.signals (execute_open o w.log)

  unfoldable pub maybe_open_spot_inventory : Observed F → World F Log → Ended × World F Log
  maybe_open_spot_inventory o w = if may_open o w then open_now o w else (finished, w)

  abbrev pub close_with :
      Observed F → Signal F → F → SignalTable F → Call × Log → Ended × World F Log
  close_with o p pnl signals (call_threw message, log) =
      (failed_with message, with_signals signals log)
  close_with o p pnl signals (c, log) =
      if is_refused c
      then (finished, with_signals signals log)
      else (finished, with_signals (close_signal p.signal_id (exit_of N cfg o p pnl c) signals) log)

  -- The body of the loop for a position whose entry is complete.
  unfoldable pub close_position_at : Observed F → Signal F → F → World F Log → Ended × World F Log
  close_position_at o p token_units w =
      let pnl = pnl_of N cfg o p token_units in
      if is_stale_at N cfg o.now_ms p || has_converged N pnl
      then close_with o p pnl w.signals (execute_close o p w.log)
      else (finished, w)

  unfoldable pub close_one : Observed F → Signal F → World F Log → Ended × World F Log
  close_one o p w = elim (complete_units N p) [
    | none ↦ (finished, w)
    | some units ↦ close_position_at o p units w
  ]

  unfoldable pub close_all : Observed F → List (Signal F) → World F Log → Ended × World F Log
  close_all o [] w = (finished, w)
  close_all o (p ∷ ps) w = and_then (close_one o p w) (close_all o ps)

  unfoldable pub maybe_close_spot_inventory : Observed F → World F Log → Ended × World F Log
  maybe_close_spot_inventory o w = close_all o (open_positions o w) w

  abbrev pub dispatch : Side → Observed F → World F Log → Ended × World F Log
  dispatch buy_tokenized o w = maybe_open_spot_inventory o w
  dispatch sell_tokenized o w = maybe_close_spot_inventory o w

  unfoldable pub on_observation : Observed F → World F Log → Ended × World F Log
  on_observation o w = dispatch o.side o w

  -- A sequence of observations, one after the other; a failure of one does not stop the next.
  unfoldable pub observe_all : List (Observed F) → World F Log → World F Log
  observe_all [] w = w
  observe_all (o ∷ os) w = observe_all os (on_observation o w).1
