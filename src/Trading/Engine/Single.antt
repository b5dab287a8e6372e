-- ===== src/Trading/Engine/Single.antt =====
-- At most one position is open for each pair and size, while observations do not interleave.
use sotama.Trading.Engine.Observe.{observe_all}
use sotama.Trading.Engine.Lifecycle.{observe_all_inv, opens, closes, Step, CanOpen}
use sotama.Backtest.{Side, buy_tokenized, sell_tokenized}
use sotama.Prelude.Num.{Num}
use sotama.Trading.Signals.{open_signal, has_key, Signal, SignalTable, SignalKey, is_open_with}
use sotama.Trading.Signals.Rows.{
  open_count-open_signal, open_count-close_signal, length-select_cong, open_count,
}
use sotama.Trading.{same_side}
use sotama.Trading.Engine.{
  entry_of, exit_of, pnl_of, pnl_of, exit_of, World, TradeExecution, EngineConfig, Call, Observed,
  key_of,
}
use sotama.Prelude.{
  ℕ, none, inr, inl, Option, List, Bool-cases, ◌≡◌, ◌≤◌, str_eq, eq_iff, true, arith, refl,
}

-- Equal numbers compare alike, as finite doubles do.
abbrev pub EqCongruent : (N : Num) → Type 0
EqCongruent N = (a b c : Num.F N) → Num.eq N a b ≡ true → Num.eq N c a ≡ Num.eq N c b

module _ (N : Num) where
  open N use {F, eq}

  abbrev pub IsSingle : SignalTable F → Type 0
  IsSingle t = (key : SignalKey F) → open_count eq key t.rows ≤ 1

  same_side→≡ : (a b : Side) → same_side a b ≡ true → a ≡ b
  same_side→≡ buy_tokenized buy_tokenized h = refl
  same_side→≡ sell_tokenized sell_tokenized h = refl
  same_side→≡ buy_tokenized sell_tokenized h = ground arith
  same_side→≡ sell_tokenized buy_tokenized h = ground arith

  -- Rows have a key that the new row has if they have the observation's key.
  is_open_with_cong :
      EqCongruent N
      → (o : Observed F) (key : SignalKey F) → str_eq o.pair.pair_id key.pair_id ≡ true
      → same_side buy_tokenized key.side ≡ true
      → eq o.size_usd key.size_usd ≡ true
      → (row : Signal F) → is_open_with eq key row ≡ is_open_with eq (key_of N o) row
  is_open_with_cong law o key h k e row = ground (
    arith,
    eq_iff o.pair.pair_id key.pair_id,
    same_side→≡ buy_tokenized key.side,
    law o.size_usd key.size_usd row.entry.size_usd,
  )

module _ (N : Num) (show : Num.F N → List ℕ) (show_id : ℕ → List ℕ) (E : TradeExecution (Num.F N))
    (cfg : EngineConfig (Num.F N)) (law : EqCongruent N) where
  open N use {F, eq}

  -- A position is opened where no row has the observation's key, hence none with a key of its own.
  opened-IsSingle :
      (o : Observed F) (t : SignalTable F) (c : Call) (units : Option F)
      → CanOpen N show show_id E cfg o t c
      → IsSingle N t
      → IsSingle N (open_signal (entry_of N o c units) t).1
  opened-IsSingle o t c units can single key =
      elim (Bool-cases (
        has_key eq key
          (record { signal_id = t.next_id; entry = entry_of N o c units; exit = none }))) [
            | inl same ↦ ground (
              arith,
              open_count-open_signal eq key (entry_of N o c units) t,
              length-select_cong (is_open_with eq key) (is_open_with eq (key_of N o)) t.rows
                  (is_open_with_cong N law o key (ground arith) (ground arith) (ground arith)),
              can.none_open,
            )
            | inr differs ↦
                ground (arith, open_count-open_signal eq key (entry_of N o c units) t, single key)
          ]

  Step-IsSingle :
      (o : Observed F) {start t u : SignalTable F}
      → Step N show show_id E cfg o start t u
      → IsSingle N t
      → IsSingle N u
  Step-IsSingle o (opens t c units can) single key = opened-IsSingle o t c units can single key
  Step-IsSingle o (closes t p units c can) single key = omega (
    arith,
    single key,
    open_count-close_signal eq key p.signal_id (exit_of N cfg o p (pnl_of N cfg o p units) c) t,
  )

  -- If equal sizes compare alike, a table with at most one open position for each pair, side and size
  -- is such a table after any sequence of observations, whatever the executor does, where the work on
  -- each observation ends before that on the next begins. (Interleaved work is in Engine/Race.)
  pub observe_all-IsSingle :
      (os : List (Observed F)) (w : World F (TradeExecution.Log E))
      → IsSingle N w.signals
      → IsSingle N (observe_all N show show_id E cfg os w).signals
  observe_all-IsSingle =
      observe_all_inv N show show_id E cfg (IsSingle N) (λ o start t u. Step-IsSingle o)
