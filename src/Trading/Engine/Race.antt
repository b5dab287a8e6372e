-- ===== src/Trading/Engine/Race.antt =====
-- Two quotes to buy that interleave: both look for open signals before either inserts one.
use sotama.Backtest.{buy_tokenized}
use sotama.Trading.Signals.{SignalKey}
use sotama.Prelude.{
  ◌∷◌, ◌++◌, refl, [], none, eq_iff, ◌≡◌, ◌+◌, ℕ, true, if◌then◌else◌, false, arith, List,
}
use sotama.Prelude.Num.{Num}
use sotama.Trading.Signals.Rows.{open_count, open_count-open_signal}
use sotama.Trading.{TradeExecutionMode, is_enabled, is_live_mode}
use sotama.Trading.Engine.{
  TradeExecution, EngineConfig, Observed, World, key_of, entry_of, no_execution,
}
use sotama.Trading.Engine.Observe.{on_observation, may_open, open_now, execute_open}
use sotama.Trading.Engine.Lifecycle.{none_open-open_count}

not_live : (mode : TradeExecutionMode) → is_enabled mode ≡ false → is_live_mode mode ≡ false
not_live mode h = ground arith

module _ (N : Num) (show : Num.F N → List ℕ) (show_id : ℕ → List ℕ) (E : TradeExecution (Num.F N))
    (cfg : EngineConfig (Num.F N)) where
  open N use {F, eq}
  open E use {Log, mode}

  -- The engine's world and the quotes to buy whose query for open signals has been answered, in favour,
  -- and that are not yet carried on.
  abbrev pub Pending : Type 0
  Pending = World F Log × List (Observed F)

  -- What may happen next, as the awaits of `maybeOpenSpotInventory` allow: `quote-scheduler.ts` starts
  -- one quote's work without waiting for that of another.
  pub data Next : Pending → Pending → Type 0 where
    runs :
        (o : Observed F) (w : World F Log) (q : List (Observed F))
        → Next (w, q) ((on_observation N show show_id E cfg o w).1, q)
    looks :
        (o : Observed F) (w : World F Log) (q : List (Observed F))
        → o.side ≡ buy_tokenized
        → may_open N show show_id E cfg o w ≡ true
        → Next (w, q) (w, o ∷ q)
    goes_on :
        (o : Observed F) (w : World F Log) (before after : List (Observed F))
        → Next (w, before ++ o ∷ after) ((open_now N show show_id E cfg o w).1, before ++ after)

  pub data Reaches : Pending → Pending → Type 0 where
    stop : (p : Pending) → Reaches p p
    step_then : (p q r : Pending) → Next p q → Reaches q r → Reaches p r

  open_now-open_count :
      (o : Observed F) (key : SignalKey F) (w : World F Log)
      → is_enabled mode ≡ false
      → o.pair.pair_id ≡ key.pair_id
      → key.side ≡ buy_tokenized
      → eq o.size_usd key.size_usd ≡ true
      → open_count eq key (open_now N show show_id E cfg o w).1.signals.rows
        ≡ open_count eq key w.signals.rows + 1
  unfolding execute_open
  open_now-open_count o key w off same_pair side same =
      rw (off, not_live mode off, if◌then◌else◌)
        (ground (
          arith,
          eq_iff o.pair.pair_id key.pair_id,
          open_count-open_signal eq key (entry_of N o no_execution none) w.signals,
        ))

  -- In mode paper, two quotes to buy for one pair and size, which both may open in a world, can run so
  -- that two positions are open for that pair and size at the end: each looks for open signals before
  -- the other has inserted its own.
  pub interleaved_opens_two :
      (o later : Observed F) (w : World F Log)
      → is_enabled mode ≡ false
      → o.side ≡ buy_tokenized
      → later.side ≡ buy_tokenized
      → later.pair.pair_id ≡ o.pair.pair_id
      → eq o.size_usd o.size_usd ≡ true
      → eq later.size_usd o.size_usd ≡ true
      → may_open N show show_id E cfg o w ≡ true
      → may_open N show show_id E cfg later w ≡ true
      → (last : World F Log) × Reaches (w, []) (last, [])
        × (open_count eq (key_of N o) last.signals.rows ≡ 2)
  interleaved_opens_two o later w off buys later_buys same_pair itself same may later_may =
      let first = (open_now N show show_id E cfg o w).1 in
      let last = (open_now N show show_id E cfg later first).1 in
      (
        last,
        step_then _ _ _ (looks o w [] buys may) (
            step_then _ _ _ (looks later w (o ∷ []) later_buys later_may) (
              step_then _ _ _ (goes_on o w (later ∷ []) [])
                (step_then _ _ _ (goes_on later first [] []) (stop (last, []))))),
        omega (
          arith,
          open_now-open_count o (key_of N o) w off refl refl itself,
          open_now-open_count later (key_of N o) first off same_pair refl same,
          none_open-open_count N show show_id E cfg o w (ground arith),
        ),
      )
