-- ===== src/Trading/Engine/Verdict.antt =====
-- What the outcome of a closed position says of its profit.
use sotama.Prelude.{
  none, Option, All-append, ◌⊎◌, ◌≡◌, ◌∷◌, ◌==◌, ℕ, true, some, map, inr, inl, if◌then◌else◌, false,
  arith, [], List, Bool-cases, Bool, All,
}
use sotama.Prelude.Num.{Num}
use sotama.Prelude.Int.{pos}
use sotama.Trading.Signals.{
  Signal, SignalTable, Exit, Outcome, closed_win, closed_loss, closed_flat, closed_stale,
  open_signal, close_signal, close_row,
}
use sotama.Trading.Engine.{
  TradeExecution, EngineConfig, Observed, World, cent, minus_cent, outcome_of, is_stale_at,
  has_converged, pnl_of, exit_of,
}
use sotama.Trading.Engine.Lifecycle.{Step, opens, closes, observe_all_inv}
use sotama.Trading.Engine.Observe.{observe_all}

-- Two facts of the order of doubles: what is below -0.01 is at most 0.01 and is not at least 0.
pub record CentOrder (N : Num) : Type 0 where
  pub at_most_cent : (x : Num.F N) → Num.lt N x (minus_cent N) ≡ true → Num.le N x (cent N) ≡ true
  pub below_zero :
      (x : Num.F N) → Num.lt N x (minus_cent N) ≡ true → Num.le N (Num.int N (pos 0)) x ≡ false

module _ (N : Num) where
  open N use {F, int, lt, le}

  -- What the outcomes mean: a win made more than a cent, a stale exit did not, a flat one neither won
  -- nor lost more than a cent, and a loss is never written.
  abbrev pub Meant : F → Outcome → Type 0
  Meant pnl closed_win = lt (cent N) pnl ≡ true
  Meant pnl closed_stale = le pnl (cent N) ≡ true
  Meant pnl closed_flat = (lt (cent N) pnl ≡ false) × (lt pnl (minus_cent N) ≡ false)
  Meant pnl closed_loss = ⊥

  abbrev pub JudgedExit : Option (Exit F) → Type 0
  JudgedExit none = Unit
  JudgedExit (some x) = Meant x.pnl_usd x.outcome

  abbrev pub IsJudged : SignalTable F → Type 0
  IsJudged t = All (λ row. JudgedExit row.exit) t.rows

  -- A position is closed only if it is stale or has converged.
  outcome_of-Meant :
      CentOrder N
      → (is_stale : Bool) (pnl : F) → (is_stale ≡ true) ⊎ (has_converged N pnl ≡ true)
      → Meant pnl (outcome_of N is_stale pnl)
  unfolding outcome_of
  outcome_of-Meant law is_stale pnl due = ground (arith, law.at_most_cent pnl, law.below_zero pnl)

  All-close_row :
      (id : ℕ) (x : Exit F) (rows : List (Signal F))
      → Meant x.pnl_usd x.outcome
      → All (λ row. JudgedExit row.exit) rows
      → All (λ row. JudgedExit row.exit) (map (close_row id x) rows)
  All-close_row id x [] good judged = tt
  All-close_row id x (row ∷ rows) good judged = (
    elim (Bool-cases (row.signal_id == id)) [
      | inl e ↦ rw (e, if◌then◌else◌) good
      | inr e ↦ rw (e, if◌then◌else◌) judged.0
    ],
    All-close_row id x rows good judged.1,
  )

module _ (N : Num) (show : Num.F N → List ℕ) (show_id : ℕ → List ℕ) (E : TradeExecution (Num.F N))
    (cfg : EngineConfig (Num.F N)) (law : CentOrder N) where
  open N use {F}

  Step-IsJudged :
      (o : Observed F) {start t u : SignalTable F}
      → Step N show show_id E cfg o start t u
      → IsJudged N t
      → IsJudged N u
  unfolding open_signal close_signal
  Step-IsJudged o (opens t c units can) judged =
      All-append (λ row. JudgedExit N row.exit) t.rows _ judged (tt, tt)
  Step-IsJudged o (closes t p units c can) judged =
      All-close_row N p.signal_id (exit_of N cfg o p (pnl_of N cfg o p units) c) t.rows
        (outcome_of-Meant N law (is_stale_at N cfg o.now_ms p) (pnl_of N cfg o p units) can.is_due)
        judged

  -- Given two facts of the order of doubles, after any observations every closed position that the
  -- engine closed is judged by its profit: a win made more than a cent, a stale exit at most a cent, a
  -- flat one neither, and the outcome for a loss never occurs: a position sold at a loss is stale.
  pub observe_all-IsJudged :
      (os : List (Observed F)) (w : World F (TradeExecution.Log E))
      → IsJudged N w.signals
      → IsJudged N (observe_all N show show_id E cfg os w).signals
  observe_all-IsJudged =
      observe_all_inv N show show_id E cfg (IsJudged N) (λ o start t u. Step-IsJudged o)
