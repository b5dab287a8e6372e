-- ===== src/Trading/Signals.antt =====
-- packages/db/src/signals.ts: the table `paper_signals`. A row is a position: how it was entered, and
-- how it was left, if it was (`exit_at IS NULL` while it is open). Columns that old rows leave empty
-- hold the defaults with which they are read. `eq` is the comparison of `size_usd`.
pub mod Rows
use sotama.Quality.{QuoteQualityStatus}
use sotama.Backtest.{Side}
use sotama.Trading.{same_side, TradeExecutionMode}
use sotama.Prelude.{
  ◌∷◌, ◌+◌, ◌++◌, ◌&&◌, ◌==◌, ℕ, str_eq, some, select, not, none, map, leb, is_some, if◌then◌else◌,
  [], String, Option, List, Bool, false,
}

pub record Entry (F : Type 0) : Type 0 where
  pub pair_id : String
  pub side : Side
  pub size_usd : F
  pub threshold_bps : F
  pub entry_edge_bps : F
  pub entry_token_price_usd : Option F
  pub entry_base_price_usd : Option F
  pub entry_quote_id : Option ℕ
  pub entry_basis_id : Option ℕ
  pub token_units : Option F
  pub entry_observed_at : Option ℕ
  pub entry_quality_status : QuoteQualityStatus
  pub entry_quality_reason : String
  pub execution_mode : TradeExecutionMode
  pub entry_execution_id : Option ℕ
  pub entry_at : ℕ

pub data ExitReason : Type 0 where
  converged stale : ExitReason

pub data Outcome : Type 0 where
  closed_win closed_loss closed_flat closed_stale : Outcome

-- `CloseSignalArgs` without the id.
pub record Exit (F : Type 0) : Type 0 where
  pub exit_edge_bps : F
  pub exit_side : Side
  pub exit_token_price_usd : F
  pub exit_base_price_usd : F
  pub exit_quote_id : Option ℕ
  pub exit_basis_id : Option ℕ
  pub exit_observed_at : ℕ
  pub exit_quality_status : QuoteQualityStatus
  pub exit_quality_reason : String
  pub exit_reason : ExitReason
  pub pnl_usd : F
  pub outcome : Outcome
  pub exit_at : ℕ
  pub exit_execution_id : Option ℕ

pub record Signal (F : Type 0) : Type 0 where
  pub signal_id : ℕ
  pub entry : Entry F
  pub exit : Option (Exit F)

-- `next_id` is the sequence that the column `id` draws on.
pub record SignalTable (F : Type 0) : Type 0 where
  pub next_id : ℕ
  pub rows : List (Signal F)

pub record SignalKey (F : Type 0) : Type 0 where
  pub pair_id : String
  pub side : Side
  pub size_usd : F

-- `ORDER BY`, on the column that `at` reads
abbrev pub insert_by : {A : Type 0} → (A → ℕ) → A → List A → List A
insert_by at x [] = x ∷ []
insert_by at x (y ∷ ys) = if leb (at x) (at y) then x ∷ y ∷ ys else y ∷ insert_by at x ys

abbrev pub order_by : {A : Type 0} → (A → ℕ) → List A → List A
order_by at [] = []
order_by at (x ∷ xs) = insert_by at x (order_by at xs)

module _ {F : Type 0} where
  unfoldable pub open_signal : Entry F → SignalTable F → ℕ × SignalTable F
  open_signal entry t = (
    t.next_id,
    record {
      next_id = t.next_id + 1;
      rows = t.rows ++ (record { signal_id = t.next_id; entry = entry; exit = none }) ∷ [];
    },
  )

  abbrev pub close_row : ℕ → Exit F → Signal F → Signal F
  close_row id x row =
      if row.signal_id == id
      then record { signal_id = row.signal_id; entry = row.entry; exit = some x }
      else row

  unfoldable pub close_signal : ℕ → Exit F → SignalTable F → SignalTable F
  close_signal id x t = record { next_id = t.next_id; rows = map (close_row id x) t.rows }

  -- when a row was left; only read of rows that were
  abbrev left_at : Signal F → ℕ
  left_at row = elim row.exit [ none ↦ 0 | some x ↦ x.exit_at ]

  abbrev left_since : String → ℕ → Signal F → Bool
  left_since pair since_ms row = elim row.exit [
    | none ↦ false
    | some x ↦ str_eq row.entry.pair_id pair && leb since_ms x.exit_at
  ]

  unfoldable pub closed_signals : String → ℕ → SignalTable F → List (Signal F)
  closed_signals pair since_ms t = order_by left_at (select (left_since pair since_ms) t.rows)

module _ {F : Type 0} (eq : F → F → Bool) where
  abbrev pub has_key : SignalKey F → Signal F → Bool
  has_key key row =
      str_eq row.entry.pair_id key.pair_id
      && same_side row.entry.side key.side
      && eq row.entry.size_usd key.size_usd

  abbrev pub is_open_with : SignalKey F → Signal F → Bool
  is_open_with key row = has_key key row && not (is_some row.exit)

  unfoldable pub open_signals_by_key : SignalKey F → SignalTable F → List (Signal F)
  open_signals_by_key key t =
      order_by (λ row. row.entry.entry_at) (select (is_open_with key) t.rows)
