-- ===== src/Backtest/Apart.antt =====
-- The two sizes of `runTwoSizeBacktestV2`, which share its maps, do not meet.
use sotama.Backtest.Branches.{book_of}
use sotama.Backtest.Moves.{turn_of-others}
use sotama.Backtest.Replay.{step, replay, Replay}
use sotama.Prelude.Num.{Num}
use sotama.Prelude.{◌≡◌, ◌≢◌, ◌∷◌, ◌∙◌, sym, refl, arith, [], List, Bool, true, false}
use sotama.Backtest.{
  turn_of, maybe_open, maybe_close, set_at, size_250, size_1000, Size, Side, buy_tokenized,
  sell_tokenized, Options, Observation, Books,
}

abbrev pub rows_of : {F : Type 0} → Size → List (Size × Observation F) → List (Size × Observation F)
rows_of size [] = []
rows_of size_250 ((size_250, row) ∷ rows) = (size_250, row) ∷ rows_of size_250 rows
rows_of size_1000 ((size_1000, row) ∷ rows) = (size_1000, row) ∷ rows_of size_1000 rows
rows_of size (x ∷ rows) = rows_of size rows

sizes_differ : size_1000 ≢ size_250
sizes_differ h = cc h

module _ (N : Num) (options : Options (Num.F N)) where
  open N use {F}

  turn_of-same :
      (is_live : Bool) (side : Side) (size : Size) (row : Observation F) (bs cs : Books F)
      → book_of N size bs ≡ book_of N size cs
      → book_of N size (turn_of N is_live side options size row bs).0
        ≡ book_of N size (turn_of N is_live side options size row cs).0
  unfolding turn_of maybe_open maybe_close set_at
  turn_of-same false side size row bs cs e = e
  turn_of-same true buy_tokenized size_250 row bs cs e = ground arith
  turn_of-same true buy_tokenized size_1000 row bs cs e = ground arith
  turn_of-same true sell_tokenized size_250 row bs cs e = ground arith
  turn_of-same true sell_tokenized size_1000 row bs cs e = ground arith

  -- Two replays that agree on a size's book go on to agree on it, one with all the rows and the other
  -- with the rows of that size.
  replay-rows_of :
      (size : Size) (rows : List (Size × Observation F)) (r s : Replay F)
      → book_of N size r.books ≡ book_of N size s.books
      → book_of N size (replay N options rows r).books
        ≡ book_of N size (replay N options (rows_of size rows) s).books
  unfolding replay step
  replay-rows_of size [] r s e = e
  replay-rows_of size_250 ((size_250, row) ∷ rows) r s e =
      replay-rows_of size_250 rows _ _
        (turn_of-same row.is_live row.side size_250 row r.books s.books e)
  replay-rows_of size_1000 ((size_1000, row) ∷ rows) r s e =
      replay-rows_of size_1000 rows _ _
        (turn_of-same row.is_live row.side size_1000 row r.books s.books e)
  replay-rows_of size_250 ((size_1000, row) ∷ rows) r s e = replay-rows_of size_250 rows _ s (
      turn_of-others N row.is_live row.side options size_1000 size_250 row r.books
        (λ h. sizes_differ (sym h))
      ∙ e)
  replay-rows_of size_1000 ((size_250, row) ∷ rows) r s e = replay-rows_of size_1000 rows _ s (
      turn_of-others N row.is_live row.side options size_250 size_1000 row r.books sizes_differ ∙ e)

  -- What the maps hold for a size at the end is what they hold after a replay of that size's rows
  -- alone: a row of one size has no effect on the other's quotes, position, profit or count of trades,
  -- although the maps are shared.
  pub replay-solo :
      (size : Size) (rows : List (Size × Observation F)) (r : Replay F)
      → book_of N size (replay N options rows r).books
        ≡ book_of N size (replay N options (rows_of size rows) r).books
  replay-solo size rows r = replay-rows_of size rows r r refl
