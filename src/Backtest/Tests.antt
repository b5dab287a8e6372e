-- ===== src/Backtest/Tests.antt =====
-- A small replay over integers, and each theorem about replays applied to it.
use sotama.Prelude.Int.{◌-ℤ◌, ◌+ℤ◌, ◌*ℤ◌, ℤ, pos}
use sotama.Backtest.Apart.{rows_of, replay-solo}
use sotama.Backtest.Replay.{step, start, replay, Replay}
use sotama.Backtest.{
  set_at, turn_of, turn, trade_250, trade_1000, size_250, size_1000, sell_tokenized,
  recommend_action, reaches, maybe_open, maybe_close, first_present, compute_spot_exit_pnl_usd,
  buy_tokenized, Size, Side, Options, Observation,
}
use sotama.Backtest.Branches.{Move, book_of}
use sotama.Backtest.Moves.{turn-Move, recommends_on_edge}
use sotama.Prelude.{◌≤◌, ◌≡◌, ◌≢◌, ◌∷◌, ◌+◌, ℕ, true, some, refl, none, false, [], List}
use sotama.Prelude.Num.{Int_num}

abbrev observed : Side → ℕ → ℤ → Observation ℤ
observed side at price = record {
  side = side;
  size_usd = pos 250;
  observed_at_ms = at;
  base_price_usd = pos 10;
  token_price_usd = price;
  net_bps = pos 40;
  is_live = true;
}

abbrev options : Options ℤ
options = record {
  min_net_edge_bps = pos 30;
  transaction_cost_bps = pos 0;
  min_live_samples = 2;
  is_research_only = false;
}

abbrev rows : List (Size × Observation ℤ)
rows =
    (size_250, observed sell_tokenized 10 (pos 5))
    ∷ (size_250, observed buy_tokenized 20 (pos 5))
    ∷ (size_1000, observed sell_tokenized 25 (pos 6))
    ∷ (size_250, observed sell_tokenized 30 (pos 6))
    ∷ []

abbrev blank : Replay ℤ
blank = start Int_num

-- Fifty units bought for 250 are sold for 300.
profit_made : (replay Int_num options rows blank).books.pnl size_250 ≡ pos 50
unfolding sotama.Prelude.Int.◌-ℤ◌ sotama.Prelude.Int.◌*ℤ◌ sotama.Prelude.Int.◌+ℤ◌ replay step
    turn_of maybe_open maybe_close set_at compute_spot_exit_pnl_usd
profit_made = refl

abbrev sold_before : Replay ℤ
sold_before = replay Int_num options ((size_250, observed sell_tokenized 10 (pos 5)) ∷ []) blank

turn-Move_example :
    let row = observed buy_tokenized 20 (pos 5) in
    let after = (turn Int_num options size_250 row sold_before.books).0 in
    Move Int_num options row
      (book_of Int_num size_250 sold_before.books)
      (book_of Int_num size_250 after)
    × ((key : Size)
        → key ≢ size_250
        → book_of Int_num key after ≡ book_of Int_num key sold_before.books)
turn-Move_example =
    turn-Move Int_num options size_250 (observed buy_tokenized 20 (pos 5)) sold_before.books

recommends_on_edge_example :
    (recommend_action Int_num (some (pos 40)) none none 5 options ≡ trade_250
      → (2 ≤ 5)
        × (options.is_research_only ≡ false)
        × (reaches Int_num (some (pos 40)) (pos 30) ≡ true))
    × (recommend_action Int_num (some (pos 40)) none none 5 options ≡ trade_1000
        → (2 ≤ 5)
          × (options.is_research_only ≡ false)
          × (reaches Int_num none (pos 30) ≡ true)
          × (reaches Int_num (first_present Int_num none none) (pos 30) ≡ true))
recommends_on_edge_example = recommends_on_edge Int_num (some (pos 40)) none none 5 options

replay-solo_example :
    book_of Int_num size_250 (replay Int_num options rows blank).books
    ≡ book_of Int_num size_250 (replay Int_num options (rows_of size_250 rows) blank).books
replay-solo_example = replay-solo Int_num options size_250 rows blank
