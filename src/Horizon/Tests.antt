-- ===== src/Horizon/Tests.antt =====
-- A position of 250 bought at 5 and sold at 4 after its horizon, and another that is left.
use sotama.Prelude.Int.{ℤ, pos, negsuc}
use sotama.Prelude.Num.{Int_num}
use sotama.Backtest.{Side, buy_tokenized, sell_tokenized, Observation}
use sotama.Horizon.{
  Options, HorizonRow, run_one_horizon, replay, blank, step, maybe_open, maybe_close,
  close_position, ensure_result, count_open, total_of, compute_spot_exit_pnl_usd, compute_ratio,
  compute_ratio_move_bps,
}
use sotama.Horizon.Balanced.{CentAboveZero}
use sotama.Horizon.Totals.{IsAccounted, run_one_horizon-IsAccounted}
use sotama.Prelude.{◌≡◌, ◌∷◌, ℕ, refl, true, arith, [], List}

abbrev observed : Side → ℕ → ℤ → Observation ℤ
observed side at price = record {
  side = side;
  size_usd = pos 250;
  observed_at_ms = at;
  base_price_usd = pos 5;
  token_price_usd = price;
  net_bps = pos 40;
  is_live = true;
}

abbrev options : Options ℤ
options = record {
  min_net_edge_bps = pos 30;
  transaction_cost_bps = pos 0;
  horizons_ms = 1000 ∷ [];
}

abbrev rows : List (Observation ℤ)
rows =
    observed sell_tokenized 10 (pos 5)
    ∷ observed buy_tokenized 20 (pos 5)
    ∷ observed sell_tokenized 2000 (pos 4)
    ∷ observed buy_tokenized 3000 (pos 5)
    ∷ []

integers_above : CentAboveZero Int_num
integers_above x h = ground arith

run_one_horizon-IsAccounted_example :
    IsAccounted Int_num
      (run_one_horizon Int_num rows 1000 2990 options)
      (replay Int_num options 1000 rows (blank Int_num)).positions
run_one_horizon-IsAccounted_example =
    run_one_horizon-IsAccounted Int_num integers_above rows 1000 2990 options

abbrev counts : HorizonRow ℤ → List ℕ
counts row =
    row.totals.closed_trades ∷ row.totals.winning_trades ∷ row.totals.timed_out_trades
    ∷ row.totals.open_positions ∷ []

one_timed_out : counts (run_one_horizon Int_num rows 1000 2990 options) ≡ 1 ∷ 0 ∷ 1 ∷ 1 ∷ []
unfolding run_one_horizon replay step maybe_open maybe_close close_position ensure_result count_open
    total_of compute_spot_exit_pnl_usd compute_ratio compute_ratio_move_bps sotama.Prelude.Int.◌-ℤ◌
    sotama.Prelude.Int.◌*ℤ◌ sotama.Prelude.Int.◌+ℤ◌
one_timed_out = refl
