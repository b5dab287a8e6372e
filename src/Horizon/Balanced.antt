-- ===== src/Horizon/Balanced.antt =====
-- The counts of a horizon's report: wins, timeouts, closed trades and open positions.
use sotama.Prelude.Int.{pos}
use sotama.Prelude.Num.{Num}
use sotama.Backtest.{Observation, Side, buy_tokenized, sell_tokenized}
use sotama.Horizon.{
  compute_ratio_move_bps, compute_ratio, SizeResult, Position, Replay, Options, no_trades,
  ensure_result, closed_result, one_if, cent, zero_num, replay, step, step_of, maybe_open,
  maybe_close, close_position, position_of, compute_spot_exit_pnl_usd,
}
use sotama.Prelude.{
  ◌-◌, ◌∷◌, ◌+◌, ◌&&◌, ◌≡◌, ◌≤◌, ℕ, All, true, not, leb, if◌then◌else◌, refl, arith, inl, inr,
  Bool-cases, Option-cases, [], List, Option, Bool,
}

-- A profit above a cent is not below zero.
abbrev pub CentAboveZero : Num → Type 0
CentAboveZero N = (x : Num.F N) → Num.lt N (cent N) x ≡ true → Num.le N (Num.int N (pos 0)) x ≡ true

module _ (N : Num) where
  open N use {F, int, lt, le, eq}

  abbrev pub IsBalanced : SizeResult F → Type 0
  IsBalanced r =
      (r.winning_trades + r.timed_out_trades ≤ r.closed_trades)
      × (r.ratio_move_count ≤ r.closed_trades)
      × (r.open_positions ≡ 0)

  pub ensure_result-All :
      (P : SizeResult F → Type 0) (size : F) (change : SizeResult F → SizeResult F)
      (rs : List (SizeResult F))
      → ((r : SizeResult F) → P r → P (change r))
      → P (no_trades N size)
      → All P rs
      → All P (ensure_result N size change rs)
  unfolding ensure_result
  ensure_result-All P size change [] keeps fresh h = (keeps (no_trades N size) fresh, tt)
  ensure_result-All P size change (r ∷ rs) keeps fresh h = elim (Bool-cases (eq r.size_usd size)) [
    | inl e ↦ rw (e, if◌then◌else◌) (keeps r h.0, h.1)
    | inr e ↦ rw (e, if◌then◌else◌) (h.0, ensure_result-All P size change rs keeps fresh h.1)
  ]

  closed_result-IsBalanced :
      CentAboveZero N
      → (pnl : F) (timed_out : Bool) (size hold_seconds : F) (ratio_move : Option F)
      → (r : SizeResult F) → IsBalanced r
      → IsBalanced (closed_result N pnl timed_out size hold_seconds ratio_move r)
  closed_result-IsBalanced law pnl timed_out size hold_seconds ratio_move r h =
      (one_of_them pnl timed_out r h.0, ground arith, h.2)
    where
      one_of_them :
          (pnl : F) (timed_out : Bool) (r : SizeResult F)
          → r.winning_trades + r.timed_out_trades ≤ r.closed_trades
          → (r.winning_trades + one_if N (lt (cent N) pnl))
              + (r.timed_out_trades + one_if N (timed_out && not (le (zero_num N) pnl)))
            ≤ r.closed_trades + 1
      one_of_them pnl timed_out r h = ground (arith, law pnl)

  abbrev pub AllBalanced : Replay F → Type 0
  AllBalanced s = All IsBalanced s.results

  close_position-AllBalanced :
      CentAboveZero N
      → (options : Options F) (horizon_ms : ℕ) (row : Observation F) (p : Position F) (s : Replay F)
      → AllBalanced s
      → AllBalanced (close_position N options horizon_ms row p s)
  unfolding close_position
  close_position-AllBalanced law options horizon_ms row p s h =
      let pnl =
        compute_spot_exit_pnl_usd N p.size_usd p.token_units row.token_price_usd
          options.transaction_cost_bps in
      elim (Bool-cases
        (not (le (zero_num N) pnl) && not (leb (p.entry_at_ms + horizon_ms) row.observed_at_ms))) [
          | inl e ↦ rw (e, if◌then◌else◌) h
          | inr e ↦
              rw (e, if◌then◌else◌)
                (ensure_result-All IsBalanced row.size_usd _ s.results
                  (λ r.
                    closed_result-IsBalanced law pnl
                      (leb (p.entry_at_ms + horizon_ms) row.observed_at_ms) p.size_usd
                      (N.div (int (pos (row.observed_at_ms - p.entry_at_ms))) (int (pos 1000)))
                      (compute_ratio_move_bps N p.entry_ratio (compute_ratio N row)) r)
                  (omega arith, omega arith, refl) h)
        ]

  maybe_close-AllBalanced :
      CentAboveZero N
      → (options : Options F) (horizon_ms : ℕ) (row : Observation F) (s : Replay F) → AllBalanced s
      → AllBalanced (maybe_close N options horizon_ms row s)
  unfolding maybe_close
  maybe_close-AllBalanced law options horizon_ms row s h =
      elim (Option-cases (position_of N row.size_usd s.positions)) [
        | inl e ↦ rw (e, maybe_close) h
        | inr (p, e) ↦ elim (Bool-cases (leb row.observed_at_ms p.entry_at_ms)) [
          | inl early ↦ rw (e, early, maybe_close, if◌then◌else◌) h
          | inr later ↦
              rw (e, later, maybe_close, if◌then◌else◌)
                (close_position-AllBalanced law options horizon_ms row p s h)
        ]
      ]

  maybe_open-AllBalanced :
      (options : Options F) (row : Observation F) (s : Replay F)
      → AllBalanced s
      → AllBalanced (maybe_open N options row s)
  unfolding maybe_open
  maybe_open-AllBalanced options row s h = ground arith

  step_of-AllBalanced :
      CentAboveZero N
      → (side : Side) (options : Options F) (horizon_ms : ℕ) (row : Observation F) (s : Replay F)
      → AllBalanced s
      → AllBalanced (step_of N side options horizon_ms row s)
  step_of-AllBalanced law sell_tokenized options horizon_ms row s h =
      maybe_close-AllBalanced law options horizon_ms row
        (record s { sell_route_seen = row.size_usd ∷ s.sell_route_seen }) h
  step_of-AllBalanced law buy_tokenized options horizon_ms row s h =
      maybe_open-AllBalanced options row s h

  pub replay-AllBalanced :
      CentAboveZero N
      → (options : Options F) (horizon_ms : ℕ) (rows : List (Observation F)) (s : Replay F)
      → AllBalanced s
      → AllBalanced (replay N options horizon_ms rows s)
  unfolding replay step
  replay-AllBalanced law options horizon_ms [] s h = h
  replay-AllBalanced law options horizon_ms (row ∷ rows) s h =
      replay-AllBalanced law options horizon_ms rows (step N options horizon_ms row s) (
        step_of-AllBalanced law row.side options horizon_ms row _ (
          ensure_result-All IsBalanced row.size_usd (λ r. r) s.results (λ r k. k)
            (omega arith, omega arith, refl) h))
