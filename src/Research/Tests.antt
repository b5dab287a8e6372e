-- ===== src/Research/Tests.antt =====
-- A pair with two profitable horizons, whose mint nobody has verified.
use sotama.Prelude.Int.{ℤ, pos}
use sotama.Prelude.Num.{Int_num}
use sotama.Horizon.{HorizonRow}
use sotama.Quality.{live_eligible, stale_pyth}
use sotama.Research.{
  VerdictInputs, build_research_verdict, candidate, high, ready, unverified, token_mint_unverified,
  promote, StatSummary, significant_stat_summary, compute_confidence, sum_live_eligible,
}
use sotama.Research.Candidate.{IsCandidate, candidate_iff_IsCandidate}
use sotama.Prelude.{◌≡◌, ◌∷◌, ◌↔◌, ℕ, refl, true, some, none, []}

abbrev row_of : ℕ → HorizonRow ℤ
row_of closed = record {
  horizon_ms = 1000;
  sample_window_ms = 5000;
  horizon_covered = true;
  totals = record {
    pnl_usd = pos 9;
    closed_trades = closed;
    winning_trades = closed;
    timed_out_trades = 0;
    open_positions = 0;
    deployed_usd = pos 250;
    return_pct = pos 3;
    annualized_return_pct = none;
    avg_ratio_move_bps = none;
    win_rate = pos 1;
    avg_hold_seconds = pos 2;
  };
  size_results = [];
}

abbrev measured : StatSummary ℤ
measured = record {
  live_sample_count = 40;
  opportunity_count = 2;
  half_life_seconds = some (pos 600);
}

abbrev evidence : VerdictInputs ℤ
evidence = record {
  is_enabled = true;
  readiness = ready;
  quality_distribution = (stale_pyth, 7) ∷ (live_eligible, 900) ∷ [];
  hold_horizon_replay = row_of 40 ∷ row_of 0 ∷ row_of 50 ∷ [];
  stat_summary = measured ∷ [];
  is_route_stable = true;
  total_ok_count = 80;
  token_validation = unverified;
  min_clean_samples = none;
  candidate_min_closed_trades = none;
  candidate_min_positive_horizons = none;
}

candidate_iff_IsCandidate_example :
    ((build_research_verdict Int_num evidence).status ≡ candidate) ↔ IsCandidate Int_num evidence
candidate_iff_IsCandidate_example = candidate_iff_IsCandidate Int_num evidence

unverified_is_candidate : (build_research_verdict Int_num evidence).status ≡ candidate
unfolding build_research_verdict sum_live_eligible
unverified_is_candidate = refl

blocker_left : (build_research_verdict Int_num evidence).blockers ≡ token_mint_unverified ∷ []
unfolding build_research_verdict sum_live_eligible
blocker_left = refl

confident : (build_research_verdict Int_num evidence).confidence ≡ high
unfolding build_research_verdict significant_stat_summary compute_confidence sum_live_eligible
confident = refl

promoted : (build_research_verdict Int_num evidence).next_action ≡ promote
unfolding build_research_verdict sum_live_eligible
promoted = refl
