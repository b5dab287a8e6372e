-- ===== src/Quality/Tests.antt =====
-- A concrete quote, and each theorem about its quality applied.
use sotama.Prelude.Int.{ℤ, pos}
use sotama.Prelude.{◌≡◌, ◌↔◌, true, some, refl, none}
use sotama.Quality.{
  quote_latency_too_high, live_eligible, default_quote_quality_thresholds, classify_quote_quality,
  QuoteQualityThresholds, QuoteQualityInput,
}
use sotama.Quality.Eligible.{status-IsTrueOf, live_iff_IsEligible, Within, IsEligible}
use sotama.Prelude.Num.{Int_num}

abbrev good : QuoteQualityInput ℤ
good = record {
  pyth_freshness_lag_ms = some (pos 400);
  quote_request_ms = some (pos 90);
  basis_age_ms = some (pos 10);
  price_impact_pct = some (pos 0);
  pyth_confidence_bps = some (pos 3);
  router = some "iris";
  time_regime = some "METAL_ACTIVE";
  decimals_verified = true;
  has_exit_quote = none;
  route_stable = some true;
}

abbrev late : QuoteQualityInput ℤ
late = record {
  pyth_freshness_lag_ms = some (pos 400);
  quote_request_ms = some (pos 9000);
  basis_age_ms = some (pos 10);
  price_impact_pct = some (pos 0);
  pyth_confidence_bps = some (pos 3);
  router = some "iris";
  time_regime = some "METAL_ACTIVE";
  decimals_verified = true;
  has_exit_quote = none;
  route_stable = some true;
}

abbrev limits : QuoteQualityThresholds ℤ
limits = default_quote_quality_thresholds Int_num

live_iff_IsEligible_example :
    (classify_quote_quality Int_num good limits ≡ live_eligible) ↔ IsEligible Int_num good limits
live_iff_IsEligible_example = live_iff_IsEligible Int_num good limits

status-IsTrueOf_example : ¬ (Within Int_num (some (pos 9000)) (pos 1500))
unfolding classify_quote_quality
status-IsTrueOf_example = status-IsTrueOf Int_num late limits quote_latency_too_high refl
