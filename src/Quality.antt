-- ===== src/Quality.antt =====
-- packages/market-core/src/quote-quality.ts: whether an observed quote may be traded on. The message
-- texts are not modelled: a status stands for the result. `F` is `number`; `a > b` is `lt b a`.
pub mod Eligible
mod Tests
use sotama.Prelude.Int.{pos}
use sotama.Prelude.Num.{Num}
use sotama.Prelude.{
  ◌∷◌, ◌||◌, ◌&&◌, true, str_eq, some, or_default, not, none, if◌then◌else◌, false, [], String,
  Option, List, Bool,
}

pub data QuoteQualityStatus : Type 0 where
  live_eligible stale_pyth stale_basis quote_latency_too_high missing_exit_quote :
      QuoteQualityStatus
  unknown_router route_unstable market_session_invalid : QuoteQualityStatus
  price_impact_too_high pyth_confidence_too_wide decimals_unverified : QuoteQualityStatus

-- A `TimeRegime` is its name.
pub record QuoteQualityThresholds (F : Type 0) : Type 0 where
  pub max_pyth_freshness_lag_ms : F
  pub max_quote_latency_ms : F
  pub max_basis_age_ms : F
  pub max_price_impact_bps : F
  pub max_pyth_confidence_bps : F
  pub allowed_routers : List String
  pub allowed_market_sessions : List String

pub record QuoteQualityOverrides (F : Type 0) : Type 0 where
  pub max_pyth_freshness_lag_ms : Option F
  pub max_quote_latency_ms : Option F
  pub max_basis_age_ms : Option F
  pub max_price_impact_bps : Option F
  pub max_pyth_confidence_bps : Option F
  pub allowed_routers : Option (List String)
  pub allowed_market_sessions : Option (List String)

-- `none` is `null` or `undefined`.
pub record QuoteQualityInput (F : Type 0) : Type 0 where
  pub pyth_freshness_lag_ms : Option F
  pub quote_request_ms : Option F
  pub basis_age_ms : Option F
  pub price_impact_pct : Option F
  pub pyth_confidence_bps : Option F
  pub router : Option String
  pub time_regime : Option String
  pub decimals_verified : Bool
  pub has_exit_quote : Option Bool
  pub route_stable : Option Bool

abbrev pub default_allowed_market_sessions : List String
default_allowed_market_sessions =
    "US_EQUITY_REGULAR" ∷ "METAL_ACTIVE" ∷ "CRYPTO_NORMAL" ∷ "CRYPTO_HIGH_VOL" ∷ []

unfoldable pub build_quote_quality_thresholds :
    {F : Type 0}
    → Option (QuoteQualityOverrides F)
    → QuoteQualityThresholds F
    → QuoteQualityThresholds F
build_quote_quality_thresholds none fallback = fallback
build_quote_quality_thresholds (some o) fallback = record {
  max_pyth_freshness_lag_ms =
      or_default o.max_pyth_freshness_lag_ms fallback.max_pyth_freshness_lag_ms;
  max_quote_latency_ms = or_default o.max_quote_latency_ms fallback.max_quote_latency_ms;
  max_basis_age_ms = or_default o.max_basis_age_ms fallback.max_basis_age_ms;
  max_price_impact_bps = or_default o.max_price_impact_bps fallback.max_price_impact_bps;
  max_pyth_confidence_bps = or_default o.max_pyth_confidence_bps fallback.max_pyth_confidence_bps;
  allowed_routers = or_default o.allowed_routers fallback.allowed_routers;
  allowed_market_sessions = or_default o.allowed_market_sessions fallback.allowed_market_sessions;
}

-- `xs.includes(x)`
abbrev pub includes_text : List String → String → Bool
includes_text [] x = false
includes_text (y ∷ ys) x = str_eq y x || includes_text ys x

abbrev pub is_empty_list : List String → Bool
is_empty_list [] = true
is_empty_list (x ∷ xs) = false

-- `x === false`
abbrev pub is_false : Option Bool → Bool
is_false (some false) = true
is_false _ = false

-- `!x || !allowed.includes(x)`, where the empty text is falsy
abbrev pub session_invalid : Option String → List String → Bool
session_invalid none allowed = true
session_invalid (some x) allowed = str_eq x "" || not (includes_text allowed x)

-- `!router`, or a list of allowed routers without it
abbrev pub router_unknown : Option String → List String → Bool
router_unknown none allowed = true
router_unknown (some x) allowed =
    str_eq x "" || (not (is_empty_list allowed) && not (includes_text allowed x))

module _ (N : Num) where
  open N use {F, int, mul, abs, lt, div}

  abbrev pub default_quote_quality_thresholds : QuoteQualityThresholds F
  default_quote_quality_thresholds = record {
    max_pyth_freshness_lag_ms = int (pos 5000);
    max_quote_latency_ms = int (pos 1500);
    max_basis_age_ms = int (pos 5000);
    max_price_impact_bps = int (pos 50);
    max_pyth_confidence_bps = int (pos 25);
    allowed_routers = [];
    allowed_market_sessions = default_allowed_market_sessions;
  }

  -- `x == null || x > most`
  abbrev pub exceeds : Option F → F → Bool
  exceeds none most = true
  exceeds (some x) most = lt most x

  -- `Math.abs(priceImpactPct * 100)`
  abbrev pub impact_bps : Option F → Option F
  impact_bps none = none
  impact_bps (some pct) = some (abs (mul pct (int (pos 100))))

  unfoldable pub classify_quote_quality :
      QuoteQualityInput F → QuoteQualityThresholds F → QuoteQualityStatus
  classify_quote_quality input t =
      if not input.decimals_verified
      then decimals_unverified
      else if exceeds input.pyth_freshness_lag_ms t.max_pyth_freshness_lag_ms
      then stale_pyth
      else if exceeds input.basis_age_ms t.max_basis_age_ms
      then stale_basis
      else if exceeds input.quote_request_ms t.max_quote_latency_ms
      then quote_latency_too_high
      else if session_invalid input.time_regime t.allowed_market_sessions
      then market_session_invalid
      else if exceeds (impact_bps input.price_impact_pct) t.max_price_impact_bps
      then price_impact_too_high
      else if exceeds input.pyth_confidence_bps t.max_pyth_confidence_bps
      then pyth_confidence_too_wide
      else if router_unknown input.router t.allowed_routers
      then unknown_router
      else if is_false input.route_stable
      then route_unstable
      else if is_false input.has_exit_quote
      then missing_exit_quote
      else live_eligible

pub data ObservationQuality : Type 0 where
  live warm stale invalid : ObservationQuality

unfoldable pub observation_quality_from_status : QuoteQualityStatus → ObservationQuality
observation_quality_from_status live_eligible = live
observation_quality_from_status stale_pyth = stale
observation_quality_from_status stale_basis = stale
observation_quality_from_status quote_latency_too_high = warm
observation_quality_from_status _ = invalid
