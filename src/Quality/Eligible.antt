-- ===== src/Quality/Eligible.antt =====
-- When a quote is live-eligible.
use sotama.Quality.{
  unknown_router, stale_pyth, stale_basis, route_unstable, quote_latency_too_high,
  pyth_confidence_too_wide, price_impact_too_high, missing_exit_quote, market_session_invalid,
  decimals_unverified, QuoteQualityStatus, live_eligible, is_false, classify_quote_quality,
  session_invalid, router_unknown, includes_text, impact_bps, exceeds, QuoteQualityThresholds,
  QuoteQualityInput,
}
use sotama.Prelude.Num.{Num}
use sotama.Prelude.{
  refl, if◌then◌else◌, eq_iff, arith, In, Bool, ◌≢◌, ◌≡◌, ◌∷◌, ◌↔◌, true, some, none, false, [],
  String, Option, List,
}

-- A measurement that is there and within its limit.
abbrev pub Within : (N : Num) → Option (Num.F N) → Num.F N → Type 0
Within N none most = ⊥
Within N (some v) most = Num.lt N most v ≡ false

-- A name that is there, not empty, and on the list.
abbrev pub Listed : List String → Option String → Type 0
Listed allowed none = ⊥
Listed allowed (some v) = (v ≢ "") × In v allowed

-- A router that is there and, unless every router is allowed, on the list.
abbrev pub Routed : List String → Option String → Type 0
Routed allowed none = ⊥
Routed [] (some v) = v ≢ ""
Routed (a ∷ allowed) (some v) = (v ≢ "") × In v (a ∷ allowed)

includes_text-In : (xs : List String) (v : String) → (includes_text xs v ≡ true) ↔ In v xs
includes_text-In [] v = (ground arith, ground arith)
includes_text-In (x ∷ xs) v =
    let (there, back) = includes_text-In xs v in
    (ground (arith, eq_iff x v, there), ground (arith, eq_iff x v, back))

session-Listed :
    (x : Option String) (allowed : List String)
    → (session_invalid x allowed ≡ false) ↔ Listed allowed x
session-Listed none allowed = (ground arith, ground arith)
session-Listed (some v) allowed =
    let (there, back) = includes_text-In allowed v in
    (ground (arith, eq_iff v "", there), ground (arith, eq_iff v "", back))

router-Routed :
    (x : Option String) (allowed : List String)
    → (router_unknown x allowed ≡ false) ↔ Routed allowed x
router-Routed none allowed = (ground arith, ground arith)
router-Routed (some v) [] = (ground (arith, eq_iff v ""), ground (arith, eq_iff v ""))
router-Routed (some v) (a ∷ allowed) =
    let (there, back) = includes_text-In (a ∷ allowed) v in
    (ground (arith, eq_iff v "", there), ground (arith, eq_iff v "", back))

not_false : (b : Option Bool) → b ≢ some false → is_false b ≡ false
not_false none h = refl
not_false (some true) h = refl
not_false (some false) h = elim (h refl) [ ]

module _ (N : Num) where
  open N use {F}

  pub record IsEligible (input : QuoteQualityInput F) (t : QuoteQualityThresholds F) : Type 0 where
    pub decimals : input.decimals_verified ≡ true
    pub pyth : Within N input.pyth_freshness_lag_ms t.max_pyth_freshness_lag_ms
    pub basis : Within N input.basis_age_ms t.max_basis_age_ms
    pub latency : Within N input.quote_request_ms t.max_quote_latency_ms
    pub session : Listed t.allowed_market_sessions input.time_regime
    pub impact : Within N (impact_bps N input.price_impact_pct) t.max_price_impact_bps
    pub confidence : Within N input.pyth_confidence_bps t.max_pyth_confidence_bps
    pub router : Routed t.allowed_routers input.router
    pub route : input.route_stable ≢ some false
    pub exit : input.has_exit_quote ≢ some false

  exceeds-Within : (x : Option F) (most : F) → (exceeds N x most ≡ false) ↔ Within N x most
  exceeds-Within none most = (ground arith, ground arith)
  exceeds-Within (some v) most = (ground arith, ground arith)

  module _ (input : QuoteQualityInput F) (t : QuoteQualityThresholds F) where
    IsEligible-of_status : classify_quote_quality N input t ≡ live_eligible → IsEligible input t
    unfolding classify_quote_quality
    IsEligible-of_status h =
        let pyth = exceeds-Within input.pyth_freshness_lag_ms t.max_pyth_freshness_lag_ms in
        let basis = exceeds-Within input.basis_age_ms t.max_basis_age_ms in
        let latency = exceeds-Within input.quote_request_ms t.max_quote_latency_ms in
        let session = session-Listed input.time_regime t.allowed_market_sessions in
        let impact = exceeds-Within (impact_bps N input.price_impact_pct) t.max_price_impact_bps in
        let confidence = exceeds-Within input.pyth_confidence_bps t.max_pyth_confidence_bps in
        let router = router-Routed input.router t.allowed_routers in
        record {
          decimals = ground arith;
          pyth = pyth.0 (ground arith);
          basis = basis.0 (ground arith);
          latency = latency.0 (ground arith);
          session = session.0 (ground arith);
          impact = impact.0 (ground arith);
          confidence = confidence.0 (ground arith);
          router = router.0 (ground arith);
          route = ground arith;
          exit = ground arith;
        }

    status_of_eligible : IsEligible input t → classify_quote_quality N input t ≡ live_eligible
    unfolding classify_quote_quality
    status_of_eligible e =
        let pyth =
          (exceeds-Within input.pyth_freshness_lag_ms t.max_pyth_freshness_lag_ms).1 e.pyth in
        let basis = (exceeds-Within input.basis_age_ms t.max_basis_age_ms).1 e.basis in
        let latency = (exceeds-Within input.quote_request_ms t.max_quote_latency_ms).1 e.latency in
        let session = (session-Listed input.time_regime t.allowed_market_sessions).1 e.session in
        let impact =
          (exceeds-Within (impact_bps N input.price_impact_pct) t.max_price_impact_bps).1
            e.impact in
        let confidence =
          (exceeds-Within input.pyth_confidence_bps t.max_pyth_confidence_bps).1 e.confidence in
        let router = (router-Routed input.router t.allowed_routers).1 e.router in
        let route = not_false input.route_stable e.route in
        let exit = not_false input.has_exit_quote e.exit in
        rw
          (
            e.decimals, pyth, basis, latency, session, impact, confidence, router, route, exit,
            if◌then◌else◌,
          )
          refl

    -- A quote is live-eligible exactly when its mint's decimals are verified, every measurement is
    -- there and not above its limit, its market session and its router are allowed, and neither its
    -- route nor its exit quote is known to be missing.
    pub live_iff_IsEligible :
        (classify_quote_quality N input t ≡ live_eligible) ↔ IsEligible input t
    live_iff_IsEligible = (IsEligible-of_status, status_of_eligible)

    -- What each status says of the quote.
    abbrev pub IsTrueOf : QuoteQualityStatus → Type 0
    IsTrueOf live_eligible = IsEligible input t
    IsTrueOf decimals_unverified = input.decimals_verified ≡ false
    IsTrueOf stale_pyth = ¬ (Within N input.pyth_freshness_lag_ms t.max_pyth_freshness_lag_ms)
    IsTrueOf stale_basis = ¬ (Within N input.basis_age_ms t.max_basis_age_ms)
    IsTrueOf quote_latency_too_high = ¬ (Within N input.quote_request_ms t.max_quote_latency_ms)
    IsTrueOf market_session_invalid = ¬ (Listed t.allowed_market_sessions input.time_regime)
    IsTrueOf price_impact_too_high =
        ¬ (Within N (impact_bps N input.price_impact_pct) t.max_price_impact_bps)
    IsTrueOf pyth_confidence_too_wide =
        ¬ (Within N input.pyth_confidence_bps t.max_pyth_confidence_bps)
    IsTrueOf unknown_router = ¬ (Routed t.allowed_routers input.router)
    IsTrueOf route_unstable = input.route_stable ≡ some false
    IsTrueOf missing_exit_quote = input.has_exit_quote ≡ some false

    -- The status of a quote is true of it: the check that it names did fail, or none did.
    pub status-IsTrueOf :
        (s : QuoteQualityStatus) → classify_quote_quality N input t ≡ s → IsTrueOf s
    unfolding classify_quote_quality
    status-IsTrueOf live_eligible h = IsEligible-of_status h
    status-IsTrueOf decimals_unverified h = ground arith
    status-IsTrueOf stale_pyth h = λ w.
        let e = (exceeds-Within input.pyth_freshness_lag_ms t.max_pyth_freshness_lag_ms).1 w in
        ground arith
    status-IsTrueOf stale_basis h =
        λ w. let e = (exceeds-Within input.basis_age_ms t.max_basis_age_ms).1 w in ground arith
    status-IsTrueOf quote_latency_too_high h = λ w.
        let e = (exceeds-Within input.quote_request_ms t.max_quote_latency_ms).1 w in ground arith
    status-IsTrueOf market_session_invalid h = λ w.
        let e = (session-Listed input.time_regime t.allowed_market_sessions).1 w in ground arith
    status-IsTrueOf price_impact_too_high h = λ w.
        let e = (exceeds-Within (impact_bps N input.price_impact_pct) t.max_price_impact_bps).1 w in
        ground arith
    status-IsTrueOf pyth_confidence_too_wide h = λ w.
        let e = (exceeds-Within input.pyth_confidence_bps t.max_pyth_confidence_bps).1 w in
        ground arith
    status-IsTrueOf unknown_router h =
        λ w. let e = (router-Routed input.router t.allowed_routers).1 w in ground arith
    status-IsTrueOf route_unstable h = ground arith
    status-IsTrueOf missing_exit_quote h = ground arith
