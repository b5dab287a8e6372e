-- ===== src/Research/Candidate.antt =====
-- When buildResearchVerdict calls a pair a candidate.
use sotama.Prelude.Num.{Num}
use sotama.Research.{
  build_research_verdict, TokenValidation, Readiness, ready, rejected, unready, research_only,
  verified_onchain, decimals_config_only, unverified, candidate, not_ready, VerdictInputs,
  status_of, is_critical_blocker, mint_blockers, readiness_blockers, only_if, no_live_samples,
  route_unstable, min_clean_of, clean_count, positive_horizons, min_horizons_of, min_closed_of,
  sum_closed, horizons_with_closes, decided, blockers_of,
}
use sotama.Prelude.{
  ◌≡◌, ◌++◌, true, false, refl, arith, ℕ, Bool, Bool-cases, inl, inr, length, any, ◌≤◌, ◌≢◌, ◌↔◌,
  if◌then◌else◌, length-select, not, ltb, ◌&&◌, ◌==◌, sym, ◌∙◌,
}

-- What blocks a pair before its counts are looked at.
abbrev is_blocked : TokenValidation → Readiness → Bool
is_blocked rejected _ = true
is_blocked _ unready = true
is_blocked _ _ = false

any-quiet :
    (is_silent is_unstable : Bool)
    → any is_critical_blocker
        (only_if is_silent no_live_samples ++ only_if is_unstable route_unstable)
      ≡ false
any-quiet true true = refl
any-quiet true false = refl
any-quiet false true = refl
any-quiet false false = refl

any-critical_blockers :
    (t : TokenValidation) (r : Readiness) (is_silent is_unstable : Bool)
    → any is_critical_blocker (
        mint_blockers t
        ++ readiness_blockers r
        ++ only_if is_silent no_live_samples
        ++ only_if is_unstable route_unstable)
      ≡ is_blocked t r
any-critical_blockers rejected _ _ _ = refl
any-critical_blockers verified_onchain unready _ _ = refl
any-critical_blockers decimals_config_only unready _ _ = refl
any-critical_blockers unverified unready _ _ = refl
any-critical_blockers verified_onchain ready a b = any-quiet a b
any-critical_blockers verified_onchain research_only a b = any-quiet a b
any-critical_blockers decimals_config_only ready a b = any-quiet a b
any-critical_blockers decimals_config_only research_only a b = any-quiet a b
any-critical_blockers unverified ready a b = any-quiet a b
any-critical_blockers unverified research_only a b = any-quiet a b

-- What the counts must be.
pub record Earned (clean min_clean positive min_horizons closed min_closed : ℕ) : Type 0 where
  pub enough_samples : min_clean ≤ clean
  pub has_profit : 1 ≤ positive
  pub enough_horizons : min_horizons ≤ positive
  pub enough_trades : min_closed ≤ closed

module _ (clean min_clean with_closes positive min_horizons closed min_closed : ℕ)
    (h : positive ≤ with_closes) where
  Earned-of_status :
      (b : Bool) (r : Readiness) (s : Bool)
      → (status_of b clean min_clean with_closes positive min_horizons closed min_closed r s).0
        ≡ candidate
      → (b ≡ false)
        × (r ≡ ready)
        × (s ≡ true)
        × Earned clean min_clean positive min_horizons closed min_closed
  Earned-of_status false ready true e = (
    refl,
    refl,
    refl,
    record {
      enough_samples = ground arith;
      has_profit = ground arith;
      enough_horizons = ground arith;
      enough_trades = ground arith;
    },
  )
  Earned-of_status true ready true e = ground arith
  Earned-of_status b ready false e = ground arith
  Earned-of_status b research_only s e = ground arith
  Earned-of_status b unready s e = ground arith

  status_of-candidate :
      Earned clean min_clean positive min_horizons closed min_closed
      → (status_of false clean min_clean with_closes positive min_horizons closed min_closed ready
          true).0
        ≡ candidate
  status_of-candidate e = ground arith

  status_of-Earned :
      (b : Bool) (r : Readiness) (s : Bool)
      → b ≡ false
      → r ≡ ready
      → s ≡ true
      → Earned clean min_clean positive min_horizons closed min_closed
      → (status_of b clean min_clean with_closes positive min_horizons closed min_closed r s).0
        ≡ candidate
  status_of-Earned b r s eb er es e = rw (eb, er, es) (status_of-candidate e)

module _ (N : Num) where
  open N use {F}

  pub record IsCandidate (input : VerdictInputs F) : Type 0 where
    pub enabled : input.is_enabled ≡ true
    pub accepted : input.token_validation ≢ rejected
    pub has_readiness : input.readiness ≡ ready
    pub has_stable_route : input.is_route_stable ≡ true
    pub earned :
        Earned
          (clean_count input)
          (min_clean_of input)
          (length (positive_horizons N input))
          (min_horizons_of input)
          (sum_closed (horizons_with_closes N input))
          (min_closed_of input)

  is_blocked-blockers :
      (input : VerdictInputs F)
      → any is_critical_blocker (blockers_of input)
        ≡ is_blocked input.token_validation input.readiness
  is_blocked-blockers input =
      any-critical_blockers input.token_validation input.readiness (clean_count input == 0)
        (not input.is_route_stable && ltb 0 input.total_ok_count)

  accepted_of : (t : TokenValidation) (r : Readiness) → is_blocked t r ≡ false → t ≢ rejected
  accepted_of t r e is_rejected = ground arith

  unblocked : (t : TokenValidation) → t ≢ rejected → is_blocked t ready ≡ false
  unblocked rejected h = elim (h refl) [ ]
  unblocked verified_onchain h = refl
  unblocked decimals_config_only h = refl
  unblocked unverified h = refl

  within :
      (input : VerdictInputs F)
      → length (positive_horizons N input) ≤ length (horizons_with_closes N input)
  within input = length-select _ (horizons_with_closes N input)

  status-decided :
      (input : VerdictInputs F)
      → input.is_enabled ≡ true
      → (build_research_verdict N input).status ≡ (decided N input).0
  unfolding build_research_verdict
  status-decided input e = rw (e, not, if◌then◌else◌) refl

  status-disabled :
      (input : VerdictInputs F)
      → input.is_enabled ≡ false
      → (build_research_verdict N input).status ≡ not_ready
  unfolding build_research_verdict
  status-disabled input e = rw (e, not, if◌then◌else◌) refl

  absurd_status : {A : Type 0} → not_ready ≡ candidate → A
  absurd_status e = ground arith

  enabled_of :
      (input : VerdictInputs F)
      → (build_research_verdict N input).status ≡ candidate
      → input.is_enabled ≡ true
  enabled_of input h = elim (Bool-cases input.is_enabled) [
    | inl e ↦ e
    | inr e ↦ absurd_status (sym (status-disabled input e) ∙ h)
  ]

  IsCandidate-of_status :
      (input : VerdictInputs F)
      → (build_research_verdict N input).status ≡ candidate
      → IsCandidate input
  IsCandidate-of_status input h =
      let enabled = enabled_of input h in
      let (quiet, has_readiness, is_stable, earned) =
        Earned-of_status _ _ _ _ _ _ _ (within input) _ _ _
          (sym (status-decided input enabled) ∙ h) in
      record {
        enabled = enabled;
        accepted = accepted_of _ _ (sym (is_blocked-blockers input) ∙ quiet);
        has_readiness = has_readiness;
        has_stable_route = is_stable;
        earned = earned;
      }

  is_unblocked :
      (input : VerdictInputs F)
      → IsCandidate input
      → any is_critical_blocker (blockers_of input) ≡ false
  is_unblocked input c =
      is_blocked-blockers input ∙ rw c.has_readiness (unblocked input.token_validation c.accepted)

  status_of-IsCandidate :
      (input : VerdictInputs F)
      → IsCandidate input
      → (build_research_verdict N input).status ≡ candidate
  status_of-IsCandidate input c =
      status-decided input c.enabled
      ∙ status_of-Earned _ _ _ _ _ _ _ (within input) _ _ _ (is_unblocked input c) c.has_readiness
          c.has_stable_route c.earned

  -- A verdict is candidate exactly when the pair is enabled, its mint is not rejected, its readiness
  -- is ready, its route is stable, and its live-eligible quotes, the profitable horizons, of which
  -- there is one at least, and the closed trades of the covered horizons reach their thresholds.
  pub candidate_iff_IsCandidate :
      (input : VerdictInputs F)
      → ((build_research_verdict N input).status ≡ candidate) ↔ IsCandidate input
  candidate_iff_IsCandidate input = (IsCandidate-of_status input, status_of-IsCandidate input)
