-- ===== src/Research.antt =====
-- packages/market-core/src/research-verdict.ts: what a pair's evidence amounts to. The texts of
-- summaries and details are not modelled: a reason is its code. `F` is `number`; counts are natural.
pub mod Candidate
mod Tests
use sotama.Prelude.Int.{pos}
use sotama.Prelude.Num.{Num}
use sotama.Quality.{QuoteQualityStatus, live_eligible}
use sotama.Horizon.{HorizonRow}
use sotama.Prelude.{
  ◌∷◌, ◌+◌, ◌*◌, ◌++◌, ◌&&◌, ◌||◌, ◌==◌, ℕ, true, some, select, none, not, ltb, leb, any, length,
  or_default, if◌then◌else◌, false, [], Option, List, Bool,
}

pub data VerdictStatus : Type 0 where
  not_ready collect_more no_edge paper_edge candidate : VerdictStatus

pub data Confidence : Type 0 where
  low medium high : Confidence

pub data TokenValidation : Type 0 where
  verified_onchain decimals_config_only unverified rejected : TokenValidation

pub data Readiness : Type 0 where
  ready research_only unready : Readiness

pub data BlockerCode : Type 0 where
  pair_disabled token_mint_rejected token_mint_unverified : BlockerCode
  pair_readiness_not_ready no_live_samples route_unstable : BlockerCode

pub data PositiveCode : Type 0 where
  token_mint_verified pair_readiness_ready route_stable : PositiveCode
  repeatable_opportunities fast_mean_reversion : PositiveCode

pub data NextAction : Type 0 where
  enable_pair replace_mint fix_readiness confirm_feeds resolve_blockers : NextAction
  keep_streaming inspect_exits review_costs promote continue_collecting : NextAction

-- What the verdict reads of a `PairStatSummary`.
pub record StatSummary (F : Type 0) : Type 0 where
  pub live_sample_count : ℕ
  pub opportunity_count : ℕ
  pub half_life_seconds : Option F

pub record VerdictInputs (F : Type 0) : Type 0 where
  pub is_enabled : Bool
  pub readiness : Readiness
  pub quality_distribution : List (QuoteQualityStatus × ℕ)
  pub hold_horizon_replay : List (HorizonRow F)
  pub stat_summary : List (StatSummary F)
  pub is_route_stable : Bool
  pub total_ok_count : ℕ
  pub token_validation : TokenValidation
  pub min_clean_samples : Option ℕ
  pub candidate_min_closed_trades : Option ℕ
  pub candidate_min_positive_horizons : Option ℕ

pub record Verdict : Type 0 where
  pub status : VerdictStatus
  pub confidence : Confidence
  pub blockers : List BlockerCode
  pub positives : List PositiveCode
  pub clean_sample_count : ℕ
  pub next_action : NextAction

abbrev is_live : QuoteQualityStatus → Bool
is_live live_eligible = true
is_live _ = false

unfoldable pub sum_live_eligible : List (QuoteQualityStatus × ℕ) → ℕ
sum_live_eligible [] = 0
sum_live_eligible ((status, count) ∷ rows) =
    let rest = sum_live_eligible rows in if is_live status then count else rest

abbrev pub mint_blockers : TokenValidation → List BlockerCode
mint_blockers rejected = token_mint_rejected ∷ []
mint_blockers verified_onchain = []
mint_blockers _ = token_mint_unverified ∷ []

abbrev pub mint_positives : TokenValidation → List PositiveCode
mint_positives verified_onchain = token_mint_verified ∷ []
mint_positives _ = []

abbrev pub readiness_blockers : Readiness → List BlockerCode
readiness_blockers unready = pair_readiness_not_ready ∷ []
readiness_blockers _ = []

abbrev pub readiness_positives : Readiness → List PositiveCode
readiness_positives ready = pair_readiness_ready ∷ []
readiness_positives _ = []

abbrev pub is_ready : Readiness → Bool
is_ready ready = true
is_ready _ = false

abbrev pub only_if : {A : Type 0} → Bool → A → List A
only_if b x = if b then x ∷ [] else []

abbrev pub is_critical_blocker : BlockerCode → Bool
is_critical_blocker pair_readiness_not_ready = true
is_critical_blocker token_mint_rejected = true
is_critical_blocker _ = false

abbrev is_rejection : BlockerCode → Bool
is_rejection token_mint_rejected = true
is_rejection _ = false

abbrev is_unreadiness : BlockerCode → Bool
is_unreadiness pair_readiness_not_ready = true
is_unreadiness _ = false

abbrev is_silence : BlockerCode → Bool
is_silence no_live_samples = true
is_silence _ = false

abbrev pub next_action_for_blocker : List BlockerCode → NextAction
next_action_for_blocker blockers =
    if any is_rejection blockers
    then replace_mint
    else if any is_unreadiness blockers
    then fix_readiness
    else if any is_silence blockers
    then confirm_feeds
    else resolve_blockers

-- The sample with the most live rows of those with thirty, the first of equals.
abbrev insert_larger : {F : Type 0} → StatSummary F → List (StatSummary F) → List (StatSummary F)
insert_larger x [] = x ∷ []
insert_larger x (y ∷ ys) =
    if leb y.live_sample_count x.live_sample_count then x ∷ y ∷ ys else y ∷ insert_larger x ys

abbrev largest_first : {F : Type 0} → List (StatSummary F) → List (StatSummary F)
largest_first [] = []
largest_first (x ∷ xs) = insert_larger x (largest_first xs)

abbrev first_of : {A : Type 0} → List A → Option A
first_of [] = none
first_of (x ∷ xs) = some x

unfoldable pub significant_stat_summary :
    {F : Type 0} → List (StatSummary F) → Option (StatSummary F)
significant_stat_summary rows =
    first_of (largest_first (select (λ row. leb 30 row.live_sample_count) rows))

abbrev pub confidence_of : ℕ → Confidence
confidence_of score = if leb 5 score then high else if leb 3 score then medium else low

abbrev points : Bool → ℕ → ℕ → ℕ
points b yes_points no_points = if b then yes_points else no_points

unfoldable pub compute_confidence : ℕ → ℕ → Bool → Bool → ℕ → Confidence
compute_confidence clean closed is_stable has_half_life min_clean = confidence_of (
    points (leb (min_clean * 4) clean) 2 (points (leb min_clean clean) 1 0)
    + points (leb 60 closed) 2 (points (leb 20 closed) 1 0)
    + points is_stable 1 0
    + points has_half_life 1 0)

abbrev pub min_clean_of : {F : Type 0} → VerdictInputs F → ℕ
min_clean_of input = or_default input.min_clean_samples 200

abbrev pub min_closed_of : {F : Type 0} → VerdictInputs F → ℕ
min_closed_of input = or_default input.candidate_min_closed_trades 30

abbrev pub min_horizons_of : {F : Type 0} → VerdictInputs F → ℕ
min_horizons_of input = or_default input.candidate_min_positive_horizons 2

abbrev pub clean_count : {F : Type 0} → VerdictInputs F → ℕ
clean_count input = sum_live_eligible input.quality_distribution

abbrev pub blockers_of : {F : Type 0} → VerdictInputs F → List BlockerCode
blockers_of input =
    mint_blockers input.token_validation
    ++ readiness_blockers input.readiness
    ++ only_if (clean_count input == 0) no_live_samples
    ++ only_if (not input.is_route_stable && ltb 0 input.total_ok_count) route_unstable

abbrev pub sum_closed : {F : Type 0} → List (HorizonRow F) → ℕ
sum_closed [] = 0
sum_closed (row ∷ rows) = row.totals.closed_trades + sum_closed rows

-- The counts that decide the status.
abbrev pub status_of :
    Bool → ℕ → ℕ → ℕ → ℕ → ℕ → ℕ → ℕ → Readiness → Bool → VerdictStatus × NextAction
status_of is_blocked clean min_clean with_closes positive min_horizons closed min_closed readiness
      is_stable =
    if is_blocked
    then (not_ready, resolve_blockers)
    else if ltb clean min_clean
    then (collect_more, keep_streaming)
    else if with_closes == 0
    then (no_edge, inspect_exits)
    else if positive == 0
    then (no_edge, review_costs)
    else if leb min_horizons positive && leb min_closed closed && is_ready readiness && is_stable
    then (candidate, promote)
    else (paper_edge, continue_collecting)

module _ (N : Num) where
  open N use {F, int, lt}

  abbrev pub horizons_with_closes : VerdictInputs F → List (HorizonRow F)
  horizons_with_closes input =
      select (λ row. row.horizon_covered && ltb 0 row.totals.closed_trades)
        input.hold_horizon_replay

  abbrev pub positive_horizons : VerdictInputs F → List (HorizonRow F)
  positive_horizons input =
      select (λ row. lt (int (pos 0)) row.totals.return_pct) (horizons_with_closes input)

  abbrev is_fast : Option F → Bool
  is_fast none = false
  is_fast (some h) = lt h (int (pos 1800))

  abbrev is_positive : Option F → Bool
  is_positive none = false
  is_positive (some h) = lt (int (pos 0)) h

  abbrev stat_positives : Option (StatSummary F) → List PositiveCode
  stat_positives none = []
  stat_positives (some row) =
      only_if (ltb 0 row.opportunity_count) repeatable_opportunities
      ++ only_if (is_fast row.half_life_seconds) fast_mean_reversion

  abbrev half_life_of : Option (StatSummary F) → Option F
  half_life_of none = none
  half_life_of (some row) = row.half_life_seconds

  abbrev pub positives_of : VerdictInputs F → List PositiveCode
  positives_of input =
      mint_positives input.token_validation
      ++ readiness_positives input.readiness
      ++ only_if (input.is_route_stable && ltb 0 input.total_ok_count) route_stable
      ++ stat_positives (significant_stat_summary input.stat_summary)

  abbrev pub decided : VerdictInputs F → VerdictStatus × NextAction
  decided input =
      status_of (any is_critical_blocker (blockers_of input)) (clean_count input)
        (min_clean_of input) (length (horizons_with_closes input))
        (length (positive_horizons input)) (min_horizons_of input)
        (sum_closed (horizons_with_closes input)) (min_closed_of input) input.readiness
        input.is_route_stable

  unfoldable pub build_research_verdict : VerdictInputs F → Verdict
  build_research_verdict input =
      if not input.is_enabled
      then record {
        status = not_ready;
        confidence = low;
        blockers = pair_disabled ∷ [];
        positives = [];
        clean_sample_count = clean_count input;
        next_action = enable_pair;
      }
      else record {
        status = (decided input).0;
        confidence =
            compute_confidence (clean_count input) (sum_closed (horizons_with_closes input))
              input.is_route_stable
              (is_positive (half_life_of (significant_stat_summary input.stat_summary)))
              (min_clean_of input);
        blockers = blockers_of input;
        positives = positives_of input;
        clean_sample_count = clean_count input;
        next_action =
            if any is_critical_blocker (blockers_of input)
            then next_action_for_blocker (blockers_of input)
            else (decided input).1;
      }
