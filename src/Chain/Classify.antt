-- ===== src/Chain/Classify.antt =====
-- `classifyChainLink` of src/lib/linked-chains.ts: how the output of one rule reaches the next.
use sotama.Prelude.{◌&&◌, Option, some, ◌≡◌, ◌≢◌, ◌↔◌, arith, str_eq, eq_iff, if◌then◌else◌}
use sotama.Chain.Types.{
  SwapAction, BuilderResult, ChainLinkClass, matched_mints, inverted_pair, bridge_required,
  first_swap,
}

classify_swaps : {F : Type 0} → SwapAction F → SwapAction F → ChainLinkClass
classify_swaps up down =
    let is_inverted =
      str_eq up.input_token.mint down.output_token.mint
      && str_eq up.output_token.mint down.input_token.mint in
    let is_matched = str_eq up.output_token.mint down.input_token.mint in
    if is_inverted && (is_matched && str_eq up.input_token.mint up.output_token.mint)
    then matched_mints
    else if is_inverted
    then inverted_pair
    else if is_matched
    then matched_mints
    else bridge_required

link_of : {F : Type 0} → Option (SwapAction F) → Option (SwapAction F) → ChainLinkClass
unfolding classify_swaps
link_of (some up) (some down) = classify_swaps up down
link_of _ _ = bridge_required

unfoldable pub classify_chain_link :
    {F K : Type 0} → BuilderResult F K → BuilderResult F K → ChainLinkClass
unfolding link_of
classify_chain_link upstream downstream = link_of (first_swap upstream) (first_swap downstream)

module _ {F K : Type 0} (u d : BuilderResult F K) {up down : SwapAction F}
    (is_up : first_swap u ≡ some up) (is_down : first_swap d ≡ some down) where
  -- For two rules whose first actions are swaps: the link needs a bridge exactly when the mint that
  -- the upstream swap pays out is not the mint that the downstream swap spends.
  pub bridge_iff_mints_differ :
      (classify_chain_link u d ≡ bridge_required) ↔ (up.output_token.mint ≢ down.input_token.mint)
  unfolding classify_chain_link
  bridge_iff_mints_differ = (
    ground (
      arith,
      eq_iff up.input_token.mint down.output_token.mint,
      eq_iff up.output_token.mint down.input_token.mint,
      eq_iff up.input_token.mint up.output_token.mint,
    ),
    ground (
      arith,
      eq_iff up.input_token.mint down.output_token.mint,
      eq_iff up.output_token.mint down.input_token.mint,
      eq_iff up.input_token.mint up.output_token.mint,
    ),
  )

  -- For two rules whose first actions are swaps: the pair is classified as inverted exactly when each
  -- swap pays out the mint that the other spends, and the two mints differ.
  pub inverted_iff_round_trip : (classify_chain_link u d ≡ inverted_pair) ↔ (
      (up.input_token.mint ≡ down.output_token.mint)
      × (up.output_token.mint ≡ down.input_token.mint)
      × (up.input_token.mint ≢ up.output_token.mint))
  unfolding classify_chain_link
  inverted_iff_round_trip = (
    ground (
      arith,
      eq_iff up.input_token.mint down.output_token.mint,
      eq_iff up.output_token.mint down.input_token.mint,
      eq_iff up.input_token.mint up.output_token.mint,
    ),
    ground (
      arith,
      eq_iff up.input_token.mint down.output_token.mint,
      eq_iff up.output_token.mint down.input_token.mint,
      eq_iff up.input_token.mint up.output_token.mint,
    ),
  )
