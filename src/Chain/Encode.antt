-- ===== src/Chain/Encode.antt =====
-- `buildTriggerSpec` and `buildSwapAction` of src/lib/linked-chains.ts, and `timeElapsedToSecs` of
-- src/lib/types.ts. Text is compared as ASCII.
use sotama.Chain.Wiring.{linked_downstream, destination}
use sotama.Prelude.Text.{has_infix, codes}
use sotama.Prelude.{
  ℕ, ◌-◌, ◌*◌, String, Bool, true, false, not, ◌&&◌, ◌||◌, Option, none, some, List, [], ◌∷◌, ◌++◌,
  map, ◌==◌, ltb, leb, if◌then◌else◌,
}
use sotama.Prelude.Int.{◌+ℤ◌, ℤ, pos, ltb_ℤ}
use sotama.Prelude.Num.{Num, pow10}
use sotama.Chain.Types.{
  TokenRef, Comparator, above, below, Direction, grow, drop, TimeElapsedUnit, minutes, hours, days,
  OracleSource, pyth, jupiter, switchboard_pending, AssetRef, QuoteRef, usd, asset,
  AssetPriceTrigger, Trigger, asset_price, account_transfer, account_swap, time_elapsed,
  price_relative_to_fill, SwapAction,
}
use sotama.Chain.Solana.{Solana}
use sotama.Chain.OnChain
use sotama.Chain.OnChain.{OnChainTriggerSpec, OnChainSwap}

abbrev pub max_time_elapsed_secs : ℤ
max_time_elapsed_secs = pos (366 * 24 * 60 * 60)

abbrev pub u64_max : ℤ
u64_max = pos 18446744073709551615

-- `s.toUpperCase()`
abbrev upper : List ℕ → List ℕ
upper s = map (λ c. if leb b'a' c && leb c b'z' then c - 32 else c) s

-- `feedId.startsWith("0x") ? feedId.slice(2) : feedId`
abbrev strip_0x : List ℕ → List ℕ
strip_0x (c ∷ d ∷ s) = if c == b'0' && d == b'x' then s else c ∷ d ∷ s
strip_0x s = s

abbrev unit_secs : TimeElapsedUnit → ℕ
unit_secs minutes = 60
unit_secs hours = 3600
unit_secs days = 86400

abbrev flip_if : Bool → ℕ → ℕ
flip_if true c = if c == 0 then 1 else 0
flip_if false c = c

abbrev comparator_code : Comparator → ℕ
comparator_code below = 0
comparator_code above = 1

abbrev direction_code : Direction → ℕ
direction_code grow = 1
direction_code drop = 0

-- JavaScript's truth of an optional text
abbrev pub non_empty : Option String → Option String
non_empty none = none
non_empty (some s) = elim (codes s) [ [] ↦ none | c ∷ r ↦ some s ]

infixl 5 ◌>>=◌
abbrev ◌>>=◌ : {A B : Type 0} → Option A → (A → Option B) → Option B
none >>= f = none
some a >>= f = f a

module _ (N : Num) (S : Solana) where
  open N use {F, int, mul, div, le, round, floor}
  open S use {Key, parse, of_hex}

  -- `tryPubkey`: the empty text is refused as well
  unfoldable pub try_pubkey : String → Option Key
  try_pubkey addr = elim (codes addr) [ [] ↦ none | c ∷ s ↦ parse addr ]

  unfoldable pub feed_id_to_pubkey : String → Option Key
  feed_id_to_pubkey feed_id = of_hex (strip_0x (codes feed_id))

  unfoldable pub time_elapsed_to_secs : F → TimeElapsedUnit → ℤ
  time_elapsed_to_secs value unit = floor (mul value (int (pos (unit_secs unit))))

  -- the feed, the source and the digits below the unit that an oracle's prices have
  unfoldable pub resolve_oracle : OracleSource → Option (Key × ℕ × ℕ)
  unfolding feed_id_to_pubkey try_pubkey
  resolve_oracle (pyth feed_id symbol inverted) = do
    feed ← feed_id_to_pubkey feed_id
    some (feed, 0, 8)
  resolve_oracle (jupiter mint symbol) = do m ← try_pubkey mint; some (m, 1, 6)
  resolve_oracle (switchboard_pending symbol) = none

  abbrev inverted_of : OracleSource → Bool
  inverted_of (pyth feed_id symbol inverted) = inverted
  inverted_of _ = false

  -- The pair that a Pyth symbol names already has the quote in it.
  abbrev pair_resolved : OracleSource → AssetRef → Bool
  pair_resolved (pyth feed_id symbol inverted) q =
      let ticker = upper (codes q.display_symbol) in
      has_infix (b'/' ∷ ticker) (upper (codes symbol))
      || has_infix (ticker ++ b'/' ∷ []) (upper (codes symbol))
  pair_resolved _ q = false

  -- An empty text is no mint.
  abbrev quote_of_mint : (AssetRef → Option String) → AssetRef → Option String → Option Key
  quote_of_mint lookup_feed q mint = elim (non_empty mint) [
    | some m ↦ try_pubkey m
    | none ↦ do feed ← lookup_feed q; feed_id_to_pubkey feed
  ]

  -- The quote's mint, if one is needed, and the digits of the threshold. `lookup_feed` is the answer
  -- of `lookupFeedForAsset`, which asks the Pyth catalog over the network.
  unfoldable pub resolve_quote :
      (AssetRef → Option String) → OracleSource → ℕ → QuoteRef → Option (Option Key × ℕ)
  unfolding feed_id_to_pubkey try_pubkey
  resolve_quote lookup_feed oracle default_digits usd = some (none, default_digits)
  resolve_quote lookup_feed oracle default_digits (asset q) =
      if pair_resolved oracle q
      then some (none, default_digits)
      else do m ← quote_of_mint lookup_feed q q.mint; some (some m, 6)

  -- `new BN(x)` of a rounded number: bn.js refuses one of 2^53 or more in size and throws. Like a
  -- trigger or an action that is not encoded, that ends `sendChainCreate` before anything is sent.
  abbrev new_bn : ℤ → Option ℤ
  new_bn x =
      if ltb_ℤ x (pos 9007199254740992) && ltb_ℤ (pos 0) (x +ℤ pos 9007199254740992)
      then some x
      else none

  unfoldable pub build_asset_price :
      (AssetRef → Option String) → AssetPriceTrigger F → Option (OnChainTriggerSpec Key)
  unfolding resolve_oracle resolve_quote
  build_asset_price lookup_feed t = do
    (feed, source, default_digits) ← resolve_oracle t.oracle
    (quote_mint, digits) ← resolve_quote lookup_feed t.oracle default_digits t.quote
    let inverted = inverted_of t.oracle
    let comparator = flip_if inverted (comparator_code t.comparator)
    let target = if inverted then div (int (pos 1)) t.threshold else t.threshold
    let scaled = round (mul target (int (pow10 digits)))
    threshold ← if inverted && le t.threshold (int (pos 0)) then none else new_bn scaled
    some (OnChain.asset_price feed quote_mint comparator threshold digits source)

  abbrev mint_of : Option TokenRef → Option Key
  mint_of none = none
  mint_of (some token) = try_pubkey token.mint

  unfoldable pub build_trigger_spec :
      (AssetRef → Option String) → Trigger F Key → Option (OnChainTriggerSpec Key)
  unfolding try_pubkey build_asset_price time_elapsed_to_secs
  build_trigger_spec lookup_feed (account_transfer account token) = do
    key ← try_pubkey account
    some (OnChain.account_activity key (mint_of token) 0)
  build_trigger_spec lookup_feed (account_swap account token) = do
    key ← try_pubkey account
    some (OnChain.account_activity key (mint_of token) 1)
  build_trigger_spec lookup_feed (asset_price t) = build_asset_price lookup_feed t
  build_trigger_spec lookup_feed (time_elapsed value unit) =
      let secs = time_elapsed_to_secs value unit in
      if not (ltb_ℤ (pos 0) secs) || ltb_ℤ max_time_elapsed_secs secs
      then none
      else some (OnChain.time_elapsed secs)
  build_trigger_spec lookup_feed (price_relative_to_fill none direction pct_bps) = none
  build_trigger_spec lookup_feed (price_relative_to_fill (some upstream) direction pct_bps) =
      if ltb 0 pct_bps
      then some (OnChain.price_relative_to_fill upstream (direction_code direction) pct_bps)
      else none

  unfoldable pub build_swap_action : Key → SwapAction F → Option Key → Option (OnChainSwap Key)
  unfolding try_pubkey
  build_swap_action destination a linked_downstream = do
    input_mint ← try_pubkey a.input_token.mint
    output_mint ← try_pubkey a.output_token.mint
    amount_in ←
        if a.consume_upstream_output
        then some u64_max
        else new_bn (round (mul a.amount (int (pow10 a.input_token.decimals))))
    some (record {
      input_mint = input_mint;
      output_mint = output_mint;
      destination = destination;
      amount_in = amount_in;
      min_amount_out = pos 0;
      linked_downstream = linked_downstream;
      link_fee_deposit = pos 0;
      consume_upstream_output = a.consume_upstream_output;
    })
