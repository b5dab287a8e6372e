-- ===== src/Chain/Types.antt =====
-- src/lib/types.ts: the part of the rule builder's data model that a linked chain is made of, and
-- the draft of a chain in src/lib/linked-chains.ts. `F` stands for `number`, `K` for `PublicKey`.
use sotama.Prelude.{ℕ, String, Bool, Option, none, some, List, [], ◌∷◌}

pub record TokenRef : Type 0 where
  pub mint : String
  pub symbol : String
  pub decimals : ℕ
  -- absent until the token has been resolved
  pub token_program : Option String

pub data Comparator : Type 0 where
  above below : Comparator

pub data Direction : Type 0 where
  grow drop : Direction

pub data TimeElapsedUnit : Type 0 where
  minutes hours days : TimeElapsedUnit

pub data OracleSource : Type 0 where
  pyth : (feed_id : String) (symbol : String) (inverted : Bool) → OracleSource
  jupiter : (mint : String) (symbol : String) → OracleSource
  switchboard_pending : (symbol : String) → OracleSource

-- An asset as the price triggers name it; not every asset has an SPL mint.
pub record AssetRef : Type 0 where
  pub display_symbol : String
  pub mint : Option String

pub data QuoteRef : Type 0 where
  usd : QuoteRef
  asset : AssetRef → QuoteRef

pub record AssetPriceTrigger (F : Type 0) : Type 0 where
  pub quote : QuoteRef
  pub comparator : Comparator
  pub threshold : F
  pub oracle : OracleSource

-- The `token` of an account trigger: `none` is the mode "any", or "specific" with no token chosen.
pub data Trigger (F K : Type 0) : Type 0 where
  asset_price : AssetPriceTrigger F → Trigger F K
  account_transfer : (account : String) (token : Option TokenRef) → Trigger F K
  account_swap : (account : String) (token : Option TokenRef) → Trigger F K
  time_elapsed : F → TimeElapsedUnit → Trigger F K
  price_relative_to_fill : (upstream : Option K) → Direction → (pct_bps : ℕ) → Trigger F K

-- `consumeUpstreamOutput` is optional in the source and tested by `=== true`.
pub record SwapAction (F : Type 0) : Type 0 where
  pub input_token : TokenRef
  pub output_token : TokenRef
  pub amount : F
  pub consume_upstream_output : Bool

pub data Action (F : Type 0) : Type 0 where
  transfer : TokenRef → F → (destination : String) → Action F
  swap : SwapAction F → Action F

pub data Cadence : Type 0 where
  once : Cadence
  repeat : (total : ℕ) → Cadence
  until : (unix_deadline : ℕ) → Cadence

pub data LoopMode : Type 0 where
  frequency : (cycles : ℕ) → LoopMode
  infinite : LoopMode

pub data ChainLinkClass : Type 0 where
  matched_mints inverted_pair bridge_required : ChainLinkClass

-- The operators between triggers and between actions have no part in a chain.
pub record BuilderResult (F K : Type 0) : Type 0 where
  pub triggers : List (Trigger F K)
  pub actions : List (Action F)
  pub cadence : Cadence
  pub min_interval_secs : ℕ

-- `next` is the index of the rule that the swap output is routed to; `none` ends the chain.
pub record ChainNodeDraft (F K : Type 0) : Type 0 where
  pub result : BuilderResult F K
  pub next : Option ℕ

-- `xs[0]`
abbrev pub head? {ℓ} : {A : Type ℓ} → List A → Option A
head? [] = none
head? (x ∷ xs) = some x

-- `actions[0]`, if it is there and is a swap
abbrev pub as_swap : {F : Type 0} → Option (Action F) → Option (SwapAction F)
as_swap none = none
as_swap (some (transfer t a d)) = none
as_swap (some (swap s)) = some s

abbrev pub first_swap : {F K : Type 0} → BuilderResult F K → Option (SwapAction F)
first_swap r = as_swap (head? r.actions)
