-- ===== src/Chain/OnChain.antt =====
-- The instruction arguments of src/lib/program.ts that a chain is created with, and the
-- instructions themselves as data. `K` stands for `PublicKey`.
use sotama.Prelude.{ℕ, Bool, Option}
use sotama.Prelude.Int.{ℤ}
use sotama.Chain.Types.{Cadence}

-- `kind` is 0 for transfers and 1 for swaps, `comparator` 0 for below and 1 for above, `source` 0
-- for Pyth and 1 for Jupiter, `direction` 1 for growth. A price is `threshold * 10 ^ -expo_down`.
pub data OnChainTriggerSpec (K : Type 0) : Type 0 where
  account_activity : (account : K) (mint : Option K) (kind : ℕ) → OnChainTriggerSpec K
  asset_price :
      (feed : K) (quote_mint : Option K) (comparator : ℕ) (threshold : ℤ) (expo_down source : ℕ)
      → OnChainTriggerSpec K
  time_elapsed : (duration_secs : ℤ) → OnChainTriggerSpec K
  price_relative_to_fill : (upstream : K) (direction pct_bps : ℕ) → OnChainTriggerSpec K

pub record OnChainSwap (K : Type 0) : Type 0 where
  pub input_mint : K
  pub output_mint : K
  pub destination : K
  pub amount_in : ℤ
  pub min_amount_out : ℤ
  pub linked_downstream : Option K
  pub link_fee_deposit : ℤ
  pub consume_upstream_output : Bool

-- The arguments of `create_automation_swap_linked`.
pub record CreateLinked (K : Type 0) : Type 0 where
  pub automation : K
  pub trigger : OnChainTriggerSpec K
  pub swap : OnChainSwap K
  pub cadence : Cadence
  pub min_interval_secs : ℕ
  pub enable_fee_topup : Bool
  pub seed_amount : ℤ
  pub bridge_enabled : Bool
  pub owner_input_ata : K
  pub automation_input_ata : K

-- An instruction of the setup transaction. An associated token account has an owner, a mint and a
-- token program; the address is derived from them.
pub data SetupIx (K : Type 0) : Type 0 where
  create_ata_idempotent : (payer ata owner mint token_program : K) → SetupIx K
  transfer : (from to : K) (lamports : ℤ) → SetupIx K
  sync_native : (ata token_program : K) → SetupIx K
