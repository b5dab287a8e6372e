-- ===== src/Chain/Plan.antt =====
-- The construction half of `sendChainCreate` in src/lib/linked-chains.ts: what each node of the
-- draft contributes to the setup transaction, to the create transactions and to the estimate of
-- their cost. The sending half is in `Chain/Send`.
pub mod Inversion
pub mod Routing
pub mod Seeds
use sotama.Prelude.{
  ℕ, zero, suc, ◌+◌, ◌-◌, String, Bool, true, false, not, ◌&&◌, ◌||◌, Option, none, some, List, [],
  ◌∷◌, ◌++◌, ◌==◌, ltb, if◌then◌else◌, str_eq, or_default, ◌≡◌, refl,
}
use sotama.Prelude.Int.{ℤ, pos}
use sotama.Prelude.Num.{Num}
use sotama.Chain.Types.{
  Trigger, price_relative_to_fill, ChainNodeDraft, AssetRef, SwapAction, head?, first_swap,
}
use sotama.Chain.Wiring.{
  Ctx, pda_at, destination, linked_downstream, effective_cadence, bridge_enabled, seed_amount,
  safe_action,
}
use sotama.Chain.Solana.{Solana, associated_token_address_for_program}
use sotama.Chain.Fees.{estimate_time_fee}
use sotama.Chain.OnChain.{
  OnChainTriggerSpec, OnChainSwap, CreateLinked, SetupIx, create_ata_idempotent, transfer,
  sync_native,
}
use sotama.Chain.Encode.{build_trigger_spec, build_swap_action, non_empty}

-- The errors thrown while the instructions are built; the numbers are node indices.
-- `link_out_of_range` is the TypeError of deriving an address from `nodePdas[n]` with no such node,
-- `bad_token_program` that of `new PublicKey` on a token program that is no key.
pub data BuildError : Type 0 where
  not_a_swap trigger_not_encoded action_not_encoded link_out_of_range bad_token_program :
      ℕ → BuildError

pub data Built (A : Type 0) : Type 0 where
  ok : A → Built A
  err : BuildError → Built A

infixl 5 ◌>>=◌
unfoldable pub ◌>>=◌ : {A B : Type 0} → Built A → (A → Built B) → Built B
ok a >>= f = f a
err e >>= f = err e

unfoldable pub require : {A : Type 0} → Option A → BuildError → Built A
require none e = err e
require (some a) e = ok a

-- A chain that succeeds: its first step did, and the rest on its result.
pub >>=-eq-ok :
    {A B : Type 0} (m : Built A) (f : A → Built B) {b : B}
    → (m >>= f) ≡ ok b
    → (a : A) × (m ≡ ok a) × (f a ≡ ok b)
unfolding ◌>>=◌
>>=-eq-ok (ok a) f h = (a, refl, h)
>>=-eq-ok (err e) f h = cc

pub require-eq-ok :
    {A : Type 0} (o : Option A) (e : BuildError) {a : A} → require o e ≡ ok a → o ≡ some a
unfolding require
require-eq-ok none e h = cc
require-eq-ok (some a) e h = cc

pub ok-injective : {A : Type 0} {a b : A} → ok a ≡ ok b → a ≡ b
ok-injective h = cc

-- What one node adds to the plan.
pub record NodePlan (K : Type 0) : Type 0 where
  pub setup : List (SetupIx K)
  pub create : CreateLinked K
  pub time_fee : ℕ
  pub wrap_lamports : ℤ

-- The answers of the network while the plan is made: `lookupFeedForAsset`, and
-- `resolveMintTokenProgram` for a mint whose token carries no token program.
pub record Network (K : Type 0) : Type 0 where
  pub lookup_feed : AssetRef → Option String
  pub resolve_mint_token_program : K → K

module _ (N : Num) (S : Solana) (net : Network (Solana.Key S)) where
  open N use {F}
  open S use {Key, parse, to_base58, spl_token_program_id, native_mint}
  open net use {lookup_feed, resolve_mint_token_program}

  abbrev pub ata : Key → Key → Key → Key
  ata = associated_token_address_for_program S

  -- the upstream of a fill trigger is the node before it
  unfoldable pub resolve_trigger : Ctx F Key → ℕ → Trigger F Key → Trigger F Key
  resolve_trigger ctx i (price_relative_to_fill upstream direction pct_bps) =
      if ltb 0 i
      then price_relative_to_fill (some (pda_at S ctx (i - 1))) direction pct_bps
      else price_relative_to_fill upstream direction pct_bps
  resolve_trigger ctx i t = t

  unfoldable pub token_program : ℕ → Option String → Key → Built Key
  token_program i carried mint = elim (non_empty carried) [
    | none ↦ ok (resolve_mint_token_program mint)
    | some address ↦ require (parse address) (bad_token_program i)
  ]

  abbrev pub is_sol : Key → Bool
  is_sol mint = str_eq (to_base58 mint) "So11111111111111111111111111111111111111112"

  -- an account of `mint` that `holder` owns, paid for by the wallet
  abbrev pub create_ata : Ctx F Key → Key → Key → Key → SetupIx Key
  create_ata ctx holder mint program =
      create_ata_idempotent ctx.owner (ata holder mint program) holder mint program

  unfoldable pub wrap_ixs : Ctx F Key → ℤ → List (SetupIx Key)
  wrap_ixs ctx lamports =
      let wsol = ata ctx.owner native_mint spl_token_program_id in
      create_ata ctx ctx.owner native_mint spl_token_program_id
      ∷ transfer ctx.owner wsol lamports
      ∷ sync_native wsol spl_token_program_id
      ∷ []

  unfoldable pub setup_ixs : Ctx F Key → ℕ → OnChainSwap Key → Key → Key → ℤ → List (SetupIx Key)
  unfolding wrap_ixs
  setup_ixs ctx i swap in_program out_program seed =
      (if is_sol swap.input_mint
        then []
        else create_ata ctx ctx.owner swap.input_mint in_program ∷ [])
      ++ ((if i == 0 && is_sol swap.input_mint then wrap_ixs ctx seed else [])
          ++ create_ata ctx (pda_at S ctx i) swap.input_mint in_program
            ∷ create_ata ctx swap.destination swap.output_mint out_program
            ∷ create_ata ctx ctx.treasury swap.output_mint out_program
            ∷ [])

  unfoldable pub assemble :
      Ctx F Key
      → ℕ
      → Option (ChainNodeDraft F Key)
      → ChainNodeDraft F Key
      → OnChainTriggerSpec Key
      → OnChainSwap Key
      → Key
      → Key
      → NodePlan Key
  assemble ctx i before node spec swap in_program out_program =
      let seed = seed_amount S ctx i swap.amount_in in
      let cadence = effective_cadence S ctx i node.result.cadence in
      record {
        setup = setup_ixs ctx i swap in_program out_program seed;
        create = record {
          automation = pda_at S ctx i;
          trigger = spec;
          swap = swap;
          cadence = cadence;
          min_interval_secs = node.result.min_interval_secs;
          enable_fee_topup = true;
          seed_amount = seed;
          bridge_enabled = bridge_enabled S i before node;
          owner_input_ata = ata ctx.owner swap.input_mint in_program;
          automation_input_ata = ata (pda_at S ctx i) swap.input_mint in_program;
        };
        time_fee = estimate_time_fee ctx.now_sec cadence ctx.fee_per_day;
        wrap_lamports = if i == 0 && is_sol swap.input_mint then seed else pos 0;
      }

  unfoldable pub plan_node :
      Ctx F Key → ℕ → Option (ChainNodeDraft F Key) → ChainNodeDraft F Key → Built (NodePlan Key)
  plan_node ctx i before node = do
    trigger ← require (head? node.result.triggers) (not_a_swap i)
    action ← require (first_swap node.result) (not_a_swap i)
    spec ←
        require (build_trigger_spec N S lookup_feed (resolve_trigger ctx i trigger))
          (trigger_not_encoded i)
    swap ←
        require
          (build_swap_action N S (or_default (destination S ctx node) ctx.owner)
            (safe_action i action) (linked_downstream S ctx node))
          (action_not_encoded i)
    in_program ← token_program i action.input_token.token_program swap.input_mint
    out_program ← token_program i action.output_token.token_program swap.output_mint
    reached ← require (destination S ctx node) (link_out_of_range i)
    ok (assemble ctx i before node spec swap in_program out_program)

  -- the `for` over the nodes, from the node at index `i` on; `before` is the node ahead of it
  unfoldable pub plan_from :
      Ctx F Key
      → ℕ
      → Option (ChainNodeDraft F Key)
      → List (ChainNodeDraft F Key)
      → Built (List (NodePlan Key))
  plan_from ctx i before [] = ok []
  plan_from ctx i before (node ∷ nodes) =
      let rest = plan_from ctx (suc i) (some node) nodes in
      (plan_node ctx i before node >>= λ first. rest >>= λ more. ok (first ∷ more))

  unfoldable pub plan : Ctx F Key → Built (List (NodePlan Key))
  unfolding plan_from
  plan ctx = plan_from ctx 0 none ctx.nodes
