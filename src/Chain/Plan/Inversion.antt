-- ===== src/Chain/Plan/Inversion.antt =====
-- What is known of a node that was planned: every step of `plan_node` succeeded, and the plan holds
-- their results.
use sotama.Prelude.{if◌then◌else◌, ◌&&◌, ◌==◌, ℕ, Option, some, or_default, ◌≡◌, refl, arith, subst}
use sotama.Prelude.Int.{pos}
use sotama.Prelude.Num.{Num}
use sotama.Chain.Types.{ChainNodeDraft, SwapAction, first_swap}
use sotama.Chain.Wiring.{
  Ctx, pda_at, destination, linked_downstream, effective_cadence, bridge_enabled, seed_amount,
  safe_action,
}
use sotama.Chain.Solana.{Solana}
use sotama.Chain.Encode.{build_swap_action, try_pubkey}
use sotama.Chain.Plan.{
  is_sol, ok, NodePlan, Network, ata, token_program, setup_ixs, assemble, plan_node, >>=-eq-ok,
  require-eq-ok, ok-injective,
}
use sotama.Chain.OnChain.{OnChainSwap, OnChainTriggerSpec}

module _ (N : Num) (S : Solana) (net : Network (Solana.Key S)) where
  open N use {F}
  open S use {Key}

  pub record NodeFacts (ctx : Ctx F Key) (i : ℕ) (before : Option (ChainNodeDraft F Key))
      (node : ChainNodeDraft F Key) (p : NodePlan Key) : Type 0 where
    pub action : SwapAction F
    pub is_action : first_swap node.result ≡ some action
    pub in_program : Key
    pub out_program : Key
    pub input_mint : try_pubkey N S action.input_token.mint ≡ some p.create.swap.input_mint
    pub output_mint : try_pubkey N S action.output_token.mint ≡ some p.create.swap.output_mint
    pub in_resolved :
        token_program N S net i action.input_token.token_program p.create.swap.input_mint
        ≡ ok in_program
    pub out_resolved :
        token_program N S net i action.output_token.token_program p.create.swap.output_mint
        ≡ ok out_program
    pub reached : destination S ctx node ≡ some p.create.swap.destination
    pub consumed :
        p.create.swap.consume_upstream_output ≡ (safe_action i action).consume_upstream_output
    pub wrapped : p.wrap_lamports ≡ (
        if i == 0 && is_sol N S net p.create.swap.input_mint then p.create.seed_amount else pos 0)
    pub linked : p.create.swap.linked_downstream ≡ linked_downstream S ctx node
    pub automation : p.create.automation ≡ pda_at S ctx i
    pub seeded : p.create.seed_amount ≡ seed_amount S ctx i p.create.swap.amount_in
    pub bridged : p.create.bridge_enabled ≡ bridge_enabled S i before node
    pub paced : p.create.cadence ≡ effective_cadence S ctx i node.result.cadence
    pub input_ata :
        p.create.automation_input_ata
        ≡ ata N S net p.create.automation p.create.swap.input_mint in_program
    pub setup :
        p.setup ≡ setup_ixs N S net ctx i p.create.swap in_program out_program p.create.seed_amount

  -- What the encoded swap has from the action and from the wiring.
  record SwapFacts (to : Key) (a : SwapAction F) (next : Option Key) (swap : OnChainSwap Key)
      : Type 0 where
    input_mint : try_pubkey N S a.input_token.mint ≡ some swap.input_mint
    output_mint : try_pubkey N S a.output_token.mint ≡ some swap.output_mint
    destination : swap.destination ≡ to
    linked : swap.linked_downstream ≡ next
    consumed : swap.consume_upstream_output ≡ a.consume_upstream_output

  build_swap_action-facts :
      (to : Key) (a : SwapAction F) (next : Option Key) (swap : OnChainSwap Key)
      → build_swap_action N S to a next ≡ some swap
      → SwapFacts to a next swap
  unfolding build_swap_action
  build_swap_action-facts to a next swap h = record {
    input_mint = ground arith;
    output_mint = ground arith;
    destination = ground arith;
    linked = ground arith;
    consumed = ground arith;
  }

  safe_action-tokens :
      (i : ℕ) (a : SwapAction F)
      → ((safe_action i a).input_token ≡ a.input_token)
        × ((safe_action i a).output_token ≡ a.output_token)
  unfolding safe_action
  safe_action-tokens i a = (ground arith, ground arith)

  module _ (ctx : Ctx F Key) (i : ℕ) (before : Option (ChainNodeDraft F Key))
      (node : ChainNodeDraft F Key) where
    facts_of_steps :
        (action : SwapAction F) (spec : OnChainTriggerSpec Key) (swap : OnChainSwap Key)
        (in_program out_program reached : Key)
        → first_swap node.result ≡ some action
        → build_swap_action N S
            (or_default (destination S ctx node) ctx.owner)
            (safe_action i action)
            (linked_downstream S ctx node)
          ≡ some swap
        → token_program N S net i action.input_token.token_program swap.input_mint ≡ ok in_program
        → token_program N S net i action.output_token.token_program swap.output_mint
          ≡ ok out_program
        → destination S ctx node ≡ some reached
        → NodeFacts ctx i before node
            (assemble N S net ctx i before node spec swap in_program out_program)
    unfolding assemble
    facts_of_steps action spec swap in_program out_program reached e2 e4 e5 e6 e7 =
        let facts = build_swap_action-facts _ _ _ swap e4 in
        let (same_in, same_out) = safe_action-tokens i action in
        record {
          action = action;
          is_action = e2;
          in_program = in_program;
          out_program = out_program;
          input_mint = rw same_in at facts.input_mint;
          output_mint = rw same_out at facts.output_mint;
          in_resolved = e5;
          out_resolved = e6;
          reached = ground (arith, e7, facts.destination);
          linked = facts.linked;
          consumed = facts.consumed;
          wrapped = refl;
          automation = refl;
          seeded = refl;
          bridged = refl;
          paced = refl;
          input_ata = refl;
          setup = refl;
        }

    pub plan_node-facts :
        (p : NodePlan Key)
        → plan_node N S net ctx i before node ≡ ok p
        → NodeFacts ctx i before node p
    unfolding plan_node
    plan_node-facts p h =
        let (trigger, e1, h1) = >>=-eq-ok _ _ h in
        let (action, e2, h2) = >>=-eq-ok _ _ h1 in
        let (spec, e3, h3) = >>=-eq-ok _ _ h2 in
        let (swap, e4, h4) = >>=-eq-ok _ _ h3 in
        let (in_program, e5, h5) = >>=-eq-ok _ _ h4 in
        let (out_program, e6, h6) = >>=-eq-ok _ _ h5 in
        let (reached, e7, h7) = >>=-eq-ok _ _ h6 in
        subst (NodeFacts ctx i before node) (ok-injective h7) (
          facts_of_steps action spec swap in_program out_program reached (require-eq-ok _ _ e2)
            (require-eq-ok _ _ e4) e5 e6 (require-eq-ok _ _ e7))
