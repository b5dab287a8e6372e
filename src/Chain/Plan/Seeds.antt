-- ===== src/Chain/Plan/Seeds.antt =====
-- What the plan of a chain deposits and wraps, and which rules it lets the bridge refill.
use sotama.Chain.OnChain.{transfer, sync_native, create_ata_idempotent, SetupIx, OnChainSwap}
use sotama.Prelude.{
  ◌∷◌, ◌==◌, refl, if◌then◌else◌, ap, [], Bool-cases, ℕ, ◌+◌, ◌<◌, true, false, none, some, List,
  ◌≡◌, ◌↔◌, arith, length, get_elem?, subst, suc, ◌≢◌, ◌⊎◌, inl, inr, ◌&&◌, ◌||◌, Bool, Option, ◌∙◌,
  sym,
}
use sotama.Prelude.Int.{ℤ, pos, ◌*ℤ◌}
use sotama.Prelude.Num.{Num}
use sotama.Chain.Types.{
  ChainNodeDraft, SwapAction, first_swap, LoopMode, ChainLinkClass, bridge_required,
}
use sotama.Chain.Classify.{classify_chain_link, bridge_iff_mints_differ}
use sotama.Chain.Solana.{Solana}
use sotama.Chain.Wiring.{
  Ctx, seed_amount, bridge_enabled, upstream_needs_bridge, is_self_link, safe_action,
  cycles_to_fund, is_bridge,
}
use sotama.Chain.Plan.{wrap_ixs, setup_ixs, is_sol, ok, NodePlan, Network, plan}
use sotama.Chain.Plan.Inversion.{NodeFacts}
use sotama.Chain.Plan.Routing.{plan-at, ahead}

self_link_iff : (i : ℕ) (next : Option ℕ) → (is_self_link i next ≡ true) ↔ (next ≡ some i)
self_link_iff i next = ground arith

or_true : (a b : Bool) → ((a || b) ≡ true) ↔ ((a ≡ true) ⊎ (b ≡ true))
or_true a b = ground arith

and_true : (a b : Bool) → ((a && b) ≡ true) ↔ ((a ≡ true) × (b ≡ true))
and_true a b = ground arith

is_bridge_iff : (c : ChainLinkClass) → (is_bridge c ≡ true) ↔ (c ≡ bridge_required)
is_bridge_iff c = ground arith

bridge_enabled_iff :
    (S : Solana) {F : Type 0} (i : ℕ) (prev node : ChainNodeDraft F (Solana.Key S))
    (b a : SwapAction F)
    → first_swap prev.result ≡ some b
    → first_swap node.result ≡ some a
    → (bridge_enabled S i (some prev) node ≡ true) ↔ (
        (b.output_token.mint ≢ a.input_token.mint)
        ⊎ ((node.next ≡ some i) × (a.output_token.mint ≢ a.input_token.mint)))
unfolding bridge_enabled
bridge_enabled_iff S i prev node b a eb ea =
    let link = bridge_iff_mints_differ prev.result node.result eb ea in
    let self = bridge_iff_mints_differ node.result node.result ea ea in
    let own = is_bridge (classify_chain_link node.result node.result) in
    let enabled =
      or_true (upstream_needs_bridge S (some prev) node) (is_self_link i node.next && own) in
    let looped = and_true (is_self_link i node.next) own in
    (
      λ h. elim (enabled.0 h) [
        | inl u ↦ inl (link.0 ((is_bridge_iff _).0 u))
        | inr l ↦
            let (s, m) = looped.0 l in
            inr ((self_link_iff i node.next).0 s, self.0 ((is_bridge_iff _).0 m))
      ],
      λ h. enabled.1 (elim h [
        | inl differ ↦ inl ((is_bridge_iff _).1 (link.1 differ))
        | inr (s, differ) ↦
            inr (looped.1 ((self_link_iff i node.next).1 s, (is_bridge_iff _).1 (self.1 differ)))
      ]),
    )

-- The lamports that the instructions move from the wallet, one entry for each transfer, and an entry
-- of no lamports for each account that is synced to its balance.
abbrev pub wraps : {K : Type 0} → List (SetupIx K) → List (Option ℤ)
wraps [] = []
wraps (create_ata_idempotent payer account owner mint program ∷ ixs) = wraps ixs
wraps (transfer from to lamports ∷ ixs) = some lamports ∷ wraps ixs
wraps (sync_native account program ∷ ixs) = none ∷ wraps ixs

module _ (N : Num) (S : Solana) (net : Network (Solana.Key S)) where
  open N use {F}
  open S use {Key}

  setup_ixs-wraps :
      (ctx : Ctx F Key) (i : ℕ) (action : OnChainSwap Key) (in_program out_program : Key) (seed : ℤ)
      → wraps (setup_ixs N S net ctx i action in_program out_program seed)
        ≡ (if i == 0 && is_sol N S net action.input_mint then some seed ∷ none ∷ [] else [])
  unfolding setup_ixs wrap_ixs
  setup_ixs-wraps ctx i action in_program out_program seed =
      elim (Bool-cases (is_sol N S net action.input_mint)) [
        | inl native ↦ elim (Bool-cases (i == 0)) [
          | inl first ↦ rw (native, first, if◌then◌else◌) refl
          | inr later ↦ rw (native, later, if◌then◌else◌) refl
        ]
        | inr token ↦ elim (Bool-cases (i == 0)) [
          | inl first ↦ rw (token, first, if◌then◌else◌) refl
          | inr later ↦ rw (token, later, if◌then◌else◌) refl
        ]
      ]

  -- Whether a setup wraps SOL, and the plan's estimate of it: a transfer of the seed amount and a
  -- sync where SOL is wrapped, neither otherwise.
  abbrev pub Wraps : Bool → NodePlan Key → Type 0
  Wraps true p =
      (wraps p.setup ≡ some p.create.seed_amount ∷ none ∷ [])
      × (p.wrap_lamports ≡ p.create.seed_amount)
  Wraps false p = (wraps p.setup ≡ []) × (p.wrap_lamports ≡ pos 0)

  facts-Wraps :
      (ctx : Ctx F Key) (i : ℕ) (before : Option (ChainNodeDraft F Key))
      (node : ChainNodeDraft F Key) (p : NodePlan Key)
      → NodeFacts N S net ctx i before node p
      → (b : Bool) → (i == 0 && is_sol N S net p.create.swap.input_mint) ≡ b
      → Wraps b p
  facts-Wraps ctx i before node p facts true e = (
    ap wraps facts.setup ∙ setup_ixs-wraps ctx i p.create.swap _ _ p.create.seed_amount ∙ rw e refl,
    facts.wrapped ∙ rw e refl,
  )
  facts-Wraps ctx i before node p facts false e = (
    ap wraps facts.setup ∙ setup_ixs-wraps ctx i p.create.swap _ _ p.create.seed_amount ∙ rw e refl,
    facts.wrapped ∙ rw e refl,
  )

  module _ (ctx : Ctx F Key) (ps : List (NodePlan Key)) (made : plan N S net ctx ≡ ok ps) where
    -- In a planned chain, a rule after the first deposits nothing, and its setup neither moves SOL nor
    -- syncs a wrapped account. The first rule's setup wraps SOL exactly if SOL is what it spends, and
    -- then just the amount that it deposits, which is also what the estimate of the cost counts. The
    -- first rule never takes an upstream rule's output, whatever its draft says; with other rules
    -- after it, it deposits the amount of its swap, and alone, with a loop mode, that amount times
    -- the loop's cycles to fund.
    pub only_head_deposits :
        (k : ℕ) (node : ChainNodeDraft F Key) (p : NodePlan Key)
        → get_elem? ctx.nodes k ≡ some node
        → get_elem? ps k ≡ some p
        → (0 < k → (p.create.seed_amount ≡ pos 0) × Wraps false p)
          × (k ≡ 0 → Wraps (is_sol N S net p.create.swap.input_mint) p)
          × (k ≡ 0 → p.create.swap.consume_upstream_output ≡ false)
          × (k ≡ 0 → 1 < length ctx.nodes → p.create.seed_amount ≡ p.create.swap.amount_in)
          × (k ≡ 0
              → length ctx.nodes ≡ 1
              → (loop : LoopMode) → ctx.loop_mode ≡ some loop
              → p.create.seed_amount ≡ p.create.swap.amount_in *ℤ pos (cycles_to_fund loop))
    unfolding seed_amount safe_action
    only_head_deposits k node p e at =
        let here = plan-at N S net ctx k ps node made e in
        let same : here.node_plan ≡ p = cc (here.at, at) in
        let facts =
          subst (λ q. NodeFacts N S net ctx (0 + k) (ahead N S net none ctx.nodes k) node q) same
            here.facts in
        let wrapping = facts-Wraps ctx (0 + k) _ node p facts in
        (
          λ later. (ground (arith, facts.seeded), wrapping false (ground arith)),
          λ first. wrapping _ (ground arith),
          λ first. ground (arith, facts.consumed),
          λ first many. ground (arith, facts.seeded),
          λ first single loop looped. ground (arith, facts.seeded),
        )

    -- In a planned chain, a rule after the first, where its action and that of the rule before it
    -- are swaps, is left to the bridge exactly when the rule before it pays out another mint than
    -- it spends, or it links to itself and pays out another mint than it spends.
    pub bridged_iff :
        (k : ℕ) (prev node : ChainNodeDraft F Key) (p : NodePlan Key) (b a : SwapAction F)
        → get_elem? ctx.nodes k ≡ some prev
        → get_elem? ctx.nodes (suc k) ≡ some node
        → get_elem? ps (suc k) ≡ some p
        → first_swap prev.result ≡ some b
        → first_swap node.result ≡ some a
        → (p.create.bridge_enabled ≡ true) ↔ (
            (b.output_token.mint ≢ a.input_token.mint)
            ⊎ ((node.next ≡ some (suc k)) × (a.output_token.mint ≢ a.input_token.mint)))
    bridged_iff k prev node p b a ek e at eb ea =
        let here = plan-at N S net ctx (suc k) ps node made e in
        let same : here.node_plan ≡ p = cc (here.at, at) in
        let index : 0 + suc k ≡ suc k = omega arith in
        let bridged : p.create.bridge_enabled ≡ bridge_enabled S (suc k) (some prev) node =
          cc (here.facts.bridged, same, index, ek) in
        let decided = bridge_enabled_iff S (suc k) prev node b a eb ea in
        (λ h. decided.0 (sym bridged ∙ h), λ h. bridged ∙ decided.1 h)
