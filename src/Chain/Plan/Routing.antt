-- ===== src/Chain/Plan/Routing.antt =====
-- Where the plan of a chain sends its funds: each linked swap pays into the input account of the
-- rule that it is linked to, and each rule has the address that the program will derive.
use sotama.Prelude.{
  ℕ, zero, suc, ◌+◌, ◌<◌, Option, none, some, List, [], ◌∷◌, ◌≡◌, refl, arith, length, get_elem?,
  In, In-append_right, inl, inr, subst, get_elem?-lt, ◌&&◌, if◌then◌else◌, ◌==◌, String,
}
use mathlib.Core.Option.{some-injective}
use sotama.Prelude.Num.{Num}
use sotama.Chain.Types.{ChainNodeDraft, SwapAction, first_swap}
use sotama.Chain.Solana.{Solana}
use sotama.Chain.Wiring.{Ctx, pda_at, destination, linked_downstream}
use sotama.Prelude.Int.{ℤ}
use sotama.Chain.OnChain.{OnChainSwap, create_ata_idempotent}
use sotama.Chain.Plan.{
  ok, require, NodePlan, Network, token_program, setup_ixs, is_sol, wrap_ixs, plan_from, plan,
  >>=-eq-ok, ok-injective, create_ata,
}
use sotama.Chain.Plan.Inversion.{NodeFacts, plan_node-facts}

module _ (N : Num) (S : Solana) (net : Network (Solana.Key S)) where
  open N use {F}
  open S use {Key}

  -- the node ahead of index `k`, when `before` is ahead of the first
  abbrev pub ahead :
      Option (ChainNodeDraft F Key)
      → List (ChainNodeDraft F Key)
      → ℕ
      → Option (ChainNodeDraft F Key)
  ahead before nodes zero = before
  ahead before nodes (suc k) = get_elem? nodes k

  -- The plan of the node at `k`.
  pub record PlannedAt (ctx : Ctx F Key) (i k : ℕ) (before : Option (ChainNodeDraft F Key))
      (nodes : List (ChainNodeDraft F Key)) (ps : List (NodePlan Key)) (node : ChainNodeDraft F Key)
      : Type 0 where
    pub node_plan : NodePlan Key
    pub at : get_elem? ps k ≡ some node_plan
    pub facts : NodeFacts N S net ctx (i + k) (ahead before nodes k) node node_plan

  ahead-cons :
      (before : Option (ChainNodeDraft F Key)) (first : ChainNodeDraft F Key)
      (nodes : List (ChainNodeDraft F Key)) (k : ℕ)
      → ahead (some first) nodes k ≡ ahead before (first ∷ nodes) (suc k)
  ahead-cons before first nodes zero = refl
  ahead-cons before first nodes (suc k) = refl

  plan_from-at :
      (ctx : Ctx F Key) (i k : ℕ) (before : Option (ChainNodeDraft F Key))
      (nodes : List (ChainNodeDraft F Key)) (ps : List (NodePlan Key)) (node : ChainNodeDraft F Key)
      → plan_from N S net ctx i before nodes ≡ ok ps
      → get_elem? nodes k ≡ some node
      → PlannedAt ctx i k before nodes ps node
  unfolding plan_from
  plan_from-at ctx i k before [] ps node h e = cc
  plan_from-at ctx i zero before (first ∷ nodes) ps node h e =
      let (p, e1, h1) = >>=-eq-ok _ _ h in
      let (more, e2, h2) = >>=-eq-ok _ _ h1 in
      let same : i ≡ i + 0 = omega arith in
      subst (λ qs. PlannedAt ctx i 0 before (first ∷ nodes) qs node) (ok-injective h2)
        (record {
          node_plan = p;
          at = refl;
          facts =
              subst (λ n. NodeFacts N S net ctx (i + 0) before n p) (some-injective first node e)
                (subst (λ j. NodeFacts N S net ctx j before first p) same
                  (plan_node-facts N S net ctx i before first p e1));
        })
  plan_from-at ctx i (suc k) before (first ∷ nodes) ps node h e =
      let (p, e1, h1) = >>=-eq-ok _ _ h in
      let (more, e2, h2) = >>=-eq-ok _ _ h1 in
      let there = plan_from-at ctx (suc i) k (some first) nodes more node e2 e in
      let same : suc i + k ≡ i + suc k = omega arith in
      subst (λ qs. PlannedAt ctx i (suc k) before (first ∷ nodes) qs node) (ok-injective h2)
        (record {
          node_plan = there.node_plan;
          at = there.at;
          facts =
              subst
                (λ j. NodeFacts N S net ctx j (get_elem? (first ∷ nodes) k) node there.node_plan)
                same
                (subst (λ b. NodeFacts N S net ctx (suc i + k) b node there.node_plan)
                  (ahead-cons before first nodes k) there.facts);
        })

  -- Every node of a plan, by its index in the draft.
  pub plan-at :
      (ctx : Ctx F Key) (k : ℕ) (ps : List (NodePlan Key)) (node : ChainNodeDraft F Key)
      → plan N S net ctx ≡ ok ps
      → get_elem? ctx.nodes k ≡ some node
      → PlannedAt ctx 0 k none ctx.nodes ps node
  unfolding plan
  plan-at ctx k ps node h e = plan_from-at ctx 0 k none ctx.nodes ps node h e

  -- The two answers for one token agree, whichever node asks.
  token_program_unique :
      (i j : ℕ) (carried : Option String) (mint x y : Key)
      → token_program N S net i carried mint ≡ ok x
      → token_program N S net j carried mint ≡ ok y
      → x ≡ y
  unfolding token_program require
  token_program_unique i j carried mint x y hx hy = ground arith

  -- `p` pays into the input account of `q`: its swap's destination is the rule `q`, in the mint that
  -- `q` spends, and its setup creates exactly the account that `q` takes its input from.
  pub record PaysInto (ctx : Ctx F Key) (p q : NodePlan Key) : Type 0 where
    pub destination : p.create.swap.destination ≡ q.create.automation
    pub downstream : p.create.swap.linked_downstream ≡ some q.create.automation
    pub mint : p.create.swap.output_mint ≡ q.create.swap.input_mint
    pub program : Key
    pub account :
        In
          (create_ata_idempotent ctx.owner q.create.automation_input_ata q.create.automation
            q.create.swap.input_mint program)
          p.setup

  destination_of_link :
      (ctx : Ctx F Key) (node : ChainNodeDraft F Key) (j : ℕ)
      → 1 < length ctx.nodes
      → j < length ctx.nodes
      → node.next ≡ some j
      → (destination S ctx node ≡ some (pda_at S ctx j))
        × (linked_downstream S ctx node ≡ some (pda_at S ctx j))
  unfolding destination linked_downstream
  destination_of_link ctx node j many inside link = (ground arith, ground arith)

  setup_pays :
      (ctx : Ctx F Key) (i : ℕ) (swap : OnChainSwap Key) (in_program out_program : Key) (seed : ℤ)
      → In
          (create_ata N S net ctx swap.destination swap.output_mint out_program)
          (setup_ixs N S net ctx i swap in_program out_program seed)
  unfolding setup_ixs
  setup_pays ctx i swap in_program out_program seed =
      In-append_right _ (if is_sol N S net swap.input_mint then [] else _) _ (
        In-append_right _
          (if i == 0 && is_sol N S net swap.input_mint then wrap_ixs N S net ctx seed else []) _
          (inr (inl refl)))

  module _ (ctx : Ctx F Key) {i j : ℕ} {bi bj : Option (ChainNodeDraft F Key)}
      {up down : ChainNodeDraft F Key} {p q : NodePlan Key} (a b : SwapAction F)
      (from : NodeFacts N S net ctx i bi up p) (to : NodeFacts N S net ctx j bj down q)
      (many : 1 < length ctx.nodes) (inside : j < length ctx.nodes) (link : up.next ≡ some j)
      (ea : first_swap up.result ≡ some a) (eb : first_swap down.result ≡ some b)
      (same : a.output_token ≡ b.input_token) where
    PaysInto-of_facts : PaysInto ctx p q
    PaysInto-of_facts =
        let (reach, down_link) = destination_of_link ctx up j many inside link in
        let to_q : p.create.swap.destination ≡ q.create.automation =
          cc (reach, from.reached, to.automation) in
        let same_a : from.action ≡ a = cc (ea, from.is_action) in
        let same_b : to.action ≡ b = cc (eb, to.is_action) in
        let same_mint : p.create.swap.output_mint ≡ q.create.swap.input_mint =
          cc (same, same_a, same_b, from.output_mint, to.input_mint) in
        let same_program : from.out_program ≡ to.in_program =
          token_program_unique i j a.output_token.token_program p.create.swap.output_mint
            from.out_program to.in_program (cc (from.out_resolved, same_a))
            (cc (to.in_resolved, same, same_b, same_mint)) in
        let account_of_q : create_ata N S net ctx p.create.swap.destination
              p.create.swap.output_mint from.out_program
            ≡ create_ata_idempotent ctx.owner q.create.automation_input_ata q.create.automation
                q.create.swap.input_mint from.out_program =
          cc (to_q, same_mint, same_program, to.input_ata) in
        record {
          destination = to_q;
          downstream = cc (down_link, from.linked, to.automation);
          mint = same_mint;
          program = from.out_program;
          account =
              subst (λ x. In x p.setup) account_of_q
                (rw from.setup (
                  setup_pays ctx i p.create.swap from.in_program from.out_program
                    p.create.seed_amount));
        }

  module _ (ctx : Ctx F Key) (ps : List (NodePlan Key)) (made : plan N S net ctx ≡ ok ps)
      (many : 1 < length ctx.nodes) where
    -- In a planned chain of two or more rules, where rule `i` links to rule `j`, their actions are
    -- swaps and `i` pays out the token that `j` spends, the swap of `i` pays into the input
    -- account of `j`, and the setup of `i` creates that account.
    pub link-PaysInto :
        (i j : ℕ) (up down : ChainNodeDraft F Key) (a b : SwapAction F)
        → get_elem? ctx.nodes i ≡ some up
        → get_elem? ctx.nodes j ≡ some down
        → up.next ≡ some j
        → first_swap up.result ≡ some a
        → first_swap down.result ≡ some b
        → a.output_token ≡ b.input_token
        → (p : NodePlan Key) × (q : NodePlan Key) × (get_elem? ps i ≡ some p)
          × (get_elem? ps j ≡ some q)
          × PaysInto ctx p q
    link-PaysInto i j up down a b ei ej link ea eb same =
        let from = plan-at ctx i ps up made ei in
        let to = plan-at ctx j ps down made ej in
        (
          from.node_plan,
          to.node_plan,
          from.at,
          to.at,
          PaysInto-of_facts ctx a b from.facts to.facts many
              (omega (arith, get_elem?-lt ctx.nodes j down ej)) (ground arith) ea eb same,
        )

  -- Rule `k` of a plan has the address derived from the `k`-th nonce after the current one.
  pub automation_at :
      (ctx : Ctx F Key) (ps : List (NodePlan Key)) (k : ℕ) (node : ChainNodeDraft F Key)
      → plan N S net ctx ≡ ok ps
      → get_elem? ctx.nodes k ≡ some node
      → (p : NodePlan Key) × (get_elem? ps k ≡ some p) × (p.create.automation ≡ pda_at S ctx k)
  automation_at ctx ps k node made e =
      let here = plan-at ctx k ps node made e in
      let same : 0 + k ≡ k = omega arith in
      (
        here.node_plan,
        here.at,
        subst (λ j. here.node_plan.create.automation ≡ pda_at S ctx j) same here.facts.automation,
      )
