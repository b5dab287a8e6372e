-- ===== src/Chain/Tests/Plans.antt =====
-- The theorems on plans, sending and the summary, each applied to a concrete chain.
use sotama.Prelude.Int.{◌*ℤ◌, ℤ, pos}
use sotama.Chain.Tests.{
  made, usdc, up, swap_of, solana, sol, second_throws, runs, round_trip, plans, network, looped,
  everything_lands, enough, down,
}
use sotama.Chain.Send.Created.{created_nodes-seeds}
use sotama.Chain.Plan.Seeds.{Wraps, only_head_deposits, bridged_iff}
use sotama.Chain.Summary.{link_summary, back_to_rule}
use sotama.Chain.Send.Trace.{
  was_created, transactions, submits_in_order, stops_at_first_throw, all_landed, RunsThrough,
}
use sotama.Chain.Plan.Routing.{plan-at, link-PaysInto, PlannedAt, PaysInto}
use sotama.Chain.Plan.{NodePlan, is_sol}
use sotama.Prelude.Num.{Int_num}
use sotama.Chain.Wiring.{cycles_to_fund}
use sotama.Chain.Send.{send_chain_create, created_nodes, Cluster, parsed}
use sotama.Chain.Types.{infinite, frequency, LoopMode, ChainNodeDraft}
use sotama.Prelude.{
  ◌⊎◌, ◌≢◌, ◌≡◌, ◌∷◌, ◌↔◌, ◌<◌, ℕ, true, take, some, refl, none, map, length, get_elem?, false,
  arith, [], List,
}

abbrev draft0 : ChainNodeDraft ℤ (List (List ℕ))
draft0 = record { result = up; next = some 1 }

abbrev draft1 : ChainNodeDraft ℤ (List (List ℕ))
draft1 = record { result = down; next = some 0 }

abbrev at0 : PlannedAt Int_num solana network looped 0 0 none round_trip plans draft0
at0 = plan-at Int_num solana network looped 0 plans draft0 made refl

abbrev at1 : PlannedAt Int_num solana network looped 0 1 none round_trip plans draft1
at1 = plan-at Int_num solana network looped 1 plans draft1 made refl

link-PaysInto_example :
    (p : NodePlan (List (List ℕ))) × (q : NodePlan (List (List ℕ))) × (get_elem? plans 0 ≡ some p)
    × (get_elem? plans 1 ≡ some q)
    × PaysInto Int_num solana network looped p q
link-PaysInto_example =
    link-PaysInto Int_num solana network looped plans made (omega arith) 0 1 draft0 draft1
      (swap_of sol usdc false) (swap_of usdc sol true) refl refl refl refl refl refl

abbrev one : ℕ
one = 1

only_head_deposits_example :
    (0 < 1
      → (at1.node_plan.create.seed_amount ≡ pos 0)
        × Wraps Int_num solana network false at1.node_plan)
    × (one ≡ 0
        → Wraps Int_num solana network
            (is_sol Int_num solana network at1.node_plan.create.swap.input_mint)
            at1.node_plan)
    × (one ≡ 0 → at1.node_plan.create.swap.consume_upstream_output ≡ false)
    × (one ≡ 0 → 1 < 2 → at1.node_plan.create.seed_amount ≡ at1.node_plan.create.swap.amount_in)
    × (one ≡ 0
        → length round_trip ≡ 1
        → (loop : LoopMode) → some (frequency 4) ≡ some loop
        → at1.node_plan.create.seed_amount
          ≡ at1.node_plan.create.swap.amount_in *ℤ pos (cycles_to_fund loop))
only_head_deposits_example =
    only_head_deposits Int_num solana network looped plans made 1 draft1 at1.node_plan refl at1.at

bridged_iff_example :
    (at1.node_plan.create.bridge_enabled ≡ true)
    ↔ ((usdc.mint ≢ usdc.mint) ⊎ ((draft1.next ≡ some 1) × (sol.mint ≢ usdc.mint)))
bridged_iff_example =
    bridged_iff Int_num solana network looped plans made 0 draft0 draft1 at1.node_plan
      (swap_of sol usdc false) (swap_of usdc sol true) refl refl at1.at refl refl

abbrev three : List ℕ
three = 1 ∷ 2 ∷ 3 ∷ []

submits_in_order_example :
    RunsThrough Int_num solana network everything_lands looped plans
      (send_chain_create Int_num solana network everything_lands looped)
submits_in_order_example =
    submits_in_order Int_num solana network everything_lands looped plans made enough

abbrev flaky : Cluster (List (List ℕ))
flaky = record { balance = 10000000000; answer = second_throws; events = λ sig. parsed [] }

first_lands : all_landed second_throws 0 1 ≡ true
unfolding all_landed
first_lands = refl

stops_at_first_throw_example :
    ((send_chain_create Int_num solana network flaky looped).0 ≡ take 2 (transactions plans))
    × (was_created (send_chain_create Int_num solana network flaky looped).1 ≡ false)
stops_at_first_throw_example =
    stops_at_first_throw Int_num solana network flaky looped plans 1 "timed out" made enough runs.2
      first_lands refl

created_nodes-seeds_example :
    (length (created_nodes Int_num solana network everything_lands looped plans (("sig", 7) ∷ []))
      ≡ 2)
    × (map
          (λ c. c.seed_amount)
          (created_nodes Int_num solana network everything_lands looped plans (("sig", 7) ∷ []))
        ≡ map (λ p. p.create.seed_amount) plans)
created_nodes-seeds_example =
    created_nodes-seeds Int_num solana network everything_lands looped plans (("sig", 7) ∷ []) made

linked_back : link_summary 2 (some infinite) 1 (some 0) ≡ back_to_rule 1
unfolding link_summary
linked_back = refl
