-- ===== src/Chain/Wiring.antt =====
-- `sendChainCreate` of src/lib/linked-chains.ts, the wiring that is computed before the loop over the
-- nodes and the choices that the loop makes from it: addresses, destinations, cadences, bridges and
-- seeds.
use sotama.Prelude.{
  ℕ, ◌+◌, Bool, true, false, ◌&&◌, ◌||◌, Option, none, some, List, [], ◌∷◌, map, ◌==◌, ltb,
  if◌then◌else◌, length,
}
use sotama.Prelude.Int.{ℤ, pos, ◌*ℤ◌}
use sotama.Chain.Types.{
  SwapAction, Cadence, LoopMode, frequency, infinite, ChainLinkClass, bridge_required,
  ChainNodeDraft,
}
use sotama.Chain.Classify.{classify_chain_link}
use sotama.Chain.Cycle.Walk.{find_cycle_nodes, includes}
use sotama.Chain.Solana.{Solana, automation_pda}
use sotama.Chain.Fees.{loop_mode_to_cadence, self_loop_infinite_fund_cycles}

-- What the loop reads and does not change: the wallet, the program's Config account as fetched, the
-- clock and the parameters of the call.
pub record Ctx (F K : Type 0) : Type 0 where
  pub owner : K
  pub treasury : K
  pub program_id : K
  pub start_nonce : ℕ
  pub fee_per_day : ℕ
  pub now_sec : ℕ
  pub loop_mode : Option LoopMode
  pub nodes : List (ChainNodeDraft F K)

abbrev pub links_of : {F K : Type 0} → List (ChainNodeDraft F K) → List (Option ℕ)
links_of nodes = map (λ node. node.next) nodes

abbrev pub is_bridge : ChainLinkClass → Bool
is_bridge bridge_required = true
is_bridge _ = false

abbrev pub is_self_link : ℕ → Option ℕ → Bool
is_self_link i none = false
is_self_link i (some target) = target == i

abbrev pub cycles_to_fund : LoopMode → ℕ
cycles_to_fund (frequency cycles) = cycles
cycles_to_fund infinite = self_loop_infinite_fund_cycles

module _ (S : Solana) {F : Type 0} where
  open S use {Key}

  -- the address of the node at index `i`, for the nonce that the program will give it
  unfoldable pub pda_at : Ctx F Key → ℕ → Key
  pda_at ctx i = automation_pda S ctx.owner (ctx.start_nonce + i) ctx.program_id

  -- `nodePdas[i]`
  unfoldable pub node_pda : Ctx F Key → ℕ → Option Key
  node_pda ctx i = if ltb i (length ctx.nodes) then some (pda_at ctx i) else none

  -- `destinations[i]`; `none` is the `undefined` of a link past the end
  unfoldable pub destination : Ctx F Key → ChainNodeDraft F Key → Option Key
  unfolding node_pda
  destination ctx node =
      if length ctx.nodes == 1
      then some ctx.owner
      else (elim node.next [ none ↦ some ctx.owner | some target ↦ node_pda ctx target ])

  unfoldable pub linked_downstream : Ctx F Key → ChainNodeDraft F Key → Option Key
  unfolding node_pda
  linked_downstream ctx node =
      if ltb 1 (length ctx.nodes)
      then (elim node.next [ none ↦ none | some target ↦ node_pda ctx target ])
      else none

  unfoldable pub cycle_members : Ctx F Key → List ℕ
  cycle_members ctx = elim ctx.loop_mode [
    | none ↦ []
    | some loop ↦ if length ctx.nodes == 1 then 0 ∷ [] else find_cycle_nodes (links_of ctx.nodes)
  ]

  unfoldable pub effective_cadence : Ctx F Key → ℕ → Cadence → Cadence
  effective_cadence ctx i own = elim ctx.loop_mode [
    | none ↦ own
    | some loop ↦ if includes (cycle_members ctx) i then loop_mode_to_cadence loop else own
  ]

  -- The link that ends at this node, from the node before it.
  abbrev pub upstream_needs_bridge : Option (ChainNodeDraft F Key) → ChainNodeDraft F Key → Bool
  upstream_needs_bridge none node = false
  upstream_needs_bridge (some before) node =
      is_bridge (classify_chain_link before.result node.result)

  unfoldable pub bridge_enabled : ℕ → Option (ChainNodeDraft F Key) → ChainNodeDraft F Key → Bool
  bridge_enabled i before node =
      upstream_needs_bridge before node
      || (is_self_link i node.next && is_bridge (classify_chain_link node.result node.result))

  unfoldable pub seed_amount : Ctx F Key → ℕ → ℤ → ℤ
  seed_amount ctx i amount_in =
      if i == 0
      then (if length ctx.nodes == 1
          then (elim ctx.loop_mode [
            | none ↦ amount_in
            | some loop ↦ amount_in *ℤ pos (cycles_to_fund loop)
          ])
          else amount_in)
      else pos 0

-- The head has no upstream rule: its `consumeUpstreamOutput` is dropped.
unfoldable pub safe_action : {F : Type 0} → ℕ → SwapAction F → SwapAction F
safe_action i a =
    if i == 0 && a.consume_upstream_output then record a { consume_upstream_output = false } else a
