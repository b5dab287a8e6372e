-- ===== src/Chain/Tests.antt =====
-- Concrete chains, which the examples of the chain theorems are about.
mod Links
mod Plans
mod Closes
use sotama.Prelude.Int.{◌+ℤ◌, ◌*ℤ◌, ℤ, pos, ltb_ℤ}
use sotama.Chain.Cycle.Walk.{walk, next, find_cycle_nodes, cycle_from}
use sotama.Prelude.Text.{codes}
use sotama.Chain.Classify.{classify_chain_link}
use sotama.Chain.Fees.{loop_mode_to_cadence, estimate_time_fee, charged_days}
use sotama.Chain.Encode.{
  try_pubkey, time_elapsed_to_secs, resolve_quote, resolve_oracle, feed_id_to_pubkey,
  build_trigger_spec, build_swap_action, build_asset_price,
}
use sotama.Chain.Solana.{automation_pda, associated_token_address_for_program, Solana}
use sotama.Prelude.Num.{Int_num}
use sotama.Chain.Wiring.{
  seed_amount, safe_action, pda_at, node_pda, linked_downstream, effective_cadence, destination,
  cycle_members, bridge_enabled, Ctx,
}
use sotama.Chain.Plan.{
  ◌>>=◌, wrap_ixs, token_program, setup_ixs, resolve_trigger, require, plan_node, plan_from, plan,
  ok, err, assemble, NodePlan, Network, Built,
}
use sotama.Chain.Types.{
  time_elapsed, price_relative_to_fill, swap, once, minutes, grow, frequency, Trigger, TokenRef,
  SwapAction, LoopMode, ChainNodeDraft, BuilderResult,
}
use sotama.Prelude.{
  ◌≡◌, ◌∷◌, ◌==◌, ◌<◌, ◌++◌, ℕ, true, some, refl, none, if◌then◌else◌, false, arith, [], Option,
  List, Bool,
}
use sotama.Chain.Send.{tx_count, thrown, landed, parsed, estimated_sol_needed, Cluster, Answer}

-- A stand-in for the Solana libraries: an address is the list of the byte strings it was made of.
abbrev pub flat : List (List ℕ) → List ℕ
flat [] = []
flat (x ∷ xs) = x ++ flat xs

abbrev pub solana : Solana
solana = record {
  Key = List (List ℕ);
  parse = λ s. some (codes s ∷ []);
  of_hex = λ s. some (s ∷ []);
  to_base58 = λ k. "key";
  to_buffer = flat;
  find_program_address = λ seeds program. seeds;
  spl_token_program_id = codes "token" ∷ [];
  associated_token_program_id = codes "ata" ∷ [];
  native_mint = codes "So1" ∷ [];
}

abbrev pub network : Network (List (List ℕ))
network = record {
  lookup_feed = λ a. some "0x0a";
  resolve_mint_token_program = λ k. codes "token" ∷ [];
}

abbrev pub sol : TokenRef
sol = record { mint = "So1"; symbol = "SOL"; decimals = 9; token_program = none }

abbrev pub usdc : TokenRef
usdc = record { mint = "Usdc"; symbol = "USDC"; decimals = 6; token_program = some "token" }

abbrev pub usdt : TokenRef
usdt = record { mint = "Usdt"; symbol = "USDT"; decimals = 6; token_program = none }

abbrev pub swap_of : TokenRef → TokenRef → Bool → SwapAction ℤ
swap_of from to consume = record {
  input_token = from;
  output_token = to;
  amount = pos 3;
  consume_upstream_output = consume;
}

abbrev pub rule : Trigger ℤ (List (List ℕ)) → SwapAction ℤ → BuilderResult ℤ (List (List ℕ))
rule trigger s = record {
  triggers = trigger ∷ [];
  actions = swap s ∷ [];
  cadence = once;
  min_interval_secs = 0;
}

abbrev pub after_five : Trigger ℤ (List (List ℕ))
after_five = time_elapsed (pos 5) minutes

abbrev pub on_fill : Trigger ℤ (List (List ℕ))
on_fill = price_relative_to_fill none grow 250

-- SOL to USDC and back, in a loop.
abbrev pub round_trip : List (ChainNodeDraft ℤ (List (List ℕ)))
round_trip =
    record { result = rule after_five (swap_of sol usdc false); next = some 1 }
    ∷ record { result = rule on_fill (swap_of usdc sol true); next = some 0 }
    ∷ []

abbrev pub ctx_of :
    List (ChainNodeDraft ℤ (List (List ℕ))) → Option LoopMode → Ctx ℤ (List (List ℕ))
ctx_of nodes loop_mode = record {
  owner = codes "me" ∷ [];
  treasury = codes "fees" ∷ [];
  program_id = codes "sotama" ∷ [];
  start_nonce = 7;
  fee_per_day = 1000;
  now_sec = 1700000000;
  loop_mode = loop_mode;
  nodes = nodes;
}

abbrev pub looped : Ctx ℤ (List (List ℕ))
looped = ctx_of round_trip (some (frequency 4))

abbrev pub planned : Built (List (NodePlan (List (List ℕ)))) → List (NodePlan (List (List ℕ)))
planned (ok ps) = ps
planned (err e) = []

abbrev pub plans : List (NodePlan (List (List ℕ)))
plans = planned (plan Int_num solana network looped)

abbrev pub everything_lands : Cluster (List (List ℕ))
everything_lands = record {
  balance = 10000000000;
  answer = λ n. landed "sig";
  events = λ sig. parsed [];
}

abbrev pub second_throws : ℕ → Answer
second_throws n = if n == 0 then landed "sig" else thrown "timed out"

pub runs :
    (plan Int_num solana network looped ≡ ok plans)
    × (ltb_ℤ (pos 10000000000) (estimated_sol_needed plans) ≡ false)
    × (1 < tx_count plans)
unfolding sotama.Prelude.Int.◌*ℤ◌ sotama.Prelude.Int.◌+ℤ◌ estimated_sol_needed tx_count plan
    plan_from plan_node assemble setup_ixs wrap_ixs token_program resolve_trigger require ◌>>=◌
    build_swap_action build_trigger_spec build_asset_price resolve_quote resolve_oracle
    time_elapsed_to_secs feed_id_to_pubkey try_pubkey safe_action seed_amount bridge_enabled
    effective_cadence cycle_members linked_downstream destination node_pda pda_at
    classify_chain_link automation_pda associated_token_address_for_program find_cycle_nodes
    cycle_from walk charged_days estimate_time_fee loop_mode_to_cadence
runs = (refl, refl, omega arith)

pub made : plan Int_num solana network looped ≡ ok plans
made = runs.0

pub enough : ltb_ℤ (pos 10000000000) (estimated_sol_needed plans) ≡ false
enough = runs.1

abbrev pub up : BuilderResult ℤ (List (List ℕ))
up = rule after_five (swap_of sol usdc false)

abbrev pub down : BuilderResult ℤ (List (List ℕ))
down = rule on_fill (swap_of usdc sol true)
