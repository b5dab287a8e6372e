-- ===== src/Chain/Summary.antt =====
-- `summarizeChain` of src/lib/linked-chains.ts: what the deposit dialog shows of a chain before it is
-- sent. The texts of triggers and actions are not modelled; a link's text is its case.
use sotama.Prelude.Int.{negsuc, ◌*ℤ◌, ℤ, pos}
use sotama.Chain.Solana.{Solana}
use sotama.Chain.Wiring.{seed_amount, cycles_to_fund, Ctx}
use sotama.Prelude.{
  sym, refl, inr, inl, arith, Option-cases, Bool-cases, ◌≡◌, ◌∷◌, ◌||◌, ◌==◌, ◌+◌, ◌++◌, ℕ, str_eq,
  some, none, length, leb, if◌then◌else◌, false, [], String, Option, List, Bool,
}
use sotama.Chain.Types.{
  transfer, swap, infinite, frequency, TokenRef, LoopMode, ChainNodeDraft, Action,
}

pub data LinkSummary : Type 0 where
  until_depleted : LinkSummary
  self_cycles : ℕ → LinkSummary
  back_to_rule : (number : ℕ) → LinkSummary
  to_rule : (number : ℕ) → LinkSummary
  terminal : LinkSummary

-- `tokenProgram` of Token-2022 mints
abbrev pub token_2022_program : String
token_2022_program = "TokenzQdBNbLqP5VEhdkAS6EPFLC1PHnBqCXEpPxuEb"

unfoldable pub head_cycles_to_fund : ℕ → Option LoopMode → ℕ
head_cycles_to_fund count none = 1
head_cycles_to_fund count (some loop) = if count == 1 then cycles_to_fund loop else 1

abbrev only_loop : LoopMode → LinkSummary
only_loop infinite = until_depleted
only_loop (frequency cycles) = self_cycles cycles

abbrev link_to : ℕ → Option ℕ → LinkSummary
link_to i none = terminal
link_to i (some target) = if leb target i then back_to_rule (target + 1) else to_rule (target + 1)

-- the link of the rule `i` among `count`
unfoldable pub link_summary : ℕ → Option LoopMode → ℕ → Option ℕ → LinkSummary
link_summary count none i next = link_to i next
link_summary count (some loop) i next = if count == 1 then only_loop loop else link_to i next

-- A `Set` keeps the order of the first additions.
abbrev pub has_text : List String → String → Bool
has_text [] x = false
has_text (y ∷ ys) x = str_eq y x || has_text ys x

abbrev pub add_text : List String → String → List String
add_text xs x = if has_text xs x then xs else xs ++ x ∷ []

abbrev pub is_2022 : TokenRef → Bool
is_2022 t = elim t.token_program [ none ↦ false | some p ↦ str_eq p token_2022_program ]

abbrev pub add_token : TokenRef → List String → List String
add_token t found = if is_2022 t then add_text found t.symbol else found

abbrev pub add_action : {F : Type 0} → Action F → List String → List String
add_action (transfer t a d) found = found
add_action (swap s) found = add_token s.output_token (add_token s.input_token found)

abbrev pub add_actions : {F : Type 0} → List (Action F) → List String → List String
add_actions [] found = found
add_actions (a ∷ actions) found = add_actions actions (add_action a found)

-- the two loops, over the nodes and over the actions of each
abbrev pub add_nodes : {F K : Type 0} → List (ChainNodeDraft F K) → List String → List String
add_nodes [] found = found
add_nodes (node ∷ nodes) found = add_nodes nodes (add_actions node.result.actions found)

unfoldable pub token_2022_mints_in_chain : {F K : Type 0} → List (ChainNodeDraft F K) → List String
token_2022_mints_in_chain nodes = add_nodes nodes []

times_one : (x : ℤ) → x *ℤ pos 1 ≡ x
unfolding ◌*ℤ◌
times_one (pos n) = ground arith
times_one (negsuc n) = ground arith

module _ (S : Solana) {F : Type 0} where
  open S use {Key}

  -- The head's deposit is the amount of one cycle times the number of cycles that the summary
  -- reckons with, in chains of every length and with every loop mode.
  seed_amount-head_cycles_to_fund :
      (ctx : Ctx F Key) (amount_in : ℤ)
      → seed_amount S ctx 0 amount_in
        ≡ amount_in *ℤ pos (head_cycles_to_fund (length ctx.nodes) ctx.loop_mode)
  unfolding seed_amount head_cycles_to_fund
  seed_amount-head_cycles_to_fund ctx amount_in =
      let same = sym (times_one amount_in) in
      elim (Option-cases ctx.loop_mode) [
        | inl e ↦ elim (Bool-cases (length ctx.nodes == 1)) [
          | inl f ↦ rw (f, e, if◌then◌else◌, head_cycles_to_fund) same
          | inr f ↦ rw (f, e, if◌then◌else◌, head_cycles_to_fund) same
        ]
        | inr (loop, e) ↦ elim (Bool-cases (length ctx.nodes == 1)) [
          | inl f ↦ rw (e, head_cycles_to_fund, f, if◌then◌else◌) refl
          | inr f ↦ rw (e, head_cycles_to_fund, f, if◌then◌else◌) same
        ]
      ]
