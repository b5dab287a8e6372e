-- ===== src/Chain/Tests/Links.antt =====
-- The theorems on links, drafts, cycles and fees, each applied to a concrete chain.
use sotama.Prelude.Int.{ℤ}
use sotama.Chain.Cycle.Absence.{found_of_IsCycle}
use sotama.Chain.Tests.{round_trip, down}
use sotama.Chain.Cycle.Walk.{walk, find_cycle_nodes, cycle_from}
use sotama.Prelude.{◌⊎◌, ◌≢◌, ◌≡◌, ◌∷◌, ◌↔◌, ℕ, some, refl, none, inr, inl, arith, [], Option, List}
use sotama.Chain.Cycle.Members.{found-IsCycle, IsCycle}
use sotama.Chain.Types.{ChainNodeDraft}
use sotama.Chain.Validate.{
  validate_chain_draft, price_relative_to_fill_requires_chain_position, error-Blames,
  accepts_iff_WellFormed, WellFormedFrom, Blames,
}

accepts_iff_WellFormed_example :
    (validate_chain_draft round_trip ≡ none) ↔ WellFormedFrom 0 round_trip
accepts_iff_WellFormed_example = accepts_iff_WellFormed round_trip

abbrev fill_first : List (ChainNodeDraft ℤ (List (List ℕ)))
fill_first = record { result = down; next = none } ∷ []

error-Blames_example : Blames (price_relative_to_fill_requires_chain_position 0) fill_first
unfolding validate_chain_draft
error-Blames_example =
    error-Blames fill_first (price_relative_to_fill_requires_chain_position 0) refl

-- rules 1 and 2 link to each other, and rule 0 leads into them
abbrev tail_links : List (Option ℕ)
tail_links = some 1 ∷ some 2 ∷ some 1 ∷ []

found-IsCycle_example :
    (find_cycle_nodes tail_links ≡ []) ⊎ IsCycle tail_links (find_cycle_nodes tail_links)
found-IsCycle_example = found-IsCycle tail_links

tail-IsCycle : IsCycle tail_links (find_cycle_nodes tail_links)
unfolding find_cycle_nodes cycle_from walk
tail-IsCycle = elim (found-IsCycle tail_links) [ inl e ↦ ground (arith, e) | inr c ↦ c ]

found_of_IsCycle_example : find_cycle_nodes tail_links ≢ []
found_of_IsCycle_example = found_of_IsCycle tail_links (find_cycle_nodes tail_links) tail-IsCycle
