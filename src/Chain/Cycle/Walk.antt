-- ===== src/Chain/Cycle/Walk.antt =====
-- The code of `findCycleNodes`, and what one walk of it does.
use sotama.Prelude.{
  ℕ, zero, suc, ◌+◌, Bool, true, false, Option, none, some, List, [], ◌∷◌, ◌++◌, ◌==◌, length,
  get_elem?, any,
}

-- `visited.includes(cur)`
abbrev pub includes : List ℕ → ℕ → Bool
includes xs i = any (λ x. x == i) xs

-- `nodes[i]?.next` as an index; `links` holds the `next` of each node.
abbrev pub next : List (Option ℕ) → ℕ → Option ℕ
next links i = elim (get_elem? links i) [ none ↦ none | some link ↦ link ]

-- A walk ends with the nodes that it visited, in order, and `cur`; `spent` is the end of the fuel.
pub data Walk : Type 0 where
  stopped : List ℕ → Option ℕ → Walk
  spent : Walk

-- `while (cur != null && !visited.includes(cur)) { visited.push(cur); cur = next(cur); }`
unfoldable pub walk : ℕ → List (Option ℕ) → List ℕ → Option ℕ → Walk
walk zero links visited cur = spent
walk (suc fuel) links visited none = stopped visited none
walk (suc fuel) links visited (some cur) = elim (includes visited cur) [
  | true ↦ stopped visited (some cur)
  | false ↦ walk fuel links (visited ++ cur ∷ []) (next links cur)
]

-- `visited.slice(visited.indexOf(cur))`
abbrev pub from_entry : ℕ → List ℕ → List ℕ
from_entry cur [] = []
from_entry cur (x ∷ xs) = elim (x == cur) [ true ↦ x ∷ xs | false ↦ from_entry cur xs ]

-- The result of the walk from one start: the members of a cycle, or none.
abbrev pub entered : Walk → List ℕ
entered (stopped visited (some cur)) = from_entry cur visited
entered _ = []

-- the `for` over the starts `start`, `start + 1`, …, `rounds` of them
unfoldable pub cycle_from : ℕ → ℕ → List (Option ℕ) → ℕ → List ℕ
unfolding walk
cycle_from fuel zero links start = []
cycle_from fuel (suc rounds) links start =
    let found = entered (walk fuel links [] (some start)) in
    let rest = cycle_from fuel rounds links (suc start) in
    elim found [ [] ↦ rest | x ∷ xs ↦ x ∷ xs ]

-- A walk visits each index below the length at most once and at most one that is not below, and
-- takes one more round to stop.
unfoldable pub find_cycle_nodes : List (Option ℕ) → List ℕ
unfolding cycle_from
find_cycle_nodes links = cycle_from (length links + 2) (length links) links 0
