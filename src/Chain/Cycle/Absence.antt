-- ===== src/Chain/Cycle/Absence.antt =====
-- `findCycleNodes` finds a cycle whenever the links have one.
use sotama.Prelude.{
  ℕ, zero, suc, ◌+◌, ◌<◌, ◌≤◌, true, Option, none, some, List, [], ◌∷◌, ◌++◌, ◌≡◌, ◌≢◌, refl, arith,
  ◌==◌, length, Bool-cases, ==_iff, inl, inr, ◌⊎◌, subst, false≢true, ltb, ap,
}
use mathlib.Core.Option.{some-injective}
use sotama.Chain.Cycle.Walk.{
  includes, next, spent, walk, from_entry, entered, cycle_from, find_cycle_nodes,
}
use sotama.Chain.Cycle.Fuel.{walk_stops, next_out_of_range}
use sotama.Chain.Cycle.Members.{IsPath, IsCycle}

-- Following the links from here comes to an end.
data Ends (links : List (Option ℕ)) : Option ℕ → Type 0 where
  end : Ends links none
  step : (i : ℕ) → Ends links (next links i) → Ends links (some i)

-- Nothing found: every walk from a node of the chain ends.
from_entry-ne-nil :
    (c : ℕ) (visited : List ℕ) → includes visited c ≡ true → from_entry c visited ≢ []
from_entry-ne-nil c [] h = ground arith
from_entry-ne-nil c (x ∷ xs) h = elim (Bool-cases (x == c)) [
  | inl e ↦ rw (e, from_entry) (λ p. cc)
  | inr e ↦ rw (e, from_entry) (from_entry-ne-nil c xs (ground arith))
]

walk-Ends :
    (fuel : ℕ) (links : List (Option ℕ)) (visited : List ℕ) (cur : Option ℕ)
    → walk fuel links visited cur ≢ spent
    → entered (walk fuel links visited cur) ≡ []
    → Ends links cur
unfolding walk
walk-Ends zero links visited cur ran h = absurd (ran refl)
walk-Ends (suc fuel) links visited none ran h = end
walk-Ends (suc fuel) links visited (some c) ran h = elim (Bool-cases (includes visited c)) [
  | inl seen ↦ absurd (from_entry-ne-nil c visited seen (rw (seen, walk) at h))
  | inr fresh ↦ step c (
      walk-Ends fuel links (visited ++ c ∷ []) (next links c) (rw (fresh, walk) at ran)
        (rw (fresh, walk) at h))
]

Ends-out_of_range : (links : List (Option ℕ)) (i : ℕ) → length links ≤ i → Ends links (some i)
Ends-out_of_range links i h = step i (rw (next_out_of_range links i h) end)

-- the two parts of `elim found [ [] ↦ rest | x ∷ xs ↦ x ∷ xs ] ≡ []`
both_nil :
    (found rest : List ℕ)
    → (elim found [ [] ↦ rest | x ∷ xs ↦ x ∷ xs ]) ≡ []
    → (found ≡ []) × (rest ≡ [])
both_nil [] rest h = (refl, h)
both_nil (x ∷ xs) rest h = cc

cycle_from-Ends :
    (rounds : ℕ) (links : List (Option ℕ)) (start i : ℕ)
    → cycle_from (length links + 2) rounds links start ≡ []
    → start ≤ i
    → i < start + rounds
    → Ends links (some i)
unfolding cycle_from
cycle_from-Ends zero links start i h a b = absurd (omega arith)
cycle_from-Ends (suc rounds) links start i h a b =
    let (here, later) =
      both_nil (entered (walk (length links + 2) links [] (some start)))
        (cycle_from (length links + 2) rounds links (suc start)) h in
    elim (Bool-cases (start == i)) [
      | inl e ↦
          subst (λ k. Ends links (some k)) ((==_iff start i).0 e)
            (walk-Ends (length links + 2) links [] (some start)
              (walk_stops (length links + 2) links [] (some start) tt tt (omega arith)) here)
      | inr e ↦
          cycle_from-Ends rounds links (suc start) i later (ground (arith, ==_iff start i))
            (omega arith)
    ]

-- Every node of a closed path links to a node of it.
path_next :
    (links : List (Option ℕ)) (xs : List ℕ) (target i : ℕ)
    → IsPath links xs (some target)
    → includes xs i ≡ true
    → (j : ℕ) × (next links i ≡ some j) × ((includes xs j ≡ true) ⊎ (j ≡ target))
path_next links [] target i p h = absurd (false≢true h)
path_next links (x ∷ []) target i p h = (target, rw (← (==_iff x i).0 (ground arith)) p, inr refl)
path_next links (x ∷ y ∷ r) target i p h = elim (Bool-cases (x == i)) [
  | inl e ↦ (y, rw (← (==_iff x i).0 e) p.0, inl (ground arith))
  | inr e ↦
      let (j, linked, where_to) = path_next links (y ∷ r) target i p.1 (ground arith) in
      (j, linked, ground arith)
]

no_end_in_cycle :
    {links : List (Option ℕ)} (x : ℕ) (xs : List ℕ) {o : Option ℕ} (i : ℕ)
    → IsPath links (x ∷ xs) (some x)
    → includes (x ∷ xs) i ≡ true
    → Ends links o
    → o ≡ some i
    → ⊥
no_end_in_cycle x xs i p h end e = cc
no_end_in_cycle {links} x xs i p h (step k more) e =
    let (j, linked, where_to) = path_next links (x ∷ xs) x i p h in
    no_end_in_cycle x xs j p (ground (arith, ==_iff x j)) more
      (cc (ap (next links) (some-injective k i e), linked))

-- If the chain's links have a cycle at all, `findCycleNodes` returns a node.
pub found_of_IsCycle :
    (links : List (Option ℕ)) (xs : List ℕ) → IsCycle links xs → find_cycle_nodes links ≢ []
unfolding find_cycle_nodes
found_of_IsCycle links [] c h = elim c [ ]
found_of_IsCycle links (x ∷ xs) c h =
    no_end_in_cycle x xs x c.0 (ground (arith, ==_iff x x)) all_end refl
  where
    all_end : Ends links (some x)
    all_end = elim (Bool-cases (ltb x (length links))) [
      | inl below ↦ cycle_from-Ends (length links) links 0 x h (omega arith) (ground arith)
      | inr out ↦ Ends-out_of_range links x (ground arith)
    ]
