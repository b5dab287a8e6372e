-- ===== src/Chain/Cycle/Members.antt =====
-- The result of `findCycleNodes` is a cycle of the links, and it is empty only where there is none.
use sotama.Prelude.{
  ℕ, zero, suc, ◌+◌, true, false, Option, none, some, List, [], ◌∷◌, ◌++◌, ◌≡◌, refl, arith, ◌==◌,
  length, Bool-cases, ==_iff, inl, inr, ◌⊎◌, sym, subst, false≢true,
}
use sotama.Chain.Cycle.Walk.{
  includes, next, Walk, stopped, spent, walk, from_entry, entered, cycle_from, find_cycle_nodes,
}
use sotama.Chain.Cycle.Fuel.{Distinct, Distinct-snoc}

-- Each node links to the one after it, and the last to `target`.
abbrev pub IsPath : List (Option ℕ) → List ℕ → Option ℕ → Type 0
IsPath links [] target = Unit
IsPath links (x ∷ []) target = next links x ≡ target
IsPath links (x ∷ y ∷ r) target = (next links x ≡ some y) × IsPath links (y ∷ r) target

-- Distinct nodes, each linked to the next and the last to the first.
abbrev pub IsCycle : List (Option ℕ) → List ℕ → Type 0
IsCycle links [] = ⊥
IsCycle links (x ∷ xs) = IsPath links (x ∷ xs) (some x) × Distinct (x ∷ xs)

IsPath-snoc :
    (links : List (Option ℕ)) (xs : List ℕ) (c : ℕ)
    → IsPath links xs (some c)
    → IsPath links (xs ++ c ∷ []) (next links c)
IsPath-snoc links [] c h = refl
IsPath-snoc links (x ∷ []) c h = (h, refl)
IsPath-snoc links (x ∷ y ∷ r) c h = (h.0, IsPath-snoc links (y ∷ r) c h.1)

-- What a walk hands over when it stops at an index that it has visited.
abbrev Loops : List (Option ℕ) → List ℕ → ℕ → Type 0
Loops links visited c =
    IsPath links visited (some c) × Distinct visited × (includes visited c ≡ true)

abbrev Good : List (Option ℕ) → Walk → Type 0
Good links (stopped visited (some c)) = Loops links visited c
Good links (stopped visited none) = Unit
Good links spent = Unit

walk-Good :
    (fuel : ℕ) (links : List (Option ℕ)) (visited : List ℕ) (cur : Option ℕ)
    → IsPath links visited cur
    → Distinct visited
    → Good links (walk fuel links visited cur)
unfolding walk
walk-Good zero links visited cur p d = tt
walk-Good (suc fuel) links visited none p d = tt
walk-Good (suc fuel) links visited (some c) p d = elim (Bool-cases (includes visited c)) [
  | inl seen ↦ rw (seen, walk) (p, d, seen)
  | inr fresh ↦
      rw (fresh, walk)
        (walk-Good fuel links (visited ++ c ∷ []) (next links c) (IsPath-snoc links visited c p)
          (Distinct-snoc visited c d fresh))
]

Loops-tail :
    (links : List (Option ℕ)) (x : ℕ) (rest : List ℕ) (c : ℕ)
    → Loops links (x ∷ rest) c
    → (x == c) ≡ false
    → Loops links rest c
Loops-tail links x [] c h e = ground arith
Loops-tail links x (y ∷ r) c h e = (h.0.1, h.1.1, ground arith)

from_entry-IsCycle :
    (links : List (Option ℕ)) (visited : List ℕ) (c : ℕ)
    → Loops links visited c
    → IsCycle links (from_entry c visited)
from_entry-IsCycle links [] c h = absurd (false≢true h.2)
from_entry-IsCycle links (x ∷ rest) c h = elim (Bool-cases (x == c)) [
  | inl e ↦
      rw (e, from_entry)
        (subst (λ t. IsPath links (x ∷ rest) (some t)) (sym ((==_iff x c).0 e)) h.0, h.1)
  | inr e ↦ rw (e, from_entry) (from_entry-IsCycle links rest c (Loops-tail links x rest c h e))
]

-- Either nothing was found or what was found is a cycle.
abbrev NoneOrCycle : List (Option ℕ) → List ℕ → Type 0
NoneOrCycle links xs = (xs ≡ []) ⊎ IsCycle links xs

entered-NoneOrCycle :
    (links : List (Option ℕ)) (w : Walk) → Good links w → NoneOrCycle links (entered w)
entered-NoneOrCycle links spent h = inl refl
entered-NoneOrCycle links (stopped visited none) h = inl refl
entered-NoneOrCycle links (stopped visited (some c)) h = inr (from_entry-IsCycle links visited c h)

-- `elim found [ [] ↦ rest | x ∷ xs ↦ x ∷ xs ]` of the code
first_found-NoneOrCycle :
    (links : List (Option ℕ)) (found rest : List ℕ)
    → NoneOrCycle links found
    → NoneOrCycle links rest
    → NoneOrCycle links (elim found [ [] ↦ rest | x ∷ xs ↦ x ∷ xs ])
first_found-NoneOrCycle links [] rest hf hr = hr
first_found-NoneOrCycle links (x ∷ xs) rest hf hr = hf

cycle_from-NoneOrCycle :
    (fuel rounds : ℕ) (links : List (Option ℕ)) (start : ℕ)
    → NoneOrCycle links (cycle_from fuel rounds links start)
unfolding cycle_from
cycle_from-NoneOrCycle fuel zero links start = inl refl
cycle_from-NoneOrCycle fuel (suc rounds) links start =
    first_found-NoneOrCycle links (entered (walk fuel links [] (some start)))
      (cycle_from fuel rounds links (suc start))
      (entered-NoneOrCycle links (walk fuel links [] (some start))
        (walk-Good fuel links [] (some start) tt tt))
      (cycle_from-NoneOrCycle fuel rounds links (suc start))

-- Whatever the links, the nodes found, if any, are distinct, each links to the next, and the last
-- links to the first.
pub found-IsCycle :
    (links : List (Option ℕ))
    → (find_cycle_nodes links ≡ []) ⊎ IsCycle links (find_cycle_nodes links)
unfolding find_cycle_nodes
found-IsCycle links = cycle_from-NoneOrCycle (length links + 2) (length links) links 0
