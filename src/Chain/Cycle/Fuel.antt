-- ===== src/Chain/Cycle/Fuel.antt =====
-- The fuel of `find_cycle_nodes` is enough: a walk visits no index twice, so it stops.
use sotama.Prelude.{
  ℕ, zero, suc, ◌+◌, ◌<◌, ◌≤◌, true, false, not, Option, none, some, List, [], ◌∷◌, ◌++◌, ◌≡◌, ◌≢◌,
  refl, arith, ◌==◌, length, select, All, Bool-cases, ltb, ==_iff, length-append, All-append, inl,
  inr,
}
use sotama.Chain.Cycle.Walk.{includes, next, stopped, spent, walk}

-- No index twice.
abbrev pub Distinct : List ℕ → Type 0
Distinct [] = Unit
Distinct (x ∷ xs) = (includes xs x ≡ false) × Distinct xs

includes-snoc :
    (xs : List ℕ) (c x : ℕ)
    → includes xs x ≡ false
    → (c == x) ≡ false
    → includes (xs ++ c ∷ []) x ≡ false
includes-snoc [] c x h e = ground arith
includes-snoc (y ∷ xs) c x h e = ground (arith, includes-snoc xs c x)

pub Distinct-snoc :
    (xs : List ℕ) (c : ℕ) → Distinct xs → includes xs c ≡ false → Distinct (xs ++ c ∷ [])
Distinct-snoc [] c d h = (refl, tt)
Distinct-snoc (x ∷ xs) c d h =
    (includes-snoc xs c x d.0 (ground arith), Distinct-snoc xs c d.1 (ground arith))

-- The list with every `n` taken out.
without : ℕ → List ℕ → List ℕ
without n = select (λ x. not (x == n))

includes-without :
    (n : ℕ) (xs : List ℕ) (x : ℕ) → includes xs x ≡ false → includes (without n xs) x ≡ false
unfolding without
includes-without n [] x h = refl
includes-without n (y ∷ xs) x h = ground (arith, includes-without n xs x)

Distinct-without : (n : ℕ) (xs : List ℕ) → Distinct xs → Distinct (without n xs)
unfolding without
Distinct-without n [] d = tt
Distinct-without n (x ∷ xs) d = elim (Bool-cases (x == n)) [
  | inl e ↦ rw e (Distinct-without n xs d.1)
  | inr e ↦ rw e (includes-without n xs x d.0, Distinct-without n xs d.1)
]

All-without : (n : ℕ) (xs : List ℕ) → All (λ x. x < suc n) xs → All (λ x. x < n) (without n xs)
unfolding without
All-without n [] h = tt
All-without n (x ∷ xs) h = elim (Bool-cases (x == n)) [
  | inl e ↦ rw e (All-without n xs h.1)
  | inr e ↦ rw e (ground (arith, h.0), All-without n xs h.1)
]

length-without_absent :
    (n : ℕ) (xs : List ℕ) → includes xs n ≡ false → length (without n xs) ≡ length xs
unfolding without
length-without_absent n [] h = refl
length-without_absent n (x ∷ xs) h = ground (arith, length-without_absent n xs)

length-le-without : (n : ℕ) (xs : List ℕ) → Distinct xs → length xs ≤ suc (length (without n xs))
unfolding without
length-le-without n [] d = omega arith
length-le-without n (x ∷ xs) d =
    ground (arith, length-le-without n xs d.1, length-without_absent n xs, ==_iff x n)

-- Distinct indices below `n` are at most `n`.
pub pigeonhole : (n : ℕ) (xs : List ℕ) → All (λ x. x < n) xs → Distinct xs → length xs ≤ n
pigeonhole n [] h d = omega arith
pigeonhole zero (x ∷ xs) h d = absurd (omega arith)
pigeonhole (suc n) (x ∷ xs) h d = omega (
  arith,
  length-le-without n (x ∷ xs) d,
  pigeonhole n (without n (x ∷ xs)) (All-without n (x ∷ xs) h) (Distinct-without n (x ∷ xs) d),
)

pub next_out_of_range : (links : List (Option ℕ)) (i : ℕ) → length links ≤ i → next links i ≡ none
next_out_of_range [] i h = refl
next_out_of_range (l ∷ links) zero h = absurd (omega arith)
next_out_of_range (l ∷ links) (suc i) h = next_out_of_range links i (omega arith)

walk-fresh :
    (fuel : ℕ) (links : List (Option ℕ)) (visited : List ℕ) (cur : ℕ)
    → includes visited cur ≡ false
    → walk (suc fuel) links visited (some cur)
      ≡ walk fuel links (visited ++ cur ∷ []) (next links cur)
unfolding walk
walk-fresh fuel links visited cur h = rw (h, walk)

walk-seen :
    (fuel : ℕ) (links : List (Option ℕ)) (visited : List ℕ) (cur : ℕ)
    → includes visited cur ≡ true
    → walk (suc fuel) links visited (some cur) ≡ stopped visited (some cur)
unfolding walk
walk-seen fuel links visited cur h = rw (h, walk)

walk-none :
    (fuel : ℕ) (links : List (Option ℕ)) (visited : List ℕ)
    → walk (suc fuel) links visited none ≡ stopped visited none
unfolding walk
walk-none fuel links visited = refl

-- With room for every index and two rounds more, a walk from fresh indices stops by itself.
pub walk_stops :
    (fuel : ℕ) (links : List (Option ℕ)) (visited : List ℕ) (cur : Option ℕ)
    → All (λ x. x < length links) visited
    → Distinct visited
    → length links + 2 ≤ fuel + length visited
    → walk fuel links visited cur ≢ spent
walk_stops zero links visited cur h d f =
    absurd (omega (arith, pigeonhole (length links) visited h d))
walk_stops (suc fuel) links visited none h d f = rw walk-none (λ e. cc)
walk_stops (suc zero) links visited (some cur) h d f =
    absurd (omega (arith, pigeonhole (length links) visited h d))
walk_stops (suc (suc fuel)) links visited (some cur) h d f =
    elim (Bool-cases (includes visited cur)) [
      | inl seen ↦ rw (walk-seen (suc fuel) links visited cur seen) (λ e. cc)
      | inr fresh ↦
          rw (walk-fresh (suc fuel) links visited cur fresh)
            (elim (Bool-cases (ltb cur (length links))) [
              | inl below ↦
                  walk_stops (suc fuel) links (visited ++ cur ∷ []) (next links cur)
                    (All-append (λ x. x < length links) visited (cur ∷ []) h (ground arith, tt))
                    (Distinct-snoc visited cur d fresh)
                    (omega (arith, length-append visited (cur ∷ [])))
              | inr out ↦ rw (next_out_of_range links cur (ground arith), walk-none) (λ e. cc)
            ])
    ]
