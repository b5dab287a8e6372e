-- ===== src/Chain/Send/Batches.antt =====
-- The batches of `sendChainCreate` in src/lib/linked-chains.ts (CHAIN_BATCH_SIZE): what they hold, how large they are and how
-- many there are.
use sotama.Prelude.{◌+◌, ◌/◌, ◌≤◌, List, [], ◌∷◌, ◌++◌, length, All, ◌≡◌, refl, ap, arith}
use sotama.Chain.Send.{batches}

abbrev pub flatten : {A : Type 0} → List (List A) → List A
flatten [] = []
flatten (b ∷ bs) = b ++ flatten bs

abbrev pub FitsOneTx : {A : Type 0} → List A → Type 0
FitsOneTx b = (1 ≤ length b) × (length b ≤ 2)

-- The batches hold the instructions of the list, all of them and in their order.
pub flatten-batches : {A : Type 0} (xs : List A) → flatten (batches xs) ≡ xs
unfolding batches
flatten-batches [] = refl
flatten-batches (x ∷ []) = refl
flatten-batches (x ∷ y ∷ rest) = ap (λ r. x ∷ y ∷ r) (flatten-batches rest)

-- No batch is empty and none has more than the two create instructions that fit one transaction.
pub batches-FitsOneTx : {A : Type 0} (xs : List A) → All FitsOneTx (batches xs)
unfolding batches
batches-FitsOneTx [] = tt
batches-FitsOneTx (x ∷ []) = ((omega arith, omega arith), tt)
batches-FitsOneTx (x ∷ y ∷ rest) = ((omega arith, omega arith), batches-FitsOneTx rest)

-- The number of batches is half the number of instructions, rounded up: what the fee estimate counts.
pub length-batches : {A : Type 0} (xs : List A) → length (batches xs) ≡ (length xs + 1) / 2
unfolding batches
length-batches [] = omega arith
length-batches (x ∷ []) = omega arith
length-batches (x ∷ y ∷ rest) = omega (arith, length-batches rest)
