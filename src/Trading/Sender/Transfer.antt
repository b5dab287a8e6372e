-- ===== src/Trading/Sender/Transfer.antt =====
-- The sender's tip: the bytes of the transfer, and the turn of the accounts.
use sotama.Prelude.Int.{pos}
use sotama.Trading.Sender.{
  le_bytes, create_system_transfer_instruction, Instruction, ok, writable_signer, writable,
  system_program_address,
}
use sotama.Prelude.{
  ◌∷◌, ◌+◌, ◌*◌, ◌/◌, ◌^◌, ◌<◌, ◌≡◌, ◌++◌, ℕ, zero, suc, refl, arith, [], List, String, length,
  drop, take, lt→ltb,
}

-- The number that little-endian bytes stand for.
pub of_le_bytes : List ℕ → ℕ
of_le_bytes [] = 0
of_le_bytes (b ∷ bs) = b + 256 * of_le_bytes bs

pub of_le_bytes-le_bytes : (width n : ℕ) → n < 256 ^ width → of_le_bytes (le_bytes width n) ≡ n
unfolding of_le_bytes
of_le_bytes-le_bytes zero n h = omega arith
of_le_bytes-le_bytes (suc width) n h =
    omega (arith, of_le_bytes-le_bytes width (n / 256) (below n width h))
  where
    below : (n width : ℕ) → n < 256 ^ suc width → n / 256 < 256 ^ width
    below n width h = grind arith

-- A transfer of a whole number of lamports below 2^53 is twelve bytes: the instruction's number, 2, in
-- four, and the lamports in eight, from which they are read back.
pub create_system_transfer_instruction_decodes :
    (source destination : String) (n : ℕ)
    → n < 2 ^ 53
    → (t : Instruction) × (create_system_transfer_instruction source destination (pos n) ≡ ok t)
      × (length t.data_bytes ≡ 12)
      × (of_le_bytes (take 4 t.data_bytes) ≡ 2)
      × (of_le_bytes (drop 4 t.data_bytes) ≡ n)
      × (t.accounts ≡ (source, writable_signer) ∷ (destination, writable) ∷ [])
unfolding create_system_transfer_instruction of_le_bytes
create_system_transfer_instruction_decodes source destination n h = (
  record {
    program_address = system_program_address;
    accounts = (source, writable_signer) ∷ (destination, writable) ∷ [];
    data_bytes = le_bytes 4 2 ++ le_bytes 8 n;
  },
  rw (lt→ltb _ _ h) refl,
  refl,
  refl,
  of_le_bytes-le_bytes 8 n (omega arith),
  refl,
)
