-- ===== src/Chain/Solana.antt =====
-- What the chain code takes from @solana/web3.js and @solana/spl-token, as parameters, and the
-- address derivations of src/lib/program.ts over it.
use sotama.Prelude.Text.{codes}
use sotama.Prelude.{ℕ, zero, suc, ◌%◌, ◌/◌, String, Option, List, [], ◌∷◌}

pub record Solana : Type 1 where
  -- `PublicKey`
  pub Key : Type 0
  -- `new PublicKey(base58)`; `none` where the constructor throws
  pub parse : String → Option Key
  -- `new PublicKey(Buffer.from(hex, "hex"))` of the hex digits' character codes
  pub of_hex : List ℕ → Option Key
  pub to_base58 : Key → String
  pub to_buffer : Key → List ℕ
  -- the address of `PublicKey.findProgramAddressSync(seeds, program)`
  pub find_program_address : List (List ℕ) → Key → Key
  pub spl_token_program_id : Key
  pub associated_token_program_id : Key
  -- the wrapped-SOL mint
  pub native_mint : Key

-- `writeBigUInt64LE`: the `n` low bytes of a number, the lowest first
abbrev pub bytes_le : ℕ → ℕ → List ℕ
bytes_le zero x = []
bytes_le (suc n) x = (x % 256) ∷ bytes_le n (x / 256)

module _ (S : Solana) where
  open S use {Key, to_buffer, find_program_address, associated_token_program_id}

  unfoldable pub automation_pda : Key → ℕ → Key → Key
  automation_pda owner nonce program_id =
      find_program_address (codes "automation" ∷ to_buffer owner ∷ bytes_le 8 nonce ∷ []) program_id

  unfoldable pub associated_token_address_for_program : Key → Key → Key → Key
  associated_token_address_for_program owner mint token_program =
      find_program_address (to_buffer owner ∷ to_buffer token_program ∷ to_buffer mint ∷ [])
        associated_token_program_id
