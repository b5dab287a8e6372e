-- ===== src/Chain/Close.antt =====
-- src/lib/close-automation.ts: closing an automation, so that what it holds goes back to its owner.
-- What the cluster answers is the record `OnChainAccounts`; that a call of it fails is not modelled. Signing,
-- sending and confirming come after: the model ends with the transaction.
pub mod Drained
pub mod Owned
use sotama.Prelude.Text.{codes}
use sotama.Chain.Solana.{Solana, associated_token_address_for_program}
use sotama.Chain.Types.{Action, transfer, swap, SwapAction, TokenRef, head?}
use sotama.Prelude.{
  ◌∷◌, ◌++◌, ◌||◌, ◌&&◌, ℕ, true, some, none, not, str_eq, if◌then◌else◌, false, [], String, List,
  Option, Bool,
}

-- `K` stands for `PublicKey`.
pub record OnChainAccounts (K : Type 0) : Type 0 where
  -- `a.equals(b)`
  pub equals : K → K → Bool
  -- the owner of an account, if the account exists
  pub owner_of : K → Option K
  -- `getTokenAccountsByOwner` for a token program: the addresses and the mints in their data
  pub token_accounts : (owner token_program : K) → List (K × K)
  pub treasury : K
  pub program_id : Option K
  pub token_2022_program_id : K
  pub is_demo : Bool

-- What the function reads of an `Automation`.
pub record Target (F : Type 0) : Type 0 where
  pub pubkey : Option String
  pub actions : List (Action F)

pub data CloseError : Type 0 where
  wallet_not_connected no_pubkey no_actions not_configured bad_key : CloseError
  no_mint unknown_token_program : CloseError
  -- `none` where the account does not exist
  orphaned : (pubkey : String) (actual_owner : Option String) (expected_owner : String) → CloseError

pub data Closing (A : Type 0) : Type 0 where
  ok : A → Closing A
  refused : CloseError → Closing A

infixl 5 ◌>>=◌
abbrev pub ◌>>=◌ : {A B : Type 0} → Closing A → (A → Closing B) → Closing B
ok x >>= next = next x
refused why >>= next = refused why

abbrev pub key_or : {A : Type 0} → CloseError → Option A → Closing A
key_or e none = refused e
key_or e (some k) = ok k

pub record AccountMeta (K : Type 0) : Type 0 where
  pub account : K
  pub is_signer : Bool
  pub is_writable : Bool

pub data CloseIx (K : Type 0) : Type 0 where
  create_ata_idempotent : (payer ata owner mint token_program : K) → CloseIx K
  close_automation : (owner automation config treasury : K) → CloseIx K
  close_automation_spl :
      (owner automation config treasury mint owner_ata automation_ata token_program : K) → CloseIx K
  close_automation_swap :
      (owner automation config treasury input_mint owner_input_ata automation_input_ata : K)
      (token_program : K) (remaining : List (AccountMeta K))
      → CloseIx K

pub record Dust (K : Type 0) : Type 0 where
  pub pda_ata : K
  pub mint : K
  pub token_program : K

-- `none` is the simulated close of the demo mode.
abbrev pub Closed : Type 0 → Type 0
Closed K = Option (List (CloseIx K))

abbrev pub sol_mint : String
sol_mint = "So11111111111111111111111111111111111111112"

module _ (S : Solana) (C : OnChainAccounts (Solana.Key S)) where
  open S use {Key, parse, to_base58, find_program_address, spl_token_program_id}
  open C use {equals, owner_of, token_accounts, treasury, token_2022_program_id}

  abbrev pub ata : Key → Key → Key → Key
  ata owner mint token_program = associated_token_address_for_program S owner mint token_program

  abbrev pub config_pda : Key → Key
  config_pda program_id = find_program_address (codes "config" ∷ []) program_id

  -- `prependOwnerAtaCreate`
  abbrev pub create_owner_ata : Key → Key → Key → Key → CloseIx Key
  create_owner_ata owner owner_ata mint token_program =
      create_ata_idempotent owner owner_ata owner mint token_program

  abbrev pub is_known_token_program : Key → Bool
  is_known_token_program k = equals k spl_token_program_id || equals k token_2022_program_id

  unfoldable pub resolve_mint_token_program : Key → Closing Key
  resolve_mint_token_program mint = elim (owner_of mint) [
    | none ↦ refused no_mint
    | some program ↦
        if is_known_token_program program then ok program else refused unknown_token_program
  ]

  abbrev pub is_given : String → Bool
  is_given String.[] = false
  is_given _ = true

  unfoldable pub pick_token_program : Option String → Key → Closing Key
  pick_token_program none mint = resolve_mint_token_program mint
  pick_token_program (some cached) mint =
      if is_given cached then key_or bad_key (parse cached) else resolve_mint_token_program mint

  -- An account of the automation that is neither the input's nor at another address than its mint's
  -- associated token account.
  abbrev pub is_dust : Key → Key → Key → Key × Key → Bool
  is_dust pda input_mint token_program account =
      not (equals account.1 input_mint) && equals (ata pda account.1 token_program) account.0

  unfoldable pub dust_of : Key → Key → Key → List (Key × Key) → List (Dust Key)
  dust_of pda input_mint token_program [] = []
  dust_of pda input_mint token_program (a ∷ accounts) =
      let rest = dust_of pda input_mint token_program accounts in
      if is_dust pda input_mint token_program a
      then (record { pda_ata = a.0; mint = a.1; token_program = token_program }) ∷ rest
      else rest

  unfoldable pub collect_pda_dust_atas : Key → Key → List (Dust Key)
  collect_pda_dust_atas pda input_mint =
      dust_of pda input_mint spl_token_program_id (token_accounts pda spl_token_program_id)
      ++ dust_of pda input_mint token_2022_program_id (token_accounts pda token_2022_program_id)

  abbrev pub owner_dust_ata : Key → Dust Key → Key
  owner_dust_ata owner d = ata owner d.mint d.token_program

  -- The loop over the dust: the accounts to create, and the triples of the close instruction.
  unfoldable pub dust_creates : Key → List (Dust Key) → List (CloseIx Key)
  dust_creates owner [] = []
  dust_creates owner (d ∷ ds) =
      create_owner_ata owner (owner_dust_ata owner d) d.mint d.token_program ∷ dust_creates owner ds

  unfoldable pub dust_metas : Key → List (Dust Key) → List (AccountMeta Key)
  dust_metas owner [] = []
  dust_metas owner (d ∷ ds) =
      (record { account = d.pda_ata; is_signer = false; is_writable = true })
      ∷ (record { account = owner_dust_ata owner d; is_signer = false; is_writable = true })
      ∷ (record { account = d.mint; is_signer = false; is_writable = false })
      ∷ dust_metas owner ds

  abbrev pub swap_close_ix : Key → Key → Key → Key → Key → List (AccountMeta Key) → CloseIx Key
  swap_close_ix owner automation program_id input_mint token_program remaining =
      close_automation_swap owner automation (config_pda program_id) treasury input_mint
        (ata owner input_mint token_program) (ata automation input_mint token_program) token_program
        remaining

  unfoldable pub swap_transaction : Key → Key → Key → Key → Key → List (CloseIx Key)
  swap_transaction owner automation program_id input_mint token_program =
      let dust = collect_pda_dust_atas automation input_mint in
      create_owner_ata owner (ata owner input_mint token_program) input_mint token_program
        ∷ dust_creates owner dust
      ++ swap_close_ix owner automation program_id input_mint token_program (dust_metas owner dust)
        ∷ []

  unfoldable pub spl_transaction : Key → Key → Key → Key → Key → List (CloseIx Key)
  spl_transaction owner automation program_id mint token_program =
      create_owner_ata owner (ata owner mint token_program) mint token_program
      ∷ close_automation_spl owner automation (config_pda program_id) treasury mint
          (ata owner mint token_program) (ata automation mint token_program) token_program
      ∷ []

  -- The branches on the action's kind.
  unfoldable pub transaction_for :
      {F : Type 0} → Key → Key → Key → Action F → Closing (List (CloseIx Key))
  transaction_for owner automation program_id (transfer token amount destination) =
      if str_eq token.mint sol_mint
      then ok (close_automation owner automation (config_pda program_id) treasury ∷ [])
      else (key_or bad_key (parse token.mint) >>= λ mint.
          pick_token_program token.token_program mint >>= λ token_program.
          ok (spl_transaction owner automation program_id mint token_program))
  transaction_for owner automation program_id (swap s) =
      key_or bad_key (parse s.input_token.mint) >>= λ input_mint.
      pick_token_program s.input_token.token_program input_mint >>= λ token_program.
      ok (swap_transaction owner automation program_id input_mint token_program)

  -- The account must be owned by the current program.
  unfoldable pub check_owner : String → Key → Key → Closing Key
  check_owner pubkey automation expected = elim (owner_of automation) [
    | none ↦ refused (orphaned pubkey none (to_base58 expected))
    | some actual ↦
        if equals actual expected
        then ok actual
        else refused (orphaned pubkey (some (to_base58 actual)) (to_base58 expected))
  ]

  abbrev pub given_pubkey : Option String → Option String
  given_pubkey none = none
  given_pubkey (some p) = if is_given p then some p else none

  unfoldable pub close_live :
      {F : Type 0} → Key → String → Option (Action F) → Closing (List (CloseIx Key))
  close_live owner pubkey action = key_or no_actions action >>= λ a.
      key_or bad_key (parse pubkey) >>= λ automation.
      key_or not_configured C.program_id >>= λ program_id.
      check_owner pubkey automation program_id >>= λ actual.
      transaction_for owner automation program_id a

  unfoldable pub close_automation_on_chain :
      {F : Type 0} → Option Key → Target F → Closing (Closed Key)
  close_automation_on_chain wallet target = key_or wallet_not_connected wallet >>= λ owner.
      key_or no_pubkey (given_pubkey target.pubkey) >>= λ pubkey.
      if C.is_demo
      then ok none
      else (close_live owner pubkey (head? target.actions) >>= λ tx. ok (some tx))
