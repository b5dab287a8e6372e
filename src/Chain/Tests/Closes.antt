-- ===== src/Chain/Tests/Closes.antt =====
-- The close of a swap automation that holds the input, a bridged token, and an account at another
-- address than its mint's.
use sotama.Prelude.Int.{ℤ, pos}
use sotama.Prelude.Text.{codes, same_text}
use sotama.Chain.Solana.{associated_token_address_for_program}
use sotama.Chain.Types.{swap}
use sotama.Chain.Tests.{flat, solana, usdc, sol}
use sotama.Chain.Close.{
  OnChainAccounts, Target, ok, CloseIx, Dust, create_owner_ata, owner_dust_ata, swap_transaction,
  swap_close_ix, collect_pda_dust_atas, dust_of, close_automation_on_chain, close_live, check_owner,
  transaction_for, pick_token_program, resolve_mint_token_program, AccountMeta,
}
use sotama.Chain.Close.Drained.{IsDust, HasTriple, collected_iff_IsDust, swap_transaction-drains}
use sotama.Chain.Close.Owned.{IsOwned, close_automation_on_chain-IsOwned}
use sotama.Prelude.{
  ◌≡◌, ◌∷◌, ◌++◌, ◌↔◌, ℕ, In, inl, inr, refl, some, false, [], List, Bool, if◌then◌else◌,
}

abbrev Key : Type 0
Key = List (List ℕ)

abbrev owner : Key
owner = codes "me" ∷ []

abbrev automation : Key
automation = codes "pda" ∷ []

abbrev program : Key
program = codes "sotama" ∷ []

abbrev token : Key
token = codes "token" ∷ []

abbrev token22 : Key
token22 = codes "token22" ∷ []

abbrev input : Key
input = codes "USDC" ∷ []

abbrev bridged : Key
bridged = codes "BRG" ∷ []

abbrev dust : Dust Key
dust = record {
  pda_ata = associated_token_address_for_program solana automation bridged token22;
  mint = bridged;
  token_program = token22;
}

abbrev same_key : Key → Key → Bool
same_key a b = same_text (flat a) (flat b)

abbrev accounts : OnChainAccounts Key
accounts = record {
  equals = same_key;
  owner_of = λ k. if same_key k automation then some program else some token;
  token_accounts = λ holder p.
      if same_key p token22
      then (dust.pda_ata, bridged) ∷ (codes "stray" ∷ [], bridged) ∷ []
      else (associated_token_address_for_program solana automation input token, input) ∷ [];
  treasury = codes "treasury" ∷ [];
  program_id = some program;
  token_2022_program_id = token22;
  is_demo = false;
}

abbrev target : Target ℤ
target = record {
  pubkey = some "pda";
  actions =
      swap (record {
        input_token = usdc;
        output_token = sol;
        amount = pos 5;
        consume_upstream_output = false;
      })
      ∷ [];
}

abbrev closing : List (CloseIx Key)
closing = swap_transaction solana accounts owner automation program (codes usdc.mint ∷ []) token

dust-IsDust : IsDust solana accounts automation input dust
unfolding associated_token_address_for_program
dust-IsDust = record {
  held = inl refl;
  in_namespace = inr refl;
  is_foreign = refl;
  is_canonical = refl;
}

collected_iff_IsDust_example :
    In dust (collect_pda_dust_atas solana accounts automation input)
    ↔ IsDust solana accounts automation input dust
collected_iff_IsDust_example = collected_iff_IsDust solana accounts automation input dust

-- Of the three accounts one is dust.
one_dust : collect_pda_dust_atas solana accounts automation input ≡ dust ∷ []
unfolding collect_pda_dust_atas dust_of associated_token_address_for_program
one_dust = refl

swap_transaction-drains_example :
    let tx = swap_transaction solana accounts owner automation program input token in
    In
      (create_owner_ata solana accounts owner
        (owner_dust_ata solana accounts owner dust)
        bridged
        token22)
      tx
    × ((metas : List (AccountMeta Key)) × ((before : List (CloseIx Key)) × (tx
            ≡ before
              ++ swap_close_ix solana accounts owner automation program input token metas ∷ []))
        × HasTriple solana accounts owner dust metas)
swap_transaction-drains_example =
    swap_transaction-drains solana accounts owner automation program input token dust dust-IsDust

closes : close_automation_on_chain solana accounts (some owner) target ≡ ok (some closing)
unfolding close_automation_on_chain close_live check_owner transaction_for pick_token_program
    resolve_mint_token_program
closes = refl

close_automation_on_chain-IsOwned_example : IsOwned solana accounts (some owner) target closing
close_automation_on_chain-IsOwned_example =
    close_automation_on_chain-IsOwned solana accounts (some owner) target closing closes
