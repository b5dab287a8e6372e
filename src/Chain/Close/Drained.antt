-- ===== src/Chain/Close/Drained.antt =====
-- What a close transaction does with the automation's token accounts.
use sotama.Chain.Plan.{token_program}
use sotama.Chain.Solana.{Solana}
use sotama.Chain.Close.{
  swap_transaction, swap_close_ix, owner_dust_ata, dust_metas, dust_creates, create_owner_ata,
  CloseIx, AccountMeta, OnChainAccounts, Dust, ata, is_dust, dust_of, collect_pda_dust_atas,
}
use sotama.Prelude.{
  ◌∙◌, subst, Bool, ◌∷◌, ◌++◌, ◌≡◌, ◌⊎◌, ◌↔◌, In, In-append_left, In-append_right, true, false,
  if◌then◌else◌, refl, sym, ap, inl, inr, arith, Bool-cases, [], List,
}

In-if :
    {A : Type 0} (b : Bool) (d x : A) (rest : List A)
    → In d (if b then x ∷ rest else rest)
    → ((b ≡ true) × (d ≡ x)) ⊎ In d rest
In-if true d x rest (inl e) = inl (refl, e)
In-if true d x rest (inr m) = inr m
In-if false d x rest m = inr m

module _ (S : Solana) (C : OnChainAccounts (Solana.Key S)) where
  open S use {Key, spl_token_program_id}
  open C use {equals, token_accounts, token_2022_program_id}

  -- A token account of the automation, of either token program, that holds another mint than the
  -- input's at the mint's associated address.
  pub record IsDust (pda input_mint : Key) (d : Dust Key) : Type 0 where
    pub held : In (d.pda_ata, d.mint) (token_accounts pda d.token_program)
    pub in_namespace :
        (d.token_program ≡ spl_token_program_id) ⊎ (d.token_program ≡ token_2022_program_id)
    pub is_foreign : equals d.mint input_mint ≡ false
    pub is_canonical : equals (ata S C pda d.mint d.token_program) d.pda_ata ≡ true

  dust_of-In :
      (pda input_mint token_program : Key) (accounts : List (Key × Key)) (d : Dust Key)
      → In d (dust_of S C pda input_mint token_program accounts)
      → In (d.pda_ata, d.mint) accounts
        × (d.token_program ≡ token_program)
        × (is_dust S C pda input_mint token_program (d.pda_ata, d.mint) ≡ true)
  unfolding dust_of
  dust_of-In pda input_mint token_program [] d h = elim h [ ]
  dust_of-In pda input_mint token_program (a ∷ accounts) d h =
      elim (In-if (is_dust S C pda input_mint token_program a) d _ _ h) [
        | inl (yes_dust, e) ↦ (
          inl (ap (λ x. (x.pda_ata, x.mint)) e),
          ap (λ x. x.token_program) e,
          ap (λ x. is_dust S C pda input_mint token_program (x.pda_ata, x.mint)) e ∙ yes_dust,
        )
        | inr m ↦
            let (held, program, dusty) = dust_of-In pda input_mint token_program accounts d m in
            (inr held, program, dusty)
      ]

  In-dust_of :
      (pda input_mint : Key) (accounts : List (Key × Key)) (d : Dust Key)
      → In (d.pda_ata, d.mint) accounts
      → is_dust S C pda input_mint d.token_program (d.pda_ata, d.mint) ≡ true
      → In d (dust_of S C pda input_mint d.token_program accounts)
  unfolding dust_of
  In-dust_of pda input_mint [] d m e = elim m [ ]
  In-dust_of pda input_mint (a ∷ accounts) d (inl same) e =
      rw (sym (ap (is_dust S C pda input_mint d.token_program) same) ∙ e, if◌then◌else◌)
        (inl (ap (λ x. record { pda_ata = x.0; mint = x.1; token_program = d.token_program }) same))
  In-dust_of pda input_mint (a ∷ accounts) d (inr m) e =
      elim (Bool-cases (is_dust S C pda input_mint d.token_program a)) [
        | inl yes_dust ↦
            rw (yes_dust, if◌then◌else◌) (inr (In-dust_of pda input_mint accounts d m e))
        | inr no_dust ↦ rw (no_dust, if◌then◌else◌) (In-dust_of pda input_mint accounts d m e)
      ]

  dusty-IsDust :
      (pda input_mint : Key) (d : Dust Key) (program : Key)
      → (program ≡ spl_token_program_id) ⊎ (program ≡ token_2022_program_id)
      → In d (dust_of S C pda input_mint program (token_accounts pda program))
      → IsDust pda input_mint d
  dusty-IsDust pda input_mint d program known m =
      let (held, same, dusty) =
        dust_of-In pda input_mint program (token_accounts pda program) d m in
      let dusty' : is_dust S C pda input_mint d.token_program (d.pda_ata, d.mint) ≡ true =
        subst (λ p. is_dust S C pda input_mint p (d.pda_ata, d.mint) ≡ true) (sym same) dusty in
      record {
        held = subst (λ p. In (d.pda_ata, d.mint) (token_accounts pda p)) (sym same) held;
        in_namespace =
            subst (λ p. (p ≡ spl_token_program_id) ⊎ (p ≡ token_2022_program_id)) (sym same) known;
        is_foreign = ground arith;
        is_canonical = ground arith;
      }

  In-split : {A : Type 0} (a : A) (xs ys : List A) → In a (xs ++ ys) → In a xs ⊎ In a ys
  In-split a [] ys m = inr m
  In-split a (x ∷ xs) ys (inl e) = inl (inl e)
  In-split a (x ∷ xs) ys (inr m) = elim (In-split a xs ys m) [ inl k ↦ inl (inr k) | inr k ↦ inr k ]

  collected-IsDust :
      (pda input_mint : Key) (d : Dust Key)
      → In d (collect_pda_dust_atas S C pda input_mint)
      → IsDust pda input_mint d
  unfolding collect_pda_dust_atas
  collected-IsDust pda input_mint d m = elim (In-split d _ _ m) [
    | inl k ↦ dusty-IsDust pda input_mint d spl_token_program_id (inl refl) k
    | inr k ↦ dusty-IsDust pda input_mint d token_2022_program_id (inr refl) k
  ]

  In-namespace :
      (pda input_mint program : Key) (d : Dust Key)
      → IsDust pda input_mint d
      → d.token_program ≡ program
      → In d (dust_of S C pda input_mint program (token_accounts pda program))
  In-namespace pda input_mint program d h e =
      subst (λ p. In d (dust_of S C pda input_mint p (token_accounts pda p))) e
        (In-dust_of pda input_mint (token_accounts pda d.token_program) d h.held
          (rw (h.is_foreign, h.is_canonical) refl))

  -- The scan finds exactly the automation's token accounts, of both token programs, that hold another
  -- mint than the input's at that mint's associated address.
  pub collected_iff_IsDust :
      (pda input_mint : Key) (d : Dust Key)
      → In d (collect_pda_dust_atas S C pda input_mint) ↔ IsDust pda input_mint d
  unfolding collect_pda_dust_atas
  collected_iff_IsDust pda input_mint d = (
    collected-IsDust pda input_mint d,
    λ h. elim h.in_namespace [
      | inl e ↦ In-append_left d _ _ (In-namespace pda input_mint spl_token_program_id d h e)
      | inr e ↦
          In-append_right d
            (dust_of S C pda input_mint spl_token_program_id
              (token_accounts pda spl_token_program_id))
            _ (In-namespace pda input_mint token_2022_program_id d h e)
    ],
  )

  -- The three accounts by which the program drains a token account: it, the owner's, and the mint.
  abbrev pub triple : Key → Dust Key → List (AccountMeta Key)
  triple owner d =
      (record { account = d.pda_ata; is_signer = false; is_writable = true })
      ∷ (record { account = owner_dust_ata S C owner d; is_signer = false; is_writable = true })
      ∷ (record { account = d.mint; is_signer = false; is_writable = false })
      ∷ []

  abbrev pub HasTriple : Key → Dust Key → List (AccountMeta Key) → Type 0
  HasTriple owner d metas =
      (before : List (AccountMeta Key)) × ((after : List (AccountMeta Key)) × (metas
          ≡ before ++ triple owner d ++ after))

  metas-HasTriple :
      (owner : Key) (d : Dust Key) (ds : List (Dust Key))
      → In d ds
      → HasTriple owner d (dust_metas S C owner ds)
  unfolding dust_metas
  metas-HasTriple owner d (x ∷ ds) (inl e) =
      ([], (dust_metas S C owner ds, ap (λ y. triple owner y ++ dust_metas S C owner ds) (sym e)))
  metas-HasTriple owner d (x ∷ ds) (inr m) =
      let (before, (after, e)) = metas-HasTriple owner d ds m in
      (triple owner x ++ before, (after, ap (λ r. triple owner x ++ r) e))
  metas-HasTriple owner d [] m = elim m [ ]

  In-dust_creates :
      (owner : Key) (d : Dust Key) (ds : List (Dust Key))
      → In d ds
      → In
          (create_owner_ata S C owner (owner_dust_ata S C owner d) d.mint d.token_program)
          (dust_creates S C owner ds)
  unfolding dust_creates
  In-dust_creates owner d (x ∷ ds) (inl e) =
      inl
        (ap (λ y. create_owner_ata S C owner (owner_dust_ata S C owner y) y.mint y.token_program) e)
  In-dust_creates owner d (x ∷ ds) (inr m) = inr (In-dust_creates owner d ds m)
  In-dust_creates owner d [] m = elim m [ ]

  -- For every foreign token account that the automation holds at its canonical associated address
  -- (`IsDust`), the transaction that closes a swap automation creates the owner's account of that
  -- mint, and its last instruction drains the account into it.
  pub swap_transaction-drains :
      (owner automation program_id input_mint token_program : Key) (d : Dust Key)
      → IsDust automation input_mint d
      → let tx = swap_transaction S C owner automation program_id input_mint token_program in
        In (create_owner_ata S C owner (owner_dust_ata S C owner d) d.mint d.token_program) tx
        × ((metas : List (AccountMeta Key)) × ((before : List (CloseIx Key)) × (tx
                ≡ before
                  ++ swap_close_ix S C owner automation program_id input_mint token_program metas
                    ∷ []))
            × HasTriple owner d metas)
  unfolding swap_transaction
  swap_transaction-drains owner automation program_id input_mint token_program d h =
      let m = (collected_iff_IsDust automation input_mint d).1 h in
      let dust = collect_pda_dust_atas S C automation input_mint in
      (
        inr (In-append_left _ (dust_creates S C owner dust) _ (In-dust_creates owner d dust m)),
        (
          dust_metas S C owner dust,
          (
            create_owner_ata S C owner (ata S C owner input_mint token_program) input_mint
                  token_program
                ∷ dust_creates S C owner dust,
            refl,
          ),
          metas-HasTriple owner d dust m,
        ),
      )
