-- ===== src/Chain/Close/Owned.antt =====
-- When there is a close transaction: what `close_automation_on_chain` checks before.
use sotama.Chain.Types.{head?, Action}
use sotama.Chain.Solana.{Solana}
use sotama.Chain.Close.{
  not_configured, no_pubkey, no_actions, key_or, given_pubkey, close_live,
  close_automation_on_chain, check_owner, bad_key, CloseError, transaction_for, Target, CloseIx,
  OnChainAccounts, Closing, ok, refused, ◌>>=◌,
}
use sotama.Prelude.{
  none, some, String, Option, Bool, ◌≡◌, true, false, if◌then◌else◌, refl, arith, List,
}

-- A later step that came to a value had an earlier one.
earlier_step :
    {X Y : Type 0} {y : Y} (first : Closing X) (later : X → Closing Y)
    → (first >>= later) ≡ ok y
    → (x : X) × (first ≡ ok x) × (later x ≡ ok y)
earlier_step (refused why) later made = absurd (cc made)
earlier_step (ok x) later made = (x, refl, made)

module _ (S : Solana) (C : OnChainAccounts (Solana.Key S)) where
  open S use {Key, parse}
  open C use {equals, owner_of}

  -- What a transaction stands on.
  pub record IsOwned {F : Type 0} (wallet : Option Key) (target : Target F)
      (tx : List (CloseIx Key)) : Type 0 where
    pub owner : Key
    pub pubkey : String
    pub automation : Key
    pub program_id : Key
    pub actual_owner : Key
    pub action : Action F
    pub is_wallet : wallet ≡ some owner
    pub is_target : target.pubkey ≡ some pubkey
    pub parses : parse pubkey ≡ some automation
    pub is_configured : C.program_id ≡ some program_id
    pub exists : owner_of automation ≡ some actual_owner
    pub is_current : equals actual_owner program_id ≡ true
    pub is_first : head? target.actions ≡ some action
    pub is_built : transaction_for S C owner automation program_id action ≡ ok tx

  key_or-eq-ok :
      {A : Type 0} (e : CloseError) (o : Option A) {a : A} → key_or e o ≡ ok a → o ≡ some a
  key_or-eq-ok e none h = absurd (cc h)
  key_or-eq-ok e (some b) h = ground arith

  given_pubkey-eq-some : (o : Option String) (p : String) → given_pubkey S C o ≡ some p → o ≡ some p
  given_pubkey-eq-some o p h = ground arith

  check_owner-eq-ok :
      (pubkey : String) (automation expected actual : Key)
      → check_owner S C pubkey automation expected ≡ ok actual
      → (owner_of automation ≡ some actual) × (equals actual expected ≡ true)
  unfolding check_owner
  check_owner-eq-ok pubkey automation expected actual h = ground arith

  live-IsOwned :
      {F : Type 0} (target : Target F) (owner : Key) (pubkey : String) (tx : List (CloseIx Key))
      → target.pubkey ≡ some pubkey
      → close_live S C owner pubkey (head? target.actions) ≡ ok tx
      → IsOwned (some owner) target tx
  unfolding close_live
  live-IsOwned target owner pubkey tx e h =
      let (action, a, h1) = earlier_step (key_or no_actions (head? target.actions)) _ h in
      let (automation, b, h2) = earlier_step (key_or bad_key (parse pubkey)) _ h1 in
      let (program_id, c, h3) = earlier_step (key_or not_configured C.program_id) _ h2 in
      let (actual, d, h4) = earlier_step (check_owner S C pubkey automation program_id) _ h3 in
      let (held, same) = check_owner-eq-ok pubkey automation program_id actual d in
      record {
        owner = owner;
        pubkey = pubkey;
        automation = automation;
        program_id = program_id;
        actual_owner = actual;
        action = action;
        is_wallet = refl;
        is_target = e;
        parses = key_or-eq-ok bad_key (parse pubkey) b;
        is_configured = key_or-eq-ok not_configured C.program_id c;
        exists = held;
        is_current = same;
        is_first = key_or-eq-ok no_actions (head? target.actions) a;
        is_built = h4;
      }

  demo-eq-ok :
      (is_demo : Bool) (m : Closing (List (CloseIx Key))) (tx : List (CloseIx Key))
      → (if is_demo then ok none else (m >>= λ t. ok (some t))) ≡ ok (some tx)
      → (is_demo ≡ false) × (m ≡ ok tx)
  demo-eq-ok true m tx h = absurd (cc h)
  demo-eq-ok false (ok t) tx h = (refl, ground arith)
  demo-eq-ok false (refused e) tx h = absurd (cc h)

  -- A transaction is made only with a connected wallet, for the first action of an automation whose
  -- account exists and is owned by the current program.
  pub close_automation_on_chain-IsOwned :
      {F : Type 0} (wallet : Option Key) (target : Target F) (tx : List (CloseIx Key))
      → close_automation_on_chain S C wallet target ≡ ok (some tx)
      → IsOwned wallet target tx
  unfolding close_automation_on_chain
  close_automation_on_chain-IsOwned none target tx h = absurd (cc h)
  close_automation_on_chain-IsOwned (some owner) target tx h =
      let (pubkey, a, h1) = earlier_step (key_or no_pubkey (given_pubkey S C target.pubkey)) _ h in
      let (off, h2) =
        demo-eq-ok C.is_demo (close_live S C owner pubkey (head? target.actions)) tx h1 in
      live-IsOwned target owner pubkey tx
        (given_pubkey-eq-some target.pubkey pubkey (key_or-eq-ok no_pubkey _ a)) h2
