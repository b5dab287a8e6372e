-- ===== src/Chain/Send.antt =====
-- The sending half of `sendChainCreate` in src/lib/linked-chains.ts: the balance check, the setup
-- transaction, the create transactions in batches, and the pairing of the created accounts with the
-- nodes. The wallet and the cluster answer by `Cluster`; the transactions that are handed to the
-- wallet to sign are returned as a trace beside the result. The blockhash that `sendChainCreate`
-- fetches for the first batch counts to that batch; a chain without rules, which has no batch,
-- fetches one too, and that call is not modelled.
pub mod Batches
pub mod Trace
pub mod Created
use sotama.Prelude.Text.{has_infix, codes}
use sotama.Prelude.{
  ℕ, zero, suc, ◌+◌, ◌-◌, ◌*◌, ◌/◌, String, Bool, true, false, ◌||◌, Option, none, some, List, [],
  ◌∷◌, ◌++◌, map, ◌==◌, ltb, if◌then◌else◌, length, take, drop, str_eq, or_default,
}
use sotama.Prelude.Int.{ℤ, pos, ◌+ℤ◌, ◌-ℤ◌, ltb_ℤ}
use sotama.Prelude.Num.{Num}
use sotama.Chain.Types.{ChainNodeDraft}
use sotama.Chain.Solana.{Solana}
use sotama.Chain.Wiring.{Ctx, pda_at}
use sotama.Chain.OnChain.{CreateLinked, SetupIx}
use sotama.Chain.Plan.{BuildError, NodePlan, Network, Built, ok, err, plan}

pub data Tx (K : Type 0) : Type 0 where
  setup_tx : List (SetupIx K) → Tx K
  create_tx : List (CreateLinked K) → Tx K

-- What comes of one transaction: it is signed, submitted and confirmed under a signature; one of
-- these throws a message; or `getLatestBlockhash` throws before, and the wallet never sees it.
pub data Answer : Type 0 where
  landed : (signature : String) → Answer
  thrown : (message : String) → Answer
  unprepared : (message : String) → Answer

-- An event that Anchor's `EventParser` reads from a transaction's logs.
pub record LogEvent (K : Type 0) : Type 0 where
  pub name : String
  pub automation : Option K
  pub pubkey : Option K
  pub nonce : ℕ

-- `getTransaction` of a confirmed transaction, with its logs parsed, or what it throws.
pub data Fetched (K : Type 0) : Type 0 where
  parsed : List (LogEvent K) → Fetched K
  unread : (message : String) → Fetched K

pub record Cluster (K : Type 0) : Type 0 where
  -- the owner's balance when the plan is ready
  pub balance : ℕ
  -- the answer to the transaction submitted after `n` others
  pub answer : ℕ → Answer
  pub events : String → Fetched K

pub data SendError : Type 0 where
  build_failed : BuildError → SendError
  not_enough_sol : (needed : ℤ) (balance : ℕ) → SendError
  sequence_number_taken : SendError
  rethrown : String → SendError

pub record CreatedNode : Type 0 where
  pub pubkey : String
  pub nonce : ℕ
  pub seed_amount : ℤ

pub record ChainCreateResult : Type 0 where
  pub signature : Option String
  pub nodes : List CreatedNode

pub data Sent : Type 0 where
  created : ChainCreateResult → Sent
  failed : SendError → Sent

abbrev pub ata_rent_lamports : ℕ
ata_rent_lamports = 2039280

abbrev pub tx_fee_lamports : ℕ
tx_fee_lamports = 5000

-- `chainIxs.slice(i, i + CHAIN_BATCH_SIZE)` for i = 0, 2, 4, …
unfoldable pub batches {ℓ} : {A : Type ℓ} → List A → List (List A)
batches [] = []
batches (x ∷ []) = (x ∷ []) ∷ []
batches (x ∷ y ∷ rest) = (x ∷ y ∷ []) ∷ batches rest

abbrev pub setup_of : {K : Type 0} → List (NodePlan K) → List (SetupIx K)
setup_of [] = []
setup_of (p ∷ ps) = p.setup ++ setup_of ps

abbrev pub creates_of : {K : Type 0} → List (NodePlan K) → List (CreateLinked K)
creates_of ps = map (λ p. p.create) ps

abbrev total_time_fee : {K : Type 0} → List (NodePlan K) → ℕ
total_time_fee [] = 0
total_time_fee (p ∷ ps) = p.time_fee + total_time_fee ps

abbrev total_wrap : {K : Type 0} → List (NodePlan K) → ℤ
total_wrap [] = pos 0
total_wrap (p ∷ ps) = p.wrap_lamports +ℤ total_wrap ps

abbrev pub is_empty : {A : Type 0} → List A → Bool
is_empty [] = true
is_empty (x ∷ xs) = false

-- `Math.ceil(chainIxs.length / 2)`, and one more transaction for a setup that is not empty
unfoldable pub tx_count : {K : Type 0} → List (NodePlan K) → ℕ
tx_count ps = (if is_empty (setup_of ps) then 0 else 1) + (length (creates_of ps) + 1) / 2

unfoldable pub estimated_sol_needed : {K : Type 0} → List (NodePlan K) → ℤ
unfolding tx_count
estimated_sol_needed ps =
    pos
      (total_time_fee ps + ata_rent_lamports * length (setup_of ps) + tx_fee_lamports * tx_count ps)
    +ℤ total_wrap ps

-- the messages by which a reused sequence number shows
unfoldable pub is_nonce_race : String → Bool
is_nonce_race msg =
    has_infix (codes "already in use") (codes msg)
    || (has_infix (codes "0x0") (codes msg) || has_infix (codes "AlreadyInitialized") (codes msg))

-- A trace, newest last, and what the code goes on with.
pub data Step (A : Type 0) : Type 0 where
  done : A → Step A
  stop : SendError → Step A

-- what the `catch` around the batches throws
abbrev caught : String → SendError
caught msg = if is_nonce_race msg then sequence_number_taken else rethrown msg

-- The loop over the batches; `sent` counts the transactions submitted before. The signatures are
-- collected in order. The blockhash of the first batch is fetched outside of the `try`.
unfoldable pub send_batches :
    {K : Type 0}
    → (ℕ → Answer)
    → (is_first : Bool) → ℕ
    → List (List (CreateLinked K))
    → List (Tx K) × Step (List String)
send_batches answer is_first sent [] = ([], done [])
send_batches answer is_first sent (b ∷ bs) =
    let rest = send_batches answer false (suc sent) bs in
    elim (answer sent) [
      | thrown msg ↦ (create_tx b ∷ [], stop (caught msg))
      | unprepared msg ↦ ([], stop (if is_first then rethrown msg else caught msg))
      | landed sig ↦
          (create_tx b ∷ rest.0, elim rest.1 [ stop e ↦ stop e | done sigs ↦ done (sig ∷ sigs) ])
    ]

abbrev pub last? : List String → Option String
last? [] = none
last? (x ∷ []) = some x
last? (x ∷ y ∷ r) = last? (y ∷ r)

-- `parseAllAutomationCreated`: `data.automation ?? data.pubkey`, and an event with neither is skipped
abbrev first_of_two : {K : Type 0} → Option K → Option K → Option K
first_of_two none b = b
first_of_two (some a) b = some a

unfoldable pub parse_all_automation_created :
    {K : Type 0} → (K → String) → List (LogEvent K) → List (String × ℕ)
parse_all_automation_created to_base58 [] = []
parse_all_automation_created to_base58 (e ∷ es) =
    let rest = parse_all_automation_created to_base58 es in
    if str_eq e.name "AutomationCreated" || str_eq e.name "automationCreated"
    then (elim (first_of_two e.automation e.pubkey) [
      | none ↦ rest
      | some key ↦ (to_base58 key, e.nonce) ∷ rest
    ])
    else rest

module _ (N : Num) (S : Solana) (net : Network (Solana.Key S))
    (cluster : Cluster (Solana.Key S)) where
  open N use {F}
  open S use {Key, to_base58}
  open cluster use {balance, answer, events}

  -- the logs of every batch in turn, up to the first that cannot be fetched
  unfoldable pub events_of : List String → Step (List (String × ℕ))
  unfolding parse_all_automation_created
  events_of [] = done []
  events_of (sig ∷ sigs) =
      let rest = events_of sigs in
      elim (events sig) [
        | unread msg ↦ stop (rethrown msg)
        | parsed es ↦ elim rest [
          | stop e ↦ stop e
          | done more ↦ done (parse_all_automation_created to_base58 es ++ more)
        ]
      ]

  -- the derived addresses of the nodes from index `i` on, `k` of them
  abbrev pub derived : Ctx F Key → ℕ → ℕ → List (String × ℕ)
  derived ctx i zero = []
  derived ctx i (suc k) = (to_base58 (pda_at S ctx i), ctx.start_nonce + i) ∷ derived ctx (suc i) k

  abbrev pub zip_seeds : List (String × ℕ) → List (NodePlan Key) → List CreatedNode
  zip_seeds ((pubkey, nonce) ∷ es) (p ∷ ps) =
      record { pubkey = pubkey; nonce = nonce; seed_amount = p.create.seed_amount }
      ∷ zip_seeds es ps
  zip_seeds _ _ = []

  -- The parsed events, topped up with derived addresses where there are too few, and cut to the
  -- number of nodes.
  unfoldable pub created_nodes :
      Ctx F Key → List (NodePlan Key) → List (String × ℕ) → List CreatedNode
  created_nodes ctx ps found =
      let n = length ctx.nodes in
      zip_seeds (take n (found ++ derived ctx (length found) (n - length found))) ps

  abbrev pub finish : Ctx F Key → List (NodePlan Key) → Step (List String) → Sent
  finish ctx ps (stop e) = failed e
  finish ctx ps (done sigs) = elim (events_of sigs) [
    | stop e ↦ failed e
    | done found ↦ created (record { signature = last? sigs; nodes = created_nodes ctx ps found })
  ]

  abbrev send_creates : Ctx F Key → List (NodePlan Key) → ℕ → List (Tx Key) × Sent
  send_creates ctx ps sent =
      let (trace, outcome) = send_batches answer true sent (batches (creates_of ps)) in
      (trace, finish ctx ps outcome)

  -- The setup transaction, where there is one, and the create transactions.
  unfoldable pub send_all : Ctx F Key → List (NodePlan Key) → List (Tx Key) × Sent
  unfolding send_batches batches events_of created_nodes
  send_all ctx ps = if is_empty (setup_of ps) then send_creates ctx ps 0 else (elim (answer 0) [
    | thrown msg ↦ (setup_tx (setup_of ps) ∷ [], failed (rethrown msg))
    | unprepared msg ↦ ([], failed (rethrown msg))
    | landed sig ↦
        let (trace, outcome) = send_creates ctx ps 1 in (setup_tx (setup_of ps) ∷ trace, outcome)
  ])

  unfoldable pub send_planned : Ctx F Key → List (NodePlan Key) → List (Tx Key) × Sent
  unfolding estimated_sol_needed
  send_planned ctx ps =
      if ltb_ℤ (pos balance) (estimated_sol_needed ps)
      then ([], failed (not_enough_sol (estimated_sol_needed ps) balance))
      else send_all ctx ps

  unfoldable pub send_chain_create : Ctx F Key → List (Tx Key) × Sent
  unfolding send_planned
  send_chain_create ctx = elim (plan N S net ctx) [
    | err e ↦ ([], failed (build_failed e))
    | ok ps ↦ send_planned ctx ps
  ]
