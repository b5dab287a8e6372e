-- ===== src/Chain/Send/Trace.antt =====
-- The order in which `sendChainCreate` of src/lib/linked-chains.ts submits its transactions, and
-- when it returns a result rather than throwing.
use sotama.Prelude.Int.{pos, ltb_ℤ}
use sotama.Prelude.{
  ap, ◌<◌, ◌+◌, take, sym, ◌∙◌, suc, zero, String, ℕ, zero, suc, Bool, true, false, ◌&&◌, List, [],
  ◌∷◌, ◌++◌, map, ◌≡◌, refl, Bool-cases, if◌then◌else◌, length, length-map, arith, inl, inr,
}
use sotama.Prelude.Num.{Num}
use sotama.Chain.Solana.{Solana}
use sotama.Chain.Wiring.{Ctx}
use sotama.Chain.Plan.{NodePlan, Network}
use sotama.Chain.OnChain.{CreateLinked}
use sotama.Chain.Plan.{plan, ok}
use sotama.Chain.Send.{
  send_chain_create, send_planned, estimated_sol_needed, Tx, setup_tx, create_tx, Answer, landed,
  thrown, unprepared, Fetched, parsed, unread, events_of, Cluster, Sent, created, failed, Step,
  done, stop, batches, setup_of, creates_of, tx_count, send_batches, send_all, finish, is_empty,
}
use sotama.Chain.Send.Batches.{length-batches}

-- The transactions of a plan: the setup, where it is not empty, before the batches of rules.
abbrev pub transactions : {K : Type 0} → List (NodePlan K) → List (Tx K)
transactions ps =
    (if is_empty (setup_of ps) then [] else setup_tx (setup_of ps) ∷ [])
    ++ map create_tx (batches (creates_of ps))

-- One after the other until one throws. The one that throws was handed to the wallet too, unless
-- its blockhash was not there.
unfoldable pub submitted : {K : Type 0} → (ℕ → Answer) → ℕ → List (Tx K) → List (Tx K)
submitted answer n [] = []
submitted answer n (t ∷ ts) =
    let rest = submitted answer (suc n) ts in
    elim (answer n) [ landed sig ↦ t ∷ rest | thrown msg ↦ t ∷ [] | unprepared msg ↦ [] ]

abbrev pub is_landed : Answer → Bool
is_landed (landed sig) = true
is_landed (thrown msg) = false
is_landed (unprepared msg) = false

-- the signatures under which the `k` transactions after `n` others are confirmed
unfoldable pub signatures : (ℕ → Answer) → ℕ → ℕ → List String
signatures answer n zero = []
signatures answer n (suc k) =
    let rest = signatures answer (suc n) k in
    elim (answer n) [ landed sig ↦ sig ∷ rest | thrown msg ↦ rest | unprepared msg ↦ rest ]

abbrev is_read : {K : Type 0} → Fetched K → Bool
is_read (parsed es) = true
is_read (unread msg) = false

-- `getTransaction` succeeds for each of these.
abbrev pub all_read : {K : Type 0} → (String → Fetched K) → List String → Bool
all_read events [] = true
all_read events (sig ∷ sigs) = is_read (events sig) && all_read events sigs

-- The `k` transactions after `n` others are all confirmed.
unfoldable pub all_landed : (ℕ → Answer) → ℕ → ℕ → Bool
all_landed answer n zero = true
all_landed answer n (suc k) = is_landed (answer n) && all_landed answer (suc n) k

abbrev pub was_created : Sent → Bool
was_created (created r) = true
was_created (failed e) = false

abbrev is_done : {A : Type 0} → Step A → Bool
is_done (done a) = true
is_done (stop e) = false

length-transactions : {K : Type 0} (ps : List (NodePlan K)) → length (transactions ps) ≡ tx_count ps
unfolding tx_count
length-transactions ps =
    let halves = length-batches (creates_of ps) in
    let mapped = length-map (batches (creates_of ps)) create_tx in
    elim (Bool-cases (is_empty (setup_of ps))) [
      | inl e ↦ rw e (omega (arith, halves, mapped))
      | inr e ↦ rw e (omega (arith, halves, mapped))
    ]

send_batches-trace :
    {K : Type 0} (answer : ℕ → Answer) (b : Bool) (n : ℕ) (bs : List (List (CreateLinked K)))
    → (send_batches answer b n bs).0 ≡ submitted answer n (map create_tx bs)
unfolding send_batches submitted
send_batches-trace answer b n [] = refl
send_batches-trace answer b n (x ∷ xs) =
    let rest = send_batches-trace answer false (suc n) xs in ground arith

send_batches-done :
    {K : Type 0} (answer : ℕ → Answer) (b : Bool) (n : ℕ) (bs : List (List (CreateLinked K)))
    → is_done (send_batches answer b n bs).1 ≡ all_landed answer n (length bs)
unfolding send_batches all_landed
send_batches-done answer b n [] = refl
send_batches-done answer b n (x ∷ xs) =
    let rest = send_batches-done answer false (suc n) xs in ground arith

abbrev list_of : Step (List String) → List String
list_of (done sigs) = sigs
list_of (stop e) = []

send_batches-signatures :
    {K : Type 0} (answer : ℕ → Answer) (b : Bool) (n : ℕ) (bs : List (List (CreateLinked K)))
    → is_done (send_batches answer b n bs).1 ≡ true
    → list_of (send_batches answer b n bs).1 ≡ signatures answer n (length bs)
unfolding send_batches signatures
send_batches-signatures answer b n [] h = refl
send_batches-signatures answer b n (x ∷ xs) h =
    let rest = send_batches-signatures answer false (suc n) xs in ground arith

submitted-cut :
    {K : Type 0} (answer : ℕ → Answer) (n k : ℕ) (ts : List (Tx K)) (message : String)
    → k < length ts
    → all_landed answer n k ≡ true
    → answer (n + k) ≡ thrown message
    → submitted answer n ts ≡ take (suc k) ts
unfolding submitted all_landed
submitted-cut answer n k [] message inside before here = ground arith
submitted-cut answer n zero (t ∷ ts) message inside before here =
    let e : n + 0 ≡ n = omega arith in
    let now : answer n ≡ thrown message = ap answer (sym e) ∙ here in ground arith
submitted-cut answer n (suc k) (t ∷ ts) message inside before here =
    let e : suc n + k ≡ n + suc k = omega arith in
    let rest =
      submitted-cut answer (suc n) k ts message (omega arith) (ground arith) (ap answer e ∙ here) in
    ground arith

all_landed-cut :
    (answer : ℕ → Answer) (n k m : ℕ) (message : String)
    → k < m
    → all_landed answer n k ≡ true
    → answer (n + k) ≡ thrown message
    → all_landed answer n m ≡ false
unfolding all_landed
all_landed-cut answer n k zero message inside before here = ground arith
all_landed-cut answer n zero (suc m) message inside before here =
    let e : n + 0 ≡ n = omega arith in
    let now : answer n ≡ thrown message = ap answer (sym e) ∙ here in ground arith
all_landed-cut answer n (suc k) (suc m) message inside before here =
    let e : suc n + k ≡ n + suc k = omega arith in
    let rest =
      all_landed-cut answer (suc n) k m message (omega arith) (ground arith) (ap answer e ∙ here) in
    ground arith

add_zero-left : (k : ℕ) → 0 + k ≡ k
add_zero-left k = omega arith

module _ (N : Num) (S : Solana) (net : Network (Solana.Key S))
    (cluster : Cluster (Solana.Key S)) where
  open N use {F}
  open S use {Key}
  open cluster use {balance, answer, events}

  events_of-done :
      (sigs : List String) → is_done (events_of N S net cluster sigs) ≡ all_read events sigs
  unfolding events_of
  events_of-done [] = refl
  events_of-done (sig ∷ sigs) = let rest = events_of-done sigs in ground arith

  finish-read :
      (ctx : Ctx F Key) (ps : List (NodePlan Key)) (sigs : List String)
      → was_created (finish N S net cluster ctx ps (done sigs)) ≡ all_read events sigs
  finish-read ctx ps sigs = let read = events_of-done sigs in ground arith

  finish-created :
      (ctx : Ctx F Key) (ps : List (NodePlan Key)) (outcome : Step (List String)) (b : Bool)
      (sigs : List String)
      → is_done outcome ≡ b
      → ((found : List String) → outcome ≡ done found → found ≡ sigs)
      → was_created (finish N S net cluster ctx ps outcome) ≡ (b && all_read events sigs)
  finish-created ctx ps (done found) b sigs e same =
      rw (sym e, sym (same found refl)) (finish-read ctx ps found)
  finish-created ctx ps (stop error) b sigs e same = rw (sym e) refl

  -- What the batches of a plan come to, when `n` transactions went before them.
  finish-batches :
      (ctx : Ctx F Key) (ps : List (NodePlan Key)) (n : ℕ)
      → let bs = batches (creates_of ps) in
        was_created (finish N S net cluster ctx ps (send_batches answer true n bs).1)
        ≡ (all_landed answer n (length bs) && all_read events (signatures answer n (length bs)))
  finish-batches ctx ps n =
      finish-created ctx ps _ _ _ (send_batches-done answer true n (batches (creates_of ps)))
        λ found e.
          sym (ap list_of e)
          ∙ send_batches-signatures answer true n (batches (creates_of ps)) (ap is_done e)

  -- What is handed to the wallet for a plan, and whether the code returns, once the balance suffices.
  -- It returns when every transaction is confirmed and `getTransaction` succeeds for every batch.
  pub record RunsThrough (ctx : Ctx F Key) (ps : List (NodePlan Key)) (run : List (Tx Key) × Sent)
      : Type 0 where
    pub trace : run.0 ≡ submitted answer 0 (transactions ps)
    pub result : was_created run.1 ≡ (
        all_landed answer 0 (length (transactions ps))
        && all_read events (
            signatures answer
              (if is_empty (setup_of ps) then 0 else 1)
              (length (batches (creates_of ps)))))

  send_all-runs :
      (ctx : Ctx F Key) (ps : List (NodePlan Key))
      → RunsThrough ctx ps (send_all N S net cluster ctx ps)
  unfolding send_all submitted all_landed
  send_all-runs ctx ps =
      let trace0 = send_batches-trace answer true 0 (batches (creates_of ps)) in
      let trace1 = send_batches-trace answer true 1 (batches (creates_of ps)) in
      let mapped = length-map (batches (creates_of ps)) create_tx in
      let ret0 = finish-batches ctx ps 0 in
      let ret1 = finish-batches ctx ps 1 in record { trace = ground arith; result = ground arith }

  -- When the plan succeeds and the balance covers the estimate, exactly the transactions of the plan
  -- are handed to the wallet, the setup first and the batches in order, up to and with the first that
  -- throws, or up to one whose blockhash cannot be fetched. A result is returned exactly if every one
  -- of them is confirmed and the confirmed transaction of every batch can then be fetched.
  pub submits_in_order :
      (ctx : Ctx F Key) (ps : List (NodePlan Key))
      → plan N S net ctx ≡ ok ps
      → ltb_ℤ (pos balance) (estimated_sol_needed ps) ≡ false
      → RunsThrough ctx ps (send_chain_create N S net cluster ctx)
  unfolding send_chain_create send_planned
  submits_in_order ctx ps made enough =
      rw (made, send_chain_create, enough, if◌then◌else◌) (send_all-runs ctx ps)

  -- When the plan succeeds and the balance covers the estimate, and the `k` transactions before one
  -- of the plan's are confirmed but that one throws, exactly those `k + 1` have been handed to the
  -- wallet and the code throws: no rule of a later batch is ever sent.
  pub stops_at_first_throw :
      (ctx : Ctx F Key) (ps : List (NodePlan Key)) (k : ℕ) (message : String)
      → plan N S net ctx ≡ ok ps
      → ltb_ℤ (pos balance) (estimated_sol_needed ps) ≡ false
      → k < tx_count ps
      → all_landed answer 0 k ≡ true
      → answer k ≡ thrown message
      → ((send_chain_create N S net cluster ctx).0 ≡ take (suc k) (transactions ps))
        × (was_created (send_chain_create N S net cluster ctx).1 ≡ false)
  stops_at_first_throw ctx ps k message made enough inside before here =
      let runs = submits_in_order ctx ps made enough in
      let within : k < length (transactions ps) = omega (arith, length-transactions ps) in
      let first : answer (0 + k) ≡ thrown message = rw (add_zero-left k) here in
      (
        runs.trace ∙ submitted-cut answer 0 k (transactions ps) message within before first,
        runs.result
            ∙ rw (all_landed-cut answer 0 k (length (transactions ps)) message within before first)
                refl,
      )
