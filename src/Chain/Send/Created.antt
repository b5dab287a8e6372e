-- ===== src/Chain/Send/Created.antt =====
-- The result of `sendChainCreate` in src/lib/linked-chains.ts: the nodes it reports, whatever the
-- logs of the confirmed transactions hold. `found` is what was read from them.
use sotama.Chain.Plan.Inversion.{plan_node-facts}
use sotama.Chain.Wiring.{pda_at, Ctx}
use sotama.Chain.Types.{ChainNodeDraft}
use sotama.Chain.Send.{zip_seeds, derived, created_nodes, Cluster}
use sotama.Chain.Plan.{plan_from, plan, ok-injective, ok, NodePlan, >>=-eq-ok, Network}
use sotama.Chain.Solana.{Solana}
use sotama.Prelude.Num.{Num}
use sotama.Prelude.{
  ◌≢◌, length-map, [], ap, ◌≡◌, ◌∷◌, ◌∙◌, ◌-◌, ◌++◌, zero, take, sym, suc, some, refl, none, map,
  length-take, length-append, length, arith, String, Option, List, ℕ,
}

suc≢zero : {n : ℕ} → suc n ≢ 0
suc≢zero h = omega (arith, h)

module _ (N : Num) (S : Solana) (net : Network (Solana.Key S))
    (cluster : Cluster (Solana.Key S)) where
  open N use {F}
  open S use {Key, to_base58}

  plan_from-length :
      (ctx : Ctx F Key) (i : ℕ) (before : Option (ChainNodeDraft F Key))
      (nodes : List (ChainNodeDraft F Key)) (ps : List (NodePlan Key))
      → plan_from N S net ctx i before nodes ≡ ok ps
      → length ps ≡ length nodes
  unfolding plan_from
  plan_from-length ctx i before [] ps h = ap length (sym (ok-injective h))
  plan_from-length ctx i before (node ∷ nodes) ps h =
      let (first, e1, h1) = >>=-eq-ok _ _ h in
      let (more, e2, h2) = >>=-eq-ok _ _ h1 in
      ap length (sym (ok-injective h2))
      ∙ ap suc (plan_from-length ctx (suc i) (some node) nodes more e2)

  length-derived : (ctx : Ctx F Key) (i k : ℕ) → length (derived N S net cluster ctx i k) ≡ k
  length-derived ctx i zero = refl
  length-derived ctx i (suc k) = ap suc (length-derived ctx (suc i) k)

  zip_seeds-amounts :
      (es : List (String × ℕ)) (ps : List (NodePlan Key))
      → length es ≡ length ps
      → map (λ c. c.seed_amount) (zip_seeds N S net cluster es ps)
        ≡ map (λ p. p.create.seed_amount) ps
  zip_seeds-amounts [] [] h = refl
  zip_seeds-amounts [] (p ∷ ps) h = elim (suc≢zero (sym h)) [ ]
  zip_seeds-amounts (e ∷ es) [] h = refl
  zip_seeds-amounts (e ∷ es) (p ∷ ps) h =
      ap (λ r. p.create.seed_amount ∷ r) (zip_seeds-amounts es ps (omega (arith, h)))

  topped_up-length :
      (ctx : Ctx F Key) (found : List (String × ℕ)) (n : ℕ)
      → length (take n (found ++ derived N S net cluster ctx (length found) (n - length found))) ≡ n
  topped_up-length ctx found n =
      let rest = derived N S net cluster ctx (length found) (n - length found) in
      omega (
        arith,
        length-take n (found ++ rest),
        length-append found rest,
        length-derived ctx (length found) (n - length found),
      )

  -- When the plan succeeds, the result has one entry for each node of the draft, and their seed
  -- amounts are those of the plan in its order, whatever events the logs of the confirmed
  -- transactions hold, too few or too many.
  pub created_nodes-seeds :
      (ctx : Ctx F Key) (ps : List (NodePlan Key)) (found : List (String × ℕ))
      → plan N S net ctx ≡ ok ps
      → (length (created_nodes N S net cluster ctx ps found) ≡ length ctx.nodes)
        × (map (λ c. c.seed_amount) (created_nodes N S net cluster ctx ps found)
            ≡ map (λ p. p.create.seed_amount) ps)
  unfolding plan created_nodes
  created_nodes-seeds ctx ps found made =
      let same = plan_from-length ctx 0 none ctx.nodes ps made in
      let long = topped_up-length ctx found (length ctx.nodes) in
      let seeds = zip_seeds-amounts _ ps (long ∙ sym same) in
      let measured = sym (length-map _ (λ c. c.seed_amount)) ∙ ap length seeds in
      (measured ∙ length-map ps (λ p. p.create.seed_amount) ∙ same, seeds)

  zip_seeds-pubkeys :
      (es : List (String × ℕ)) (ps : List (NodePlan Key))
      → length es ≡ length ps
      → map (λ c. c.pubkey) (zip_seeds N S net cluster es ps) ≡ map (λ e. e.0) es
  zip_seeds-pubkeys [] [] h = refl
  zip_seeds-pubkeys [] (p ∷ ps) h = refl
  zip_seeds-pubkeys (e ∷ es) [] h = elim (suc≢zero h) [ ]
  zip_seeds-pubkeys (e ∷ es) (p ∷ ps) h =
      ap (λ r. e.0 ∷ r) (zip_seeds-pubkeys es ps (omega (arith, h)))

  derived-automations :
      (ctx : Ctx F Key) (i : ℕ) (before : Option (ChainNodeDraft F Key))
      (nodes : List (ChainNodeDraft F Key)) (ps : List (NodePlan Key))
      → plan_from N S net ctx i before nodes ≡ ok ps
      → map (λ e. e.0) (derived N S net cluster ctx i (length nodes))
        ≡ map (λ p. to_base58 p.create.automation) ps
  unfolding plan_from
  derived-automations ctx i before [] ps h =
      ap (map (λ p. to_base58 p.create.automation)) (ok-injective h)
  derived-automations ctx i before (node ∷ nodes) ps h =
      let (first, e1, h1) = >>=-eq-ok _ _ h in
      let (more, e2, h2) = >>=-eq-ok _ _ h1 in
      let facts = plan_node-facts N S net ctx i before node first e1 in
      let rest = derived-automations ctx (suc i) (some node) nodes more e2 in
      let here : to_base58 first.create.automation ≡ to_base58 (pda_at S ctx i) =
        ap to_base58 facts.automation in
      let done = ok-injective h2 in cc (done, rest, here)

  take_all : {A : Type 0} (n : ℕ) (xs : List A) → length xs ≡ n → take n xs ≡ xs
  take_all zero [] h = refl
  take_all zero (x ∷ xs) h = elim (suc≢zero h) [ ]
  take_all (suc n) [] h = refl
  take_all (suc n) (x ∷ xs) h = ap (λ r. x ∷ r) (take_all n xs (omega (arith, h)))

  -- When the plan succeeds and the logs yield no creation event at all, the entries still name the
  -- accounts that the plan creates, in its order.
  pub fallback-addresses :
      (ctx : Ctx F Key) (ps : List (NodePlan Key))
      → plan N S net ctx ≡ ok ps
      → map (λ c. c.pubkey) (created_nodes N S net cluster ctx ps [])
        ≡ map (λ p. to_base58 p.create.automation) ps
  unfolding plan created_nodes
  fallback-addresses ctx ps made =
      let n = length ctx.nodes in
      let known = derived N S net cluster ctx 0 n in
      let whole : n - 0 ≡ n = omega arith in
      let all_of = take_all n known (length-derived ctx 0 n) in
      let same = length-derived ctx 0 n ∙ sym (plan_from-length ctx 0 none ctx.nodes ps made) in
      rw (whole, all_of)
        (zip_seeds-pubkeys known ps same ∙ derived-automations ctx 0 none ctx.nodes ps made)
