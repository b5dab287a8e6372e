-- ===== src/Chain/Validate.antt =====
-- `validateChainDraft` of src/lib/linked-chains.ts.
use sotama.Prelude.{
  ℕ, zero, suc, ◌+◌, ◌<◌, Bool, true, false, Option, none, some, List, [], ◌∷◌, ◌≡◌, ◌↔◌, refl,
  arith, ◌==◌, if◌then◌else◌, get_elem?, Option-cases, Bool-cases, ◌⊎◌, inl, inr,
}
use sotama.Chain.Types.{
  Trigger, price_relative_to_fill, Action, transfer, swap, SwapAction, ChainNodeDraft, head?,
  first_swap,
}

-- `head_must_have_seed_amount` is declared in the source and never returned.
pub data ChainValidationError : Type 0 where
  non_swap_action : ℕ → ChainValidationError
  head_must_have_seed_amount : ℕ → ChainValidationError
  price_relative_to_fill_requires_chain_position : ℕ → ChainValidationError
  price_relative_to_fill_requires_consume_upstream : ℕ → ChainValidationError

-- `!(!action || action.kind !== "swap" || actions.length !== 1)`
abbrev pub is_single_swap : {F : Type 0} → List (Action F) → Bool
is_single_swap (swap s ∷ []) = true
is_single_swap _ = false

-- the first loop, from the node with index `i` on
check_actions : {F K : Type 0} → ℕ → List (ChainNodeDraft F K) → Option ChainValidationError
check_actions i [] = none
check_actions i (node ∷ nodes) =
    let rest = check_actions (suc i) nodes in
    if is_single_swap node.result.actions then rest else some (non_swap_action i)

-- `trigger.kind === "price_relative_to_fill"`
abbrev pub is_fill : {F K : Type 0} → Option (Trigger F K) → Bool
is_fill (some (price_relative_to_fill u d p)) = true
is_fill _ = false

-- `action?.kind === "swap" && action.consumeUpstreamOutput === true`
abbrev pub consumes : {F : Type 0} → Option (SwapAction F) → Bool
consumes none = false
consumes (some s) = s.consume_upstream_output

-- The last loop. The loop between the two only continues, and has no effect.
check_fill : {F K : Type 0} → ℕ → List (ChainNodeDraft F K) → Option ChainValidationError
check_fill i [] = none
check_fill i (node ∷ nodes) =
    let rest = check_fill (suc i) nodes in
    if is_fill (head? node.result.triggers)
    then (if i == 0
        then some (price_relative_to_fill_requires_chain_position i)
        else if consumes (first_swap node.result)
        then rest
        else some (price_relative_to_fill_requires_consume_upstream i))
    else rest

abbrev or_else :
    Option ChainValidationError → Option ChainValidationError → Option ChainValidationError
or_else none e = e
or_else (some e) _ = some e

unfoldable pub validate_chain_draft :
    {F K : Type 0} → List (ChainNodeDraft F K) → Option ChainValidationError
unfolding check_actions check_fill
validate_chain_draft nodes = or_else (check_actions 0 nodes) (check_fill 0 nodes)

-- What the keeper relies on, of the node at index `i`.
pub record IsWellFormed {F K : Type 0} (i : ℕ) (node : ChainNodeDraft F K) : Type 0 where
  pub single_swap : (s : SwapAction F) × (node.result.actions ≡ swap s ∷ [])
  pub fill_has_upstream : is_fill (head? node.result.triggers) ≡ true → 0 < i
  pub fill_consumes :
      is_fill (head? node.result.triggers) ≡ true → consumes (first_swap node.result) ≡ true

abbrev pub WellFormedFrom : {F K : Type 0} → ℕ → List (ChainNodeDraft F K) → Type 0
WellFormedFrom i [] = Unit
WellFormedFrom i (node ∷ nodes) = IsWellFormed i node × WellFormedFrom (suc i) nodes

single_swap_of :
    {F : Type 0} (actions : List (Action F))
    → is_single_swap actions ≡ true
    → (s : SwapAction F) × (actions ≡ swap s ∷ [])
single_swap_of [] h = cc
single_swap_of (transfer t a d ∷ more) h = cc
single_swap_of (swap s ∷ []) h = (s, refl)
single_swap_of (swap s ∷ a ∷ more) h = cc

module _ {F K : Type 0} where
  checks_sound :
      (i : ℕ) (nodes : List (ChainNodeDraft F K))
      → check_actions i nodes ≡ none
      → check_fill i nodes ≡ none
      → WellFormedFrom i nodes
  unfolding check_actions check_fill
  checks_sound i [] ha hf = tt
  checks_sound i (node ∷ nodes) ha hf = (
    record {
      single_swap = single_swap_of node.result.actions (ground arith);
      fill_has_upstream = ground arith;
      fill_consumes = ground arith;
    },
    checks_sound (suc i) nodes (ground arith) (ground arith),
  )

  checks_complete :
      (i : ℕ) (nodes : List (ChainNodeDraft F K))
      → WellFormedFrom i nodes
      → (check_actions i nodes ≡ none) × (check_fill i nodes ≡ none)
  unfolding check_actions check_fill
  checks_complete i [] h = (refl, refl)
  checks_complete i (node ∷ nodes) h = ground (arith, checks_complete (suc i) nodes)

  -- A draft is accepted exactly when every node's only action is one swap, and every node whose
  -- first trigger compares with an upstream fill is not the first node and consumes the output of
  -- its upstream rule.
  pub accepts_iff_WellFormed :
      (nodes : List (ChainNodeDraft F K))
      → (validate_chain_draft nodes ≡ none) ↔ WellFormedFrom 0 nodes
  unfolding validate_chain_draft
  accepts_iff_WellFormed nodes = (
    λ h. checks_sound 0 nodes (ground arith) (ground arith),
    λ h. ground (arith, checks_complete 0 nodes h),
  )

abbrev pub FirstBadAction : {F K : Type 0} → ℕ → List (ChainNodeDraft F K) → Type 0
FirstBadAction k [] = ⊥
FirstBadAction zero (node ∷ nodes) = is_single_swap node.result.actions ≡ false
FirstBadAction (suc k) (node ∷ nodes) =
    (is_single_swap node.result.actions ≡ true) × FirstBadAction k nodes

-- What an error says of the draft.
abbrev pub Blames : {F K : Type 0} → ChainValidationError → List (ChainNodeDraft F K) → Type 0
Blames (non_swap_action k) nodes = FirstBadAction k nodes
Blames (head_must_have_seed_amount k) nodes = ⊥
Blames {F} {K} (price_relative_to_fill_requires_chain_position k) nodes =
    (k ≡ 0)
    × ((node : ChainNodeDraft F K) × (get_elem? nodes k ≡ some node)
        × (is_fill (head? node.result.triggers) ≡ true))
Blames {F} {K} (price_relative_to_fill_requires_consume_upstream k) nodes =
    (0 < k)
    × ((node : ChainNodeDraft F K) × (get_elem? nodes k ≡ some node)
        × (is_fill (head? node.result.triggers) ≡ true)
        × (consumes (first_swap node.result) ≡ false))

-- Where and why the last loop, started at index `i`, returns `e`.
abbrev FillFault : {F K : Type 0} → ℕ → List (ChainNodeDraft F K) → ChainValidationError → Type 0
FillFault {F} {K} i nodes e =
    (k : ℕ) × (node : ChainNodeDraft F K) × (get_elem? nodes k ≡ some node)
    × (is_fill (head? node.result.triggers) ≡ true)
    × (((i + k ≡ 0) × (e ≡ price_relative_to_fill_requires_chain_position (i + k)))
        ⊎ ((0 < i + k)
            × (consumes (first_swap node.result) ≡ false)
            × (e ≡ price_relative_to_fill_requires_consume_upstream (i + k))))

module _ {F K : Type 0} where
  check_actions-locates :
      (i : ℕ) (nodes : List (ChainNodeDraft F K)) (e : ChainValidationError)
      → check_actions i nodes ≡ some e
      → (k : ℕ) × (e ≡ non_swap_action (i + k)) × FirstBadAction k nodes
  unfolding check_actions
  check_actions-locates i [] e h = cc
  check_actions-locates i (node ∷ nodes) e h =
      elim (Bool-cases (is_single_swap node.result.actions)) [
        | inl good ↦
            let (k, named, first) = check_actions-locates (suc i) nodes e (ground arith) in
            (suc k, ground arith, (good, first))
        | inr bad ↦ (0, ground arith, bad)
      ]

  FillFault-cons :
      (i : ℕ) (node : ChainNodeDraft F K) (nodes : List (ChainNodeDraft F K))
      (e : ChainValidationError)
      → FillFault (suc i) nodes e
      → FillFault i (node ∷ nodes) e
  FillFault-cons i node nodes e (k, faulty, at, fill, why) = (suc k, faulty, at, fill, ground arith)

  check_fill-locates :
      (i : ℕ) (nodes : List (ChainNodeDraft F K)) (e : ChainValidationError)
      → check_fill i nodes ≡ some e
      → FillFault i nodes e
  unfolding check_fill
  check_fill-locates i [] e h = cc
  check_fill-locates i (node ∷ nodes) e h =
      elim (Bool-cases (is_fill (head? node.result.triggers))) [
        | inr other ↦
            FillFault-cons i node nodes e
              (check_fill-locates (suc i) nodes e (rw (other, check_fill) at h))
        | inl fill ↦ elim (Bool-cases (i == 0)) [
          | inl first ↦ (0, node, refl, fill, ground arith)
          | inr later ↦ elim (Bool-cases (consumes (first_swap node.result))) [
            | inl fed ↦
                FillFault-cons i node nodes e (check_fill-locates (suc i) nodes e (ground arith))
            | inr unfed ↦ (0, node, refl, fill, ground arith)
          ]
        ]
      ]

  -- A rejected draft's error names a node of the draft and is true of it: the first node whose
  -- actions are not one swap; or the first node, if it compares with a fill; or a later node that
  -- does so without consuming its upstream rule's output.
  pub error-Blames :
      (nodes : List (ChainNodeDraft F K)) (e : ChainValidationError)
      → validate_chain_draft nodes ≡ some e
      → Blames e nodes
  unfolding validate_chain_draft
  error-Blames nodes e h = elim (Option-cases (check_actions 0 nodes)) [
    | inl clear ↦
        let (k, node, at, fill, why) = check_fill-locates 0 nodes e (rw clear at h) in
        elim why [
          | inl (first, named) ↦
              let named' : e ≡ price_relative_to_fill_requires_chain_position k = ground arith in
              rw named' (omega arith, (node, at, fill))
          | inr (later, unfed, named) ↦
              let named' : e ≡ price_relative_to_fill_requires_consume_upstream k = ground arith in
              rw named' (omega arith, (node, at, fill, unfed))
        ]
    | inr (e', found) ↦
        let (k, named, first) = check_actions-locates 0 nodes e (ground arith) in
        let named' : e ≡ non_swap_action k = ground arith in rw named' first
  ]
