-- ===== src/Trading/Executor/Spacing.antt =====
-- The cooldown of `execute`: how far apart the attempts with one dedupe key are.
use sotama.Trading.Sender.{Kit}
use sotama.Trading.Jupiter.{Js}
use sotama.Trading.{is_enabled, TradeExecutionInput, Executed}
use sotama.Prelude.{
  sym, subst, All-impl, ◌⊎◌, ◌≤◌, ◌≡◌, ◌∷◌, ◌+◌, ℕ, true, refl, ltb, keep, inr, inl, if◌then◌else◌,
  false, arith, [], List, Bool-cases, Bool, All,
}
use sotama.Prelude.Text.{set, get-set_same, get-set_other, same_text, same_text→≡}
use sotama.Trading.{threw, returned}
use sotama.Trading.Executor.{Config, Outside, ExecutorState, is_stored}
use sotama.Trading.Executor.Execute.{execute, order_for, ready_at}
use sotama.Trading.Executor.Recorded.{after_order-Leaves}

-- whether a call got past the cooldown: it was rejected, or its result is one that is stored
abbrev pub is_attempt : Executed → Bool
is_attempt (threw message) = true
is_attempt (returned r) = is_stored r.status

module _ (js : Js) (kit : Kit) (cfg : Config (Kit.Signer kit)) where
  open js use {num}
  open num use {F}
  open kit use {Signer, Transaction, Message}

  abbrev pub Calls : Type 0
  Calls = List (Outside F Transaction Message × TradeExecutionInput F)

  -- The attempts of a sequence of calls: their keys, and when they were made.
  unfoldable pub attempts : Calls → ExecutorState F → List (List ℕ × ℕ)
  attempts [] s = []
  attempts ((out, args) ∷ calls) s =
      let r = execute js kit cfg out args s in
      let rest = attempts calls r.1 in keep (is_attempt r.0) (args.dedupe_key, out.now) rest

  abbrev pub NotBefore : List ℕ → ℕ → List ℕ × ℕ → Type 0
  NotBefore key t a = a.0 ≡ key → t ≤ a.1

  -- Each attempt is at least the interval before the later ones with its key.
  abbrev pub Spaced : List (List ℕ × ℕ) → Type 0
  Spaced [] = Unit
  Spaced (a ∷ rest) = All (NotBefore a.0 (a.1 + cfg.min_interval_ms)) rest × Spaced rest

  -- A call either is no attempt and changes nothing, or it is one that was due and is remembered.
  call_cases :
      (out : Outside F Transaction Message) (args : TradeExecutionInput F) (s : ExecutorState F)
      → ((is_attempt (execute js kit cfg out args s).0 ≡ false)
          × ((execute js kit cfg out args s).1 ≡ s))
        ⊎ ((ready_at js kit cfg args.dedupe_key s ≤ out.now)
            × ((execute js kit cfg out args s).1.last_attempt_at
                ≡ set args.dedupe_key out.now s.last_attempt_at))
  unfolding execute
  call_cases out args s = elim (Bool-cases (is_enabled cfg.mode)) [
    | inr e ↦ inl (rw (e, if◌then◌else◌) refl, rw (e, if◌then◌else◌) refl)
    | inl e ↦ elim (Bool-cases (ltb out.now (ready_at js kit cfg args.dedupe_key s))) [
      | inl d ↦ inl (rw (e, d, if◌then◌else◌) refl, rw (e, d, if◌then◌else◌) refl)
      | inr d ↦ inr (
        ground arith,
        rw (e, d, if◌then◌else◌)
            (after_order-Leaves js kit cfg out args (order_for js kit cfg out args) _).1,
      )
    ]
  ]

  All-keep :
      (P : List ℕ × ℕ → Type 0) (b : Bool) (a : List ℕ × ℕ) (rest : List (List ℕ × ℕ))
      → P a
      → All P rest
      → All P (keep b a rest)
  All-keep P true a rest h k = (h, k)
  All-keep P false a rest h k = k

  Spaced-keep :
      (b : Bool) (a : List ℕ × ℕ) (rest : List (List ℕ × ℕ))
      → All (NotBefore a.0 (a.1 + cfg.min_interval_ms)) rest
      → Spaced rest
      → Spaced (keep b a rest)
  Spaced-keep true a rest h k = (h, k)
  Spaced-keep false a rest h k = k

  -- After an attempt, its key is due an interval later.
  ready_at-set_same :
      (key : List ℕ) (now : ℕ) (s t : ExecutorState F)
      → t.last_attempt_at ≡ set key now s.last_attempt_at
      → ready_at js kit cfg key t ≡ now + cfg.min_interval_ms
  ready_at-set_same key now s t e = rw (e, get-set_same key now s.last_attempt_at) refl

  -- An attempt that is due makes no key due earlier.
  ready_at_mono :
      (key k : List ℕ) (now : ℕ) (s t : ExecutorState F)
      → t.last_attempt_at ≡ set k now s.last_attempt_at
      → ready_at js kit cfg k s ≤ now
      → ready_at js kit cfg key s ≤ ready_at js kit cfg key t
  ready_at_mono key k now s t e due = elim (Bool-cases (same_text key k)) [
    | inl same ↦
        subst (λ j. ready_at js kit cfg j s ≤ ready_at js kit cfg j t)
          (sym (same_text→≡ key k same)) (omega (arith, ready_at-set_same k now s t e))
    | inr differs ↦ rw (e, get-set_other key k now s.last_attempt_at differs) (omega arith)
  ]

  -- No attempt comes before its key is due.
  attempts-NotBefore :
      (calls : Calls) (s : ExecutorState F) (key : List ℕ)
      → All (NotBefore key (ready_at js kit cfg key s)) (attempts calls s)
  unfolding attempts
  attempts-NotBefore [] s key = tt
  attempts-NotBefore ((out, args) ∷ calls) s key = elim (call_cases out args s) [
    | inl (none_made, same) ↦
        rw (none_made, keep)
          (subst
            (λ t.
              All (NotBefore key (ready_at js kit cfg key t))
                (attempts calls (execute js kit cfg out args s).1))
            same (attempts-NotBefore calls (execute js kit cfg out args s).1 key))
    | inr (due, set_now) ↦
        All-keep (NotBefore key (ready_at js kit cfg key s))
          (is_attempt (execute js kit cfg out args s).0) (args.dedupe_key, out.now) _
          (λ e. subst (λ j. ready_at js kit cfg j s ≤ out.now) e due)
          (All-impl
            (λ a h e. omega (
              arith,
              h e,
              ready_at_mono key args.dedupe_key out.now s (execute js kit cfg out args s).1 set_now
                  due,
            ))
            _ (attempts-NotBefore calls (execute js kit cfg out args s).1 key))
  ]

  -- In any sequence of calls, two attempts with one dedupe key are at least the configured interval
  -- apart, whatever the clock does.
  pub attempts-Spaced : (calls : Calls) (s : ExecutorState F) → Spaced (attempts calls s)
  unfolding attempts
  attempts-Spaced [] s = tt
  attempts-Spaced ((out, args) ∷ calls) s = elim (call_cases out args s) [
    | inl (none_made, same) ↦
        rw (none_made, keep) (attempts-Spaced calls (execute js kit cfg out args s).1)
    | inr (due, set_now) ↦
        Spaced-keep (is_attempt (execute js kit cfg out args s).0) (args.dedupe_key, out.now) _
          (subst
            (λ t.
              All (NotBefore args.dedupe_key t) (attempts calls (execute js kit cfg out args s).1))
            (ready_at-set_same args.dedupe_key out.now s (execute js kit cfg out args s).1 set_now)
            (attempts-NotBefore calls (execute js kit cfg out args s).1 args.dedupe_key))
          (attempts-Spaced calls (execute js kit cfg out args s).1)
  ]
