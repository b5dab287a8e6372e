-- ===== src/Trading/Sender/Wait.antt =====
-- The loop of `waitForConfirmation`: it ends, and what it answers.
use sotama.Trading.Sender.{
  Waiting, Waited, waited, wait, wait_for_confirmation, decision, turns_for,
}
use sotama.Prelude.{
  sym, String, Option, ◌-◌, ltb→lt, ◌+◌, ◌*◌, ◌/◌, ◌<◌, ◌≤◌, ◌≡◌, ℕ, zero, suc, true, some, none,
  ltb, Bool-cases, Option-cases, false, if◌then◌else◌, inl, inr, refl, ◌∙◌, arith, lt→ltb, subst,
}

-- when the n-th turn of the loop reads the clock
abbrev pub turn_at : Waiting → ℕ → ℕ
turn_at w zero = w.started_at + w.lag 0
turn_at w (suc n) = turn_at w n + 250 + w.lag (suc n)

abbrev pub timed_out : Waited
timed_out = waited false (some "confirmation timeout")

wait-on :
    (fuel : ℕ) (w : Waiting) (deadline now n : ℕ)
    → ltb now deadline ≡ true
    → decision (w.poll n) ≡ none
    → wait (suc fuel) w deadline now n ≡ wait fuel w deadline (now + 250 + w.lag (suc n)) (suc n)
unfolding wait
wait-on fuel w deadline now n early d = rw (early, if◌then◌else◌, d) refl

wait-decided :
    (fuel : ℕ) (w : Waiting) (deadline now n : ℕ) (r : Waited)
    → ltb now deadline ≡ true
    → decision (w.poll n) ≡ some r
    → wait (suc fuel) w deadline now n ≡ some r
unfolding wait
wait-decided fuel w deadline now n r early d = rw (early, if◌then◌else◌, d) refl

wait-late :
    (fuel : ℕ) (w : Waiting) (deadline now n : ℕ)
    → ltb now deadline ≡ false
    → wait (suc fuel) w deadline now n ≡ some timed_out
unfolding wait
wait-late fuel w deadline now n late = rw (late, if◌then◌else◌) refl

wait-some :
    (k : ℕ) (w : Waiting) (deadline now n : ℕ)
    → deadline ≤ now + 250 * k
    → (r : Waited) × (wait (suc k) w deadline now n ≡ some r)
wait-some zero w deadline now n h = (timed_out, wait-late zero w deadline now n (ground arith))
wait-some (suc k) w deadline now n h = elim (Bool-cases (ltb now deadline)) [
  | inr late ↦ (timed_out, wait-late (suc k) w deadline now n late)
  | inl early ↦ elim (Option-cases (decision (w.poll n))) [
    | inr (r, d) ↦ (r, wait-decided (suc k) w deadline now n r early d)
    | inl d ↦
        rw (wait-on (suc k) w deadline now n early d)
          (wait-some k w deadline (now + 250 + w.lag (suc n)) (suc n) (omega arith))
  ]
]

-- Waiting for a confirmation ends within one turn more than the 250-millisecond steps of the timeout,
-- however long the polls take.
pub wait_for_confirmation-some :
    (timeout_ms : ℕ) (w : Waiting) → (r : Waited) × (wait_for_confirmation timeout_ms w ≡ some r)
unfolding wait_for_confirmation
wait_for_confirmation-some timeout_ms w =
    subst (λ f. (r : Waited) × (wait f w (w.started_at + timeout_ms) (turn_at w 0) 0 ≡ some r))
      (turns_eq timeout_ms)
      (wait-some (timeout_ms / 250 + 1) w (w.started_at + timeout_ms) (turn_at w 0) 0 (omega arith))
  where
    turns_eq : (t : ℕ) → suc (t / 250 + 1) ≡ turns_for t
    turns_eq t = omega arith

turn_at_mono : (w : Waiting) (m k n : ℕ) → m + k ≡ n → turn_at w m + 250 * k ≤ turn_at w n
turn_at_mono w m zero n e = rw (n_eq m n e) (omega arith)
  where
    n_eq : (m n : ℕ) → m + 0 ≡ n → n ≡ m
    n_eq m n e = omega arith
turn_at_mono w m (suc k) zero e = absurd (omega arith)
turn_at_mono w m (suc k) (suc n) e = omega (arith, turn_at_mono w m k n (omega arith))

-- The first turn before the deadline that decides gives the answer.
wait-first :
    (k fuel : ℕ) (w : Waiting) (deadline m n : ℕ) (r : Waited)
    → m + k ≡ n
    → turn_at w n < deadline
    → ((i : ℕ) → m ≤ i → i < n → decision (w.poll i) ≡ none)
    → decision (w.poll n) ≡ some r
    → wait (suc (k + fuel)) w deadline (turn_at w m) m ≡ some r
wait-first zero fuel w deadline m n r e early undecided d =
    wait-decided (0 + fuel) w deadline (turn_at w m) m r
      (lt→ltb _ _ (omega (arith, turn_at_mono w m 0 n e)))
      (subst (λ i. decision (w.poll i) ≡ some r) (n_eq m n e) d)
  where
    n_eq : (m n : ℕ) → m + 0 ≡ n → n ≡ m
    n_eq m n e = omega arith
wait-first (suc k) fuel w deadline m n r e early undecided d =
    wait-on (suc k + fuel) w deadline (turn_at w m) m
      (lt→ltb _ _ (omega (arith, turn_at_mono w m (suc k) n e)))
      (undecided m (omega arith) (omega arith))
    ∙ subst (λ f. wait f w deadline (turn_at w (suc m)) (suc m) ≡ some r) (fuel_eq k fuel)
        (wait-first k fuel w deadline (suc m) n r (omega arith) early
          (λ i h. undecided i (omega arith)) d)
  where
    fuel_eq : (k fuel : ℕ) → suc (k + fuel) ≡ suc k + fuel
    fuel_eq k fuel = omega arith

-- If the n-th turn comes before the deadline, no turn before it decided and its poll decides, then
-- that is the answer: a confirmation that a timely poll shows is not missed.
pub wait_for_confirmation-first :
    (timeout_ms n : ℕ) (w : Waiting) (r : Waited)
    → turn_at w n < w.started_at + timeout_ms
    → ((i : ℕ) → i < n → decision (w.poll i) ≡ none)
    → decision (w.poll n) ≡ some r
    → wait_for_confirmation timeout_ms w ≡ some r
unfolding wait_for_confirmation
wait_for_confirmation-first timeout_ms n w r early undecided d =
    subst (λ f. wait f w (w.started_at + timeout_ms) (turn_at w 0) 0 ≡ some r)
      (turns_eq timeout_ms (omega (arith, turn_at_mono w 0 n n (omega arith))))
      (wait-first n (turns_for timeout_ms - (n + 1)) w (w.started_at + timeout_ms) 0 n r
        (omega arith) early (λ i _. undecided i) d)
  where
    turns_eq : (t : ℕ) → 250 * n < t → suc (n + (turns_for t - (n + 1))) ≡ turns_for t
    turns_eq t h = omega arith

wait-confirmed :
    (fuel : ℕ) (w : Waiting) (deadline n : ℕ) (message : Option String)
    → wait fuel w deadline (turn_at w n) n ≡ some (waited true message)
    → (i : ℕ) × (turn_at w i < deadline) × (decision (w.poll i) ≡ some (waited true message))
unfolding wait
wait-confirmed zero w deadline n message h = absurd (cc h)
wait-confirmed (suc fuel) w deadline n message h = elim (Bool-cases (ltb (turn_at w n) deadline)) [
  | inr late ↦ absurd (cc (wait-late fuel w deadline (turn_at w n) n late))
  | inl early ↦ elim (Option-cases (decision (w.poll n))) [
    | inr (r, d) ↦
        (n, ltb→lt _ _ early, d ∙ sym (wait-decided fuel w deadline (turn_at w n) n r early d) ∙ h)
    | inl d ↦
        wait-confirmed fuel w deadline (suc n) message
          (sym (wait-on fuel w deadline (turn_at w n) n early d) ∙ h)
  ]
]

-- A wait says that a transaction is confirmed only if a poll before the deadline showed it.
pub wait_for_confirmation-confirmed :
    (timeout_ms : ℕ) (w : Waiting) (message : Option String)
    → wait_for_confirmation timeout_ms w ≡ some (waited true message)
    → (i : ℕ) × (turn_at w i < w.started_at + timeout_ms)
      × (decision (w.poll i) ≡ some (waited true message))
unfolding wait_for_confirmation
wait_for_confirmation-confirmed timeout_ms w message h =
    wait-confirmed (turns_for timeout_ms) w (w.started_at + timeout_ms) 0 message h
