-- ===== src/Quotes/Scheduler/Rate.antt =====
-- The shared budget of `QuoteScheduler` over any sequence of price ticks and changes of pairs.
use sotama.Quotes.Bucket.{try_take}
use sotama.Prelude.Text.{get, codes}
use sotama.Prelude.Num.{Num}
use sotama.Quotes.Scheduler.{
  work_id_of, upsert_pair, should_quote, rps_rejection, remove_pair, priced, on_price_tick,
  attempts, attempt, admitted, Times, SchedulerPair, Scheduler, Event,
}
use sotama.Prelude.{
  ◌≤◌, ◌≡◌, ◌∷◌, ◌-◌, ◌+◌, ◌++◌, ◌*◌, ℕ, sym, suc, subst, inr, inl, if◌then◌else◌, arith, [],
  String, Option-cases, List, Bool-cases,
}
use sotama.Quotes.Bucket.Bound.{
  try_take-Accounts, FitsCapacity, Accounts-then, Accounts-nothing, Accounts,
}

abbrev pub admissions : {F : Type 0} → List (Event F) → ℕ
admissions [] = 0
admissions (admitted w ∷ es) = suc (admissions es)
admissions (rps_rejection p s z ∷ es) = admissions es

admissions-append :
    {F : Type 0} (xs ys : List (Event F)) → admissions (xs ++ ys) ≡ admissions xs + admissions ys
admissions-append [] ys = omega arith
admissions-append (admitted w ∷ xs) ys = omega (arith, admissions-append xs ys)
admissions-append (rps_rejection p s z ∷ xs) ys = omega (arith, admissions-append xs ys)

-- What the bot does with its scheduler.
pub data Op (F : Type 0) : Type 0 where
  tick : (ℕ → Times) → (pair_id : String) → (price_usd : F) → Op F
  upsert : SchedulerPair F → Op F
  remove : (pair_id : String) → Op F

module _ (N : Num) (show : Num.F N → List ℕ) where
  open N use {F}

  unfoldable pub perform : Op F → Scheduler F → List (Event F) × Scheduler F
  unfolding on_price_tick upsert_pair remove_pair
  perform (tick times pair_id price) s = on_price_tick N show times pair_id price s
  perform (upsert p) s = ([], upsert_pair p s)
  perform (remove pair_id) s = ([], remove_pair pair_id s)

  unfoldable pub run : List (Op F) → Scheduler F → List (Event F) × Scheduler F
  unfolding perform
  run [] s = ([], s)
  run (op ∷ ops) s =
      let first = perform op s in let rest = run ops first.1 in (first.0 ++ rest.0, rest.1)

  -- The bucket's accounts over a step that returns these events and this scheduler.
  abbrev Spends : Scheduler F → List (Event F) × Scheduler F → Type 0
  Spends s step = Accounts s.bucket step.1.bucket (admissions step.0)

  Spends-then :
      (s : Scheduler F) (first : List (Event F) × Scheduler F) (rest : List (Event F) × Scheduler F)
      → Spends s first
      → Spends first.1 rest
      → Spends s (first.0 ++ rest.0, rest.1)
  Spends-then s first rest h k =
      subst (Accounts s.bucket rest.1.bucket) (sym (admissions-append first.0 rest.0))
        (Accounts-then h k)

  attempt-Spends :
      (t : Times) (p : SchedulerPair F) (side : String) (size price : F) (s : Scheduler F)
      → FitsCapacity s.bucket
      → Spends s (attempt N show t p side size price s)
  unfolding attempt
  attempt-Spends t p side size price s h =
      let took = try_take-Accounts t.refilled 1 s.bucket h in
      let id = work_id_of N show p.pair_id side size in
      elim (Bool-cases (should_quote N show id p.quote_interval_ms t.asked s)) [
        | inr e ↦ rw (e, if◌then◌else◌) (Accounts-nothing s.bucket h)
        | inl e ↦ elim (Bool-cases (try_take t.refilled 1 s.bucket).0) [
          | inl f ↦ rw (e, f, if◌then◌else◌) (rw f at took)
          | inr f ↦ rw (e, f, if◌then◌else◌) (rw f at took)
        ]
      ]

  attempts-Spends :
      (times : ℕ → Times) (k : ℕ) (p : SchedulerPair F) (price : F) (todo : List (String × F))
      (s : Scheduler F)
      → FitsCapacity s.bucket
      → Spends s (attempts N show times k p price todo s)
  unfolding attempts
  attempts-Spends times k p price [] s h = Accounts-nothing s.bucket h
  attempts-Spends times k p price ((side, size) ∷ rest) s h =
      let first = attempt-Spends (times k) p side size price s h in
      let step = attempt N show (times k) p side size price s in
      Spends-then s step (attempts N show times (suc k) p price rest step.1) first
        (attempts-Spends times (suc k) p price rest step.1 first.within)

  perform-Spends : (op : Op F) (s : Scheduler F) → FitsCapacity s.bucket → Spends s (perform op s)
  unfolding perform on_price_tick upsert_pair remove_pair
  perform-Spends (tick times pair_id price) s h =
      elim (Option-cases (get (codes pair_id) s.pairs)) [
        | inl e ↦ rw (e, on_price_tick) (Accounts-nothing s.bucket h)
        | inr (p, e) ↦
            rw (e, on_price_tick) (attempts-Spends times 0 (priced N show price p) price _ _ h)
      ]
  perform-Spends (upsert p) s h = Accounts-nothing s.bucket h
  perform-Spends (remove pair_id) s h = Accounts-nothing s.bucket h

  run-Spends : (ops : List (Op F)) (s : Scheduler F) → FitsCapacity s.bucket → Spends s (run ops s)
  unfolding run
  run-Spends [] s h = Accounts-nothing s.bucket h
  run-Spends (op ∷ ops) s h =
      let first = perform-Spends op s h in
      Spends-then s (perform op s) (run ops (perform op s).1) first
        (run-Spends ops (perform op s).1 first.within)

  -- From a bucket that is not above its capacity, over any sequence of ticks and changes of pairs,
  -- whatever the clock shows, the requests admitted are bounded by the bucket's capacity and its
  -- rate over the time from its last refill to the newest, a thousandth of a request for each
  -- millisecond and unit of the rate.
  pub admitted_within_rate :
      (ops : List (Op F)) (s : Scheduler F)
      → FitsCapacity s.bucket
      → admissions (run ops s).0 * 1000
        ≤ s.bucket.capacity * 1000
          + ((run ops s).1.bucket.last_refill_ms - s.bucket.last_refill_ms)
            * s.bucket.refill_per_sec
  admitted_within_rate ops s h = let all_of = run-Spends ops s h in omega (arith, h, all_of.spent)
