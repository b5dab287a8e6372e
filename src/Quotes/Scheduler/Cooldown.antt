-- ===== src/Quotes/Scheduler/Cooldown.antt =====
-- The cooldown of each route in `QuoteScheduler`, over any sequence of price ticks and updated pairs.
use sotama.Quotes.Scheduler.Rate.{upsert, tick, run, remove, perform, Op}
use sotama.Prelude.Int.{pos}
use sotama.Prelude.Text.{get-set_same, get-set_other, codes, same_text→≡, same_text, get}
use sotama.Prelude.Num.{Num}
use sotama.Quotes.Scheduler.{
  work_id_of, with_bucket, upsert_pair, priced, on_price_tick, attempts, attempt, SchedulerPair,
  should_quote, rps_rejection, quoted, admitted, Work, Times, Scheduler, Event,
}
use sotama.Quotes.Bucket.{try_take, Bucket}
use sotama.Prelude.{
  ◌∙◌, suc, inr, inl, if◌then◌else◌, arith, String, Option-cases, Bool-cases, All-impl, ◌≤◌, ◌≡◌,
  ◌∷◌, ◌+◌, ◌++◌, ℕ, true, some, refl, false, [], List, All,
}

-- The work `w` waited: its cooldown, counted from an earlier quote of the same route, was over when it
-- was asked for.
abbrev pub WaitedFor : {F : Type 0} → Work F → Work F → Type 0
WaitedFor w before =
    same_text before.work_id w.work_id ≡ true
    → before.queued_at_ms + w.pair.quote_interval_ms ≤ w.asked_at_ms

abbrev pub history : {F : Type 0} → List (Work F) → List (Event F) → List (Work F)
history earlier [] = earlier
history earlier (admitted w ∷ es) = history (w ∷ earlier) es
history earlier (rps_rejection p s z ∷ es) = history earlier es

-- Every work of the events waited for every work before it.
abbrev pub SpacedAfter : {F : Type 0} → List (Work F) → List (Event F) → Type 0
SpacedAfter earlier [] = Unit
SpacedAfter earlier (admitted w ∷ es) = All (WaitedFor w) earlier × SpacedAfter (w ∷ earlier) es
SpacedAfter earlier (rps_rejection p s z ∷ es) = SpacedAfter earlier es

SpacedAfter-append :
    {F : Type 0} (earlier : List (Work F)) (xs ys : List (Event F))
    → SpacedAfter earlier xs
    → SpacedAfter (history earlier xs) ys
    → SpacedAfter earlier (xs ++ ys)
SpacedAfter-append earlier [] ys h k = k
SpacedAfter-append earlier (admitted w ∷ xs) ys h k =
    (h.0, SpacedAfter-append (w ∷ earlier) xs ys h.1 k)
SpacedAfter-append earlier (rps_rejection p s z ∷ xs) ys h k = SpacedAfter-append earlier xs ys h k

history-append :
    {F : Type 0} (earlier : List (Work F)) (xs ys : List (Event F))
    → history earlier (xs ++ ys) ≡ history (history earlier xs) ys
history-append earlier [] ys = refl
history-append earlier (admitted w ∷ xs) ys = history-append (w ∷ earlier) xs ys
history-append earlier (rps_rejection p s z ∷ xs) ys = history-append earlier xs ys

module _ (N : Num) (show : Num.F N → List ℕ) where
  open N use {F, le, int}

  abbrev pub IsPositive : F → Type 0
  IsPositive price = le price (int (pos 0)) ≡ false

  abbrev pub InOrder : Times → Type 0
  InOrder t = t.asked ≤ t.queued

  -- The scheduler knows of a quote of the route no older than this work, at a positive price.
  record Known (s : Scheduler F) (w : Work F) : Type 0 where
    last_at : ℕ
    is_last : get w.work_id s.last_quote_at ≡ some last_at
    no_older : w.queued_at_ms ≤ last_at
    price : F
    is_price : get w.work_id s.last_quoted_price ≡ some price
    positive : IsPositive price

  -- What a step keeps, and what it shows.
  record Keeps (earlier : List (Work F)) (step : List (Event F) × Scheduler F) : Type 0 where
    spaced : SpacedAfter earlier step.0
    known : All (Known step.1) (history earlier step.0)

  Keeps-then :
      (earlier : List (Work F)) (first : List (Event F) × Scheduler F)
      (rest : List (Event F) × Scheduler F)
      → Keeps earlier first
      → Keeps (history earlier first.0) rest
      → Keeps earlier (first.0 ++ rest.0, rest.1)
  Keeps-then earlier first rest h k = record {
    spaced = SpacedAfter-append earlier first.0 rest.0 h.spaced k.spaced;
    known = rw (history-append earlier first.0 rest.0) k.known;
  }

  waited :
      (s : Scheduler F) (id : List ℕ) (interval asked : ℕ) (w : Work F)
      → should_quote N show id interval asked s ≡ true
      → Known s w
      → same_text w.work_id id ≡ true
      → w.queued_at_ms + interval ≤ asked
  unfolding should_quote
  waited s id interval asked w h k same =
      let eq = same_text→≡ w.work_id id same in
      let is_price = rw eq at k.is_price in
      let is_last = rw eq at k.is_last in
      let old = k.no_older in
      let positive = k.positive in ground (arith, h, is_price, is_last, old, positive)

  Known-after :
      (s : Scheduler F) (b : Bucket) (id : List ℕ) (queued : ℕ) (price : F) (w : Work F)
      → IsPositive price
      → (same_text w.work_id id ≡ true → w.queued_at_ms ≤ queued)
      → Known s w
      → Known (quoted N show b id queued price s) w
  Known-after s b id queued price w p later k = elim (Bool-cases (same_text w.work_id id)) [
    | inl e ↦
        let eq = same_text→≡ w.work_id id e in
        record {
          last_at = queued;
          is_last = rw eq (get-set_same id queued s.last_quote_at);
          no_older = later e;
          price = price;
          is_price = rw eq (get-set_same id price s.last_quoted_price);
          positive = p;
        }
    | inr e ↦ record {
      last_at = k.last_at;
      is_last = get-set_other w.work_id id queued s.last_quote_at e ∙ k.is_last;
      no_older = k.no_older;
      price = k.price;
      is_price = get-set_other w.work_id id price s.last_quoted_price e ∙ k.is_price;
      positive = k.positive;
    }
  ]

  admission :
      (s : Scheduler F) (b : Bucket) (w : Work F) (earlier : List (Work F))
      → IsPositive w.price_usd
      → w.asked_at_ms ≤ w.queued_at_ms
      → should_quote N show w.work_id w.pair.quote_interval_ms w.asked_at_ms s ≡ true
      → All (Known s) earlier
      → Keeps earlier (admitted w ∷ [], quoted N show b w.work_id w.queued_at_ms w.price_usd s)
  admission s b w earlier p order ask known =
      let wait = waited s w.work_id w.pair.quote_interval_ms w.asked_at_ms in
      let q = w.queued_at_ms in
      record {
        spaced = (All-impl (λ v k same. wait v ask k same) earlier known, tt);
        known = (
          record {
            last_at = q;
            is_last = get-set_same w.work_id q s.last_quote_at;
            no_older = omega arith;
            price = w.price_usd;
            is_price = get-set_same w.work_id w.price_usd s.last_quoted_price;
            positive = p;
          },
          All-impl
              (λ v k.
                Known-after s b w.work_id q w.price_usd v p
                  (λ same. omega (arith, wait v ask k same, order)) k)
              earlier known,
        );
      }

  transfer :
      (s after : Scheduler F) (earlier : List (Work F))
      → after.last_quote_at ≡ s.last_quote_at
      → after.last_quoted_price ≡ s.last_quoted_price
      → All (Known s) earlier
      → All (Known after) earlier
  transfer s after earlier e f known =
      All-impl
        (λ w k. record {
          last_at = k.last_at;
          is_last = rw e k.is_last;
          no_older = k.no_older;
          price = k.price;
          is_price = rw f k.is_price;
          positive = k.positive;
        })
        earlier known

  attempt-Keeps :
      (t : Times) (p : SchedulerPair F) (side : String) (size price : F) (s : Scheduler F)
      (earlier : List (Work F))
      → InOrder t
      → IsPositive price
      → All (Known s) earlier
      → Keeps earlier (attempt N show t p side size price s)
  unfolding attempt
  attempt-Keeps t p side size price s earlier order positive known =
      let id = work_id_of N show p.pair_id side size in
      let taken = try_take t.refilled 1 s.bucket in
      elim (Bool-cases (should_quote N show id p.quote_interval_ms t.asked s)) [
        | inr e ↦ rw (e, if◌then◌else◌) (record { spaced = tt; known = known })
        | inl e ↦ elim (Bool-cases taken.0) [
          | inr f ↦
              rw (e, f, if◌then◌else◌)
                (record {
                  spaced = tt;
                  known = transfer s (with_bucket N show taken.1 s) earlier refl refl known;
                })
          | inl f ↦ rw (e, f, if◌then◌else◌) (admission s taken.1 _ earlier positive order e known)
        ]
      ]

  attempts-Keeps :
      (times : ℕ → Times) (k : ℕ) (p : SchedulerPair F) (price : F) (todo : List (String × F))
      (s : Scheduler F) (earlier : List (Work F))
      → ((n : ℕ) → InOrder (times n))
      → IsPositive price
      → All (Known s) earlier
      → Keeps earlier (attempts N show times k p price todo s)
  unfolding attempts
  attempts-Keeps times k p price [] s earlier order positive known = record {
    spaced = tt;
    known = known;
  }
  attempts-Keeps times k p price ((side, size) ∷ rest) s earlier order positive known =
      let step = attempt N show (times k) p side size price s in
      let first = attempt-Keeps (times k) p side size price s earlier (order k) positive known in
      Keeps-then earlier step (attempts N show times (suc k) p price rest step.1) first (
        attempts-Keeps times (suc k) p price rest step.1 (history earlier step.0) order positive
          first.known)

  -- No pair is removed, the clock goes on between an attempt's first and last reading, and prices are
  -- positive.
  abbrev pub IsOrderly : Op F → Type 0
  IsOrderly (tick times pair_id price) = ((n : ℕ) → InOrder (times n)) × IsPositive price
  IsOrderly (upsert p) = Unit
  IsOrderly (remove pair_id) = ⊥

  perform-Keeps :
      (op : Op F) (s : Scheduler F) (earlier : List (Work F))
      → IsOrderly op
      → All (Known s) earlier
      → Keeps earlier (perform N show op s)
  unfolding perform on_price_tick upsert_pair
  perform-Keeps (tick times pair_id price) s earlier (order, positive) known =
      elim (Option-cases (get (codes pair_id) s.pairs)) [
        | inl e ↦ rw (e, on_price_tick) (record { spaced = tt; known = known })
        | inr (p, e) ↦
            rw (e, on_price_tick)
              (attempts-Keeps times 0 (priced N show price p) price _
                (upsert_pair (priced N show price p) s) earlier order positive
                (transfer s (upsert_pair (priced N show price p) s) earlier refl refl known))
      ]
  perform-Keeps (upsert p) s earlier h known = record {
    spaced = tt;
    known = transfer s (upsert_pair p s) earlier refl refl known;
  }
  perform-Keeps (remove pair_id) s earlier h known = elim h [ ]

  run-Keeps :
      (ops : List (Op F)) (s : Scheduler F) (earlier : List (Work F))
      → All IsOrderly ops
      → All (Known s) earlier
      → Keeps earlier (run N show ops s)
  unfolding run
  run-Keeps [] s earlier h known = record { spaced = tt; known = known }
  run-Keeps (op ∷ ops) s earlier h known =
      let step = perform N show op s in
      let first = perform-Keeps op s earlier h.0 known in
      Keeps-then earlier step (run N show ops step.1) first
        (run-Keeps ops step.1 (history earlier step.0) h.1 first.known)

  -- Over any sequence of ticks and updated pairs, in which no pair is removed, prices are positive and
  -- the clock does not go back within one attempt: each request admitted for a route was asked for no
  -- sooner than its pair's interval after every request admitted for that route before.
  pub admitted-SpacedAfter :
      (ops : List (Op F)) (s : Scheduler F)
      → All IsOrderly ops
      → SpacedAfter [] (run N show ops s).0
  admitted-SpacedAfter ops s h = let kept = run-Keeps ops s [] h tt in kept.spaced
