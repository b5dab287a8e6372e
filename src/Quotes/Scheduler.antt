-- ===== src/Quotes/Scheduler.antt =====
-- `QuoteScheduler` of services/stat-arb-bot/src/quote-scheduler.ts: on a price tick of a pair, each
-- side and size may ask for a quote, if its cooldown is over and the shared budget has a token. The
-- callbacks `onAdmit`, `onRpsRejection` and `onWork` are the events that a tick returns. The clock
-- may move between its readings, so each attempt has the three that it takes.
pub mod Cooldown
pub mod Rate
use sotama.Prelude.Int.{pos}
use sotama.Prelude.Num.{Num}
use sotama.Prelude.Text.{set, same_text, has_prefix, get, delete_if, codes, Dict}
use sotama.Quotes.Bucket.{try_take, refused, opened, new_bucket, available, BucketError, Bucket}
use sotama.Prelude.{
  ◌∷◌, ◌+◌, ◌++◌, ◌&&◌, ℕ, true, suc, some, not, none, map, ltb, length, is_some, if◌then◌else◌, [],
  String, List, Bool,
}

pub record SchedulerPair (F : Type 0) : Type 0 where
  pub pair_id : String
  pub last_price_usd : F
  pub sides : List String
  pub sizes_usd : List F
  pub quote_interval_ms : ℕ
  pub min_price_move_bps : F

-- What `nowMs()` answers in `shouldQuote`, in the bucket's refill, and for `queuedAtMs`.
pub record Times : Type 0 where
  pub asked : ℕ
  pub refilled : ℕ
  pub queued : ℕ

-- `Work` is what `onWork` is called with, and the reading by which its cooldown was over.
pub record Work (F : Type 0) : Type 0 where
  pub work_id : List ℕ
  pub pair : SchedulerPair F
  pub side : String
  pub size_usd : F
  pub price_usd : F
  pub asked_at_ms : ℕ
  pub queued_at_ms : ℕ

pub data Event (F : Type 0) : Type 0 where
  admitted : Work F → Event F
  rps_rejection : (pair_id side : String) (size_usd : F) → Event F

pub record Scheduler (F : Type 0) : Type 0 where
  pub bucket : Bucket
  pub pairs : Dict (SchedulerPair F)
  pub last_quote_at : Dict ℕ
  pub last_quoted_price : Dict F

pub data Started (F : Type 0) : Type 0 where
  started : Scheduler F → Started F
  not_started : BucketError → Started F

unfoldable pub new_scheduler : {F : Type 0} → ℕ → ℕ → ℕ → Started F
new_scheduler max_rps bucket_capacity now = elim (new_bucket bucket_capacity max_rps now) [
  | refused e ↦ not_started e
  | opened b ↦
      started (record { bucket = b; pairs = []; last_quote_at = []; last_quoted_price = [] })
]

unfoldable pub upsert_pair : {F : Type 0} → SchedulerPair F → Scheduler F → Scheduler F
upsert_pair p s = record {
  bucket = s.bucket;
  pairs = set (codes p.pair_id) p s.pairs;
  last_quote_at = s.last_quote_at;
  last_quoted_price = s.last_quoted_price;
}

-- `|`
abbrev bar : ℕ
bar = 124

-- The keys of `lastQuotedPrice` are those of `lastQuoteAt`, which the source goes through.
unfoldable pub remove_pair : {F : Type 0} → String → Scheduler F → Scheduler F
remove_pair pair_id s = record {
  bucket = s.bucket;
  pairs = delete_if (same_text (codes pair_id)) s.pairs;
  last_quote_at = delete_if (has_prefix (codes pair_id ++ bar ∷ [])) s.last_quote_at;
  last_quoted_price =
      delete_if (λ k. has_prefix (codes pair_id ++ bar ∷ []) k && is_some (get k s.last_quote_at))
        s.last_quoted_price;
}

abbrev pub active_pair_count : {F : Type 0} → Scheduler F → ℕ
active_pair_count s = length s.pairs

-- `available`, and the scheduler whose bucket was refilled by asking
abbrev pub budget_available : {F : Type 0} → ℕ → Scheduler F → ℕ × Scheduler F
budget_available now s =
    let asked = available now s.bucket in
    (
      asked.0,
      record {
        bucket = asked.1;
        pairs = s.pairs;
        last_quote_at = s.last_quote_at;
        last_quoted_price = s.last_quoted_price;
      },
    )

-- `show` stands for the conversion of a number to text in a template literal.
module _ (N : Num) (show : Num.F N → List ℕ) where
  open N use {F, le, int}

  -- `${pairId}|${side}|${size}`
  abbrev pub work_id_of : String → String → F → List ℕ
  work_id_of pair_id side size = codes pair_id ++ bar ∷ codes side ++ bar ∷ show size

  -- A quote never taken, or taken at a price that is not positive, leaves no cooldown; the time since
  -- a quote at `lastAt` is less than the interval when now is before `lastAt + interval`.
  unfoldable pub should_quote : List ℕ → ℕ → ℕ → Scheduler F → Bool
  should_quote id interval now s = elim (get id s.last_quoted_price) [
    | none ↦ true
    | some price ↦ if le price (int (pos 0)) then true else (elim (get id s.last_quote_at) [
      | none ↦ true
      | some last_at ↦ not (ltb now (last_at + interval))
    ])
  ]

  abbrev pub quoted : Bucket → List ℕ → ℕ → F → Scheduler F → Scheduler F
  quoted bucket id now price s = record {
    bucket = bucket;
    pairs = s.pairs;
    last_quote_at = set id now s.last_quote_at;
    last_quoted_price = set id price s.last_quoted_price;
  }

  abbrev pub with_bucket : Bucket → Scheduler F → Scheduler F
  with_bucket bucket s = record {
    bucket = bucket;
    pairs = s.pairs;
    last_quote_at = s.last_quote_at;
    last_quoted_price = s.last_quoted_price;
  }

  -- The body of the two loops, for one side and one size.
  unfoldable pub attempt :
      Times → SchedulerPair F → String → F → F → Scheduler F → List (Event F) × Scheduler F
  unfolding should_quote try_take
  attempt t p side size price s =
      let id = work_id_of p.pair_id side size in
      let taken = try_take t.refilled 1 s.bucket in
      if should_quote id p.quote_interval_ms t.asked s
      then (if taken.0
          then (
            admitted (record {
              work_id = id;
              pair = p;
              side = side;
              size_usd = size;
              price_usd = price;
              asked_at_ms = t.asked;
              queued_at_ms = t.queued;
            })
                ∷ [],
            quoted taken.1 id t.queued price s,
          )
          else (rps_rejection p.pair_id side size ∷ [], with_bucket taken.1 s))
      else ([], s)

  -- The sizes of each side in turn; `times k` are the readings of the attempt after `k` others.
  abbrev pub combinations : List String → List F → List (String × F)
  combinations [] sizes = []
  combinations (side ∷ sides) sizes = map (λ size. (side, size)) sizes ++ combinations sides sizes

  unfoldable pub attempts :
      (ℕ → Times)
      → ℕ
      → SchedulerPair F
      → F
      → List (String × F)
      → Scheduler F
      → List (Event F) × Scheduler F
  unfolding attempt
  attempts times k p price [] s = ([], s)
  attempts times k p price ((side, size) ∷ rest) s =
      let first = attempt (times k) p side size price s in
      let later = attempts times (suc k) p price rest first.1 in (first.0 ++ later.0, later.1)

  -- The pair in the map is the caller's object, whose price is set.
  abbrev pub priced : F → SchedulerPair F → SchedulerPair F
  priced price p = record {
    pair_id = p.pair_id;
    last_price_usd = price;
    sides = p.sides;
    sizes_usd = p.sizes_usd;
    quote_interval_ms = p.quote_interval_ms;
    min_price_move_bps = p.min_price_move_bps;
  }

  unfoldable pub on_price_tick :
      (ℕ → Times) → String → F → Scheduler F → List (Event F) × Scheduler F
  unfolding attempts upsert_pair
  on_price_tick times pair_id price s = elim (get (codes pair_id) s.pairs) [
    | none ↦ ([], s)
    | some p ↦
        attempts times 0 (priced price p) price (combinations p.sides p.sizes_usd)
          (upsert_pair (priced price p) s)
  ]
