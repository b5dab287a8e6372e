-- ===== src/Quotes/Bucket/Bound.antt =====
-- What a `TokenBucket` grants over time, whatever the clock does.
use sotama.Quotes.Bucket.{try_take, refill, Bucket}
use sotama.Prelude.{
  leb, inr, inl, if◌then◌else◌, Bool-cases, ◌∙◌, ◌↔◌, refl, ◌≤◌, ◌≡◌, ◌∷◌, ◌-◌, ◌+◌, ◌*◌, ℕ, true,
  false, arith, [], List, Bool,
}

-- The invariant: never more than the capacity.
abbrev pub FitsCapacity : Bucket → Type 0
FitsCapacity b = b.tokens ≤ b.capacity * 1000

pub record Request : Type 0 where
  pub now : ℕ
  pub wanted : ℕ

abbrev pub granted : Bool → ℕ → ℕ
granted true n = n
granted false n = 0

-- `tryTake` for each request in turn: the tokens granted together, and the bucket after them.
unfoldable pub take_all : List Request → Bucket → ℕ × Bucket
take_all [] b = (0, b)
take_all (r ∷ rs) b =
    let step = try_take r.now r.wanted b in
    let rest = take_all rs step.1 in (granted step.0 r.wanted + rest.0, rest.1)

-- One step's accounts: the settings stay, the clock does not go back, and what is granted and left
-- over is no more than what there was and what came in.
pub record Accounts (b after : Bucket) (out : ℕ) : Type 0 where
  pub capacity : after.capacity ≡ b.capacity
  pub rate : after.refill_per_sec ≡ b.refill_per_sec
  pub within : FitsCapacity after
  pub forward : b.last_refill_ms ≤ after.last_refill_ms
  pub spent :
      out * 1000 + after.tokens
      ≤ b.tokens + (after.last_refill_ms - b.last_refill_ms) * b.refill_per_sec

refill-Accounts : (now : ℕ) (b : Bucket) → FitsCapacity b → Accounts b (refill now b) 0
unfolding refill
refill-Accounts now b h = record {
  capacity = ground arith;
  rate = ground arith;
  within = ground arith;
  forward = ground arith;
  spent = grind arith;
}

pub try_take-Accounts :
    (now n : ℕ) (b : Bucket)
    → FitsCapacity b
    → Accounts b (try_take now n b).1 (granted (try_take now n b).0 n)
unfolding try_take
try_take-Accounts now n b h =
    let full = refill-Accounts now b h in
    record {
      capacity = ground (arith, full.capacity);
      rate = ground (arith, full.rate);
      within = ground (arith, full.within, full.capacity);
      forward = ground (arith, full.forward);
      spent = ground (arith, full.spent);
    }

-- The clocks and the rate multiplied out, one after the other.
spans_add : (a b c rate : ℕ) → a ≤ b → b ≤ c → (b - a) * rate + (c - b) * rate ≡ (c - a) * rate
spans_add a b c rate h k = grind arith

sums_add :
    (o p t u v x y z : ℕ)
    → x + y ≡ z
    → o * 1000 + u ≤ t + x
    → p * 1000 + v ≤ u + y
    → (o + p) * 1000 + v ≤ t + z
sums_add o p t u v x y z e h k = omega arith

pub Accounts-nothing : (b : Bucket) → FitsCapacity b → Accounts b b 0
Accounts-nothing b h = record {
  capacity = refl;
  rate = refl;
  within = h;
  forward = omega arith;
  spent = omega arith;
}

pub Accounts-then :
    {a b c : Bucket} {m n : ℕ} → Accounts a b m → Accounts b c n → Accounts a c (m + n)
Accounts-then {a} {b} {c} first rest =
    let joined = spans_add _ _ _ a.refill_per_sec first.forward rest.forward in
    record {
      capacity = rest.capacity ∙ first.capacity;
      rate = rest.rate ∙ first.rate;
      within = rest.within;
      forward = omega (arith, first.forward, rest.forward);
      spent = sums_add _ _ _ _ _ _ _ _ joined first.spent (rw first.rate at rest.spent);
    }

take_all-Accounts :
    (rs : List Request) (b : Bucket)
    → FitsCapacity b
    → Accounts b (take_all rs b).1 (take_all rs b).0
unfolding take_all
take_all-Accounts [] b h = Accounts-nothing b h
take_all-Accounts (r ∷ rs) b h =
    let first = try_take-Accounts r.now r.wanted b h in
    Accounts-then first (take_all-Accounts rs (try_take r.now r.wanted b).1 first.within)

-- From a bucket that is not above its capacity, however the clock jumps and whatever is asked, the
-- tokens granted are bounded by the capacity and the rate over the time from the last refill to
-- the newest, a thousandth of a token for each millisecond and unit of the rate; and the bucket is
-- again not above its capacity.
pub granted_within_rate :
    (rs : List Request) (b : Bucket)
    → FitsCapacity b
    → ((take_all rs b).0 * 1000
        ≤ b.capacity * 1000
          + ((take_all rs b).1.last_refill_ms - b.last_refill_ms) * b.refill_per_sec)
      × FitsCapacity (take_all rs b).1
granted_within_rate rs b h =
    let all_of = take_all-Accounts rs b h in (omega (arith, h, all_of.spent), all_of.within)

-- From a bucket that is not above its capacity, a request is granted exactly when it is no larger
-- than the capacity and the tokens held and those that came in since the last refill cover it.
pub granted_iff_covered :
    (now n : ℕ) (b : Bucket)
    → FitsCapacity b
    → ((try_take now n b).0 ≡ true)
      ↔ ((n ≤ b.capacity) × (n * 1000 ≤ b.tokens + (now - b.last_refill_ms) * b.refill_per_sec))
unfolding try_take refill
granted_iff_covered now n b h = elim (Bool-cases (leb now b.last_refill_ms)) [
  | inl e ↦ rw (e, if◌then◌else◌) (grind arith)
  | inr e ↦ rw (e, if◌then◌else◌) (grind arith)
]
