-- ===== src/Cache/Fallback.antt =====
-- How long a computed value of a `TtlCache` is served, and to whom.
use sotama.Prelude.Text.{get-set_other, same_text, get-set_same}
use sotama.Prelude.{
  true, refl, inr, inl, Bool-cases, false, arith, ◌≡◌, ◌+◌, ℕ, or_default, ltb, if◌then◌else◌,
  Option, List,
}
use sotama.Cache.{
  must_compute, fresh, Looked, Answered, entry_of, Computed, threw, settle, returned, rejected,
  memo, look, computed, TtlCache, MemoOptions, Entry,
}

fresh_within :
    (now later ttl stale : ℕ) → ltb later (now + ttl) ≡ true → ltb later (now + ttl + stale) ≡ true
fresh_within now later ttl stale h = ground arith

-- After a value was computed at `now`, a call for the same key whose computation fails returns that
-- value until its two lifetimes are over, and throws the failure from then on; and the cache keeps
-- what it has.
pub failure_served_until :
    {V E : Type 0} (key : List ℕ) (now later : ℕ) (options other : MemoOptions) (value : V)
    (error : E) (cache : TtlCache V)
    → (before : Option (Entry V))
    → let after = (settle {E = E} key now options before (computed value) cache).1 in
      memo key later other (rejected error) after ≡ (
        if ltb later (
              now
              + or_default options.ttl_ms cache.default_ttl_ms
              + or_default options.stale_ttl_ms cache.default_stale_ttl_ms)
            then returned value
            else threw error,
        after,
      )
unfolding memo settle look
failure_served_until key now later options other value error cache before =
    let e = entry_of value now options cache in
    let ttl = or_default options.ttl_ms cache.default_ttl_ms in
    let stale = or_default options.stale_ttl_ms cache.default_stale_ttl_ms in
    let found = get-set_same key e cache.store in
    elim (Bool-cases (ltb later e.fresh_until_ms)) [
      | inl f ↦
          let still = fresh_within now later ttl stale f in
          rw (found, memo, look, f, still, if◌then◌else◌) refl
      | inr f ↦ rw (found, memo, look, f, if◌then◌else◌) refl
    ]

settle-other_keys :
    {V E : Type 0} (key j : List ℕ) (now later : ℕ) (options : MemoOptions) (outcome : Computed V E)
    (cache : TtlCache V) (l : Looked V)
    → same_text j key ≡ false
    → look j later
        (elim l as (λ x. Answered V E × TtlCache V) [
          | fresh value ↦ (returned value, cache)
          | must_compute before ↦ settle key now options before outcome cache
        ]).1
      ≡ look j later cache
unfolding settle look
settle-other_keys key j now later options outcome cache (fresh value) h = refl
settle-other_keys key j now later options (rejected error) cache (must_compute before) h = refl
settle-other_keys key j now later options (computed value) cache (must_compute before) h =
    rw (get-set_other j key (entry_of value now options cache) cache.store h, look) refl

-- A call for one key leaves what every other key has, fresh or stale, as it was.
pub memo-other_keys :
    {V E : Type 0} (key j : List ℕ) (now later : ℕ) (options : MemoOptions) (outcome : Computed V E)
    (cache : TtlCache V)
    → same_text j key ≡ false
    → look j later (memo key now options outcome cache).1 ≡ look j later cache
unfolding memo settle look
memo-other_keys key j now later options outcome cache h =
    settle-other_keys key j now later options outcome cache (look key now cache) h
