-- ===== src/Cache.antt =====
-- `TtlCache` of services/stat-arb-bot/src/api/cache.ts. Times are milliseconds, lifetimes are not
-- negative. `memo` awaits its computation between a first half, which reads the clock and the entry,
-- and a second half, which stores the value or falls back on the entry read before; the halves of
-- several calls may interleave.
pub mod Fallback
mod Tests
use sotama.Prelude.{◌==◌, ◌+◌, ◌*◌, ℕ, some, or_default, none, ltb, if◌then◌else◌, [], Option, List}
use sotama.Prelude.Text.{set, same_text, get, delete_if, Dict}

pub record Entry (V : Type 0) : Type 0 where
  pub value : V
  pub fresh_until_ms : ℕ
  pub stale_until_ms : ℕ
  pub stored_at_ms : ℕ

pub record TtlCache (V : Type 0) : Type 0 where
  pub default_ttl_ms : ℕ
  pub default_stale_ttl_ms : ℕ
  pub store : Dict (Entry V)

pub data CacheError : Type 0 where
  ttl_not_positive : CacheError

pub data Made (V : Type 0) : Type 0 where
  made : TtlCache V → Made V
  not_made : CacheError → Made V

-- The constructor; without a second argument entries stay usable for ten more lifetimes.
unfoldable pub new_cache : {V : Type 0} → ℕ → Option ℕ → Made V
new_cache ttl stale =
    if ttl == 0
    then not_made ttl_not_positive
    else made (record {
      default_ttl_ms = ttl;
      default_stale_ttl_ms = or_default stale (ttl * 10);
      store = [];
    })

pub record MemoOptions : Type 0 where
  pub ttl_ms : Option ℕ
  pub stale_ttl_ms : Option ℕ

-- What `compute` comes to.
pub data Computed (V E : Type 0) : Type 0 where
  computed : V → Computed V E
  rejected : E → Computed V E

-- What the caller of `memo` gets.
pub data Answered (V E : Type 0) : Type 0 where
  returned : V → Answered V E
  threw : E → Answered V E

-- The first half: a fresh entry's value, or the entry (if any) to fall back on.
pub data Looked (V : Type 0) : Type 0 where
  fresh : V → Looked V
  must_compute : Option (Entry V) → Looked V

unfoldable pub look : {V : Type 0} → List ℕ → ℕ → TtlCache V → Looked V
look key now cache = elim (get key cache.store) [
  | none ↦ must_compute none
  | some e ↦ if ltb now e.fresh_until_ms then fresh e.value else must_compute (some e)
]

abbrev pub entry_of : {V : Type 0} → V → ℕ → MemoOptions → TtlCache V → Entry V
entry_of value now options cache =
    let ttl = or_default options.ttl_ms cache.default_ttl_ms in
    let stale = or_default options.stale_ttl_ms cache.default_stale_ttl_ms in
    record {
      value = value;
      fresh_until_ms = now + ttl;
      stale_until_ms = now + ttl + stale;
      stored_at_ms = now;
    }

abbrev pub with_store : {V : Type 0} → Dict (Entry V) → TtlCache V → TtlCache V
with_store store cache = record {
  default_ttl_ms = cache.default_ttl_ms;
  default_stale_ttl_ms = cache.default_stale_ttl_ms;
  store = store;
}

abbrev pub fall_back : {V E : Type 0} → ℕ → Option (Entry V) → E → Answered V E
fall_back now none error = threw error
fall_back now (some e) error = if ltb now e.stale_until_ms then returned e.value else threw error

-- The second half, with the clock's reading and the entry of the first.
unfoldable pub settle :
    {V E : Type 0}
    → List ℕ
    → ℕ
    → MemoOptions
    → Option (Entry V)
    → Computed V E
    → TtlCache V
    → Answered V E × TtlCache V
settle key now options before (computed value) cache =
    (returned value, with_store (set key (entry_of value now options cache) cache.store) cache)
settle key now options before (rejected error) cache = (fall_back now before error, cache)

-- A call during which no other runs.
unfoldable pub memo :
    {V E : Type 0}
    → List ℕ
    → ℕ
    → MemoOptions
    → Computed V E
    → TtlCache V
    → Answered V E × TtlCache V
unfolding look settle
memo key now options outcome cache = elim (look key now cache) [
  | fresh value ↦ (returned value, cache)
  | must_compute before ↦ settle key now options before outcome cache
]

unfoldable pub invalidate : {V : Type 0} → List ℕ → TtlCache V → TtlCache V
invalidate key cache = with_store (delete_if (same_text key) cache.store) cache

unfoldable pub clear : {V : Type 0} → TtlCache V → TtlCache V
clear cache = with_store [] cache
