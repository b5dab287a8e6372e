-- ===== src/Cache/Tests.antt =====
-- A concrete cache, and each theorem about it applied.
use sotama.Cache.Fallback.{failure_served_until}
use sotama.Cache.{threw, settle, returned, rejected, memo, computed, TtlCache, MemoOptions}
use sotama.Prelude.{◌≡◌, ◌∷◌, ◌+◌, ℕ, none, ltb, if◌then◌else◌, [], String, List}

abbrev plain : MemoOptions
plain = record { ttl_ms = none; stale_ttl_ms = none }

abbrev empty_cache : TtlCache ℕ
empty_cache = record { default_ttl_ms = 100; default_stale_ttl_ms = 1000; store = [] }

abbrev key_a : List ℕ
key_a = 1 ∷ []

abbrev key_b : List ℕ
key_b = 2 ∷ []

abbrev outage : String
outage = "down"

failure_served_until_example :
    let after = (settle {E = String} key_a 5000 plain none (computed 42) empty_cache).1 in
    memo key_a 5600 plain (rejected outage) after
    ≡ (if ltb 5600 (5000 + 100 + 1000) then returned 42 else threw outage, after)
failure_served_until_example =
    failure_served_until key_a 5000 5600 plain plain 42 outage empty_cache none
