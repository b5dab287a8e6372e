-- ===== src/Telemetry/Tests.antt =====
-- A concrete window of telemetry, and each theorem about it applied.
use sotama.Telemetry.{total, snapshot, of_dropped_rps, of_admitted, Telemetry}
use sotama.Telemetry.Totals.{snapshot-totals, record_all, occurrences, Record}
use sotama.Prelude.{◌≡◌, ◌∷◌, ◌+◌, ℕ, ltb, false, arith, [], List, Bool}

abbrev quiet : Telemetry
quiet = record { window_ms = 60000; window_start_ms = 1000; per_pair = [] }

abbrev records : List Record
records =
    record { which = of_admitted; pair_id = 7 ∷ []; now = 1500 }
    ∷ record { which = of_dropped_rps; pair_id = 3 ∷ []; now = 2500 }
    ∷ record { which = of_admitted; pair_id = 3 ∷ []; now = 3000 }
    ∷ []

-- by the first character
abbrev alphabetical : List ℕ → List ℕ → Bool
alphabetical (x ∷ xs) (y ∷ ys) = ltb x y
alphabetical _ _ = false

snapshot-totals_example :
    ((snapshot alphabetical 9000 (record_all records quiet)).0.admitted_quotes_1m
      ≡ occurrences of_admitted records + 0)
    × (total of_admitted (snapshot alphabetical 9000 (record_all records quiet)).0.per_pair
        ≡ (snapshot alphabetical 9000 (record_all records quiet)).0.admitted_quotes_1m)
snapshot-totals_example =
    snapshot-totals alphabetical records quiet 9000 of_admitted
      (omega arith, (omega arith, (omega arith, tt))) (omega arith)
