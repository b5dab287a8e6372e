-- ===== src/Quotes/Tests.antt =====
-- A concrete bucket and scheduler, and each theorem about them applied.
use sotama.Prelude.Int.{ℤ, pos, negsuc}
use sotama.Quotes.Scheduler.{
  upsert_pair, should_quote, on_price_tick, attempts, attempt, Times, SchedulerPair, Scheduler,
}
use sotama.Quotes.Scheduler.Rate.{upsert, tick, run, perform, admitted_within_rate, admissions, Op}
use sotama.Quotes.Bucket.Bound.{take_all, granted_within_rate, Request, FitsCapacity}
use sotama.Prelude.Num.{Int_num}
use sotama.Quotes.Scheduler.Cooldown.{admitted-SpacedAfter, SpacedAfter, IsOrderly, InOrder}
use sotama.Quotes.Bucket.{try_take, refill, Bucket}
use sotama.Prelude.{◌≤◌, ◌≡◌, ◌∷◌, ◌-◌, ◌+◌, ◌*◌, ℕ, refl, arith, [], List, All}

abbrev small : Bucket
small = record { capacity = 2; refill_per_sec = 5; tokens = 2000; last_refill_ms = 1000 }

abbrev requests : List Request
requests =
    record { now = 1000; wanted = 1 }
    ∷ record { now = 1100; wanted = 2 }
    ∷ record { now = 1500; wanted = 2 }
    ∷ []

granted_within_rate_example :
    ((take_all requests small).0 * 1000
      ≤ 2 * 1000 + ((take_all requests small).1.last_refill_ms - 1000) * 5)
    × FitsCapacity (take_all requests small).1
granted_within_rate_example = granted_within_rate requests small (omega arith)

-- Sizes as text.
abbrev show_size : ℤ → List ℕ
show_size (pos n) = n ∷ []
show_size (negsuc n) = 0 ∷ n ∷ []

abbrev gold : SchedulerPair ℤ
gold = record {
  pair_id = "XAU";
  last_price_usd = pos 1;
  sides = "A" ∷ "B" ∷ [];
  sizes_usd = pos 100 ∷ pos 500 ∷ [];
  quote_interval_ms = 60;
  min_price_move_bps = pos 5;
}

abbrev idle : Scheduler ℤ
idle = record { bucket = small; pairs = []; last_quote_at = []; last_quoted_price = [] }

abbrev at_time : ℕ → ℕ → Times
at_time base k = record { asked = base + k; refilled = base + k; queued = base + k + 1 }

abbrev ops : List (Op ℤ)
ops = upsert gold ∷ tick (at_time 1000) "XAU" (pos 7) ∷ tick (at_time 2000) "XAU" (pos 8) ∷ []

at_time-InOrder : (base n : ℕ) → InOrder Int_num show_size (at_time base n)
at_time-InOrder base n = omega arith

admitted_within_rate_example :
    admissions (run Int_num show_size ops idle).0 * 1000
    ≤ 2 * 1000 + ((run Int_num show_size ops idle).1.bucket.last_refill_ms - 1000) * 5
admitted_within_rate_example = admitted_within_rate Int_num show_size ops idle (omega arith)

ops-IsOrderly : All (IsOrderly Int_num show_size) ops
ops-IsOrderly = (tt, ((at_time-InOrder 1000, refl), ((at_time-InOrder 2000, refl), tt)))

admitted-SpacedAfter_example : SpacedAfter [] (run Int_num show_size ops idle).0
admitted-SpacedAfter_example = admitted-SpacedAfter Int_num show_size ops idle ops-IsOrderly

-- Of the four routes of the first tick two find a token; by the second tick two tokens are back.
four_admitted : admissions (run Int_num show_size ops idle).0 ≡ 4
unfolding run perform on_price_tick attempts attempt should_quote try_take refill upsert_pair
four_admitted = refl
