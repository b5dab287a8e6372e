-- ===== src/Horizon/Totals.antt =====
-- How a horizon's totals stand to its sizes' results and to the positions that are left.
use sotama.Backtest.{Observation}
use sotama.Prelude.Num.{Num}
use sotama.Horizon.{
  zero_num, Report, run_one_horizon, report_of, replay, no_trades, blank, Options, HorizonRow,
  SizeResult, Position, ensure_result, one_open, count_open, add_results, total_of, insert_size,
  by_size,
}
use sotama.Horizon.Balanced.{replay-AllBalanced, CentAboveZero, IsBalanced, ensure_result-All}
use sotama.Prelude.{
  All-impl, ◌∷◌, ◌+◌, ◌≡◌, ◌≤◌, ℕ, All, length, map, if◌then◌else◌, refl, arith, inl, inr,
  Bool-cases, [], List,
}

abbrev pub sum_by : {A : Type 0} → (A → ℕ) → List A → ℕ
sum_by f [] = 0
sum_by f (x ∷ xs) = f x + sum_by f xs

sum_by-map :
    {A B : Type 0} (f : B → ℕ) (g : A → B) (xs : List A)
    → sum_by f (map g xs) ≡ sum_by (λ x. f (g x)) xs
sum_by-map f g [] = refl
sum_by-map f g (x ∷ xs) = omega (arith, sum_by-map f g xs)

module _ (N : Num) where
  open N use {F, le, eq}

  -- A report that does not count more wins and timeouts than closed trades.
  abbrev pub Covers : SizeResult F → Type 0
  Covers r = r.winning_trades + r.timed_out_trades ≤ r.closed_trades

  sum_by-insert_size :
      (f : SizeResult F → ℕ) (r : SizeResult F) (rs : List (SizeResult F))
      → sum_by f (insert_size N r rs) ≡ f r + sum_by f rs
  sum_by-insert_size f r [] = refl
  sum_by-insert_size f r (q ∷ qs) = elim (Bool-cases (le r.size_usd q.size_usd)) [
    | inl e ↦ rw (e, if◌then◌else◌) refl
    | inr e ↦ rw (e, if◌then◌else◌) (omega (arith, sum_by-insert_size f r qs))
  ]

  sum_by-by_size :
      (f : SizeResult F → ℕ) (rs : List (SizeResult F)) → sum_by f (by_size N rs) ≡ sum_by f rs
  sum_by-by_size f [] = refl
  sum_by-by_size f (r ∷ rs) =
      omega (arith, sum_by-insert_size f r (by_size N rs), sum_by-by_size f rs)

  All-insert_size :
      (P : SizeResult F → Type 0) (r : SizeResult F) (rs : List (SizeResult F))
      → P r
      → All P rs
      → All P (insert_size N r rs)
  All-insert_size P r [] h k = (h, tt)
  All-insert_size P r (q ∷ qs) h k = elim (Bool-cases (le r.size_usd q.size_usd)) [
    | inl e ↦ rw (e, if◌then◌else◌) (h, k)
    | inr e ↦ rw (e, if◌then◌else◌) (k.0, All-insert_size P r qs h k.1)
  ]

  All-by_size :
      (P : SizeResult F → Type 0) (rs : List (SizeResult F)) → All P rs → All P (by_size N rs)
  All-by_size P [] h = tt
  All-by_size P (r ∷ rs) h = All-insert_size P r (by_size N rs) h.0 (All-by_size P rs h.1)

  -- One more open position, whichever size it is of.
  open-ensure_result :
      (size : F) (rs : List (SizeResult F))
      → sum_by (λ r. r.open_positions) (ensure_result N size (one_open N) rs)
        ≡ sum_by (λ r. r.open_positions) rs + 1
  unfolding ensure_result
  open-ensure_result size [] = omega arith
  open-ensure_result size (r ∷ rs) = elim (Bool-cases (eq r.size_usd size)) [
    | inl e ↦ rw (e, if◌then◌else◌) (omega arith)
    | inr e ↦ rw (e, if◌then◌else◌) (omega (arith, open-ensure_result size rs))
  ]

  open-count_open :
      (ps : List (Position F)) (rs : List (SizeResult F))
      → sum_by (λ r. r.open_positions) (count_open N ps rs)
        ≡ sum_by (λ r. r.open_positions) rs + length ps
  unfolding count_open
  open-count_open [] rs = omega arith
  open-count_open (p ∷ ps) rs = omega (
    arith,
    open-count_open ps (ensure_result N p.size_usd (one_open N) rs),
    open-ensure_result p.size_usd rs,
  )

  count_open-All :
      (ps : List (Position F)) (rs : List (SizeResult F))
      → All Covers rs
      → All Covers (count_open N ps rs)
  unfolding count_open
  count_open-All [] rs h = h
  count_open-All (p ∷ ps) rs h =
      count_open-All ps (ensure_result N p.size_usd (one_open N) rs)
        (ensure_result-All N Covers p.size_usd (one_open N) rs (λ r k. k) (omega arith) h)

  none_open :
      (rs : List (SizeResult F)) → All (IsBalanced N) rs → sum_by (λ r. r.open_positions) rs ≡ 0
  none_open [] h = refl
  none_open (r ∷ rs) h = omega (arith, none_open rs h.1, h.0.2)

  total_of-sums :
      (acc : SizeResult F) (rs : List (SizeResult F))
      → let total = total_of N acc rs in
        (total.closed_trades ≡ acc.closed_trades + sum_by (λ r. r.closed_trades) rs)
        × (total.winning_trades ≡ acc.winning_trades + sum_by (λ r. r.winning_trades) rs)
        × (total.timed_out_trades ≡ acc.timed_out_trades + sum_by (λ r. r.timed_out_trades) rs)
        × (total.open_positions ≡ acc.open_positions + sum_by (λ r. r.open_positions) rs)
  unfolding total_of
  total_of-sums acc [] = omega arith
  total_of-sums acc (r ∷ rs) = omega (arith, total_of-sums (add_results N acc r) rs)

  sums-Cover :
      (rs : List (SizeResult F))
      → All Covers rs
      → sum_by (λ r. r.winning_trades) rs + sum_by (λ r. r.timed_out_trades) rs
        ≤ sum_by (λ r. r.closed_trades) rs
  sums-Cover [] h = omega arith
  sums-Cover (r ∷ rs) h = omega (arith, sums-Cover rs h.1, h.0)

  -- What holds of a report, with the positions that the replay left.
  pub record IsAccounted (row : HorizonRow F) (left : List (Position F)) : Type 0 where
    pub covers_all :
        row.totals.winning_trades + row.totals.timed_out_trades ≤ row.totals.closed_trades
    pub covers_each :
        All (λ x. x.1.winning_trades + x.1.timed_out_trades ≤ x.1.closed_trades) row.size_results
    pub adds_up : row.totals.closed_trades ≡ sum_by (λ x. x.1.closed_trades) row.size_results
    pub counts_open : row.totals.open_positions ≡ length left

  All-report_of :
      (rs : List (SizeResult F))
      → All Covers rs
      → All {A = F × Report F}
          (λ x. x.1.winning_trades + x.1.timed_out_trades ≤ x.1.closed_trades)
          (map (λ r. (r.size_usd, report_of N r)) rs)
  All-report_of [] h = tt
  All-report_of (r ∷ rs) h = (h.0, All-report_of rs h.1)

  -- If a profit above a cent is not below zero, a horizon's report counts no trade both as won and as
  -- timed out, in total and for each size; its total of closed trades is the sum of the sizes'; and its
  -- open positions are those that the replay left.
  pub run_one_horizon-IsAccounted :
      CentAboveZero N
      → (rows : List (Observation F)) (horizon_ms window_ms : ℕ) (options : Options F)
      → IsAccounted
          (run_one_horizon N rows horizon_ms window_ms options)
          (replay N options horizon_ms rows (blank N)).positions
  unfolding run_one_horizon
  run_one_horizon-IsAccounted law rows horizon_ms window_ms options =
      let end = replay N options horizon_ms rows (blank N) in
      let balanced = replay-AllBalanced N law options horizon_ms rows (blank N) tt in
      let counted = count_open N end.positions end.results in
      let covered =
        All-by_size Covers counted
          (count_open-All end.positions end.results (All-impl (λ r h. h.0) end.results balanced)) in
      let sums = total_of-sums (no_trades N (zero_num N)) (by_size N counted) in
      record {
        covers_all = omega (arith, sums, sums-Cover (by_size N counted) covered);
        covers_each = All-report_of (by_size N counted) covered;
        adds_up = omega (
          arith,
          sums,
          sum_by-map {A = SizeResult F} {B = F × Report F} (λ x. x.1.closed_trades)
              (λ r. (r.size_usd, report_of N r)) (by_size N counted),
        );
        counts_open = omega (
          arith,
          sums,
          sum_by-by_size (λ r. r.open_positions) counted,
          open-count_open end.positions end.results,
          none_open end.results balanced,
        );
      }
