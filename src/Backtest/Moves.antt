-- ===== src/Backtest/Moves.antt =====
-- What one row of a replay may do to a position, and when a trade is recommended.
use sotama.Backtest.Branches.{stays, maybe_open-Move, maybe_close-Move, book_of, Move}
use sotama.Prelude.{Bool, ◌≤◌, ℕ, refl, ltb, arith, Option, ◌≢◌, ◌≡◌, true, false}
use sotama.Prelude.Num.{Num}
use sotama.Backtest.{
  size_250, size_1000, set_at, Size, Books, turn_of, first_present, turn, trade_250, trade_1000,
  sell_tokenized, recommend_action, reaches, buy_tokenized, Side, maybe_open, maybe_close, Options,
  Observation,
}

leb_of_ltb : (a b : ℕ) → ltb a b ≡ false → b ≤ a
leb_of_ltb a b h = ground arith

module _ (N : Num) where
  open N use {F}

  turn_of-Move :
      (is_live : Bool) (side : Side) (options : Options F) (size : Size) (row : Observation F)
      (bs : Books F)
      → row.is_live ≡ is_live
      → row.side ≡ side
      → Move N options row
          (book_of N size bs)
          (book_of N size (turn_of N is_live side options size row bs).0)
  unfolding turn_of
  turn_of-Move false side options size row bs live same =
      stays (λ c. ground arith) (λ p c. ground arith) refl refl refl
  turn_of-Move true buy_tokenized options size row bs live same =
      maybe_open-Move N options size row bs live same
  turn_of-Move true sell_tokenized options size row bs live same =
      maybe_close-Move N options size row bs live same

  pub turn_of-others :
      (is_live : Bool) (side : Side) (options : Options F) (size key : Size) (row : Observation F)
      (bs : Books F)
      → key ≢ size
      → book_of N key (turn_of N is_live side options size row bs).0 ≡ book_of N key bs
  unfolding turn_of maybe_open maybe_close set_at
  turn_of-others is_live side options size_250 size_250 row bs h = elim (h refl) [ ]
  turn_of-others is_live side options size_1000 size_1000 row bs h = elim (h refl) [ ]
  turn_of-others false side options size_250 size_1000 row bs h = refl
  turn_of-others false side options size_1000 size_250 row bs h = refl
  turn_of-others true buy_tokenized options size_250 size_1000 row bs h = ground arith
  turn_of-others true buy_tokenized options size_1000 size_250 row bs h = ground arith
  turn_of-others true sell_tokenized options size_250 size_1000 row bs h = ground arith
  turn_of-others true sell_tokenized options size_1000 size_250 row bs h = ground arith

  -- A row moves its size's entries of the maps in one of three ways, and those of other sizes not at
  -- all. It opens a position exactly if it is a live quote to buy, its edge reaches the threshold, no
  -- position of its size is open, an exit of that size was quoted before and its price is above zero.
  -- It closes one exactly if it is a live quote to sell, later than the entry, and the exit's profit
  -- is not negative, and that profit is added to the size's total. Otherwise position, profit and
  -- count stay.
  pub turn-Move :
      (options : Options F) (size : Size) (row : Observation F) (bs : Books F)
      → Move N options row (book_of N size bs) (book_of N size (turn N options size row bs).0)
        × ((key : Size)
            → key ≢ size
            → book_of N key (turn N options size row bs).0 ≡ book_of N key bs)
  turn-Move options size row bs = (
    turn_of-Move row.is_live row.side options size row bs refl refl,
    λ key. turn_of-others row.is_live row.side options size key row bs,
  )

  -- The size of 250 is recommended only on enough live samples, outside of pure research, and on an
  -- edge of that size that is there and not below the threshold; likewise the size of 1000, and then
  -- the next 750 reach the threshold too, where their edge is known.
  pub recommends_on_edge :
      (edge_250 edge_1000 next : Option F) (live : ℕ) (options : Options F)
      → (recommend_action N edge_250 edge_1000 next live options ≡ trade_250
          → (options.min_live_samples ≤ live)
            × (options.is_research_only ≡ false)
            × (reaches N edge_250 options.min_net_edge_bps ≡ true))
        × (recommend_action N edge_250 edge_1000 next live options ≡ trade_1000
            → (options.min_live_samples ≤ live)
              × (options.is_research_only ≡ false)
              × (reaches N edge_1000 options.min_net_edge_bps ≡ true)
              × (reaches N (first_present N next edge_1000) options.min_net_edge_bps ≡ true))
  unfolding recommend_action
  recommends_on_edge edge_250 edge_1000 next live options =
      let enough = leb_of_ltb live options.min_live_samples in
      (
        λ h. (enough (ground arith), ground arith, ground arith),
        λ h. (enough (ground arith), ground arith, ground arith, ground arith),
      )
