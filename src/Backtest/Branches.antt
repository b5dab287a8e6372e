-- ===== src/Backtest/Branches.antt =====
-- What one size's entries of the maps are before and after each branch of `maybeOpen` and
-- `maybeClose`.
use sotama.Prelude.Int.{pos}
use sotama.Prelude.{
  ap, ◌∙◌, sym, subst, ℕ, refl, leb, inr, inl, if◌then◌else◌, arith, Option-cases, Option,
  Bool-cases, ◌≡◌, ◌<◌, ◌+◌, true, some, none, is_some, false,
}
use mathlib.Core.Option.{some-injective}
use sotama.Prelude.Num.{Num}
use sotama.Backtest.{
  missing_exit_quote, edge_below_threshold, position_already_open, exit_not_profitable, size_250,
  size_1000, set_at, position_already_open, opened, exit_not_profitable, edge_below_threshold,
  closed_with, Turn, Size, Books, sell_tokenized, buy_tokenized, sold, maybe_open, maybe_close,
  exit_pnl, bought, Position, Options, Observation,
}

lt_of_leb : (a b : ℕ) → leb a b ≡ false → b < a
lt_of_leb a b h = ground arith

module _ (N : Num) where
  open N use {F, int, add, div, lt, le}

  -- What the maps hold for one size.
  pub record Book : Type 0 where
    pub latest_buy : Option (Observation F)
    pub latest_sell : Option (Observation F)
    pub position : Option (Position F)
    pub pnl : F
    pub closed : ℕ

  abbrev pub book_of : Size → Books F → Book
  book_of size bs = record {
    latest_buy = bs.latest_buy size;
    latest_sell = bs.latest_sell size;
    position = bs.positions size;
    pnl = bs.pnl size;
    closed = bs.closed size;
  }

  pub record CanOpen (options : Options F) (row : Observation F) (b : Book) : Type 0 where
    pub live : row.is_live ≡ true
    pub buys : row.side ≡ buy_tokenized
    pub edge : lt row.net_bps options.min_net_edge_bps ≡ false
    pub free : b.position ≡ none
    pub exit_quoted : is_some b.latest_sell ≡ true
    pub priced : le row.token_price_usd (int (pos 0)) ≡ false

  pub record CanClose (options : Options F) (row : Observation F) (b : Book) (p : Position F)
      : Type 0 where
    pub live : row.is_live ≡ true
    pub sells : row.side ≡ sell_tokenized
    pub held : b.position ≡ some p
    pub later : p.entry_at_ms < row.observed_at_ms
    pub profit : lt (exit_pnl N options row p) (int (pos 0)) ≡ false

  -- The moves of a size's position, profit and number of closed trades.
  pub data Move (options : Options F) (row : Observation F) (b after : Book) : Type 0 where
    stays :
        ¬ (CanOpen options row b)
        → ((p : Position F) → ¬ (CanClose options row b p))
        → after.position ≡ b.position
        → after.pnl ≡ b.pnl
        → after.closed ≡ b.closed
        → Move options row b after
    opens :
        CanOpen options row b
        → after.position
          ≡ some (record {
            token_units = div row.size_usd row.token_price_usd;
            entry_at_ms = row.observed_at_ms;
          })
        → after.pnl ≡ b.pnl
        → after.closed ≡ b.closed
        → Move options row b after
    closes :
        (p : Position F)
        → CanClose options row b p
        → after.position ≡ none
        → after.pnl ≡ add b.pnl (exit_pnl N options row p)
        → after.closed ≡ b.closed + 1
        → Move options row b after

  too_early :
      {options : Options F} {row : Observation F} {b : Book} {p q : Position F}
      → b.position ≡ some p
      → leb row.observed_at_ms p.entry_at_ms ≡ true
      → ¬ (CanClose options row b q)
  too_early {p = p} {q = q} held e c =
      let same : p ≡ q = some-injective p q (sym held ∙ c.held) in
      let at : p.entry_at_ms ≡ q.entry_at_ms = ap (λ x. x.entry_at_ms) same in ground arith

  at_loss :
      {options : Options F} {row : Observation F} {b : Book} {p q : Position F}
      → b.position ≡ some p
      → lt (exit_pnl N options row p) (int (pos 0)) ≡ true
      → ¬ (CanClose options row b q)
  at_loss {p = p} {q = q} held e c =
      let same : p ≡ q = some-injective p q (sym held ∙ c.held) in cc (same, e, c.profit)

  set_at-same : {A : Type 0} (size : Size) (x : A) (f : Size → A) → set_at size x f size ≡ x
  unfolding set_at
  set_at-same size_250 x f = refl
  set_at-same size_1000 x f = refl

  -- A row moves its size's book to what a turn `u` leaves, if that is what the code's turn `t` is.
  by_turn :
      {options : Options F} {row : Observation F} {size : Size} {b : Book} (t u : Turn F)
      → t ≡ u
      → Move options row b (book_of size u.0)
      → Move options row b (book_of size t.0)
  by_turn {options = options} {row = row} {size = size} {b = b} t u e m =
      subst (λ v. Move options row b (book_of size v.0)) (sym e) m

  pub maybe_open-Move :
      (options : Options F) (size : Size) (row : Observation F) (bs : Books F)
      → row.is_live ≡ true
      → row.side ≡ buy_tokenized
      → Move options row
          (book_of size bs)
          (book_of size (maybe_open N options size row (bought N size row bs)).0)
  unfolding maybe_open
  maybe_open-Move options size row bs live buys =
      let now = bought N size row bs in
      let code = maybe_open N options size row now in
      let no_close : (p : Position F) → ¬ (CanClose options row (book_of size bs) p) =
        λ p c. ground arith in
      elim (Bool-cases (lt row.net_bps options.min_net_edge_bps)) [
        | inl e ↦
            by_turn code (now, some edge_below_threshold) (rw (e, if◌then◌else◌) refl)
              (stays (λ c. ground arith) no_close refl refl refl)
        | inr e ↦ elim (Option-cases (bs.positions size)) [
          | inr (p, held) ↦
              by_turn code (now, some position_already_open) (rw (e, held, if◌then◌else◌) refl)
                (stays (λ c. ground arith) no_close refl refl refl)
          | inl free ↦ elim (Bool-cases (is_some (bs.latest_sell size))) [
            | inr f ↦
                by_turn code (now, some missing_exit_quote) (rw (e, free, f, if◌then◌else◌) refl)
                  (stays (λ c. ground arith) no_close refl refl refl)
            | inl f ↦ elim (Bool-cases (le row.token_price_usd (int (pos 0)))) [
              | inl g ↦
                  by_turn code (now, none) (rw (e, free, f, g, if◌then◌else◌) refl)
                    (stays (λ c. ground arith) no_close refl refl refl)
              | inr g ↦
                  by_turn code (opened N size row now, none)
                    (rw (e, free, f, g, if◌then◌else◌) refl)
                    (opens
                      (record {
                        live = live;
                        buys = buys;
                        edge = e;
                        free = free;
                        exit_quoted = f;
                        priced = g;
                      })
                      (set_at-same size _ bs.positions) refl refl)
            ]
          ]
        ]
      ]

  pub maybe_close-Move :
      (options : Options F) (size : Size) (row : Observation F) (bs : Books F)
      → row.is_live ≡ true
      → row.side ≡ sell_tokenized
      → Move options row
          (book_of size bs)
          (book_of size (maybe_close N options size row (sold N size row bs)).0)
  unfolding maybe_close
  maybe_close-Move options size row bs live sells =
      let now = sold N size row bs in
      let code = maybe_close N options size row now in
      let no_open : ¬ (CanOpen options row (book_of size bs)) = λ c. ground arith in
      elim (Option-cases (bs.positions size)) [
        | inl free ↦
            by_turn code (now, none) (rw (free, maybe_close) refl)
              (stays no_open (λ p c. ground (arith, c.held)) refl refl refl)
        | inr (p, held) ↦ elim (Bool-cases (leb row.observed_at_ms p.entry_at_ms)) [
          | inl e ↦
              by_turn code (now, none) (rw (held, maybe_close, e, if◌then◌else◌) refl)
                (stays no_open (λ q c. too_early held e c) refl refl refl)
          | inr e ↦ elim (Bool-cases (lt (exit_pnl N options row p) (int (pos 0)))) [
            | inl f ↦
                by_turn code (now, some exit_not_profitable)
                  (rw (held, maybe_close, e, f, if◌then◌else◌) refl)
                  (stays no_open (λ q c. at_loss held f c) refl refl refl)
            | inr f ↦
                by_turn code (closed_with N size (exit_pnl N options row p) now, none)
                  (rw (held, maybe_close, e, f, if◌then◌else◌) refl)
                  (closes p
                    (record {
                      live = live;
                      sells = sells;
                      held = held;
                      later = lt_of_leb _ _ e;
                      profit = f;
                    })
                    (set_at-same size _ bs.positions) (set_at-same size _ bs.pnl)
                    (set_at-same size _ bs.closed))
          ]
        ]
      ]
