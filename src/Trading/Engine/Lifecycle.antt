-- ===== src/Trading/Engine/Lifecycle.antt =====
-- What an observation may do to the table of signals, as a relation: the conditions under which a
-- position is opened or closed, and that nothing else happens.
use sotama.Backtest.{Side, buy_tokenized, sell_tokenized}
use sotama.Prelude.Int.{pos}
use sotama.Prelude.Num.{Num}
use sotama.Trading.Signals.{Signal, SignalTable, open_signal, close_signal, is_open_with}
use sotama.Trading.Signals.Rows.{open_count, open_count-open_signals_by_key, In-open_signals_by_key}
use sotama.Trading.{is_live_mode, same_side}
use sotama.Trading.Engine.{
  is_empty, TradeExecution, EngineConfig, Observed, World, Ended, finished, failed_with, Call,
  call_threw, has_succeeded, and_then, entry_of, exit_of, is_stale_at, has_converged, key_of,
  complete_units, pnl_of,
}
use sotama.Trading.Engine.Observe.{
  observe_all, may_open, open_with, executed_units, maybe_open_spot_inventory, close_with,
  close_position_at, close_one, close_all, maybe_close_spot_inventory, dispatch, on_observation,
  execute_open, execute_close, is_refused, open_positions,
}
use sotama.Prelude.{
  ◌∷◌, ◌||◌, ◌≡◌, ◌⊎◌, ◌∙◌, ℕ, In, any, length, some, true, false, if◌then◌else◌, refl, arith, inl,
  inr, Bool-cases, Option-cases, [], List, Option, sym,
}

length-empty : {A : Type 0} (xs : List A) → is_empty xs ≡ true → length xs ≡ 0
length-empty [] h = refl
length-empty (x ∷ xs) h = ground arith

module _ (N : Num) (show : Num.F N → List ℕ) (show_id : ℕ → List ℕ) (E : TradeExecution (Num.F N))
    (cfg : EngineConfig (Num.F N)) where
  open N use {F, int, lt, le, eq}
  open E use {Log, mode}

  -- In a live mode, only what was executed changes the table.
  abbrev pub LiveSucceeds : Call → Type 0
  LiveSucceeds c = is_live_mode mode ≡ true → has_succeeded c ≡ true

  pub record CanOpen (o : Observed F) (t : SignalTable F) (c : Call) : Type 0 where
    pub buys : o.side ≡ buy_tokenized
    pub can_sell_later : any (same_side sell_tokenized) o.pair.directions ≡ true
    pub is_priced : le o.token_price_usd (int (pos 0)) ≡ false
    pub has_edge : lt o.net_edge_bps o.pair.min_net_edge_bps ≡ false
    pub none_open : open_count eq (key_of N o) t.rows ≡ 0
    pub executed : LiveSucceeds c

  -- `start` is the table when the observation came in, `p` a row of it, `units` what it holds.
  pub record CanClose (o : Observed F) (start : SignalTable F) (p : Signal F) (units : F) (c : Call)
      : Type 0 where
    pub sells : o.side ≡ sell_tokenized
    pub was_there : In p start.rows
    pub was_open : is_open_with eq (key_of N o) p ≡ true
    pub is_complete : complete_units N p ≡ some units
    pub is_due :
        (is_stale_at N cfg o.now_ms p ≡ true) ⊎ (has_converged N (pnl_of N cfg o p units) ≡ true)
    pub executed : LiveSucceeds c

  pub data Step (o : Observed F) (start : SignalTable F)
      : SignalTable F → SignalTable F → Type 0 where
    opens :
        (t : SignalTable F) (c : Call) (units : Option F)
        → CanOpen o t c
        → Step o start t (open_signal (entry_of N o c units) t).1
    closes :
        (t : SignalTable F) (p : Signal F) (units : F) (c : Call)
        → CanClose o start p units c
        → Step o start t (close_signal p.signal_id (exit_of N cfg o p (pnl_of N cfg o p units) c) t)

  pub data Run (o : Observed F) (start : SignalTable F)
      : SignalTable F → SignalTable F → Type 0 where
    here : {t : SignalTable F} → Run o start t t
    next : {t u v : SignalTable F} → Step o start t u → Run o start u v → Run o start t v

  Run-trans :
      {o : Observed F} {start t u v : SignalTable F}
      → Run o start t u
      → Run o start u v
      → Run o start t v
  Run-trans here r = r
  Run-trans (next s q) r = next s (Run-trans q r)

  not_refused : (c : Call) → is_refused N show show_id E cfg c ≡ false → LiveSucceeds c
  not_refused c h live = ground arith

  pub none_open-open_count :
      (o : Observed F) (w : World F Log)
      → is_empty (open_positions N show show_id E cfg o w) ≡ true
      → open_count eq (key_of N o) w.signals.rows ≡ 0
  none_open-open_count o w h =
      sym (open_count-open_signals_by_key eq (key_of N o) w.signals)
      ∙ length-empty (open_positions N show show_id E cfg o w) h

  may_open-CanOpen :
      (o : Observed F) (w : World F Log) (c : Call)
      → o.side ≡ buy_tokenized
      → may_open N show show_id E cfg o w ≡ true
      → is_refused N show show_id E cfg c ≡ false
      → CanOpen o w.signals c
  may_open-CanOpen o w c buys h allowed = record {
    buys = buys;
    can_sell_later = ground arith;
    is_priced = ground arith;
    has_edge = ground arith;
    none_open = none_open-open_count o w (ground arith);
    executed = not_refused c allowed;
  }

  open_with-Run :
      (o : Observed F) (w : World F Log) (r : Call × Log)
      → o.side ≡ buy_tokenized
      → may_open N show show_id E cfg o w ≡ true
      → Run o w.signals w.signals (open_with N show show_id E cfg o w.signals r).1.signals
  open_with-Run o w (call_threw message, log) buys h = here
  open_with-Run o w (c, log) buys h = elim (Bool-cases (is_refused N show show_id E cfg c)) [
    | inl e ↦ rw (e, if◌then◌else◌) here
    | inr e ↦
        rw (e, if◌then◌else◌)
          (next
            (opens w.signals c (executed_units N show show_id E cfg o c)
              (may_open-CanOpen o w c buys h e))
            here)
  ]

  maybe_open-Run :
      (o : Observed F) (w : World F Log)
      → o.side ≡ buy_tokenized
      → Run o w.signals w.signals (maybe_open_spot_inventory N show show_id E cfg o w).1.signals
  unfolding maybe_open_spot_inventory
  maybe_open-Run o w buys = elim (Bool-cases (may_open N show show_id E cfg o w)) [
    | inl e ↦
        rw (e, if◌then◌else◌) (open_with-Run o w (execute_open N show show_id E cfg o w.log) buys e)
    | inr e ↦ rw (e, if◌then◌else◌) here
  ]

  close_with-Run :
      (o : Observed F) (start t : SignalTable F) (p : Signal F) (units : F) (r : Call × Log)
      → ((c : Call) → LiveSucceeds c → CanClose o start p units c)
      → Run o start t (close_with N show show_id E cfg o p (pnl_of N cfg o p units) t r).1.signals
  close_with-Run o start t p units (call_threw message, log) can = here
  close_with-Run o start t p units (c, log) can =
      elim (Bool-cases (is_refused N show show_id E cfg c)) [
        | inl e ↦ rw (e, if◌then◌else◌) here
        | inr e ↦ rw (e, if◌then◌else◌) (next (closes t p units c (can c (not_refused c e))) here)
      ]

  -- The rows that the loop goes through.
  abbrev Listed : Observed F → SignalTable F → Signal F → Type 0
  Listed o start p = In p start.rows × (is_open_with eq (key_of N o) p ≡ true)

  close_position_at-Run :
      (o : Observed F) (start : SignalTable F) (p : Signal F) (units : F) (w : World F Log)
      → o.side ≡ sell_tokenized
      → Listed o start p
      → complete_units N p ≡ some units
      → Run o start w.signals (close_position_at N show show_id E cfg o p units w).1.signals
  unfolding close_position_at
  close_position_at-Run o start p units w sells listed complete =
      elim (Bool-cases (is_stale_at N cfg o.now_ms p || has_converged N (pnl_of N cfg o p units))) [
        | inl e ↦
            rw (e, if◌then◌else◌)
              (close_with-Run o start w.signals p units
                (execute_close N show show_id E cfg o p w.log)
                (λ c live. record {
                  sells = sells;
                  was_there = listed.0;
                  was_open = listed.1;
                  is_complete = complete;
                  is_due = ground arith;
                  executed = live;
                }))
        | inr e ↦ rw (e, if◌then◌else◌) here
      ]

  close_one-Run :
      (o : Observed F) (start : SignalTable F) (p : Signal F) (w : World F Log)
      → o.side ≡ sell_tokenized
      → Listed o start p
      → Run o start w.signals (close_one N show show_id E cfg o p w).1.signals
  unfolding close_one
  close_one-Run o start p w sells listed = elim (Option-cases (complete_units N p)) [
    | inl e ↦ rw (e, close_one) here
    | inr (units, e) ↦ rw (e, close_one) (close_position_at-Run o start p units w sells listed e)
  ]

  and_then-Run :
      (o : Observed F) (start t : SignalTable F) (r : Ended × World F Log)
      (rest : World F Log → Ended × World F Log)
      → Run o start t r.1.signals
      → ((w : World F Log) → Run o start w.signals (rest w).1.signals)
      → Run o start t (and_then r rest).1.signals
  and_then-Run o start t (finished, w) rest first later = Run-trans first (later w)
  and_then-Run o start t (failed_with message, w) rest first later = first

  close_all-Run :
      (o : Observed F) (start : SignalTable F) (ps : List (Signal F)) (w : World F Log)
      → o.side ≡ sell_tokenized
      → ((p : Signal F) → In p ps → Listed o start p)
      → Run o start w.signals (close_all N show show_id E cfg o ps w).1.signals
  unfolding close_all
  close_all-Run o start [] w sells listed = here
  close_all-Run o start (p ∷ ps) w sells listed =
      and_then-Run o start w.signals (close_one N show show_id E cfg o p w)
        (close_all N show show_id E cfg o ps)
        (close_one-Run o start p w sells (listed p (inl refl)))
        (λ w'. close_all-Run o start ps w' sells (λ q m. listed q (inr m)))

  dispatch-Run :
      (side : Side) (o : Observed F) (w : World F Log)
      → o.side ≡ side
      → Run o w.signals w.signals (dispatch N show show_id E cfg side o w).1.signals
  unfolding maybe_close_spot_inventory
  dispatch-Run buy_tokenized o w buys = maybe_open-Run o w buys
  dispatch-Run sell_tokenized o w sells =
      close_all-Run o w.signals (open_positions N show show_id E cfg o w) w sells
        (λ p m. In-open_signals_by_key eq (key_of N o) p w.signals m)

  -- Whatever the executor does, an observation changes the table of signals by a run of steps: each
  -- step opens a position for a quote to buy, under `CanOpen`, or closes one for a quote to sell,
  -- under `CanClose`.
  pub on_observation-Run :
      (o : Observed F) (w : World F Log)
      → Run o w.signals w.signals (on_observation N show show_id E cfg o w).1.signals
  unfolding on_observation
  on_observation-Run o w = dispatch-Run o.side o w refl

  Run_inv :
      (P : SignalTable F → Type 0) (o : Observed F)
      → ((start t u : SignalTable F) → Step o start t u → P t → P u)
      → {start t u : SignalTable F} → Run o start t u
      → P t
      → P u
  Run_inv P o keeps here h = h
  Run_inv P o keeps (next s r) h = Run_inv P o keeps r (keeps _ _ _ s h)

  -- What every step keeps, every sequence of observations keeps.
  pub observe_all_inv :
      (P : SignalTable F → Type 0)
      → ((o : Observed F) (start t u : SignalTable F) → Step o start t u → P t → P u)
      → (os : List (Observed F)) (w : World F Log) → P w.signals
      → P (observe_all N show show_id E cfg os w).signals
  unfolding observe_all
  observe_all_inv P keeps [] w h = h
  observe_all_inv P keeps (o ∷ os) w h =
      observe_all_inv P keeps os (on_observation N show show_id E cfg o w).1
        (Run_inv P o (keeps o) (on_observation-Run o w) h)
