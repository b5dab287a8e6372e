-- ===== src/Trading/Signals/Rows.antt =====
-- The rows that a query returns, and how many rows are open, before and after an insertion or an
-- update.
use sotama.Trading.Signals.{
  insert_by, order_by, is_open_with, has_key, close_row, close_signal, open_signal, Signal,
  SignalKey, SignalTable, Entry, Exit, open_signals_by_key,
}
use sotama.Prelude.{
  ◌∷◌, ◌+◌, ◌++◌, ◌≡◌, ◌≤◌, ℕ, In, select, length, map, none, true, if◌then◌else◌, refl, arith, inl,
  inr, ◌⊎◌, [], List, Bool, suc,
}

module _ {A : Type 0} where
  pub length-insert_by :
      (at : A → ℕ) (x : A) (xs : List A) → length (insert_by at x xs) ≡ suc (length xs)
  length-insert_by at x [] = refl
  length-insert_by at x (y ∷ ys) = ground (arith, length-insert_by at x ys)

  pub length-order_by : (at : A → ℕ) (xs : List A) → length (order_by at xs) ≡ length xs
  length-order_by at [] = refl
  length-order_by at (x ∷ xs) =
      omega (arith, length-insert_by at x (order_by at xs), length-order_by at xs)

  pub In-insert_by :
      (at : A → ℕ) (a x : A) (xs : List A) → In a (insert_by at x xs) → (a ≡ x) ⊎ In a xs
  In-insert_by at a x [] h = h
  In-insert_by at a x (y ∷ ys) h = ground (arith, In-insert_by at a x ys)

  pub In-order_by : (at : A → ℕ) (a : A) (xs : List A) → In a (order_by at xs) → In a xs
  In-order_by at a [] h = h
  In-order_by at a (x ∷ xs) h = elim (In-insert_by at a x (order_by at xs) h) [
    | inl e ↦ inl e
    | inr k ↦ inr (In-order_by at a xs k)
  ]

  pub In-select : (p : A → Bool) (a : A) (xs : List A) → In a (select p xs) → In a xs × (p a ≡ true)
  In-select p a [] h = elim h [ ]
  In-select p a (x ∷ xs) h = ground (arith, In-select p a xs)

  pub length-select-append :
      (p : A → Bool) (xs ys : List A)
      → length (select p (xs ++ ys)) ≡ length (select p xs) + length (select p ys)
  length-select-append p [] ys = omega arith
  length-select-append p (x ∷ xs) ys = ground (arith, length-select-append p xs ys)

  pub length-select_cong :
      (p q : A → Bool) (xs : List A)
      → ((x : A) → p x ≡ q x)
      → length (select p xs) ≡ length (select q xs)
  length-select_cong p q [] same = refl
  length-select_cong p q (x ∷ xs) same = ground (arith, same x, length-select_cong p q xs same)

module _ {F : Type 0} (eq : F → F → Bool) where
  -- how many rows with a key are open
  abbrev pub open_count : SignalKey F → List (Signal F) → ℕ
  open_count key rows = length (select (is_open_with eq key) rows)

  pub open_count-open_signals_by_key :
      (key : SignalKey F) (t : SignalTable F)
      → length (open_signals_by_key eq key t) ≡ open_count key t.rows
  unfolding open_signals_by_key
  open_count-open_signals_by_key key t =
      length-order_by (λ row. row.entry.entry_at) (select (is_open_with eq key) t.rows)

  pub In-open_signals_by_key :
      (key : SignalKey F) (p : Signal F) (t : SignalTable F)
      → In p (open_signals_by_key eq key t)
      → In p t.rows × (is_open_with eq key p ≡ true)
  unfolding open_signals_by_key
  In-open_signals_by_key key p t h =
      In-select (is_open_with eq key) p t.rows (In-order_by (λ row. row.entry.entry_at) p _ h)

  open_count-close_row :
      (key : SignalKey F) (id : ℕ) (x : Exit F) (rows : List (Signal F))
      → open_count key (map (close_row id x) rows) ≤ open_count key rows
  open_count-close_row key id x [] = omega arith
  open_count-close_row key id x (row ∷ rows) = ground (arith, open_count-close_row key id x rows)

  -- Closing opens nothing.
  pub open_count-close_signal :
      (key : SignalKey F) (id : ℕ) (x : Exit F) (t : SignalTable F)
      → open_count key (close_signal id x t).rows ≤ open_count key t.rows
  unfolding close_signal
  open_count-close_signal key id x t = open_count-close_row key id x t.rows

  -- Opening adds one to its own keys.
  pub open_count-open_signal :
      (key : SignalKey F) (e : Entry F) (t : SignalTable F)
      → open_count key (open_signal e t).1.rows
        ≡ open_count key t.rows
          + (if has_key eq key (record { signal_id = t.next_id; entry = e; exit = none })
              then 1
              else 0)
  unfolding open_signal
  open_count-open_signal key e t = ground (
    arith,
    length-select-append (is_open_with eq key) t.rows
        (record { signal_id = t.next_id; entry = e; exit = none } ∷ []),
  )
