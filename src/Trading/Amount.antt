-- ===== src/Trading/Amount.antt =====
-- packages/market-core/src/amount.ts: amounts in a mint's atomic units. `none` stands for a thrown
-- error. A double at half a unit or more above its floor is below 2^52, so that `floor + 1` is exact.
use sotama.Prelude.Int.{ℤ, pos, ◌+ℤ◌, ◌*ℤ◌, ◌-ℤ◌, eqb_ℤ, ◌/ℤ◌}
use sotama.Prelude.Num.{Num, pow10}
use sotama.Prelude.{ℕ, ◌||◌, some, not, none, if◌then◌else◌, Option, Bool}

-- `floor % 2 === 0`
abbrev pub is_even : ℤ → Bool
is_even a = eqb_ℤ (a -ℤ (a /ℤ pos 2) *ℤ pos 2) (pos 0)

module _ (N : Num) where
  open N use {F, int, sub, mul, div, lt, floor, is_finite}

  abbrev half : F
  half = div (int (pos 1)) (int (pos 2))

  unfoldable pub bankers_round : F → ℤ
  bankers_round x =
      let diff = sub x (int (floor x)) in
      if lt diff half
      then floor x
      else if lt half diff
      then floor x +ℤ pos 1
      else if is_even (floor x)
      then floor x
      else floor x +ℤ pos 1

  -- An infinite product is a double that `BigInt` refuses.
  unfoldable pub ui_to_atomic : F → ℕ → Option ℤ
  ui_to_atomic ui decimals =
      let scaled = mul ui (int (pow10 decimals)) in
      if not (is_finite ui) || lt ui (int (pos 0))
      then none
      else if is_finite scaled
      then some (bankers_round scaled)
      else none

  unfoldable pub atomic_to_ui : ℤ → ℕ → F
  atomic_to_ui atomic decimals = div (int atomic) (int (pow10 decimals))

  unfoldable pub usd_to_input_atomic : F → F → ℕ → Option ℤ
  usd_to_input_atomic usd price_usd decimals =
      if N.le price_usd (int (pos 0)) then none else ui_to_atomic (div usd price_usd) decimals
