-- ===== src/Prelude/Num.antt =====
-- JavaScript's `number`. Prices, basis points and token amounts are IEEE doubles, of which there is
-- no type here: `Num` is the interface to them, the operations that the source applies. No law of
-- them is assumed but those that a theorem names. `Int_num` is an instance that runs.
use Prim.Native.Nat.{ℕ, ◌^◌}
use mathlib.Core.Bool.{Bool, true}
use sotama.Prelude.Int.{ℤ, pos, ◌+ℤ◌, ◌-ℤ◌, ◌*ℤ◌, ◌/ℤ◌, ltb_ℤ, leb_ℤ, eqb_ℤ, abs_ℤ}

pub record Num : Type 1 where
  pub F : Type 0
  -- the integers among the doubles, as literals and counters are
  pub int : ℤ → F
  pub add : F → F → F
  pub sub : F → F → F
  pub mul : F → F → F
  pub div : F → F → F
  pub abs : F → F
  -- `<`, `<=` and `===`
  pub lt : F → F → Bool
  pub le : F → F → Bool
  pub eq : F → F → Bool
  pub is_finite : F → Bool
  -- `Math.round` and `Math.floor`, on finite numbers
  pub round : F → ℤ
  pub floor : F → ℤ

-- `Math.pow(10, k)`
abbrev pub pow10 : ℕ → ℤ
pow10 k = pos (10 ^ k)

abbrev pub Int_num : Num
Int_num = record {
  F = ℤ;
  int = λ x. x;
  add = ◌+ℤ◌;
  sub = ◌-ℤ◌;
  mul = ◌*ℤ◌;
  div = ◌/ℤ◌;
  abs = abs_ℤ;
  lt = ltb_ℤ;
  le = leb_ℤ;
  eq = eqb_ℤ;
  is_finite = λ x. true;
  round = λ x. x;
  floor = λ x. x;
}
