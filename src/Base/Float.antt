-- ===== src/Base/Float.antt =====
-- Go's float64 as a type with its operations, an argument of the code that computes with it. The
-- operations carry no law: what a property needs of them is a hypothesis of that property.
use Prim.Native.Nat.{ℕ, ◌*◌, ◌/◌, ◌+◌, ◌-◌, ◌^◌}
use mathlib.Core.Bool.{Bool}
use gateway_core.Base.Tests.{ltb, leb, ◌==◌}
use gateway_core.Base.Int.{ℤ, pos, pos_part}

pub record Float (F : Type 0) : Type 0 where
  -- `float64(n)` of an integer, and `int64(x)` of a float.
  pub of_ℤ : ℤ → F
  pub to_ℤ : F → ℤ
  -- The literal n / 10^k.
  pub literal : ℕ → ℕ → F
  pub add : F → F → F
  pub sub : F → F → F
  pub mul : F → F → F
  pub div : F → F → F
  pub less : F → F → Bool
  pub at_most : F → F → Bool
  pub same : F → F → Bool

-- Thousandths of a nonnegative number, for runs at concrete inputs.
abbrev pub milli : Float ℕ
milli = record {
  of_ℤ = λ a. pos_part a * 1000;
  to_ℤ = λ x. pos (x / 1000);
  literal = λ n k. n * 1000 / 10 ^ k;
  add = λ x y. x + y;
  sub = λ x y. x - y;
  mul = λ x y. x * y / 1000;
  div = λ x y. x * 1000 / y;
  less = ltb;
  at_most = leb;
  same = ◌==◌;
}
