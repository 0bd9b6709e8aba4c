-- ===== src/Base/Double.antt =====
-- A JavaScript `number` where the source computes with fractions: what the code does with one, as an
-- interface. Nothing is assumed of rounding. Times, counts and wei are whole and stay native numbers.
use Prim.Native.Nat.{ℕ, ◌*◌, ◌/◌, ◌^◌}
use mathlib.Core.Path.{◌≡◌}
use mathlib.Core.Logic.{◌⊎◌}
use mathlib.Core.Bool.{Bool, true, false}
use native.Mathlib.Omega.{arith}
use tapioca_money.Base.Int.{ℤ, pos, ◌+ℤ◌, ◌-ℤ◌, magnitude, signed, ltb_ℤ, leb_ℤ, eq_ℤ}

pub record Double (N : Type 0) : Type 0 where
  -- the literal for n / 10^k
  pub decimal : ℕ → ℕ → N
  pub add : N → N → N
  pub sub : N → N → N
  pub mul : N → N → N
  pub div : N → N → N
  pub abs : N → N
  pub lt : N → N → Bool
  pub le : N → N → Bool
  pub eq : N → N → Bool
  pub is_nan : N → Bool

-- What IEEE 754 says of the comparisons, NaN and the infinities included.
pub record IsIeee {N : Type 0} (d : Double N) : Type 0 where
  -- `b - a > 0` exactly if `a < b`, since differences do not underflow
  pub sub_sign : (a b : N) → d.lt (d.decimal 0 0) (d.sub b a) ≡ d.lt a b
  -- a number that is not NaN compares with both ends of `a < c`
  pub lt_split :
      (a b c : N) → d.is_nan b ≡ false → d.lt a c ≡ true → (d.lt a b ≡ true) ⊎ (d.lt b c ≡ true)
  pub lt_irrefl : (a : N) → d.lt a a ≡ false
  pub lt_asym : (a b : N) → d.lt a b ≡ true → d.lt b a ≡ false
  -- `a <= b` rules out `b < a`
  pub le_lt : (a b : N) → d.le a b ≡ true → d.lt b a ≡ false

-- Six decimals in fixed point: an instance that computes, for the tests.
abbrev pub scale : ℕ
scale = 1_000_000

abbrev pub fixed : Double ℤ
fixed = record {
  decimal = λ n k. pos (n * scale / 10 ^ k);
  add = ◌+ℤ◌;
  sub = ◌-ℤ◌;
  mul = λ a b. signed a b (magnitude a * magnitude b / scale);
  div = λ a b. signed a b (magnitude a * scale / magnitude b);
  abs = λ a. pos (magnitude a);
  lt = ltb_ℤ;
  le = leb_ℤ;
  eq = eq_ℤ;
  is_nan = λ _. false;
}

pub fixed-IsIeee : IsIeee fixed
fixed-IsIeee = record {
  sub_sign = λ a b. ground arith;
  lt_split = λ a b c _ h. ground arith;
  lt_irrefl = λ a. ground arith;
  lt_asym = λ a b h. ground arith;
  le_lt = λ a b h. ground arith;
}
