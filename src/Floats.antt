-- ===== src/Floats.antt =====
-- Python's `float`, as an interface: the operations that the program calls, and the order laws that
-- the theorems use. No value here is a NaN; the laws are those of IEEE 754 on the other values.
pub mod Thousandths
use onegov2_spatial_assistan.Prelude.{ℕ, ◌≡◌, Bool, true, false, not}

pub record Floats : Type 1 where
  pub Float : Type 0
  -- `a <= b`
  pub le : Float → Float → Bool
  pub add : Float → Float → Float
  pub sub : Float → Float → Float
  pub mul : Float → Float → Float
  pub div : Float → Float → Float
  -- the literal m · 10^-k
  pub decimal : ℕ → ℕ → Float
  -- `round(x, k)`
  pub round : Float → ℕ → Float

module _ (F : Floats) where
  open F use {Float, le, sub, decimal}

  -- `a < b`
  abbrev pub flt : Float → Float → Bool
  flt a b = not (le b a)

  -- `float(n)`
  abbrev pub of_ℕ : ℕ → Float
  of_ℕ n = decimal n 0

  abbrev pub zero_float : Float
  zero_float = decimal 0 0

  -- `-a`
  abbrev pub neg : Float → Float
  neg a = sub zero_float a

  pub record IsOrdered : Type 0 where
    pub le_refl : (a : Float) → le a a ≡ true
    pub le_total : (a b : Float) → le a b ≡ false → le b a ≡ true
    pub le_trans : (a b c : Float) → le a b ≡ true → le b c ≡ true → le a c ≡ true
