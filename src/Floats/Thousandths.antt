-- ===== src/Floats/Thousandths.antt =====
-- A concrete arithmetic for the examples: differences of natural numbers of thousandths, with
-- products and quotients cut off. It has the order laws.
use onegov2_spatial_assistan.Prelude.{ℕ, ◌+◌, ◌-◌, ◌*◌, ◌/◌, ◌^◌, leb, ltb, if◌then◌else◌, arith}
use onegov2_spatial_assistan.Floats.{Floats, IsOrdered}

abbrev divided : ℕ × ℕ → ℕ × ℕ → ℕ × ℕ
divided (a, b) (c, d) = if ltb d c then ((a * 1000) / (c - d), (b * 1000) / (c - d)) else (0, 0)

abbrev pub thousandths : Floats
thousandths = record {
  Float = ℕ × ℕ;
  le = λ x y. leb (x.0 + y.1) (y.0 + x.1);
  add = λ x y. (x.0 + y.0, x.1 + y.1);
  sub = λ x y. (x.0 + y.1, x.1 + y.0);
  mul = λ x y. ((x.0 * y.0 + x.1 * y.1) / 1000, (x.0 * y.1 + x.1 * y.0) / 1000);
  div = divided;
  decimal = λ m k. ((m * 1000) / (10 ^ k), 0);
  round = λ x k. x;
}

pub thousandths-IsOrdered : IsOrdered thousandths
thousandths-IsOrdered = record {
  le_refl = λ a. ground arith;
  le_total = λ a b h. ground arith;
  le_trans = λ a b c h k. ground arith;
}
