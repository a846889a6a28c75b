-- ===== src/Prelude/Fractions.antt =====
-- Fractions of natural numbers, as floats that can be computed with in tests.
use Prim.Native.Nat.{ℕ, ◌+◌, ◌*◌}
use cc_suite.Prelude.Tests.{leb, ltb}
use cc_suite.Prelude.Floats.{Floats}

abbrev pub Fraction : Type 0
Fraction = ℕ × ℕ

instance abbrev pub fractions : Floats
fractions = record {
  Float = Fraction;
  zero = (0, 1);
  one = (1, 1);
  ratio = λ a b. (a, b);
  add = λ p q. (p.0 * q.1 + q.0 * p.1, p.1 * q.1);
  le = λ p q. leb (p.0 * q.1) (q.0 * p.1);
  lt = λ p q. ltb (p.0 * q.1) (q.0 * p.1);
  fixed3 = λ p. "0.5";
  decimal = λ n. "1";
  repr = λ s. s;
}
