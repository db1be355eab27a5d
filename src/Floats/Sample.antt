-- ===== src/Floats/Sample.antt =====
-- Thousandths as natural numbers: a small instance on which the examples run.
use skan.Base.{
  Bool, false, Option, none, some, ◌||◌, negsuc, ◌^◌, if◌then◌else◌, ℕ, ◌+◌, ◌-◌, ◌*◌, ◌/◌, true,
  ltb, leb, pos, pos_part, ℤ, neg_part, ltz, not, ◌+ℤ◌, ◌-ℤ◌,
}
use skan.Floats.{Floats}

abbrev pub thousandths : Floats ℕ
thousandths = record {
  literal = λ p q. p * 1000 / q;
  of_nat = λ n. n * 1000;
  of_int = λ n. pos_part n * 1000;
  add = λ a b. a + b;
  sub = λ a b. a - b;
  mul = λ a b. a * b / 1000;
  div = λ a b. a * 1000 / b;
  abs = λ a. a;
  lt = ltb;
  le = leb;
  is_finite = λ a. true;
  to_nat = λ a. a / 1000;
  to_int = λ a. pos (a / 1000);
}

-- Whole numbers of 64 bits; a result beyond them is none, which is not finite.
abbrev fit : ℤ → Option ℤ
fit a = if ltz a (negsuc (2 ^ 63 - 1)) || ltz (pos (2 ^ 63 - 1)) a then none else some a

abbrev both : (ℤ → ℤ → ℤ) → Option ℤ → Option ℤ → Option ℤ
both f (some a) (some b) = fit (f a b)
both f _ _ = none

abbrev test : (ℤ → ℤ → Bool) → Option ℤ → Option ℤ → Bool
test f (some a) (some b) = f a b
test f _ _ = false

abbrev is_whole : Option ℤ → Bool
is_whole none = false
is_whole (some a) = true

abbrev whole : Option ℤ → ℤ
whole none = pos 0
whole (some a) = a

abbrev pub ranged : Floats (Option ℤ)
ranged = record {
  literal = λ p q. fit (pos (p / q));
  of_nat = λ n. fit (pos n);
  of_int = fit;
  add = both (λ a b. a +ℤ b);
  sub = both (λ a b. a -ℤ b);
  mul = both (λ a b. pos (pos_part a * pos_part b));
  div = both (λ a b. pos (pos_part a / pos_part b));
  abs = λ a. fit (pos (pos_part (whole a) + neg_part (whole a)));
  lt = test ltz;
  le = test (λ a b. not (ltz b a));
  is_finite = is_whole;
  to_nat = λ a. pos_part (whole a);
  to_int = whole;
}

-- Fractions as pairs of numerator and denominator.
abbrev pub fractions : Floats (ℕ × ℕ)
fractions = record {
  literal = λ p q. (p, q);
  of_nat = λ n. (n, 1);
  of_int = λ n. (pos_part n, 1);
  add = λ a b. (a.0 * b.1 + b.0 * a.1, a.1 * b.1);
  sub = λ a b. (a.0 * b.1 - b.0 * a.1, a.1 * b.1);
  mul = λ a b. (a.0 * b.0, a.1 * b.1);
  div = λ a b. (a.0 * b.1, a.1 * b.0);
  abs = λ a. a;
  lt = λ a b. ltb (a.0 * b.1) (b.0 * a.1);
  le = λ a b. leb (a.0 * b.1) (b.0 * a.1);
  is_finite = λ a. true;
  to_nat = λ a. a.0 / a.1;
  to_int = λ a. pos (a.0 / a.1);
}
