-- ===== src/Floats.antt =====
-- Floating point: the type and its operations are a parameter of the model, since the C++ compiler
-- and the hardware supply them. Nothing is assumed of the operations here; a theorem that needs a
-- law states it as a hypothesis.
pub mod Sample
use skan.Base.{ℕ, Bool, ℤ}

-- `literal p q` is the constant p / q of the source, all of which are binary fractions. The order
-- is given as Boolean tests, false at a NaN.
pub record Floats (D : Type 0) : Type 0 where
  pub literal : ℕ → ℕ → D
  pub of_nat : ℕ → D
  pub of_int : ℤ → D
  pub add : D → D → D
  pub sub : D → D → D
  pub mul : D → D → D
  pub div : D → D → D
  pub abs : D → D
  pub lt : D → D → Bool
  pub le : D → D → Bool
  pub is_finite : D → Bool
  -- `static_cast<std::size_t>` and `static_cast<long long>`, in range.
  pub to_nat : D → ℕ
  pub to_int : D → ℤ
