-- ===== src/Double.antt =====
-- The C type `double`: a parameter of the model, with the operations that the program uses.
use metrics_monitor.Base.{ℕ, Bool}

pub record Double : Type 1 where
  pub Carrier : Type 0
  -- The conversions from an unsigned integer and from a negative `int`.
  pub of_ℕ : ℕ → Carrier
  pub of_neg : ℕ → Carrier
  pub add : Carrier → Carrier → Carrier
  pub sub : Carrier → Carrier → Carrier
  pub mul : Carrier → Carrier → Carrier
  pub div : Carrier → Carrier → Carrier
  -- `x >= 0`.
  pub is_nonneg : Carrier → Bool
