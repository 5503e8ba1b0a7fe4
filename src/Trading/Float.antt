-- ===== src/Trading/Float.antt =====
-- Go's float64, as a type with the operations that the trading code uses. No law of them is
-- assumed.
use distributed_framework.Common.{ℕ, Bool, nat_keys, string_keys}

pub record Float (F : Type 0) : Type 0 where
  pub plus : F → F → F
  pub minus : F → F → F
  pub times : F → F → F
  pub over : F → F → F
  pub negate : F → F
  pub magnitude : F → F
  pub of_nat : ℕ → F
  pub less : F → F → Bool
  pub at_most : F → F → Bool
  pub same : F → F → Bool
