-- ===== src/Real.antt =====
-- The `double` of the C++ source: a type with the operations that the program uses. Nothing is
-- relied on of them.
use mpmc_logger.Prelude.{ℕ, Bool}

pub record Double : Type 1 where
  pub Real : Type 0
  -- `static_cast<double>` of an unsigned number.
  pub of_nat : ℕ → Real
  pub plus : Real → Real → Real
  pub times : Real → Real → Real
  pub over : Real → Real → Real
  pub less : Real → Real → Bool
  -- `static_cast<uint64_t>`
  pub to_nat : Real → ℕ
