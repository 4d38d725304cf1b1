-- ===== src/Service/Floats.antt =====
-- C's `float` arithmetic, which the machine supplies: operations and comparisons on 32-bit patterns.
-- Nothing is assumed of them.
use f4mp.Base.{ℕ, Bool}

pub record Floats : Type 0 where
  pub add : ℕ → ℕ → ℕ
  pub sub : ℕ → ℕ → ℕ
  pub mul : ℕ → ℕ → ℕ
  pub div : ℕ → ℕ → ℕ
  pub sqrt : ℕ → ℕ
  pub lt : ℕ → ℕ → Bool
  pub le : ℕ → ℕ → Bool
