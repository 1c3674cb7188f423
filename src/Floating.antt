-- ===== src/Floating.antt =====
-- The C types `float` and `double` with the operations that the sources apply to them. The
-- development does not fix their values: it takes them as a parameter, and every law that a theorem
-- needs is a hypothesis of that theorem.
use psdk_orangepi.Prelude.{ℕ, Bool}
use psdk_orangepi.Prelude.Int.{ℤ}
use psdk_orangepi.Prelude.Text.{Bytes}

pub record Floating : Type 1 where
  pub F : Type 0
  pub D : Type 0
  -- the literals m * 10^-k
  pub lit_f : ℤ → ℕ → F
  pub lit_d : ℤ → ℕ → D
  -- conversions
  pub narrow : D → F
  pub widen : F → D
  pub to_u16 : F → ℕ
  pub of_int : ℤ → D
  -- `a < b` and `a <= b`, false where an operand is a NaN
  pub lt_f : F → F → Bool
  pub le_f : F → F → Bool
  pub lt_d : D → D → Bool
  pub add_f : F → F → F
  pub sub_f : F → F → F
  pub mul_f : F → F → F
  pub div_f : F → F → F
  pub add_d : D → D → D
  pub mul_d : D → D → D
  pub div_d : D → D → D
  -- math.h
  pub atan2f : F → F → F
  pub sin : D → D
  pub cos : D → D
  pub fmod : D → D → D
  -- `%.kf`
  pub show_f : ℕ → F → Bytes
  pub show_d : ℕ → D → Bytes
