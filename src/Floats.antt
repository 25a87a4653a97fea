-- ===== src/Floats.antt =====
-- The floating-point types of the language, by the operations that src/transport.rs uses.
-- `F32` and `F64` are any types; the operations on them are those of IEEE 754.
use rust_jack.Base.{ℕ, Bool}

pub record Floats (F32 F64 : Type 0) : Type 0 where
  -- A literal such as `4.`, and the zero of the comparisons.
  pub lit32 : ℕ → F32
  pub lit64 : ℕ → F64
  -- `a <= b` and `a < b`, which are false where one side is a NaN.
  pub le32 : F32 → F32 → Bool
  pub le64 : F64 → F64 → Bool
  pub lt64 : F64 → F64 → Bool
  -- `x.ceil() as usize`, which saturates, and is 0 at a NaN.
  pub ceil_usize32 : F32 → ℕ
  pub ceil_usize64 : F64 → ℕ
