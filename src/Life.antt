-- ===== src/Life.antt =====
-- `Arc<()>` and `Weak<()>` of the standard library, with which src/client/client_impl.rs tells its
-- ports and transports whether their client is still alive.
use rust_jack.Base.{ℕ, ◌==◌, if◌then◌else◌, Option, none, some}

-- The number of `Arc`s to each allocation.
abbrev pub Lives : Type 0
Lives = ℕ → ℕ

-- A `Weak` names its allocation.
pub record Weak : Type 0 where
  pub cell : ℕ

-- `Weak::upgrade`. The `Arc` that it makes is dropped again by each caller.
abbrev pub upgrade : Lives → Weak → Option (Unit {0})
upgrade lives w = if lives w.cell == 0 then none else some tt
