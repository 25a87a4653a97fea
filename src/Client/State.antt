-- ===== src/Client/State.antt =====
-- What every operation on clients shares: the state of the process, the global lock of
-- src/client/common.rs, and how a call ends.
use rust_jack.Base.{ℕ, ◌-◌, ◌==◌, if◌then◌else◌}
use rust_jack.Life.{Lives}

-- `CREATE_OR_DESTROY_CLIENT_MUTEX`, a `Mutex` of the standard library: a thread that unwinds while it
-- holds the guard poisons it.
pub data Lock : Type 0 where
  free held poisoned : Lock

-- The lock, the counts of the client life cells, the next cell and the next box to be allocated, and
-- the state `L` of libjack.
pub record World (L : Type 0) : Type 0 where
  pub mutex : Lock
  pub lives : Lives
  pub next_cell : ℕ
  pub next_box : ℕ
  pub lib : L

-- A call returns, unwinds, waits for ever on the lock, or aborts the process because a destructor
-- unwinds during an unwinding.
pub data Outcome (L A : Type 0) : Type 0 where
  done : A → World L → Outcome L A
  unwound : World L → Outcome L A
  deadlock : Outcome L A
  aborted : Outcome L A

module _ {L : Type 0} where
  abbrev pub release : {A : Type 0} → Outcome L A → Outcome L A
  release (done a w) = done a (record w { mutex = free })
  release (unwound w) = unwound (record w { mutex = poisoned })
  release deadlock = deadlock
  release aborted = aborted

  -- `let _m = CREATE_OR_DESTROY_CLIENT_MUTEX.lock().unwrap();` and the rest of the block.
  abbrev pub locked : {A : Type 0} → (World L → Outcome L A) → World L → Outcome L A
  locked body w = elim w.mutex [
    | free ↦ release (body (record w { mutex = held }))
    | held ↦ deadlock
    | poisoned ↦ unwound w
  ]

  abbrev pub then_do : {A B : Type 0} → Outcome L A → (A → World L → Outcome L B) → Outcome L B
  then_do (done a w) k = k a w
  then_do (unwound w) k = unwound w
  then_do deadlock k = deadlock
  then_do aborted k = aborted

  -- How the unwinding goes on behind a destructor: a second unwinding aborts.
  abbrev pub after_cleanup : {A : Type 0} → Outcome L (Unit {0}) → Outcome L A
  after_cleanup (done _ w) = unwound w
  after_cleanup (unwound w) = aborted
  after_cleanup deadlock = deadlock
  after_cleanup aborted = aborted

  -- A destructor that runs while the call unwinds.
  abbrev pub on_unwind : {A : Type 0} → (World L → Outcome L (Unit {0})) → Outcome L A → Outcome L A
  on_unwind cleanup (done a w) = done a w
  on_unwind cleanup (unwound w) = after_cleanup (cleanup w)
  on_unwind cleanup deadlock = deadlock
  on_unwind cleanup aborted = aborted

  -- The last `Arc` to a cell is dropped.
  abbrev pub release_life : ℕ → World L → World L
  release_life c w = record w { lives = λ d. if d == c then w.lives d - 1 else w.lives d }

  abbrev pub release_life_after : {A : Type 0} → ℕ → Outcome L A → Outcome L A
  release_life_after c (done a w) = done a (release_life c w)
  release_life_after c (unwound w) = unwound (release_life c w)
  release_life_after c deadlock = deadlock
  release_life_after c aborted = aborted
