-- ===== src/Threads.antt =====
-- Threads that use what `CREATE_OR_DESTROY_CLIENT_MUTEX` of src/client/common.rs guards at the same
-- time: one access to the shared state, or to the lock, after the other, from any thread.
pub mod Sections
pub mod Requests
pub mod Serial
pub mod Invariant
pub mod Waiting
pub mod Moves
pub mod Progress
pub mod Safety
pub mod Window
mod Tests
use rust_jack.Base.{ℕ, ◌≡◌, List, [], ◌∷◌, ◌++◌, Panics, returns, panics, ℕ_discrete}
use mathlib.Core.Logic.{ite}
use rust_jack.Client.State.{free, held, poisoned, World, Outcome, done, unwound, deadlock}

-- What is left of a call: accesses to the shared state, of which the thread looks at the state before;
-- `lock().unwrap()`, which goes on with the guard, or on a poisoned lock with the unwinding; and the
-- drop of the guard, by an unwinding or not.
pub data Section (L A : Type 0) : Type 0 where
  replies : A → Section L A
  unwinds : Section L A
  access : (World L → World L) → (World L → Section L A) → Section L A
  lock : Section L A → Section L A → Section L A
  unlock poison : Section L A → Section L A

-- No access touches the lock.
abbrev pub accessed : {L : Type 0} → (World L → World L) → World L → World L
accessed f w = record (f w) { mutex = w.mutex }

-- A call that no other thread disturbs.
unfoldable pub run : {L A : Type 0} → Section L A → World L → Outcome L A
run (replies a) w = done a w
run unwinds w = unwound w
run (access f next) w = run (next w) (accessed f w)
run (lock inner refused) w = elim w.mutex [
  | free ↦ run inner (record w { mutex = held })
  | held ↦ deadlock
  | poisoned ↦ run refused w
]
run (unlock rest) w = run rest (record w { mutex = free })
run (poison rest) w = run rest (record w { mutex = poisoned })

abbrev pub update {ℓ} : {A : Type ℓ} → (ℕ → A) → ℕ → A → ℕ → A
update f i a j = ite (ℕ_discrete i j) a (f j)

-- Where a thread stands with its request.
pub data Pc (L R A : Type 0) : Type 0 where
  idle : Pc L R A
  running : R → Section L A → Pc L R A
  over : R → Panics A → Pc L R A

-- The shared state, the threads, and the requests that got past a lock, the last one first.
pub record Threads (L R A : Type 0) : Type 0 where
  pub world : World L
  pub pc : ℕ → Pc L R A
  pub log : List R

module _ {L R A : Type 0} (section : R → Section L A) where
  -- One step of one thread, with what it adds to the log. There is no step with a lock that is held:
  -- the thread waits.
  pub data Move (w : World L) : Pc L R A → World L → Pc L R A → List R → Type 0 where
    asks : {r : R} → Move w idle w (running r (section r)) []
    enters :
        {r : R} {inner refused : Section L A}
        → w.mutex ≡ free
        → Move w
            (running r (lock inner refused))
            (record w { mutex = held })
            (running r inner)
            (r ∷ [])
    bounces :
        {r : R} {inner refused : Section L A}
        → w.mutex ≡ poisoned
        → Move w (running r (lock inner refused)) w (running r refused) (r ∷ [])
    accesses :
        {r : R} {f : World L → World L} {next : World L → Section L A}
        → Move w (running r (access f next)) (accessed f w) (running r (next w)) []
    unlocks :
        {r : R} {rest : Section L A}
        → Move w (running r (unlock rest)) (record w { mutex = free }) (running r rest) []
    poisons :
        {r : R} {rest : Section L A}
        → Move w (running r (poison rest)) (record w { mutex = poisoned }) (running r rest) []
    leaves : {r : R} {a : A} → Move w (running r (replies a)) w (over r (returns a)) []
    breaks : {r : R} → Move w (running r unwinds) w (over r panics) []
    rests : {r : R} {p : Panics A} → Move w (over r p) w idle []

  pub data Step (s : Threads L R A) : Threads L R A → Type 0 where
    pick :
        (i : ℕ) {w : World L} {p : Pc L R A} {rs : List R}
        → Move s.world (s.pc i) w p rs
        → Step s (record { world = w; pc = update s.pc i p; log = rs ++ s.log })

  -- No thread has asked for anything yet.
  abbrev pub init : World L → Threads L R A
  init w = record { world = w; pc = λ _. idle; log = [] }

  pub data Reach (w : World L) : Threads L R A → Type 0 where
    start : Reach w (init w)
    later : {s t : Threads L R A} → Reach w s → Step s t → Reach w t
