-- ===== src/Threads/Waiting.antt =====
-- A thread that waits for the lock: what its code is, and what the lock lets it do.
use rust_jack.Base.{◌≡◌, refl, subst, false, List}
use rust_jack.Client.State.{free, held, poisoned, World, Outcome}
use rust_jack.Threads.{Section, replies, unwinds, access, unlock, poison, lock, run}
use rust_jack.Threads.Sections.{IsGuarded, IsBlock, IsEnd}
use rust_jack.Threads.Invariant.{gives_back, IsOnWay}

module _ {L A : Type 0} (s t : Section L A) (w : World L) where
  pub run-lock_free : w.mutex ≡ free → run (lock s t) w ≡ run s (record w { mutex = held })
  unfolding run
  run-lock_free e = rw e refl

  pub run-lock_poisoned : w.mutex ≡ poisoned → run (lock s t) w ≡ run t w
  unfolding run
  run-lock_poisoned e = rw e refl

module _ {L A : Type 0} where
  pub guarded-outside : (rest : Section L A) → IsGuarded rest → gives_back rest ≡ false
  unfolding IsGuarded gives_back
  guarded-outside (lock s t) h = refl
  guarded-outside (replies a) h = absurd h
  guarded-outside unwinds h = absurd h
  guarded-outside (access f next) h = absurd h
  guarded-outside (unlock s) h = absurd h
  guarded-outside (poison s) h = absurd h

module _ {L R A : Type 0} (section : R → Section L A) (call : R → World L → Outcome L A)
    (guards : (r : R) → IsGuarded (section r)) (w₀ : World L) where
  pub inner-IsBlock : (r : R) (s t : Section L A) → section r ≡ lock s t → IsBlock s × IsEnd t
  unfolding IsGuarded
  inner-IsBlock r s t e = subst IsGuarded e (guards r)

  -- A request that has just asked waits for the lock.
  pub asked-IsOnWay :
      (w : World L) (log : List R) (r : R) (rest : Section L A)
      → IsGuarded rest
      → section r ≡ rest
      → IsOnWay section call w₀ w log r rest
  unfolding IsGuarded IsOnWay
  asked-IsOnWay w log r (lock s t) h e = e
  asked-IsOnWay w log r (replies a) h e = absurd h
  asked-IsOnWay w log r unwinds h e = absurd h
  asked-IsOnWay w log r (access f next) h e = absurd h
  asked-IsOnWay w log r (unlock s) h e = absurd h
  asked-IsOnWay w log r (poison s) h e = absurd h
