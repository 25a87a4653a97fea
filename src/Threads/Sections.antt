-- ===== src/Threads/Sections.antt =====
-- How a call is put together: a block under `let _m = CREATE_OR_DESTROY_CLIENT_MUTEX.lock().unwrap();`
-- and what a thread does behind a block.
use rust_jack.Base.{◌≡◌, refl}
use rust_jack.Client.State.{free, held, poisoned, World, locked, release}
use rust_jack.Threads.{Section, replies, unwinds, access, lock, unlock, poison, accessed, run}

module _ {L A : Type 0} where
  -- The guard is dropped at the end, or by the unwinding, which poisons the lock.
  unfoldable pub unlocking : Section L A → Section L A
  unlocking (replies a) = unlock (replies a)
  unlocking unwinds = poison unwinds
  unlocking (access f next) = access f λ w. unlocking (next w)
  unlocking (lock s t) = lock (unlocking s) (unlocking t)
  unlocking (unlock s) = unlock (unlocking s)
  unlocking (poison s) = poison (unlocking s)

  -- A block under the lock. A panic of the `unwrap` comes before there is a guard.
  unfoldable pub guarded : Section L A → Section L A
  unfolding unlocking
  guarded s = lock (unlocking s) unwinds

  -- An access behind the code, whether it returns or unwinds.
  unfoldable pub finally : (World L → World L) → Section L A → Section L A
  finally f (replies a) = access f λ _. replies a
  finally f unwinds = access f λ _. unwinds
  finally f (access g next) = access g λ w. finally f (next w)
  finally f (lock s t) = lock (finally f s) (finally f t)
  finally f (unlock s) = unlock (finally f s)
  finally f (poison s) = poison (finally f s)

  -- Accesses only, and then an end.
  unfoldable pub IsPlain : Section L A → Type 0
  IsPlain (access f next) = (w : World L) → IsPlain (next w)
  IsPlain (lock s t) = ⊥
  IsPlain (unlock s) = ⊥
  IsPlain (poison s) = ⊥
  IsPlain _ = Unit {0}

  -- Nothing is left to do.
  unfoldable pub IsEnd : Section L A → Type 0
  IsEnd (replies a) = Unit {0}
  IsEnd unwinds = Unit {0}
  IsEnd _ = ⊥

  -- Accesses only, and then the guard is dropped and the call ends.
  unfoldable pub IsBlock : Section L A → Type 0
  IsBlock (access f next) = (w : World L) → IsBlock (next w)
  IsBlock (unlock s) = IsEnd s
  IsBlock (poison s) = IsEnd s
  IsBlock _ = ⊥

  -- The lock is taken before anything else, and given back behind everything else.
  unfoldable pub IsGuarded : Section L A → Type 0
  IsGuarded (lock s t) = IsBlock s × IsEnd t
  IsGuarded _ = ⊥

  unlocking-IsBlock : (s : Section L A) → IsPlain s → IsBlock (unlocking s)
  unfolding unlocking IsPlain IsBlock IsEnd
  unlocking-IsBlock (replies a) h = tt
  unlocking-IsBlock unwinds h = tt
  unlocking-IsBlock (access f next) h = λ w. unlocking-IsBlock (next w) (h w)
  unlocking-IsBlock (lock s t) h = absurd h
  unlocking-IsBlock (unlock s) h = absurd h
  unlocking-IsBlock (poison s) h = absurd h

  pub guarded-IsGuarded : (s : Section L A) → IsPlain s → IsGuarded (guarded s)
  unfolding guarded IsGuarded IsEnd
  guarded-IsGuarded s h = (unlocking-IsBlock s h, tt)

  run-unlocking :
      (s : Section L A) (w : World L) → IsPlain s → run (unlocking s) w ≡ release (run s w)
  unfolding run unlocking IsPlain
  run-unlocking (replies a) w h = refl
  run-unlocking unwinds w h = refl
  run-unlocking (access f next) w h = run-unlocking (next w) (accessed f w) (h w)
  run-unlocking (lock s t) w h = absurd h
  run-unlocking (unlock s) w h = absurd h
  run-unlocking (poison s) w h = absurd h

  -- The guarded code runs as the block does under the lock.
  pub run-guarded :
      (s : Section L A) (w : World L) → IsPlain s → run (guarded s) w ≡ locked (run s) w
  unfolding run guarded
  run-guarded s w h =
      elim w.mutex
        as (λ m.
          run (guarded s) (record w { mutex = m }) ≡ locked (run s) (record w { mutex = m })) [
            | free ↦ run-unlocking s (record w { mutex = held }) h
            | held ↦ refl
            | poisoned ↦ refl
          ]
