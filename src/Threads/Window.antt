-- ===== src/Threads/Window.antt =====
-- A port that another thread uses while its client is being dropped: `Drop for Client` of
-- src/client/client_impl.rs closes the client under the lock, and the `Arc` that ports and transports
-- look at goes only afterwards.
use rust_jack.Base.{
  sym, ℕ_discrete, ℕ, zero, suc, ◌≡◌, refl, ap, ◌∙◌, false, arith, ℤ, pos, negsuc, returns, err,
}
use rust_jack.Enums.{Str, client_is_no_longer_alive, port_naming_error}
use rust_jack.Strings.{has_nul, Utf8}
use rust_jack.Port.{Port, PortApi, status, set_name, check_client_life}
use rust_jack.Client.{Client, ClientApi, drop_client, close, close_checked}
use rust_jack.Client.State.{
  Lock, free, held, poisoned, World, done, locked, release_life, release_life_after,
}
use rust_jack.Threads.{
  Section, replies, unwinds, access, lock, unlock, poison, accessed, run, update, running, over,
  Threads, Reach, start, later, pick, asks, enters, accesses, unlocks, leaves,
}
use rust_jack.Threads.Sections.{IsPlain, guarded, finally, unlocking, run-guarded}
use rust_jack.Threads.Progress.{Steps, stay, go, picks, update-own}

module _ {L : Type 0} (api : ClientApi L) where
  -- `assert_eq!(res, 0)`
  abbrev asserting : ℤ → Section L (Unit {0})
  asserting (pos zero) = replies tt
  asserting _ = unwinds

  -- The block of `Drop for Client`.
  abbrev closing_block : Client → Section L (Unit {0})
  closing_block c =
      access (λ w. record w { lib = (api.jack_client_close c.ptr w.lib).1 })
        λ w. asserting (api.jack_client_close c.ptr w.lib).0

  -- `Drop for Client`, and behind it the drop of the field `life`.
  unfoldable pub dropping : Client → Section L (Unit {0})
  unfolding guarded finally unlocking
  dropping c = finally (release_life c.cell) (guarded (closing_block c))

  run-finally :
      {A : Type 0} (cell : ℕ) (s : Section L A) (w : World L)
      → run (finally (release_life cell) s) w ≡ release_life_after cell (run s w)
  unfolding run finally
  run-finally cell (replies a) w = refl
  run-finally cell unwinds w = refl
  run-finally cell (access f next) w = run-finally cell (next w) (accessed f w)
  run-finally cell (lock s t) w =
      elim w.mutex
        as (λ m.
          run (finally (release_life cell) (lock s t)) (record w { mutex = m })
          ≡ release_life_after cell (run (lock s t) (record w { mutex = m }))) [
            | free ↦ run-finally cell s (record w { mutex = held })
            | held ↦ refl
            | poisoned ↦ run-finally cell t (record w { mutex = poisoned })
          ]
  run-finally cell (unlock s) w = run-finally cell s (record w { mutex = free })
  run-finally cell (poison s) w = run-finally cell s (record w { mutex = poisoned })

  asserting-IsPlain : (code : ℤ) → IsPlain (asserting code)
  unfolding IsPlain
  asserting-IsPlain (pos zero) = tt
  asserting-IsPlain (pos (suc n)) = tt
  asserting-IsPlain (negsuc n) = tt

  run-asserting : (code : ℤ) (w : World L) → run (asserting code) w ≡ close_checked api code w
  unfolding run close_checked
  run-asserting (pos zero) w = refl
  run-asserting (pos (suc n)) w = refl
  run-asserting (negsuc n) w = refl

  run-closing_block : (c : Client) (w : World L) → run (closing_block c) w ≡ close api c w
  unfolding run close
  run-closing_block c w = run-asserting _ _

  closing_block-IsPlain : (c : Client) → IsPlain (closing_block c)
  unfolding IsPlain
  closing_block-IsPlain c = λ w. asserting-IsPlain _

  -- Access by access, a drop that nobody disturbs is the drop as one step.
  run-dropping : (c : Client) (w : World L) → run (dropping c) w ≡ drop_client api c w
  unfolding drop_client dropping
  run-dropping c w =
      run-finally c.cell (guarded (closing_block c)) w
      ∙ ap (release_life_after c.cell) (
          run-guarded (closing_block c) w (closing_block-IsPlain c)
          ∙ ap (λ b. locked b w) (λ i v. run-closing_block c v i))

  -- The states of threads that drop clients.
  abbrev pub Dropping : Type 0
  Dropping = Threads L Client (Unit {0})

  module _ (c : Client) (w : World L) (e : w.mutex ≡ free)
      (accepted : (api.jack_client_close c.ptr w.lib).0 ≡ pos 0) where
    -- What is left of the drop behind the lock: the `Arc`.
    abbrev releasing : Section L (Unit {0})
    releasing = access (release_life c.cell) λ _. replies tt

    abbrev closed_world : World L
    closed_world = record w { lib = (api.jack_client_close c.ptr w.lib).1 }

    abbrev closed_under : Lock → World L
    closed_under m = record closed_world { mutex = m }

    abbrev unlocked : World L → World L
    unlocked v = record v { mutex = free }

    -- Thread 0 has closed the client.
    has_closed :
        (s : Dropping) × Reach dropping w s
        × (s.pc 0 ≡ running c (unlock releasing))
        × (s.world ≡ record closed_world { mutex = held })
    unfolding dropping guarded finally unlocking ℕ_discrete
    has_closed = (
      _,
      later (later (later start (pick 0 asks)) (pick 0 (enters e))) (pick 0 accesses),
      ap (λ code. running c (finally (release_life c.cell) (unlocking (asserting code)))) accepted,
      refl,
    )

    -- It gives the lock back.
    has_unlocked :
        (s : Dropping) × Reach dropping w s
        × (s.pc 0 ≡ running c releasing)
        × (s.world ≡ closed_world)
    has_unlocked =
        let (s, reach, here, world) = has_closed in
        (
          _,
          later reach (picks dropping s 0 here unlocks),
          update-own dropping s.pc 0 _,
          ap unlocked world ∙ ap closed_under (sym e),
        )

    -- It drops the `Arc` and returns.
    released :
        (s : Dropping)
        → s.pc 0 ≡ running c releasing
        → s.world ≡ closed_world
        → (t : Dropping) × Steps dropping s t
          × (t.pc 0 ≡ over c (returns tt))
          × (t.world ≡ release_life c.cell closed_world)
    released s here world = (
      _,
      go (picks dropping s 0 here accesses)
          (go (picks dropping _ 0 (update-own dropping s.pc 0 _) leaves) stay),
      update-own dropping (update s.pc 0 (running c (replies tt))) 0 _,
      ap (release_life c.cell) world,
    )

-- The drop of a client and a port of it in another thread. The code of the drop (`dropping`), run
-- without another thread, does what `drop_client` does. With the lock free, a close that the
-- library accepts, a life cell with one holder and a name without NUL bytes: a thread that drops the
-- client, access by access, gets to a state in which the lock is free, the library has closed the
-- client and the drop is not over yet, and there `set_name` of the port passes the check of the
-- client's life and calls the library with the port of the closed client. From that state the thread
-- gets to the end of the drop, with the shared state that `drop_client` leaves, and there `set_name`
-- fails with `ClientIsNoLongerAlive` and the library is not called.
pub close_window :
    {L : Type 0} (api : ClientApi L) (ports : PortApi L) (utf8 : Utf8) (c : Client) (p : Port)
    (s : Str) (w : World L)
    → w.mutex ≡ free
    → (api.jack_client_close c.ptr w.lib).0 ≡ pos 0
    → p.client_life.cell ≡ c.cell
    → w.lives c.cell ≡ 1
    → has_nul s ≡ false
    → let closed = (api.jack_client_close c.ptr w.lib).1 in
      ((v : World L) → run (dropping api c) v ≡ drop_client api c v)
      × (t t' : Threads L Client (Unit {0})) × (rest : Section L (Unit {0})) × Reach
          (dropping api)
          w
          t
      × (t.pc 0 ≡ running c rest)
      × (t.world.mutex ≡ free)
      × (t.world.lib ≡ closed)
      × (set_name ports utf8 t.world.lives p s t.world.lib
          ≡ returns (
            status (ports.jack_port_set_name p.port_ptr s closed).0 port_naming_error,
            (ports.jack_port_set_name p.port_ptr s closed).1,
          ))
      × Steps (dropping api) t t'
      × (t'.pc 0 ≡ over c (returns tt))
      × (drop_client api c w ≡ done tt t'.world)
      × (set_name ports utf8 t'.world.lives p s t'.world.lib
          ≡ returns (err client_is_no_longer_alive, closed))
unfolding drop_client close close_checked set_name check_client_life
close_window api ports utf8 c p s w e accepted same alive h =
    let (t, reach, here, world) = has_unlocked api c w e accepted in
    let (t', steps, ended, world') = released api c w e accepted t here world in
    (
      run-dropping api c,
      t,
      t',
      releasing api c w e accepted,
      reach,
      here,
      rw world e,
      rw world refl,
      rw world (ground arith),
      steps,
      ended,
      rw world' (ground arith),
      rw world' (ground arith),
    )
