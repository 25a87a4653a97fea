-- ===== src/Threads/Safety.antt =====
-- Threads that open, close, activate, deactivate and connect clients at the same time: the blocks that
-- `Client::new`, `Drop for Client` and `connect_ports` of src/client/client_impl.rs and
-- `AsyncClient::new` and `maybe_deactivate` of src/client/async_client.rs run under the lock.
use rust_jack.Base.{ℕ, ◌≡◌, subst, ◌≢◌, some, List, ◌∷◌, ◌++◌, Panics}
use rust_jack.Strings.{Utf8}
use rust_jack.Port.{PortApi}
use rust_jack.Client.{ClientApi}
use rust_jack.Client.State.{held, World}
use rust_jack.Client.Async.{ActivationApi}
use rust_jack.Threads.{Section, running, over, Threads, Reach}
use rust_jack.Threads.Requests.{Request, Reply, call, section}
use rust_jack.Threads.Requests.Shape.{section-IsGuarded}
use rust_jack.Threads.Requests.Agreement.{run-section}
use rust_jack.Threads.Serial.{reply_of, replay}
use rust_jack.Threads.Invariant.{Inv, IsSound}
use rust_jack.Threads.Moves.{Reach-Inv}
use rust_jack.Threads.Progress.{Steps, Reach-Steps, can_end}

-- The threads of a program, each with its requests.
abbrev pub Program : Type 0 → Type 0 → Type 0 → Type 0
Program L N P = Threads L (Request N P) (Reply N P)

module _ {L N P : Type 0} (api : ClientApi L) (act : ActivationApi L) (ports : PortApi L)
    (utf8 : Utf8) where
  abbrev pub Reachable : World L → Program L N P → Type 0
  Reachable = Reach (section api act ports utf8)

  -- The reply of a request at a place in a log, when the requests of the log run one after the other.
  abbrev pub SerialReply : World L → List (Request N P) → Request N P → Panics (Reply N P) → Type 0
  SerialReply w₀ log r p =
      (newer older : List (Request N P)) × (log ≡ newer ++ (r ∷ older))
      × (reply_of (call api act ports utf8 r (replay (call api act ports utf8) w₀ older)) ≡ some p)

  module _ {w₀ : World L} {s : Program L N P} (unheld : w₀.mutex ≢ held)
      (reach : Reachable w₀ s) where
    inv : Inv (section api act ports utf8) (call api act ports utf8) w₀ s.world s.pc s.log
    inv =
        Reach-Inv (section api act ports utf8) (call api act ports utf8)
          (section-IsGuarded N P api act ports utf8) (run-section api act ports utf8) w₀ unheld
          reach

    over-SerialReply :
        (i : ℕ) (r : Request N P) (p : Panics (Reply N P))
        → s.pc i ≡ over r p
        → SerialReply w₀ s.log r p
    unfolding IsSound
    over-SerialReply i r p e =
        let a =
          subst (IsSound (section api act ports utf8) (call api act ports utf8) w₀ s.world s.log) e
            (inv.each i) in
        (a.newer, a.older, a.place, a.answer)

  -- The blocks that `Client::new`, `Drop for Client`, `AsyncClient::new`, `maybe_deactivate` and
  -- `connect_ports` run under the lock are as if they ran one after the other, when threads run them
  -- at the same time: each thread looks at the lock, accesses the shared state and drops the guard
  -- in steps of its own, in any order of the threads. In every state that they reach from a lock that
  -- is not held: if the lock is not held, the shared state is the one that the logged requests leave
  -- when each runs as one step (`call`), in the order in which they got the lock or found it
  -- poisoned; and a thread whose block is over has the reply, or the panic, that its request gives in
  -- that run at its place in the log. What a thread does behind its block, as the drop of an `Arc`
  -- or of a client, and every call that takes no lock are not among the steps.
  pub serial_replies :
      {w₀ : World L} {s : Program L N P}
      → w₀.mutex ≢ held
      → Reachable w₀ s
      → (s.world.mutex ≢ held → s.world ≡ replay (call api act ports utf8) w₀ s.log)
        × ((i : ℕ) (r : Request N P) (p : Panics (Reply N P))
            → s.pc i ≡ over r p
            → SerialReply w₀ s.log r p)
  serial_replies unheld reach = ((inv unheld reach).serial, over-SerialReply unheld reach)

  -- No thread is stuck in such a block or before it. In every state that threads reach with these
  -- requests from a lock that is not held: a thread that is anywhere in its request, before the lock
  -- or behind it, can get to the end of it in finitely many further steps of the threads, and then
  -- has the reply, or the panic, that its request gives as one step (`call`) at its place in the
  -- log, behind the requests before it.
  pub calls_end :
      {w₀ : World L} {s : Program L N P}
      → w₀.mutex ≢ held
      → Reachable w₀ s
      → (i : ℕ) (r : Request N P) (rest : Section L (Reply N P)) → s.pc i ≡ running r rest
      → (t : Program L N P) × (p : Panics (Reply N P)) × Steps (section api act ports utf8) s t
        × (t.pc i ≡ over r p)
        × SerialReply w₀ t.log r p
  calls_end unheld reach i r rest e =
      let (t, p, steps, ended) =
        can_end (section api act ports utf8) (call api act ports utf8)
          (section-IsGuarded N P api act ports utf8) (run-section api act ports utf8) unheld reach i
          r rest e in
      (
        t,
        p,
        steps,
        ended,
        over-SerialReply unheld (Reach-Steps (section api act ports utf8) reach steps) i r p ended,
      )
