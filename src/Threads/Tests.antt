-- ===== src/Threads/Tests.antt =====
-- Two threads at concrete values: one opens a client while the other one waits to close another.
use rust_jack.Base.{ℕ, ◌≡◌, refl, ◌≢◌, List, [], ◌∷◌, Panics, returns, pos, ok, err, ℕ_discrete}
use rust_jack.Strings.{codes}
use rust_jack.Enums.{client_is_no_longer_alive}
use rust_jack.Port.{set_name}
use rust_jack.Client.{Client, drop_client}
use rust_jack.Client.State.{free, held, World, done}
use rust_jack.Client.Async.{ActivationApi}
use rust_jack.Client.Samples.{lib, activating, port_lib, utf8, world, client, port}
use rust_jack.Threads.{
  run, Section, Threads, Reach, running, over, start, later, pick, asks, enters, accesses, unlocks,
  leaves,
}
use rust_jack.Threads.Sections.{guarded, unlocking}
use rust_jack.Threads.Requests.{
  Request, Reply, opens, closes, call, section, opening_as, opening, new_section, close_section,
}
use rust_jack.Threads.Serial.{replay}
use rust_jack.Threads.Progress.{Steps}
use rust_jack.Threads.Window.{dropping, close_window}
use rust_jack.Threads.Safety.{Program, Reachable, SerialReply, serial_replies, calls_end}

abbrev accepting : ActivationApi ℕ
accepting = activating (pos 0) (pos 0)

abbrev Two : Program ℕ ℕ ℕ → Type 0
Two = Reachable lib accepting port_lib utf8 (world free)

-- Thread 0 is behind the lock, thread 1 waits for it.
unfoldable contended : (s : Program ℕ ℕ ℕ) × Two s
unfolding section new_section close_section guarded unlocking ℕ_discrete
contended = (
  _,
  later
      (later (later start (pick 0 (asks {r = opens (codes "a") 0})))
        (pick 1 (asks {r = closes client})))
      (pick 0 (enters refl)),
)

-- Both calls are over.
unfoldable settled : (s : Program ℕ ℕ ℕ) × Two s
unfolding contended section new_section close_section guarded unlocking opening_as opening
    ℕ_discrete
settled = (
  _,
  later
      (later
        (later
          (later
            (later
              (later (later (later contended.1 (pick 0 accesses)) (pick 0 accesses))
                (pick 0 unlocks))
              (pick 0 leaves))
            (pick 1 (enters refl)))
          (pick 1 accesses))
        (pick 1 unlocks))
      (pick 1 leaves),
)

abbrev replayed : List (Request ℕ ℕ) → World ℕ
replayed = replay (call lib accepting port_lib utf8) (world free)

abbrev Serial : List (Request ℕ ℕ) → Request ℕ ℕ → Panics (Reply ℕ ℕ) → Type 0
Serial = SerialReply lib accepting port_lib utf8 (world free)

serial_replies_example :
    (settled.0.world.mutex ≢ held → settled.0.world ≡ replayed settled.0.log)
    × ((i : ℕ) (r : Request ℕ ℕ) (p : Panics (Reply ℕ ℕ))
        → settled.0.pc i ≡ over r p
        → Serial settled.0.log r p)
serial_replies_example = serial_replies lib accepting port_lib utf8 (λ e. cc) settled.1

calls_end_example :
    (t : Program ℕ ℕ ℕ) × (p : Panics (Reply ℕ ℕ)) × Steps
      (section lib accepting port_lib utf8)
      contended.0
      t
    × (t.pc 1 ≡ over (closes client) p)
    × Serial t.log (closes client) p
unfolding contended section ℕ_discrete
calls_end_example =
    calls_end lib accepting port_lib utf8 (λ e. cc) contended.1 1 (closes client) _ refl

-- Behind both calls one client is open, as before them, and the log has the close last.
settled_world :
    (settled.0.world.lib ≡ 1) × (settled.0.log ≡ closes client ∷ opens (codes "a") 0 ∷ [])
unfolding settled contended
settled_world = (refl, refl)

close_window_example :
    ((v : World ℕ) → run (dropping lib client) v ≡ drop_client lib client v)
    × (t t' : Threads ℕ Client (Unit {0})) × (rest : Section ℕ (Unit {0})) × Reach
        (dropping lib)
        (world free)
        t
    × (t.pc 0 ≡ running client rest)
    × (t.world.mutex ≡ free)
    × (t.world.lib ≡ 0)
    × (set_name port_lib utf8 t.world.lives (port 3) (codes "a") t.world.lib ≡ returns (ok tt, 0))
    × Steps (dropping lib) t t'
    × (t'.pc 0 ≡ over client (returns tt))
    × (drop_client lib client (world free) ≡ done tt t'.world)
    × (set_name port_lib utf8 t'.world.lives (port 3) (codes "a") t'.world.lib
        ≡ returns (err client_is_no_longer_alive, 0))
close_window_example =
    close_window lib port_lib utf8 client (port 3) (codes "a") (world free) refl refl refl refl refl
