-- ===== src/Examples/PlaybackCapture/Tests.antt =====
-- examples/playback_capture.rs at concrete values: the memory gives a number for an address and an index,
-- and a port has its buffer at its own pointer.
use rust_jack.Base.{
  ℕ, ◌<◌, ◌+◌, ◌≡◌, refl, ◌≢◌, ◌==◌, if◌then◌else◌, ltb, ◌&&◌, List, [], ◌∷◌, pos, returns, arith,
}
use rust_jack.Enums.{continue}
use rust_jack.Scope.{ProcessScope}
use rust_jack.Port.{Port, PortApi, unowned, buffer}
use rust_jack.Strings.{codes}
use rust_jack.Client.Callbacks.{CallbackContext, shutdown}
use rust_jack.Client.Samples.{client, utf8, lib, quitting}
use rust_jack.Examples.PlaybackCapture.{pass_on, Line, notifications, text, with_status}
use rust_jack.Examples.PlaybackCapture.Laws.{Cloning, pass_on_lem}

abbrev Memory : Type 0
Memory = ℕ → ℕ → ℕ

abbrev clone : ℕ → ℕ → ℕ → Memory → Memory
clone d s n w e i = if (e == d) && ltb i n then w s i else w e i

clone-own : (d s n : ℕ) (w : Memory) (i : ℕ) → i < n → clone d s n w d i ≡ w s i
clone-own d s n w i lt = ground arith

clone-others : (d s n : ℕ) (w : Memory) (e i : ℕ) → e ≢ d → clone d s n w e i ≡ w e i
clone-others d s n w e i ne = ground arith

cloning : Cloning (λ (w : Memory). w) clone
cloning = record { cloned = clone-own; others = clone-others }

abbrev at_pointer : PortApi Memory
at_pointer = record {
  jack_port_name = λ p v. [];
  jack_port_short_name = λ p v. [];
  jack_port_flags = λ p v. 1;
  jack_port_type = λ p v. [];
  jack_port_connected = λ p v. 0;
  jack_port_connected_to = λ p s v. pos 0;
  jack_port_get_aliases = λ p a v. a;
  jack_port_monitoring_input = λ p v. pos 0;
  jack_port_request_monitor = λ p b v. (pos 0, v);
  jack_port_ensure_monitor = λ p b v. (pos 0, v);
  jack_port_set_name = λ p s v. (pos 0, v);
  jack_port_set_alias = λ p s v. (pos 0, v);
  jack_port_unset_alias = λ p s v. (pos 0, v);
  jack_port_get_buffer = λ p n v. p;
  jack_port_set_latency_range = λ p c r v. v;
  jack_port_get_latency_range = λ p c r v. r;
  jack_port_name_size = 8;
}

abbrev port_at : ℕ → Port
port_at p = record {
  spec = unowned;
  client_ptr = 7;
  port_ptr = p;
  client_life = record { cell = 3 };
}

abbrev scope : ProcessScope
scope = record { client_ptr = 7; n_frames = 64 }

abbrev noise : Memory
noise start i = start + i

pass_on_lem_example :
    (v : Memory) × (pass_on at_pointer clone
        (port_at 100)
        (port_at 200)
        (port_at 300)
        (port_at 400)
        scope
        noise
      ≡ returns (continue, v))
    × ((i : ℕ) → i < 64 → (v 300 i ≡ 100 + i) × (v 400 i ≡ 200 + i))
unfolding buffer
pass_on_lem_example =
    pass_on_lem at_pointer (λ w. w) clone cloning (port_at 100) (port_at 200) (port_at 300)
      (port_at 400) scope noise refl refl refl refl (λ e. omega arith) (λ e. omega arith)

abbrev printing : CallbackContext (List Line) ℕ
printing = record {
  client = client;
  notification = text (codes "JACK: xrun occurred") ∷ [];
  process = 0;
}

shutdown_printed :
    (shutdown notifications quitting utf8 lib.status_from_bits 1
      (codes "bye")
      printing).notification
    ≡ with_status
        (codes "JACK: shutdown with status {:?} because \"{}\"")
        (record { bits = 1 })
        (codes "bye")
      ∷ text (codes "JACK: xrun occurred")
      ∷ []
unfolding shutdown
shutdown_printed = refl
