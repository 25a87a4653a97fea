-- ===== src/Port/Tests.antt =====
-- Ports at concrete values: a library whose state is a name and two latency ranges.
use rust_jack.Base.{ℕ, zero, suc, ◌≡◌, refl, true, some, ◌==◌, if◌then◌else◌, pos, negsuc, ◌↔◌, ◌+◌}
use rust_jack.Enums.{Str}
use rust_jack.Life.{Lives}
use rust_jack.Strings.{codes, Utf8}
use rust_jack.Port.{Port, PortApi}
use Prim.Native.Nat.{Ordering}
use rust_jack.Port.Classes.{PortClass, class_of, port_hash-class_of}
use rust_jack.Port.Info.{port_eq, port_cmp, port_hash, port_info, not_alive}
use rust_jack.Port.Specs.{midi_in}

-- The state of the library: the name of the port and its two latency ranges.
record Lib : Type 0 where
  port_name : Str
  capture_range : ℕ × ℕ
  playback_range : ℕ × ℕ

abbrev set_range : ℕ → ℕ × ℕ → Lib → Lib
set_range zero r v = record v { capture_range = r }
set_range (suc c) r v = record v { playback_range = r }

abbrev lib : PortApi Lib
lib = record {
  jack_port_name = λ p v. v.port_name;
  jack_port_short_name = λ p v. v.port_name;
  jack_port_flags = λ p v. 1;
  jack_port_type = λ p v. codes "8 bit raw midi";
  jack_port_connected = λ p v. 0;
  jack_port_connected_to = λ p s v. pos 0;
  jack_port_get_aliases = λ p a v. (codes "left", a.1);
  jack_port_monitoring_input = λ p v. pos 0;
  jack_port_request_monitor = λ p b v. (pos 0, v);
  jack_port_ensure_monitor = λ p b v. (pos 0, v);
  jack_port_set_name = λ p s v. (pos 0, record v { port_name = s });
  jack_port_set_alias = λ p s v. (negsuc 0, v);
  jack_port_unset_alias = λ p s v. (negsuc 0, v);
  jack_port_get_buffer = λ p n v. 7;
  jack_port_set_latency_range = λ p c r v. set_range c r v;
  jack_port_get_latency_range = λ p c r v. if c == 0 then v.capture_range else v.playback_range;
  jack_port_name_size = 8;
}

abbrev ascii : Utf8
ascii = record { to_str = λ b. some b; to_string_lossy = λ b. b }

abbrev port : Port
port = record { spec = midi_in; client_ptr = 9; port_ptr = 3; client_life = record { cell = 1 } }

abbrev start_lib : Lib
start_lib = record { port_name = codes "in"; capture_range = (1, 2); playback_range = (3, 4) }

abbrev dead : Lives
dead = λ c. 0

info_of_dead : (port_info lib ascii dead port start_lib).info_name ≡ not_alive
unfolding port_info
info_of_dead = refl

abbrev other : Port
other = record port { port_ptr = 4 }

port_hash-class_of_example :
    ((port_eq port other ≡ true) ↔ (class_of port ≡ class_of other))
    × ((port_cmp port other ≡ Ordering.eq) ↔ (class_of port ≡ class_of other))
    × ((hash : PortClass → ℕ → ℕ) × ((r : Port) → hash (class_of r) ≡ port_hash ◌+◌ r))
port_hash-class_of_example = port_hash-class_of ◌+◌ port other
