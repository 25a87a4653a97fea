-- ===== src/Midi/ScopeTests.antt =====
-- Port buffers at concrete values: a scope of another client.
use rust_jack.Base.{ℕ, ◌≡◌, ◌≢◌, ◌↔◌, [], negsuc, panics}
use rust_jack.Scope.{ProcessScope}
use rust_jack.Port.Specs.{as_slice, as_mut_slice}
use rust_jack.Midi.{MidiApi, iter, writer}
use rust_jack.Midi.Scoped.{foreign_scope}
use rust_jack.Client.Samples.{port, port_lib}

abbrev midi_lib : MidiApi ℕ ℕ
midi_lib = record {
  jack_midi_get_event_count = λ b w. 0;
  jack_midi_event_get = λ b n w. (negsuc 0, record { time = 0; size = 0; data_ptr = 0 });
  jack_midi_clear_buffer = λ b w. 0;
  jack_midi_event_write = λ b t d w. (negsuc 0, w);
  jack_midi_get_lost_event_count = λ b w. 0;
  jack_midi_max_event_size = λ b w. 0;
  read_bytes = λ p n w. [];
}

abbrev scope : ProcessScope
scope = record { client_ptr = 8; n_frames = 64 }

foreign_scope_example :
    ((as_slice port_lib (port 3) scope 0 ≡ panics) ↔ (◌≢◌ {A = ℕ} 7 8))
    × ((as_mut_slice port_lib (port 3) scope 0 ≡ panics) ↔ (◌≢◌ {A = ℕ} 7 8))
    × ((iter midi_lib port_lib (port 3) scope 0 ≡ panics) ↔ (◌≢◌ {A = ℕ} 7 8))
    × ((writer midi_lib port_lib (port 3) scope 0 ≡ panics) ↔ (◌≢◌ {A = ℕ} 7 8))
foreign_scope_example = foreign_scope midi_lib port_lib (port 3) scope 0
