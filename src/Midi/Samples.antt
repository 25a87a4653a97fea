-- ===== src/Midi/Samples.antt =====
-- A MIDI buffer at concrete values, for the tests: a library that keeps one buffer and holds four messages
-- at most.
use rust_jack.Base.{
  ℕ, ◌-◌, ◌≤◌, ◌<◌, ◌≡◌, refl, ◌∙◌, ◌≢◌, Option, none, some, List, [], ◌∷◌, ◌++◌, arith, ltb,
  if◌then◌else◌, length, get_elem?, dec_lt, take, length-append, length-take, take-all,
  get_elem?-none, get_elem?-some, ℤ, pos, negsuc,
}
use rust_jack.Scope.{ProcessScope}
use rust_jack.Port.{Port, PortApi}
use rust_jack.Port.Specs.{midi_out}
use rust_jack.Midi.{RawMidi, MidiEvent, MidiApi, MidiIter, MidiWriter}
use rust_jack.Midi.Buffer.{Lawful}

-- The messages that fit.
abbrev pub fitting : List RawMidi → List RawMidi
fitting = take 4

abbrev pub Msgs : Type 0
Msgs = List RawMidi

abbrev pub event_of : Option RawMidi → ℤ × MidiEvent (List ℕ)
event_of none = (negsuc 0, record { time = 0; size = 0; data_ptr = [] })
event_of (some m) = (pos 0, record { time = m.time; size = length m.bytes; data_ptr = m.bytes })

abbrev pub room_for : Msgs → RawMidi → ℤ × Msgs
room_for w m = if ltb (length (take 4 w)) 4 then (pos 0, take 4 w ++ (m ∷ [])) else (negsuc 0, w)

abbrev pub lib : MidiApi (List ℕ) Msgs
lib = record {
  jack_midi_get_event_count = λ b w. length (take 4 w);
  jack_midi_event_get = λ b n w. event_of (get_elem? (take 4 w) n);
  jack_midi_clear_buffer = λ b w. [];
  jack_midi_event_write = λ b t d w. room_for w (record { time = t; bytes = d });
  jack_midi_get_lost_event_count = λ b w. 0;
  jack_midi_max_event_size = λ b w. 4 - length (take 4 w);
  read_bytes = λ p n w. take n p;
}

pub lib_few : (w : Msgs) → length (take 4 w) ≤ 4
lib_few w = omega (arith, length-take 4 w)

pub event_of-some :
    (o : Option RawMidi) (m : RawMidi)
    → o ≡ some m
    → ((event_of o).1.time ≡ m.time) × (take (event_of o).1.size (event_of o).1.data_ptr ≡ m.bytes)
event_of-some none m h = cc
event_of-some (some x) m h =
    (ground arith, take-all (length x.bytes) x.bytes (omega arith) ∙ ground arith)

pub event_of-present : (xs : Msgs) (n : ℕ) → n < length xs → (event_of (get_elem? xs n)).0 ≡ pos 0
event_of-present xs n h = let (m, e) = get_elem?-some xs n h in rw e

pub event_of-absent : (xs : Msgs) (n : ℕ) → length xs ≤ n → (event_of (get_elem? xs n)).0 ≢ pos 0
event_of-absent xs n h = rw (get_elem?-none xs n h) (λ e. cc)

take-room : (w : Msgs) (m : RawMidi) → length w ≤ 3 → take 4 (w ++ (m ∷ [])) ≡ w ++ (m ∷ [])
take-room w m h = take-all 4 (w ++ (m ∷ [])) (omega (arith, length-append w (m ∷ [])))

pub lib_added :
    (m : RawMidi) (w : Msgs)
    → (room_for w m).0 ≡ pos 0
    → take 4 (room_for w m).1 ≡ take 4 w ++ (m ∷ [])
lib_added m w h = elim (dec_lt (length (take 4 w)) 4) [
  | yes room ↦ ground (arith, take-room (take 4 w) m (omega arith))
  | no full ↦ ground arith
]

pub lib_rejected :
    (m : RawMidi) (w : Msgs) → (room_for w m).0 ≢ pos 0 → take 4 (room_for w m).1 ≡ take 4 w
lib_rejected m w h = ground arith

abbrev pub law : Lawful lib
law = record {
  messages = λ b w. take 4 w;
  few = λ b w. omega (arith, lib_few w);
  counted = λ b w. refl;
  present = λ b n w h. event_of-present (take 4 w) n h;
  event = λ b n w m e. event_of-some (get_elem? (take 4 w) n) m e;
  absent = λ b n w h. event_of-absent (take 4 w) n h;
  cleared = λ b w. refl;
  added = λ b m w h. lib_added m w h;
  rejected = λ b m w h. lib_rejected m w h;
}

abbrev pub note : ℕ → RawMidi
note t = record { time = t; bytes = 144 ∷ 60 ∷ 127 ∷ [] }

abbrev pub three : Msgs
three = note 0 ∷ note 5 ∷ note 9 ∷ []

abbrev pub at : ℕ → MidiIter
at i = record { buffer_ptr = 7; index = i }

-- Only the buffer is asked for.
abbrev pub ports : PortApi Msgs
ports = record {
  jack_port_name = λ p v. [];
  jack_port_short_name = λ p v. [];
  jack_port_flags = λ p v. 2;
  jack_port_type = λ p v. [];
  jack_port_connected = λ p v. 0;
  jack_port_connected_to = λ p s v. pos 0;
  jack_port_get_aliases = λ p a v. a;
  jack_port_monitoring_input = λ p v. pos 0;
  jack_port_request_monitor = λ p b v. (pos 0, v);
  jack_port_ensure_monitor = λ p b v. (pos 0, v);
  jack_port_set_name = λ p s v. (pos 0, v);
  jack_port_set_alias = λ p s v. (pos 0, v);
  jack_port_unset_alias = λ p s v. (pos 0, v);
  jack_port_get_buffer = λ p n v. 7;
  jack_port_set_latency_range = λ p c r v. v;
  jack_port_get_latency_range = λ p c r v. r;
  jack_port_name_size = 8;
}

abbrev pub port : Port
port = record { spec = midi_out; client_ptr = 9; port_ptr = 3; client_life = record { cell = 1 } }

abbrev pub scope : ProcessScope
scope = record { client_ptr = 9; n_frames = 64 }

abbrev pub out : MidiWriter
out = record { buffer_ptr = 7 }
