-- ===== src/Midi/Buffer.antt =====
-- What the documentation of libjack promises of a MIDI buffer, as a list of messages.
use rust_jack.Base.{ℕ, ◌^◌, ◌≤◌, ◌<◌, ◌≡◌, ◌≢◌, some, List, [], ◌∷◌, ◌++◌, length, get_elem?, pos}
use rust_jack.Midi.{RawMidi, MidiApi}

-- `messages b w` are the messages of the buffer `b`, in order. `event_get` succeeds exactly below
-- their number; clearing leaves none; a write that returns 0 adds its message at the end, and any
-- other changes nothing.
pub record Lawful {Ptr W : Type 0} (api : MidiApi Ptr W) : Type 0 where
  pub messages : ℕ → W → List RawMidi
  pub few : (b : ℕ) (w : W) → length (messages b w) < 2 ^ 32
  pub counted : (b : ℕ) (w : W) → api.jack_midi_get_event_count b w ≡ length (messages b w)
  pub present :
      (b n : ℕ) (w : W) → n < length (messages b w) → (api.jack_midi_event_get b n w).0 ≡ pos 0
  pub event :
      (b n : ℕ) (w : W) (m : RawMidi)
      → get_elem? (messages b w) n ≡ some m
      → let e = (api.jack_midi_event_get b n w).1 in
        (e.time ≡ m.time) × (api.read_bytes e.data_ptr e.size w ≡ m.bytes)
  pub absent :
      (b n : ℕ) (w : W) → length (messages b w) ≤ n → (api.jack_midi_event_get b n w).0 ≢ pos 0
  pub cleared : (b : ℕ) (w : W) → messages b (api.jack_midi_clear_buffer b w) ≡ []
  pub added :
      (b : ℕ) (m : RawMidi) (w : W)
      → (api.jack_midi_event_write b m.time m.bytes w).0 ≡ pos 0
      → messages b (api.jack_midi_event_write b m.time m.bytes w).1 ≡ messages b w ++ (m ∷ [])
  pub rejected :
      (b : ℕ) (m : RawMidi) (w : W)
      → (api.jack_midi_event_write b m.time m.bytes w).0 ≢ pos 0
      → messages b (api.jack_midi_event_write b m.time m.bytes w).1 ≡ messages b w
