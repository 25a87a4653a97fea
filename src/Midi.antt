-- ===== src/Midi.antt =====
-- src/port/midi.rs: the iterator over the messages of an input port, and the writer of an output
-- port. A `u32` or `usize` is a number below 2 ^ 32 or 2 ^ 64.
pub mod Buffer
pub mod Iteration
pub mod Collect
pub mod Writing
pub mod Scoped
pub mod Samples
mod Tests
mod ScopeTests
use rust_jack.Base.{
  ℕ, zero, ◌+◌, ◌-◌, ◌%◌, ◌^◌, Bool, false, ◌||◌, Option, none, some, List, [], ltb, leb, ◌==◌,
  if◌then◌else◌, ℤ, pos, Result, ok, err, Panics, returns, panics, map_returns, and_then,
}
use rust_jack.Enums.{Error, not_enough_space}
use rust_jack.Scope.{ProcessScope}
use rust_jack.Port.{Port, PortApi, buffer}

pub record RawMidi : Type 0 where
  pub time : ℕ
  pub bytes : List ℕ

-- `Default for RawMidi`
abbrev pub default_raw_midi : RawMidi
default_raw_midi = record { time = 0; bytes = [] }

-- `jack_midi_event_t`
pub record MidiEvent (Ptr : Type 0) : Type 0 where
  pub time : ℕ
  pub size : ℕ
  pub data_ptr : Ptr

-- The MIDI functions of libjack, over the state `W` of the library, with `Ptr` the pointers into
-- its memory and `read_bytes` the bytes that a slice over that memory shows.
pub record MidiApi (Ptr W : Type 0) : Type 0 where
  pub jack_midi_get_event_count : ℕ → W → ℕ
  pub jack_midi_event_get : ℕ → ℕ → W → ℤ × MidiEvent Ptr
  pub jack_midi_clear_buffer : ℕ → W → W
  pub jack_midi_event_write : ℕ → ℕ → List ℕ → W → ℤ × W
  pub jack_midi_get_lost_event_count : ℕ → W → ℕ
  pub jack_midi_max_event_size : ℕ → W → ℕ
  pub read_bytes : Ptr → ℕ → W → List ℕ

pub record MidiIter : Type 0 where
  pub buffer_ptr : ℕ
  pub index : ℕ

pub record MidiWriter : Type 0 where
  pub buffer_ptr : ℕ

-- `usize` arithmetic: a build with overflow checks panics, one without wraps.
abbrev pub add_usize : Bool → ℕ → ℕ → Panics ℕ
add_usize checks a b =
    if ltb (a + b) (2 ^ 64)
    then returns (a + b)
    else if checks
    then panics
    else returns ((a + b) % 2 ^ 64)

abbrev pub sub_usize : Bool → ℕ → ℕ → Panics ℕ
sub_usize checks a b =
    if leb b a then returns (a - b) else if checks then panics else returns (2 ^ 64 + a - b)

module _ {Ptr W : Type 0} (api : MidiApi Ptr W) where
  -- The message of a call that succeeded.
  abbrev pub to_message : ℤ × MidiEvent Ptr → W → Option RawMidi
  to_message (pos zero, e) w =
      some (record { time = e.time; bytes = api.read_bytes e.data_ptr e.size w })
  to_message (_, e) w = none

  unfoldable pub absolute_nth : MidiIter → ℕ → W → Option RawMidi
  absolute_nth it n w = to_message (api.jack_midi_event_get it.buffer_ptr n w) w

  unfoldable pub absolute_len : MidiIter → W → ℕ
  absolute_len it w =
      if it.buffer_ptr == 0 then 0 else api.jack_midi_get_event_count it.buffer_ptr w

  unfoldable pub peek : MidiIter → W → Option RawMidi
  unfolding absolute_nth
  peek it w = absolute_nth it (it.index % 2 ^ 32) w

  unfoldable pub last : MidiIter → W → Option RawMidi
  unfolding absolute_len absolute_nth
  last it w =
      let len = absolute_len it w % 2 ^ 32 in
      if len == 0 || leb len it.index then none else absolute_nth it (len - 1) w

  -- `match res { 0 => Ok(()), _ => Err(NotEnoughSpace) }`
  abbrev written : ℤ → Result (Unit {0}) Error
  written (pos zero) = ok tt
  written _ = err not_enough_space

  unfoldable pub write : MidiWriter → RawMidi → W → Result (Unit {0}) Error × W
  write wr m w =
      let (res, w') = api.jack_midi_event_write wr.buffer_ptr m.time m.bytes w in (written res, w')

  unfoldable pub lost_count : MidiWriter → W → ℕ
  lost_count wr w = api.jack_midi_get_lost_event_count wr.buffer_ptr w

  unfoldable pub max_event_size : MidiWriter → W → ℕ
  max_event_size wr w = api.jack_midi_max_event_size wr.buffer_ptr w

  module _ (port_api : PortApi W) (p : Port) (ps : ProcessScope) where
    -- `Port<MidiIn>::iter`, which asserts that port and scope belong to one client.
    unfoldable pub iter : W → Panics MidiIter
    unfolding buffer
    iter w =
        if p.client_ptr == ps.client_ptr
        then returns (record { buffer_ptr = buffer port_api p ps.n_frames w; index = 0 })
        else panics

    -- `Port<MidiOut>::writer`, which clears the buffer.
    unfoldable pub writer : W → Panics (MidiWriter × W)
    unfolding buffer
    writer w =
        let b = buffer port_api p ps.n_frames w in
        if p.client_ptr == ps.client_ptr
        then returns (record { buffer_ptr = b }, api.jack_midi_clear_buffer b w)
        else panics

module _ {Ptr W : Type 0} (api : MidiApi Ptr W) (checks : Bool) where
  unfoldable pub next : MidiIter → W → Panics (Option RawMidi × MidiIter)
  unfolding peek
  next it w =
      map_returns (λ i. (peek api it w, record it { index = i })) (add_usize checks it.index 1)

  unfoldable pub next_if : (RawMidi → Bool) → MidiIter → W → Panics (Option RawMidi × MidiIter)
  unfolding next
  next_if predicate it w =
      if (elim (peek api it w) [ none ↦ false | some m ↦ predicate m ])
      then next it w
      else returns (none, it)

  unfoldable pub size_hint : MidiIter → W → Panics (ℕ × Option ℕ)
  unfolding absolute_len
  size_hint it w =
      map_returns (λ n. (n, some n)) (sub_usize checks (absolute_len api it w) it.index)

  unfoldable pub count : MidiIter → W → Panics ℕ
  unfolding absolute_len
  count it w = sub_usize checks (absolute_len api it w) it.index

  unfoldable pub nth : ℕ → MidiIter → W → Panics (Option RawMidi × MidiIter)
  unfolding next
  nth n it w = and_then (add_usize checks it.index n) (λ i. next (record it { index = i }) w)
  -- `MidiWriter::write`
