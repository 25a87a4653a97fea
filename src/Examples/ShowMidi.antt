-- ===== src/Examples/ShowMidi.antt =====
-- examples/show_midi.rs: the copies of messages that it sends out of the process thread, and its process
-- callback.
pub mod Laws
mod Tests
use rust_jack.Base.{
  ℕ, zero, suc, ◌-◌, ◌/◌, Bool, none, some, List, [], ◌∷◌, ◌++◌, min, length, take, replicate, ok,
  err, Panics, returns, panics, map_returns, and_then,
}
use rust_jack.Enums.{Control, continue}
use rust_jack.Scope.{ProcessScope}
use rust_jack.Port.{Port, PortApi}
use rust_jack.Midi.{RawMidi, MidiApi, MidiIter, MidiWriter, next, write, iter, writer}

abbrev pub max_midi : ℕ
max_midi = 3

-- `MidiCopy`: `copied` is the whole of its `data`.
pub record MidiCopy : Type 0 where
  pub len : ℕ
  pub copied : List ℕ
  pub time : ℕ

-- `From<RawMidi> for MidiCopy`
unfoldable pub midi_copy : RawMidi → MidiCopy
midi_copy midi =
    let len : ℕ = min max_midi (length midi.bytes) in
    record {
      len = len;
      copied = take len midi.bytes ++ replicate (max_midi - len) 0;
      time = midi.time;
    }

abbrev pub note_on : RawMidi
note_on = record { time = 0; bytes = 144 ∷ 64 ∷ 127 ∷ [] }

abbrev pub note_off : ℕ → RawMidi
note_off t = record { time = t; bytes = 128 ∷ 64 ∷ 127 ∷ [] }

-- The channel is a state `C`; `try_send` changes it, and its result is not looked at.
module _ {Ptr W C : Type 0} (api : MidiApi Ptr W) (port_api : PortApi W) (checks : Bool)
    (try_send : MidiCopy → C → C) where
  -- `for e in show_p`, for at most `fuel` calls of `next`.
  unfoldable pub send_all : ℕ → MidiIter → W → C → Panics C
  send_all zero it w c = returns c
  send_all (suc fuel) it w c =
      and_then (next api checks it w)
        λ r. elim r.0 [ none ↦ returns c | some m ↦ send_all fuel r.1 w (try_send (midi_copy m) c) ]

  -- `put_p.write(..).unwrap()`
  unfoldable pub write_unwrapped : MidiWriter → RawMidi → W → Panics W
  write_unwrapped put_p m w =
      let (r, w') = write api put_p m w in elim r [ ok _ ↦ returns w' | err e ↦ panics ]

  -- The closure `cback`, with the two ports that it owns and the channel.
  unfoldable pub cback : ℕ → Port → Port → ProcessScope → C → W → Panics (Control × C × W)
  unfolding send_all write_unwrapped
  cback fuel shower maker ps c w = and_then (iter api port_api shower ps w) λ show_p.
      and_then (send_all fuel show_p w c) λ c'. and_then (writer api port_api maker ps w) λ r.
        and_then (write_unwrapped r.0 note_on r.1) λ w'.
          map_returns (λ w''. (continue, c', w''))
            (write_unwrapped r.0 (note_off (ps.n_frames / 2)) w')
