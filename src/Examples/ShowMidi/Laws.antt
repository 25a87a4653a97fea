-- ===== src/Examples/ShowMidi/Laws.antt =====
-- What the process callback of examples/show_midi.rs sends and plays in a cycle.
use rust_jack.Base.{
  ℕ, zero, suc, ◌<◌, ◌/◌, ◌≡◌, refl, ap, ◌∙◌, Bool, Option, none, some, List, [], ◌∷◌, ◌++◌, length,
  arith, pos, Panics, returns, panics, map_returns, and_then, subst,
}
use rust_jack.Enums.{continue}
use rust_jack.Scope.{ProcessScope}
use rust_jack.Port.{Port, PortApi, buffer}
use rust_jack.Midi.{RawMidi, MidiApi, MidiIter, MidiWriter, next, write, iter, writer}
use rust_jack.Midi.Buffer.{Lawful}
use rust_jack.Midi.Collect.{collect, step_collect, collect_lem}
use rust_jack.Examples.ShowMidi.{
  MidiCopy, midi_copy, note_on, note_off, send_all, write_unwrapped, cback,
}

module _ {C : Type 0} (try_send : MidiCopy → C → C) where
  -- The channel behind sending copies of some messages, in order.
  abbrev pub sent : List RawMidi → C → C
  sent [] c = c
  sent (m ∷ ms) c = sent ms (try_send (midi_copy m) c)

  abbrev sent_of : C → List RawMidi × MidiIter → C
  sent_of c r = sent r.0 c

module _ {Ptr W C : Type 0} (api : MidiApi Ptr W) (port_api : PortApi W) (checks : Bool)
    (try_send : MidiCopy → C → C) where
  map_map :
      (o : Panics (List RawMidi × MidiIter)) (m : RawMidi) (c : C)
      → map_returns (sent_of try_send (try_send (midi_copy m) c)) o
        ≡ map_returns (sent_of try_send c) (map_returns (λ r. (m ∷ r.0, r.1)) o)
  map_map (returns r) m c = refl
  map_map panics m c = refl

  -- The loop sends what collecting the iterator yields.
  send_all-collect :
      (fuel : ℕ) (it : MidiIter) (w : W) (c : C)
      → send_all api port_api checks try_send fuel it w c
        ≡ map_returns (sent_of try_send c) (collect api checks fuel it w)
  unfolding send_all collect
  send_all-collect zero it w c = refl
  send_all-collect (suc fuel) it w c =
      at (λ it' c'. send_all-collect fuel it' w c') (next api checks it w)
    where
      at :
          ((it' : MidiIter) (c' : C)
            → send_all api port_api checks try_send fuel it' w c'
              ≡ map_returns (sent_of try_send c') (collect api checks fuel it' w))
          → (o : Panics (Option RawMidi × MidiIter))
          → and_then o (λ r. elim r.0 [
            | none ↦ returns c
            | some m ↦ send_all api port_api checks try_send fuel r.1 w (try_send (midi_copy m) c)
          ])
            ≡ map_returns
                (sent_of try_send c)
                (and_then o (step_collect api checks (λ it'. collect api checks fuel it' w)))
      at ih panics = refl
      at ih (returns (none, it')) = refl
      at ih (returns (some m, it')) =
          ih it' (try_send (midi_copy m) c) ∙ map_map (collect api checks fuel it' w) m c

module _ {Ptr W C : Type 0} (api : MidiApi Ptr W) (port_api : PortApi W) (checks : Bool)
    (try_send : MidiCopy → C → C) (law : Lawful api) where
  -- The loop over a buffer from its start.
  send_all_lem :
      (fuel b : ℕ) (w : W) (c : C)
      → length (law.messages b w) < fuel
      → send_all api port_api checks try_send fuel (record { buffer_ptr = b; index = 0 }) w c
        ≡ returns (sent try_send (law.messages b w) c)
  send_all_lem fuel b w c enough =
      send_all-collect api port_api checks try_send fuel (record { buffer_ptr = b; index = 0 }) w c
      ∙ ap (map_returns (sent_of try_send c)) (
          collect_lem api checks law fuel (record { buffer_ptr = b; index = 0 }) w (omega arith)
            enough)

  write_unwrapped_lem :
      (put_p : MidiWriter) (m : RawMidi) (w w' : W)
      → api.jack_midi_event_write put_p.buffer_ptr m.time m.bytes w ≡ (pos 0, w')
      → write_unwrapped api port_api checks try_send put_p m w ≡ returns w'
  unfolding write_unwrapped write
  write_unwrapped_lem put_p m w w' e = ground (arith, e)

  iter_lem :
      (p : Port) (ps : ProcessScope) (w : W)
      → p.client_ptr ≡ ps.client_ptr
      → iter api port_api p ps w
        ≡ returns (record { buffer_ptr = buffer port_api p ps.n_frames w; index = 0 })
  unfolding iter
  iter_lem p ps w mine = ground (arith, mine)

  writer_lem :
      (p : Port) (ps : ProcessScope) (w : W)
      → p.client_ptr ≡ ps.client_ptr
      → writer api port_api p ps w
        ≡ returns (
          record { buffer_ptr = buffer port_api p ps.n_frames w },
          api.jack_midi_clear_buffer (buffer port_api p ps.n_frames w) w,
        )
  unfolding writer
  writer_lem p ps w mine = ground (arith, mine)

  -- A write that the library accepts adds its message.
  added_lem :
      (b : ℕ) (m : RawMidi) (w w' : W)
      → api.jack_midi_event_write b m.time m.bytes w ≡ (pos 0, w')
      → law.messages b w' ≡ law.messages b w ++ (m ∷ [])
  added_lem b m w w' e =
      subst (λ r. law.messages b r.1 ≡ law.messages b w ++ (m ∷ [])) e
        (law.added b m w (ap (λ r. r.0) e))

  -- A process cycle of the example over a `Lawful` library, with two ports of the client of the cycle,
  -- fuel for more calls than there are messages, and two writes that the library accepts: copies of all
  -- the messages of the input port go to the channel in their order, the buffer of the output port then
  -- holds a Note On at frame 0 and a Note Off in the middle of the cycle and nothing else, and the
  -- processing continues.
  pub cback_lem :
      (fuel : ℕ) (shower maker : Port) (ps : ProcessScope) (c : C) (w w1 w2 : W)
      → shower.client_ptr ≡ ps.client_ptr
      → maker.client_ptr ≡ ps.client_ptr
      → length (law.messages (buffer port_api shower ps.n_frames w) w) < fuel
      → api.jack_midi_event_write
          (buffer port_api maker ps.n_frames w)
          0
          note_on.bytes
          (api.jack_midi_clear_buffer (buffer port_api maker ps.n_frames w) w)
        ≡ (pos 0, w1)
      → api.jack_midi_event_write
          (buffer port_api maker ps.n_frames w)
          (ps.n_frames / 2)
          (note_off 0).bytes
          w1
        ≡ (pos 0, w2)
      → (cback api port_api checks try_send fuel shower maker ps c w
          ≡ returns (
            continue,
            sent try_send (law.messages (buffer port_api shower ps.n_frames w) w) c,
            w2,
          ))
        × (law.messages (buffer port_api maker ps.n_frames w) w2
            ≡ note_on ∷ note_off (ps.n_frames / 2) ∷ [])
  unfolding cback
  cback_lem fuel shower maker ps c w w1 w2 mine mine' enough first second =
      let out = buffer port_api maker ps.n_frames w in
      (
        rw
            (
              iter_lem shower ps w mine,
              send_all_lem fuel (buffer port_api shower ps.n_frames w) w c enough,
              writer_lem maker ps w mine',
              write_unwrapped_lem (record { buffer_ptr = out }) note_on
                  (api.jack_midi_clear_buffer out w) w1 first,
              write_unwrapped_lem (record { buffer_ptr = out }) (note_off (ps.n_frames / 2)) w1 w2
                  second,
            )
            refl,
        added_lem out (note_off (ps.n_frames / 2)) w1 w2 second
            ∙ ap (λ l. l ++ (note_off (ps.n_frames / 2) ∷ []))
                (added_lem out note_on (api.jack_midi_clear_buffer out w) w1 first
                  ∙ ap (λ l. l ++ (note_on ∷ [])) (law.cleared out w)),
      )
