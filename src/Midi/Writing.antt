-- ===== src/Midi/Writing.antt =====
-- Writing messages to a buffer, and iterating over it afterwards.
use rust_jack.Base.{
  ℕ, zero, suc, ◌<◌, ◌≡◌, refl, sym, ap, ◌∙◌, ◌≢◌, ◌⊎◌, inl, inr, Bool, List, [], ◌∷◌, ◌++◌,
  append-nil, append_assoc, arith, length, ℤ, pos, negsuc, Result, ok, err, returns, map_returns,
}
use rust_jack.Enums.{Error, not_enough_space}
use rust_jack.Scope.{ProcessScope}
use rust_jack.Port.{Port, PortApi, buffer}
use rust_jack.Midi.{RawMidi, MidiApi, MidiIter, MidiWriter, written, write, writer}
use rust_jack.Midi.Buffer.{Lawful}
use rust_jack.Midi.Collect.{collect, collect_lem}

module _ {Ptr W : Type 0} (api : MidiApi Ptr W) where
  abbrev accept : Result (Unit {0}) Error → RawMidi → List RawMidi → List RawMidi
  accept (ok _) m ms = m ∷ ms
  accept (err _) m ms = ms

  -- A client's writes in turn, and the messages among them that were accepted.
  unfoldable pub write_all : MidiWriter → List RawMidi → W → List RawMidi × W
  write_all wr [] w = ([], w)
  write_all wr (m ∷ ms) w =
      let (r, w') = write api wr m w in
      let (accepted, w'') = write_all wr ms w' in (accept r m accepted, w'')

  -- The result of a write, by the code of the library.
  written-cases :
      (res : ℤ)
      → ((res ≡ pos 0) × (written api res ≡ ok tt))
        ⊎ ((res ≢ pos 0) × (written api res ≡ err not_enough_space))
  written-cases (pos zero) = inl (refl, refl)
  written-cases (pos (suc n)) = inr (λ e. cc, refl)
  written-cases (negsuc n) = inr (λ e. cc, refl)

module _ {Ptr W : Type 0} (api : MidiApi Ptr W) (law : Lawful api) where
  -- One write adds its message at the end of the buffer if it returns `Ok`, and otherwise returns
  -- `NotEnoughSpace` and adds nothing.
  pub write_lem :
      (wr : MidiWriter) (m : RawMidi) (w : W)
      → let (r, w') = write api wr m w in
        ((r ≡ ok tt) × (law.messages wr.buffer_ptr w' ≡ law.messages wr.buffer_ptr w ++ (m ∷ [])))
        ⊎ ((r ≡ err not_enough_space)
            × (law.messages wr.buffer_ptr w' ≡ law.messages wr.buffer_ptr w))
  unfolding write
  write_lem wr m w =
      elim (written-cases api (api.jack_midi_event_write wr.buffer_ptr m.time m.bytes w).0) [
        | inl (zero_code, r) ↦ inl (r, law.added wr.buffer_ptr m w zero_code)
        | inr (code, r) ↦ inr (r, law.rejected wr.buffer_ptr m w code)
      ]

  write_all_lem :
      (wr : MidiWriter) (ms : List RawMidi) (w : W)
      → let (accepted, w') = write_all api wr ms w in
        law.messages wr.buffer_ptr w' ≡ law.messages wr.buffer_ptr w ++ accepted
  unfolding write_all
  write_all_lem wr [] w = sym (append-nil _)
  write_all_lem wr (m ∷ ms) w =
      let w' : W = (write api wr m w).1 in
      let rest = write_all_lem wr ms w' in
      elim (write_lem wr m w) [
        | inl (r, e) ↦ rw (r, rest, e) (append_assoc _ (m ∷ []) _)
        | inr (r, e) ↦ rw (r, rest, e)
      ]

  writer-clears :
      (port_api : PortApi W) (p : Port) (ps : ProcessScope) (wr : MidiWriter) (w w' : W)
      → writer api port_api p ps w ≡ returns (wr, w')
      → law.messages wr.buffer_ptr w' ≡ []
  unfolding writer
  writer-clears port_api p ps wr w w' opened =
      ground (arith, law.cleared (buffer port_api p ps.n_frames w) w)

  -- Over a `Lawful` library, a port is opened for writing, which clears its buffer, and messages
  -- are written, some of which may be refused; an iterator over the buffer, given fuel for more
  -- calls than messages were accepted, then yields the accepted messages, in order, and no other.
  pub collect-write_all :
      (port_api : PortApi W) (checks : Bool) (p : Port) (ps : ProcessScope) (wr : MidiWriter)
      (ms : List RawMidi) (w w' : W) (fuel : ℕ)
      → writer api port_api p ps w ≡ returns (wr, w')
      → let (accepted, w'') = write_all api wr ms w' in
        length accepted < fuel
        → map_returns
            (λ r. r.0)
            (collect api checks fuel (record { buffer_ptr = wr.buffer_ptr; index = 0 }) w'')
          ≡ returns accepted
  collect-write_all port_api checks p ps wr ms w w' fuel opened h =
      let it : MidiIter = record { buffer_ptr = wr.buffer_ptr; index = 0 } in
      let w'' : W = (write_all api wr ms w').1 in
      let same =
        write_all_lem wr ms w'
        ∙ ap (λ l. l ++ (write_all api wr ms w').0) (writer-clears port_api p ps wr w w' opened) in
      ap (map_returns (λ r. r.0)) (collect_lem api checks law fuel it w'' (omega arith) (rw same h))
      ∙ ap returns same
