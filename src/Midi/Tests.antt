-- ===== src/Midi/Tests.antt =====
-- MIDI buffers at concrete values.
use rust_jack.Base.{◌≡◌, refl, true, none, [], ◌∷◌, arith, returns, panics, map_returns}
use rust_jack.Port.{buffer}
use rust_jack.Midi.{next, size_hint, count, write, writer}
use rust_jack.Midi.Collect.{collect, collect_lem, behind_the_end}
use rust_jack.Midi.Writing.{write_all, collect-write_all}
use rust_jack.Midi.Samples.{fitting, Msgs, lib, law, note, three, at, ports, port, scope, out}

collect_lem_example : collect lib true 4 (at 0) three ≡ returns (three, at 4)
collect_lem_example = collect_lem lib true law 4 (at 0) three (omega arith) (omega arith)

behind_the_end_example :
    (next lib true (at 3) three ≡ returns (none, at 4))
    × (count lib true (at 4) three ≡ panics)
    × (size_hint lib true (at 4) three ≡ panics)
behind_the_end_example = behind_the_end lib true law (at 3) three (omega arith) refl

abbrev five : Msgs
five = note 0 ∷ note 1 ∷ note 2 ∷ note 3 ∷ note 4 ∷ []

-- The fifth message does not fit.
collect-write_all_example :
    let (accepted, w'') = write_all lib out five [] in
    map_returns (λ r. r.0) (collect lib true 9 (at 0) w'') ≡ returns accepted
unfolding writer buffer write_all write
collect-write_all_example =
    collect-write_all lib law ports true port scope out five three [] 9 refl (omega arith)

four_accepted : (write_all lib out five []).0 ≡ fitting five
unfolding write_all write
four_accepted = refl
