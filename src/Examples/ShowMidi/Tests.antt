-- ===== src/Examples/ShowMidi/Tests.antt =====
-- The process callback of examples/show_midi.rs at concrete values: the channel is the list of what was sent.
use rust_jack.Base.{◌≡◌, refl, true, List, [], ◌∷◌, ◌++◌, returns, arith}
use rust_jack.Enums.{continue}
use rust_jack.Port.{buffer}
use rust_jack.Midi.{RawMidi}
use rust_jack.Midi.Samples.{lib, law, Msgs, note, three, ports, port, scope}
use rust_jack.Examples.ShowMidi.{MidiCopy, midi_copy, note_on, note_off, cback}
use rust_jack.Examples.ShowMidi.Laws.{cback_lem}

abbrev send : MidiCopy → List MidiCopy → List MidiCopy
send m queue = queue ++ (m ∷ [])

abbrev both : Msgs
both = note_on ∷ note_off 32 ∷ []

-- Four bytes, of which three are copied.
abbrev long : RawMidi
long = record { time = 5; bytes = 240 ∷ 1 ∷ 2 ∷ 247 ∷ [] }

cut : midi_copy long ≡ record { len = 3; copied = 240 ∷ 1 ∷ 2 ∷ []; time = 5 }
unfolding midi_copy
cut = refl

cback_lem_example :
    (cback lib ports true send 4 port port scope [] three
      ≡ returns (continue, midi_copy (note 0) ∷ midi_copy (note 5) ∷ midi_copy (note 9) ∷ [], both))
    × (law.messages 7 both ≡ both)
unfolding buffer
cback_lem_example =
    cback_lem lib ports true send law 4 port port scope [] three (note_on ∷ []) both refl refl
      (omega arith) refl refl
