-- ===== src/Examples/SetTransport/Tests.antt =====
-- examples/set_transport.rs at concrete values: one argument parses, as 140.
use rust_jack.Base.{ℕ, ◌+◌, ◌≡◌, refl, true, none, some, [], ◌∷◌, pos, ok, returns, arith}
use rust_jack.Strings.{codes}
use rust_jack.Transport.Bbt.{with_bpm, validated}
use rust_jack.Transport.Bbt.Validation.{IsValid, validated_iff}
use rust_jack.Transport.Position.{frame, set_frame, bbt, set_bbt, valid_bbt}
use rust_jack.Transport.Control.{TransportApi}
use rust_jack.Transport.Samples.{Num, num, whole, start_bbt, start_position, counting, transport}
use rust_jack.Examples.SetTransport.{Parses, finished, printed_unknown, set_transport}
use rust_jack.Examples.SetTransport.Laws.{tempo, set_transport_lem}

abbrev parses : Parses Num Num
parses = record {
  parse_f64 = λ s. some (num (pos 140));
  parse_f32 = λ s. none;
  parse_usize = λ s. none;
}

-- A server that takes every position.
abbrev willing : TransportApi Num Num ℕ
willing = record counting { jack_transport_reposition = λ c p w. (pos 0, w + 10) }

faster_IsValid : IsValid whole (with_bpm (num (pos 140)) start_bbt)
faster_IsValid = (validated_iff whole (with_bpm (num (pos 140)) start_bbt)).0 run
  where
    run :
        validated whole (with_bpm (num (pos 140)) start_bbt)
        ≡ ok (with_bpm (num (pos 140)) start_bbt)
    run = unfold validated in unfold with_bpm in refl

set_transport_lem_example :
    let q =
      (set_bbt whole
        (some (with_bpm (num (pos 140)) start_bbt))
        (set_frame 44100 start_position)).1 in
    (set_transport whole willing parses (λ c. 1) transport true (codes "bpm" ∷ codes "140" ∷ []) 5
      ≡ returns (finished, 16))
    × (bbt whole q ≡ some (with_bpm (num (pos 140)) start_bbt))
    × (frame q ≡ 44100)
unfolding bbt valid_bbt frame with_bpm
set_transport_lem_example =
    set_transport_lem whole willing parses (λ c. 1) transport true 5 6 3 start_position (λ e. cc)
      refl (omega arith) (tempo (codes "140") [] refl) faster_IsValid (omega arith) (omega arith)
      (omega arith) refl

-- A command that is not known leaves the server as the query left it.
unknown_command :
    set_transport whole willing parses (λ c. 1) transport true (codes "go" ∷ []) 5
    ≡ returns (printed_unknown (codes "go"), 6)
unfolding set_transport
unknown_command = refl
