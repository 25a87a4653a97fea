-- ===== src/Examples/Sine/Tests.antt =====
-- The process callback of examples/sine.rs at concrete values: numbers for the floats, and a memory that
-- keeps the samples as digits.
use rust_jack.Base.{ℕ, ◌+◌, ◌*◌, ◌/◌, ◌≡◌, refl, [], ◌∷◌, returns}
use rust_jack.Enums.{continue}
use rust_jack.Scope.{ProcessScope}
use rust_jack.Port.{buffer}
use rust_jack.Client.Samples.{port_lib, port}
use rust_jack.Examples.Sine.{Signals, Tone, play}
use rust_jack.Examples.Sine.Laws.{play_lem}

abbrev whole_numbers : Signals ℕ ℕ
whole_numbers = record {
  whole = λ n. n;
  pi = 3;
  add = ◌+◌;
  mul = ◌*◌;
  div = ◌/◌;
  sin = λ x. x / 6;
  as_f32 = λ x. x;
}

abbrev digits : ℕ → ℕ → ℕ → ℕ → ℕ
digits start i y memory = memory * 10 + y

abbrev scope : ProcessScope
scope = record { client_ptr = 7; n_frames = 3 }

abbrev tone : Tone ℕ
tone = record { frequency = 2; time = 1 }

play_lem_example :
    (play whole_numbers port_lib digits 1 (port 3) [] scope tone 0
      ≡ returns (continue, record { frequency = 2; time = 4 }, 246))
    × (play whole_numbers port_lib digits 1 (port 3) (9 ∷ 3 ∷ []) scope tone 0
        ≡ returns (continue, record { frequency = 3; time = 3 }, 36))
unfolding buffer
play_lem_example = play_lem whole_numbers port_lib digits 1 (port 3) (9 ∷ []) 3 scope tone 0 refl
