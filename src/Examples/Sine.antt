-- ===== src/Examples/Sine.antt =====
-- examples/sine.rs: its process callback, with the messages that change the frequency, and what it reads
-- from the standard input.
pub mod Laws
mod Tests
use rust_jack.Base.{
  ℕ, zero, suc, ◌+◌, Option, none, some, List, [], ◌∷◌, Panics, returns, map_returns,
}
use mathlib.Core.Option.{map as map_some}
use rust_jack.Enums.{Str, Control, continue}
use rust_jack.Scope.{ProcessScope}
use rust_jack.Port.{Port, PortApi}
use rust_jack.Port.Specs.{Slice, as_mut_slice}

-- The operations of `f64` that the program uses: literals and conversions of whole numbers, 2 pi from
-- its two factors, and the cast to `f32`.
pub record Signals (F32 F64 : Type 0) : Type 0 where
  pub whole : ℕ → F64
  pub pi : F64
  pub add : F64 → F64 → F64
  pub mul : F64 → F64 → F64
  pub div : F64 → F64 → F64
  pub sin : F64 → F64
  pub as_f32 : F64 → F32

-- What the closure owns and changes.
pub record Tone (F64 : Type 0) : Type 0 where
  pub frequency : F64
  pub time : F64

module _ {F32 F64 : Type 0} (fl : Signals F32 F64) where
  open fl use {whole, pi, add, mul, div, sin, as_f32}

  -- `let mut frequency = 220.0`, `let mut time = 0.0` and `frame_t`
  abbrev pub first_tone : Tone F64
  first_tone = record { frequency = whole 220; time = whole 0 }

  abbrev pub frame_t : ℕ → F64
  frame_t sample_rate = div (whole 1) (whole sample_rate)

  -- `while let Ok(f) = rx.try_recv()`, over the messages that it gets.
  unfoldable pub tune : List F64 → Tone F64 → Tone F64
  tune [] tone = tone
  tune (f ∷ fs) tone = tune fs (record { frequency = f; time = whole 0 })

  abbrev pub wave : F64 → F64 → F32
  wave frequency time = as_f32 (sin (mul (mul (mul frequency time) (whole 2)) pi))

  -- The memory is a part of `W`: `store start i y` puts `y` at index `i` of the slice at `start`.
  module _ {W : Type 0} (port_api : PortApi W) (store : ℕ → ℕ → F32 → W → W) (step : F64) where
    -- `for v in out.iter_mut()`, from index `i` on.
    unfoldable pub fill : ℕ → ℕ → ℕ → Tone F64 → W → Tone F64 × W
    fill start i zero tone w = (tone, w)
    fill start i (suc n) tone w =
        fill start (suc i) n (record { frequency = tone.frequency; time = add tone.time step })
          (store start i (wave tone.frequency tone.time) w)

    -- The closure `process`.
    unfoldable pub play :
        Port → List F64 → ProcessScope → Tone F64 → W → Panics (Control × Tone F64 × W)
    unfolding tune fill
    play out_port fs ps tone w =
        map_returns
          (λ out.
            let (tone', w') = fill out.start 0 out.count (tune fs tone) w in (continue, tone', w'))
          (as_mut_slice port_api out_port ps w)

-- `read_freq`: `read_line` and `from_str` are the standard library's, `trim` is too.
abbrev pub read_freq :
    {F32 F64 : Type 0} → Signals F32 F64 → (Str → Str) → (Str → Option ℕ) → Option Str → Option F64
read_freq fl trim from_str none = none
read_freq fl trim from_str (some user_input) = map_some fl.whole (from_str (trim user_input))
