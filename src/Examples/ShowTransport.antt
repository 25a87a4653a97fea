-- ===== src/Examples/ShowTransport.antt =====
-- examples/show_transport.rs: the thread that prints the transport when it changes.
pub mod Laws
use rust_jack.Base.{
  ℕ, zero, suc, Bool, true, false, not, ◌&&◌, ◌==◌, Option, none, some, List, [], ◌∷◌, ◌++◌,
  if◌then◌else◌, Result, ok, err,
}
use rust_jack.Life.{Lives}
use rust_jack.Floats.{Floats}
use rust_jack.Transport.Bbt.{TransportBbt}
use rust_jack.Transport.Position.{JackPosition, bbt, default_position}
use rust_jack.Transport.Control.{
  TransportApi, Transport, TransportState, TransportStatePosition, query, stopped, rolling,
  starting,
}

-- A line of the output. Of the bar, beat and tick only the fields that are printed matter.
pub data Shown (F32 F64 : Type 0) : Type 0 where
  state_line : TransportState → Shown F32 F64
  bbt_line :
      (bar beat : ℕ) (bpm : F64) (sig_num sig_denom : F32) (ticks_per_beat : F64) → Shown F32 F64
  no_state : Shown F32 F64

-- `==` on the floats of the language, which is false at a NaN.
pub record FloatEq (F32 F64 : Type 0) : Type 0 where
  pub eq32 : F32 → F32 → Bool
  pub eq64 : F64 → F64 → Bool

-- `PartialEq for TransportState`
abbrev pub same_state : TransportState → TransportState → Bool
same_state stopped stopped = true
same_state rolling rolling = true
same_state starting starting = true
same_state _ _ = false

module _ {F32 F64 : Type 0} (eq : FloatEq F32 F64) where
  open eq use {eq32, eq64}

  -- `PartialEq for TransportBBT`
  abbrev pub same_bbt : TransportBbt F32 F64 → TransportBbt F32 F64 → Bool
  same_bbt a b =
      (a.bar == b.bar)
      && (a.beat == b.beat)
      && (a.tick == b.tick)
      && eq32 a.sig_num b.sig_num
      && eq32 a.sig_denom b.sig_denom
      && eq64 a.ticks_per_beat b.ticks_per_beat
      && eq64 a.bpm b.bpm
      && eq64 a.bar_start_tick b.bar_start_tick

module _ {F32 F64 : Type 0} (fl : Floats F32 F64) (eq : FloatEq F32 F64) where
  abbrev pub State : Type 0
  State = TransportStatePosition F32 F64

  abbrev pub coarse : TransportBbt F32 F64 → TransportBbt F32 F64
  coarse b = record b { tick = 0; bar_start_tick = fl.lit64 0 }

  -- Whether the bar, beat and tick are printed.
  unfoldable pub prints_bbt : Option State → TransportBbt F32 F64 → Bool
  unfolding bbt
  prints_bbt none b = true
  prints_bbt (some last_state) b = elim (bbt fl last_state.position) [
    | none ↦ true
    | some l ↦ not (same_bbt eq (coarse b) (coarse l))
  ]

  abbrev pub line_of : TransportBbt F32 F64 → Shown F32 F64
  line_of b = bbt_line b.bar b.beat b.bpm b.sig_num b.sig_denom b.ticks_per_beat

  -- `state_last.as_ref().map_or_else(|| true, |l| l.state != state.state)`
  abbrev pub state_lines : Option State → State → List (Shown F32 F64)
  state_lines none s = state_line s.state ∷ []
  state_lines (some l) s = if same_state l.state s.state then [] else state_line s.state ∷ []

  abbrev pub bbt_lines : Option State → Option (TransportBbt F32 F64) → List (Shown F32 F64)
  bbt_lines l none = []
  bbt_lines l (some b) = if prints_bbt l b then line_of b ∷ [] else []

  -- What one turn of the loop prints.
  unfoldable pub turn : Option State → State → List (Shown F32 F64)
  unfolding prints_bbt bbt
  turn l s = state_lines l s ++ bbt_lines l (bbt fl s.position)

  module _ {W : Type 0} (api : TransportApi F32 F64 W) (lives : Lives) (transport : Transport)
      (stop : W → Bool) (sleep : W → W) where
    -- The closure of the thread, for at most `fuel` turns: `stop` is the flag that it loads, and
    -- `sleep` lets the time go on.
    unfoldable pub show : ℕ → Option State → W → List (Shown F32 F64)
    unfolding turn query
    show zero l w = []
    show (suc fuel) l w =
        if stop w
        then []
        else (let (r, w') = query api (default_position fl) lives transport (sleep w) in
            elim r [ ok s ↦ turn l s ++ show fuel (some s) w' | err e ↦ no_state ∷ [] ])
