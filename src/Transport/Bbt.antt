-- ===== src/Transport/Bbt.antt =====
-- `TransportBBT` of src/transport.rs: bar, beat and tick, the builders, and `validated`.
pub mod Validation
use rust_jack.Base.{ℕ, ◌==◌, ltb, leb, if◌then◌else◌, Bool, true, false, ◌||◌, Result, ok, err}
use rust_jack.Floats.{Floats}

pub record TransportBbt (F32 F64 : Type 0) : Type 0 where
  pub bar : ℕ
  pub beat : ℕ
  pub tick : ℕ
  pub sig_num : F32
  pub sig_denom : F32
  pub ticks_per_beat : F64
  pub bpm : F64
  pub bar_start_tick : F64

-- `TransportBBTValidationError`
pub data ValidationError : Type 0 where
  bar_zero : ValidationError
  beat_range : ValidationError
  ticks_per_beat_range : ValidationError
  sig_num_range : ValidationError
  sig_denom_range : ValidationError
  bpm_range : ValidationError
  tick_range : ValidationError

module _ {F32 F64 : Type 0} (fl : Floats F32 F64) where
  open fl use {lit32, lit64, le32, le64, lt64, ceil_usize32, ceil_usize64}

  unfoldable pub validated : TransportBbt F32 F64 → Result (TransportBbt F32 F64) ValidationError
  validated b =
      if b.bar == 0
      then err bar_zero
      else if b.beat == 0 || ltb (ceil_usize32 b.sig_num) b.beat
      then err beat_range
      else if le64 b.ticks_per_beat (lit64 0)
      then err ticks_per_beat_range
      else if le32 b.sig_num (lit32 0)
      then err sig_num_range
      else if le32 b.sig_denom (lit32 0)
      then err sig_denom_range
      else if lt64 b.bpm (lit64 0)
      then err bpm_range
      else if leb (ceil_usize64 b.ticks_per_beat) b.tick
      then err tick_range
      else ok b

  -- `validated().is_ok()`
  unfoldable pub valid : TransportBbt F32 F64 → Bool
  valid b = elim (validated b) [ ok c ↦ true | err e ↦ false ]

  -- `Default for TransportBBT`
  abbrev pub default_bbt : TransportBbt F32 F64
  default_bbt = record {
    bar = 1;
    beat = 1;
    tick = 0;
    sig_num = lit32 4;
    sig_denom = lit32 4;
    ticks_per_beat = lit64 1920;
    bpm = lit64 120;
    bar_start_tick = lit64 0;
  }

module _ {F32 F64 : Type 0} where
  unfoldable pub with_bbt : ℕ → ℕ → ℕ → TransportBbt F32 F64 → TransportBbt F32 F64
  with_bbt bar beat tick b = record b { bar = bar; beat = beat; tick = tick }

  unfoldable pub with_bpm : F64 → TransportBbt F32 F64 → TransportBbt F32 F64
  with_bpm bpm b = record b { bpm = bpm }

  unfoldable pub with_timesig : F32 → F32 → TransportBbt F32 F64 → TransportBbt F32 F64
  with_timesig num denom b = record b { sig_num = num; sig_denom = denom }

  unfoldable pub with_ticks_per_beat : F64 → TransportBbt F32 F64 → TransportBbt F32 F64
  with_ticks_per_beat ticks b = record b { ticks_per_beat = ticks }

  unfoldable pub with_bar_start_tick : F64 → TransportBbt F32 F64 → TransportBbt F32 F64
  with_bar_start_tick tick b = record b { bar_start_tick = tick }
