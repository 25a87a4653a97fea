-- ===== src/Transport/Position.antt =====
-- `TransportPosition` of src/transport.rs, over `jack_position_t` of jack-sys/src/lib.rs. A `u32`
-- or `i32` field is its bit pattern below 2 ^ 32; a `usize` has 64 bits.
pub mod Laws
use rust_jack.Base.{
  ℕ, ◌+◌, ◌-◌, ◌%◌, ◌^◌, bit_and, bit_or, ◌==◌, ltb, if◌then◌else◌, Bool, not, Option, none, some,
  List, Result, ok, err, replicate,
}
use rust_jack.Floats.{Floats}
use rust_jack.Transport.Bbt.{TransportBbt, ValidationError, validated}

-- `JackPositionBBT` and `JackBBTFrameOffset`
abbrev pub position_bbt : ℕ
position_bbt = 16

abbrev pub bbt_frame_offset : ℕ
bbt_frame_offset = 64

-- `!mask` on a `u32`
abbrev pub not_u32 : ℕ → ℕ
not_u32 mask = 2 ^ 32 - 1 - mask

-- `n as i32` from a `usize`, and `p as usize` from an `i32`, which extends the sign.
abbrev pub as_i32 : ℕ → ℕ
as_i32 n = n % 2 ^ 32

abbrev pub as_usize : ℕ → ℕ
as_usize p = if ltb p (2 ^ 31) then p else p + (2 ^ 64 - 2 ^ 32)

-- `Struct__jack_position`
pub record JackPosition (F32 F64 : Type 0) : Type 0 where
  pub unique_1 : ℕ
  pub usecs : ℕ
  pub frame_rate : ℕ
  pub frame : ℕ
  pub valid : ℕ
  pub bar : ℕ
  pub beat : ℕ
  pub tick : ℕ
  pub bar_start_tick : F64
  pub beats_per_bar : F32
  pub beat_type : F32
  pub ticks_per_beat : F64
  pub beats_per_minute : F64
  pub frame_time : F64
  pub next_time : F64
  pub bbt_offset : ℕ
  pub audio_frames_per_video_frame : F32
  pub video_offset : ℕ
  pub padding : List ℕ
  pub unique_2 : ℕ

module _ {F32 F64 : Type 0} where
  unfoldable pub valid_bbt : JackPosition F32 F64 → Bool
  valid_bbt p = not (bit_and p.valid position_bbt == 0)

  unfoldable pub valid_bbt_frame_offset : JackPosition F32 F64 → Bool
  valid_bbt_frame_offset p = not (bit_and p.valid bbt_frame_offset == 0)

  unfoldable pub frame : JackPosition F32 F64 → ℕ
  frame p = p.frame

  unfoldable pub set_frame : ℕ → JackPosition F32 F64 → JackPosition F32 F64
  set_frame frame p = record p { frame = frame }

  unfoldable pub frame_rate : JackPosition F32 F64 → Option ℕ
  frame_rate p = if ltb 0 p.frame_rate then some p.frame_rate else none

  unfoldable pub usecs : JackPosition F32 F64 → Option ℕ
  usecs p = if ltb 0 p.usecs then some p.usecs else none

  unfoldable pub bbt_offset : JackPosition F32 F64 → Option ℕ
  bbt_offset p = if valid_bbt_frame_offset p then some p.bbt_offset else none

  unfoldable pub set_bbt_offset :
      Option ℕ → JackPosition F32 F64 → Result (Unit {0}) ℕ × JackPosition F32 F64
  set_bbt_offset none p = (ok tt, record p { valid = bit_and p.valid (not_u32 bbt_frame_offset) })
  set_bbt_offset (some frame) p =
      (ok tt, record p { bbt_offset = frame; valid = bit_or p.valid bbt_frame_offset })

  -- The reading of the fields that `bbt` validates.
  unfoldable pub read_bbt : JackPosition F32 F64 → TransportBbt F32 F64
  read_bbt p = record {
    bar = as_usize p.bar;
    beat = as_usize p.beat;
    tick = as_usize p.tick;
    sig_num = p.beats_per_bar;
    sig_denom = p.beat_type;
    ticks_per_beat = p.ticks_per_beat;
    bpm = p.beats_per_minute;
    bar_start_tick = p.bar_start_tick;
  }

  -- The assignments of `set_bbt` for a value that validates.
  unfoldable pub write_bbt : TransportBbt F32 F64 → JackPosition F32 F64 → JackPosition F32 F64
  write_bbt b p = record p {
    bar = as_i32 b.bar;
    beat = as_i32 b.beat;
    tick = as_i32 b.tick;
    beats_per_bar = b.sig_num;
    beat_type = b.sig_denom;
    ticks_per_beat = b.ticks_per_beat;
    beats_per_minute = b.bpm;
    bar_start_tick = b.bar_start_tick;
    valid = bit_or p.valid position_bbt;
  }

-- `Result::ok`
abbrev pub to_option {ℓ κ} : {A : Type ℓ} {E : Type κ} → Result A E → Option A
to_option (ok a) = some a
to_option (err e) = none

module _ {F32 F64 : Type 0} (fl : Floats F32 F64) where
  unfoldable pub bbt : JackPosition F32 F64 → Option (TransportBbt F32 F64)
  bbt p = if valid_bbt p then to_option (validated fl (read_bbt p)) else none

  unfoldable pub set_bbt :
      Option (TransportBbt F32 F64)
      → JackPosition F32 F64
      → Result (Unit {0}) ValidationError × JackPosition F32 F64
  set_bbt none p = (ok tt, record p { valid = bit_and p.valid (not_u32 position_bbt) })
  set_bbt (some b) p = elim (validated fl b) [ ok c ↦ (ok tt, write_bbt c p) | err e ↦ (err e, p) ]

  -- `Default for TransportPosition`: all bits zero.
  abbrev pub default_position : JackPosition F32 F64
  default_position = record {
    unique_1 = 0;
    usecs = 0;
    frame_rate = 0;
    frame = 0;
    valid = 0;
    bar = 0;
    beat = 0;
    tick = 0;
    bar_start_tick = fl.lit64 0;
    beats_per_bar = fl.lit32 0;
    beat_type = fl.lit32 0;
    ticks_per_beat = fl.lit64 0;
    beats_per_minute = fl.lit64 0;
    frame_time = fl.lit64 0;
    next_time = fl.lit64 0;
    bbt_offset = 0;
    audio_frames_per_video_frame = fl.lit32 0;
    video_offset = 0;
    padding = replicate 7 0;
    unique_2 = 0;
  }
