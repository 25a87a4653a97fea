-- ===== src/Transport/Tests.antt =====
-- src/transport.rs at concrete values: whole-number floats with a NaN, and a library that records
-- its calls.
use rust_jack.Base.{◌^◌, ◌<◌, ◌≡◌, refl, ◌↔◌, true, none, some, arith, pos, ok, err}
use rust_jack.Enums.{unknown_error}
use rust_jack.Transport.Bbt.{
  TransportBbt, ValidationError, beat_range, validated, valid, with_bbt, with_bpm,
}
use rust_jack.Transport.Bbt.Validation.{IsValid, Fault, rank, validated_iff, validated-err_iff}
use rust_jack.Transport.Position.{JackPosition, set_bbt, bbt, set_bbt_offset, bbt_offset, frame}
use rust_jack.Transport.Position.Laws.{
  bbt-set_bbt, bbt-set_bbt_truncated, bbt_offset-set_bbt_offset,
}
use rust_jack.Transport.Control.{starting, locate, query_state}
use rust_jack.Transport.Samples.{
  Num, nan, num, whole, start_bbt, start_position, counting, transport,
}

-- Bar 2 ^ 32.
abbrev far_bbt : TransportBbt Num Num
far_bbt = record start_bbt { bar = 2 ^ 32 }

-- Beat 5 of 4.
abbrev late_bbt : TransportBbt Num Num
late_bbt = record start_bbt { beat = 5 }

builders :
    validated whole (with_bbt 4 2 14 start_bbt)
    ≡ ok (record start_bbt { bar = 4; beat = 2; tick = 14 })
unfolding validated with_bbt
builders = refl

-- A tempo that is not a number passes.
nan_bpm : valid whole (with_bpm nan start_bbt) ≡ true
unfolding valid validated with_bpm
nan_bpm = refl

start_IsValid : IsValid whole start_bbt
start_IsValid = (validated_iff whole start_bbt).0 run
  where
    run : validated whole start_bbt ≡ ok start_bbt
    run = unfold validated in refl

validated_iff_example : (validated whole start_bbt ≡ ok start_bbt) ↔ IsValid whole start_bbt
validated_iff_example = validated_iff whole start_bbt

validated-err_iff_example : (validated whole late_bbt ≡ err beat_range) ↔ (
    Fault whole beat_range late_bbt
    × ((e' : ValidationError) → rank e' < 1 → ¬ Fault whole e' late_bbt))
validated-err_iff_example = validated-err_iff whole late_bbt beat_range

bbt-set_bbt_example :
    ((set_bbt whole (some start_bbt) start_position).0 ≡ ok tt)
    × (bbt whole (set_bbt whole (some start_bbt) start_position).1 ≡ some start_bbt)
bbt-set_bbt_example =
    bbt-set_bbt whole start_bbt start_position start_IsValid (omega arith) (omega arith)
      (omega arith)

far_IsValid : IsValid whole far_bbt
far_IsValid = (validated_iff whole far_bbt).0 run
  where
    run : validated whole far_bbt ≡ ok far_bbt
    run = unfold validated in refl

bbt-set_bbt_truncated_example :
    ((set_bbt whole (some far_bbt) start_position).0 ≡ ok tt)
    × (bbt whole (set_bbt whole (some far_bbt) start_position).1 ≡ none)
bbt-set_bbt_truncated_example = bbt-set_bbt_truncated whole far_bbt start_position far_IsValid refl

abbrev set_position : JackPosition Num Num
set_position = record start_position {
  valid = 16;
  bar = 1;
  beat = 1;
  beats_per_bar = num (pos 4);
  beat_type = num (pos 4);
  ticks_per_beat = num (pos 1920);
  beats_per_minute = num (pos 120);
}

bbt_offset-set_bbt_offset_example :
    let (r, q) = set_bbt_offset (some 7) set_position in
    (r ≡ ok tt)
    × (bbt_offset q ≡ some 7)
    × (bbt whole q ≡ bbt whole set_position)
    × (frame q ≡ frame set_position)
bbt_offset-set_bbt_offset_example = bbt_offset-set_bbt_offset whole (some 7) set_position

refused_locate : (locate counting start_position (λ c. 1) transport 2000 5).0 ≡ err unknown_error
unfolding locate
refused_locate = refl

queried : query_state counting start_position (λ c. 1) transport 5 ≡ (ok starting, 6)
unfolding query_state
queried = refl
