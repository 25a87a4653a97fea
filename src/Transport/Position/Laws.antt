-- ===== src/Transport/Position/Laws.antt =====
-- What is read back from a `TransportPosition`, and what a write leaves alone.
use rust_jack.Base.{
  ℕ, ◌%◌, ◌^◌, ◌<◌, ◌≡◌, refl, ◌∙◌, bit_and, bit_or, ◌==◌, not, true, false, Option, none, some, ok,
  err, arith, Bool-cases, inl, inr,
}
use rust_jack.Base.Bits.{bit-bit_or, bit-bit_and, bit_and-bit4, bit_and-bit6, bit-le_one}
use rust_jack.Floats.{Floats}
use rust_jack.Transport.Bbt.{TransportBbt, ValidationError, validated, bar_zero}
use rust_jack.Transport.Bbt.Validation.{IsValid, validated_iff, validated-same}
use rust_jack.Transport.Position.{
  JackPosition, not_u32, valid_bbt, valid_bbt_frame_offset, frame, frame_rate, usecs, bbt_offset,
  set_bbt_offset, read_bbt, write_bbt, bbt, set_bbt, as_usize, as_i32, to_option,
}

-- The two flags of `valid` under the four masks that the setters apply.
set_bbt_flag : (v : ℕ) → not (bit_and (bit_or v 16) 16 == 0) ≡ true
set_bbt_flag v = ground (arith, bit_and-bit4 (bit_or v 16), bit-bit_or 4 v 16, bit-le_one 4 v)

clear_bbt_flag : (v : ℕ) → not (bit_and (bit_and v (not_u32 16)) 16 == 0) ≡ false
clear_bbt_flag v =
    ground (arith, bit_and-bit4 (bit_and v (not_u32 16)), bit-bit_and 4 v (not_u32 16))

set_offset_flag : (v : ℕ) → not (bit_and (bit_or v 64) 64 == 0) ≡ true
set_offset_flag v = ground (arith, bit_and-bit6 (bit_or v 64), bit-bit_or 6 v 64, bit-le_one 6 v)

clear_offset_flag : (v : ℕ) → not (bit_and (bit_and v (not_u32 64)) 64 == 0) ≡ false
clear_offset_flag v =
    ground (arith, bit_and-bit6 (bit_and v (not_u32 64)), bit-bit_and 6 v (not_u32 64))

or_bbt_keeps_offset : (v : ℕ) → bit_and (bit_or v 16) 64 ≡ bit_and v 64
or_bbt_keeps_offset v =
    ground (arith, bit_and-bit6 (bit_or v 16), bit_and-bit6 v, bit-bit_or 6 v 16)

and_bbt_keeps_offset : (v : ℕ) → bit_and (bit_and v (not_u32 16)) 64 ≡ bit_and v 64
and_bbt_keeps_offset v = ground (
  arith,
  bit_and-bit6 (bit_and v (not_u32 16)),
  bit_and-bit6 v,
  bit-bit_and 6 v (not_u32 16),
  bit-le_one 6 v,
)

or_offset_keeps_bbt : (v : ℕ) → bit_and (bit_or v 64) 16 ≡ bit_and v 16
or_offset_keeps_bbt v =
    ground (arith, bit_and-bit4 (bit_or v 64), bit_and-bit4 v, bit-bit_or 4 v 64)

and_offset_keeps_bbt : (v : ℕ) → bit_and (bit_and v (not_u32 64)) 16 ≡ bit_and v 16
and_offset_keeps_bbt v = ground (
  arith,
  bit_and-bit4 (bit_and v (not_u32 64)),
  bit_and-bit4 v,
  bit-bit_and 4 v (not_u32 64),
  bit-le_one 4 v,
)

-- A pattern below 2 ^ 31 stands for itself.
as_usize-as_i32 : (n : ℕ) → n < 2 ^ 31 → as_usize (as_i32 n) ≡ n
as_usize-as_i32 n h = ground arith

module _ {F32 F64 : Type 0} (fl : Floats F32 F64) where
  -- The flag and the fields after a write.
  bbt-write_bbt :
      (b : TransportBbt F32 F64) (p : JackPosition F32 F64)
      → bbt fl (write_bbt b p) ≡ to_option (validated fl (read_bbt (write_bbt b p)))
  unfolding bbt write_bbt valid_bbt
  bbt-write_bbt b p = rw (set_bbt_flag p.valid)

  record Fits (b : TransportBbt F32 F64) : Type 0 where
    bar_fits : b.bar < 2 ^ 31
    beat_fits : b.beat < 2 ^ 31
    tick_fits : b.tick < 2 ^ 31

  read_bbt-write_bbt :
      (b : TransportBbt F32 F64) (p : JackPosition F32 F64) → Fits b → read_bbt (write_bbt b p) ≡ b
  unfolding read_bbt write_bbt
  read_bbt-write_bbt b p f = ground (
    arith,
    as_usize-as_i32 b.bar f.bar_fits,
    as_usize-as_i32 b.beat f.beat_fits,
    as_usize-as_i32 b.tick f.tick_fits,
  )

  -- A value that validates, and whose bar, beat and tick fit an `i32`, is accepted by `set_bbt` and
  -- read back unchanged by `bbt`.
  pub bbt-set_bbt :
      (b : TransportBbt F32 F64) (p : JackPosition F32 F64)
      → IsValid fl b
      → b.bar < 2 ^ 31
      → b.beat < 2 ^ 31
      → b.tick < 2 ^ 31
      → ((set_bbt fl (some b) p).0 ≡ ok tt) × (bbt fl (set_bbt fl (some b) p).1 ≡ some b)
  unfolding set_bbt
  bbt-set_bbt b p v h k l =
      let accepted = (validated_iff fl b).1 v in
      let same = read_bbt-write_bbt b p (record { bar_fits = h; beat_fits = k; tick_fits = l }) in
      rw (accepted, set_bbt) (refl, bbt-write_bbt b p ∙ rw (same, accepted))

  cut_to_zero :
      (b : TransportBbt F32 F64) (p : JackPosition F32 F64)
      → b.bar % 2 ^ 32 ≡ 0
      → validated fl (read_bbt (write_bbt b p)) ≡ err bar_zero
  unfolding read_bbt write_bbt validated
  cut_to_zero b p h = ground arith

  -- A value that validates but whose bar is a multiple of 2 ^ 32 is accepted by `set_bbt`, and then
  -- `bbt` has nothing to read: the bar is cut to zero.
  pub bbt-set_bbt_truncated :
      (b : TransportBbt F32 F64) (p : JackPosition F32 F64)
      → IsValid fl b
      → b.bar % 2 ^ 32 ≡ 0
      → ((set_bbt fl (some b) p).0 ≡ ok tt) × (bbt fl (set_bbt fl (some b) p).1 ≡ none)
  unfolding set_bbt
  bbt-set_bbt_truncated b p v h =
      let accepted = (validated_iff fl b).1 v in
      rw (accepted, set_bbt) (refl, bbt-write_bbt b p ∙ rw (cut_to_zero b p h))

  -- Whatever a position holds, a `bbt` that it yields has the flag set and validates.
  pub bbt-IsValid :
      (p : JackPosition F32 F64) (b : TransportBbt F32 F64)
      → bbt fl p ≡ some b
      → (valid_bbt p ≡ true) × IsValid fl b
  unfolding bbt
  bbt-IsValid p b h = elim (Bool-cases (valid_bbt p)) [
    | inl set ↦ (set, (validated_iff fl b).0 (accepted set))
    | inr clear ↦ absurd (no_value clear)
  ]
    where
      no_value : valid_bbt p ≡ false → ⊥
      no_value e = ground arith

      accepted : valid_bbt p ≡ true → validated fl b ≡ ok b
      accepted e = ground (arith, validated-same fl (read_bbt p) b)

  -- `set_bbt` with no value takes the reading away, and with one that does not validate it gives the
  -- error and leaves the position as it was.
  pub set_bbt_without_value :
      (b : TransportBbt F32 F64) (e : ValidationError) (p : JackPosition F32 F64)
      → validated fl b ≡ err e
      → ((set_bbt fl none p).0 ≡ ok tt)
        × (bbt fl (set_bbt fl none p).1 ≡ none)
        × (set_bbt fl (some b) p ≡ (err e, p))
  unfolding set_bbt bbt valid_bbt
  set_bbt_without_value b e p h = (refl, rw (clear_bbt_flag p.valid), rw (h, set_bbt))

  -- Whatever `set_bbt` is given, the frame, the frame rate, the time and the offset of the position
  -- are afterwards what they were.
  pub set_bbt_keeps :
      (o : Option (TransportBbt F32 F64)) (p : JackPosition F32 F64)
      → let q = (set_bbt fl o p).1 in
        (frame q ≡ frame p)
        × (frame_rate q ≡ frame_rate p)
        × (usecs q ≡ usecs p)
        × (bbt_offset q ≡ bbt_offset p)
  unfolding set_bbt write_bbt frame frame_rate usecs bbt_offset valid_bbt_frame_offset
  set_bbt_keeps none p = ground (arith, and_bbt_keeps_offset p.valid)
  set_bbt_keeps (some b) p = ground (arith, or_bbt_keeps_offset p.valid)

  -- `bbt_offset` reads back what `set_bbt_offset` wrote, `None` included, and `set_bbt_offset` leaves
  -- the bar, beat and tick and the frame alone; it never fails.
  pub bbt_offset-set_bbt_offset :
      (o : Option ℕ) (p : JackPosition F32 F64)
      → let (r, q) = set_bbt_offset o p in
        (r ≡ ok tt) × (bbt_offset q ≡ o) × (bbt fl q ≡ bbt fl p) × (frame q ≡ frame p)
  unfolding set_bbt_offset bbt_offset valid_bbt_frame_offset bbt valid_bbt read_bbt frame
  bbt_offset-set_bbt_offset none p =
      (refl, rw (clear_offset_flag p.valid), rw (and_offset_keeps_bbt p.valid), refl)
  bbt_offset-set_bbt_offset (some f) p =
      (refl, rw (set_offset_flag p.valid), rw (or_offset_keeps_bbt p.valid), refl)
