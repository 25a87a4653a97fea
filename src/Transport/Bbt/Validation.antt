-- ===== src/Transport/Bbt/Validation.antt =====
-- What `TransportBBT::validated` accepts, and which error it gives for the rest.
use rust_jack.Base.{ℕ, ◌≤◌, ◌<◌, ◌≡◌, ◌↔◌, ◌⊎◌, true, false, ok, err, arith}
use rust_jack.Floats.{Floats}
use rust_jack.Transport.Bbt.{
  TransportBbt, ValidationError, bar_zero, beat_range, ticks_per_beat_range, sig_num_range,
  sig_denom_range, bpm_range, tick_range, validated,
}

-- The place of an error in the order in which the fields are tested.
abbrev pub rank : ValidationError → ℕ
rank bar_zero = 0
rank beat_range = 1
rank ticks_per_beat_range = 2
rank sig_num_range = 3
rank sig_denom_range = 4
rank bpm_range = 5
rank tick_range = 6

module _ {F32 F64 : Type 0} (fl : Floats F32 F64) where
  open fl use {lit32, lit64, le32, le64, lt64, ceil_usize32, ceil_usize64}

  -- What each error says of a value.
  abbrev pub Fault : ValidationError → TransportBbt F32 F64 → Type 0
  Fault bar_zero b = b.bar ≡ 0
  Fault beat_range b = (b.beat ≡ 0) ⊎ (ceil_usize32 b.sig_num < b.beat)
  Fault ticks_per_beat_range b = le64 b.ticks_per_beat (lit64 0) ≡ true
  Fault sig_num_range b = le32 b.sig_num (lit32 0) ≡ true
  Fault sig_denom_range b = le32 b.sig_denom (lit32 0) ≡ true
  Fault bpm_range b = lt64 b.bpm (lit64 0) ≡ true
  Fault tick_range b = ceil_usize64 b.ticks_per_beat ≤ b.tick

  pub record IsValid (b : TransportBbt F32 F64) : Type 0 where
    pub bar_pos : 0 < b.bar
    pub beat_pos : 0 < b.beat
    pub beat_in : b.beat ≤ ceil_usize32 b.sig_num
    pub ticks_pos : le64 b.ticks_per_beat (lit64 0) ≡ false
    pub num_pos : le32 b.sig_num (lit32 0) ≡ false
    pub denom_pos : le32 b.sig_denom (lit32 0) ≡ false
    pub bpm_nonneg : lt64 b.bpm (lit64 0) ≡ false
    pub tick_in : b.tick < ceil_usize64 b.ticks_per_beat

  -- `validated` returns the value itself when every field is in range, and only then.
  pub validated_iff : (b : TransportBbt F32 F64) → (validated fl b ≡ ok b) ↔ IsValid b
  unfolding validated
  validated_iff b = (λ h. ground arith, λ v. ground arith)

  -- It never alters a field.
  pub validated-same : (b c : TransportBbt F32 F64) → validated fl b ≡ ok c → c ≡ b
  unfolding validated
  validated-same b c h = ground arith

  faulty : (b : TransportBbt F32 F64) (e : ValidationError) → validated fl b ≡ err e → Fault e b
  unfolding validated
  faulty b bar_zero h = ground arith
  faulty b beat_range h = ground arith
  faulty b ticks_per_beat_range h = ground arith
  faulty b sig_num_range h = ground arith
  faulty b sig_denom_range h = ground arith
  faulty b bpm_range h = ground arith
  faulty b tick_range h = ground arith

  -- No earlier field is at fault.
  nothing_before :
      (b : TransportBbt F32 F64) (e e' : ValidationError)
      → validated fl b ≡ err e
      → rank e' < rank e
      → ¬ Fault e' b
  unfolding validated
  nothing_before b e bar_zero h lt f = ground arith
  nothing_before b e beat_range h lt f = ground arith
  nothing_before b e ticks_per_beat_range h lt f = ground arith
  nothing_before b e sig_num_range h lt f = ground arith
  nothing_before b e sig_denom_range h lt f = ground arith
  nothing_before b e bpm_range h lt f = ground arith
  nothing_before b e tick_range h lt f = ground arith

  refused :
      (b : TransportBbt F32 F64) (e : ValidationError)
      → Fault e b
      → ((e' : ValidationError) → rank e' < rank e → ¬ Fault e' b)
      → validated fl b ≡ err e
  unfolding validated
  refused b bar_zero f none_before = ground arith
  refused b beat_range f none_before = ground (arith, none_before bar_zero)
  refused b ticks_per_beat_range f none_before =
      ground (arith, none_before bar_zero, none_before beat_range)
  refused b sig_num_range f none_before =
      ground (arith, none_before bar_zero, none_before beat_range, none_before ticks_per_beat_range)
  refused b sig_denom_range f none_before = ground (
    arith,
    none_before bar_zero,
    none_before beat_range,
    none_before ticks_per_beat_range,
    none_before sig_num_range,
  )
  refused b bpm_range f none_before = ground (
    arith,
    none_before bar_zero,
    none_before beat_range,
    none_before ticks_per_beat_range,
    none_before sig_num_range,
    none_before sig_denom_range,
  )
  refused b tick_range f none_before = ground (
    arith,
    none_before bar_zero,
    none_before beat_range,
    none_before ticks_per_beat_range,
    none_before sig_num_range,
    none_before sig_denom_range,
    none_before bpm_range,
  )

  -- `validated` gives an error exactly when its field is at fault and no field tested before it is.
  pub validated-err_iff :
      (b : TransportBbt F32 F64) (e : ValidationError)
      → (validated fl b ≡ err e)
        ↔ (Fault e b × ((e' : ValidationError) → rank e' < rank e → ¬ Fault e' b))
  validated-err_iff b e =
      (λ h. (faulty b e h, λ e' lt. nothing_before b e e' h lt), λ f. refused b e f.0 f.1)
