-- ===== src/Scope.antt =====
-- `ProcessScope` and `CycleTimes` of src/client/client_impl.rs.
use rust_jack.Base.{ℕ, zero, Option, none, some, ℤ, pos, Result, ok, err}
use rust_jack.Enums.{Error, time_error, weak_function_not_found}

pub record ProcessScope : Type 0 where
  pub client_ptr : ℕ
  pub n_frames : ℕ

-- `ProcessScope::from_raw`
unfoldable pub scope_from_raw : ℕ → ℕ → ProcessScope
scope_from_raw n_frames client_ptr = record { client_ptr = client_ptr; n_frames = n_frames }

pub record CycleTimes (F32 : Type 0) : Type 0 where
  pub current_frames : ℕ
  pub current_usecs : ℕ
  pub next_usecs : ℕ
  pub period_usecs : F32

-- The timing functions of libjack. `jack_get_cycle_times` is a weak symbol: `none` if the library
-- does not have it. What it writes through its pointers comes back as one record.
pub record TimingApi (F32 W : Type 0) : Type 0 where
  pub jack_last_frame_time : ℕ → W → ℕ
  pub jack_frames_since_cycle_start : ℕ → W → ℕ
  pub jack_get_cycle_times : Option (ℕ → CycleTimes F32 → W → ℤ × CycleTimes F32)

module _ {F32 W : Type 0} (api : TimingApi F32 W) (zero32 : F32) (ps : ProcessScope) where
  unfoldable pub last_frame_time : W → ℕ
  last_frame_time w = api.jack_last_frame_time ps.client_ptr w

  unfoldable pub frames_since_cycle_start : W → ℕ
  frames_since_cycle_start w = api.jack_frames_since_cycle_start ps.client_ptr w

  abbrev no_times : CycleTimes F32
  no_times = record { current_frames = 0; current_usecs = 0; next_usecs = 0; period_usecs = zero32 }

  -- `match res { 0 => Ok(..), _ => Err(TimeError) }`
  abbrev timed : ℤ × CycleTimes F32 → Result (CycleTimes F32) Error
  timed (pos zero, t) = ok t
  timed (_, t) = err time_error

  unfoldable pub cycle_times : W → Result (CycleTimes F32) Error
  cycle_times w = elim api.jack_get_cycle_times [
    | none ↦ err weak_function_not_found
    | some f ↦ timed (f ps.client_ptr no_times w)
  ]
