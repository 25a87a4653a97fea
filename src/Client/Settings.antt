-- ===== src/Client/Settings.antt =====
-- What else a `Client` of src/client/client_impl.rs passes to the library and back, and the handler of
-- property changes that it may be given once.
pub mod Laws
use rust_jack.Base.{
  ℕ, ◌+◌, true, false, ◌==◌, if◌then◌else◌, ℤ, Panics, returns, panics, map_returns, Result,
}
use rust_jack.Enums.{Str, Error, unknown_error}
use rust_jack.Strings.{c_string}
use rust_jack.Port.{status}
use rust_jack.Client.{Client, ClientApi}
use rust_jack.Client.State.{World, Outcome}
use rust_jack.Client.Async.{ActivationApi, AsyncClient, async_new}

-- The functions of libjack over its state `L`; `F` are its floats.
pub record SettingsApi (L F : Type 0) : Type 0 where
  pub jack_cpu_load : ℕ → L → F
  pub jack_frames_since_cycle_start : ℕ → L → ℕ
  pub jack_port_type_get_buffer_size : ℕ → Str → L → ℕ
  pub jack_set_property_change_callback : ℕ → ℕ → L → ℤ × L
  pub jack_get_time : L → ℕ

module _ {L F : Type 0} (api : SettingsApi L F) where
  open api use {
    jack_cpu_load, jack_frames_since_cycle_start, jack_port_type_get_buffer_size,
    jack_set_property_change_callback, jack_get_time,
  }

  unfoldable pub cpu_load : Client → World L → F
  cpu_load c w = jack_cpu_load c.ptr w.lib

  unfoldable pub frames_since_cycle_start : Client → World L → ℕ
  frames_since_cycle_start c w = jack_frames_since_cycle_start c.ptr w.lib

  unfoldable pub type_buffer_size : Client → Str → World L → Panics ℕ
  type_buffer_size c port_type w =
      map_returns (λ s. jack_port_type_get_buffer_size c.ptr s w.lib) (c_string port_type)

  unfoldable pub get_time : World L → ℕ
  get_time w = jack_get_time w.lib

  -- The client keeps the box of the handler, and the library is given its address. The assertion is
  -- that it keeps none yet.
  unfoldable pub register_property_change_handler :
      Client → World L → Panics (Result (Unit {0}) Error × Client × World L)
  register_property_change_handler c w =
      if c.has_handler
      then panics
      else let (res, lib) = jack_set_property_change_callback c.ptr w.next_box w.lib in
        returns (
          status res unknown_error,
          record c { has_handler = true },
          record w { next_box = w.next_box + 1; lib = lib },
        )

module _ {L : Type 0} where
  -- `Client::from_raw`, with a new `Arc`.
  unfoldable pub from_raw : ℕ → World L → Client × World L
  from_raw p w = (
    record { ptr = p; cell = w.next_cell; has_handler = false },
    record w {
      next_cell = w.next_cell + 1;
      lives = λ d. if d == w.next_cell then 1 else w.lives d;
    },
  )

module _ {L N P : Type 0} (api : ClientApi L) (act : ActivationApi L) where
  unfoldable pub activate_async :
      Client → N → P → World L → Outcome L (Result (AsyncClient N P) Error)
  unfolding async_new
  activate_async c notification_handler process_handler =
      async_new api act c notification_handler process_handler
