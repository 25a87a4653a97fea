-- ===== src/Client.antt =====
-- `Client` of src/client/client_impl.rs: opening, closing, its settings and its times.
pub mod State
pub mod Callbacks
pub mod Ports
pub mod Async
pub mod Locking
pub mod Releasing
pub mod Lifecycle
pub mod Registration
pub mod Dispatch
pub mod Connecting
pub mod Serving
pub mod Effects
pub mod Identity
pub mod Settings
pub mod Flags
pub mod Info
pub mod Samples
mod Tests
mod PortTests
mod RegistrationTests
use rust_jack.Base.{
  ℕ, zero, ◌+◌, Bool, false, Option, none, some, ◌==◌, if◌then◌else◌, ℤ, pos, Result, ok, err,
  Panics, returns, panics,
}
use rust_jack.Enums.{
  Str, ClientStatus, Error, client_error, port_monitor_error, set_buffer_size_error,
}
use rust_jack.Strings.{c_string}
use rust_jack.Port.{status, on_off}
use rust_jack.Transport.Control.{Transport}
use State.{World, Outcome, done, unwound, locked, release_life_after}

-- `Client`: the pointer, the `Arc` by its cell, and whether a property handler is set.
pub record Client : Type 0 where
  pub ptr : ℕ
  pub cell : ℕ
  pub has_handler : Bool

-- The client functions of libjack, over its state `L`. 0 is the null pointer. `jack_client_open`
-- returns the client and the status bits.
pub record ClientApi (L : Type 0) : Type 0 where
  pub jack_client_open : Str → ℕ → L → ℕ × ℕ × L
  pub jack_client_close : ℕ → L → ℤ × L
  pub jack_connect : ℕ → Str → Str → L → ℤ × L
  pub jack_disconnect : ℕ → Str → Str → L → ℤ × L
  pub jack_port_disconnect : ℕ → ℕ → L → ℤ × L
  pub jack_port_unregister : ℕ → ℕ → L → ℤ × L
  pub jack_port_register : ℕ → Str → Str → ℕ → ℕ → L → ℕ × L
  pub jack_port_by_id : ℕ → ℕ → L → ℕ
  pub jack_port_by_name : ℕ → Str → L → ℕ
  pub jack_port_is_mine : ℕ → ℕ → L → ℤ
  pub jack_port_request_monitor_by_name : ℕ → Str → ℤ → L → ℤ × L
  pub jack_set_buffer_size : ℕ → ℕ → L → ℤ × L
  pub jack_get_buffer_size : ℕ → L → ℕ
  pub jack_get_sample_rate : ℕ → L → ℕ
  pub jack_frame_time : ℕ → L → ℕ
  pub jack_frames_to_time : ℕ → ℕ → L → ℕ
  pub jack_time_to_frames : ℕ → ℕ → L → ℕ
  -- `bitflags`: `ClientStatus::from_bits`
  pub status_from_bits : ℕ → Option ClientStatus

-- `ClientStatus::from_bits(bits).unwrap_or_else(ClientStatus::empty)`
abbrev pub status_or_empty : Option ClientStatus → ClientStatus
status_or_empty none = record { bits = 0 }
status_or_empty (some s) = s

module _ {L : Type 0} (api : ClientApi L) where
  -- The client is made with a new life cell that it alone holds.
  unfoldable pub opened :
      ℕ → ClientStatus → World L → Outcome L (Result (Client × ClientStatus) Error)
  opened ptr status w =
      if ptr == 0
      then done (err (client_error status)) w
      else done (ok (record { ptr = ptr; cell = w.next_cell; has_handler = false }, status))
          (record w {
            next_cell = w.next_cell + 1;
            lives = λ c. if c == w.next_cell then 1 else w.lives c;
          })

  unfoldable pub open_with :
      Panics Str → ℕ → World L → Outcome L (Result (Client × ClientStatus) Error)
  unfolding opened
  open_with panics options w = unwound w
  open_with (returns s) options w =
      let (ptr, bits, lib) = api.jack_client_open s options w.lib in
      opened ptr (status_or_empty (api.status_from_bits bits)) (record w { lib = lib })

  -- `Client::new`
  unfoldable pub new : Str → ℕ → World L → Outcome L (Result (Client × ClientStatus) Error)
  unfolding open_with
  new client_name options = locked (open_with (c_string client_name) options)

  -- `assert_eq!(res, 0)`
  unfoldable pub close_checked : ℤ → World L → Outcome L (Unit {0})
  close_checked (pos zero) w = done tt w
  close_checked _ w = unwound w

  unfoldable pub close : Client → World L → Outcome L (Unit {0})
  unfolding close_checked
  close c w =
      let (res, lib) = api.jack_client_close c.ptr w.lib in
      close_checked res (record w { lib = lib })

  -- `Drop for Client`, and then the drop of its `Arc`.
  unfoldable pub drop_client : Client → World L → Outcome L (Unit {0})
  unfolding close
  drop_client c w = release_life_after c.cell (locked (close c) w)

  -- `transport()` and the parts of a port of this client.
  unfoldable pub transport : Client → Transport
  transport c = record { client_ptr = c.ptr; client_life = record { cell = c.cell } }

  unfoldable pub set_buffer_size : Client → ℕ → World L → Result (Unit {0}) Error × World L
  set_buffer_size c n_frames w =
      let (res, lib) = api.jack_set_buffer_size c.ptr n_frames w.lib in
      (status res set_buffer_size_error, record w { lib = lib })

  unfoldable pub request_monitor_by_name :
      Client → Str → Bool → World L → Outcome L (Result (Unit {0}) Error)
  request_monitor_by_name c port_name enable w = elim (c_string port_name) [
    | panics ↦ unwound w
    | returns s ↦
        let (res, lib) = api.jack_port_request_monitor_by_name c.ptr s (on_off enable) w.lib in
        done (status res port_monitor_error) (record w { lib = lib })
  ]

  -- The queries that pass a number of the library on.
  unfoldable pub sample_rate : Client → World L → ℕ
  sample_rate c w = api.jack_get_sample_rate c.ptr w.lib

  unfoldable pub buffer_size : Client → World L → ℕ
  buffer_size c w = api.jack_get_buffer_size c.ptr w.lib

  unfoldable pub frame_time : Client → World L → ℕ
  frame_time c w = api.jack_frame_time c.ptr w.lib

  unfoldable pub frames_to_time : Client → ℕ → World L → ℕ
  frames_to_time c n_frames w = api.jack_frames_to_time c.ptr n_frames w.lib

  unfoldable pub time_to_frames : Client → ℕ → World L → ℕ
  time_to_frames c t w = api.jack_time_to_frames c.ptr t w.lib
