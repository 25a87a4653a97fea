-- ===== src/Enums.antt =====
-- src/jack_enums.rs and the status of src/client/client_status.rs, with the latency constants of
-- jack-sys/src/lib.rs.
use rust_jack.Base.{ℕ, List, ℤ, pos, negsuc}

-- The bytes of a `&str` or `String`.
abbrev pub Str : Type 0
Str = List ℕ

-- `ClientStatus`, by its bits.
pub record ClientStatus : Type 0 where
  pub bits : ℕ

pub data Error : Type 0 where
  callback_deregistration_error : Error
  callback_registration_error : Error
  client_activation_error : Error
  client_deactivation_error : Error
  client_error : ClientStatus → Error
  freewheel_error : Error
  invalid_deactivation : Error
  not_enough_space : Error
  port_alias_error : Error
  port_already_connected : Str → Str → Error
  port_connection_error : Str → Str → Error
  port_disconnection_error : Error
  port_monitor_error : Error
  port_naming_error : Error
  port_registration_error : Str → Error
  set_buffer_size_error : Error
  time_error : Error
  weak_function_not_found : Error
  client_is_no_longer_alive : Error
  ringbuffer_create_failed : Error
  unknown_error : Error

pub data LatencyType : Type 0 where
  capture playback : LatencyType

-- `JackCaptureLatency` and `JackPlaybackLatency`
abbrev pub capture_latency : ℕ
capture_latency = 0

abbrev pub playback_latency : ℕ
playback_latency = 1

-- `LatencyType::to_ffi`
unfoldable pub latency_to_ffi : LatencyType → ℕ
latency_to_ffi playback = playback_latency
latency_to_ffi capture = capture_latency

pub data Control : Type 0 where
  continue quit : Control

-- `Control::to_ffi`
unfoldable pub control_to_ffi : Control → ℤ
control_to_ffi continue = pos 0
control_to_ffi quit = negsuc 0

-- `Default for Control`
abbrev pub default_control : Control
default_control = continue
