-- ===== src/Port.antt =====
-- src/port/port_impl.rs: a port, by the pointer that libjack gave for it, and the calls on it.
pub mod Specs
pub mod Info
pub mod Classes
pub mod Laws
mod Tests
use rust_jack.Base.{
  ℕ, zero, ◌>>=◌, ◌>>◌, ◌+◌, ◌-◌, Bool, true, false, Option, none, some, List, [], ◌∷◌,
  if◌then◌else◌, replicate, ℤ, pos, Result, ok, err, Panics, returns, panics, map_returns, unwrap,
  map,
}
use rust_jack.Enums.{
  Str, Error, client_is_no_longer_alive, port_monitor_error, port_naming_error, port_alias_error,
  LatencyType, latency_to_ffi,
}
use rust_jack.Life.{Lives, Weak, upgrade}
use mathlib.Core.Option
use rust_jack.Strings.{c_string, until_nul, Utf8}

-- `PortFlags`, by its bits.
pub record PortFlags : Type 0 where
  pub bits : ℕ

-- The trait `PortSpec`, by what its three methods return; a method that panics gives `panics`.
pub record PortSpec : Type 0 where
  pub jack_port_type : Str
  pub jack_flags : PortFlags
  pub jack_buffer_size : Panics ℕ

-- `Unowned`
abbrev pub unowned : PortSpec
unowned = record {
  jack_port_type = [];
  jack_flags = record { bits = 0 };
  jack_buffer_size = panics;
}

pub record Port : Type 0 where
  pub spec : PortSpec
  pub client_ptr : ℕ
  pub port_ptr : ℕ
  pub client_life : Weak

-- The port functions of libjack, over the state `W` of the library. A string that is returned is
-- the bytes of the C string; two arrays that are passed for the aliases come back as written; a
-- latency range that is passed by pointer comes back as the library left it.
pub record PortApi (W : Type 0) : Type 0 where
  pub jack_port_name : ℕ → W → List ℕ
  pub jack_port_short_name : ℕ → W → List ℕ
  pub jack_port_flags : ℕ → W → ℕ
  pub jack_port_type : ℕ → W → List ℕ
  pub jack_port_connected : ℕ → W → ℕ
  pub jack_port_connected_to : ℕ → Str → W → ℤ
  pub jack_port_get_aliases : ℕ → List ℕ × List ℕ → W → List ℕ × List ℕ
  pub jack_port_monitoring_input : ℕ → W → ℤ
  pub jack_port_request_monitor : ℕ → ℤ → W → ℤ × W
  pub jack_port_ensure_monitor : ℕ → ℤ → W → ℤ × W
  pub jack_port_set_name : ℕ → Str → W → ℤ × W
  pub jack_port_set_alias : ℕ → Str → W → ℤ × W
  pub jack_port_unset_alias : ℕ → Str → W → ℤ × W
  pub jack_port_get_buffer : ℕ → ℕ → W → ℕ
  pub jack_port_set_latency_range : ℕ → ℕ → ℕ × ℕ → W → W
  pub jack_port_get_latency_range : ℕ → ℕ → ℕ × ℕ → W → ℕ × ℕ
  pub jack_port_name_size : ℕ

-- `match res { 0 => Ok(()), _ => Err(e) }`
abbrev pub status : ℤ → Error → Result (Unit {0}) Error
status (pos zero) e = ok tt
status _ e = err e

-- `match res { 0 => Ok(false), _ => Ok(true) }`
abbrev pub flag : ℤ → Result Bool Error
flag (pos zero) = ok false
flag _ = ok true

-- `if enable_monitor { 1 } else { 0 }`
abbrev pub on_off : Bool → ℤ
on_off enable = if enable then pos 1 else pos 0

unfoldable pub clone_unowned : Port → Port
clone_unowned p = record p { spec = unowned }

-- `from_raw`
unfoldable pub port_from_raw : PortSpec → ℕ → ℕ → Weak → Port
port_from_raw spec client port life = record {
  spec = spec;
  client_ptr = client;
  port_ptr = port;
  client_life = life;
}

unfoldable pub check_client_life : Lives → Port → Result (Unit {0}) Error
check_client_life lives p = elim (upgrade lives p.client_life) [
  | some _ ↦ ok tt
  | none ↦ err client_is_no_longer_alive
]

-- `filter(|s| !s.is_empty())`
abbrev pub nonempty : List Str → List Str
nonempty [] = []
nonempty ([] ∷ ss) = nonempty ss
nonempty ((b ∷ s) ∷ ss) = (b ∷ s) ∷ nonempty ss

module _ {W : Type 0} (api : PortApi W) (utf8 : Utf8) (lives : Lives) (p : Port) where
  open utf8 use {to_string_lossy}

  unfoldable pub name : W → Result Str Error
  unfolding check_client_life
  name w = do check_client_life lives p; ok (to_string_lossy (api.jack_port_name p.port_ptr w))

  unfoldable pub short_name : W → Result Str Error
  unfolding check_client_life
  short_name w = do
    check_client_life lives p
    ok (to_string_lossy (api.jack_port_short_name p.port_ptr w))

  unfoldable pub port_type : W → Result Str Error
  unfolding check_client_life
  port_type w = do check_client_life lives p; ok (to_string_lossy (api.jack_port_type p.port_ptr w))

  unfoldable pub connected_count : W → Result ℕ Error
  unfolding check_client_life
  connected_count w = do check_client_life lives p; ok (api.jack_port_connected p.port_ptr w)

  unfoldable pub aliases : W → Result (List Str) Error
  unfolding check_client_life
  aliases w =
      let empty : List ℕ = replicate (api.jack_port_name_size - 1 + 1) 0 in
      let (a, b) = api.jack_port_get_aliases p.port_ptr (empty, empty) w in
      do
        check_client_life lives p
        ok (nonempty (to_string_lossy (until_nul a) ∷ to_string_lossy (until_nul b) ∷ []))

  unfoldable pub is_monitoring_input : W → Result Bool Error
  unfolding check_client_life
  is_monitoring_input w = do
    check_client_life lives p
    flag (api.jack_port_monitoring_input p.port_ptr w)

  unfoldable pub flags : ((ℕ → Option ℕ)) → W → Panics PortFlags
  flags from_bits w =
      unwrap (Option.map (λ b. record { bits = b }) (from_bits (api.jack_port_flags p.port_ptr w)))

  unfoldable pub is_connected_to : Str → W → Panics (Result Bool Error)
  unfolding check_client_life
  is_connected_to port_name w = elim (check_client_life lives p) [
    | err e ↦ returns (err e)
    | ok _ ↦
        map_returns (λ c. flag (api.jack_port_connected_to p.port_ptr c w)) (c_string port_name)
  ]

  -- A call that takes no string: the check, the call, the status.
  abbrev monitored : (W → ℤ × W) → W → Result (Unit {0}) Error × W
  monitored call w = elim (check_client_life lives p) [
    | err e ↦ (err e, w)
    | ok _ ↦ let (res, w') = call w in (status res port_monitor_error, w')
  ]

  unfoldable pub request_monitor : Bool → W → Result (Unit {0}) Error × W
  unfolding check_client_life
  request_monitor enable = monitored (api.jack_port_request_monitor p.port_ptr (on_off enable))

  unfoldable pub ensure_monitor : Bool → W → Result (Unit {0}) Error × W
  unfolding check_client_life
  ensure_monitor enable = monitored (api.jack_port_ensure_monitor p.port_ptr (on_off enable))

  -- A call that takes a string, which is made a C string after the check.
  abbrev named : (Str → W → ℤ × W) → Error → Str → W → Panics (Result (Unit {0}) Error × W)
  named call e s w = elim (check_client_life lives p) [
    | err gone ↦ returns (err gone, w)
    | ok _ ↦ map_returns (λ c. let (res, w') = call c w in (status res e, w')) (c_string s)
  ]

  unfoldable pub set_name : Str → W → Panics (Result (Unit {0}) Error × W)
  unfolding check_client_life
  set_name = named (api.jack_port_set_name p.port_ptr) port_naming_error

  unfoldable pub set_alias : Str → W → Panics (Result (Unit {0}) Error × W)
  unfolding check_client_life
  set_alias = named (api.jack_port_set_alias p.port_ptr) port_alias_error

  unfoldable pub unset_alias : Str → W → Panics (Result (Unit {0}) Error × W)
  unfolding check_client_life
  unset_alias = named (api.jack_port_unset_alias p.port_ptr) port_alias_error

module _ {W : Type 0} (api : PortApi W) (p : Port) where
  unfoldable pub buffer : ℕ → W → ℕ
  buffer n_frames w = api.jack_port_get_buffer p.port_ptr n_frames w

  unfoldable pub set_latency_range : LatencyType → ℕ × ℕ → W → W
  unfolding latency_to_ffi
  set_latency_range mode range w =
      api.jack_port_set_latency_range p.port_ptr (latency_to_ffi mode) range w

  unfoldable pub get_latency_range : LatencyType → W → ℕ × ℕ
  unfolding latency_to_ffi
  get_latency_range mode w =
      api.jack_port_get_latency_range p.port_ptr (latency_to_ffi mode) (0, 0) w
