-- ===== src/Transport/Control.antt =====
-- `Transport` of src/transport.rs: the calls that start, stop, move and query the transport of a
-- client. The JACK library is a parameter; a call of it takes its state and returns the new one.
use rust_jack.Base.{ℕ, ◌==◌, if◌then◌else◌, zero, ℤ, pos, Option, none, some, Result, ok, err}
pub mod Laws
use rust_jack.Enums.{Error, client_is_no_longer_alive, unknown_error}
use rust_jack.Life.{Lives, Weak, upgrade}
use rust_jack.Transport.Position.{JackPosition}

-- The transport functions of libjack, over the state `W` of the library. A position that is passed
-- by pointer comes back as the library left it, and `none` is the null pointer.
pub record TransportApi (F32 F64 W : Type 0) : Type 0 where
  pub jack_transport_start : ℕ → W → W
  pub jack_transport_stop : ℕ → W → W
  pub jack_transport_reposition : ℕ → JackPosition F32 F64 → W → ℤ × W
  pub jack_transport_locate : ℕ → ℕ → W → ℤ × W
  pub jack_transport_query :
      ℕ → Option (JackPosition F32 F64) → W → ℕ × Option (JackPosition F32 F64) × W

pub record Transport : Type 0 where
  pub client_ptr : ℕ
  pub client_life : Weak

pub data TransportState : Type 0 where
  stopped rolling starting : TransportState

pub record TransportStatePosition (F32 F64 : Type 0) : Type 0 where
  pub position : JackPosition F32 F64
  pub state : TransportState

-- `JackTransportStopped` and `JackTransportStarting`
abbrev pub transport_stopped : ℕ
transport_stopped = 0

abbrev pub transport_starting : ℕ
transport_starting = 3

unfoldable pub state_from_ffi : ℕ → TransportState
state_from_ffi s =
    if s == transport_stopped
    then stopped
    else if s == transport_starting
    then starting
    else rolling

unfoldable pub result_from_ffi {ℓ} : {R : Type ℓ} → Result ℤ Error → R → Result R Error
result_from_ffi (ok (pos zero)) r = ok r
result_from_ffi (ok _) r = err unknown_error
result_from_ffi (err e) r = err e

module _ {F32 F64 W : Type 0} (api : TransportApi F32 F64 W) (zeroed : JackPosition F32 F64) where
  open api use {
    jack_transport_start, jack_transport_stop, jack_transport_reposition, jack_transport_locate,
    jack_transport_query,
  }

  module _ (lives : Lives) (t : Transport) where
    -- Runs `func` on the client's pointer if the client is alive.
    unfoldable pub with_client : {R : Type 0} → (ℕ → W → R × W) → W → Result R Error × W
    with_client func w = elim (upgrade lives t.client_life) [
      | some _ ↦ let (r, w') = func t.client_ptr w in (ok r, w')
      | none ↦ (err client_is_no_longer_alive, w)
    ]

    unfoldable pub start : W → Result (Unit {0}) Error × W
    unfolding with_client
    start = with_client (λ ptr w. (tt, jack_transport_start ptr w))

    unfoldable pub stop : W → Result (Unit {0}) Error × W
    unfolding with_client
    stop = with_client (λ ptr w. (tt, jack_transport_stop ptr w))

    unfoldable pub reposition : JackPosition F32 F64 → W → Result (Unit {0}) Error × W
    unfolding with_client result_from_ffi
    reposition p w =
        let (r, w') = with_client (λ ptr w. jack_transport_reposition ptr p w) w in
        (result_from_ffi r tt, w')

    unfoldable pub locate : ℕ → W → Result (Unit {0}) Error × W
    unfolding with_client result_from_ffi
    locate frame w =
        let (r, w') = with_client (λ ptr w. jack_transport_locate ptr frame w) w in
        (result_from_ffi r tt, w')

    -- What `assume_init` takes for the position after the call: the bytes that were passed if the
    -- library did not write.
    abbrev filled : Option (JackPosition F32 F64) → JackPosition F32 F64
    filled (some p) = p
    filled none = zeroed

    unfoldable pub query : W → Result (TransportStatePosition F32 F64) Error × W
    unfolding with_client state_from_ffi
    query = with_client λ ptr w.
        let (s, p, w') = jack_transport_query ptr (some zeroed) w in
        (record { position = filled p; state = state_from_ffi s }, w')

    unfoldable pub query_state : W → Result TransportState Error × W
    unfolding with_client state_from_ffi
    query_state =
        with_client
          λ ptr w. let (s, p, w') = jack_transport_query ptr none w in (state_from_ffi s, w')
