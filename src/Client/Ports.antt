-- ===== src/Client/Ports.antt =====
-- The calls of `Client` of src/client/client_impl.rs that register, find and connect ports.
use rust_jack.Base.{
  ℕ, zero, suc, Bool, false, Option, none, some, ◌==◌, if◌then◌else◌, ℤ, pos, negsuc, Result, ok,
  err, Panics, returns, panics, map_returns, and_then,
}
use rust_jack.Enums.{
  Str, Error, port_already_connected, port_connection_error, port_disconnection_error,
  port_registration_error,
}
use rust_jack.Strings.{c_string, Utf8}
use rust_jack.Port.{PortSpec, Port, PortApi, unowned, port_from_raw, status, name}
use rust_jack.Client.State.{World, Outcome, done, unwound, locked}
use rust_jack.Client.{Client, ClientApi}

-- `EEXIST`
abbrev pub already_exists : ℕ
already_exists = 17

module _ {L : Type 0} (api : ClientApi L) where
  -- `register_port`, with the size of the port's specification.
  unfoldable pub register_with :
      Client → Str → PortSpec → ℕ → World L → Outcome L (Result Port Error)
  unfolding port_from_raw
  register_with c port_name spec size w =
      let (pp, lib) =
        api.jack_port_register c.ptr port_name spec.jack_port_type spec.jack_flags.bits size
          w.lib in
      done
        (if pp == 0
          then err (port_registration_error port_name)
          else ok (port_from_raw spec c.ptr pp (record { cell = c.cell })))
        (record w { lib = lib })

  unfoldable pub register_port : Client → Str → PortSpec → World L → Outcome L (Result Port Error)
  unfolding register_with
  register_port c port_name spec w =
      elim (and_then (c_string port_name)
        (λ n. and_then (c_string spec.jack_port_type) (λ _. spec.jack_buffer_size))) [
          | returns size ↦ register_with c port_name spec size w
          | panics ↦ unwound w
        ]

  -- `None` for the null pointer.
  abbrev port_of : Client → ℕ → Option Port
  port_of c pp =
      if pp == 0 then none else some (port_from_raw unowned c.ptr pp (record { cell = c.cell }))

  unfoldable pub port_by_id : Client → ℕ → World L → Option Port
  unfolding port_from_raw
  port_by_id c id w = port_of c (api.jack_port_by_id c.ptr id w.lib)

  unfoldable pub port_by_name : Client → Str → World L → Panics (Option Port)
  unfolding port_from_raw
  port_by_name c port_name w =
      map_returns (λ s. port_of c (api.jack_port_by_name c.ptr s w.lib)) (c_string port_name)

  -- `matches!(jack_port_is_mine(..), 1)`
  unfoldable pub is_mine : Client → Port → World L → Bool
  is_mine c p w = elim (api.jack_port_is_mine c.ptr p.port_ptr w.lib) [
    | pos n ↦ n == 1
    | negsuc n ↦ false
  ]

  -- The code of `jack_connect`, with the two names as they were given.
  abbrev pub connect_status : Str → Str → ℤ → Result (Unit {0}) Error
  connect_status s d (pos zero) = ok tt
  connect_status s d (pos (suc n)) =
      if suc n == already_exists
      then err (port_already_connected s d)
      else err (port_connection_error s d)
  connect_status s d (negsuc n) = err (port_connection_error s d)

  -- A call of the library with two C strings; the first that holds a NUL panics.
  abbrev pub with_names :
      (Str → Str → L → ℤ × L)
      → (ℤ → Result (Unit {0}) Error)
      → Str
      → Str
      → World L
      → Outcome L (Result (Unit {0}) Error)
  with_names call decode s d w = elim (and_then (c_string s) (λ _. c_string d)) [
    | panics ↦ unwound w
    | returns _ ↦ let (res, lib) = call s d w.lib in done (decode res) (record w { lib = lib })
  ]

  unfoldable pub connect_ports_by_name :
      Client → Str → Str → World L → Outcome L (Result (Unit {0}) Error)
  connect_ports_by_name c s d = with_names (api.jack_connect c.ptr) (connect_status s d) s d

  unfoldable pub disconnect_ports_by_name :
      Client → Str → Str → World L → Outcome L (Result (Unit {0}) Error)
  disconnect_ports_by_name c =
      with_names (api.jack_disconnect c.ptr) (λ res. status res port_disconnection_error)

  -- The two names of a call that takes ports, which fail for a dead client.
  abbrev pub named_ports :
      (Str → Str → World L → Outcome L (Result (Unit {0}) Error))
      → Result Str Error
      → Result Str Error
      → World L
      → Outcome L (Result (Unit {0}) Error)
  named_ports call (ok s) (ok d) w = call s d w
  named_ports call (ok s) (err e) w = done (err e) w
  named_ports call (err e) r w = done (err e) w

  module _ (ports : PortApi L) (utf8 : Utf8) where
    unfoldable pub connect_ports :
        Client → Port → Port → World L → Outcome L (Result (Unit {0}) Error)
    unfolding connect_ports_by_name
    connect_ports c p q = locked λ w.
        named_ports (connect_ports_by_name c) (name ports utf8 w.lives p w.lib)
          (name ports utf8 w.lives q w.lib) w

    unfoldable pub disconnect_ports :
        Client → Port → Port → World L → Outcome L (Result (Unit {0}) Error)
    unfolding disconnect_ports_by_name
    disconnect_ports c p q w =
        named_ports (disconnect_ports_by_name c) (name ports utf8 w.lives p w.lib)
          (name ports utf8 w.lives q w.lib) w

  -- The calls that map a code of the library to one error.
  unfoldable pub disconnect : Client → Port → World L → Result (Unit {0}) Error × World L
  disconnect c p w =
      let (res, lib) = api.jack_port_disconnect c.ptr p.port_ptr w.lib in
      (status res port_disconnection_error, record w { lib = lib })

  unfoldable pub unregister_port : Client → Port → World L → Result (Unit {0}) Error × World L
  unregister_port c p w =
      let (res, lib) = api.jack_port_unregister c.ptr p.port_ptr w.lib in
      (status res port_disconnection_error, record w { lib = lib })
