-- ===== src/Client/Connecting.antt =====
-- Connecting ports: what the library's codes become, and ports whose client is gone.
use rust_jack.Base.{
  ℕ, zero, suc, ◌≡◌, refl, sym, ap, ◌∙◌, ◌≢◌, ◌↔◌, ◌⊎◌, inl, inr, false, arith, Result, ok, err,
  returns,
}
use rust_jack.Enums.{Str, Error, client_is_no_longer_alive}
use rust_jack.Life.{Lives}
use rust_jack.Strings.{has_nul, Utf8}
use rust_jack.Port.{Port, PortApi, PortSpec, port_from_raw, name, check_client_life}
use rust_jack.Client.{Client, ClientApi}
use rust_jack.Client.Ports.{
  connect_ports, connect_ports_by_name, disconnect_ports, register_port, register_with, named_ports,
}
use rust_jack.Client.State.{World, Outcome, done, free, held, release}
use rust_jack.Client.Locking.{locked-free}

module _ {L : Type 0} (api : ClientApi L) where
  -- The name of a port is an error if its client is gone.
  name-dead :
      (ports : PortApi L) (utf8 : Utf8) (p : Port) (w : World L)
      → w.lives p.client_life.cell ≡ 0
      → name ports utf8 w.lives p w.lib ≡ err client_is_no_longer_alive
  unfolding name check_client_life
  name-dead ports utf8 p w h = ground arith

  -- Names of which one is missing, and the other one if it is, for the same reason.
  named_ports-dead :
      (call : Str → Str → World L → Outcome L (Result (Unit {0}) Error)) (r r' : Result Str Error)
      (w : World L)
      → (r ≡ err client_is_no_longer_alive)
        ⊎ ((r' ≡ err client_is_no_longer_alive)
            × ((r ≡ err client_is_no_longer_alive) ⊎ ((s : Str) × (r ≡ ok s))))
      → named_ports api call r r' w ≡ done (err client_is_no_longer_alive) w
  named_ports-dead call r r' w (inl e) = rw e refl
  named_ports-dead call r r' w (inr (e', inl e)) = rw e refl
  named_ports-dead call r r' w (inr (e', inr (s, e))) = rw (e, e') refl

  name-cases :
      (ports : PortApi L) (utf8 : Utf8) (p : Port) (w : World L)
      → let r = name ports utf8 w.lives p w.lib in
        (r ≡ err client_is_no_longer_alive) ⊎ ((s : Str) × (r ≡ ok s))
  unfolding name check_client_life
  name-cases ports utf8 p w = at (w.lives p.client_life.cell) refl
    where
      at :
          (n : ℕ)
          → w.lives p.client_life.cell ≡ n
          → let r = name ports utf8 w.lives p w.lib in
            (r ≡ err client_is_no_longer_alive) ⊎ ((s : Str) × (r ≡ ok s))
      at zero e = inl (name-dead ports utf8 p w e)
      at (suc n) e =
          inr (utf8.to_string_lossy (ports.jack_port_name p.port_ptr w.lib), ground arith)

  names-dead :
      (ports : PortApi L) (utf8 : Utf8) (p q : Port) (w : World L)
      (call : Str → Str → World L → Outcome L (Result (Unit {0}) Error))
      → (w.lives p.client_life.cell ≡ 0) ⊎ (w.lives q.client_life.cell ≡ 0)
      → named_ports api call (name ports utf8 w.lives p w.lib) (name ports utf8 w.lives q w.lib) w
        ≡ done (err client_is_no_longer_alive) w
  names-dead ports utf8 p q w call (inl h) =
      named_ports-dead call _ _ w (inl (name-dead ports utf8 p w h))
  names-dead ports utf8 p q w call (inr h) =
      named_ports-dead call _ _ w (inr (name-dead ports utf8 q w h, name-cases ports utf8 p w))

  -- A port whose client is gone cannot be connected or disconnected: with the lock free, both calls
  -- fail with `ClientIsNoLongerAlive`, whichever of the two ports it is, and leave the lock, the life
  -- cells, the counters and the state of the library as they were.
  pub dead_ports :
      (ports : PortApi L) (utf8 : Utf8) (c : Client) (p q : Port) (w : World L)
      → w.mutex ≡ free
      → (w.lives p.client_life.cell ≡ 0) ⊎ (w.lives q.client_life.cell ≡ 0)
      → (connect_ports api ports utf8 c p q w ≡ done (err client_is_no_longer_alive) w)
        × (disconnect_ports api ports utf8 c p q w ≡ done (err client_is_no_longer_alive) w)
  unfolding connect_ports disconnect_ports
  dead_ports ports utf8 c p q w e dead = (
    locked-free
          (λ v.
            named_ports api (connect_ports_by_name api c) (name ports utf8 v.lives p v.lib)
              (name ports utf8 v.lives q v.lib) v)
          w e
        ∙ ap release (
            names-dead ports utf8 p q (record w { mutex = held }) (connect_ports_by_name api c)
              dead)
        ∙ ap (λ m. done (err client_is_no_longer_alive) (record w { mutex = m })) (sym e),
    names-dead ports utf8 p q w _ dead,
  )

  -- `register_port` with a name and a type without NUL bytes, a buffer size, and a port from the
  -- library returns that port with its specification, and whatever happens to the life cells
  -- afterwards, the port's operations are allowed exactly as long as the cell of the client is held.
  pub register_port_lem :
      (c : Client) (s : Str) (spec : PortSpec) (size : ℕ) (w : World L) (lives : Lives)
      → has_nul s ≡ false
      → has_nul spec.jack_port_type ≡ false
      → spec.jack_buffer_size ≡ returns size
      → let (pp, lib) =
          api.jack_port_register c.ptr s spec.jack_port_type spec.jack_flags.bits size w.lib in
        pp ≢ 0
        → (p : Port) × (register_port api c s spec w ≡ done (ok p) (record w { lib = lib }))
          × (p.port_ptr ≡ pp)
          × (p.spec ≡ spec)
          × ((check_client_life lives p ≡ ok tt) ↔ (lives c.cell ≢ 0))
  unfolding register_port register_with check_client_life
  register_port_lem c s spec size w lives hs ht hb nonnull = (
    port_from_raw spec c.ptr
        (api.jack_port_register c.ptr s spec.jack_port_type spec.jack_flags.bits size w.lib).0
        (record { cell = c.cell }),
    ground arith,
    refl,
    refl,
    (λ h. ground arith, λ h. ground arith),
  )
