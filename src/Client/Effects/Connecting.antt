-- ===== src/Client/Effects/Connecting.antt =====
-- What connecting ports does to the life cells and to the number of clients that are open at the server,
-- however it ends.
use rust_jack.Base.{◌≡◌, refl, Result, ok, err, Panics, returns, panics, and_then, arith}
use rust_jack.Enums.{Str, Error}
use rust_jack.Strings.{c_string, Utf8}
use rust_jack.Port.{Port, PortApi, name}
use rust_jack.Client.{Client, ClientApi}
use rust_jack.Client.Ports.{connect_ports, connect_ports_by_name, named_ports, connect_status}
use rust_jack.Client.State.{free, held, poisoned, World, done, unwound}
use rust_jack.Client.Async.{ActivationApi}
use rust_jack.Client.Effects.{Effect, Counted, Kept, Effect-eq, locked-Effect}

module _ {L : Type 0} (api : ClientApi L) (act : ActivationApi L) (law : Counted api act) where
  -- The body of the call, under the lock.
  named-Effect :
      (c : Client) (r r' : Result Str Error) (w : World L)
      → Effect
          (λ _ u. Kept api act law w (record u { mutex = free }))
          (λ u. Kept api act law w (record u { mutex = poisoned }))
          (named_ports api (connect_ports_by_name api c) r r' (record w { mutex = held }))
  unfolding connect_ports_by_name
  named-Effect c (ok s) (ok d) w = at (and_then (c_string s) (λ _. c_string d)) refl
    where
      at :
          (q : Panics Str)
          → and_then (c_string s) (λ _. c_string d) ≡ q
          → Effect
              (λ _ u. Kept api act law w (record u { mutex = free }))
              (λ u. Kept api act law w (record u { mutex = poisoned }))
              (connect_ports_by_name api c s d (record w { mutex = held }))
      at panics e =
          Effect-eq _ _ (connect_ports_by_name api c s d (record w { mutex = held }))
            (unwound (record w { mutex = held })) (ground (arith, e)) (λ d. refl, refl, refl)
      at (returns t) e =
          Effect-eq _ _ (connect_ports_by_name api c s d (record w { mutex = held }))
            (done (connect_status api s d (api.jack_connect c.ptr s d w.lib).0)
              (record w { mutex = held; lib = (api.jack_connect c.ptr s d w.lib).1 }))
            (ground (arith, e)) (λ d. refl, refl, law.connects c.ptr s d w.lib)
  named-Effect c (ok s) (err e) w = (λ d. refl, refl, refl)
  named-Effect c (err e) r w = (λ d. refl, refl, refl)

  -- Connecting keeps every client, also where it unwinds.
  pub connect_ports-Effect :
      (ports : PortApi L) (utf8 : Utf8) (c : Client) (p q : Port) (w : World L)
      → Effect
          (λ _ v. Kept api act law w v)
          (Kept api act law w)
          (connect_ports api ports utf8 c p q w)
  unfolding connect_ports
  connect_ports-Effect ports utf8 c p q w =
      locked-Effect (λ _ v. Kept api act law w v) (Kept api act law w)
        (λ v.
          named_ports api (connect_ports_by_name api c) (name ports utf8 v.lives p v.lib)
            (name ports utf8 v.lives q v.lib) v)
        w (named-Effect c (name ports utf8 w.lives p w.lib) (name ports utf8 w.lives q w.lib) w)
        (λ d. refl, refl, refl)
