-- ===== src/Client/Serving.antt =====
-- The calls that the server makes of the functions of src/client/callbacks.rs that are registered with it.
use rust_jack.Base.{ℕ, ◌≡◌, refl, Option, List, ℤ, returns, arith}
use rust_jack.Enums.{ClientStatus}
use rust_jack.Strings.{Utf8}
use rust_jack.Client.Callbacks.{
  NotificationHandler, ProcessHandler, CallbackContext, Callback, thread_init, on_info_shutdown,
  process, freewheel_slot, buffer_size, sample_rate, client_registration_slot,
  port_registration_slot, port_connect_slot, graph_order_slot, xrun_slot, latency_slot,
  thread_init_callback, shutdown, process_callback, freewheel, buffer_size_callback,
  sample_rate_callback, client_registration, port_registration, port_connect, graph_order, xrun,
  latency,
}

module _ {N P : Type 0} (nh : NotificationHandler N) (ph : ProcessHandler P) (utf8 : Utf8)
    (status_from_bits : ℕ → Option ClientStatus) where
  -- A call of the function in a slot, for any arguments, that returns: the context that it is given and
  -- the one that it leaves.
  pub data Serves (ctx : CallbackContext N P) : Callback → CallbackContext N P → Type 0 where
    inits : Serves ctx thread_init (thread_init_callback nh ph utf8 status_from_bits ctx)
    shuts_down :
        (code : ℕ) (reason : List ℕ)
        → Serves ctx on_info_shutdown (shutdown nh ph utf8 status_from_bits code reason ctx)
    processes : (n : ℕ) → Serves ctx process (process_callback nh ph utf8 status_from_bits n ctx).1
    freewheels :
        (starting : ℤ)
        → Serves ctx freewheel_slot (freewheel nh ph utf8 status_from_bits starting ctx)
    resizes :
        (n : ℕ) → Serves ctx buffer_size (buffer_size_callback nh ph utf8 status_from_bits n ctx).1
    resamples :
        (n : ℕ) → Serves ctx sample_rate (sample_rate_callback nh ph utf8 status_from_bits n ctx).1
    registers_client :
        (s : List ℕ) (register : ℤ) (ctx' : CallbackContext N P)
        → client_registration nh ph utf8 status_from_bits s register ctx ≡ returns ctx'
        → Serves ctx client_registration_slot ctx'
    registers_port :
        (id : ℕ) (register : ℤ)
        → Serves ctx port_registration_slot
            (port_registration nh ph utf8 status_from_bits id register ctx)
    connects_ports :
        (a b : ℕ) (connect : ℤ)
        → Serves ctx port_connect_slot (port_connect nh ph utf8 status_from_bits a b connect ctx)
    reorders : Serves ctx graph_order_slot (graph_order nh ph utf8 status_from_bits ctx).1
    overruns : Serves ctx xrun_slot (xrun nh ph utf8 status_from_bits ctx).1
    changes_latency :
        (mode : ℕ) (ctx' : CallbackContext N P)
        → latency nh ph utf8 status_from_bits mode ctx ≡ returns ctx'
        → Serves ctx latency_slot ctx'

  -- No such call replaces the client.
  pub Serves-client :
      {ctx ctx' : CallbackContext N P} {slot : Callback}
      → Serves ctx slot ctx'
      → ctx'.client ≡ ctx.client
  unfolding thread_init_callback shutdown process_callback freewheel buffer_size_callback
      sample_rate_callback client_registration port_registration port_connect graph_order xrun
      latency
  Serves-client inits = refl
  Serves-client (shuts_down code reason) = refl
  Serves-client (processes n) = refl
  Serves-client (freewheels starting) = refl
  Serves-client (resizes n) = refl
  Serves-client (resamples n) = refl
  Serves-client (registers_client s register ctx' e) = ground (arith, e)
  Serves-client (registers_port id register) = refl
  Serves-client (connects_ports a b connect) = refl
  Serves-client reorders = refl
  Serves-client overruns = refl
  Serves-client (changes_latency mode ctx' e) = ground (arith, e)
