-- ===== src/Examples/PlaybackCapture/Laws.antt =====
-- What examples/playback_capture.rs does to the samples of a cycle, and what it prints.
use rust_jack.Base.{
  ℕ, ◌<◌, ◌≡◌, refl, ◌∙◌, ◌≢◌, Bool, true, false, ◌==◌, if◌then◌else◌, subst, Option, none, some,
  unwrap, map_returns, List, ◌∷◌, ℤ, Panics, returns, panics, arith,
}
use rust_jack.Enums.{
  Str, ClientStatus, capture, playback, capture_latency, playback_latency, continue,
}
use rust_jack.Strings.{Utf8}
use rust_jack.Scope.{ProcessScope}
use rust_jack.Port.{Port, PortApi, buffer}
use rust_jack.Port.Specs.{as_slice, as_mut_slice}
use rust_jack.Client.Callbacks.{
  ProcessHandler, CallbackContext, Callback, process, buffer_size, thread_init_callback, shutdown,
  process_callback, freewheel, buffer_size_callback, sample_rate_callback, client_registration,
  port_registration, port_connect, graph_order, xrun, latency, notified, is_set,
}
use rust_jack.Client.Serving.{
  Serves, inits, shuts_down, processes, freewheels, resizes, resamples, registers_client,
  registers_port, connects_ports, reorders, overruns, changes_latency,
}
use rust_jack.Examples.PlaybackCapture.{pass_on, Line, notifications}

-- What `clone_from_slice` does to the memory: the samples of the source are at the destination, and a
-- buffer at another address is as before.
pub record Cloning {F32 W : Type 0} (sample : W → ℕ → ℕ → F32) (clone : ℕ → ℕ → ℕ → W → W)
    : Type 0 where
  pub cloned : (d s n : ℕ) (w : W) (i : ℕ) → i < n → sample (clone d s n w) d i ≡ sample w s i
  pub others : (d s n : ℕ) (w : W) (e i : ℕ) → e ≢ d → sample (clone d s n w) e i ≡ sample w e i

module _ {F32 W : Type 0} (port_api : PortApi W) (sample : W → ℕ → ℕ → F32)
    (clone : ℕ → ℕ → ℕ → W → W) (law : Cloning sample clone) where
  -- A cycle of the process callback, whose four ports belong to the client of the cycle and have
  -- buffers at different addresses, returns `Continue`, and each of the `n_frames` samples of both
  -- outputs is then the one of the input on its side.
  pub pass_on_lem :
      (in_a in_b out_a out_b : Port) (ps : ProcessScope) (w : W)
      → in_a.client_ptr ≡ ps.client_ptr
      → in_b.client_ptr ≡ ps.client_ptr
      → out_a.client_ptr ≡ ps.client_ptr
      → out_b.client_ptr ≡ ps.client_ptr
      → let at = λ (p : Port). buffer port_api p ps.n_frames w in
        at in_b ≢ at out_a
        → at out_a ≢ at out_b
        → (v : W) × (pass_on port_api clone in_a in_b out_a out_b ps w ≡ returns (continue, v))
          × ((i : ℕ)
              → i < ps.n_frames
              → (sample v (at out_a) i ≡ sample w (at in_a) i)
                × (sample v (at out_b) i ≡ sample w (at in_b) i))
  unfolding pass_on as_slice as_mut_slice
  pass_on_lem in_a in_b out_a out_b ps w a b c d apart outs = (
    clone (buffer port_api out_b ps.n_frames w) (buffer port_api in_b ps.n_frames w) ps.n_frames (
        clone (buffer port_api out_a ps.n_frames w) (buffer port_api in_a ps.n_frames w) ps.n_frames
          w),
    ground arith,
    λ i lt. (
      law.others _ _ _ _ _ i outs ∙ law.cloned _ _ _ w i lt,
      law.cloned _ _ _ _ i lt ∙ law.others _ _ _ w _ i apart,
    ),
  )

module _ {P : Type 0} (ph : ProcessHandler P) (utf8 : Utf8)
    (status_from_bits : ℕ → Option ClientStatus) where
  -- A call that may panic adds one line if it returns.
  abbrev OneMore : CallbackContext (List Line) P → Panics (CallbackContext (List Line) P) → Type 0
  OneMore ctx (returns ctx') = (line : Line) × (ctx'.notification ≡ line ∷ ctx.notification)
  OneMore ctx panics = Unit {0}

  registered_prints :
      (name : Option Str) (register : ℤ) (ctx : CallbackContext (List Line) P)
      → OneMore ctx (
          map_returns
            (λ s. notified notifications ph utf8 status_from_bits ctx (
              notifications.on_client_registration ctx.client s (is_set register) ctx.notification))
            (unwrap name))
  registered_prints none register ctx = tt
  registered_prints (some s) register ctx = (_, refl)

  latency_prints :
      (is_capture is_playback : Bool) (ctx : CallbackContext (List Line) P)
      → OneMore ctx (
          if is_capture
          then returns (
              notified notifications ph utf8 status_from_bits ctx
                (notifications.on_latency ctx.client capture ctx.notification))
          else if is_playback
          then returns (
              notified notifications ph utf8 status_from_bits ctx
                (notifications.on_latency ctx.client playback ctx.notification))
          else panics)
  latency_prints true is_playback ctx = (_, refl)
  latency_prints false true ctx = (_, refl)
  latency_prints false false ctx = tt

  -- One line more, but for the two slots of the process handler.
  abbrev pub Printed : Callback → List Line → List Line → Type 0
  Printed process before after = after ≡ before
  Printed buffer_size before after = after ≡ before
  Printed _ before after = (line : Line) × (after ≡ line ∷ before)

  -- Each call that the server makes of a registered function and that returns adds one line to what
  -- the notification handler has printed, and no call of a function of the process handler adds any.
  pub Serves-Printed :
      {ctx ctx' : CallbackContext (List Line) P} {slot : Callback}
      → Serves notifications ph utf8 status_from_bits ctx slot ctx'
      → Printed slot ctx.notification ctx'.notification
  unfolding thread_init_callback shutdown process_callback freewheel buffer_size_callback
      sample_rate_callback client_registration port_registration port_connect graph_order xrun
      latency
  Serves-Printed inits = (_, refl)
  Serves-Printed (shuts_down code reason) = (_, refl)
  Serves-Printed (processes n) = refl
  Serves-Printed (freewheels starting) = (_, refl)
  Serves-Printed (resizes n) = refl
  Serves-Printed (resamples n) = (_, refl)
  Serves-Printed {ctx = ctx} (registers_client s register ctx' e) =
      subst (OneMore ctx) e (registered_prints (utf8.to_str s) register ctx)
  Serves-Printed (registers_port id register) = (_, refl)
  Serves-Printed (connects_ports a b connect) = (_, refl)
  Serves-Printed reorders = (_, refl)
  Serves-Printed overruns = (_, refl)
  Serves-Printed {ctx = ctx} (changes_latency mode ctx' e) =
      subst (OneMore ctx) e
        (latency_prints (mode == capture_latency) (mode == playback_latency) ctx)
