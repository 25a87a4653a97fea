-- ===== src/Client/Dispatch.antt =====
-- The functions that the JACK server calls: what they return, and what they leave of the context.
use rust_jack.Base.{ℕ, ◌≡◌, refl, ◌≢◌, ◌↔◌, Option, List, arith, ℤ, Panics, returns, panics}
use rust_jack.Enums.{ClientStatus, LatencyType, capture, playback, latency_to_ffi}
use rust_jack.Strings.{Utf8}
use rust_jack.Client.Callbacks.{
  NotificationHandler, ProcessHandler, CallbackContext, thread_init_callback, shutdown, freewheel,
  sample_rate_callback, client_registration, port_registration, port_rename, port_connect,
  graph_order, xrun, latency,
}

-- A property of the context that a call leaves if it returns.
abbrev pub Leaves : {A : Type 0} → (A → Type 0) → Panics A → Type 0
Leaves P (returns a) = P a
Leaves P panics = Unit {0}

-- A call changes at most the notification handler of a context.
abbrev pub Keeps : {N P : Type 0} → CallbackContext N P → CallbackContext N P → Type 0
Keeps ctx left = (left.client ≡ ctx.client) × (left.process ≡ ctx.process)

module _ {N P : Type 0} (nh : NotificationHandler N) (ph : ProcessHandler P) (utf8 : Utf8)
    (status_from_bits : ℕ → Option ClientStatus) (ctx : CallbackContext N P) where
  -- The latency callback reads back each mode that `LatencyType::to_ffi` writes and tells the handler
  -- of it; it panics exactly on the numbers that no mode is written as.
  pub latency-latency_to_ffi :
      (m : LatencyType) (n : ℕ)
      → (latency nh ph utf8 status_from_bits (latency_to_ffi m) ctx
          ≡ returns (record ctx { notification = nh.on_latency ctx.client m ctx.notification }))
        × ((latency nh ph utf8 status_from_bits n ctx ≡ panics)
            ↔ ((n ≢ latency_to_ffi capture) × (n ≢ latency_to_ffi playback)))
  unfolding latency latency_to_ffi
  latency-latency_to_ffi capture n =
      (refl, (λ h. (λ e. ground arith, λ e. ground arith), λ h. ground arith))
  latency-latency_to_ffi playback n =
      (refl, (λ h. (λ e. ground arith, λ e. ground arith), λ h. ground arith))

  -- Whatever the handlers do, none of the eleven notification callbacks changes the client or the
  -- process handler of the context that it leaves.
  pub notifications_keep :
      (code id id' mode : ℕ) (flag : ℤ) (bytes bytes' : List ℕ)
      → Keeps ctx (thread_init_callback nh ph utf8 status_from_bits ctx)
        × Keeps ctx (shutdown nh ph utf8 status_from_bits code bytes ctx)
        × Keeps ctx (freewheel nh ph utf8 status_from_bits flag ctx)
        × Keeps ctx (sample_rate_callback nh ph utf8 status_from_bits id ctx).1
        × Leaves (Keeps ctx) (client_registration nh ph utf8 status_from_bits bytes flag ctx)
        × Keeps ctx (port_registration nh ph utf8 status_from_bits id flag ctx)
        × Leaves (λ r. Keeps ctx r.1) (port_rename nh ph utf8 status_from_bits id bytes bytes' ctx)
        × Keeps ctx (port_connect nh ph utf8 status_from_bits id id' flag ctx)
        × Keeps ctx (graph_order nh ph utf8 status_from_bits ctx).1
        × Keeps ctx (xrun nh ph utf8 status_from_bits ctx).1
        × Leaves (Keeps ctx) (latency nh ph utf8 status_from_bits mode ctx)
  unfolding thread_init_callback shutdown freewheel sample_rate_callback client_registration
      port_registration port_rename port_connect graph_order xrun latency
  notifications_keep code id id' mode flag bytes bytes' = (
    (refl, refl),
    (refl, refl),
    (refl, refl),
    (refl, refl),
    ground arith,
    (refl, refl),
    ground arith,
    (refl, refl),
    (refl, refl),
    (refl, refl),
    ground arith,
  )
