-- ===== src/Client/Callbacks.antt =====
-- src/client/callbacks.rs: the handlers, the functions that the JACK server calls, and their
-- registration. src/client/handler_impls.rs: the trivial handlers and the closure handler.
use rust_jack.Base.{
  ℕ, Bool, not, Option, none, some, List, [], ◌∷◌, ◌==◌, if◌then◌else◌, ℤ, is_zero, Result, ok,
  Panics, returns, panics, map_returns, and_then, unwrap,
}
use rust_jack.Enums.{
  Str, ClientStatus, Error, LatencyType, capture, playback, capture_latency, playback_latency,
  Control, continue, control_to_ffi,
}
use rust_jack.Strings.{codes, Utf8}
use rust_jack.Scope.{ProcessScope, scope_from_raw}
use rust_jack.Client.{Client, status_or_empty}

-- The trait `NotificationHandler` over a handler state `N`: what each method does to the state, and
-- what it returns.
pub record NotificationHandler (N : Type 0) : Type 0 where
  pub on_thread_init : Client → N → N
  pub on_shutdown : ClientStatus → Str → N → N
  pub on_freewheel : Client → Bool → N → N
  pub on_sample_rate : Client → ℕ → N → Control × N
  pub on_client_registration : Client → Str → Bool → N → N
  pub on_port_registration : Client → ℕ → Bool → N → N
  pub on_port_rename : Client → ℕ → Str → Str → N → Control × N
  pub on_ports_connected : Client → ℕ → ℕ → Bool → N → N
  pub on_graph_reorder : Client → N → Control × N
  pub on_xrun : Client → N → Control × N
  pub on_latency : Client → LatencyType → N → N

-- The trait `ProcessHandler` over a handler state `P`.
pub record ProcessHandler (P : Type 0) : Type 0 where
  pub on_process : Client → ProcessScope → P → Control × P
  pub on_buffer_size : Client → ℕ → P → Control × P

-- The methods that the trait gives, which are those of the handler `()`.
abbrev pub trivial_notification : {N : Type 0} → NotificationHandler N
trivial_notification = record {
  on_thread_init = λ c n. n;
  on_shutdown = λ s r n. n;
  on_freewheel = λ c b n. n;
  on_sample_rate = λ c r n. (continue, n);
  on_client_registration = λ c s b n. n;
  on_port_registration = λ c i b n. n;
  on_port_rename = λ c i a b n. (continue, n);
  on_ports_connected = λ c i j b n. n;
  on_graph_reorder = λ c n. (continue, n);
  on_xrun = λ c n. (continue, n);
  on_latency = λ c m n. n;
}

-- `ClosureProcessHandler`, with the default `buffer_size`.
abbrev pub closure_process :
    {P : Type 0} → (Client → ProcessScope → P → Control × P) → ProcessHandler P
closure_process f = record { on_process = f; on_buffer_size = λ c n p. (continue, p) }

-- `ProcessHandler for ()`
abbrev pub trivial_process : {P : Type 0} → ProcessHandler P
trivial_process = closure_process (λ c ps p. (continue, p))

pub record CallbackContext (N P : Type 0) : Type 0 where
  pub client : Client
  pub notification : N
  pub process : P

-- `!matches!(code, 0)`
abbrev pub is_set : ℤ → Bool
is_set code = not (is_zero code)

-- `to_str().unwrap_or("Failed to interpret error.")`
abbrev pub reason_or_failed : Option Str → Str
reason_or_failed none = codes "Failed to interpret error."
reason_or_failed (some s) = s

module _ {N P : Type 0} (nh : NotificationHandler N) (ph : ProcessHandler P) (utf8 : Utf8)
    (status_from_bits : ℕ → Option ClientStatus) where
  -- The context that `data` points to, with the handler state that a method left.
  abbrev pub notified : CallbackContext N P → N → CallbackContext N P
  notified ctx n = record ctx { notification = n }

  abbrev pub coded : CallbackContext N P → Control × N → ℤ × CallbackContext N P
  coded ctx r = (control_to_ffi r.0, record ctx { notification = r.1 })

  unfoldable pub thread_init_callback : CallbackContext N P → CallbackContext N P
  thread_init_callback ctx = notified ctx (nh.on_thread_init ctx.client ctx.notification)

  unfoldable pub shutdown : ℕ → List ℕ → CallbackContext N P → CallbackContext N P
  shutdown code reason ctx = notified ctx (
      nh.on_shutdown (status_or_empty (status_from_bits code))
        (reason_or_failed (utf8.to_str reason)) ctx.notification)

  unfoldable pub process_callback : ℕ → CallbackContext N P → ℤ × CallbackContext N P
  unfolding scope_from_raw control_to_ffi
  process_callback n_frames ctx =
      let (c, p) = ph.on_process ctx.client (scope_from_raw n_frames ctx.client.ptr) ctx.process in
      (control_to_ffi c, record ctx { process = p })

  unfoldable pub freewheel : ℤ → CallbackContext N P → CallbackContext N P
  freewheel starting ctx =
      notified ctx (nh.on_freewheel ctx.client (is_set starting) ctx.notification)

  unfoldable pub buffer_size_callback : ℕ → CallbackContext N P → ℤ × CallbackContext N P
  unfolding control_to_ffi
  buffer_size_callback n_frames ctx =
      let (c, p) = ph.on_buffer_size ctx.client n_frames ctx.process in
      (control_to_ffi c, record ctx { process = p })

  unfoldable pub sample_rate_callback : ℕ → CallbackContext N P → ℤ × CallbackContext N P
  unfolding control_to_ffi
  sample_rate_callback n_frames ctx =
      coded ctx (nh.on_sample_rate ctx.client n_frames ctx.notification)

  unfoldable pub client_registration :
      List ℕ → ℤ → CallbackContext N P → Panics (CallbackContext N P)
  client_registration name register ctx =
      map_returns
        (λ s.
          notified ctx (nh.on_client_registration ctx.client s (is_set register) ctx.notification))
        (unwrap (utf8.to_str name))

  unfoldable pub port_registration : ℕ → ℤ → CallbackContext N P → CallbackContext N P
  port_registration id register ctx =
      notified ctx (nh.on_port_registration ctx.client id (is_set register) ctx.notification)

  unfoldable pub port_rename :
      ℕ → List ℕ → List ℕ → CallbackContext N P → Panics (ℤ × CallbackContext N P)
  unfolding control_to_ffi
  port_rename id old_name new_name ctx = and_then (unwrap (utf8.to_str old_name)) λ a.
      map_returns (λ b. coded ctx (nh.on_port_rename ctx.client id a b ctx.notification))
        (unwrap (utf8.to_str new_name))

  unfoldable pub port_connect : ℕ → ℕ → ℤ → CallbackContext N P → CallbackContext N P
  port_connect a b connect ctx =
      notified ctx (nh.on_ports_connected ctx.client a b (is_set connect) ctx.notification)

  unfoldable pub graph_order : CallbackContext N P → ℤ × CallbackContext N P
  unfolding control_to_ffi
  graph_order ctx = coded ctx (nh.on_graph_reorder ctx.client ctx.notification)

  unfoldable pub xrun : CallbackContext N P → ℤ × CallbackContext N P
  unfolding control_to_ffi
  xrun ctx = coded ctx (nh.on_xrun ctx.client ctx.notification)

  -- `unreachable!()` for a mode that is neither.
  unfoldable pub latency : ℕ → CallbackContext N P → Panics (CallbackContext N P)
  latency mode ctx =
      if mode == capture_latency
      then returns (notified ctx (nh.on_latency ctx.client capture ctx.notification))
      else if mode == playback_latency
      then returns (notified ctx (nh.on_latency ctx.client playback ctx.notification))
      else panics

-- The twelve functions of libjack that set a callback, in the order of `register_callbacks`.
pub data Callback : Type 0 where
  thread_init on_info_shutdown process freewheel_slot buffer_size sample_rate : Callback
  client_registration_slot port_registration_slot port_connect_slot graph_order_slot : Callback
  xrun_slot latency_slot : Callback

abbrev pub registered : List Callback
registered =
    thread_init ∷ on_info_shutdown ∷ process ∷ freewheel_slot ∷ buffer_size ∷ sample_rate
    ∷ client_registration_slot ∷ port_registration_slot ∷ port_connect_slot ∷ graph_order_slot
    ∷ xrun_slot ∷ latency_slot ∷ []

module _ {L : Type 0} (set_callback : Callback → ℕ → ℕ → L → ℤ × L) where
  unfoldable pub set_all : List Callback → ℕ → ℕ → L → L
  set_all [] client data_ptr lib = lib
  set_all (c ∷ cs) client data_ptr lib =
      set_all cs client data_ptr (set_callback c client data_ptr lib).1

  -- The codes of the twelve calls are not looked at.
  unfoldable pub register_callbacks : ℕ → ℕ → L → Result (Unit {0}) Error × L
  unfolding set_all
  register_callbacks client data_ptr lib = (ok tt, set_all registered client data_ptr lib)

-- `clear_callbacks`, which does nothing yet.
unfoldable pub clear_callbacks : ℕ → Result (Unit {0}) Error
clear_callbacks client = ok tt
