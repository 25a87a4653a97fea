-- ===== src/Client/Async.antt =====
-- `AsyncClient` of src/client/async_client.rs: activation, deactivation and drop.
use rust_jack.Base.{
  ℕ, zero, ◌+◌, Option, none, some, ℤ, pos, Result, ok, err, map_ok, Panics, returns, panics,
}
use rust_jack.Enums.{
  Error, client_activation_error, client_deactivation_error, client_is_no_longer_alive,
}
use rust_jack.Client.{Client, ClientApi, drop_client}
use rust_jack.Client.State.{World, Outcome, done, locked, then_do, on_unwind}
use rust_jack.Client.Callbacks.{Callback, CallbackContext, register_callbacks, clear_callbacks}

-- The functions of libjack that an active client needs.
pub record ActivationApi (L : Type 0) : Type 0 where
  pub jack_activate : ℕ → L → ℤ × L
  pub jack_deactivate : ℕ → L → ℤ × L
  pub set_callback : Callback → ℕ → ℕ → L → ℤ × L

-- The box with the context, if it is still owned, by its address and its content.
pub record AsyncClient (N P : Type 0) : Type 0 where
  pub callback : Option (ℕ × CallbackContext N P)

module _ {L N P : Type 0} (api : ClientApi L) (act : ActivationApi L) where
  abbrev pub activated :
      ℕ → CallbackContext N P → ℤ → World L → Outcome L (Result (AsyncClient N P) Error)
  activated box ctx (pos zero) w = done (ok (record { callback = some (box, ctx) })) w
  -- `mem::forget`: the context is never dropped.
  activated box ctx _ w = done (err client_activation_error) w

  unfoldable pub start_client :
      CallbackContext N P → World L → Outcome L (Result (AsyncClient N P) Error)
  unfolding register_callbacks
  start_client ctx w =
      let box = w.next_box in
      let (_, lib) = register_callbacks act.set_callback ctx.client.ptr box w.lib in
      let (res, lib') = act.jack_activate ctx.client.ptr lib in
      activated box ctx res (record w { next_box = box + 1; lib = lib' })

  -- `AsyncClient::new`. The client is an argument: a panic on the lock, the only one that can
  -- happen here, drops it.
  unfoldable pub async_new : Client → N → P → World L → Outcome L (Result (AsyncClient N P) Error)
  unfolding start_client drop_client
  async_new c n p w =
      on_unwind (drop_client api c)
        (locked (start_client (record { client = c; notification = n; process = p })) w)

  -- `as_client`
  unfoldable pub as_client : AsyncClient N P → Panics Client
  as_client a = elim a.callback [ none ↦ panics | some (box, ctx) ↦ returns ctx.client ]

  -- Behind `jack_deactivate`: a context that could not be deactivated stays in its raw box.
  abbrev pub deactivated :
      CallbackContext N P
      → ℤ
      → World L
      → Outcome L (Result (CallbackContext N P) Error × AsyncClient N P)
  deactivated ctx (pos zero) w =
      done (map_ok (λ _. ctx) (clear_callbacks ctx.client.ptr), record { callback = none }) w
  deactivated ctx _ w = done (err client_deactivation_error, record { callback = none }) w

  unfoldable pub take_down :
      Option (ℕ × CallbackContext N P)
      → World L
      → Outcome L (Result (CallbackContext N P) Error × AsyncClient N P)
  unfolding clear_callbacks
  take_down none w = done (err client_is_no_longer_alive, record { callback = none }) w
  take_down (some (box, ctx)) w =
      let (res, lib) = act.jack_deactivate ctx.client.ptr w.lib in
      deactivated ctx res (record w { lib = lib })

  -- The result, and what is left of the `AsyncClient`.
  unfoldable pub maybe_deactivate :
      AsyncClient N P → World L → Outcome L (Result (CallbackContext N P) Error × AsyncClient N P)
  unfolding take_down
  maybe_deactivate a = locked (take_down a.callback)

  -- The context of a successful deactivation is dropped, and its client with it.
  abbrev pub drop_result :
      Result (CallbackContext N P) Error × AsyncClient N P → World L → Outcome L (Unit {0})
  drop_result (ok ctx, _) w = drop_client api ctx.client w
  drop_result (err e, _) w = done tt w

  -- The drop of the field `callback`.
  abbrev pub drop_callback : Option (ℕ × CallbackContext N P) → World L → Outcome L (Unit {0})
  drop_callback none w = done tt w
  drop_callback (some (box, ctx)) w = drop_client api ctx.client w

  -- `Drop for AsyncClient`. If the lock panics, the field still holds the context and is dropped
  -- by the unwinding; otherwise it is empty.
  unfoldable pub drop_async : AsyncClient N P → World L → Outcome L (Unit {0})
  unfolding maybe_deactivate drop_client
  drop_async a w = then_do (on_unwind (drop_callback a.callback) (maybe_deactivate a w)) drop_result

  -- `AsyncClient::deactivate`: what is left of `self` is dropped at the end, or by the unwinding.
  unfoldable pub deactivate : AsyncClient N P → World L → Outcome L (Result (Client × N × P) Error)
  unfolding maybe_deactivate drop_async
  deactivate a w = then_do (on_unwind (drop_async a) (maybe_deactivate a w)) λ r w'.
      then_do (drop_async r.1 w')
        λ _ w''. done (map_ok (λ ctx. (ctx.client, ctx.notification, ctx.process)) r.0) w''
