-- ===== src/Client/Lifecycle.antt =====
-- The life of a client: opened, activated, deactivated and closed, and what failures leave behind.
use rust_jack.Base.{
  ℕ, ◌+◌, ◌-◌, ◌≡◌, refl, ◌∙◌, ◌≢◌, false, some, arith, ◌==◌, if◌then◌else◌, pos, ok, err,
}
use rust_jack.Enums.{Str, client_activation_error, client_deactivation_error, ClientStatus}
use rust_jack.Strings.{has_nul}
use rust_jack.Client.{
  Client, ClientApi, new, drop_client, opened, open_with, close, close_checked, status_or_empty,
}
use rust_jack.Client.State.{free, held, World, done, release, release_life}
use rust_jack.Client.Callbacks.{CallbackContext, register_callbacks, clear_callbacks}
use rust_jack.Client.Async.{
  ActivationApi, AsyncClient, async_new, deactivate, drop_async, maybe_deactivate, take_down,
  start_client,
}

module _ {L : Type 0} (api : ClientApi L) where
  -- `Client::new` with the lock free, a name without NUL bytes and a client from the library.
  new-done :
      (s : Str) (options : ℕ) (w : World L)
      → has_nul s ≡ false
      → w.mutex ≡ free
      → (api.jack_client_open s options w.lib).0 ≢ 0
      → new api s options w
        ≡ release (
            opened api
              (api.jack_client_open s options w.lib).0
              (status_or_empty (api.status_from_bits (api.jack_client_open s options w.lib).1))
              (record w { mutex = held; lib = (api.jack_client_open s options w.lib).2 }))
  unfolding new open_with
  new-done s options w h e nonnull = rw (e, h) refl

  drop_client-done :
      (c : Client) (w : World L)
      → w.mutex ≡ free
      → (api.jack_client_close c.ptr w.lib).0 ≡ pos 0
      → drop_client api c w
        ≡ done tt (
            release_life c.cell
              (record w { mutex = free; lib = (api.jack_client_close c.ptr w.lib).1 }))
  unfolding drop_client close close_checked
  drop_client-done c w e r = rw (e, r) refl

  -- A client that is opened and dropped, with the lock free, a name without NUL bytes, a client from
  -- the library and a close that the library accepts: between the two calls its life cell, which is
  -- new, has one holder, and afterwards none, no other cell has changed, the lock is free, and the
  -- library was called for the opening and then for the closing of this client.
  pub drop_client-new :
      (s : Str) (options : ℕ) (w : World L)
      → has_nul s ≡ false
      → w.mutex ≡ free
      → (api.jack_client_open s options w.lib).0 ≢ 0
      → let (ptr, bits, lib) = api.jack_client_open s options w.lib in
        (api.jack_client_close ptr lib).0 ≡ pos 0
        → (c : Client) × (status : ClientStatus) × (v v' : World L) × (new api s options w
            ≡ done (ok (c, status)) v)
          × (drop_client api c v ≡ done tt v')
          × (c.cell ≡ w.next_cell)
          × (v.lives c.cell ≡ 1)
          × (v'.lives c.cell ≡ 0)
          × ((d : ℕ) → d ≢ c.cell → v'.lives d ≡ w.lives d)
          × (v'.mutex ≡ free)
          × (v'.lib ≡ (api.jack_client_close ptr lib).1)
  unfolding opened
  drop_client-new s options w h e nonnull closes = (
    record {
      ptr = (api.jack_client_open s options w.lib).0;
      cell = w.next_cell;
      has_handler = false;
    },
    status_or_empty (api.status_from_bits (api.jack_client_open s options w.lib).1),
    v,
    release_life w.next_cell (record v {
      lib = (api.jack_client_close (api.jack_client_open s options w.lib).0 v.lib).1;
    }),
    new-done s options w h e nonnull ∙ ground arith,
    drop_client-done _ v refl closes,
    refl,
    ground arith,
    ground arith,
    λ d ne. ground arith,
    refl,
    refl,
  )
    where
      v : World L
      v = record w {
        mutex = free;
        lib = (api.jack_client_open s options w.lib).2;
        next_cell = w.next_cell + 1;
        lives = λ c. if c == w.next_cell then 1 else w.lives c;
      }

module _ {L N P : Type 0} (api : ClientApi L) (act : ActivationApi L) where
  -- A refused activation leaks the client. With the lock free, callbacks registered with the new box
  -- and an activation that the library refuses, the result is `ClientActivationError`, every life
  -- cell keeps its holders, and the library's state is the one behind the refused activation: no
  -- close follows.
  pub refused_activation_leaks :
      (c : Client) (n : N) (p : P) (w : World L)
      → w.mutex ≡ free
      → let registered_lib = (register_callbacks act.set_callback c.ptr w.next_box w.lib).1 in
        (act.jack_activate c.ptr registered_lib).0 ≢ pos 0
        → (v : World L) × (async_new api act c n p w ≡ done (err client_activation_error) v)
          × ((d : ℕ) → v.lives d ≡ w.lives d)
          × (v.lib ≡ (act.jack_activate c.ptr registered_lib).1)
          × (v.mutex ≡ free)
  unfolding async_new start_client register_callbacks
  refused_activation_leaks c n p w e refused = (
    record w { mutex = free; next_box = w.next_box + 1; lib = _ },
    ground arith,
    λ d. refl,
    refl,
    refl,
  )

  -- A refused deactivation leaks the client too. For an active client whose deactivation the library
  -- refuses, with the lock free, the result is `ClientDeactivationError`, every life cell keeps its
  -- holders, and the library's state is the one behind the refused deactivation: no close follows.
  pub refused_deactivation_leaks :
      (box : ℕ) (ctx : CallbackContext N P) (w : World L)
      → w.mutex ≡ free
      → (act.jack_deactivate ctx.client.ptr w.lib).0 ≢ pos 0
      → (v : World L) × (deactivate api act (record { callback = some (box, ctx) }) w
          ≡ done (err client_deactivation_error) v)
        × ((d : ℕ) → v.lives d ≡ w.lives d)
        × (v.lib ≡ (act.jack_deactivate ctx.client.ptr w.lib).1)
        × (v.mutex ≡ free)
  unfolding deactivate maybe_deactivate take_down drop_async
  refused_deactivation_leaks box ctx w e refused = (
    record w { mutex = free; lib = (act.jack_deactivate ctx.client.ptr w.lib).1 },
    ground arith,
    λ d. refl,
    refl,
    refl,
  )

  -- Deactivation gives back what activation was given: with the lock free, if the library accepts
  -- both, the client and the two handlers come back, every life cell keeps its holders, and the
  -- library was called for the registration, the activation and the deactivation, in this order.
  pub deactivate-async_new :
      (c : Client) (n : N) (p : P) (w : World L)
      → w.mutex ≡ free
      → let registered_lib = (register_callbacks act.set_callback c.ptr w.next_box w.lib).1 in
        (act.jack_activate c.ptr registered_lib).0 ≡ pos 0
        → (act.jack_deactivate c.ptr (act.jack_activate c.ptr registered_lib).1).0 ≡ pos 0
        → (a : AsyncClient N P) × (v v' : World L) × (async_new api act c n p w ≡ done (ok a) v)
          × (deactivate api act a v ≡ done (ok (c, n, p)) v')
          × ((d : ℕ) → v'.lives d ≡ w.lives d)
          × (v'.lib ≡ (act.jack_deactivate c.ptr (act.jack_activate c.ptr registered_lib).1).1)
          × (v'.mutex ≡ free)
  unfolding async_new start_client register_callbacks deactivate maybe_deactivate take_down
      drop_async clear_callbacks
  deactivate-async_new c n p w e accepted deactivated_ok = (
    record { callback = some (w.next_box, record { client = c; notification = n; process = p }) },
    v,
    record v { lib = (act.jack_deactivate c.ptr v.lib).1 },
    rw (e, accepted) refl,
    rw deactivated_ok refl,
    λ d. refl,
    refl,
    refl,
  )
    where
      v : World L
      v = record w {
        mutex = free;
        next_box = w.next_box + 1;
        lib =
            (act.jack_activate c.ptr
              (register_callbacks act.set_callback c.ptr w.next_box w.lib).1).1;
      }

  -- Dropping an active client, with the lock free, deactivates it and then closes it, if the library
  -- accepts both: one holder of its life cell is gone, no other cell has changed, and the lock is
  -- free.
  pub drop_async_closes :
      (box : ℕ) (ctx : CallbackContext N P) (w : World L)
      → w.mutex ≡ free
      → (act.jack_deactivate ctx.client.ptr w.lib).0 ≡ pos 0
      → let lib = (act.jack_deactivate ctx.client.ptr w.lib).1 in
        (api.jack_client_close ctx.client.ptr lib).0 ≡ pos 0
        → (v : World L) × (drop_async api act (record { callback = some (box, ctx) }) w ≡ done tt v)
          × (v.lib ≡ (api.jack_client_close ctx.client.ptr lib).1)
          × (v.lives ctx.client.cell ≡ w.lives ctx.client.cell - 1)
          × ((d : ℕ) → d ≢ ctx.client.cell → v.lives d ≡ w.lives d)
          × (v.mutex ≡ free)
  unfolding drop_async maybe_deactivate take_down clear_callbacks
  drop_async_closes box ctx w e accepted closes = (
    release_life ctx.client.cell (record w {
      mutex = free;
      lib = (api.jack_client_close ctx.client.ptr (act.jack_deactivate ctx.client.ptr w.lib).1).1;
    }),
    rw (e, accepted)
        (drop_client-done api ctx.client
          (record w { mutex = free; lib = (act.jack_deactivate ctx.client.ptr w.lib).1 }) refl
          closes),
    refl,
    ground arith,
    λ d ne. ground arith,
    refl,
  )
