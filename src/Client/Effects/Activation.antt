-- ===== src/Client/Effects/Activation.antt =====
-- What activation and deactivation do to the life cells and to the number of clients that are open at
-- the server, however they end.
use rust_jack.Base.{
  ℕ, zero, suc, ◌+◌, ◌≡◌, refl, ◌∙◌, some, List, [], ◌∷◌, ℤ, pos, negsuc, Result, ok, err,
}
use rust_jack.Enums.{Error, client_activation_error, client_deactivation_error}
use rust_jack.Client.{Client, ClientApi, drop_client}
use rust_jack.Client.State.{Lock, free, held, poisoned, World, Outcome, done, deadlock, aborted}
use rust_jack.Client.Callbacks.{
  Callback, CallbackContext, register_callbacks, set_all, clear_callbacks, registered,
}
use rust_jack.Client.Async.{
  ActivationApi, AsyncClient, async_new, deactivate, drop_async, maybe_deactivate, take_down,
  start_client,
}
use rust_jack.Client.Effects.{Effect, Counted, Effect-eq, Kept}

module _ {L : Type 0} (api : ClientApi L) (act : ActivationApi L) (law : Counted api act) where
  open law use {open_count}

  set_all-open_count :
      (slots : List Callback) (c box : ℕ) (l : L)
      → open_count (set_all act.set_callback slots c box l) ≡ open_count l
  unfolding set_all
  set_all-open_count [] c box l = refl
  set_all-open_count (slot ∷ slots) c box l =
      set_all-open_count slots c box (act.set_callback slot c box l).1 ∙ law.registers slot c box l

  -- Registering the callbacks and activating opens and closes nothing.
  activate-open_count :
      (c : Client) (w : World L)
      → open_count
          (act.jack_activate c.ptr (register_callbacks act.set_callback c.ptr w.next_box w.lib).1).1
        ≡ open_count w.lib
  unfolding register_callbacks
  activate-open_count c w =
      law.activates c.ptr (set_all act.set_callback registered c.ptr w.next_box w.lib)
      ∙ set_all-open_count registered c.ptr w.next_box w.lib

module _ {L N P : Type 0} (api : ClientApi L) (act : ActivationApi L) (law : Counted api act) where
  open law use {open_count}

  -- What `AsyncClient::new` returns.
  abbrev pub Activated : Client → World L → Result (AsyncClient N P) Error → World L → Type 0
  Activated c w (ok a) v =
      Kept api act law w v
      × ((x : ℕ × CallbackContext N P) × (a.callback ≡ some x) × (x.1.client ≡ c))
  Activated c w (err e) v = Kept api act law w v

  -- Activation keeps every client, and its result, if it succeeds, owns the client. It never unwinds.
  pub async_new-Effect :
      (c : Client) (n : N) (p : P) (w : World L)
      → Effect (Activated c w) (λ _. ⊥) (async_new api act c n p w)
  unfolding async_new start_client register_callbacks drop_client
  async_new-Effect c n p w = at w.mutex refl
    where
      left : World L
      left = record w {
        mutex = free;
        next_box = w.next_box + 1;
        lib =
            (act.jack_activate c.ptr
              (register_callbacks act.set_callback c.ptr w.next_box w.lib).1).1;
      }

      kept : Kept api act law w left
      kept = (λ d. refl, refl, activate-open_count api act law c w)

      ctx : CallbackContext N P
      ctx = record { client = c; notification = n; process = p }

      new_active : AsyncClient N P
      new_active = record { callback = some (w.next_box, ctx) }

      from :
          (o : Outcome L (Result (AsyncClient N P) Error))
          → async_new api act c n p w ≡ o
          → Effect (Activated c w) (λ _. ⊥) o
          → Effect (Activated c w) (λ _. ⊥) (async_new api act c n p w)
      from o = Effect-eq (Activated c w) (λ _. ⊥) (async_new api act c n p w) o

      code :
          (k : ℤ)
          → (act.jack_activate c.ptr
              (register_callbacks act.set_callback c.ptr w.next_box w.lib).1).0
            ≡ k
          → w.mutex ≡ free
          → Effect (Activated c w) (λ _. ⊥) (async_new api act c n p w)
      code (pos zero) r e =
          from (done (ok new_active) left) (rw (e, r) refl) (kept, ((w.next_box, ctx), refl, refl))
      code (pos (suc k)) r e = from (done (err client_activation_error) left) (rw (e, r) refl) kept
      code (negsuc k) r e = from (done (err client_activation_error) left) (rw (e, r) refl) kept

      at : (m : Lock) → w.mutex ≡ m → Effect (Activated c w) (λ _. ⊥) (async_new api act c n p w)
      at free e = code _ refl e
      at held e = from deadlock (rw e refl) tt
      at poisoned e = from aborted (rw e refl) tt

  -- What `AsyncClient::deactivate` returns for the context of an active client.
  abbrev pub Deactivated :
      CallbackContext N P → World L → Result (Client × N × P) Error → World L → Type 0
  Deactivated ctx w (ok (c, n, p)) v = Kept api act law w v × (c ≡ ctx.client)
  Deactivated ctx w (err e) v = Kept api act law w v

  -- Deactivation keeps every client, and gives back the one that was active if it succeeds. It never
  -- unwinds.
  pub deactivate-Effect :
      (box : ℕ) (ctx : CallbackContext N P) (w : World L)
      → Effect
          (Deactivated ctx w)
          (λ _. ⊥)
          (deactivate api act (record { callback = some (box, ctx) }) w)
  unfolding deactivate maybe_deactivate take_down drop_async clear_callbacks drop_client
  deactivate-Effect box ctx w = at w.mutex refl
    where
      left : World L
      left = record w { mutex = free; lib = (act.jack_deactivate ctx.client.ptr w.lib).1 }

      kept : Kept api act law w left
      kept = (λ d. refl, refl, law.deactivates ctx.client.ptr w.lib)

      from :
          (o : Outcome L (Result (Client × N × P) Error))
          → deactivate api act (record { callback = some (box, ctx) }) w ≡ o
          → Effect (Deactivated ctx w) (λ _. ⊥) o
          → Effect
              (Deactivated ctx w)
              (λ _. ⊥)
              (deactivate api act (record { callback = some (box, ctx) }) w)
      from o =
          Effect-eq (Deactivated ctx w) (λ _. ⊥)
            (deactivate api act (record { callback = some (box, ctx) }) w) o

      code :
          (k : ℤ)
          → (act.jack_deactivate ctx.client.ptr w.lib).0 ≡ k
          → w.mutex ≡ free
          → Effect
              (Deactivated ctx w)
              (λ _. ⊥)
              (deactivate api act (record { callback = some (box, ctx) }) w)
      code (pos zero) r e =
          from (done (ok (ctx.client, ctx.notification, ctx.process)) left) (rw (e, r) refl)
            (kept, refl)
      code (pos (suc k)) r e =
          from (done (err client_deactivation_error) left) (rw (e, r) refl) kept
      code (negsuc k) r e = from (done (err client_deactivation_error) left) (rw (e, r) refl) kept

      at :
          (m : Lock)
          → w.mutex ≡ m
          → Effect
              (Deactivated ctx w)
              (λ _. ⊥)
              (deactivate api act (record { callback = some (box, ctx) }) w)
      at free e = code _ refl e
      at held e = from deadlock (rw e refl) tt
      at poisoned e = from aborted (rw e refl) tt
