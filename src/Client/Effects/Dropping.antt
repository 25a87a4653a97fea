-- ===== src/Client/Effects/Dropping.antt =====
-- What the drop of an active client does to the life cells and to the number of clients that are open at
-- the server, however it ends.
use rust_jack.Base.{ℕ, zero, suc, ◌≡◌, refl, ◌∙◌, ◌≢◌, ◌⊎◌, inl, inr, some, ℤ, pos, negsuc}
use rust_jack.Client.{ClientApi, drop_client}
use rust_jack.Client.State.{
  Lock, free, held, poisoned, World, Outcome, done, unwound, deadlock, aborted,
}
use rust_jack.Client.Callbacks.{CallbackContext, clear_callbacks}
use rust_jack.Client.Async.{ActivationApi, drop_async, maybe_deactivate, take_down}
use rust_jack.Client.Effects.{Effect, Counted, Effect-eq, Kept, Freed, drop_client-Effect}

module _ {L A : Type 0} where
  Effect-map :
      (R R' : A → World L → Type 0) (U U' : World L → Type 0) (o : Outcome L A)
      → ((a : A) (v : World L) → R a v → R' a v)
      → ((v : World L) → U v → U' v)
      → Effect R U o
      → Effect R' U' o
  Effect-map R R' U U' (done a w) f g h = f a w h
  Effect-map R R' U U' (unwound w) f g h = g w h
  Effect-map R R' U U' deadlock f g h = tt
  Effect-map R R' U U' aborted f g h = tt

module _ {L N P : Type 0} (api : ClientApi L) (act : ActivationApi L) (law : Counted api act) where
  open law use {open_count}

  -- What the drop of an active client leaves: its client is gone, or, if the library refuses the
  -- deactivation, nothing has changed.
  abbrev pub DroppedActive : CallbackContext N P → World L → World L → Type 0
  DroppedActive ctx w v =
      (((act.jack_deactivate ctx.client.ptr w.lib).0 ≡ pos 0)
        × Freed api act law ctx.client.cell w v 1)
      ⊎ (((act.jack_deactivate ctx.client.ptr w.lib).0 ≢ pos 0) × Kept api act law w v)

  pub drop_async-Effect :
      (box : ℕ) (ctx : CallbackContext N P) (w : World L)
      → Effect
          (λ _ v. DroppedActive ctx w v)
          (λ v. Freed api act law ctx.client.cell w v 0)
          (drop_async api act (record { callback = some (box, ctx) }) w)
  unfolding drop_async maybe_deactivate take_down clear_callbacks drop_client
  drop_async-Effect box ctx w = at w.mutex refl
    where
      left : World L
      left = record w { mutex = free; lib = (act.jack_deactivate ctx.client.ptr w.lib).1 }

      same : open_count left.lib ≡ open_count w.lib
      same = law.deactivates ctx.client.ptr w.lib

      freed :
          (v : World L) (n : ℕ)
          → Freed api act law ctx.client.cell left v n
          → Freed api act law ctx.client.cell w v n
      freed v n (lives, next, counted) = (lives, next, counted ∙ same)

      from :
          (o : Outcome L (Unit {0}))
          → drop_async api act (record { callback = some (box, ctx) }) w ≡ o
          → Effect (λ _ v. DroppedActive ctx w v) (λ v. Freed api act law ctx.client.cell w v 0) o
          → Effect
              (λ _ v. DroppedActive ctx w v)
              (λ v. Freed api act law ctx.client.cell w v 0)
              (drop_async api act (record { callback = some (box, ctx) }) w)
      from o =
          Effect-eq (λ _ v. DroppedActive ctx w v) (λ v. Freed api act law ctx.client.cell w v 0)
            (drop_async api act (record { callback = some (box, ctx) }) w) o

      code :
          (k : ℤ)
          → (act.jack_deactivate ctx.client.ptr w.lib).0 ≡ k
          → w.mutex ≡ free
          → Effect
              (λ _ v. DroppedActive ctx w v)
              (λ v. Freed api act law ctx.client.cell w v 0)
              (drop_async api act (record { callback = some (box, ctx) }) w)
      code (pos zero) r e = from (drop_client api ctx.client left) (rw (e, r) refl) (
          Effect-map (λ _ v. Freed api act law ctx.client.cell left v 1) _
            (λ v. Freed api act law ctx.client.cell left v 0) _ (drop_client api ctx.client left)
            (λ _ v h. inl (r, freed v 1 h)) (λ v h. freed v 0 h)
            (drop_client-Effect api act law ctx.client left))
      code (pos (suc k)) r e =
          from (done tt left) (rw (e, r) refl) (inr (rw r (λ q. cc), (λ d. refl, refl, same)))
      code (negsuc k) r e =
          from (done tt left) (rw (e, r) refl) (inr (rw r (λ q. cc), (λ d. refl, refl, same)))

      at :
          (m : Lock)
          → w.mutex ≡ m
          → Effect
              (λ _ v. DroppedActive ctx w v)
              (λ v. Freed api act law ctx.client.cell w v 0)
              (drop_async api act (record { callback = some (box, ctx) }) w)
      at free e = code _ refl e
      at held e = from deadlock (rw e refl) tt
      at poisoned e = from aborted (rw e refl) tt
