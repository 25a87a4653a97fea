-- ===== src/Client/Locking.antt =====
-- The poisoning of the global lock: what poisons it, and what a poisoned lock does to every operation.
use rust_jack.Base.{
  ℕ, zero, suc, ◌≡◌, refl, ap, ◌∙◌, ◌≢◌, ◌⊎◌, inl, inr, true, Option, none, some, arith, ℤ, pos,
  negsuc, Result, map_ok,
}
use rust_jack.Enums.{Str, Error}
use rust_jack.Strings.{has_nul, c_string}
use rust_jack.Client.{Client, ClientApi, new, drop_client, open_with, close, close_checked}
use rust_jack.Client.State.{
  release_life_after, then_do, after_cleanup, on_unwind, free, held, poisoned, World, Outcome, done,
  unwound, aborted, locked, release, release_life,
}
use rust_jack.Client.Callbacks.{CallbackContext}
use rust_jack.Client.Async.{
  drop_callback, drop_result, ActivationApi, AsyncClient, async_new, deactivate, drop_async,
  maybe_deactivate,
}

module _ {L A : Type 0} (body : World L → Outcome L A) (w : World L) where
  pub locked-poisoned : w.mutex ≡ poisoned → locked body w ≡ unwound w
  locked-poisoned e = ground arith

  pub locked-free : w.mutex ≡ free → locked body w ≡ release (body (record w { mutex = held }))
  locked-free e = ground arith

module _ {L : Type 0} (api : ClientApi L) where
  close_checked-unwound :
      (res : ℤ) (w : World L) → res ≢ pos 0 → close_checked api res w ≡ unwound w
  unfolding close_checked
  close_checked-unwound (pos zero) w h = absurd (h refl)
  close_checked-unwound (pos (suc n)) w h = refl
  close_checked-unwound (negsuc n) w h = refl

  drop_client-poisoned :
      (c : Client) (w : World L)
      → w.mutex ≡ poisoned
      → drop_client api c w ≡ unwound (release_life c.cell w)
  unfolding drop_client
  drop_client-poisoned c w e = ap (release_life_after c.cell) (locked-poisoned (close api c) w e)

  -- `Client::new` with a NUL byte in its name, started while the lock is free, unwinds and leaves
  -- the lock poisoned and all else as it was.
  pub new_nul_poisons :
      (s : Str) (options : ℕ) (w : World L)
      → has_nul s ≡ true
      → w.mutex ≡ free
      → new api s options w ≡ unwound (record w { mutex = poisoned })
  unfolding new open_with
  new_nul_poisons s options w h e = ground arith

  -- Dropping a client, started while the lock is free, unwinds and leaves the lock poisoned if the
  -- library refuses the close.
  pub refused_close_poisons :
      (c : Client) (w : World L)
      → w.mutex ≡ free
      → (api.jack_client_close c.ptr w.lib).0 ≢ pos 0
      → (v : World L) × (drop_client api c w ≡ unwound v) × (v.mutex ≡ poisoned)
  unfolding drop_client close close_checked
  refused_close_poisons c w e h = (
    release_life c.cell
        (record w { mutex = poisoned; lib = (api.jack_client_close c.ptr w.lib).1 }),
    ap (release_life_after c.cell) (locked-free (close api c) w e ∙ ap release refused),
    refl,
  )
    where
      refused :
          close api c (record w { mutex = held })
          ≡ unwound (record w { mutex = held; lib = (api.jack_client_close c.ptr w.lib).1 })
      refused = close_checked-unwound _ _ h

-- A second unwinding, or an abort, during an unwinding aborts.
module _ {L A : Type 0} (cleanup : World L → Outcome L (Unit {0})) (w v : World L) where
  on_unwind-unwound : cleanup w ≡ unwound v → on_unwind {A = A} cleanup (unwound w) ≡ aborted
  on_unwind-unwound e = ap after_cleanup e

  on_unwind-aborted : cleanup w ≡ aborted → on_unwind {A = A} cleanup (unwound w) ≡ aborted
  on_unwind-aborted e = ap after_cleanup e

module _ {L N P : Type 0} (api : ClientApi L) (act : ActivationApi L) where
  maybe_deactivate-poisoned :
      (a : AsyncClient N P) (w : World L)
      → w.mutex ≡ poisoned
      → maybe_deactivate api act a w ≡ unwound w
  unfolding maybe_deactivate
  maybe_deactivate-poisoned a w e = ground arith

  drop_callback-poisoned :
      {A : Type 0} (o : Option (ℕ × CallbackContext N P)) (w : World L)
      → w.mutex ≡ poisoned
      → let r : Outcome L A = on_unwind (drop_callback api act o) (unwound w) in
        (r ≡ unwound w) ⊎ (r ≡ aborted)
  drop_callback-poisoned none w e = inl refl
  drop_callback-poisoned (some (box, ctx)) w e =
      inr (
        on_unwind-unwound (drop_client api ctx.client) w _
          (drop_client-poisoned api ctx.client w e))

  drop_async-poisoned :
      (a : AsyncClient N P) (w : World L)
      → w.mutex ≡ poisoned
      → (drop_async api act a w ≡ unwound w) ⊎ (drop_async api act a w ≡ aborted)
  unfolding drop_async
  drop_async-poisoned a w e =
      rw (maybe_deactivate-poisoned a w e)
        (elim (drop_callback-poisoned {A = Result (CallbackContext N P) Error × AsyncClient N P}
          a.callback w e) [
            | inl r ↦ inl (ap (λ o. then_do o (drop_result api act)) r)
            | inr r ↦ inr (ap (λ o. then_do o (drop_result api act)) r)
          ])

  -- Once the lock is poisoned, no client can be opened, closed, activated or deactivated any more:
  -- opening and dropping a client unwind without reaching the library, activating and deactivating
  -- one abort the process.
  pub poisoned_for_good :
      (s : Str) (options : ℕ) (c : Client) (n : N) (p : P) (a : AsyncClient N P) (w : World L)
      → w.mutex ≡ poisoned
      → (new api s options w ≡ unwound w)
        × (drop_client api c w ≡ unwound (release_life c.cell w))
        × (async_new api act c n p w ≡ aborted)
        × (deactivate api act a w ≡ aborted)
  unfolding new async_new deactivate
  poisoned_for_good s options c n p a w e = (
    locked-poisoned (open_with api (c_string s) options) w e,
    drop_client-poisoned api c w e,
    never_activated,
    never_deactivated,
  )
    where
      never_activated : async_new api act c n p w ≡ aborted
      never_activated = rw e refl

      dropped :
          on_unwind {A = Result (CallbackContext N P) Error × AsyncClient N P}
            (drop_async api act a)
            (unwound w)
          ≡ aborted
      dropped = elim (drop_async-poisoned a w e) [
        | inl r ↦ on_unwind-unwound (drop_async api act a) w w r
        | inr r ↦ on_unwind-aborted (drop_async api act a) w w r
      ]

      never_deactivated : deactivate api act a w ≡ aborted
      never_deactivated = rw (maybe_deactivate-poisoned a w e) (
          ap
            (λ o. then_do o (λ r w'.
              then_do (drop_async api act r.1 w') λ _ w''.
                done (map_ok (λ ctx. (ctx.client, ctx.notification, ctx.process)) r.0) w''))
            dropped)
