-- ===== src/Client/Releasing.antt =====
-- How the operations that take the global lock leave it.
use rust_jack.Base.{ℕ, ◌≡◌, refl, ◌≢◌, Option, none, some, arith, Result, ok, err}
use rust_jack.Enums.{Str, Error}
use rust_jack.Strings.{c_string, Utf8}
use rust_jack.Port.{Port, PortApi, name}
use rust_jack.Client.{Client, ClientApi, new, drop_client, opened, open_with, close, close_checked}
use rust_jack.Client.Ports.{connect_ports, connect_ports_by_name, named_ports}
use rust_jack.Client.State.{
  after_cleanup, then_do, release_life_after, on_unwind, Lock, free, held, poisoned, World, Outcome,
  done, unwound, deadlock, aborted, locked, release,
}
use rust_jack.Client.Callbacks.{CallbackContext}
use rust_jack.Client.Async.{
  drop_callback, drop_result, ActivationApi, AsyncClient, async_new, deactivate, drop_async,
  maybe_deactivate, take_down, start_client,
}

-- How a call may end for the lock to be usable afterwards: not in a deadlock, and not with the lock
-- still held.
abbrev pub Released : {L A : Type 0} → Outcome L A → Type 0
Released (done a w) = w.mutex ≢ held
Released (unwound w) = w.mutex ≢ held
Released deadlock = ⊥
Released aborted = Unit {0}

-- A call that ends at all.
abbrev Ends : {L A : Type 0} → Outcome L A → Type 0
Ends deadlock = ⊥
Ends _ = Unit {0}

module _ {L : Type 0} where
  release-Released : {A : Type 0} (o : Outcome L A) → Ends o → Released (release o)
  release-Released (done a w) h = λ e. cc
  release-Released (unwound w) h = λ e. cc
  release-Released deadlock h = absurd h
  release-Released aborted h = tt

  locked-Released :
      {A : Type 0} (body : World L → Outcome L A) (w : World L)
      → w.mutex ≢ held
      → ((v : World L) → Ends (body v))
      → Released (locked body w)
  locked-Released body w h ends = at w.mutex refl
    where
      at : (m : Lock) → w.mutex ≡ m → Released (locked body w)
      at free e = rw e (release-Released (body (record w { mutex = held })) (ends _))
      at held e = absurd (h e)
      at poisoned e = rw e (λ q. cc)

  life-Released :
      {A : Type 0} (c : ℕ) (o : Outcome L A) → Released o → Released (release_life_after c o)
  life-Released c (done a w) h = h
  life-Released c (unwound w) h = h
  life-Released c deadlock h = h
  life-Released c aborted h = tt

  then_do-Released :
      {A B : Type 0} (o : Outcome L A) (k : A → World L → Outcome L B)
      → Released o
      → ((a : A) (v : World L) → v.mutex ≢ held → Released (k a v))
      → Released (then_do o k)
  then_do-Released (done a w) k h next = next a w h
  then_do-Released (unwound w) k h next = h
  then_do-Released deadlock k h next = h
  then_do-Released aborted k h next = tt

  cleanup-Released :
      (A : Type 0) (o : Outcome L (Unit {0})) → Released o → Released (after_cleanup {A = A} o)
  cleanup-Released A (done _ w) h = h
  cleanup-Released A (unwound w) h = tt
  cleanup-Released A deadlock h = h
  cleanup-Released A aborted h = tt

  on_unwind-Released :
      {A : Type 0} (cleanup : World L → Outcome L (Unit {0})) (o : Outcome L A)
      → Released o
      → ((v : World L) → v.mutex ≢ held → Released (cleanup v))
      → Released (on_unwind cleanup o)
  on_unwind-Released cleanup (done a w) h clean = h
  on_unwind-Released cleanup (unwound w) h clean = cleanup-Released _ (cleanup w) (clean w h)
  on_unwind-Released cleanup deadlock h clean = h
  on_unwind-Released cleanup aborted h clean = tt

module _ {L : Type 0} (api : ClientApi L) where
  open-Ends : (s : Str) (options : ℕ) (w : World L) → Ends (open_with api (c_string s) options w)
  unfolding open_with opened
  open-Ends s options w = ground arith

  pub new-Released :
      (s : Str) (options : ℕ) (w : World L) → w.mutex ≢ held → Released (new api s options w)
  unfolding new
  new-Released s options w h =
      locked-Released (open_with api (c_string s) options) w h (open-Ends s options)

  close-Ends : (c : Client) (w : World L) → Ends (close api c w)
  unfolding close close_checked
  close-Ends c w = ground arith

  pub drop_client-Released :
      (c : Client) (w : World L) → w.mutex ≢ held → Released (drop_client api c w)
  unfolding drop_client
  drop_client-Released c w h =
      life-Released c.cell (locked (close api c) w)
        (locked-Released (close api c) w h (close-Ends c))

  named-Ends :
      (c : Client) (r r' : Result Str Error) (w : World L)
      → Ends (named_ports api (connect_ports_by_name api c) r r' w)
  unfolding connect_ports_by_name
  named-Ends c r r' w = ground arith

  pub connect_ports-Released :
      (ports : PortApi L) (utf8 : Utf8) (c : Client) (p q : Port) (w : World L)
      → w.mutex ≢ held
      → Released (connect_ports api ports utf8 c p q w)
  unfolding connect_ports
  connect_ports-Released ports utf8 c p q w h =
      locked-Released
        (λ v.
          named_ports api (connect_ports_by_name api c) (name ports utf8 v.lives p v.lib)
            (name ports utf8 v.lives q v.lib) v)
        w h
        (λ v. named-Ends c (name ports utf8 v.lives p v.lib) (name ports utf8 v.lives q v.lib) v)

module _ {L N P : Type 0} (api : ClientApi L) (act : ActivationApi L) where
  take_down-Ends :
      (o : Option (ℕ × CallbackContext N P)) (w : World L) → Ends (take_down api act o w)
  unfolding take_down
  take_down-Ends o w = ground arith

  start-Ends : (ctx : CallbackContext N P) (w : World L) → Ends (start_client api act ctx w)
  unfolding start_client
  start-Ends ctx w = ground arith

  maybe_deactivate-Released :
      (a : AsyncClient N P) (w : World L) → w.mutex ≢ held → Released (maybe_deactivate api act a w)
  unfolding maybe_deactivate
  maybe_deactivate-Released a w h =
      locked-Released (take_down api act a.callback) w h (take_down-Ends a.callback)

  pub drop_async-Released :
      (a : AsyncClient N P) (w : World L) → w.mutex ≢ held → Released (drop_async api act a w)
  unfolding drop_async
  drop_async-Released a w h =
      then_do-Released _ _
        (on_unwind-Released _ _ (maybe_deactivate-Released a w h) (dropped a.callback)) result
    where
      dropped :
          (o : Option (ℕ × CallbackContext N P)) (v : World L)
          → v.mutex ≢ held
          → Released (drop_callback api act o v)
      dropped none v k = k
      dropped (some (box, ctx)) v k = drop_client-Released api ctx.client v k

      result :
          (r : Result (CallbackContext N P) Error × AsyncClient N P) (v : World L)
          → v.mutex ≢ held
          → Released (drop_result api act r v)
      result (ok ctx, b) v k = drop_client-Released api ctx.client v k
      result (err e, b) v k = k

  pub async_new-Released :
      (c : Client) (n : N) (p : P) (w : World L)
      → w.mutex ≢ held
      → Released (async_new api act c n p w)
  unfolding async_new
  async_new-Released c n p w h =
      on_unwind-Released (drop_client api c) (locked (start_client api act ctx) w)
        (locked-Released (start_client api act ctx) w h (start-Ends ctx))
        (drop_client-Released api c)
    where
      ctx : CallbackContext N P
      ctx = record { client = c; notification = n; process = p }

  pub deactivate-Released :
      (a : AsyncClient N P) (w : World L) → w.mutex ≢ held → Released (deactivate api act a w)
  unfolding deactivate
  deactivate-Released a w h =
      then_do-Released _ _
        (on_unwind-Released (drop_async api act a) _ (maybe_deactivate-Released a w h)
          (drop_async-Released a))
        (λ r v k.
          then_do-Released (drop_async api act r.1 v) _ (drop_async-Released r.1 v k)
            (λ _ v' k'. k'))

  -- Opening, dropping, connecting, activating and deactivating a client and dropping an active one,
  -- each started while the lock is not held: none waits for ever on the lock, also not in the
  -- destructors that it runs, and where it returns or unwinds the lock is not held.
  pub never_held :
      (ports : PortApi L) (utf8 : Utf8) (s : Str) (options : ℕ) (c : Client) (p q : Port) (n : N)
      (h : P) (a : AsyncClient N P) (w : World L)
      → w.mutex ≢ held
      → Released (new api s options w)
        × Released (drop_client api c w)
        × Released (connect_ports api ports utf8 c p q w)
        × Released (async_new api act c n h w)
        × Released (drop_async api act a w)
        × Released (deactivate api act a w)
  never_held ports utf8 s options c p q n h a w free_or = (
    new-Released api s options w free_or,
    drop_client-Released api c w free_or,
    connect_ports-Released api ports utf8 c p q w free_or,
    async_new-Released c n h w free_or,
    drop_async-Released a w free_or,
    deactivate-Released a w free_or,
  )
