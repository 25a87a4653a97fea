-- ===== src/Client/Effects.antt =====
-- What each operation does to the life cells and to the number of clients that are open at the server,
-- however it ends.
pub mod Activation
pub mod Connecting
pub mod Dropping
use rust_jack.Base.{
  ℕ, zero, suc, ◌+◌, ◌-◌, ◌≡◌, refl, sym, subst, ◌≢◌, false, arith, ◌==◌, if◌then◌else◌, ℤ, pos,
  negsuc, Result, ok, err, Panics, returns, panics,
}
use rust_jack.Enums.{Str, Error, ClientStatus}
use rust_jack.Strings.{c_string}
use rust_jack.Client.{Client, ClientApi, new, drop_client, opened, open_with, close, close_checked}
use rust_jack.Client.State.{
  release_life_after, Lock, free, held, poisoned, World, Outcome, done, unwound, deadlock, aborted,
  locked, release, release_life,
}
use rust_jack.Client.Locking.{locked-free, locked-poisoned}
use rust_jack.Client.Callbacks.{Callback}
use rust_jack.Client.Async.{ActivationApi}

-- What holds of the result and the state of a call that returns, and of the state of one that unwinds.
abbrev pub Effect :
    {L A : Type 0} → (A → World L → Type 0) → (World L → Type 0) → Outcome L A → Type 0
Effect R U (done a w) = R a w
Effect R U (unwound w) = U w
Effect R U deadlock = Unit {0}
Effect R U aborted = Unit {0}

-- The number of this process's clients that are open at the server, and what the documentation of the
-- library says of it: only opening and closing change it.
pub record Counted {L : Type 0} (api : ClientApi L) (act : ActivationApi L) : Type 0 where
  pub open_count : L → ℕ
  pub opens :
      (s : Str) (options : ℕ) (l : L)
      → (api.jack_client_open s options l).0 ≢ 0
      → open_count (api.jack_client_open s options l).2 ≡ open_count l + 1
  pub opens_nothing :
      (s : Str) (options : ℕ) (l : L)
      → (api.jack_client_open s options l).0 ≡ 0
      → open_count (api.jack_client_open s options l).2 ≡ open_count l
  pub closes :
      (c : ℕ) (l : L)
      → (api.jack_client_close c l).0 ≡ pos 0
      → open_count (api.jack_client_close c l).1 + 1 ≡ open_count l
  pub refuses :
      (c : ℕ) (l : L)
      → (api.jack_client_close c l).0 ≢ pos 0
      → open_count (api.jack_client_close c l).1 ≡ open_count l
  pub connects :
      (c : ℕ) (s d : Str) (l : L) → open_count (api.jack_connect c s d l).1 ≡ open_count l
  pub activates : (c : ℕ) (l : L) → open_count (act.jack_activate c l).1 ≡ open_count l
  pub deactivates : (c : ℕ) (l : L) → open_count (act.jack_deactivate c l).1 ≡ open_count l
  pub registers :
      (slot : Callback) (c box : ℕ) (l : L)
      → open_count (act.set_callback slot c box l).1 ≡ open_count l

module _ {L A : Type 0} (R : A → World L → Type 0) (U : World L → Type 0) where
  pub Effect-eq : (o o' : Outcome L A) → o ≡ o' → Effect R U o' → Effect R U o
  Effect-eq o o' e h = subst (Effect R U) (sym e) h

  pub release-Effect :
      (o : Outcome L A)
      → Effect (λ a v. R a (record v { mutex = free })) (λ v. U (record v { mutex = poisoned })) o
      → Effect R U (release o)
  release-Effect (done a w) h = h
  release-Effect (unwound w) h = h
  release-Effect deadlock h = tt
  release-Effect aborted h = tt

  -- The effect of a block under the lock is that of its body.
  pub locked-Effect :
      (body : World L → Outcome L A) (w : World L)
      → Effect
          (λ a v. R a (record v { mutex = free }))
          (λ v. U (record v { mutex = poisoned }))
          (body (record w { mutex = held }))
      → U w
      → Effect R U (locked body w)
  locked-Effect body w inside outside = at w.mutex refl
    where
      at : (m : Lock) → w.mutex ≡ m → Effect R U (locked body w)
      at free e =
          Effect-eq _ _ (locked-free body w e)
            (release-Effect (body (record w { mutex = held })) inside)
      at held e = Effect-eq _ deadlock (rw e refl) tt
      at poisoned e = Effect-eq _ _ (locked-poisoned body w e) outside

  life-Effect :
      (c : ℕ) (o : Outcome L A)
      → Effect (λ a v. R a (release_life c v)) (λ v. U (release_life c v)) o
      → Effect R U (release_life_after c o)
  life-Effect c (done a w) h = h
  life-Effect c (unwound w) h = h
  life-Effect c deadlock h = tt
  life-Effect c aborted h = tt

module _ {L : Type 0} (api : ClientApi L) (act : ActivationApi L) (law : Counted api act) where
  open law use {open_count}

  -- Nothing that concerns the life of clients has changed.
  abbrev pub Kept : World L → World L → Type 0
  Kept w v =
      ((d : ℕ) → v.lives d ≡ w.lives d)
      × (v.next_cell ≡ w.next_cell)
      × (open_count v.lib ≡ open_count w.lib)

  -- A holder of the cell is gone, and some clients are open at the server.
  abbrev pub Freed : ℕ → World L → World L → ℕ → Type 0
  Freed c w v before =
      ((d : ℕ) → v.lives d ≡ (if d == c then w.lives d - 1 else w.lives d))
      × (v.next_cell ≡ w.next_cell)
      × (open_count v.lib + before ≡ open_count w.lib)

  -- What `Client::new` returns.
  abbrev pub Opened : World L → Result (Client × ClientStatus) Error → World L → Type 0
  Opened w (err e) v = Kept w v
  Opened w (ok (c, status)) v =
      (c.cell ≡ w.next_cell)
      × ((d : ℕ) → v.lives d ≡ (if d == w.next_cell then 1 else w.lives d))
      × (v.next_cell ≡ w.next_cell + 1)
      × (open_count v.lib ≡ open_count w.lib + 1)

  opened-Effect :
      (ptr : ℕ) (status : ClientStatus) (w v : World L)
      → ((d : ℕ) → v.lives d ≡ w.lives d)
      → v.next_cell ≡ w.next_cell
      → (ptr ≢ 0 → open_count v.lib ≡ open_count w.lib + 1)
      → (ptr ≡ 0 → open_count v.lib ≡ open_count w.lib)
      → Effect
          (λ a u. Opened w a (record u { mutex = free }))
          (λ u. Kept w (record u { mutex = poisoned }))
          (opened api ptr status v)
  unfolding opened
  opened-Effect zero status w v lives next some_more none_more = (lives, next, none_more refl)
  opened-Effect (suc n) status w v lives next some_more none_more =
      Effect-eq _ _ (opened api (suc n) status v)
        (done (ok (record { ptr = suc n; cell = v.next_cell; has_handler = false }, status))
          (record v {
            next_cell = v.next_cell + 1;
            lives = λ c. if c == v.next_cell then 1 else v.lives c;
          }))
        (ground arith) (next, λ d. ground (arith, lives d), omega arith, some_more (λ e. cc))

  open_with-Effect :
      (s : Panics Str) (options : ℕ) (w : World L)
      → Effect
          (λ a u. Opened w a (record u { mutex = free }))
          (λ u. Kept w (record u { mutex = poisoned }))
          (open_with api s options (record w { mutex = held }))
  unfolding open_with
  open_with-Effect panics options w = (λ d. refl, refl, refl)
  open_with-Effect (returns s) options w =
      opened-Effect _ _ w _ (λ d. refl) refl (law.opens s options w.lib)
        (law.opens_nothing s options w.lib)

  -- Opening takes the next cell and opens one client more, or keeps everything as it was.
  pub new-Effect :
      (s : Str) (options : ℕ) (w : World L) → Effect (Opened w) (Kept w) (new api s options w)
  unfolding new
  new-Effect s options w =
      locked-Effect (Opened w) (Kept w) (open_with api (c_string s) options) w
        (open_with-Effect (c_string s) options w) (λ d. refl, refl, refl)

  close-Effect :
      (c : Client) (w : World L)
      → Effect
          (λ _ u. Freed c.cell w (release_life c.cell (record u { mutex = free })) 1)
          (λ u. Freed c.cell w (release_life c.cell (record u { mutex = poisoned })) 0)
          (close api c (record w { mutex = held }))
  unfolding close close_checked
  close-Effect c w = at (api.jack_client_close c.ptr w.lib).0 refl
    where
      at :
          (code : ℤ)
          → (api.jack_client_close c.ptr w.lib).0 ≡ code
          → Effect
              (λ _ u. Freed c.cell w (release_life c.cell (record u { mutex = free })) 1)
              (λ u. Freed c.cell w (release_life c.cell (record u { mutex = poisoned })) 0)
              (close_checked api code
                (record w { mutex = held; lib = (api.jack_client_close c.ptr w.lib).1 }))
      at (pos zero) e = (λ d. ground arith, refl, law.closes c.ptr w.lib e)
      at (pos (suc n)) e =
          (λ d. ground arith, refl, omega (arith, law.refuses c.ptr w.lib (λ z. cc)))
      at (negsuc n) e = (λ d. ground arith, refl, omega (arith, law.refuses c.ptr w.lib (λ z. cc)))

  -- Dropping a client gives up its life cell; it closes a client at the server unless it unwinds.
  pub drop_client-Effect :
      (c : Client) (w : World L)
      → Effect (λ _ v. Freed c.cell w v 1) (λ v. Freed c.cell w v 0) (drop_client api c w)
  unfolding drop_client
  drop_client-Effect c w =
      life-Effect (λ _ v. Freed c.cell w v 1) (λ v. Freed c.cell w v 0) c.cell
        (locked (close api c) w)
        (locked-Effect _ _ (close api c) w (close-Effect c w)
          (λ d. ground arith, refl, omega arith))
