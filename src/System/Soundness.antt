-- ===== src/System/Soundness.antt =====
-- What is sound of a program: its life cells and the server's clients agree with what it owns.
use rust_jack.Base.{ℕ, ◌+◌, ◌≤◌, ◌≡◌, sym, ◌∙◌, ◌≢◌, ◌∷◌, arith, ◌==◌, if◌then◌else◌, ok}
use rust_jack.Enums.{ClientStatus}
use rust_jack.Client.{Client, ClientApi}
use rust_jack.Client.State.{held, World}
use rust_jack.Client.Async.{ActivationApi}
use rust_jack.Client.Effects.{Counted, Kept, Freed, Opened}
use rust_jack.System.{System, Starts}
use rust_jack.System.Counting.{IsFull, owners, owned}

module _ {L N P : Type 0} (api : ClientApi L) (act : ActivationApi L) (law : Counted api act) where
  open law use {open_count}

  -- The lock is not held; a life cell has as many holders as it has owners, and that is one at most;
  -- the cells to come have none; and the server has a client open for every one that is owned, leaked
  -- or was dropped without being closed.
  pub record IsSound (s : System L N P) : Type 0 where
    pub unheld : s.world.mutex ≢ held
    pub counted : (d : ℕ) → s.world.lives d ≡ owners d s
    pub single : (d : ℕ) → s.world.lives d ≤ 1
    pub fresh : (d : ℕ) → s.world.next_cell ≤ d → s.world.lives d ≡ 0
    pub all_open : open_count s.world.lib ≡ owned s
    pub full : IsFull s.active

  pub Starts-IsSound : (s : System L N P) → Starts api act law s → IsSound s
  Starts-IsSound s h = record {
    unheld = λ e. cc;
    counted = λ d. rw (h.no_clients, h.no_active, h.no_leaked) (h.no_lives d);
    single = λ d. omega (arith, h.no_lives d);
    fresh = λ d k. h.no_lives d;
    all_open = rw (h.no_clients, h.no_active, h.no_leaked, h.none_unclosed) h.none_open;
    full = rw h.no_active tt;
  }

  pub Kept-IsSound :
      (s t : System L N P)
      → IsSound s
      → Kept api act law s.world t.world
      → t.world.mutex ≢ held
      → ((d : ℕ) → owners d t ≡ owners d s)
      → owned t ≡ owned s
      → IsFull t.active
      → IsSound t
  Kept-IsSound s t h (lives, cells, opened) unheld same_owners same_owned full = record {
    unheld = unheld;
    counted = λ d. lives d ∙ h.counted d ∙ sym (same_owners d);
    single = λ d. omega (arith, lives d, h.single d);
    fresh = λ d k. lives d ∙ h.fresh d (omega (arith, cells));
    all_open = opened ∙ h.all_open ∙ sym same_owned;
    full = full;
  }

  pub Freed-IsSound :
      (c : ℕ) (s t : System L N P) (n : ℕ)
      → IsSound s
      → Freed api act law c s.world t.world n
      → t.world.mutex ≢ held
      → ((d : ℕ) → owners d t + (if d == c then 1 else 0) ≡ owners d s)
      → owned t + n ≡ owned s
      → IsFull t.active
      → IsSound t
  Freed-IsSound c s t n h (lives, cells, opened) unheld fewer_owners fewer_owned full = record {
    unheld = unheld;
    counted = λ d. ground (arith, lives d, h.counted d, fewer_owners d);
    single = λ d. ground (arith, lives d, h.single d);
    fresh = λ d k. ground (arith, lives d, h.fresh d (omega (arith, cells)));
    all_open = omega (arith, opened, h.all_open, fewer_owned);
    full = full;
  }

  pub Opened-IsSound :
      (c : Client) (status : ClientStatus) (s : System L N P) (w : World L)
      → IsSound s
      → Opened api act law s.world (ok (c, status)) w
      → w.mutex ≢ held
      → IsSound (record s { world = w; clients = c ∷ s.clients })
  Opened-IsSound c status s w h (cell, lives, cells, opened) unheld = record {
    unheld = unheld;
    counted = λ d. ground (arith, cell, lives d, h.counted d, h.fresh d);
    single = λ d. ground (arith, lives d, h.single d);
    fresh = λ d k. ground (arith, cells, lives d, h.fresh d);
    all_open = omega (arith, opened, h.all_open);
    full = h.full;
  }
