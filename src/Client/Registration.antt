-- ===== src/Client/Registration.antt =====
-- Which box the library hands to the callbacks of a client: the calls of `register_callbacks` of
-- src/client/callbacks.rs, and what activation and deactivation leave of them.
use rust_jack.Base.{
  ℕ, ◌+◌, ◌≡◌, refl, ◌∙◌, ◌≢◌, inl, inr, Bool, true, false, ◌&&◌, Option, some, List, [], ◌∷◌,
  arith, ◌==◌, if◌then◌else◌, is_zero, pos, ok, ◌||◌, Bool-cases,
}
use rust_jack.Client.{Client, ClientApi}
use rust_jack.Client.State.{free, World, done}
use rust_jack.Client.Callbacks.{
  Callback, register_callbacks, set_all, clear_callbacks, registered, thread_init, on_info_shutdown,
  process, freewheel_slot, buffer_size, sample_rate, client_registration_slot,
  port_registration_slot, port_connect_slot, graph_order_slot, xrun_slot, latency_slot,
}
use rust_jack.Client.Async.{
  ActivationApi, AsyncClient, async_new, deactivate, drop_async, maybe_deactivate, take_down,
  start_client,
}

-- The place of a callback in `registered`.
abbrev pub slot_number : Callback → ℕ
slot_number thread_init = 0
slot_number on_info_shutdown = 1
slot_number process = 2
slot_number freewheel_slot = 3
slot_number buffer_size = 4
slot_number sample_rate = 5
slot_number client_registration_slot = 6
slot_number port_registration_slot = 7
slot_number port_connect_slot = 8
slot_number graph_order_slot = 9
slot_number xrun_slot = 10
slot_number latency_slot = 11

abbrev pub is_slot : ℕ → Callback → ℕ → Callback → Bool
is_slot c slot d slot' = (d == c) && (slot_number slot' == slot_number slot)

-- The library remembers, for each client and each callback, the pointer that the last accepted call
-- gave: a call that is refused, an activation and a deactivation leave it.
pub record Recorded {L : Type 0} (act : ActivationApi L) : Type 0 where
  pub handler_of : L → ℕ → Callback → Option ℕ
  pub sets :
      (slot : Callback) (c box : ℕ) (l : L) (d : ℕ) (slot' : Callback)
      → handler_of (act.set_callback slot c box l).1 d slot' ≡ (
          if is_zero (act.set_callback slot c box l).0 && is_slot c slot d slot'
          then some box
          else handler_of l d slot')
  pub activates :
      (c : ℕ) (l : L) (d : ℕ) (slot : Callback)
      → handler_of (act.jack_activate c l).1 d slot ≡ handler_of l d slot
  pub deactivates :
      (c : ℕ) (l : L) (d : ℕ) (slot : Callback)
      → handler_of (act.jack_deactivate c l).1 d slot ≡ handler_of l d slot

abbrev is_among : List Callback → Callback → Bool
is_among [] slot = false
is_among (s ∷ slots) slot = (slot_number slot == slot_number s) || is_among slots slot

registered-all : (slot : Callback) → is_among registered slot ≡ true
registered-all slot = ground arith

module _ {L : Type 0} (act : ActivationApi L) where
  -- The library accepts the calls that set these callbacks, one after the other.
  abbrev pub Accepted : List Callback → ℕ → ℕ → L → Type 0
  Accepted [] c box l = Unit {0}
  Accepted (s ∷ slots) c box l =
      ((act.set_callback s c box l).0 ≡ pos 0) × Accepted slots c box (act.set_callback s c box l).1

  abbrev running : Client → World L → World L
  running c w = record w {
    mutex = free;
    next_box = w.next_box + 1;
    lib = (act.jack_activate c.ptr (set_all act.set_callback registered c.ptr w.next_box w.lib)).1;
  }

  module _ (law : Recorded act) where
    open law use {handler_of}

    set_all-others :
        (slots : List Callback) (c box : ℕ) (l : L) (d : ℕ) (slot : Callback)
        → d ≢ c
        → handler_of (set_all act.set_callback slots c box l) d slot ≡ handler_of l d slot
    unfolding set_all
    set_all-others [] c box l d slot ne = refl
    set_all-others (s ∷ slots) c box l d slot ne =
        set_all-others slots c box (act.set_callback s c box l).1 d slot ne
        ∙ ground (arith, law.sets s c box l d slot)

    set_all-kept :
        (slots : List Callback) (c box : ℕ) (l : L) (slot : Callback)
        → handler_of l c slot ≡ some box
        → handler_of (set_all act.set_callback slots c box l) c slot ≡ some box
    unfolding set_all
    set_all-kept [] c box l slot e = e
    set_all-kept (s ∷ slots) c box l slot e =
        set_all-kept slots c box (act.set_callback s c box l).1 slot
          (ground (arith, law.sets s c box l c slot))

    set_all-own :
        (slots : List Callback) (c box : ℕ) (l : L) (slot : Callback)
        → Accepted slots c box l
        → is_among slots slot ≡ true
        → handler_of (set_all act.set_callback slots c box l) c slot ≡ some box
    unfolding set_all
    set_all-own [] c box l slot h e = cc
    set_all-own (s ∷ slots) c box l slot (h, hs) e =
        elim (Bool-cases (slot_number slot == slot_number s)) [
          | inl same ↦
              set_all-kept slots c box (act.set_callback s c box l).1 slot
                (ground (arith, law.sets s c box l c slot))
          | inr other ↦
              set_all-own slots c box (act.set_callback s c box l).1 slot hs (ground arith)
        ]

    running-own :
        (c : Client) (w : World L)
        → Accepted registered c.ptr w.next_box w.lib
        → (slot : Callback) → handler_of (running c w).lib c.ptr slot ≡ some w.next_box
    running-own c w hs slot =
        law.activates c.ptr _ c.ptr slot
        ∙ set_all-own registered c.ptr w.next_box w.lib slot hs (registered-all slot)

    running-others :
        (c : Client) (w : World L) (d : ℕ) (slot : Callback)
        → d ≢ c.ptr
        → handler_of (running c w).lib d slot ≡ handler_of w.lib d slot
    running-others c w d slot ne =
        law.activates c.ptr _ d slot ∙ set_all-others registered c.ptr w.next_box w.lib d slot ne

module _ {L N P : Type 0} (api : ClientApi L) (act : ActivationApi L) (law : Recorded act) where
  open law use {handler_of}

  async_new-running :
      (c : Client) (n : N) (p : P) (w : World L)
      → w.mutex ≡ free
      → (act.jack_activate c.ptr (set_all act.set_callback registered c.ptr w.next_box w.lib)).0
        ≡ pos 0
      → async_new api act c n p w
        ≡ done
            (ok (record {
              callback = some (w.next_box, record { client = c; notification = n; process = p });
            }))
            (running act c w)
  unfolding async_new start_client register_callbacks
  async_new-running c n p w e accepted = rw (e, accepted) refl

  -- Activation hands the new box to the library for all twelve callbacks. With the lock free, all
  -- twelve registrations accepted and the activation accepted, the result is an active client that
  -- owns the box; each callback of this client then has this box, and each callback of any other
  -- client the box that it had.
  pub async_new-handler_of :
      (c : Client) (n : N) (p : P) (w : World L)
      → w.mutex ≡ free
      → Accepted act registered c.ptr w.next_box w.lib
      → (act.jack_activate c.ptr (set_all act.set_callback registered c.ptr w.next_box w.lib)).0
        ≡ pos 0
      → (v : World L) × (async_new api act c n p w
          ≡ done
              (ok (record {
                callback = some (w.next_box, record { client = c; notification = n; process = p });
              }))
              v)
        × ((slot : Callback) → handler_of v.lib c.ptr slot ≡ some w.next_box)
        × ((d : ℕ) (slot : Callback)
            → d ≢ c.ptr
            → handler_of v.lib d slot ≡ handler_of w.lib d slot)
        × (v.next_box ≡ w.next_box + 1)
  async_new-handler_of c n p w e hs accepted = (
    running act c w,
    async_new-running c n p w e accepted,
    running-own act law c w hs,
    running-others act law c w,
    refl,
  )

  -- Deactivation does not take the callbacks back. With the lock free, all twelve registrations, the
  -- activation and then the deactivation accepted, the deactivation gives the client and the handlers
  -- back, so that the box of the activation is gone, and the library still has this box for each
  -- callback of the client, and for each callback of any other client what it had before.
  pub handler_of-deactivate :
      (c : Client) (n : N) (p : P) (w : World L)
      → w.mutex ≡ free
      → Accepted act registered c.ptr w.next_box w.lib
      → let lib = set_all act.set_callback registered c.ptr w.next_box w.lib in
        (act.jack_activate c.ptr lib).0 ≡ pos 0
        → (act.jack_deactivate c.ptr (act.jack_activate c.ptr lib).1).0 ≡ pos 0
        → (a : AsyncClient N P) × (v v' : World L) × (async_new api act c n p w ≡ done (ok a) v)
          × (deactivate api act a v ≡ done (ok (c, n, p)) v')
          × ((slot : Callback) → handler_of v'.lib c.ptr slot ≡ some w.next_box)
          × ((d : ℕ) (slot : Callback)
              → d ≢ c.ptr
              → handler_of v'.lib d slot ≡ handler_of w.lib d slot)
  unfolding deactivate maybe_deactivate take_down drop_async clear_callbacks
  handler_of-deactivate c n p w e hs accepted ended = (
    _,
    running act c w,
    record (running act c w) { lib = (act.jack_deactivate c.ptr (running act c w).lib).1 },
    async_new-running c n p w e accepted,
    rw ended refl,
    λ slot.
        law.deactivates c.ptr (running act c w).lib c.ptr slot ∙ running-own act law c w hs slot,
    λ d slot ne.
        law.deactivates c.ptr (running act c w).lib d slot ∙ running-others act law c w d slot ne,
  )
