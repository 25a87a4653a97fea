-- ===== src/Client/Settings/Laws.antt =====
-- How the handler of property changes is registered.
use rust_jack.Base.{
  arith, Bool, true, ◌+◌, zero, suc, ◌≡◌, refl, ◌↔◌, true, false, ℤ, pos, negsuc, Result, ok,
  returns, panics,
}
use rust_jack.Enums.{Error, unknown_error}
use rust_jack.Port.{status}
use rust_jack.Client.{Client}
use rust_jack.Client.State.{World}
use rust_jack.Client.Settings.{SettingsApi, register_property_change_handler}

module _ {L F : Type 0} (api : SettingsApi L F) where
  open api use {jack_set_property_change_callback}

  status-ok_iff : (code : ℤ) (e : Error) → (status code e ≡ ok tt) ↔ (code ≡ pos 0)
  status-ok_iff (pos zero) e = (λ h. refl, λ h. refl)
  status-ok_iff (pos (suc n)) e = (λ h. cc, λ h. cc)
  status-ok_iff (negsuc n) e = (λ h. cc, λ h. cc)

  -- Registering a handler of property changes with a client that has none gives `Ok` exactly if the
  -- library accepts it; the client keeps its pointer and its life cell, and every later registration
  -- panics, also one that repeats a registration that the library refused.
  pub register_once :
      (c : Client) (w : World L)
      → c.has_handler ≡ false
      → (r : Result (Unit {0}) Error) × (c' : Client) × (v : World L)
        × (register_property_change_handler api c w ≡ returns (r, c', v))
        × ((r ≡ ok tt) ↔ ((jack_set_property_change_callback c.ptr w.next_box w.lib).0 ≡ pos 0))
        × (c'.ptr ≡ c.ptr)
        × (c'.cell ≡ c.cell)
        × ((u : World L) → register_property_change_handler api c' u ≡ panics)
  unfolding register_property_change_handler
  register_once c w none_yet = (
    status (jack_set_property_change_callback c.ptr w.next_box w.lib).0 unknown_error,
    record c { has_handler = true },
    record w {
      next_box = w.next_box + 1;
      lib = (jack_set_property_change_callback c.ptr w.next_box w.lib).1;
    },
    rw none_yet refl,
    status-ok_iff (jack_set_property_change_callback c.ptr w.next_box w.lib).0 unknown_error,
    refl,
    refl,
    λ u. refl,
  )

  -- What a registration that returns leaves as it was.
  pub registration_keeps :
      (c c' : Client) (r : Result (Unit {0}) Error) (w v : World L)
      → register_property_change_handler api c w ≡ returns (r, c', v)
      → (c'.cell ≡ c.cell) × (v.lives ≡ w.lives) × (v.next_cell ≡ w.next_cell) × (v.mutex ≡ w.mutex)
  unfolding register_property_change_handler
  registration_keeps c c' r w v e = at c.has_handler refl
    where
      at :
          (b : Bool)
          → c.has_handler ≡ b
          → (c'.cell ≡ c.cell)
            × (v.lives ≡ w.lives)
            × (v.next_cell ≡ w.next_cell)
            × (v.mutex ≡ w.mutex)
      at true h = ground (arith, e, h)
      at false h = ground (arith, e, h)
