-- ===== src/Client/Tests.antt =====
-- Clients at concrete values: the lock, activation and closing.
use rust_jack.Base.{ℕ, ◌≡◌, refl, ◌≢◌, [], ◌∷◌, pos, negsuc, ok, err}
use rust_jack.Enums.{ClientStatus, client_activation_error, client_deactivation_error}
use rust_jack.Strings.{codes}
use rust_jack.Client.{Client, new, drop_client}
use rust_jack.Client.Ports.{connect_ports}
use rust_jack.Client.State.{free, poisoned, World, done, unwound, aborted, release_life}
use rust_jack.Client.Callbacks.{register_callbacks}
use rust_jack.Client.Async.{AsyncClient, async_new, deactivate, drop_async}
use rust_jack.Client.Locking.{new_nul_poisons, poisoned_for_good}
use rust_jack.Client.Releasing.{Released, never_held}
use rust_jack.Client.Lifecycle.{
  drop_client-new, refused_activation_leaks, refused_deactivation_leaks, deactivate-async_new,
  drop_async_closes,
}
use rust_jack.Client.Samples.{lib, activating, port_lib, utf8, world, client, port, context, active}

new_nul_poisons_example :
    new lib (1 ∷ 0 ∷ 2 ∷ []) 0 (world free) ≡ unwound (record (world free) { mutex = poisoned })
new_nul_poisons_example = new_nul_poisons lib (1 ∷ 0 ∷ 2 ∷ []) 0 (world free) refl refl

poisoned_for_good_example :
    (new lib [] 0 (world poisoned) ≡ unwound (world poisoned))
    × (drop_client lib client (world poisoned) ≡ unwound (release_life 3 (world poisoned)))
    × (async_new {N = ℕ} {P = ℕ} lib (activating (pos 0) (pos 0)) client 5 0 (world poisoned)
        ≡ aborted)
    × (deactivate lib (activating (pos 0) (pos 0)) active (world poisoned) ≡ aborted)
poisoned_for_good_example =
    poisoned_for_good lib (activating (pos 0) (pos 0)) [] 0 client 5 0 active (world poisoned) refl

never_held_example :
    Released (new lib [] 0 (world free))
    × Released (drop_client lib client (world free))
    × Released (connect_ports lib port_lib utf8 client (port 3) (port 3) (world free))
    × Released (async_new {N = ℕ} {P = ℕ} lib (activating (pos 0) (pos 0)) client 5 0 (world free))
    × Released (drop_async lib (activating (pos 0) (pos 0)) active (world free))
    × Released (deactivate lib (activating (pos 0) (pos 0)) active (world free))
never_held_example =
    never_held lib (activating (pos 0) (pos 0)) port_lib utf8 [] 0 client (port 3) (port 3) 5 0
      active (world free) (λ e. cc)

drop_client-new_example :
    (c : Client) × (status : ClientStatus) × (v v' : World ℕ) × (new lib (codes "a") 0 (world free)
      ≡ done (ok (c, status)) v)
    × (drop_client lib c v ≡ done tt v')
    × (c.cell ≡ 4)
    × (v.lives c.cell ≡ 1)
    × (v'.lives c.cell ≡ 0)
    × ((d : ℕ) → d ≢ c.cell → v'.lives d ≡ (world free).lives d)
    × (v'.mutex ≡ free)
    × (v'.lib ≡ 1)
drop_client-new_example = drop_client-new lib (codes "a") 0 (world free) refl refl (λ e. cc) refl

refused_activation_leaks_example :
    (v : World ℕ) × (async_new {N = ℕ} {P = ℕ} lib
        (activating (negsuc 0) (pos 0))
        client
        5
        0
        (world free)
      ≡ done (err client_activation_error) v)
    × ((d : ℕ) → v.lives d ≡ (world free).lives d)
    × (v.lib ≡ 1)
    × (v.mutex ≡ free)
unfolding register_callbacks
refused_activation_leaks_example =
    refused_activation_leaks lib (activating (negsuc 0) (pos 0)) client 5 0 (world free) refl
      (λ e. cc)

refused_deactivation_leaks_example :
    (v : World ℕ) × (deactivate lib (activating (pos 0) (negsuc 0)) active (world free)
      ≡ done (err client_deactivation_error) v)
    × ((d : ℕ) → v.lives d ≡ (world free).lives d)
    × (v.lib ≡ 1)
    × (v.mutex ≡ free)
refused_deactivation_leaks_example =
    refused_deactivation_leaks lib (activating (pos 0) (negsuc 0)) 100 context (world free) refl
      (λ e. cc)

deactivate-async_new_example :
    (a : AsyncClient ℕ ℕ) × (v v' : World ℕ) × (async_new lib
        (activating (pos 0) (pos 0))
        client
        5
        0
        (world free)
      ≡ done (ok a) v)
    × (deactivate lib (activating (pos 0) (pos 0)) a v ≡ done (ok (client, 5, 0)) v')
    × ((d : ℕ) → v'.lives d ≡ (world free).lives d)
    × (v'.lib ≡ 1)
    × (v'.mutex ≡ free)
unfolding register_callbacks
deactivate-async_new_example =
    deactivate-async_new lib (activating (pos 0) (pos 0)) client 5 0 (world free) refl refl refl

drop_async_closes_example :
    (v : World ℕ) × (drop_async lib (activating (pos 0) (pos 0)) active (world free) ≡ done tt v)
    × (v.lib ≡ 0)
    × (v.lives 3 ≡ 0)
    × ((d : ℕ) → d ≢ 3 → v.lives d ≡ (world free).lives d)
    × (v.mutex ≡ free)
drop_async_closes_example =
    drop_async_closes lib (activating (pos 0) (pos 0)) 100 context (world free) refl refl refl
