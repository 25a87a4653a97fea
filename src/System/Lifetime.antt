-- ===== src/System/Lifetime.antt =====
-- Life cells are handed out once: what the calls of a program do to one that was handed out.
use rust_jack.Base.{ap, ℕ, ◌≤◌, ◌<◌, ◌≡◌, refl, ◌≢◌, ◌↔◌, inl, inr, arith, ok, err}
use rust_jack.Enums.{ClientStatus, client_is_no_longer_alive}
use rust_jack.Port.{Port, check_client_life}
use rust_jack.Client.{Client, ClientApi}
use rust_jack.Client.State.{World}
use rust_jack.Client.Async.{ActivationApi}
use rust_jack.Client.Effects.{Counted, Kept, Freed, Opened}
use rust_jack.Client.Settings.Laws.{registration_keeps}
use rust_jack.System.{
  System, Step, opens, opens_nothing, open_unwinds, drops, drop_unwinds, activates,
  activation_fails, deactivates, deactivation_fails, drops_active, drop_active_fails,
  drop_active_unwinds, calls, connects, connect_unwinds, registers, elsewhere, Reach, go_on,
}
use rust_jack.System.Counting.{owners}
use rust_jack.System.Calls.{
  new_leaves, connect_ports_leaves, drop_client_leaves, async_new_leaves, deactivate_leaves,
  drop_async_leaves,
}
use rust_jack.System.Invariant.{Reach-IsSound}

module _ {L : Type 0} where
  -- No cell that was handed out gets another holder.
  abbrev pub Older : World L → World L → Type 0
  Older w v = (w.next_cell ≤ v.next_cell) × ((d : ℕ) → d < w.next_cell → v.lives d ≤ w.lives d)

module _ {L : Type 0} (api : ClientApi L) (act : ActivationApi L) (law : Counted api act) where
  Kept-Older : (w v : World L) → Kept api act law w v → Older w v
  Kept-Older w v (lives, cells, opened) = (omega (arith, cells), λ d k. omega (arith, lives d))

  Freed-Older : (c n : ℕ) (w v : World L) → Freed api act law c w v n → Older w v
  Freed-Older c n w v (lives, cells, opened) =
      (omega (arith, cells), λ d k. ground (arith, lives d))

  Opened-Older :
      (c : Client) (status : ClientStatus) (w v : World L)
      → Opened api act law w (ok (c, status)) v
      → Older w v
  Opened-Older c status w v (cell, lives, cells, opened) =
      (omega (arith, cells), λ d k. ground (arith, lives d))

module _ {L N P : Type 0} (api : ClientApi L) (act : ActivationApi L) (law : Counted api act) where
  Step-Older : {s t : System L N P} → Step api act law s t → Older s.world t.world
  Step-Older {s} (opens name options c status w e) =
      Opened-Older api act law c status s.world w (new_leaves api act law name options s.world _ e)
  Step-Older {s} (opens_nothing name options x w e) =
      Kept-Older api act law s.world w (new_leaves api act law name options s.world _ e)
  Step-Older {s} (open_unwinds name options w e) =
      Kept-Older api act law s.world w (new_leaves api act law name options s.world _ e)
  Step-Older {s} (drops c xs ys w out e) =
      Freed-Older api act law c.cell 1 s.world w (drop_client_leaves api act law c s.world _ e)
  Step-Older {s} (drop_unwinds c xs ys w out e) =
      Freed-Older api act law c.cell 0 s.world w (drop_client_leaves api act law c s.world _ e)
  Step-Older {s} (activates c xs ys n p a w out e) =
      Kept-Older api act law s.world w (async_new_leaves api act law c s.world n p _ e).0
  Step-Older {s} (activation_fails c xs ys n p x w out e) =
      Kept-Older api act law s.world w (async_new_leaves api act law c s.world n p _ e)
  Step-Older {s} (deactivates box ctx xs ys c n p w out e) =
      Kept-Older api act law s.world w (deactivate_leaves api act law box ctx s.world _ e).0
  Step-Older {s} (deactivation_fails box ctx xs ys x w out e) =
      Kept-Older api act law s.world w (deactivate_leaves api act law box ctx s.world _ e)
  Step-Older {s} (drops_active box ctx xs ys w out e r) =
      elim (drop_async_leaves api act law box ctx s.world _ e) [
        | inl q ↦ Freed-Older api act law ctx.client.cell 1 s.world w q.1
        | inr q ↦ Kept-Older api act law s.world w q.1
      ]
  Step-Older {s} (drop_active_fails box ctx xs ys w out e r) =
      elim (drop_async_leaves api act law box ctx s.world _ e) [
        | inl q ↦ Freed-Older api act law ctx.client.cell 1 s.world w q.1
        | inr q ↦ Kept-Older api act law s.world w q.1
      ]
  Step-Older {s} (drop_active_unwinds box ctx xs ys w out e) =
      Freed-Older api act law ctx.client.cell 0 s.world w
        (drop_async_leaves api act law box ctx s.world _ e)
  Step-Older {s} (calls nh ph utf8 bits slot box ctx ctx' xs ys out served) =
      Kept-Older api act law s.world s.world (λ d. refl, refl, refl)
  Step-Older {s} (connects ports utf8 c p q r w e) =
      Kept-Older api act law s.world w
        (connect_ports_leaves api act law ports utf8 c p q s.world _ e)
  Step-Older {s} (connect_unwinds ports utf8 c p q w e) =
      Kept-Older api act law s.world w
        (connect_ports_leaves api act law ports utf8 c p q s.world _ e)
  Step-Older {s} (registers settings c c' r xs ys w out e opened) =
      let keeps = registration_keeps settings c c' r s.world w e in
      Kept-Older api act law s.world w (λ d. ap (λ f. f d) keeps.1, keeps.2, opened)
  Step-Older {s} (elsewhere l e) =
      Kept-Older api act law s.world (record s.world { lib = l }) (λ d. refl, refl, e)

  -- Any number of calls.
  pub data Steps (s : System L N P) : System L N P → Type 0 where
    stay : Steps s s
    more : {t u : System L N P} → Steps s t → Step api act law t u → Steps s u

  pub Steps-Older : {s t : System L N P} → Steps s t → Older s.world t.world
  Steps-Older {s} stay = (omega arith, λ d k. omega arith)
  Steps-Older (more steps step) =
      let before = Steps-Older steps in
      let after = Step-Older step in
      (
        omega (arith, before.0, after.0),
        λ d k. omega (arith, before.0, before.1 d k, after.1 d (omega (arith, before.0))),
      )

  Reach-Steps : {s t : System L N P} → Reach api act law s → Steps s t → Reach api act law t
  Reach-Steps r stay = r
  Reach-Steps r (more steps step) = go_on (Reach-Steps r steps) step

  -- Over a library that counts its open clients (`Counted`), for a port in a state that a program
  -- can reach: `check_client_life` lets its calls through exactly if some client of the program,
  -- plain, active or leaked, owns the life cell that the port was made with.
  pub check_client_life_iff :
      {s : System L N P} (p : Port)
      → Reach api act law s
      → (check_client_life s.world.lives p ≡ ok tt) ↔ (owners p.client_life.cell s ≢ 0)
  unfolding check_client_life
  check_client_life_iff {s} p r = (
    λ e z. ground (arith, e, z, (Reach-IsSound api act law r).counted p.client_life.cell),
    λ k. ground (arith, k, (Reach-IsSound api act law r).counted p.client_life.cell),
  )

  -- Over such a library, for a port of a life cell that was handed out, in a state that a program
  -- can reach in which no client owns that cell any more: `check_client_life` gives
  -- `ClientIsNoLongerAlive` in this state and every later one, whatever clients are opened in
  -- between.
  pub gone_for_good :
      {s t : System L N P} (p : Port)
      → Reach api act law s
      → p.client_life.cell < s.world.next_cell
      → owners p.client_life.cell s ≡ 0
      → Steps s t
      → check_client_life t.world.lives p ≡ err client_is_no_longer_alive
  unfolding check_client_life
  gone_for_good {s} {t} p r issued gone steps = ground (
    arith,
    (Reach-IsSound api act law r).counted p.client_life.cell,
    gone,
    (Steps-Older steps).1 p.client_life.cell issued,
  )
