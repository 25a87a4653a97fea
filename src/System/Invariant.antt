-- ===== src/System/Invariant.antt =====
-- The calls of a program, one after the other, against what is sound.
use rust_jack.Base.{◌≡◌, sym, ◌∙◌, ap, ◌+◌, refl, subst, inl, inr, ◌∷◌, ◌++◌, arith, ok}
use rust_jack.Client.{ClientApi}
use rust_jack.Client.Async.{ActivationApi}
use rust_jack.Client.Effects.{Counted}
use rust_jack.Client.Effects.Activation.{Activated, Deactivated}
use rust_jack.System.{
  System, Step, opens, opens_nothing, open_unwinds, drops, drop_unwinds, activates,
  activation_fails, deactivates, deactivation_fails, drops_active, drop_active_fails,
  drop_active_unwinds, calls, connects, connect_unwinds, registers, elsewhere, Reach, start, go_on,
}
use rust_jack.Client.Settings.Laws.{registration_keeps}
use rust_jack.Client.Serving.{Serves-client}
use rust_jack.Client.Releasing.{
  Released, connect_ports-Released, new-Released, drop_client-Released, async_new-Released,
  deactivate-Released, drop_async-Released,
}
use rust_jack.System.Counting.{
  client_count-out, active_count-out, length-out, IsFull-out, active_of, active_count-new,
  same_cell, IsFull-put,
}
use rust_jack.System.Calls.{
  new_leaves, connect_ports_leaves, drop_client_leaves, async_new_leaves, deactivate_leaves,
  drop_async_leaves,
}
use rust_jack.System.Soundness.{
  IsSound, Starts-IsSound, Kept-IsSound, Freed-IsSound, Opened-IsSound,
}

module _ {L N P : Type 0} (api : ClientApi L) (act : ActivationApi L) (law : Counted api act) where
  open law use {open_count}

  -- Every call keeps this.
  Step-IsSound :
      {s t : System L N P} → Step api act law s t → IsSound api act law s → IsSound api act law t
  Step-IsSound {s} (opens name options c status w e) h =
      Opened-IsSound api act law c status s w h (new_leaves api act law name options s.world _ e)
        (subst Released e (new-Released api name options s.world h.unheld))
  Step-IsSound {s} (opens_nothing name options x w e) h =
      Kept-IsSound api act law s (record s { world = w }) h
        (new_leaves api act law name options s.world _ e)
        (subst Released e (new-Released api name options s.world h.unheld)) (λ d. refl) refl h.full
  Step-IsSound {s} (open_unwinds name options w e) h =
      Kept-IsSound api act law s (record s { world = w }) h
        (new_leaves api act law name options s.world _ e)
        (subst Released e (new-Released api name options s.world h.unheld)) (λ d. refl) refl h.full
  Step-IsSound {s} (drops c xs ys w out e) h =
      Freed-IsSound api act law c.cell s (record s { world = w; clients = xs ++ ys }) 1 h
        (drop_client_leaves api act law c s.world _ e)
        (subst Released e (drop_client-Released api c s.world h.unheld))
        (λ d. omega (arith, client_count-out d c xs ys s.clients out))
        (omega (arith, length-out c xs ys s.clients out)) h.full
  Step-IsSound {s} (drop_unwinds c xs ys w out e) h =
      Freed-IsSound api act law c.cell s
        (record s { world = w; clients = xs ++ ys; unclosed = s.unclosed + 1 }) 0 h
        (drop_client_leaves api act law c s.world _ e)
        (subst Released e (drop_client-Released api c s.world h.unheld))
        (λ d. omega (arith, client_count-out d c xs ys s.clients out))
        (omega (arith, length-out c xs ys s.clients out)) h.full
  Step-IsSound {s} (activates c xs ys n p a w out e) h = at activated
    where
      activated : Activated api act law c s.world (ok a) w
      activated = async_new_leaves api act law c s.world n p _ e

      at :
          Activated api act law c s.world (ok a) w
          → IsSound api act law (record s { world = w; clients = xs ++ ys; active = a ∷ s.active })
      at (kept, (x, q, same)) =
          Kept-IsSound api act law s
            (record s { world = w; clients = xs ++ ys; active = a ∷ s.active }) h kept
            (subst Released e (async_new-Released api act c n p s.world h.unheld))
            (λ d. omega (
              arith,
              client_count-out d c xs ys s.clients out,
              active_count-new d a x s.active q,
              same_cell d _ _ (ap (λ k. k.cell) same),
            ))
            (omega (arith, length-out c xs ys s.clients out)) ((λ z. cc), h.full)
  Step-IsSound {s} (activation_fails c xs ys n p x w out e) h =
      Kept-IsSound api act law s (record s { world = w; clients = xs ++ ys; leaked = c ∷ s.leaked })
        h (async_new_leaves api act law c s.world n p _ e)
        (subst Released e (async_new-Released api act c n p s.world h.unheld))
        (λ d. omega (arith, client_count-out d c xs ys s.clients out))
        (omega (arith, length-out c xs ys s.clients out)) h.full
  Step-IsSound {s} (deactivates box ctx xs ys c n p w out e) h = at deactivated
    where
      deactivated : Deactivated api act law ctx s.world (ok (c, n, p)) w
      deactivated = deactivate_leaves api act law box ctx s.world _ e

      at :
          Deactivated api act law ctx s.world (ok (c, n, p)) w
          → IsSound api act law (record s { world = w; clients = c ∷ s.clients; active = xs ++ ys })
      at (kept, same) =
          Kept-IsSound api act law s
            (record s { world = w; clients = c ∷ s.clients; active = xs ++ ys }) h kept
            (subst Released e (deactivate-Released api act _ s.world h.unheld))
            (λ d. omega (
              arith,
              active_count-out d box ctx xs ys s.active out,
              same_cell d _ _ (ap (λ k. k.cell) same),
            ))
            (omega (arith, length-out (active_of box ctx) xs ys s.active out))
            (IsFull-out (active_of box ctx) xs ys s.active out h.full)
  Step-IsSound {s} (deactivation_fails box ctx xs ys x w out e) h =
      Kept-IsSound api act law s
        (record s { world = w; leaked = ctx.client ∷ s.leaked; active = xs ++ ys }) h
        (deactivate_leaves api act law box ctx s.world _ e)
        (subst Released e (deactivate-Released api act _ s.world h.unheld))
        (λ d. omega (arith, active_count-out d box ctx xs ys s.active out))
        (omega (arith, length-out (active_of box ctx) xs ys s.active out))
        (IsFull-out (active_of box ctx) xs ys s.active out h.full)
  Step-IsSound {s} (drops_active box ctx xs ys w out e r) h =
      Freed-IsSound api act law ctx.client.cell s (record s { world = w; active = xs ++ ys }) 1 h
        (elim (drop_async_leaves api act law box ctx s.world _ e) [
          | inl q ↦ q.1
          | inr q ↦ absurd (q.0 r)
        ])
        (subst Released e (drop_async-Released api act _ s.world h.unheld))
        (λ d. omega (arith, active_count-out d box ctx xs ys s.active out))
        (omega (arith, length-out (active_of box ctx) xs ys s.active out))
        (IsFull-out (active_of box ctx) xs ys s.active out h.full)
  Step-IsSound {s} (drop_active_fails box ctx xs ys w out e r) h =
      Kept-IsSound api act law s
        (record s { world = w; leaked = ctx.client ∷ s.leaked; active = xs ++ ys }) h
        (elim (drop_async_leaves api act law box ctx s.world _ e) [
          | inl q ↦ absurd (r q.0)
          | inr q ↦ q.1
        ])
        (subst Released e (drop_async-Released api act _ s.world h.unheld))
        (λ d. omega (arith, active_count-out d box ctx xs ys s.active out))
        (omega (arith, length-out (active_of box ctx) xs ys s.active out))
        (IsFull-out (active_of box ctx) xs ys s.active out h.full)
  Step-IsSound {s} (drop_active_unwinds box ctx xs ys w out e) h =
      Freed-IsSound api act law ctx.client.cell s
        (record s { world = w; active = xs ++ ys; unclosed = s.unclosed + 1 }) 0 h
        (drop_async_leaves api act law box ctx s.world _ e)
        (subst Released e (drop_async-Released api act _ s.world h.unheld))
        (λ d. omega (arith, active_count-out d box ctx xs ys s.active out))
        (omega (arith, length-out (active_of box ctx) xs ys s.active out))
        (IsFull-out (active_of box ctx) xs ys s.active out h.full)
  Step-IsSound {s} (calls nh ph utf8 bits slot box ctx ctx' xs ys out served) h =
      Kept-IsSound api act law s (record s { active = xs ++ (active_of box ctx' ∷ ys) }) h
        (λ d. refl, refl, refl) h.unheld
        (λ d. omega (
          arith,
          active_count-out d box ctx xs ys s.active out,
          active_count-out d box ctx' xs ys (xs ++ (active_of box ctx' ∷ ys)) refl,
          same_cell d _ _ (ap (λ k. k.cell) (Serves-client nh ph utf8 bits served)),
        ))
        (omega (
          arith,
          length-out (active_of box ctx) xs ys s.active out,
          length-out (active_of box ctx') xs ys (xs ++ (active_of box ctx' ∷ ys)) refl,
        ))
        (IsFull-put box ctx' xs ys (IsFull-out (active_of box ctx) xs ys s.active out h.full))
  Step-IsSound {s} (connects ports utf8 c p q r w e) h =
      Kept-IsSound api act law s (record s { world = w }) h
        (connect_ports_leaves api act law ports utf8 c p q s.world _ e)
        (subst Released e (connect_ports-Released api ports utf8 c p q s.world h.unheld))
        (λ d. refl) refl h.full
  Step-IsSound {s} (connect_unwinds ports utf8 c p q w e) h =
      Kept-IsSound api act law s (record s { world = w }) h
        (connect_ports_leaves api act law ports utf8 c p q s.world _ e)
        (subst Released e (connect_ports-Released api ports utf8 c p q s.world h.unheld))
        (λ d. refl) refl h.full
  Step-IsSound {s} (registers settings c c' r xs ys w out e opened) h =
      Kept-IsSound api act law s (record s { world = w; clients = xs ++ (c' ∷ ys) }) h
        (λ d. ap (λ f. f d) keeps.1, keeps.2, opened) (λ k. h.unheld (sym keeps.3 ∙ k))
        (λ d. omega (
          arith,
          client_count-out d c xs ys s.clients out,
          client_count-out d c' xs ys (xs ++ (c' ∷ ys)) refl,
          same_cell d c' c keeps.0,
        ))
        (omega
          (arith, length-out c xs ys s.clients out, length-out c' xs ys (xs ++ (c' ∷ ys)) refl))
        h.full
    where
      keeps :
          (c'.cell ≡ c.cell)
          × (w.lives ≡ s.world.lives)
          × (w.next_cell ≡ s.world.next_cell)
          × (w.mutex ≡ s.world.mutex)
      keeps = registration_keeps settings c c' r s.world w e
  Step-IsSound {s} (elsewhere l e) h =
      Kept-IsSound api act law s (record s { world = record s.world { lib = l } }) h
        (λ d. refl, refl, e) h.unheld (λ d. refl) refl h.full

  -- Over a library that counts its open clients (`Counted`), in every state that a program can reach
  -- by opening, dropping, activating and deactivating clients, connecting ports and giving clients a
  -- handler of property changes, with the server's calls of the registered functions and any calls
  -- that open and close nothing in between: the global lock is not held, every life cell has as many
  -- holders as clients own it, which is one at most, cells not handed out yet have none, every
  -- active client has its context, and the server has as many clients open as the program has plain
  -- clients, active ones, ones that a refused activation or deactivation leaked and ones whose drop
  -- unwound.
  pub Reach-IsSound : {s : System L N P} → Reach api act law s → IsSound api act law s
  Reach-IsSound (start h) = Starts-IsSound api act law _ h
  Reach-IsSound (go_on r step) = Step-IsSound step (Reach-IsSound r)
