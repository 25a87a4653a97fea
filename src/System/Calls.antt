-- ===== src/System/Calls.antt =====
-- The effect of a call on the world, from the way the call ended.
use rust_jack.Base.{ℕ, ◌≡◌, subst, Result}
use rust_jack.Enums.{Str, Error, ClientStatus}
use rust_jack.Strings.{Utf8}
use rust_jack.Port.{Port, PortApi}
use rust_jack.Client.Ports.{connect_ports}
use rust_jack.Client.Effects.Connecting.{connect_ports-Effect}
use rust_jack.Client.{Client, ClientApi, new, drop_client}
use rust_jack.Client.State.{World, Outcome}
use rust_jack.Client.Callbacks.{CallbackContext}
use rust_jack.Client.Async.{ActivationApi, AsyncClient, async_new, deactivate, drop_async}
use rust_jack.Client.Effects.{Effect, Counted, Kept, Freed, Opened, new-Effect, drop_client-Effect}
use rust_jack.Client.Effects.Activation.{
  Activated, Deactivated, async_new-Effect, deactivate-Effect,
}
use rust_jack.Client.Effects.Dropping.{DroppedActive, drop_async-Effect}
use rust_jack.System.Counting.{active_of}

module _ {L : Type 0} (api : ClientApi L) (act : ActivationApi L) (law : Counted api act) where
  open law use {open_count}

  module _ (name : Str) (options : ℕ) (before : World L) where
    pub new_leaves :
        (o : Outcome L (Result (Client × ClientStatus) Error))
        → new api name options before ≡ o
        → Effect (Opened api act law before) (Kept api act law before) o
    new_leaves o e =
        subst (Effect (Opened api act law before) (Kept api act law before)) e
          (new-Effect api act law name options before)

  module _ (ports : PortApi L) (utf8 : Utf8) (c : Client) (p q : Port) (before : World L) where
    pub connect_ports_leaves :
        (o : Outcome L (Result (Unit {0}) Error))
        → connect_ports api ports utf8 c p q before ≡ o
        → Effect (λ _ v. Kept api act law before v) (Kept api act law before) o
    connect_ports_leaves o e =
        subst (Effect (λ _ v. Kept api act law before v) (Kept api act law before)) e
          (connect_ports-Effect api act law ports utf8 c p q before)

  module _ (c : Client) (before : World L) where
    pub drop_client_leaves :
        (o : Outcome L (Unit {0}))
        → drop_client api c before ≡ o
        → Effect
            (λ _ v. Freed api act law c.cell before v 1)
            (λ v. Freed api act law c.cell before v 0)
            o
    drop_client_leaves o e =
        subst
          (Effect (λ _ v. Freed api act law c.cell before v 1)
            (λ v. Freed api act law c.cell before v 0))
          e (drop_client-Effect api act law c before)

module _ {L N P : Type 0} (api : ClientApi L) (act : ActivationApi L) (law : Counted api act) where
  open law use {open_count}

  module _ (c : Client) (before : World L) where
    pub async_new_leaves :
        (n : N) (p : P) (o : Outcome L (Result (AsyncClient N P) Error))
        → async_new api act c n p before ≡ o
        → Effect (Activated api act law c before) (λ _. ⊥) o
    async_new_leaves n p o e =
        subst (Effect (Activated api act law c before) (λ _. ⊥)) e
          (async_new-Effect api act law c n p before)

  module _ (box : ℕ) (ctx : CallbackContext N P) (before : World L) where
    pub deactivate_leaves :
        (o : Outcome L (Result (Client × N × P) Error))
        → deactivate api act (active_of box ctx) before ≡ o
        → Effect (Deactivated api act law ctx before) (λ _. ⊥) o
    deactivate_leaves o e =
        subst (Effect (Deactivated api act law ctx before) (λ _. ⊥)) e
          (deactivate-Effect api act law box ctx before)

    pub drop_async_leaves :
        (o : Outcome L (Unit {0}))
        → drop_async api act (active_of box ctx) before ≡ o
        → Effect
            (λ _ v. DroppedActive api act law ctx before v)
            (λ v. Freed api act law ctx.client.cell before v 0)
            o
    drop_async_leaves o e =
        subst
          (Effect (λ _ v. DroppedActive api act law ctx before v)
            (λ v. Freed api act law ctx.client.cell before v 0))
          e (drop_async-Effect api act law box ctx before)
