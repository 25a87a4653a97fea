-- ===== src/System/Dropped.antt =====
-- What belongs to a client of a program, before and after the client is dropped: ports and transport.
use rust_jack.Base.{ℕ, ◌<◌, ◌≡◌, refl, List, ◌∷◌, ◌++◌, arith, ok, err}
use rust_jack.Enums.{Str, client_is_no_longer_alive}
use rust_jack.Port.{Port, PortSpec, check_client_life}
use rust_jack.Transport.Position.{JackPosition}
use rust_jack.Transport.Control.{TransportApi, with_client}
use rust_jack.Client.{Client, ClientApi, drop_client, transport}
use rust_jack.Client.Ports.{register_port, register_with}
use rust_jack.Client.State.{World, done}
use rust_jack.Client.Async.{ActivationApi}
use rust_jack.Client.Effects.{Counted, Freed}
use rust_jack.System.Calls.{drop_client_leaves}
use rust_jack.System.{System, Reach}
use rust_jack.System.Counting.{client_count-out}
use rust_jack.System.Invariant.{Reach-IsSound}
use rust_jack.System.Lifetime.{Steps, Steps-Older}

module _ {L : Type 0} (api : ClientApi L) where
  registered_cell :
      (c : Client) (name : Str) (spec : PortSpec) (v v' : World L) (p : Port)
      → register_port api c name spec v ≡ done (ok p) v'
      → p.client_life.cell ≡ c.cell
  unfolding register_port register_with
  registered_cell c name spec v v' p e = ground (arith, e)

module _ {L N P : Type 0} (api : ClientApi L) (act : ActivationApi L) (law : Counted api act) where
  -- A client that the program owns has the one holder of its cell, which was handed out.
  owned_cell :
      {s : System L N P} (c : Client) (xs ys : List Client)
      → Reach api act law s
      → s.clients ≡ xs ++ (c ∷ ys)
      → (s.world.lives c.cell ≡ 1) × (c.cell < s.world.next_cell)
  owned_cell {s} c xs ys r out =
      let sound = Reach-IsSound api act law r in
      let one = client_count-out c.cell c xs ys s.clients out in
      (
        ground (arith, sound.counted c.cell, sound.single c.cell, one),
        ground (arith, sound.counted c.cell, sound.fresh c.cell, one),
      )

  -- Dropping it leaves its cell without a holder, for good.
  gone :
      {s u : System L N P} (c : Client) (xs ys : List Client) (w : World L)
      → Reach api act law s
      → s.clients ≡ xs ++ (c ∷ ys)
      → drop_client api c s.world ≡ done tt w
      → Steps api act law (record s { world = w; clients = xs ++ ys }) u
      → u.world.lives c.cell ≡ 0
  gone {s} {u} c xs ys w r out dropped steps =
      at (drop_client_leaves api act law c s.world _ dropped)
    where
      at : Freed api act law c.cell s.world w 1 → u.world.lives c.cell ≡ 0
      at (lives, cells, opened) =
          let owned = owned_cell c xs ys r out in
          ground
            (arith, lives c.cell, cells, owned.0, owned.1, (Steps-Older api act law steps).1 c.cell)

  -- Over a library that counts its open clients (`Counted`): for a client that the program owns in a
  -- state that it can reach, a port that was registered with it in whatever state, and its
  -- transport, the port's `check_client_life` and the transport's `with_client` let calls through in
  -- this state; once a drop of the client has returned, both give `ClientIsNoLongerAlive` in every
  -- later state, the latter without running its function.
  pub drop_client-register_port :
      {F32 F64 W R : Type 0} {s u : System L N P} (control : TransportApi F32 F64 W)
      (zeroed : JackPosition F32 F64) (func : ℕ → W → R × W) (l : W) (c : Client)
      (xs ys : List Client) (name : Str) (spec : PortSpec) (v v' w : World L) (p : Port)
      → Reach api act law s
      → s.clients ≡ xs ++ (c ∷ ys)
      → register_port api c name spec v ≡ done (ok p) v'
      → drop_client api c s.world ≡ done tt w
      → Steps api act law (record s { world = w; clients = xs ++ ys }) u
      → (check_client_life s.world.lives p ≡ ok tt)
        × ((with_client control zeroed s.world.lives (transport api c) func l).0
            ≡ ok (func c.ptr l).0)
        × (check_client_life u.world.lives p ≡ err client_is_no_longer_alive)
        × (with_client control zeroed u.world.lives (transport api c) func l
            ≡ (err client_is_no_longer_alive, l))
  unfolding check_client_life with_client transport
  drop_client-register_port control zeroed func l c xs ys name spec v v' w p r out registered
        dropped steps =
      let same = registered_cell api c name spec v v' p registered in
      let alive = (owned_cell c xs ys r out).0 in
      let dead = gone c xs ys w r out dropped steps in
      (
        ground (arith, same, alive),
        rw (with_client, transport, alive) refl,
        ground (arith, same, dead),
        rw (with_client, transport, dead) refl,
      )
