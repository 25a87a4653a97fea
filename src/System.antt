-- ===== src/System.antt =====
-- A whole program that uses the crate: the clients that it owns, and the calls that it may make.
pub mod Counting
pub mod Calls
pub mod Soundness
pub mod Invariant
pub mod Lifetime
pub mod Dropped
mod Tests
use rust_jack.Base.{
  returns, Option, Result, ℕ, ◌+◌, ◌≡◌, ◌≢◌, some, List, [], ◌∷◌, ◌++◌, pos, ok, err,
}
use rust_jack.Enums.{Str, Error, ClientStatus}
use rust_jack.Strings.{Utf8}
use rust_jack.Port.{Port, PortApi}
use rust_jack.Client.Ports.{connect_ports}
use rust_jack.Client.{Client, ClientApi, new, drop_client}
use rust_jack.Client.State.{free, World, done, unwound}
use rust_jack.Client.Callbacks.{Callback, NotificationHandler, ProcessHandler, CallbackContext}
use rust_jack.Client.Serving.{Serves}
use rust_jack.Client.Settings.{SettingsApi, register_property_change_handler}
use rust_jack.Client.Async.{ActivationApi, AsyncClient, async_new, deactivate, drop_async}
use rust_jack.Client.Effects.{Counted}

-- The state of the process, the clients that are open and not active, the active ones, those whose
-- activation or deactivation the library refused, which nothing owns any more, and how many were
-- dropped without being closed.
pub record System (L N P : Type 0) : Type 0 where
  pub world : World L
  pub clients : List Client
  pub active : List (AsyncClient N P)
  pub leaked : List Client
  pub unclosed : ℕ

module _ {L N P : Type 0} (api : ClientApi L) (act : ActivationApi L) (law : Counted api act) where
  open law use {open_count}

  -- One call of the program, however it ends but for an abort, or one of the library's. Rust's
  -- ownership is in the lists: a call that takes a client takes it out of its list.
  pub data Step (s : System L N P) : System L N P → Type 0 where
    opens :
        (name : Str) (options : ℕ) (c : Client) (status : ClientStatus) (w : World L)
        → new api name options s.world ≡ done (ok (c, status)) w
        → Step s (record s { world = w; clients = c ∷ s.clients })
    opens_nothing :
        (name : Str) (options : ℕ) (e : Error) (w : World L)
        → new api name options s.world ≡ done (err e) w
        → Step s (record s { world = w })
    open_unwinds :
        (name : Str) (options : ℕ) (w : World L)
        → new api name options s.world ≡ unwound w
        → Step s (record s { world = w })
    drops :
        (c : Client) (xs ys : List Client) (w : World L)
        → s.clients ≡ xs ++ (c ∷ ys)
        → drop_client api c s.world ≡ done tt w
        → Step s (record s { world = w; clients = xs ++ ys })
    drop_unwinds :
        (c : Client) (xs ys : List Client) (w : World L)
        → s.clients ≡ xs ++ (c ∷ ys)
        → drop_client api c s.world ≡ unwound w
        → Step s (record s { world = w; clients = xs ++ ys; unclosed = s.unclosed + 1 })
    activates :
        (c : Client) (xs ys : List Client) (n : N) (p : P) (a : AsyncClient N P) (w : World L)
        → s.clients ≡ xs ++ (c ∷ ys)
        → async_new api act c n p s.world ≡ done (ok a) w
        → Step s (record s { world = w; clients = xs ++ ys; active = a ∷ s.active })
    activation_fails :
        (c : Client) (xs ys : List Client) (n : N) (p : P) (e : Error) (w : World L)
        → s.clients ≡ xs ++ (c ∷ ys)
        → async_new api act c n p s.world ≡ done (err e) w
        → Step s (record s { world = w; clients = xs ++ ys; leaked = c ∷ s.leaked })
    deactivates :
        (box : ℕ) (ctx : CallbackContext N P) (xs ys : List (AsyncClient N P)) (c : Client) (n : N)
        (p : P) (w : World L)
        → s.active ≡ xs ++ (record { callback = some (box, ctx) } ∷ ys)
        → deactivate api act (record { callback = some (box, ctx) }) s.world ≡ done (ok (c, n, p)) w
        → Step s (record s { world = w; clients = c ∷ s.clients; active = xs ++ ys })
    deactivation_fails :
        (box : ℕ) (ctx : CallbackContext N P) (xs ys : List (AsyncClient N P)) (e : Error)
        (w : World L)
        → s.active ≡ xs ++ (record { callback = some (box, ctx) } ∷ ys)
        → deactivate api act (record { callback = some (box, ctx) }) s.world ≡ done (err e) w
        → Step s (record s { world = w; leaked = ctx.client ∷ s.leaked; active = xs ++ ys })
    drops_active :
        (box : ℕ) (ctx : CallbackContext N P) (xs ys : List (AsyncClient N P)) (w : World L)
        → s.active ≡ xs ++ (record { callback = some (box, ctx) } ∷ ys)
        → drop_async api act (record { callback = some (box, ctx) }) s.world ≡ done tt w
        → (act.jack_deactivate ctx.client.ptr s.world.lib).0 ≡ pos 0
        → Step s (record s { world = w; active = xs ++ ys })
    drop_active_fails :
        (box : ℕ) (ctx : CallbackContext N P) (xs ys : List (AsyncClient N P)) (w : World L)
        → s.active ≡ xs ++ (record { callback = some (box, ctx) } ∷ ys)
        → drop_async api act (record { callback = some (box, ctx) }) s.world ≡ done tt w
        → (act.jack_deactivate ctx.client.ptr s.world.lib).0 ≢ pos 0
        → Step s (record s { world = w; leaked = ctx.client ∷ s.leaked; active = xs ++ ys })
    drop_active_unwinds :
        (box : ℕ) (ctx : CallbackContext N P) (xs ys : List (AsyncClient N P)) (w : World L)
        → s.active ≡ xs ++ (record { callback = some (box, ctx) } ∷ ys)
        → drop_async api act (record { callback = some (box, ctx) }) s.world ≡ unwound w
        → Step s (record s { world = w; active = xs ++ ys; unclosed = s.unclosed + 1 })
    -- The server calls a function that was registered for an active client, and it returns.
    calls :
        (nh : NotificationHandler N) (ph : ProcessHandler P) (utf8 : Utf8)
        (status_from_bits : ℕ → Option ClientStatus) (slot : Callback) (box : ℕ)
        (ctx ctx' : CallbackContext N P) (xs ys : List (AsyncClient N P))
        → s.active ≡ xs ++ (record { callback = some (box, ctx) } ∷ ys)
        → Serves nh ph utf8 status_from_bits ctx slot ctx'
        → Step s (record s { active = xs ++ (record { callback = some (box, ctx') } ∷ ys) })
    connects :
        (ports : PortApi L) (utf8 : Utf8) (c : Client) (p q : Port) (r : Result (Unit {0}) Error)
        (w : World L)
        → connect_ports api ports utf8 c p q s.world ≡ done r w
        → Step s (record s { world = w })
    connect_unwinds :
        (ports : PortApi L) (utf8 : Utf8) (c : Client) (p q : Port) (w : World L)
        → connect_ports api ports utf8 c p q s.world ≡ unwound w
        → Step s (record s { world = w })
    -- A client is given a handler of property changes, and is then another value; the floats do not matter.
    registers :
        (settings : SettingsApi L (Unit {0})) (c c' : Client) (r : Result (Unit {0}) Error)
        (xs ys : List Client) (w : World L)
        → s.clients ≡ xs ++ (c ∷ ys)
        → register_property_change_handler settings c s.world ≡ returns (r, c', w)
        → open_count w.lib ≡ open_count s.world.lib
        → Step s (record s { world = w; clients = xs ++ (c' ∷ ys) })
    -- Any other call, of a port or a transport say, changes the library's state only.
    elsewhere :
        (l : L)
        → open_count l ≡ open_count s.world.lib
        → Step s (record s { world = record s.world { lib = l } })

  -- A program that starts with nothing.
  pub record Starts (s : System L N P) : Type 0 where
    pub unlocked : s.world.mutex ≡ free
    pub no_lives : (d : ℕ) → s.world.lives d ≡ 0
    pub no_clients : s.clients ≡ []
    pub no_active : s.active ≡ []
    pub no_leaked : s.leaked ≡ []
    pub none_unclosed : s.unclosed ≡ 0
    pub none_open : open_count s.world.lib ≡ 0

  pub data Reach : System L N P → Type 0 where
    start : {s : System L N P} → Starts s → Reach s
    go_on : {s t : System L N P} → Reach s → Step s t → Reach t
