-- ===== src/Threads/Requests.antt =====
-- What the operations of src/client/client_impl.rs and src/client/async_client.rs do under the lock,
-- access by access, the lock and the drop of its guard included.
pub mod Shape
pub mod Agreement
use rust_jack.Base.{
  ℕ, zero, suc, ◌+◌, ◌≡◌, refl, false, Option, none, some, List, [], ◌∷◌, arith, ◌==◌,
  if◌then◌else◌, ℤ, pos, negsuc, Result, ok, err, Panics, returns, panics, and_then,
}
use rust_jack.Enums.{
  Str, Error, ClientStatus, client_error, client_activation_error, client_deactivation_error,
  client_is_no_longer_alive,
}
use rust_jack.Strings.{c_string, Utf8}
use rust_jack.Port.{Port, PortApi, name}
use rust_jack.Client.{Client, ClientApi, new, close, status_or_empty}
use rust_jack.Client.State.{World, Outcome, done, unwound, deadlock, aborted, locked}
use rust_jack.Client.Ports.{connect_status, connect_ports}
use rust_jack.Client.Callbacks.{
  Callback, CallbackContext, registered, register_callbacks, set_all, clear_callbacks,
}
use rust_jack.Client.Async.{
  ActivationApi, AsyncClient, activated, deactivated, start_client, maybe_deactivate,
}
use rust_jack.Threads.{Section, replies, unwinds, access}
use rust_jack.Threads.Sections.{guarded}

-- A call of `Client::new`, of the drop of a client, of `AsyncClient::new`, of `maybe_deactivate` and of
-- `connect_ports`.
pub data Request (N P : Type 0) : Type 0 where
  opens : Str → ℕ → Request N P
  closes : Client → Request N P
  starts : CallbackContext N P → Request N P
  takes_down : AsyncClient N P → Request N P
  connects : Client → Port → Port → Request N P

pub data Reply (N P : Type 0) : Type 0 where
  opened_as : Result (Client × ClientStatus) Error → Reply N P
  closed : Reply N P
  started : Result (AsyncClient N P) Error → Reply N P
  taken_down : Result (CallbackContext N P) Error × AsyncClient N P → Reply N P
  connected : Result (Unit {0}) Error → Reply N P

abbrev pub replying : {L A B : Type 0} → (A → B) → Outcome L A → Outcome L B
replying f (done a w) = done (f a) w
replying f (unwound w) = unwound w
replying f deadlock = deadlock
replying f aborted = aborted

-- An access that is a call of the library.
abbrev pub calling : {L A : Type 0} → (L → L) → (L → Section L A) → Section L A
calling f next = access (λ w. record w { lib = f w.lib }) (λ w. next w.lib)

module _ {L N P : Type 0} (api : ClientApi L) (act : ActivationApi L) (ports : PortApi L)
    (utf8 : Utf8) where
  -- The calls as one step: `Client::new`, the block of `Drop for Client`, the block of
  -- `AsyncClient::new`, `maybe_deactivate` and `connect_ports`.
  unfoldable pub call : Request N P → World L → Outcome L (Reply N P)
  unfolding new maybe_deactivate connect_ports
  call (opens s options) w = replying opened_as (new api s options w)
  call (closes c) w = replying (λ _. closed) (locked (close api c) w)
  call (starts ctx) w = replying started (locked (start_client api act ctx) w)
  call (takes_down a) w = replying taken_down (maybe_deactivate api act a w)
  call (connects c p q) w = replying connected (connect_ports api ports utf8 c p q w)

  -- Behind `jack_client_open`: the life cell is made for a client that is not null.
  unfoldable pub opening : ℕ → ClientStatus → Section L (Reply N P)
  opening ptr status =
      if ptr == 0
      then replies (opened_as (err (client_error status)))
      else access
          (λ w. record w {
            next_cell = w.next_cell + 1;
            lives = λ c. if c == w.next_cell then 1 else w.lives c;
          })
          λ w.
            replies (
              opened_as
                (ok (record { ptr = ptr; cell = w.next_cell; has_handler = false }, status)))

  unfoldable pub opening_as : Panics Str → ℕ → Section L (Reply N P)
  unfolding opening
  opening_as panics options = unwinds
  opening_as (returns s) options =
      calling (λ l. (api.jack_client_open s options l).2)
        λ l.
          opening (api.jack_client_open s options l).0
            (status_or_empty (api.status_from_bits (api.jack_client_open s options l).1))

  abbrev pub closing_with : ℤ → Section L (Reply N P)
  closing_with (pos zero) = replies closed
  closing_with _ = unwinds

  -- The calls of `register_callbacks`.
  unfoldable pub setting : List Callback → ℕ → ℕ → Section L (Reply N P) → Section L (Reply N P)
  setting [] client box rest = rest
  setting (slot ∷ slots) client box rest =
      calling (λ l. (act.set_callback slot client box l).1) λ l. setting slots client box rest

  abbrev pub starting : ℕ → CallbackContext N P → ℤ → Section L (Reply N P)
  starting box ctx (pos zero) = replies (started (ok (record { callback = some (box, ctx) })))
  starting box ctx _ = replies (started (err client_activation_error))

  abbrev pub taking_down : CallbackContext N P → ℤ → Section L (Reply N P)
  taking_down ctx (pos zero) = replies (taken_down (ok ctx, record { callback = none }))
  taking_down ctx _ =
      replies (taken_down (err client_deactivation_error, record { callback = none }))

  abbrev pub connecting : Client → Str → Str → Section L (Reply N P)
  connecting c s d = elim (and_then (c_string s) (λ _. c_string d)) [
    | panics ↦ unwinds
    | returns _ ↦
        calling (λ l. (api.jack_connect c.ptr s d l).1)
          λ l. replies (connected (connect_status api s d (api.jack_connect c.ptr s d l).0))
  ]

  -- The name of each port is read on its own, the second one only if there is a first one.
  abbrev pub reading : (Str → Section L (Reply N P)) → Result Str Error → Section L (Reply N P)
  reading next (ok s) = next s
  reading next (err e) = replies (connected (err e))

  -- The block of `Drop for Client`.
  abbrev pub close_block : Client → Section L (Reply N P)
  close_block c =
      calling (λ l. (api.jack_client_close c.ptr l).1)
        λ l. closing_with (api.jack_client_close c.ptr l).0

  -- The block of `AsyncClient::new`.
  unfoldable pub start_block : CallbackContext N P → Section L (Reply N P)
  unfolding setting
  start_block ctx =
      access (λ w. record w { next_box = w.next_box + 1 })
        λ w. setting registered ctx.client.ptr w.next_box (
          calling (λ l. (act.jack_activate ctx.client.ptr l).1)
            λ l. starting w.next_box ctx (act.jack_activate ctx.client.ptr l).0)

  -- The block of `maybe_deactivate`.
  abbrev pub take_down_block : Option (ℕ × CallbackContext N P) → Section L (Reply N P)
  take_down_block none =
      replies (taken_down (err client_is_no_longer_alive, record { callback = none }))
  take_down_block (some (box, ctx)) =
      calling (λ l. (act.jack_deactivate ctx.client.ptr l).1)
        λ l. taking_down ctx (act.jack_deactivate ctx.client.ptr l).0

  -- The block of `connect_ports`.
  abbrev pub connect_block : Client → Port → Port → Section L (Reply N P)
  connect_block c p q =
      access (λ w. w)
        λ w.
          reading
            (λ s.
              access (λ v. v)
                λ v. reading (λ d. connecting c s d) (name ports utf8 v.lives q v.lib))
            (name ports utf8 w.lives p w.lib)

  -- The same blocks, with the lock that each takes.
  unfoldable pub new_section : Str → ℕ → Section L (Reply N P)
  unfolding opening_as guarded
  new_section s options = guarded (opening_as (c_string s) options)

  unfoldable pub close_section : Client → Section L (Reply N P)
  unfolding guarded
  close_section c = guarded (close_block c)

  unfoldable pub start_section : CallbackContext N P → Section L (Reply N P)
  unfolding start_block guarded
  start_section ctx = guarded (start_block ctx)

  unfoldable pub take_down_section : AsyncClient N P → Section L (Reply N P)
  unfolding guarded
  take_down_section a = guarded (take_down_block a.callback)

  unfoldable pub connect_section : Client → Port → Port → Section L (Reply N P)
  unfolding guarded
  connect_section c p q = guarded (connect_block c p q)

  unfoldable pub section : Request N P → Section L (Reply N P)
  unfolding new_section close_section start_section take_down_section connect_section
  section (opens s options) = new_section s options
  section (closes c) = close_section c
  section (starts ctx) = start_section ctx
  section (takes_down a) = take_down_section a
  section (connects c p q) = connect_section c p q
