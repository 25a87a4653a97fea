-- ===== src/Threads/Requests/Agreement.antt =====
-- The calls access by access and the calls as one step.
use rust_jack.Base.{
  ℕ, zero, suc, ◌≡◌, refl, Option, none, some, arith, ℤ, pos, negsuc, Result, ok, err, Panics,
  returns, panics,
}
use rust_jack.Enums.{Str, Error, ClientStatus}
use rust_jack.Strings.{c_string, Utf8}
use rust_jack.Port.{Port, PortApi, name}
use rust_jack.Client.{Client, ClientApi, new, close}
use rust_jack.Client.State.{World, Outcome, done, unwound, deadlock, aborted, locked}
use rust_jack.Client.Ports.{connect_ports}
use rust_jack.Client.Callbacks.{CallbackContext, register_callbacks, set_all, clear_callbacks}
use rust_jack.Client.Async.{ActivationApi, activated, deactivated, start_client, maybe_deactivate}
use rust_jack.Threads.{Section, access}
use rust_jack.Threads.Sections.{guarded}
use rust_jack.Base.{◌∙◌, ap}
use rust_jack.Client.State.{free, held, poisoned, release, locked}
use rust_jack.Threads.Requests.{
  new_section, close_section, start_section, take_down_section, connect_section, Request, opens,
  closes, starts, takes_down, connects, opened_as, closed, started, taken_down, connected, replying,
  call, opening, opening_as, closing_with, setting, starting, taking_down, connecting, reading,
  close_block, start_block, take_down_block, connect_block, section,
}
use rust_jack.Threads.{run}
use rust_jack.Threads.Sections.{IsPlain, run-guarded}
use rust_jack.Client.{opened, open_with, close_checked}
use rust_jack.Client.State.{done, unwound, deadlock, aborted}
use rust_jack.Client.Ports.{named_ports, connect_ports_by_name, connect_ports}
use rust_jack.Client.Async.{take_down, activated, deactivated, maybe_deactivate}
use rust_jack.Client.Callbacks.{set_all, register_callbacks, clear_callbacks}
use rust_jack.Client.{new}
use rust_jack.Base.{ℤ, negsuc}
use rust_jack.Threads.Requests.Shape.{
  opening_as-IsPlain, close_block-IsPlain, start_block-IsPlain, take_down_block-IsPlain,
  connect_block-IsPlain,
}

module _ {L A B : Type 0} (f : A → B) where
  release-replying : (o : Outcome L A) → release (replying f o) ≡ replying f (release o)
  release-replying (done a w) = refl
  release-replying (unwound w) = refl
  release-replying deadlock = refl
  release-replying aborted = refl

  -- A block that agrees with an operation does so under the lock.
  guarded-replying :
      (s : Section L B) (op : World L → Outcome L A) (w : World L)
      → IsPlain s
      → ((v : World L) → run s v ≡ replying f (op v))
      → run (guarded s) w ≡ replying f (locked op w)
  guarded-replying s op w h agree =
      run-guarded s w h
      ∙ elim w.mutex
          as (λ m.
            locked (run s) (record w { mutex = m })
            ≡ replying f (locked op (record w { mutex = m }))) [
              | free ↦ ap release (agree _) ∙ release-replying (op _)
              | held ↦ refl
              | poisoned ↦ refl
            ]

module _ {L N P : Type 0} (api : ClientApi L) (act : ActivationApi L) (ports : PortApi L)
    (utf8 : Utf8) where
  run-opening :
      (ptr : ℕ) (status : ClientStatus) (w : World L)
      → run (opening {N = N} {P = P} api act ports utf8 ptr status) w
        ≡ replying opened_as (opened api ptr status w)
  unfolding opening run opened
  run-opening ptr status w = ground arith

  run-closing_with :
      (code : ℤ) (w : World L)
      → run (closing_with {N = N} {P = P} api act ports utf8 code) w
        ≡ replying (λ _. closed) (close_checked api code w)
  unfolding run close_checked
  run-closing_with (pos zero) w = refl
  run-closing_with (pos (suc n)) w = refl
  run-closing_with (negsuc n) w = refl

  run-opening_as :
      (name : Panics Str) (options : ℕ) (w : World L)
      → run (opening_as {N = N} {P = P} api act ports utf8 name options) w
        ≡ replying opened_as (open_with api name options w)
  unfolding opening_as run open_with
  run-opening_as panics options w = refl
  run-opening_as (returns s) options w = run-opening _ _ _

  run-starting :
      (box : ℕ) (ctx : CallbackContext N P) (code : ℤ) (w : World L)
      → run (starting api act ports utf8 box ctx code) w
        ≡ replying started (activated api act box ctx code w)
  unfolding run
  run-starting box ctx (pos zero) w = refl
  run-starting box ctx (pos (suc n)) w = refl
  run-starting box ctx (negsuc n) w = refl

  run-taking_down :
      (ctx : CallbackContext N P) (code : ℤ) (w : World L)
      → run (taking_down api act ports utf8 ctx code) w
        ≡ replying taken_down (deactivated api act ctx code w)
  unfolding run clear_callbacks
  run-taking_down ctx (pos zero) w = refl
  run-taking_down ctx (pos (suc n)) w = refl
  run-taking_down ctx (negsuc n) w = refl

  run-connecting :
      (c : Client) (s d : Str) (w : World L)
      → run (connecting {N = N} {P = P} api act ports utf8 c s d) w
        ≡ replying connected (connect_ports_by_name api c s d w)
  unfolding run connect_ports_by_name
  run-connecting c s d w = ground arith

  run-reading :
      (c : Client) (source : Result Str Error) (destination : World L → Result Str Error)
      (w : World L)
      → run
          (reading {N = N} {P = P} api act ports utf8
            (λ s.
              access
                (λ v. v)
                λ v.
                  reading {N = N} {P = P} api act ports utf8
                    (λ d. connecting {N = N} {P = P} api act ports utf8 c s d)
                    (destination v))
            source)
          w
        ≡ replying connected
            (named_ports api (connect_ports_by_name api c) source (destination w) w)
  unfolding run
  run-reading c (err e) destination w = refl
  run-reading c (ok s) destination w = read (destination w) refl
    where
      read :
          (r : Result Str Error)
          → destination w ≡ r
          → run
              (reading {N = N} {P = P} api act ports utf8
                (λ d. connecting {N = N} {P = P} api act ports utf8 c s d)
                (destination w))
              w
            ≡ replying connected
                (named_ports api (connect_ports_by_name api c) (ok s) (destination w) w)
      read (ok d) e = rw e (run-connecting c s d w)
      read (err x) e = rw e refl

  run-close_block :
      (c : Client) (w : World L)
      → run (close_block {N = N} {P = P} api act ports utf8 c) w
        ≡ replying (λ _. closed) (close api c w)
  unfolding run close
  run-close_block c w = run-closing_with _ _

  run-start_block :
      (ctx : CallbackContext N P) (w : World L)
      → run (start_block api act ports utf8 ctx) w ≡ replying started (start_client api act ctx w)
  unfolding run start_block setting start_client register_callbacks set_all
  run-start_block ctx w = run-starting w.next_box ctx _ _

  run-connect_block :
      (c : Client) (p q : Port) (w : World L)
      → run (connect_block {N = N} {P = P} api act ports utf8 c p q) w
        ≡ replying connected (
            named_ports api
              (connect_ports_by_name api c)
              (name ports utf8 w.lives p w.lib)
              (name ports utf8 w.lives q w.lib)
              w)
  unfolding run
  run-connect_block c p q w = run-reading c _ (λ v. name ports utf8 v.lives q v.lib) w

  run-take_down_block :
      (o : Option (ℕ × CallbackContext N P)) (w : World L)
      → run (take_down_block api act ports utf8 o) w ≡ replying taken_down (take_down api act o w)
  unfolding run take_down
  run-take_down_block none w = refl
  run-take_down_block (some (box, ctx)) w = run-taking_down ctx _ _

  -- Access by access, a call that nobody disturbs is the call as one step.
  pub run-section :
      (r : Request N P) (w : World L)
      → run (section api act ports utf8 r) w ≡ call api act ports utf8 r w
  unfolding section new_section close_section start_section take_down_section connect_section call
      new maybe_deactivate connect_ports
  run-section (opens s options) w =
      guarded-replying opened_as _ _ w (opening_as-IsPlain N P api act ports utf8 _ _)
        (run-opening_as (c_string s) options)
  run-section (closes c) w =
      guarded-replying (λ _. closed) (close_block {N = N} {P = P} api act ports utf8 c)
        (close api c) w (close_block-IsPlain N P api act ports utf8 c) (run-close_block c)
  run-section (starts ctx) w =
      guarded-replying started _ _ w (start_block-IsPlain N P api act ports utf8 ctx)
        (run-start_block ctx)
  run-section (takes_down a) w =
      guarded-replying taken_down _ _ w (take_down_block-IsPlain N P api act ports utf8 a.callback)
        (run-take_down_block a.callback)
  run-section (connects c p q) w =
      guarded-replying connected _ _ w (connect_block-IsPlain N P api act ports utf8 c p q)
        (run-connect_block c p q)
