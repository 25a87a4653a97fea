-- ===== src/Threads/Requests/Shape.antt =====
-- Which calls take the lock, and when: each takes it before anything else, and gives it back behind
-- everything else.
use rust_jack.Strings.{c_string}
use rust_jack.Base.{
  ℕ, zero, suc, Option, none, some, List, [], ◌∷◌, arith, ℤ, pos, negsuc, Result, ok, err, Panics,
  returns, panics,
}
use rust_jack.Enums.{Str, Error}
use rust_jack.Strings.{Utf8}
use rust_jack.Port.{Port, PortApi, name}
use rust_jack.Client.{Client, ClientApi}
use rust_jack.Client.Callbacks.{Callback, CallbackContext, registered}
use rust_jack.Client.Async.{ActivationApi}
use rust_jack.Threads.{Section, access}
use rust_jack.Threads.Requests.{
  new_section, close_section, start_section, take_down_section, connect_section, Request, Reply,
  opens, closes, starts, takes_down, connects, calling, opening, opening_as, closing_with, setting,
  starting, taking_down, connecting, reading, close_block, start_block, take_down_block,
  connect_block, section,
}
use rust_jack.Threads.Sections.{IsPlain, IsGuarded, guarded-IsGuarded}
use rust_jack.Base.{ℤ, negsuc}
use rust_jack.Base.{suc}
use rust_jack.Client.Callbacks.{Callback}
use rust_jack.Base.{List, [], ◌∷◌}

module _ {L : Type 0} (N P : Type 0) (api : ClientApi L) (act : ActivationApi L) (ports : PortApi L)
    (utf8 : Utf8) where
  pub opening_as-IsPlain :
      (name : Panics Str) (options : ℕ)
      → IsPlain (opening_as {N = N} {P = P} api act ports utf8 name options)
  unfolding opening_as opening IsPlain
  opening_as-IsPlain panics options = tt
  opening_as-IsPlain (returns s) options = λ w. ground arith

  closing_with-IsPlain : (code : ℤ) → IsPlain (closing_with {N = N} {P = P} api act ports utf8 code)
  unfolding IsPlain
  closing_with-IsPlain (pos zero) = tt
  closing_with-IsPlain (pos (suc n)) = tt
  closing_with-IsPlain (negsuc n) = tt

  setting-IsPlain :
      (slots : List Callback) (client box : ℕ) (rest : Section L (Reply N P))
      → IsPlain rest
      → IsPlain (setting api act ports utf8 slots client box rest)
  unfolding setting IsPlain
  setting-IsPlain [] client box rest h = h
  setting-IsPlain (slot ∷ slots) client box rest h = λ w. setting-IsPlain slots client box rest h

  starting-IsPlain :
      (box : ℕ) (ctx : CallbackContext N P) (code : ℤ)
      → IsPlain (starting api act ports utf8 box ctx code)
  unfolding IsPlain
  starting-IsPlain box ctx (pos zero) = tt
  starting-IsPlain box ctx (pos (suc n)) = tt
  starting-IsPlain box ctx (negsuc n) = tt

  taking_down-IsPlain :
      (ctx : CallbackContext N P) (code : ℤ) → IsPlain (taking_down api act ports utf8 ctx code)
  unfolding IsPlain
  taking_down-IsPlain ctx (pos zero) = tt
  taking_down-IsPlain ctx (pos (suc n)) = tt
  taking_down-IsPlain ctx (negsuc n) = tt

  connecting-IsPlain :
      (c : Client) (s d : Str) → IsPlain (connecting {N = N} {P = P} api act ports utf8 c s d)
  unfolding IsPlain
  connecting-IsPlain c s d = ground arith

  reading-IsPlain :
      (next : Str → Section L (Reply N P)) (r : Result Str Error)
      → ((s : Str) → IsPlain (next s))
      → IsPlain (reading {N = N} {P = P} api act ports utf8 next r)
  unfolding IsPlain
  reading-IsPlain next (ok s) h = h s
  reading-IsPlain next (err e) h = tt

  pub start_block-IsPlain :
      (ctx : CallbackContext N P) → IsPlain (start_block api act ports utf8 ctx)
  unfolding start_block IsPlain
  start_block-IsPlain ctx = λ w.
      setting-IsPlain registered ctx.client.ptr w.next_box
        (calling (λ l. (act.jack_activate ctx.client.ptr l).1)
          λ l. starting api act ports utf8 w.next_box ctx (act.jack_activate ctx.client.ptr l).0)
        (λ v. starting-IsPlain _ _ _)

  pub take_down_block-IsPlain :
      (o : Option (ℕ × CallbackContext N P)) → IsPlain (take_down_block api act ports utf8 o)
  unfolding IsPlain
  take_down_block-IsPlain none = tt
  take_down_block-IsPlain (some (box, ctx)) = λ w. taking_down-IsPlain ctx _

  pub connect_block-IsPlain :
      (c : Client) (p q : Port) → IsPlain (connect_block {N = N} {P = P} api act ports utf8 c p q)
  unfolding IsPlain
  connect_block-IsPlain c p q = λ w.
      reading-IsPlain
        (λ s.
          access (λ v. v)
            λ v.
              reading api act ports utf8 (λ d. connecting api act ports utf8 c s d)
                (name ports utf8 v.lives q v.lib))
        (name ports utf8 w.lives p w.lib)
        (λ s v.
          reading-IsPlain (λ d. connecting api act ports utf8 c s d)
            (name ports utf8 v.lives q v.lib) (λ d. connecting-IsPlain c s d))

  pub close_block-IsPlain :
      (c : Client) → IsPlain (close_block {N = N} {P = P} api act ports utf8 c)
  unfolding IsPlain
  close_block-IsPlain c = λ w. closing_with-IsPlain _

  pub section-IsGuarded : (r : Request N P) → IsGuarded (section api act ports utf8 r)
  unfolding section new_section close_section start_section take_down_section connect_section
      IsPlain
  section-IsGuarded (opens s options) =
      guarded-IsGuarded (opening_as {N = N} {P = P} api act ports utf8 (c_string s) options)
        (opening_as-IsPlain _ _)
  section-IsGuarded (closes c) =
      guarded-IsGuarded (close_block {N = N} {P = P} api act ports utf8 c) (close_block-IsPlain c)
  section-IsGuarded (starts ctx) =
      guarded-IsGuarded (start_block api act ports utf8 ctx) (start_block-IsPlain ctx)
  section-IsGuarded (takes_down a) =
      guarded-IsGuarded (take_down_block api act ports utf8 a.callback)
        (take_down_block-IsPlain a.callback)
  section-IsGuarded (connects c p q) =
      guarded-IsGuarded (connect_block {N = N} {P = P} api act ports utf8 c p q)
        (connect_block-IsPlain c p q)
