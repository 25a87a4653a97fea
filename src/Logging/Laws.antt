-- ===== src/Logging/Laws.antt =====
-- Sequences of calls that set and reset the log callbacks.
use rust_jack.Base.{
  ℕ, ◌+◌, ◌≡◌, refl, Bool, true, false, Option, none, some, List, [], ◌∷◌, arith, if◌then◌else◌,
}
use rust_jack.Strings.{Utf8}
use rust_jack.Logging.{
  LogState, LogApi, target, set_info_callback, set_error_callback, info_callback,
  reset_info_callback, reset_error_callback, info_wrapper,
}

pub data LogCall (F : Type 0) : Type 0 where
  set_info set_error : F → LogCall F
  reset_info reset_error : LogCall F

module _ {F L : Type 0} (api : LogApi L) where
  unfoldable pub log_call : LogCall F → LogState F L → LogState F L
  unfolding set_info_callback set_error_callback reset_info_callback reset_error_callback
  log_call (set_info f) = set_info_callback api f
  log_call (set_error f) = set_error_callback api f
  log_call reset_info = reset_info_callback
  log_call reset_error = reset_error_callback

  unfoldable pub log_calls : List (LogCall F) → LogState F L → LogState F L
  unfolding log_call
  log_calls [] s = s
  log_calls (c ∷ cs) s = log_calls cs (log_call c s)

-- The last info callback of a sequence of calls, from the one before it.
abbrev pub last_info : {F : Type 0} → List (LogCall F) → Option F → Option F
last_info [] o = o
last_info (set_info f ∷ cs) o = last_info cs (some f)
last_info (set_error f ∷ cs) o = last_info cs o
last_info (reset_info ∷ cs) o = last_info cs none
last_info (reset_error ∷ cs) o = last_info cs o

-- Whether an info callback is ever set.
abbrev pub sets_info : {F : Type 0} → List (LogCall F) → Bool
sets_info [] = false
sets_info (set_info f ∷ cs) = true
sets_info (set_error f ∷ cs) = sets_info cs
sets_info (reset_info ∷ cs) = sets_info cs
sets_info (reset_error ∷ cs) = sets_info cs

-- A library that counts how often the info function and the error function were set.
abbrev pub counting : LogApi (ℕ × ℕ)
counting = record {
  jack_set_info_function = λ l. (l.0 + 1, l.1);
  jack_set_error_function = λ l. (l.0, l.1 + 1);
}

module _ {F : Type 0} where
  -- However often the callbacks are set and reset, the library is given the info function once if it was
  -- not given before and an info callback is ever set, and not at all otherwise.
  pub registered_once :
      (cs : List (LogCall F)) (s : LogState F (ℕ × ℕ))
      → (log_calls counting cs s).lib.0
        ≡ s.lib.0 + (if s.info.registered then 0 else if sets_info cs then 1 else 0)
  unfolding log_calls log_call set_info_callback set_error_callback reset_info_callback
      reset_error_callback
  registered_once [] s = ground arith
  registered_once (set_info f ∷ cs) s =
      rw (registered_once cs (log_call counting (set_info f) s)) (ground arith)
  registered_once (set_error f ∷ cs) s =
      rw (registered_once cs (log_call counting (set_error f) s)) (ground arith)
  registered_once (reset_info ∷ cs) s = registered_once cs (log_call counting reset_info s)
  registered_once (reset_error ∷ cs) s = registered_once cs (log_call counting reset_error s)

  -- After any calls that set and reset the two callbacks, `info_callback` is the info callback that was
  -- set last and not reset since, whatever was done with the error callback; a message goes to it, and
  -- to the standard stream if there is none.
  pub info_callback-log_calls :
      {L : Type 0} (api : LogApi L) (utf8 : Utf8) (cs : List (LogCall F)) (msg : List ℕ)
      (s : LogState F L)
      → let o = last_info cs (info_callback s) in
        let s' = log_calls api cs s in
        (info_callback s' ≡ o) × ((info_wrapper utf8 msg s').0 ≡ target o)
  unfolding log_calls log_call info_callback info_wrapper set_info_callback set_error_callback
      reset_info_callback reset_error_callback
  info_callback-log_calls api utf8 [] msg s = (refl, refl)
  info_callback-log_calls api utf8 (set_info f ∷ cs) msg s =
      info_callback-log_calls api utf8 cs msg (log_call api (set_info f) s)
  info_callback-log_calls api utf8 (set_error f ∷ cs) msg s =
      info_callback-log_calls api utf8 cs msg (log_call api (set_error f) s)
  info_callback-log_calls api utf8 (reset_info ∷ cs) msg s =
      info_callback-log_calls api utf8 cs msg (log_call api reset_info s)
  info_callback-log_calls api utf8 (reset_error ∷ cs) msg s =
      info_callback-log_calls api utf8 cs msg (log_call api reset_error s)
