-- ===== src/Logging/Locks/Laws.antt =====
-- When a log callback blocks itself.
use rust_jack.Base.{◌≡◌, refl, Bool, true, false, List, [], ◌∷◌, if◌then◌else◌, ℕ}
use rust_jack.Strings.{Utf8}
use rust_jack.Logging.{LogState, LogApi, info_wrapper}
use rust_jack.Logging.Laws.{
  LogCall, set_info, set_error, reset_info, reset_error, log_call, log_calls,
}
use rust_jack.Logging.Locks.{
  LogAction, change, ask_info, ask_error, Ended, ends, stuck, then_run, perform, perform_all,
  deliver_info, actions_of,
}

-- Whether the info callback is among what is set, reset or asked for.
abbrev pub touches_info : {F : Type 0} → List (LogAction F) → Bool
touches_info [] = false
touches_info (change (set_info f) ∷ rest) = true
touches_info (change (set_error f) ∷ rest) = touches_info rest
touches_info (change reset_info ∷ rest) = true
touches_info (change reset_error ∷ rest) = touches_info rest
touches_info (ask_info ∷ rest) = true
touches_info (ask_error ∷ rest) = touches_info rest

-- The calls that set or reset something.
abbrev pub changes : {F : Type 0} → List (LogAction F) → List (LogCall F)
changes [] = []
changes (change c ∷ rest) = c ∷ changes rest
changes (ask_info ∷ rest) = changes rest
changes (ask_error ∷ rest) = changes rest

then_run-if :
    {S T : Type 0} (b : Bool) (s : S) (k : S → Ended T)
    → then_run (if b then stuck else ends s) k ≡ (if b then stuck else k s)
then_run-if true s k = refl
then_run-if false s k = refl

module _ {F L : Type 0} (api : LogApi L) where
  perform_all_lem :
      (acts : List (LogAction F)) (s : LogState F L)
      → perform_all api acts (record { log = s; info_held = true; error_held = false }) ≡ (
          if touches_info acts
          then stuck
          else ends (record {
            log = log_calls api (changes acts) s;
            info_held = true;
            error_held = false;
          }))
  unfolding perform_all perform log_calls
  perform_all_lem [] s = refl
  perform_all_lem (change (set_info f) ∷ rest) s = refl
  perform_all_lem (change (set_error f) ∷ rest) s =
      perform_all_lem rest (log_call api (set_error f) s)
  perform_all_lem (change reset_info ∷ rest) s = refl
  perform_all_lem (change reset_error ∷ rest) s = perform_all_lem rest (log_call api reset_error s)
  perform_all_lem (ask_info ∷ rest) s = refl
  perform_all_lem (ask_error ∷ rest) s = perform_all_lem rest s

  -- A message of the library while neither mutex is held: if the info callback sets, resets or asks for
  -- the info callback, the message never gets through; otherwise it does, with its text, to the callback
  -- or to the standard stream if there is none, the callback's changes of the error callback are made,
  -- and neither mutex is held afterwards.
  pub deliver_info_lem :
      (runs : F → List (LogAction F)) (utf8 : Utf8) (msg : List ℕ) (s : LogState F L)
      → deliver_info api runs utf8 msg (record { log = s; info_held = false; error_held = false })
        ≡ (if touches_info (actions_of runs s.info.callback)
            then stuck
            else ends (
              record { receiver = s.info.callback; text = (info_wrapper utf8 msg s).1 },
              record {
                log = log_calls api (changes (actions_of runs s.info.callback)) s;
                info_held = false;
                error_held = false;
              },
            ))
  unfolding deliver_info info_wrapper
  deliver_info_lem runs utf8 msg s =
      let acts = actions_of runs s.info.callback in
      rw (perform_all_lem acts s) (then_run-if (touches_info acts) _ _)
