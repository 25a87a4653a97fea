-- ===== src/Logging/Locks.antt =====
-- src/logging.rs with its two mutexes: what happens when a log callback uses the logging functions itself.
pub mod Laws
mod Tests
use rust_jack.Base.{ℕ, Bool, true, false, if◌then◌else◌, Option, none, some, List, [], ◌∷◌}
use rust_jack.Enums.{Str}
use rust_jack.Strings.{Utf8}
use rust_jack.Logging.{LogState, LogApi, message_or}
use rust_jack.Logging.Laws.{LogCall, set_info, set_error, reset_info, reset_error, log_call}

-- What a callback does with the logging functions: it sets or resets a callback, or asks for one.
pub data LogAction (F : Type 0) : Type 0 where
  change : LogCall F → LogAction F
  ask_info ask_error : LogAction F

-- The callbacks and the library, and whether the mutexes of `INFO_FN` and `ERROR_FN` are held.
pub record LockedLog (F L : Type 0) : Type 0 where
  pub log : LogState F L
  pub info_held : Bool
  pub error_held : Bool

-- A call returns, or it locks a mutex that its own thread holds: then the standard library says only
-- that the call does not return.
pub data Ended (S : Type 0) : Type 0 where
  ends : S → Ended S
  stuck : Ended S

abbrev pub then_run : {S T : Type 0} → Ended S → (S → Ended T) → Ended T
then_run (ends s) k = k s
then_run stuck k = stuck

-- The target of a message and the text that it is given.
pub record Delivery (F : Type 0) : Type 0 where
  pub receiver : Option F
  pub text : Str

-- What a callback does; a message without a callback goes to the standard stream.
abbrev pub actions_of : {F : Type 0} → (F → List (LogAction F)) → Option F → List (LogAction F)
actions_of runs none = []
actions_of runs (some f) = runs f

module _ {F L : Type 0} (api : LogApi L) where
  -- A statement that locks the mutex for itself.
  abbrev pub locking : Bool → LockedLog F L → Ended (LockedLog F L)
  locking is_held s = if is_held then stuck else ends s

  -- The statements of the setters and getters that lock, and then what they do.
  unfoldable pub perform : LogAction F → LockedLog F L → Ended (LockedLog F L)
  unfolding log_call
  perform (change (set_info f)) s =
      locking s.info_held (record s { log = log_call api (set_info f) s.log })
  perform (change (set_error f)) s =
      locking s.error_held (record s { log = log_call api (set_error f) s.log })
  perform (change reset_info) s =
      locking s.info_held (record s { log = log_call api reset_info s.log })
  perform (change reset_error) s =
      locking s.error_held (record s { log = log_call api reset_error s.log })
  perform ask_info s = locking s.info_held s
  perform ask_error s = locking s.error_held s

  unfoldable pub perform_all : List (LogAction F) → LockedLog F L → Ended (LockedLog F L)
  unfolding perform
  perform_all [] s = ends s
  perform_all (a ∷ rest) s = then_run (perform a s) (perform_all rest)

  -- `info_wrapper` and `error_wrapper`, for callbacks that do what `runs` says: the guard lives until the
  -- callback has returned.
  unfoldable pub deliver_info :
      (F → List (LogAction F)) → Utf8 → List ℕ → LockedLog F L → Ended (Delivery F × LockedLog F L)
  unfolding perform_all
  deliver_info runs utf8 msg s =
      if s.info_held
      then stuck
      else then_run
          (perform_all (actions_of runs s.log.info.callback) (record s { info_held = true }))
          λ s'. ends (
            record {
              receiver = s.log.info.callback;
              text = message_or "rust failed to interpret info message" (utf8.to_str msg);
            },
            record s' { info_held = false },
          )

  unfoldable pub deliver_error :
      (F → List (LogAction F)) → Utf8 → List ℕ → LockedLog F L → Ended (Delivery F × LockedLog F L)
  unfolding perform_all
  deliver_error runs utf8 msg s =
      if s.error_held
      then stuck
      else then_run
          (perform_all (actions_of runs s.log.error.callback) (record s { error_held = true }))
          λ s'. ends (
            record {
              receiver = s.log.error.callback;
              text = message_or "rust failed to interpret error message" (utf8.to_str msg);
            },
            record s' { error_held = false },
          )
