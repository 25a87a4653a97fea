-- ===== src/Logging.antt =====
-- src/logging.rs: the two global log callbacks, and the functions that the library is given for them.
pub mod Laws
pub mod Locks
use rust_jack.Base.{ℕ, Bool, true, Option, none, some, List, if◌then◌else◌}
use Prim.Native.String.{String}
use rust_jack.Enums.{Str}
use rust_jack.Strings.{codes, Utf8}

-- `Option<fn(&str)>` behind its mutex, and whether the `Once` has run. A callback is of a type `F`.
pub record Slot (F : Type 0) : Type 0 where
  pub callback : Option F
  pub registered : Bool

-- `INFO_FN` and `ERROR_FN` with their `Once`s, and the library.
pub record LogState (F L : Type 0) : Type 0 where
  pub info : Slot F
  pub error : Slot F
  pub lib : L

-- `jack_set_info_function` and `jack_set_error_function`, given this module's wrappers.
pub record LogApi (L : Type 0) : Type 0 where
  pub jack_set_info_function : L → L
  pub jack_set_error_function : L → L

-- Where a message goes: to the callback, or to the standard stream.
pub data Target (F : Type 0) : Type 0 where
  to_callback : F → Target F
  to_stream : Target F

abbrev pub target : {F : Type 0} → Option F → Target F
target none = to_stream
target (some f) = to_callback f

-- A message that is not UTF-8 is replaced.
abbrev pub message_or : String → Option Str → Str
message_or replacement none = codes replacement
message_or replacement (some s) = s

-- `Once::call_once`
abbrev pub call_once : {L : Type 0} → Bool → (L → L) → L → L
call_once called f l = if called then l else f l

module _ {F L : Type 0} (api : LogApi L) where
  unfoldable pub set_info_callback : F → LogState F L → LogState F L
  set_info_callback f s = record s {
    info = record { callback = some f; registered = true };
    lib = call_once s.info.registered api.jack_set_info_function s.lib;
  }

  unfoldable pub set_error_callback : F → LogState F L → LogState F L
  set_error_callback f s = record s {
    error = record { callback = some f; registered = true };
    lib = call_once s.error.registered api.jack_set_error_function s.lib;
  }

module _ {F L : Type 0} where
  unfoldable pub info_callback : LogState F L → Option F
  info_callback s = s.info.callback

  unfoldable pub error_callback : LogState F L → Option F
  error_callback s = s.error.callback

  unfoldable pub reset_info_callback : LogState F L → LogState F L
  reset_info_callback s = record s { info = record s.info { callback = none } }

  unfoldable pub reset_error_callback : LogState F L → LogState F L
  reset_error_callback s = record s { error = record s.error { callback = none } }

  -- What the library's calls of the wrappers do with a message: where it goes, and its text.
  unfoldable pub info_wrapper : Utf8 → List ℕ → LogState F L → Target F × Str
  info_wrapper utf8 msg s =
      (target s.info.callback, message_or "rust failed to interpret info message" (utf8.to_str msg))

  unfoldable pub error_wrapper : Utf8 → List ℕ → LogState F L → Target F × Str
  error_wrapper utf8 msg s = (
    target s.error.callback,
    message_or "rust failed to interpret error message" (utf8.to_str msg),
  )
