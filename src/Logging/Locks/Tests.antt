-- ===== src/Logging/Locks/Tests.antt =====
-- Callbacks that use the logging functions, at concrete values: the callback 0 resets itself, any other
-- sets the error callback.
use rust_jack.Base.{ℕ, ◌≡◌, true, false, some, none, List, [], ◌∷◌, ◌==◌, if◌then◌else◌}
use rust_jack.Client.Samples.{utf8}
use rust_jack.Logging.{LogState}
use rust_jack.Logging.Laws.{set_error, reset_info, counting}
use rust_jack.Logging.Locks.{LogAction, change, stuck, deliver_info}
use rust_jack.Logging.Locks.Laws.{deliver_info_lem}

abbrev runs : ℕ → List (LogAction ℕ)
runs f = if f == 0 then change reset_info ∷ [] else change (set_error 5) ∷ []

abbrev with_info : ℕ → LogState ℕ (ℕ × ℕ)
with_info f = record {
  info = record { callback = some f; registered = true };
  error = record { callback = none; registered = false };
  lib = (1, 0);
}

deliver_info_lem_example :
    deliver_info counting runs utf8
      (7 ∷ [])
      (record { log = with_info 0; info_held = false; error_held = false })
    ≡ stuck
deliver_info_lem_example = deliver_info_lem counting runs utf8 (7 ∷ []) (with_info 0)
