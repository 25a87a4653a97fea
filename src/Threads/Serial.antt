-- ===== src/Threads/Serial.antt =====
-- The same requests one after the other, each as one step.
use rust_jack.Base.{Option, none, some, List, [], ◌∷◌, Panics, returns, panics}
use rust_jack.Client.State.{World, Outcome, done, unwound, deadlock, aborted}

-- The world that a call leaves, and what the caller gets.
abbrev pub left_by : {L A : Type 0} → Outcome L A → World L → World L
left_by (done a w) before = w
left_by (unwound w) before = w
left_by deadlock before = before
left_by aborted before = before

abbrev pub reply_of : {L A : Type 0} → Outcome L A → Option (Panics A)
reply_of (done a w) = some (returns a)
reply_of (unwound w) = some panics
reply_of deadlock = none
reply_of aborted = none

module _ {L R A : Type 0} (call : R → World L → Outcome L A) where
  -- The world behind the requests of a log, the last one first.
  unfoldable pub replay : World L → List R → World L
  replay w [] = w
  replay w (r ∷ older) = left_by (call r (replay w older)) (replay w older)
