-- ===== src/Threads/Invariant.antt =====
-- The invariant of the threads: who is behind the lock, and how the shared state, the log and the replies
-- of the calls go together.
use rust_jack.Base.{
  ℕ, ◌≡◌, refl, sym, ap, ◌∙◌, ◌≢◌, Bool, true, false, append_assoc, ℕ_discrete, some, List, [], ◌∷◌,
  ◌++◌, Panics, returns, panics,
}
use rust_jack.Client.State.{held, World, Outcome}
use mathlib.Core.Logic.{ite}
use rust_jack.Threads.{
  Section, replies, unwinds, access, lock, unlock, poison, run, update, Pc, idle, running, over,
}
use rust_jack.Threads.Sections.{IsEnd, IsBlock}
use rust_jack.Threads.Serial.{left_by, reply_of, replay}

-- Code that gives the lock back.
unfoldable pub gives_back : {L A : Type 0} → Section L A → Bool
gives_back (access f next) = true
gives_back (unlock rest) = true
gives_back (poison rest) = true
gives_back _ = false

abbrev pub is_inside : {L R A : Type 0} → Pc L R A → Bool
is_inside (running r rest) = gives_back rest
is_inside _ = false

pub IsBlock-gives_back : {L A : Type 0} (rest : Section L A) → IsBlock rest → gives_back rest ≡ true
unfolding IsBlock gives_back
IsBlock-gives_back (replies a) h = absurd h
IsBlock-gives_back unwinds h = absurd h
IsBlock-gives_back (access f next) h = refl
IsBlock-gives_back (lock s t) h = absurd h
IsBlock-gives_back (unlock s) h = refl
IsBlock-gives_back (poison s) h = refl

pub IsEnd-gives_back : {L A : Type 0} (rest : Section L A) → IsEnd rest → gives_back rest ≡ false
unfolding IsEnd gives_back
IsEnd-gives_back (replies a) h = refl
IsEnd-gives_back unwinds h = refl
IsEnd-gives_back (access f next) h = absurd h
IsEnd-gives_back (lock s t) h = absurd h
IsEnd-gives_back (unlock s) h = absurd h
IsEnd-gives_back (poison s) h = absurd h

module _ {L R A : Type 0} (section : R → Section L A) (call : R → World L → Outcome L A)
    (w₀ : World L) where
  -- A request in the log, answered as if it had run when those before it had all ended.
  pub record Answered (log : List R) (r : R) (p : Panics A) : Type 0 where
    pub newer : List R
    pub older : List R
    pub place : log ≡ newer ++ (r ∷ older)
    pub answer : reply_of (call r (replay call w₀ older)) ≡ some p

  -- The last request of the log holds the lock, and what is left of it does the rest of it.
  pub record Holds (w : World L) (log : List R) (r : R) (rest : Section L A) : Type 0 where
    pub block : IsBlock rest
    pub older : List R
    pub latest : log ≡ r ∷ older
    pub goes_on : run rest w ≡ call r (replay call w₀ older)
    pub locks : w.mutex ≡ held

  -- Code behind the lock, code that has given it back, and code that has not taken it yet.
  unfoldable pub IsOnWay : World L → List R → R → Section L A → Type 0
  IsOnWay w log r (replies a) = Answered log r (returns a)
  IsOnWay w log r unwinds = Answered log r panics
  IsOnWay w log r (lock s t) = section r ≡ lock s t
  IsOnWay w log r (access f next) = Holds w log r (access f next)
  IsOnWay w log r (unlock rest) = Holds w log r (unlock rest)
  IsOnWay w log r (poison rest) = Holds w log r (poison rest)

  unfoldable pub IsSound : World L → List R → Pc L R A → Type 0
  unfolding IsOnWay
  IsSound w log idle = Unit {0}
  IsSound w log (running r rest) = IsOnWay w log r rest
  IsSound w log (over r p) = Answered log r p

  pub record Inv (w : World L) (pc : ℕ → Pc L R A) (log : List R) : Type 0 where
    pub serial : w.mutex ≢ held → w ≡ replay call w₀ log
    pub holder : w.mutex ≡ held → (i : ℕ) × (is_inside (pc i) ≡ true)
    pub unique : (i j : ℕ) → is_inside (pc i) ≡ true → is_inside (pc j) ≡ true → i ≡ j
    pub each : (i : ℕ) → IsSound w log (pc i)

  pub init-Inv : w₀.mutex ≢ held → Inv w₀ (λ _. idle) []
  unfolding replay IsSound
  init-Inv unheld = record {
    serial = λ _. refl;
    holder = λ e. absurd (unheld e);
    unique = λ i j e f. cc;
    each = λ i. tt;
  }

  -- A thread behind the lock holds it.
  pub inside-Holds :
      (w : World L) (log : List R) (r : R) (rest : Section L A)
      → IsOnWay w log r rest
      → gives_back rest ≡ true
      → Holds w log r rest
  unfolding IsOnWay gives_back
  inside-Holds w log r (access f next) h e = h
  inside-Holds w log r (unlock s) h e = h
  inside-Holds w log r (poison s) h e = h
  inside-Holds w log r (replies a) h e = cc
  inside-Holds w log r unwinds h e = cc
  inside-Holds w log r (lock s t) h e = cc

  pub inside-locks :
      (w : World L) (log : List R) (p : Pc L R A)
      → IsSound w log p
      → is_inside p ≡ true
      → w.mutex ≡ held
  unfolding IsSound
  inside-locks w log (running r rest) h e = (inside-Holds w log r rest h e).locks
  inside-locks w log idle h e = cc
  inside-locks w log (over r p) h e = cc

  -- What is left of the block of a thread that holds the lock.
  pub Holds-IsOnWay :
      (w : World L) (log : List R) (r : R) (rest : Section L A)
      → Holds w log r rest
      → IsOnWay w log r rest
  unfolding IsOnWay IsBlock
  Holds-IsOnWay w log r (access f next) h = h
  Holds-IsOnWay w log r (unlock s) h = h
  Holds-IsOnWay w log r (poison s) h = h
  Holds-IsOnWay w log r (replies a) h = absurd h.block
  Holds-IsOnWay w log r unwinds h = absurd h.block
  Holds-IsOnWay w log r (lock s t) h = absurd h.block

  longer : (rs log : List R) (r : R) (p : Panics A) → Answered log r p → Answered (rs ++ log) r p
  longer rs log r p a = record {
    newer = rs ++ a.newer;
    older = a.older;
    place = ap (λ l. rs ++ l) a.place ∙ sym (append_assoc rs a.newer (r ∷ a.older));
    answer = a.answer;
  }

  outside-IsOnWay :
      (w w' : World L) (rs log : List R) (r : R) (rest : Section L A)
      → gives_back rest ≡ false
      → IsOnWay w log r rest
      → IsOnWay w' (rs ++ log) r rest
  unfolding IsOnWay gives_back
  outside-IsOnWay w w' rs log r (replies a) e h = longer rs log r _ h
  outside-IsOnWay w w' rs log r unwinds e h = longer rs log r _ h
  outside-IsOnWay w w' rs log r (lock s t) e h = h
  outside-IsOnWay w w' rs log r (access f next) e h = cc
  outside-IsOnWay w w' rs log r (unlock s) e h = cc
  outside-IsOnWay w w' rs log r (poison s) e h = cc

  -- A thread that is not behind the lock does not mind what another one does.
  pub outside-IsSound :
      (w w' : World L) (rs log : List R) (p : Pc L R A)
      → is_inside p ≡ false
      → IsSound w log p
      → IsSound w' (rs ++ log) p
  unfolding IsSound
  outside-IsSound w w' rs log idle e h = tt
  outside-IsSound w w' rs log (running r rest) e h = outside-IsOnWay w w' rs log r rest e h
  outside-IsSound w w' rs log (over r p) e h = longer rs log r p h

  pub update-IsSound :
      (w : World L) (log : List R) (pc : ℕ → Pc L R A) (i : ℕ) (p : Pc L R A)
      → IsSound w log p
      → ((j : ℕ) → i ≢ j → IsSound w log (pc j))
      → (j : ℕ) → IsSound w log (update pc i p j)
  update-IsSound w log pc i p own others j =
      elim (ℕ_discrete i j) as (λ d. IsSound w log (ite d p (pc j))) [
        | yes e ↦ own
        | no ne ↦ others j ne
      ]

  -- A request at an end is answered at once.
  pub end-Answered :
      (w : World L) (rest : Section L A) (r : R) (older : List R)
      → IsEnd rest
      → run rest w ≡ call r (replay call w₀ older)
      → IsOnWay w (r ∷ older) r rest
  unfolding IsEnd IsOnWay run
  end-Answered w (replies a) r older h e = record {
    newer = [];
    older = older;
    place = refl;
    answer = ap reply_of (sym e);
  }
  end-Answered w unwinds r older h e = record {
    newer = [];
    older = older;
    place = refl;
    answer = ap reply_of (sym e);
  }
  end-Answered w (access f next) r older h e = absurd h
  end-Answered w (lock s t) r older h e = absurd h
  end-Answered w (unlock s) r older h e = absurd h
  end-Answered w (poison s) r older h e = absurd h

  -- An end leaves the shared state as it is.
  pub end-replay :
      (w : World L) (rest : Section L A) (r : R) (older : List R)
      → IsEnd rest
      → run rest w ≡ call r (replay call w₀ older)
      → w ≡ replay call w₀ (r ∷ older)
  unfolding IsEnd run replay
  end-replay w (replies a) r older h e = ap (λ o. left_by o (replay call w₀ older)) e
  end-replay w unwinds r older h e = ap (λ o. left_by o (replay call w₀ older)) e
  end-replay w (access f next) r older h e = absurd h
  end-replay w (lock s t) r older h e = absurd h
  end-replay w (unlock s) r older h e = absurd h
  end-replay w (poison s) r older h e = absurd h
