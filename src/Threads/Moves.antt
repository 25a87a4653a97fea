-- ===== src/Threads/Moves.antt =====
-- The steps of a thread, field by field of the invariant.
use rust_jack.Base.{
  ℕ, ◌≡◌, refl, sym, ap, subst, ◌∙◌, ◌≢◌, true, false, Bool-cases, inl, inr, List, [], ◌∷◌, ◌++◌,
  arith,
}
use rust_jack.Client.State.{free, held, poisoned, World, Outcome}
use rust_jack.Threads.{
  Section, lock, run, update, Pc, Threads, Move, asks, enters, bounces, accesses, unlocks, poisons,
  leaves, breaks, rests, pick, Reach, start, later,
}
use rust_jack.Threads.Sections.{IsGuarded, IsBlock}
use rust_jack.Threads.Serial.{replay}
use rust_jack.Threads.Invariant.{
  is_inside, gives_back, IsBlock-gives_back, IsEnd-gives_back, IsOnWay, IsSound, Inv, init-Inv,
  inside-locks, Holds-IsOnWay, outside-IsSound, update-IsSound, end-Answered, end-replay,
}
use rust_jack.Threads.Waiting.{
  run-lock_free, run-lock_poisoned, guarded-outside, inner-IsBlock, asked-IsOnWay,
}

module _ {L R A : Type 0} (section : R → Section L A) (call : R → World L → Outcome L A)
    (guards : (r : R) → IsGuarded (section r))
    (agrees : (r : R) (w : World L) → run (section r) w ≡ call r w) (w₀ : World L) where
  module _ {w : World L} {pc : ℕ → Pc L R A} {log : List R} (inv : Inv section call w₀ w pc log)
      (i : ℕ) where
    open inv use {serial, holder, unique, each}

    abbrev Sound : World L → List R → Pc L R A → Type 0
    Sound = IsSound section call w₀

    -- The other threads, when thread `i` is behind the lock, or nobody is.
    others_out :
        (w' : World L) (rs : List R)
        → ((j : ℕ) → i ≢ j → is_inside (pc j) ≡ false)
        → (j : ℕ) → i ≢ j
        → Sound w' (rs ++ log) (pc j)
    others_out w' rs out j ne =
        outside-IsSound section call w₀ w w' rs log (pc j) (out j ne) (each j)

    unlocked_out : w.mutex ≢ held → (j : ℕ) → is_inside (pc j) ≡ false
    unlocked_out h j = elim (Bool-cases (is_inside (pc j))) [
      | inl e ↦ absurd (h (inside-locks section call w₀ w log (pc j) (each j) e))
      | inr e ↦ e
    ]

    behind_out : is_inside (pc i) ≡ true → (j : ℕ) → i ≢ j → is_inside (pc j) ≡ false
    behind_out here j ne = elim (Bool-cases (is_inside (pc j))) [
      | inl e ↦ absurd (ne (unique i j here e))
      | inr e ↦ e
    ]

    -- A block that the lock lets in does what its request does in the run so far.
    entered :
        (r : R) (s t : Section L A)
        → section r ≡ lock s t
        → w.mutex ≡ free
        → run s (record w { mutex = held }) ≡ call r (replay call w₀ log)
    entered r s t e k =
        sym (run-lock_free s t w k)
        ∙ ap (λ c. run c w) (sym e)
        ∙ agrees r w
        ∙ ap (call r) (serial (λ z. cc))

    bounced :
        (r : R) (s t : Section L A)
        → section r ≡ lock s t
        → w.mutex ≡ poisoned
        → run t w ≡ call r (replay call w₀ log)
    bounced r s t e k =
        sym (run-lock_poisoned s t w k)
        ∙ ap (λ c. run c w) (sym e)
        ∙ agrees r w
        ∙ ap (call r) (serial (λ z. cc))

    Move-own :
        {p p' : Pc L R A} {w' : World L} {rs : List R}
        → Move section w p w' p' rs
        → Sound w log p
        → Sound w' (rs ++ log) p'
    unfolding run IsSound IsOnWay IsBlock
    Move-own (asks {r}) h = asked-IsOnWay section call guards w₀ w log r (section r) (guards r) refl
    Move-own (enters {r} {inner} {refused} e) h =
        Holds-IsOnWay section call w₀ _ _ r inner (record {
          block = (inner-IsBlock section call guards w₀ r inner refused h).0;
          older = log;
          latest = refl;
          goes_on = entered r inner refused h e;
          locks = refl;
        })
    Move-own (bounces {r} {inner} {refused} e) h =
        end-Answered section call w₀ w refused r log
          (inner-IsBlock section call guards w₀ r inner refused h).1 (bounced r inner refused h e)
    Move-own (accesses {r} {f} {next}) h = Holds-IsOnWay section call w₀ _ log r (next w) (record {
      block = h.block w;
      older = h.older;
      latest = h.latest;
      goes_on = h.goes_on;
      locks = h.locks;
    })
    Move-own (unlocks {r} {rest}) h =
        subst (λ l. IsOnWay section call w₀ (record w { mutex = free }) l r rest) (sym h.latest)
          (end-Answered section call w₀ _ rest r h.older h.block h.goes_on)
    Move-own (poisons {r} {rest}) h =
        subst (λ l. IsOnWay section call w₀ (record w { mutex = poisoned }) l r rest) (sym h.latest)
          (end-Answered section call w₀ _ rest r h.older h.block h.goes_on)
    Move-own leaves h = h
    Move-own breaks h = h
    Move-own rests h = tt

    Move-others :
        {p p' : Pc L R A} {w' : World L} {rs : List R}
        → Move section w p w' p' rs
        → pc i ≡ p
        → (j : ℕ) → i ≢ j
        → Sound w' (rs ++ log) (pc j)
    unfolding gives_back
    Move-others asks here j ne = each j
    Move-others (enters {r} e) here j ne =
        others_out _ (r ∷ []) (λ k _. unlocked_out (λ z. cc) k) j ne
    Move-others (bounces {r} e) here j ne =
        others_out _ (r ∷ []) (λ k _. unlocked_out (λ z. cc) k) j ne
    Move-others accesses here j ne = others_out _ [] (behind_out (ap is_inside here)) j ne
    Move-others unlocks here j ne = others_out _ [] (behind_out (ap is_inside here)) j ne
    Move-others poisons here j ne = others_out _ [] (behind_out (ap is_inside here)) j ne
    Move-others leaves here j ne = each j
    Move-others breaks here j ne = each j
    Move-others rests here j ne = each j

    Move-serial :
        {p p' : Pc L R A} {w' : World L} {rs : List R}
        → Move section w p w' p' rs
        → Sound w log p
        → w'.mutex ≢ held
        → w' ≡ replay call w₀ (rs ++ log)
    unfolding run IsSound IsOnWay IsBlock
    Move-serial asks h k = serial k
    Move-serial (enters e) h k = absurd (k refl)
    Move-serial (bounces {r} {inner} {refused} e) h k =
        end-replay section call w₀ w refused r log
          (inner-IsBlock section call guards w₀ r inner refused h).1 (bounced r inner refused h e)
    Move-serial accesses h k = absurd (k h.locks)
    Move-serial (unlocks {r} {rest}) h k =
        end-replay section call w₀ _ rest r h.older h.block h.goes_on
        ∙ sym (ap (replay call w₀) h.latest)
    Move-serial (poisons {r} {rest}) h k =
        end-replay section call w₀ _ rest r h.older h.block h.goes_on
        ∙ sym (ap (replay call w₀) h.latest)
    Move-serial leaves h k = serial k
    Move-serial breaks h k = serial k
    Move-serial rests h k = serial k

    Move-holder :
        {p p' : Pc L R A} {w' : World L} {rs : List R}
        → Move section w p w' p' rs
        → pc i ≡ p
        → Sound w log p
        → w'.mutex ≡ held
        → (j : ℕ) × (is_inside (update pc i p' j) ≡ true)
    unfolding gives_back IsSound IsOnWay IsBlock
    Move-holder asks here h k = let (j, e) = holder k in (j, ground arith)
    Move-holder (enters {r} {inner} {refused} e) here h k =
        let g =
          IsBlock-gives_back inner (inner-IsBlock section call guards w₀ r inner refused h).0 in
        (i, ground arith)
    Move-holder (bounces e) here h k = cc
    Move-holder (accesses {r} {f} {next}) here h k =
        let g = IsBlock-gives_back (next w) (h.block w) in (i, ground arith)
    Move-holder unlocks here h k = cc
    Move-holder poisons here h k = cc
    Move-holder leaves here h k = let (j, e) = holder k in (j, ground arith)
    Move-holder breaks here h k = let (j, e) = holder k in (j, ground arith)
    Move-holder rests here h k = let (j, e) = holder k in (j, ground arith)

    Move-unique :
        {p p' : Pc L R A} {w' : World L} {rs : List R}
        → Move section w p w' p' rs
        → pc i ≡ p
        → Sound w log p
        → (j k : ℕ) → is_inside (update pc i p' j) ≡ true
        → is_inside (update pc i p' k) ≡ true
        → j ≡ k
    unfolding gives_back IsSound IsOnWay IsBlock
    Move-unique (asks {r}) here h j k a b =
        let g = guarded-outside (section r) (guards r) in ground (arith, unique j k)
    Move-unique (enters e) here h j k a b =
        ground (arith, unlocked_out (λ z. cc) j, unlocked_out (λ z. cc) k)
    Move-unique (bounces {r} {inner} {refused} e) here h j k a b =
        let g =
          IsEnd-gives_back refused (inner-IsBlock section call guards w₀ r inner refused h).1 in
        ground (arith, unique j k)
    Move-unique accesses here h j k a b = ground (arith, unique j k, unique i j, unique i k)
    Move-unique (unlocks {r} {rest}) here h j k a b =
        let g = IsEnd-gives_back rest h.block in ground (arith, unique j k)
    Move-unique (poisons {r} {rest}) here h j k a b =
        let g = IsEnd-gives_back rest h.block in ground (arith, unique j k)
    Move-unique leaves here h j k a b = ground (arith, unique j k)
    Move-unique breaks here h j k a b = ground (arith, unique j k)
    Move-unique rests here h j k a b = ground (arith, unique j k)

    pub Move-Inv :
        {p p' : Pc L R A} {w' : World L} {rs : List R}
        → Move section w p w' p' rs
        → pc i ≡ p
        → Inv section call w₀ w' (update pc i p') (rs ++ log)
    Move-Inv {p} mv here =
        let own : Sound w log p = subst (Sound w log) here (each i) in
        record {
          serial = Move-serial mv own;
          holder = Move-holder mv here own;
          unique = Move-unique mv here own;
          each = update-IsSound section call w₀ _ _ pc i _ (Move-own mv own) (Move-others mv here);
        }

  pub Reach-Inv :
      {s : Threads L R A}
      → w₀.mutex ≢ held
      → Reach section w₀ s
      → Inv section call w₀ s.world s.pc s.log
  Reach-Inv h start = init-Inv section call w₀ h
  Reach-Inv h (later r (pick i mv)) = Move-Inv (Reach-Inv h r) i mv refl
