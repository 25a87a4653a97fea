-- ===== src/Threads/Progress.antt =====
-- Threads that go on: one behind the lock, and one that waits for it.
use rust_jack.Base.{
  ℕ, ◌≡◌, refl, sym, subst, ◌≢◌, true, ◌∙◌, arith, List, ◌++◌, Panics, returns, panics,
}
use rust_jack.Client.State.{Lock, free, held, poisoned, World, Outcome}
use rust_jack.Threads.{
  Section, replies, unwinds, access, lock, unlock, poison, run, update, Pc, idle, running, over,
  Threads, Move, enters, bounces, accesses, unlocks, poisons, leaves, breaks, Step, pick, Reach,
  later,
}
use rust_jack.Threads.Sections.{IsGuarded, IsBlock, IsEnd}
use rust_jack.Threads.Invariant.{is_inside, gives_back, IsSound, IsOnWay, Inv, inside-Holds}
use rust_jack.Threads.Waiting.{inner-IsBlock}
use rust_jack.Threads.Moves.{Reach-Inv}

module _ {L R A : Type 0} (section : R → Section L A) where
  -- Some steps, one after the other.
  pub data Steps : Threads L R A → Threads L R A → Type 0 where
    stay : {s : Threads L R A} → Steps s s
    go : {s t u : Threads L R A} → Step section s t → Steps t u → Steps s u

  pub picks :
      (s : Threads L R A) (i : ℕ) {p p' : Pc L R A} {w : World L} {rs : List R}
      → s.pc i ≡ p
      → Move section s.world p w p' rs
      → Step section s (record { world = w; pc = update s.pc i p'; log = rs ++ s.log })
  picks s i {p' = p'} {w} {rs} e mv =
      pick i (subst (λ q. Move section s.world q w p' rs) (sym e) mv)

  -- The call of thread `i` is over, the lock is not held, and no other thread has moved.
  pub record Ended (s : Threads L R A) (i : ℕ) (r : R) : Type 0 where
    pub final : Threads L R A
    pub reply : Panics A
    pub steps : Steps s final
    pub ended : final.pc i ≡ over r reply
    pub unheld : final.world.mutex ≢ held
    pub others : (j : ℕ) → i ≢ j → final.pc j ≡ s.pc j

  Ended-go :
      {s t : Threads L R A} {i : ℕ} {r : R}
      → Step section s t
      → ((j : ℕ) → i ≢ j → t.pc j ≡ s.pc j)
      → Ended t i r
      → Ended s i r
  Ended-go st same e = record {
    final = e.final;
    reply = e.reply;
    steps = go st e.steps;
    ended = e.ended;
    unheld = e.unheld;
    others = λ j ne. e.others j ne ∙ same j ne;
  }

  pub update-others :
      {P : Type 0} (pc : ℕ → P) (i : ℕ) (p : P) (j : ℕ) → i ≢ j → update pc i p j ≡ pc j
  update-others pc i p j ne = ground arith

  pub update-own : {P : Type 0} (pc : ℕ → P) (i : ℕ) (p : P) → update pc i p i ≡ p
  update-own pc i p = ground arith

  end-ends :
      (rest : Section L A) (s : Threads L R A) (i : ℕ) (r : R)
      → IsEnd rest
      → s.world.mutex ≢ held
      → s.pc i ≡ running r rest
      → Ended s i r
  unfolding IsEnd
  end-ends (replies a) s i r h unheld e = record {
    final = _;
    reply = returns a;
    steps = go (picks s i e leaves) stay;
    ended = update-own s.pc i _;
    unheld = unheld;
    others = update-others s.pc i _;
  }
  end-ends unwinds s i r h unheld e = record {
    final = _;
    reply = panics;
    steps = go (picks s i e breaks) stay;
    ended = update-own s.pc i _;
    unheld = unheld;
    others = update-others s.pc i _;
  }
  end-ends (access f next) s i r h unheld e = absurd h
  end-ends (lock a b) s i r h unheld e = absurd h
  end-ends (unlock a) s i r h unheld e = absurd h
  end-ends (poison a) s i r h unheld e = absurd h

  pub block-ends :
      (rest : Section L A) (s : Threads L R A) (i : ℕ) (r : R)
      → IsBlock rest
      → s.pc i ≡ running r rest
      → Ended s i r
  unfolding IsBlock
  block-ends (access f next) s i r h e =
      Ended-go (picks s i e accesses) (update-others s.pc i _)
        (block-ends (next s.world) _ i r (h s.world) (update-own s.pc i _))
  block-ends (unlock rest) s i r h e =
      Ended-go (picks s i e unlocks) (update-others s.pc i _)
        (end-ends rest _ i r h (λ k. cc) (update-own s.pc i _))
  block-ends (poison rest) s i r h e =
      Ended-go (picks s i e poisons) (update-others s.pc i _)
        (end-ends rest _ i r h (λ k. cc) (update-own s.pc i _))
  block-ends (replies a) s i r h e = absurd h
  block-ends unwinds s i r h e = absurd h
  block-ends (lock a b) s i r h e = absurd h

  pub lock-ends :
      (inner refused : Section L A) (s : Threads L R A) (i : ℕ) (r : R)
      → IsBlock inner
      → IsEnd refused
      → s.world.mutex ≢ held
      → s.pc i ≡ running r (lock inner refused)
      → Ended s i r
  lock-ends inner refused s i r h h' unheld e = at s.world.mutex refl
    where
      at : (m : Lock) → s.world.mutex ≡ m → Ended s i r
      at free k =
          Ended-go (picks s i e (enters k)) (update-others s.pc i _)
            (block-ends inner _ i r h (update-own s.pc i _))
      at held k = absurd (unheld k)
      at poisoned k =
          Ended-go (picks s i e (bounces k)) (update-others s.pc i _)
            (end-ends refused _ i r h' unheld (update-own s.pc i _))

  Steps-append : {s t u : Threads L R A} → Steps s t → Steps t u → Steps s u
  Steps-append stay q = q
  Steps-append (go st p) q = go st (Steps-append p q)

  pub Reach-Steps :
      {w₀ : World L} {s t : Threads L R A} → Reach section w₀ s → Steps s t → Reach section w₀ t
  Reach-Steps r stay = r
  Reach-Steps r (go st p) = Reach-Steps (later r st) p

  held_by :
      (p : Pc L R A)
      → is_inside p ≡ true
      → (r : R) × (rest : Section L A) × (p ≡ running r rest) × (gives_back rest ≡ true)
  held_by (running r rest) e = (r, rest, refl, e)
  held_by idle e = cc
  held_by (over r p) e = cc

  module _ (call : R → World L → Outcome L A) (guards : (r : R) → IsGuarded (section r))
      (agrees : (r : R) (w : World L) → run (section r) w ≡ call r w) {w₀ : World L}
      (unheld : w₀.mutex ≢ held) {s : Threads L R A} (reach : Reach section w₀ s) where
    abbrev pub Ends : ℕ → R → Type 0
    Ends i r = (t : Threads L R A) × (p : Panics A) × Steps s t × (t.pc i ≡ over r p)

    inv : Inv section call w₀ s.world s.pc s.log
    inv = Reach-Inv section call guards agrees w₀ unheld reach

    on_way :
        (i : ℕ) (r : R) (rest : Section L A)
        → s.pc i ≡ running r rest
        → IsOnWay section call w₀ s.world s.log r rest
    unfolding IsSound
    on_way i r rest e = subst (IsSound section call w₀ s.world s.log) e (inv.each i)

    waiting_can_end :
        (i : ℕ) (r : R) (inner refused : Section L A)
        → s.pc i ≡ running r (lock inner refused)
        → Ends i r
    unfolding IsOnWay gives_back
    waiting_can_end i r inner refused e = at s.world.mutex refl
      where
        shape : IsBlock inner × IsEnd refused
        shape = inner-IsBlock section call guards w₀ r inner refused (on_way i r _ e)

        now : s.world.mutex ≢ held → Ends i r
        now k =
            let f = lock-ends inner refused s i r shape.0 shape.1 k e in
            (f.final, f.reply, f.steps, f.ended)

        behind :
            (j : ℕ) (q : R) (rest : Section L A)
            → s.pc j ≡ running q rest
            → gives_back rest ≡ true
            → Ends i r
        behind j q rest k h =
            let f =
              block-ends rest s j q
                (inside-Holds section call w₀ s.world s.log q rest (on_way j q rest k) h).block k in
            let g =
              lock-ends inner refused f.final i r shape.0 shape.1 f.unheld
                (f.others i (λ z. ground arith) ∙ e) in
            (g.final, g.reply, Steps-append f.steps g.steps, g.ended)

        at : (m : Lock) → s.world.mutex ≡ m → Ends i r
        at free k = now (λ z. cc)
        at poisoned k = now (λ z. cc)
        at held k =
            let (j, here) = inv.holder k in
            let (q, rest, e', h) = held_by (s.pc j) here in behind j q rest e' h

    -- Every call that a thread is at can end.
    pub can_end : (i : ℕ) (r : R) (rest : Section L A) → s.pc i ≡ running r rest → Ends i r
    unfolding IsOnWay
    can_end i r (replies a) e = (_, _, go (picks s i e leaves) stay, update-own s.pc i _)
    can_end i r unwinds e = (_, _, go (picks s i e breaks) stay, update-own s.pc i _)
    can_end i r (lock inner refused) e = waiting_can_end i r inner refused e
    can_end i r (access f next) e =
        let g = block-ends _ s i r (on_way i r _ e).block e in (g.final, g.reply, g.steps, g.ended)
    can_end i r (unlock rest) e =
        let g = block-ends _ s i r (on_way i r _ e).block e in (g.final, g.reply, g.steps, g.ended)
    can_end i r (poison rest) e =
        let g = block-ends _ s i r (on_way i r _ e).block e in (g.final, g.reply, g.steps, g.ended)
