-- ===== src/Examples/ShowTransport/Laws.antt =====
-- What examples/show_transport.rs prints while nothing changes.
use rust_jack.Base.{
  ℕ, zero, suc, ◌≡◌, refl, ◌∙◌, ap, Bool, true, false, Option, none, some, [], ◌++◌, append-nil, ok,
}
use rust_jack.Life.{Lives}
use rust_jack.Floats.{Floats}
use rust_jack.Transport.Bbt.{TransportBbt}
use rust_jack.Transport.Position.{bbt, default_position}
use rust_jack.Transport.Control.{
  TransportApi, Transport, TransportState, query, stopped, rolling, starting,
}
use rust_jack.Examples.ShowTransport.{
  FloatEq, State, same_state, same_bbt, coarse, prints_bbt, bbt_lines, turn, show,
}

module _ {F32 F64 : Type 0} (fl : Floats F32 F64) (eq : FloatEq F32 F64) where
  -- `==` holds of the bar, beat and tick of a state, if it has any, and itself: no NaN is in it.
  abbrev pub IsEqual : State fl eq → Type 0
  IsEqual s =
      (b : TransportBbt F32 F64)
      → bbt fl s.position ≡ some b
      → same_bbt eq (coarse fl eq b) (coarse fl eq b) ≡ true

  same_state_refl : (s : TransportState) → same_state s s ≡ true
  same_state_refl stopped = refl
  same_state_refl rolling = refl
  same_state_refl starting = refl

  same_lines :
      (s : State fl eq) (o : Option (TransportBbt F32 F64))
      → IsEqual s
      → bbt fl s.position ≡ o
      → bbt_lines fl eq (some s) o ≡ []
  unfolding prints_bbt
  same_lines s none h e = refl
  same_lines s (some b) h e = rw (prints_bbt, e, h b e) refl

  -- A turn that finds what the turn before found prints nothing.
  turn-same : (s : State fl eq) → IsEqual s → turn fl eq (some s) s ≡ []
  unfolding turn
  turn-same s h = rw (same_state_refl s.state) (same_lines s (bbt fl s.position) h refl)

  module _ {W : Type 0} (api : TransportApi F32 F64 W) (lives : Lives) (transport : Transport)
      (stop : W → Bool) (sleep : W → W) where
    show-quiet :
        (s : State fl eq)
        → IsEqual s
        → ((w : W) → stop w ≡ false)
        → ((w : W) → (query api (default_position fl) lives transport w).0 ≡ ok s)
        → (fuel : ℕ) (w : W) → show fl eq api lives transport stop sleep fuel (some s) w ≡ []
    unfolding show
    show-quiet s h on same zero w = refl
    show-quiet s h on same (suc fuel) w =
        rw (on w, same (sleep w)) (rw (turn-same s h) (show-quiet s h on same fuel _))

    -- While the thread is not stopped and every query gives the same state and position, whatever
    -- the time, the first turn prints and no turn after it does, if there is no NaN in the bar,
    -- beat and tick.
    pub show_lem :
        (s : State fl eq)
        → IsEqual s
        → ((w : W) → stop w ≡ false)
        → ((w : W) → (query api (default_position fl) lives transport w).0 ≡ ok s)
        → (fuel : ℕ) (w : W)
        → show fl eq api lives transport stop sleep (suc fuel) none w ≡ turn fl eq none s
    unfolding show
    show_lem s h on same fuel w =
        rw (on w, same (sleep w))
          (ap (λ ls. turn fl eq none s ++ ls) (show-quiet s h on same fuel _)
            ∙ append-nil (turn fl eq none s))
