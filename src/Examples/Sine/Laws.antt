-- ===== src/Examples/Sine/Laws.antt =====
-- The samples that examples/sine.rs writes in a cycle, each by its own formula.
use rust_jack.Base.{
  ℕ, zero, suc, ◌+◌, ◌≡◌, refl, ap, ◌∙◌, List, [], ◌∷◌, ◌++◌, Panics, returns, arith,
}
use rust_jack.Enums.{Control, continue}
use rust_jack.Scope.{ProcessScope}
use rust_jack.Port.{Port, PortApi, buffer}
use rust_jack.Port.Specs.{as_mut_slice}
use rust_jack.Examples.Sine.{Signals, Tone, tune, wave, fill, play}

module _ {F32 F64 : Type 0} (fl : Signals F32 F64) where
  tune-last :
      (fs : List F64) (f : F64) (tone : Tone F64)
      → tune fl (fs ++ (f ∷ [])) tone ≡ record { frequency = f; time = fl.whole 0 }
  unfolding tune
  tune-last [] f tone = refl
  tune-last (g ∷ fs) f tone = tune-last fs f _

  module _ {W : Type 0} (port_api : PortApi W) (store : ℕ → ℕ → F32 → W → W) (step : F64) where
    -- The time of frame `k` after `t`.
    abbrev pub time_at : F64 → ℕ → F64
    time_at t zero = t
    time_at t (suc k) = fl.add (time_at t k) step

    -- The first `n` samples of a tone, one after the other.
    abbrev pub written : ℕ → ℕ → Tone F64 → W → W
    written start zero tone w = w
    written start (suc k) tone w =
        store start k (wave fl tone.frequency (time_at tone.time k)) (written start k tone w)

    abbrev pub later : ℕ → Tone F64 → Tone F64
    later k tone = record { frequency = tone.frequency; time = time_at tone.time k }

    fill-written :
        (start i n : ℕ) (tone : Tone F64) (w : W)
        → fill fl port_api store step start i n (later i tone) (written start i tone w)
          ≡ (later (i + n) tone, written start (i + n) tone w)
    unfolding fill
    fill-written start i zero tone w =
        ap (λ k. (later k tone, written start k tone w)) (omega arith)
    fill-written start i (suc n) tone w =
        fill-written start (suc i) n tone w
        ∙ ap (λ k. (later k tone, written start k tone w)) (omega arith)

    fill-all :
        (start n : ℕ) (tone : Tone F64) (w : W)
        → fill fl port_api store step start 0 n tone w ≡ (later n tone, written start n tone w)
    fill-all start n tone w =
        fill-written start 0 n tone w
        ∙ ap (λ k. (later k tone, written start k tone w)) (omega arith)

    own_slice :
        (out_port : Port) (ps : ProcessScope) (w : W)
        → out_port.client_ptr ≡ ps.client_ptr
        → as_mut_slice port_api out_port ps w
          ≡ returns (record { start = buffer port_api out_port ps.n_frames w; count = ps.n_frames })
    unfolding as_mut_slice
    own_slice out_port ps w e = ground arith

    play-written :
        (out_port : Port) (fs : List F64) (ps : ProcessScope) (tone : Tone F64) (w : W)
        → out_port.client_ptr ≡ ps.client_ptr
        → play fl port_api store step out_port fs ps tone w
          ≡ returns (
            continue,
            later ps.n_frames (tune fl fs tone),
            written (buffer port_api out_port ps.n_frames w) ps.n_frames (tune fl fs tone) w,
          )
    unfolding play
    play-written out_port fs ps tone w e = rw (own_slice out_port ps w e) (
        ap {B = Panics (Control × Tone F64 × W)} (λ r. returns (continue, r.0, r.1))
          (fill-all (buffer port_api out_port ps.n_frames w) ps.n_frames (tune fl fs tone) w))

    -- A cycle of the process callback whose port belongs to the client of the cycle returns
    -- `Continue`. If no message came, it writes the `n_frames` samples of the tone, each at the time
    -- of its frame, and the tone goes on at the time behind them; if messages came, it does so with
    -- the frequency of the last one, from time 0.
    pub play_lem :
        (out_port : Port) (fs : List F64) (f : F64) (ps : ProcessScope) (tone : Tone F64) (w : W)
        → out_port.client_ptr ≡ ps.client_ptr
        → let start = buffer port_api out_port ps.n_frames w in
          let tuned : Tone F64 = record { frequency = f; time = fl.whole 0 } in
          (play fl port_api store step out_port [] ps tone w
            ≡ returns (continue, later ps.n_frames tone, written start ps.n_frames tone w))
          × (play fl port_api store step out_port (fs ++ (f ∷ [])) ps tone w
              ≡ returns (continue, later ps.n_frames tuned, written start ps.n_frames tuned w))
    unfolding tune
    play_lem out_port fs f ps tone w e = (
      play-written out_port [] ps tone w e,
      play-written out_port (fs ++ (f ∷ [])) ps tone w e
          ∙ ap {B = Panics (Control × Tone F64 × W)}
              (λ tuned. returns (
                continue,
                later ps.n_frames tuned,
                written (buffer port_api out_port ps.n_frames w) ps.n_frames tuned w,
              ))
              (tune-last fs f tone),
    )
