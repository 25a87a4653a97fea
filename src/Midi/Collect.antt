-- ===== src/Midi/Collect.antt =====
-- Collecting an iterator, and the size hint behind the end.
use rust_jack.Base.{
  ℕ, zero, suc, ◌+◌, ◌-◌, ◌^◌, ◌≤◌, ◌<◌, ◌≡◌, refl, ap, ◌∙◌, ◌≢◌, Bool, Option, none, some, List,
  [], ◌∷◌, arith, if◌then◌else◌, length, length-drop, get_elem?-none, drop-eq-cons, Panics, returns,
  panics, map_returns, and_then,
}
use rust_jack.Midi.{RawMidi, MidiApi, MidiIter, next, size_hint, count, absolute_len}
use rust_jack.Midi.Buffer.{Lawful}
use rust_jack.Midi.Iteration.{held, remaining, next_lem}

-- `Iterator::collect`: `next` until it yields nothing. The fuel bounds the number of calls.
module _ {Ptr W : Type 0} (api : MidiApi Ptr W) (checks : Bool) where
  abbrev pub step_collect :
      (MidiIter → Panics (List RawMidi × MidiIter))
      → Option RawMidi × MidiIter
      → Panics (List RawMidi × MidiIter)
  step_collect rest (none, it) = returns ([], it)
  step_collect rest (some m, it) = map_returns (λ r. (m ∷ r.0, r.1)) (rest it)

  unfoldable pub collect : ℕ → MidiIter → W → Panics (List RawMidi × MidiIter)
  collect zero it w = returns ([], it)
  collect (suc fuel) it w =
      and_then (next api checks it w) (step_collect (λ it'. collect fuel it' w))

module _ {Ptr W : Type 0} (api : MidiApi Ptr W) (checks : Bool) (law : Lawful api) where
  collect_from :
      (xs : List RawMidi) (fuel : ℕ) (it : MidiIter) (w : W)
      → remaining api law it w ≡ xs
      → length xs < fuel
      → it.index ≤ length (held api law it w)
      → collect api checks fuel it w
        ≡ returns (xs, record it { index = length (held api law it w) + 1 })
  unfolding collect
  collect_from xs zero it w e h k = absurd (omega arith)
  collect_from [] (suc fuel) it w e h k = ground (
    arith,
    ap length e,
    length-drop it.index (held api law it w),
    law.few it.buffer_ptr w,
    next_lem api checks law it w,
    get_elem?-none (held api law it w) it.index,
  )
  collect_from (x ∷ xs) (suc fuel) it w e h k =
      let (at, rest, within) = drop-eq-cons (held api law it w) it.index x xs e in
      ground (
        arith,
        at,
        law.few it.buffer_ptr w,
        next_lem api checks law it w,
        collect_from xs fuel (record it { index = it.index + 1 }) w rest,
      )

  -- Over a library that keeps a buffer as a list of messages (`Lawful`), with an iterator that is
  -- not behind the end and fuel for one call more than there are messages left, collecting the
  -- iterator with `next` yields exactly those messages, in order, without a panic, and leaves the
  -- iterator one place behind the end.
  pub collect_lem :
      (fuel : ℕ) (it : MidiIter) (w : W)
      → it.index ≤ length (held api law it w)
      → length (remaining api law it w) < fuel
      → collect api checks fuel it w
        ≡ returns (remaining api law it w, record it { index = length (held api law it w) + 1 })
  collect_lem fuel it w k h = collect_from (remaining api law it w) fuel it w refl h k

  -- Over a `Lawful` library and a buffer that is not the null pointer, an iterator at the end
  -- yields nothing more, but `next` moves it behind the end; from there `size_hint` and `count`
  -- panic in a build with overflow checks, and give 2 ^ 64 - 1 in one without.
  pub behind_the_end :
      (it : MidiIter) (w : W)
      → it.buffer_ptr ≢ 0
      → it.index ≡ length (held api law it w)
      → let huge = 2 ^ 64 - 1 in
        (next api checks it w ≡ returns (none, record it { index = it.index + 1 }))
        × (count api checks (record it { index = it.index + 1 }) w
            ≡ (if checks then panics else returns huge))
        × (size_hint api checks (record it { index = it.index + 1 }) w
            ≡ (if checks then panics else returns (huge, some huge)))
  unfolding count size_hint absolute_len
  behind_the_end it w h e =
      let bound = law.few it.buffer_ptr w in
      let moved = next_lem api checks law it w (omega arith) in
      let nothing = get_elem?-none (held api law it w) it.index (omega arith) in
      let counted = law.counted it.buffer_ptr w in
      (
        moved ∙ ap (λ o. returns (o, record it { index = it.index + 1 })) nothing,
        ground arith,
        ground arith,
      )
