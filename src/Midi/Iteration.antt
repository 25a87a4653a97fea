-- ===== src/Midi/Iteration.antt =====
-- The steps of the iterator, against the list of messages of its buffer.
use rust_jack.Base.{
  ℕ, zero, suc, ◌+◌, ◌-◌, ◌%◌, ◌^◌, ◌≤◌, ◌<◌, ◌≡◌, refl, sym, ap, ◌∙◌, ◌≢◌, Bool, Option, none,
  some, List, [], ◌∷◌, arith, length, get_elem?, dec_lt, drop, length-drop, get_elem?-none,
  drop-all, get_elem?-some, ℤ, pos, negsuc, returns,
}
use rust_jack.Midi.{
  RawMidi, MidiEvent, MidiApi, MidiIter, to_message, absolute_nth, absolute_len, peek, next,
  size_hint, count, last, nth,
}
use rust_jack.Midi.Buffer.{Lawful}

module _ {Ptr W : Type 0} (api : MidiApi Ptr W) (law : Lawful api) where
  -- The messages that a buffer holds, and those that an iterator has not yet reached.
  abbrev pub held : MidiIter → W → List RawMidi
  held it w = law.messages it.buffer_ptr w

  abbrev pub remaining : MidiIter → W → List RawMidi
  remaining it w = drop it.index (held it w)

  failed : (r : ℤ × MidiEvent Ptr) (w : W) → r.0 ≢ pos 0 → to_message api r w ≡ none
  failed (pos zero, e) w h = absurd (h refl)
  failed (pos (suc n), e) w h = refl
  failed (negsuc n, e) w h = refl

  decoded :
      (r : ℤ × MidiEvent Ptr) (w : W) (m : RawMidi)
      → r.0 ≡ pos 0
      → r.1.time ≡ m.time
      → api.read_bytes r.1.data_ptr r.1.size w ≡ m.bytes
      → to_message api r w ≡ some m
  decoded (pos zero, e) w m h t b = ground arith
  decoded (pos (suc n), e) w m h t b = cc
  decoded (negsuc n, e) w m h t b = cc

  pub absolute_nth_lem :
      (it : MidiIter) (n : ℕ) (w : W) → absolute_nth api it n w ≡ get_elem? (held it w) n
  unfolding absolute_nth
  absolute_nth_lem it n w = elim (dec_lt n (length (held it w))) [
    | no beyond ↦
        failed _ w (law.absent it.buffer_ptr n w (omega arith))
        ∙ sym (get_elem?-none _ n (omega arith))
    | yes within ↦
        let (m, at) = get_elem?-some (held it w) n within in
        let (t, b) = law.event it.buffer_ptr n w m at in
        decoded _ w m (law.present it.buffer_ptr n w within) t b ∙ sym at
  ]

  pub peek_lem :
      (it : MidiIter) (w : W) → it.index < 2 ^ 32 → peek api it w ≡ get_elem? (held it w) it.index
  unfolding peek
  peek_lem it w h =
      absolute_nth_lem it (it.index % 2 ^ 32) w ∙ ap (get_elem? (held it w)) (omega arith)

-- The last element of a list.
abbrev pub last? {ℓ} : {A : Type ℓ} → List A → Option A
last? [] = none
last? (x ∷ []) = some x
last? (x ∷ y ∷ xs) = last? (y ∷ xs)

last?-get {ℓ} : {A : Type ℓ} (xs : List A) → 0 < length xs → last? xs ≡ get_elem? xs (length xs - 1)
last?-get [] h = absurd (omega arith)
last?-get (x ∷ []) h = refl
last?-get (x ∷ y ∷ xs) h = last?-get (y ∷ xs) (omega arith) ∙ ap (get_elem? (x ∷ y ∷ xs)) at
  where
    at : suc (length (y ∷ xs) - 1) ≡ length (x ∷ y ∷ xs) - 1
    at = omega arith

last?-drop {ℓ} : {A : Type ℓ} (i : ℕ) (xs : List A) → i < length xs → last? (drop i xs) ≡ last? xs
last?-drop zero xs h = refl
last?-drop (suc i) [] h = absurd (omega arith)
last?-drop (suc i) (x ∷ []) h = absurd (omega arith)
last?-drop (suc i) (x ∷ y ∷ xs) h = last?-drop i (y ∷ xs) (omega arith)

get_elem?-drop {ℓ} :
    {A : Type ℓ} (i n : ℕ) (xs : List A) → get_elem? (drop i xs) n ≡ get_elem? xs (i + n)
get_elem?-drop zero n xs = ap (get_elem? xs) (omega arith)
get_elem?-drop (suc i) n [] = refl
get_elem?-drop (suc i) n (x ∷ xs) = get_elem?-drop i n xs ∙ ap (get_elem? (x ∷ xs)) at
  where
    at : suc (i + n) ≡ suc i + n
    at = omega arith

module _ {Ptr W : Type 0} (api : MidiApi Ptr W) (checks : Bool) (law : Lawful api) where
  pub next_lem :
      (it : MidiIter) (w : W)
      → it.index < 2 ^ 32
      → next api checks it w
        ≡ returns (get_elem? (held api law it w) it.index, record it { index = it.index + 1 })
  unfolding next
  next_lem it w h = rw (peek_lem api law it w h) (ground arith)

  -- Over a `Lawful` library and with a place below 2 ^ 32, `nth n` yields the message `n` places on
  -- from the iterator, if there is one, and leaves the iterator just behind that place.
  pub nth_lem :
      (n : ℕ) (it : MidiIter) (w : W)
      → it.index + n < 2 ^ 32
      → nth api checks n it w
        ≡ returns (get_elem? (remaining api law it w) n, record it { index = it.index + n + 1 })
  unfolding nth
  nth_lem n it w h =
      let moved : MidiIter = record it { index = it.index + n } in
      rw (get_elem?-drop it.index n (held api law it w)) (ground (arith, next_lem moved w h))

  -- Over a `Lawful` library and a buffer that is not the null pointer, `last` yields the last of
  -- the messages that the iterator has not reached, and nothing if there is none.
  pub last_lem :
      (it : MidiIter) (w : W) → it.buffer_ptr ≢ 0 → last api it w ≡ last? (remaining api law it w)
  unfolding last absolute_len
  last_lem it w h = elim (dec_lt it.index (length (held api law it w))) [
    | yes within ↦ ground (
      arith,
      law.counted it.buffer_ptr w,
      law.few it.buffer_ptr w,
      absolute_nth_lem api law it (length (held api law it w) - 1) w,
      last?-drop it.index (held api law it w) within,
      last?-get (held api law it w),
    )
    | no beyond ↦ ground (
      arith,
      law.counted it.buffer_ptr w,
      law.few it.buffer_ptr w,
      drop-all (held api law it w) it.index (omega arith),
    )
  ]

  -- Over a `Lawful` library and a buffer that is not the null pointer, `count` and `size_hint` of
  -- an iterator that is not behind the end give the number of messages left.
  pub count_lem :
      (it : MidiIter) (w : W)
      → it.buffer_ptr ≢ 0
      → it.index ≤ length (held api law it w)
      → let n = length (remaining api law it w) in
        (count api checks it w ≡ returns n) × (size_hint api checks it w ≡ returns (n, some n))
  unfolding count size_hint absolute_len
  count_lem it w h k =
      rw (length-drop it.index (held api law it w))
        (ground (arith, law.counted it.buffer_ptr w), ground (arith, law.counted it.buffer_ptr w))
