-- ===== src/Ringbuffer/Queue.antt =====
-- The ring buffer as a bounded queue of bytes.
use rust_jack.Base.{
  ℕ, zero, suc, ◌≤◌, min, ◌≡◌, refl, sym, ap, ◌∙◌, subst, List, [], ◌∷◌, ◌++◌, append-nil,
  append_assoc, arith, length, take, drop, take-append-drop, length-take, take-length-append,
}
use rust_jack.Ringbuffer.{
  RingApi, RingBufferReader, RingBufferWriter, read_buffer, peek, read_advance, get_read_vector,
  read_peek_iter, write_buffer, views, RingData,
}

-- What the documentation of libjack says of its ring buffer `handle`: the readable bytes, in the order
-- in which they were written, and the room that is left.
pub record Fifo {L : Type 0} (api : RingApi L) (handle : ℕ) : Type 0 where
  pub contents : L → List ℕ
  pub room : L → ℕ
  pub write_count :
      (xs : List ℕ) (l : L) → (api.jack_ringbuffer_write handle xs l).0 ≡ min (length xs) (room l)
  pub write_contents :
      (xs : List ℕ) (l : L)
      → contents (api.jack_ringbuffer_write handle xs l).1
        ≡ contents l ++ take (api.jack_ringbuffer_write handle xs l).0 xs
  pub read_count :
      (buf : List ℕ) (l : L)
      → (api.jack_ringbuffer_read handle buf l).0 ≡ min (length buf) (length (contents l))
  pub read_bytes :
      (buf : List ℕ) (l : L)
      → let (n, filled, l') = api.jack_ringbuffer_read handle buf l in
        filled ≡ take n (contents l) ++ drop n buf
  pub read_contents :
      (buf : List ℕ) (l : L)
      → let (n, filled, l') = api.jack_ringbuffer_read handle buf l in
        contents l' ≡ drop n (contents l)
  pub peek_count :
      (buf : List ℕ) (l : L)
      → (api.jack_ringbuffer_peek handle buf l).0 ≡ min (length buf) (length (contents l))
  pub peek_bytes :
      (buf : List ℕ) (l : L)
      → let (n, filled) = api.jack_ringbuffer_peek handle buf l in
        filled ≡ take n (contents l) ++ drop n buf
  pub advance_contents :
      (n : ℕ) (l : L)
      → n ≤ length (contents l)
      → contents (api.jack_ringbuffer_read_advance handle n l) ≡ drop n (contents l)
  pub vector_contents :
      (l : L)
      → let (v1, v2) = api.jack_ringbuffer_get_read_vector handle l in
        api.bytes_at v1.buf v1.len l ++ api.bytes_at v2.buf v2.len l ≡ contents l
  pub no_bytes : (p : ℕ) (l : L) → api.bytes_at p 0 l ≡ []

-- A call of one of the two halves.
pub data Call : Type 0 where
  put : List ℕ → Call
  get : List ℕ → Call

module _ {L : Type 0} (api : RingApi L) (r : RingBufferReader) (w : RingBufferWriter)
    (q : Fifo api r.ringbuffer_handle) where
  open q use {contents, room}

  -- `write_buffer` puts the longest part of the slice that has room behind what is readable, and
  -- returns its length, also for an empty slice.
  pub write_buffer_lem :
      (xs : List ℕ) (l : L)
      → r.ringbuffer_handle ≡ w.ringbuffer_handle
      → let (n, l') = write_buffer api w xs l in
        (n ≡ min (length xs) (room l)) × (contents l' ≡ contents l ++ take n xs)
  unfolding write_buffer
  write_buffer_lem [] l h = (omega arith, sym (append-nil (contents l)))
  write_buffer_lem (x ∷ xs) l h =
      subst
        (λ k.
          let (n, l') = api.jack_ringbuffer_write k (x ∷ xs) l in
          (n ≡ min (length (x ∷ xs)) (room l)) × (contents l' ≡ contents l ++ take n (x ∷ xs)))
        h (q.write_count (x ∷ xs) l, q.write_contents (x ∷ xs) l)

  -- `read_buffer` takes as many of the first readable bytes as fit into the slice, to its front, leaves
  -- the rest of the slice alone, and returns their number, also for an empty slice.
  pub read_buffer_lem :
      (buf : List ℕ) (l : L)
      → let (n, filled, l') = read_buffer api r buf l in
        (n ≡ min (length buf) (length (contents l)))
        × (filled ≡ take n (contents l) ++ drop n buf)
        × (contents l' ≡ drop n (contents l))
  unfolding read_buffer
  read_buffer_lem [] l = (omega arith, refl, refl)
  read_buffer_lem (x ∷ xs) l =
      (q.read_count (x ∷ xs) l, q.read_bytes (x ∷ xs) l, q.read_contents (x ∷ xs) l)

  -- With the ring buffer a queue of bytes (`Fifo`), a peek that is followed by an advance by its
  -- count is a read: the count, the slice and the readable bytes are the same.
  pub peek_advance_read :
      (buf : List ℕ) (l : L)
      → let (n, filled) = peek api r buf l in
        let (n', filled', l') = read_buffer api r buf l in
        (n ≡ n') × (filled ≡ filled') × (contents (read_advance api r n l) ≡ contents l')
  unfolding peek read_buffer read_advance
  peek_advance_read [] l = (refl, refl, q.advance_contents 0 l (omega arith))
  peek_advance_read (x ∷ xs) l = (
    same,
    q.peek_bytes (x ∷ xs) l
        ∙ ap (λ n. take n (contents l) ++ drop n (x ∷ xs)) same
        ∙ sym (q.read_bytes (x ∷ xs) l),
    q.advance_contents _ l (omega (arith, q.peek_count (x ∷ xs) l))
        ∙ ap (λ n. drop n (contents l)) same
        ∙ sym (q.read_contents (x ∷ xs) l),
  )
    where
      same :
          (api.jack_ringbuffer_peek r.ringbuffer_handle (x ∷ xs) l).0
          ≡ (api.jack_ringbuffer_read r.ringbuffer_handle (x ∷ xs) l).0
      same = q.peek_count (x ∷ xs) l ∙ sym (q.read_count (x ∷ xs) l)

  -- The second slice holds the same bytes, whether it starts where the library says or not.
  second_view :
      (v1 v2 : RingData) (l : L)
      → let v = (views (v1, v2)).1 in api.bytes_at v.buf v.len l ≡ api.bytes_at v2.buf v2.len l
  second_view v1 v2 l = at v2.len refl
    where
      at :
          (n : ℕ)
          → v2.len ≡ n
          → let v = (views (v1, v2)).1 in api.bytes_at v.buf v.len l ≡ api.bytes_at v2.buf v2.len l
      at zero e = rw e (q.no_bytes v1.buf l ∙ sym (q.no_bytes v2.buf l))
      at (suc n) e = ground arith

  -- With the ring buffer a queue of bytes (`Fifo`) whose two vectors hold the readable bytes, the
  -- reader's `peek_iter` goes over all the readable bytes in their order.
  pub read_peek_iter_lem : (l : L) → read_peek_iter api r l ≡ contents l
  unfolding read_peek_iter get_read_vector
  read_peek_iter_lem l =
      let (v1, v2) = api.jack_ringbuffer_get_read_vector r.ringbuffer_handle l in
      ap (◌++◌ (api.bytes_at v1.buf v1.len l)) (second_view v1 v2 l) ∙ q.vector_contents l

  -- The front of the slice behind a read.
  front :
      (buf : List ℕ) (l : L)
      → let (n, filled, l') = read_buffer api r buf l in take n filled ≡ take n (contents l)
  front buf l =
      let (n, filled, l') = read_buffer api r buf l in
      let (count, bytes, now) = read_buffer_lem buf l in
      ap (take n) bytes
      ∙ ap (λ k. take k (take n (contents l) ++ drop n buf))
          (omega (arith, length-take n (contents l), count))
      ∙ take-length-append (take n (contents l)) (drop n buf)

  -- A sequence of calls of the two halves: the bytes that were read and those that were accepted.
  unfoldable pub run : List Call → L → List ℕ × List ℕ × L
  unfolding write_buffer read_buffer
  run [] l = ([], [], l)
  run (put xs ∷ calls) l =
      let (n, l') = write_buffer api w xs l in
      let (read, written, l'') = run calls l' in (read, take n xs ++ written, l'')
  run (get buf ∷ calls) l =
      let (n, filled, l') = read_buffer api r buf l in
      let (read, written, l'') = run calls l' in (take n filled ++ read, written, l'')

  -- Two halves of one ring buffer, which the library keeps as a queue of bytes (`Fifo`): however
  -- their `write_buffer` and `read_buffer` calls are interleaved, the bytes come out in the order
  -- in which they were accepted, none is lost and none is invented. What was readable at first and
  -- then what was accepted is what was read and then what is readable at the end.
  pub run_lem :
      (calls : List Call) (l : L)
      → r.ringbuffer_handle ≡ w.ringbuffer_handle
      → let (read, written, l') = run calls l in contents l ++ written ≡ read ++ contents l'
  unfolding run
  run_lem [] l h = append-nil (contents l)
  run_lem (put xs ∷ calls) l h =
      let (n, l') = write_buffer api w xs l in
      let (_, now) = write_buffer_lem xs l h in
      sym (append_assoc (contents l) (take n xs) (run calls l').1)
      ∙ ap (λ c. c ++ (run calls l').1) (sym now)
      ∙ run_lem calls l' h
  run_lem (get buf ∷ calls) l h =
      let (n, filled, l') = read_buffer api r buf l in
      let (count, bytes, now) = read_buffer_lem buf l in
      ap (λ c. c ++ (run calls l').1) (sym (take-append-drop n (contents l)))
      ∙ append_assoc (take n (contents l)) (drop n (contents l)) (run calls l').1
      ∙ ap (λ c. take n (contents l) ++ c)
          (ap (λ c. c ++ (run calls l').1) (sym now) ∙ run_lem calls l' h)
      ∙ ap (λ t. t ++ ((run calls l').0 ++ contents (run calls l').2)) (sym (front buf l))
      ∙ sym (append_assoc (take n filled) (run calls l').0 (contents (run calls l').2))
