-- ===== src/Ringbuffer/Tests.antt =====
-- A ring buffer of four bytes, whose state is the list of its readable bytes.
use rust_jack.Base.{
  ℕ, ◌+◌, ◌-◌, min, ◌≡◌, refl, ◌∙◌, List, [], ◌∷◌, ◌++◌, append-nil, arith, length, take, drop,
  take-all,
}
use rust_jack.Ringbuffer.{
  RingApi, RingBuffer, into_reader_writer, drop_reader, drop_writer, new_reader, new_writer,
  read_buffer, peek, read_advance, write_buffer,
}
use rust_jack.Ringbuffer.Halves.{halves_leak}
use rust_jack.Ringbuffer.Queue.{
  Fifo, Call, put, get, write_buffer_lem, read_buffer_lem, peek_advance_read, run, run_lem,
}

abbrev Bytes : Type 0
Bytes = List ℕ

abbrev count : Bytes → Bytes → ℕ
count buf l = min (length buf) (length l)

abbrev accepted : Bytes → Bytes → ℕ
accepted xs l = min (length xs) (4 - length l)

-- The bytes stand at the address 1.
abbrev lib : RingApi Bytes
lib = record {
  jack_ringbuffer_create = λ size l. (1, []);
  jack_ringbuffer_free = λ h l. [];
  jack_ringbuffer_mlock = λ h l. l;
  jack_ringbuffer_reset = λ h l. [];
  jack_ringbuffer_read = λ h buf l.
      (count buf l, take (count buf l) l ++ drop (count buf l) buf, drop (count buf l) l);
  jack_ringbuffer_peek = λ h buf l. (count buf l, take (count buf l) l ++ drop (count buf l) buf);
  jack_ringbuffer_read_advance = λ h n l. drop n l;
  jack_ringbuffer_read_space = λ h l. length l;
  jack_ringbuffer_get_read_vector =
      λ h l. (record { buf = 1; len = length l }, record { buf = 0; len = 0 });
  jack_ringbuffer_write = λ h xs l. (accepted xs l, l ++ take (accepted xs l) xs);
  jack_ringbuffer_write_advance = λ h n l. l;
  jack_ringbuffer_write_space = λ h l. 4 - length l;
  jack_ringbuffer_get_write_vector =
      λ h l. (record { buf = 1 + length l; len = 4 - length l }, record { buf = 0; len = 0 });
  bytes_at = λ p n l. take n l;
}

abbrev four_bytes : Fifo lib 1
four_bytes = record {
  contents = λ l. l;
  room = λ l. 4 - length l;
  write_count = λ xs l. refl;
  write_contents = λ xs l. refl;
  read_count = λ buf l. refl;
  read_bytes = λ buf l. refl;
  read_contents = λ buf l. refl;
  peek_count = λ buf l. refl;
  peek_bytes = λ buf l. refl;
  advance_contents = λ n l h. refl;
  vector_contents = λ l. append-nil (take (length l) l) ∙ take-all (length l) l (omega arith);
  no_bytes = λ p l. refl;
}

abbrev ring : RingBuffer
ring = record { handle = 1 }

halves_leak_example :
    (drop_writer lib (new_writer 1) (drop_reader lib (new_reader 1) (5 ∷ [])) ≡ 5 ∷ [])
    × (drop_reader lib (new_reader 1) (drop_writer lib (new_writer 1) (5 ∷ [])) ≡ 5 ∷ [])
unfolding into_reader_writer
halves_leak_example = halves_leak lib ring (5 ∷ [])

write_buffer_lem_example :
    let (n, l) = write_buffer lib (new_writer 1) (6 ∷ 7 ∷ 8 ∷ []) (4 ∷ 5 ∷ []) in
    (n ≡ 2) × (l ≡ 4 ∷ 5 ∷ take n (6 ∷ 7 ∷ 8 ∷ []))
write_buffer_lem_example =
    write_buffer_lem lib (new_reader 1) (new_writer 1) four_bytes (6 ∷ 7 ∷ 8 ∷ []) (4 ∷ 5 ∷ []) refl

read_buffer_lem_example :
    let (n, filled, l) = read_buffer lib (new_reader 1) (0 ∷ 0 ∷ 0 ∷ []) (4 ∷ 5 ∷ []) in
    (n ≡ 2) × (filled ≡ take n (4 ∷ 5 ∷ []) ++ drop n (0 ∷ 0 ∷ 0 ∷ [])) × (l ≡ drop n (4 ∷ 5 ∷ []))
read_buffer_lem_example =
    read_buffer_lem lib (new_reader 1) (new_writer 1) four_bytes (0 ∷ 0 ∷ 0 ∷ []) (4 ∷ 5 ∷ [])

peek_advance_read_example :
    let (n, filled) = peek lib (new_reader 1) (0 ∷ []) (4 ∷ 5 ∷ []) in
    let (n', filled', l) = read_buffer lib (new_reader 1) (0 ∷ []) (4 ∷ 5 ∷ []) in
    (n ≡ n') × (filled ≡ filled') × (read_advance lib (new_reader 1) n (4 ∷ 5 ∷ []) ≡ l)
peek_advance_read_example =
    peek_advance_read lib (new_reader 1) (new_writer 1) four_bytes (0 ∷ []) (4 ∷ 5 ∷ [])

abbrev calls : List Call
calls = put (6 ∷ 7 ∷ 8 ∷ []) ∷ get (0 ∷ 0 ∷ 0 ∷ []) ∷ put (9 ∷ []) ∷ get [] ∷ []

run_lem_example :
    let (read, written, l) = run lib (new_reader 1) (new_writer 1) four_bytes calls (4 ∷ 5 ∷ []) in
    4 ∷ 5 ∷ written ≡ read ++ l
run_lem_example = run_lem lib (new_reader 1) (new_writer 1) four_bytes calls (4 ∷ 5 ∷ []) refl
