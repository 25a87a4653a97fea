-- ===== src/Ringbuffer.antt =====
-- src/ringbuffer.rs: the ring buffer and its two halves, over the ring buffer functions of libjack.
pub mod Queue
pub mod Halves
mod Tests
use rust_jack.Base.{
  ℕ, zero, suc, ◌+◌, Bool, true, List, [], ◌∷◌, ◌++◌, ◌==◌, if◌then◌else◌, Result, ok, err, Panics,
  returns, panics,
}
use rust_jack.Enums.{Error, ringbuffer_create_failed}

-- `jack_ringbuffer_data_t`
pub record RingData : Type 0 where
  pub buf : ℕ
  pub len : ℕ

-- The ring buffer functions of libjack over its state `L`. A handle is a pointer, 0 the null pointer. A
-- slice that the caller gives is the list of its bytes, and what is written to it comes back.
pub record RingApi (L : Type 0) : Type 0 where
  pub jack_ringbuffer_create : ℕ → L → ℕ × L
  pub jack_ringbuffer_free : ℕ → L → L
  pub jack_ringbuffer_mlock : ℕ → L → L
  pub jack_ringbuffer_reset : ℕ → L → L
  pub jack_ringbuffer_read : ℕ → List ℕ → L → ℕ × List ℕ × L
  pub jack_ringbuffer_peek : ℕ → List ℕ → L → ℕ × List ℕ
  pub jack_ringbuffer_read_advance : ℕ → ℕ → L → L
  pub jack_ringbuffer_read_space : ℕ → L → ℕ
  pub jack_ringbuffer_get_read_vector : ℕ → L → RingData × RingData
  pub jack_ringbuffer_write : ℕ → List ℕ → L → ℕ × L
  pub jack_ringbuffer_write_advance : ℕ → ℕ → L → L
  pub jack_ringbuffer_write_space : ℕ → L → ℕ
  pub jack_ringbuffer_get_write_vector : ℕ → L → RingData × RingData
  -- The bytes at an address, `slice::from_raw_parts`.
  pub bytes_at : ℕ → ℕ → L → List ℕ

pub record RingBuffer : Type 0 where
  pub handle : ℕ

pub record RingBufferReader : Type 0 where
  pub ringbuffer_handle : ℕ
  pub both_live : Bool

pub record RingBufferWriter : Type 0 where
  pub ringbuffer_handle : ℕ
  pub both_live : Bool

-- `RingBufferReader::new` and `RingBufferWriter::new`
abbrev pub new_reader : ℕ → RingBufferReader
new_reader raw = record { ringbuffer_handle = raw; both_live = true }

abbrev pub new_writer : ℕ → RingBufferWriter
new_writer raw = record { ringbuffer_handle = raw; both_live = true }

-- The halves take the handle over, and the ring buffer is forgotten.
unfoldable pub into_reader_writer : RingBuffer → RingBufferReader × RingBufferWriter
into_reader_writer rb = (new_reader rb.handle, new_writer rb.handle)

-- The second slice, which starts where the first does if it is empty.
abbrev pub views : RingData × RingData → RingData × RingData
views (v1, v2) = (v1, if v2.len == 0 then record v2 { buf = v1.buf } else v2)

-- The addresses of a slice.
abbrev pub addresses : ℕ → ℕ → List ℕ
addresses buf zero = []
addresses buf (suc n) = buf ∷ addresses (buf + 1) n

module _ {L : Type 0} (api : RingApi L) where
  open api use {
    jack_ringbuffer_create, jack_ringbuffer_free, jack_ringbuffer_mlock, jack_ringbuffer_reset,
    jack_ringbuffer_read, jack_ringbuffer_peek, jack_ringbuffer_read_advance,
    jack_ringbuffer_read_space, jack_ringbuffer_get_read_vector, jack_ringbuffer_write,
    jack_ringbuffer_write_advance, jack_ringbuffer_write_space, jack_ringbuffer_get_write_vector,
    bytes_at,
  }

  -- `RingBuffer::new`
  unfoldable pub create : ℕ → L → Result RingBuffer Error × L
  create size l =
      let (handle, l') = jack_ringbuffer_create size l in
      (if handle == 0 then err ringbuffer_create_failed else ok (record { handle = handle }), l')

  unfoldable pub mlock : RingBuffer → L → L
  mlock rb = jack_ringbuffer_mlock rb.handle

  unfoldable pub reset : RingBuffer → L → L
  reset rb = jack_ringbuffer_reset rb.handle

  -- `Drop for RingBuffer`
  unfoldable pub drop_ring : RingBuffer → L → L
  drop_ring rb l = if rb.handle == 0 then l else jack_ringbuffer_free rb.handle l

  -- `Drop for RingBufferReader`: `compare_exchange` gives `Err(false)` exactly if the flag is false.
  unfoldable pub drop_reader : RingBufferReader → L → L
  unfolding drop_ring
  drop_reader r l = if r.both_live then l else drop_ring (record { handle = r.ringbuffer_handle }) l

  unfoldable pub drop_writer : RingBufferWriter → L → L
  unfolding drop_ring
  drop_writer w l = if w.both_live then l else drop_ring (record { handle = w.ringbuffer_handle }) l

  -- `RingBuffer::from_reader_writer`, with the library behind it: a panic drops the writer and then the
  -- reader.
  unfoldable pub from_reader_writer :
      RingBufferReader → RingBufferWriter → L → Panics RingBuffer × L
  unfolding drop_reader drop_writer
  from_reader_writer r w l =
      if r.ringbuffer_handle == w.ringbuffer_handle
      then (returns (record { handle = r.ringbuffer_handle }), l)
      else (panics, drop_reader r (drop_writer w l))

  -- `RingBufferReader::read_buffer`: the number of bytes, the buffer, and the library.
  unfoldable pub read_buffer : RingBufferReader → List ℕ → L → ℕ × List ℕ × L
  read_buffer r [] l = (0, [], l)
  read_buffer r (b ∷ buf) l = jack_ringbuffer_read r.ringbuffer_handle (b ∷ buf) l

  unfoldable pub peek : RingBufferReader → List ℕ → L → ℕ × List ℕ
  peek r [] l = (0, [])
  peek r (b ∷ buf) l = jack_ringbuffer_peek r.ringbuffer_handle (b ∷ buf) l

  -- `RingBufferReader::advance` and `RingBufferReader::space`
  unfoldable pub read_advance : RingBufferReader → ℕ → L → L
  read_advance r cnt = jack_ringbuffer_read_advance r.ringbuffer_handle cnt

  unfoldable pub read_space : RingBufferReader → L → ℕ
  read_space r = jack_ringbuffer_read_space r.ringbuffer_handle

  -- The two slices of `RingBufferReader::get_vector`.
  unfoldable pub get_read_vector : RingBufferReader → L → List ℕ × List ℕ
  get_read_vector r l =
      let (v1, v2) = views (jack_ringbuffer_get_read_vector r.ringbuffer_handle l) in
      (bytes_at v1.buf v1.len l, bytes_at v2.buf v2.len l)

  -- `RingBufferReader::peek_iter`
  unfoldable pub read_peek_iter : RingBufferReader → L → List ℕ
  unfolding get_read_vector
  read_peek_iter r l = let (view1, view2) = get_read_vector r l in view1 ++ view2

  unfoldable pub write_buffer : RingBufferWriter → List ℕ → L → ℕ × L
  write_buffer w [] l = (0, l)
  write_buffer w (b ∷ buf) l = jack_ringbuffer_write w.ringbuffer_handle (b ∷ buf) l

  -- `RingBufferWriter::advance` and `RingBufferWriter::space`
  unfoldable pub write_advance : RingBufferWriter → ℕ → L → L
  write_advance w cnt = jack_ringbuffer_write_advance w.ringbuffer_handle cnt

  unfoldable pub write_space : RingBufferWriter → L → ℕ
  write_space w = jack_ringbuffer_write_space w.ringbuffer_handle

  -- The two writable slices of `RingBufferWriter::get_vector`, by address and length.
  unfoldable pub get_write_vector : RingBufferWriter → L → RingData × RingData
  get_write_vector w l = views (jack_ringbuffer_get_write_vector w.ringbuffer_handle l)

  -- The addresses that `RingBufferWriter::peek_iter` goes over, in its order.
  unfoldable pub write_peek_iter : RingBufferWriter → L → List ℕ
  unfolding get_write_vector
  write_peek_iter w l =
      let (v1, v2) = get_write_vector w l in addresses v1.buf v1.len ++ addresses v2.buf v2.len

  -- `Read for RingBufferReader` and `Write for RingBufferWriter`, which never give an error.
  unfoldable pub io_read : RingBufferReader → List ℕ → L → Result (ℕ × List ℕ) Error × L
  unfolding read_buffer
  io_read r buf l = let (n, filled, l') = read_buffer r buf l in (ok (n, filled), l')

  unfoldable pub io_write : RingBufferWriter → List ℕ → L → Result ℕ Error × L
  unfolding write_buffer
  io_write w buf l = let (n, l') = write_buffer w buf l in (ok n, l')

  unfoldable pub io_flush : RingBufferWriter → L → Result (Unit {0}) Error × L
  io_flush w l = (ok tt, l)
