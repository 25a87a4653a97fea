-- ===== src/Ringbuffer/Halves.antt =====
-- Who frees a ring buffer: splitting it, joining it, and dropping its parts.
use rust_jack.Base.{◌≡◌, refl, ◌≢◌, arith, returns}
use rust_jack.Ringbuffer.{
  RingApi, RingBuffer, into_reader_writer, from_reader_writer, drop_ring, drop_reader, drop_writer,
}

module _ {L : Type 0} (api : RingApi L) where
  -- The two halves of a ring buffer never free it: dropped in either order, they leave the library as
  -- it is.
  pub halves_leak :
      (rb : RingBuffer) (l : L)
      → let (r, w) = into_reader_writer rb in
        (drop_writer api w (drop_reader api r l) ≡ l)
        × (drop_reader api r (drop_writer api w l) ≡ l)
  unfolding into_reader_writer drop_reader drop_writer
  halves_leak rb l = (refl, refl)

  -- The halves of a ring buffer that is not the null pointer can be joined to the same ring buffer
  -- again, without a call of the library, and dropping what is joined frees its handle once.
  pub from_reader_writer-into_reader_writer :
      (rb : RingBuffer) (l : L)
      → rb.handle ≢ 0
      → let (r, w) = into_reader_writer rb in
        (from_reader_writer api r w l ≡ (returns rb, l))
        × (drop_ring api rb l ≡ api.jack_ringbuffer_free rb.handle l)
  unfolding into_reader_writer from_reader_writer drop_ring
  from_reader_writer-into_reader_writer rb l h = (ground arith, ground arith)
