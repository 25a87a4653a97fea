-- ===== src/Transport/Control/Laws.antt =====
-- The calls of a transport whose client is gone.
use rust_jack.Base.{ℕ, ◌≡◌, arith, err}
use rust_jack.Enums.{client_is_no_longer_alive}
use rust_jack.Life.{Lives}
use rust_jack.Transport.Position.{JackPosition}
use rust_jack.Transport.Control.{
  TransportApi, Transport, start, stop, reposition, locate, query, query_state,
}

module _ {F32 F64 W : Type 0} (api : TransportApi F32 F64 W) (zeroed : JackPosition F32 F64) where
  module _ (lives : Lives) (t : Transport) (w : W) where
    -- Once the client is gone, every call of its transport fails with `ClientIsNoLongerAlive` and
    -- does not reach the JACK library.
    pub dead_client :
        (p : JackPosition F32 F64) (frame : ℕ)
        → lives t.client_life.cell ≡ 0
        → (start api zeroed lives t w ≡ (err client_is_no_longer_alive, w))
          × (stop api zeroed lives t w ≡ (err client_is_no_longer_alive, w))
          × (reposition api zeroed lives t p w ≡ (err client_is_no_longer_alive, w))
          × (locate api zeroed lives t frame w ≡ (err client_is_no_longer_alive, w))
          × (query api zeroed lives t w ≡ (err client_is_no_longer_alive, w))
          × (query_state api zeroed lives t w ≡ (err client_is_no_longer_alive, w))
    unfolding start stop reposition locate query query_state
    dead_client p frame h =
        (ground arith, ground arith, ground arith, ground arith, ground arith, ground arith)
