-- ===== src/Midi/Scoped.antt =====
-- The buffers of ports, and process scopes of other clients.
use rust_jack.Base.{◌≡◌, ◌≢◌, ◌↔◌, arith, panics}
use rust_jack.Scope.{ProcessScope}
use rust_jack.Port.{Port, PortApi}
use rust_jack.Port.Specs.{as_slice, as_mut_slice}
use rust_jack.Midi.{MidiApi, iter, writer}

module _ {Ptr W : Type 0} (api : MidiApi Ptr W) (ports : PortApi W) where
  -- The four ways into a port's buffer, `as_slice`, `as_mut_slice`, `iter` and `writer`, panic exactly
  -- when the scope belongs to another client than the port.
  pub foreign_scope :
      (p : Port) (ps : ProcessScope) (w : W)
      → ((as_slice ports p ps w ≡ panics) ↔ (p.client_ptr ≢ ps.client_ptr))
        × ((as_mut_slice ports p ps w ≡ panics) ↔ (p.client_ptr ≢ ps.client_ptr))
        × ((iter api ports p ps w ≡ panics) ↔ (p.client_ptr ≢ ps.client_ptr))
        × ((writer api ports p ps w ≡ panics) ↔ (p.client_ptr ≢ ps.client_ptr))
  unfolding as_slice as_mut_slice iter writer
  foreign_scope p ps w = (
    (λ h. ground arith, λ h. ground arith),
    (λ h. ground arith, λ h. ground arith),
    (λ h. ground arith, λ h. ground arith),
    (λ h. ground arith, λ h. ground arith),
  )
