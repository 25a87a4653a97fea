-- ===== src/Examples/SetTransport/Laws.antt =====
-- What the commands of examples/set_transport.rs ask of the server.
use rust_jack.Base.{
  ℕ, ◌+◌, ◌^◌, ◌<◌, ◌≡◌, refl, ◌≢◌, Bool, some, List, ◌∷◌, pos, ok, returns, arith,
}
use rust_jack.Enums.{Str}
use rust_jack.Strings.{codes}
use rust_jack.Life.{Lives}
use rust_jack.Floats.{Floats}
use rust_jack.Transport.Bbt.{TransportBbt, with_bpm, with_bbt, with_timesig}
use rust_jack.Transport.Bbt.Validation.{IsValid, validated_iff}
use rust_jack.Transport.Position.{
  JackPosition, frame, set_frame, bbt, set_bbt, write_bbt, default_position,
}
use rust_jack.Transport.Position.Laws.{bbt-set_bbt}
use rust_jack.Transport.Control.{
  TransportApi, Transport, reposition, query, with_client, result_from_ffi, state_from_ffi,
}
use rust_jack.Examples.SetTransport.{
  Parses, new_bbt, finished, command, apply, or_default, set_transport, add_u32,
}

module _ {F32 F64 : Type 0} (parses : Parses F32 F64) where
  open parses use {parse_f64, parse_f32, parse_usize}

  -- A command with its arguments, and what it does to a bar, beat and tick; arguments behind those
  -- are not looked at.
  pub data Edits : Str → List Str → (TransportBbt F32 F64 → TransportBbt F32 F64) → Type 0 where
    tempo :
        {x : F64} (v : Str) (rest : List Str)
        → parse_f64 v ≡ some x
        → Edits (codes "bpm") (v ∷ rest) (with_bpm x)
    place :
        {bar beat tick : ℕ} (u v t : Str) (rest : List Str)
        → parse_usize u ≡ some bar
        → parse_usize v ≡ some beat
        → parse_usize t ≡ some tick
        → Edits (codes "locate") (u ∷ v ∷ t ∷ rest) (with_bbt bar beat tick)
    signature :
        {num denom : F32} (u v : Str) (rest : List Str)
        → parse_f32 u ≡ some num
        → parse_f32 v ≡ some denom
        → Edits (codes "sig") (u ∷ v ∷ rest) (with_timesig num denom)

module _ {F32 F64 W : Type 0} (fl : Floats F32 F64) (api : TransportApi F32 F64 W)
    (parses : Parses F32 F64) (lives : Lives) (transport : Transport) where
  command-Edits :
      {cmd : Str} {args : List Str} {f : TransportBbt F32 F64 → TransportBbt F32 F64}
      (b : TransportBbt F32 F64) (w : W)
      → Edits parses cmd args f
      → command fl api parses lives transport cmd args b w ≡ returns (new_bbt (f b), w)
  unfolding command
  command-Edits b w (tempo v rest e) = rw e refl
  command-Edits b w (place u v t rest e e' e'') = rw (e, e', e'') refl
  command-Edits b w (signature u v rest e e') = rw (e, e') refl

  query_lem :
      (w w₁ : W) (s : ℕ) (p : JackPosition F32 F64)
      → lives transport.client_life.cell ≢ 0
      → api.jack_transport_query transport.client_ptr (some (default_position fl)) w
        ≡ (s, some p, w₁)
      → query api (default_position fl) lives transport w
        ≡ (ok (record { position = p; state = state_from_ffi s }), w₁)
  unfolding query with_client
  query_lem w w₁ s p alive e = ground (arith, e)

  set_bbt-frame :
      (b : TransportBbt F32 F64) (n : ℕ) (p : JackPosition F32 F64)
      → IsValid fl b
      → frame (set_bbt fl (some b) (set_frame n p)).1 ≡ n
  unfolding set_bbt write_bbt frame set_frame
  set_bbt-frame b n p v = rw ((validated_iff fl b).1 v, frame) refl

  apply_lem :
      (b : TransportBbt F32 F64) (p : JackPosition F32 F64) (w : W)
      → lives transport.client_life.cell ≢ 0
      → IsValid fl b
      → let q = (set_bbt fl (some b) p).1 in
        (api.jack_transport_reposition transport.client_ptr q w).0 ≡ pos 0
        → apply fl api parses lives transport (new_bbt b) p w
          ≡ returns (finished, (api.jack_transport_reposition transport.client_ptr q w).1)
  unfolding apply set_bbt reposition with_client result_from_ffi
  apply_lem b p w alive v accepted = ground (arith, (validated_iff fl b).1 v, accepted)

  -- A command that changes the tempo, the place or the signature, with arguments that parse: if the
  -- client is alive, the server reports a position whose frame can be raised by 44100, the change of
  -- its bar, beat and tick, or of the default ones where it has none, is valid and fits the fields of
  -- C, and the server accepts the new position, then the program finishes; it calls the server twice,
  -- to query and to reposition, and the position that it sends has the changed bar, beat and tick and
  -- the raised frame.
  pub set_transport_lem :
      {cmd : Str} {args : List Str} {f : TransportBbt F32 F64 → TransportBbt F32 F64}
      (checks : Bool) (w w₁ : W) (s : ℕ) (p : JackPosition F32 F64)
      → lives transport.client_life.cell ≢ 0
      → api.jack_transport_query transport.client_ptr (some (default_position fl)) w
        ≡ (s, some p, w₁)
      → frame p + 44100 < 2 ^ 32
      → Edits parses cmd args f
      → let b = f (or_default fl api parses lives transport (bbt fl p)) in
        let q = (set_bbt fl (some b) (set_frame (frame p + 44100) p)).1 in
        IsValid fl b
        → b.bar < 2 ^ 31
        → b.beat < 2 ^ 31
        → b.tick < 2 ^ 31
        → (api.jack_transport_reposition transport.client_ptr q w₁).0 ≡ pos 0
        → (set_transport fl api parses lives transport checks (cmd ∷ args) w
            ≡ returns (finished, (api.jack_transport_reposition transport.client_ptr q w₁).1))
          × (bbt fl q ≡ some b)
          × (frame q ≡ frame p + 44100)
  unfolding set_transport
  set_transport_lem checks w w₁ s p alive e fits edits v bar beat tick accepted = (
    rw (query_lem w w₁ s p alive e, sum)
        (rw (command-Edits (or_default fl api parses lives transport (bbt fl p)) w₁ edits)
          (apply_lem _ _ _ alive v accepted)),
    (bbt-set_bbt fl _ _ v bar beat tick).1,
    set_bbt-frame _ _ p v,
  )
    where
      sum : add_u32 checks (frame p) 44100 ≡ returns (frame p + 44100)
      sum = ground arith
