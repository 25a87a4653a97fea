-- ===== src/Transport/Samples.antt =====
-- Whole-number floats with a NaN, and a library that counts the calls of a transport.
use rust_jack.Base.{ℕ, suc, Bool, true, false, not, leb, ltb, if◌then◌else◌, ℤ, pos, negsuc}
use rust_jack.Floats.{Floats}
use rust_jack.Transport.Bbt.{TransportBbt, default_bbt}
use rust_jack.Transport.Position.{JackPosition, default_position}
use rust_jack.Transport.Control.{TransportApi, Transport}

pub data Num : Type 0 where
  nan : Num
  num : ℤ → Num

abbrev pub le : Num → Num → Bool
le nan y = false
le (num x) nan = false
le (num (pos a)) (num (pos b)) = leb a b
le (num (pos a)) (num (negsuc b)) = false
le (num (negsuc a)) (num (pos b)) = true
le (num (negsuc a)) (num (negsuc b)) = leb b a

abbrev pub lt : Num → Num → Bool
lt nan y = false
lt (num x) nan = false
lt (num x) (num y) = not (le (num y) (num x))

abbrev pub ceil_usize : Num → ℕ
ceil_usize (num (pos a)) = a
ceil_usize _ = 0

abbrev pub whole : Floats Num Num
whole = record {
  lit32 = λ n. num (pos n);
  lit64 = λ n. num (pos n);
  le32 = le;
  le64 = le;
  lt64 = lt;
  ceil_usize32 = ceil_usize;
  ceil_usize64 = ceil_usize;
}

abbrev pub start_bbt : TransportBbt Num Num
start_bbt = default_bbt whole

abbrev pub start_position : JackPosition Num Num
start_position = default_position whole

-- A library that counts the calls that reach it, and refuses to go beyond frame 1000.
abbrev pub counting : TransportApi Num Num ℕ
counting = record {
  jack_transport_start = λ c w. suc w;
  jack_transport_stop = λ c w. suc w;
  jack_transport_reposition = λ c p w. (if ltb 1000 p.frame then negsuc 0 else pos 0, suc w);
  jack_transport_locate = λ c f w. (if ltb 1000 f then negsuc 0 else pos 0, suc w);
  jack_transport_query = λ c p w. (3, p, suc w);
}

abbrev pub transport : Transport
transport = record { client_ptr = 9; client_life = record { cell = 1 } }
