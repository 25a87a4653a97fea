-- ===== src/Port/Info.antt =====
-- What is printed of a port, and how ports compare: the last part of src/port/port_impl.rs.
use rust_jack.Base.{ℕ, Bool, Option, some, List, [], ◌==◌, Result, ok, err}
use rust_jack.Enums.{Str}
use rust_jack.Life.{Lives}
use rust_jack.Strings.{Utf8, codes}
use Prim.Native.Nat.{Ordering, compare}
use rust_jack.Port.{PortFlags, Port, PortApi, name, connected_count, aliases}

-- What `Debug for Port` prints.
pub record PortInfo : Type 0 where
  pub info_name : Str
  pub connections : ℕ
  pub info_port_type : Str
  pub port_flags : PortFlags
  pub info_aliases : List Str

-- `Result::unwrap_or`
abbrev pub unwrap_or {ℓ κ} : {A : Type ℓ} {E : Type κ} → Result A E → A → A
unwrap_or (ok a) d = a
unwrap_or (err e) d = d

-- "client not alive"
abbrev pub not_alive : Str
not_alive = codes "client not alive"

-- `PortInfo::new`
unfoldable pub port_info : {W : Type 0} → PortApi W → Utf8 → Lives → Port → W → PortInfo
unfolding name connected_count aliases
port_info api utf8 lives p w = record {
  info_name = unwrap_or (name api utf8 lives p w) not_alive;
  connections = unwrap_or (connected_count api utf8 lives p w) 0;
  info_port_type = p.spec.jack_port_type;
  port_flags = p.spec.jack_flags;
  info_aliases = unwrap_or (aliases api utf8 lives p w) [];
}

-- `PartialEq`, `Ord` and `PartialOrd` for `Port`
unfoldable pub port_eq : Port → Port → Bool
port_eq p q = p.port_ptr == q.port_ptr

unfoldable pub port_cmp : Port → Port → Ordering
port_cmp p q = compare p.port_ptr q.port_ptr

unfoldable pub port_partial_cmp : Port → Port → Option Ordering
unfolding port_cmp
port_partial_cmp p q = some (port_cmp p q)

-- `Hash for Port`, into a hasher given by what it does with a pointer.
unfoldable pub port_hash {ℓ} : {H : Type ℓ} → (ℕ → H → H) → Port → H → H
port_hash write p = write p.port_ptr
