-- ===== src/Port/Classes.antt =====
-- The ports up to the equality of src/port/port_impl.rs.
use mathlib.Core.Quot
use mathlib.Core.Quot.{Quot, Quot-set}
use native.Mathlib.Nat.{ℕ_set}
use Prim.Native.Nat.{Ordering}
use std.Univalence.{iso_to_path}
use rust_jack.Base.{ℕ, ◌≡◌, refl, ap, ◌↔◌, true, arith}
use rust_jack.Port.{Port, unowned}
use rust_jack.Port.Info.{port_eq, port_cmp, port_hash}

abbrev pub SamePort : Port → Port → Type 0
SamePort p q = port_eq p q ≡ true

-- Ports that are `==` are one.
abbrev pub PortClass : Type 0
PortClass = Quot SamePort

abbrev pub class_of : Port → PortClass
class_of p = Quot.mk p

port_eq_iff : (p q : Port) → SamePort p q ↔ (p.port_ptr ≡ q.port_ptr)
unfolding port_eq
port_eq_iff p q = (λ h. ground (arith, h), λ h. ground (arith, h))

abbrev pointer : PortClass → ℕ
pointer = Quot.lift ℕ_set (λ p. p.port_ptr) (λ p q h. (port_eq_iff p q).0 h)

-- Some port with a pointer.
abbrev port_at : ℕ → Port
port_at n = record {
  spec = unowned;
  client_ptr = 0;
  port_ptr = n;
  client_life = record { cell = 0 };
}

class_of-port_at : (c : PortClass) → class_of (port_at (pointer c)) ≡ c
class_of-port_at =
    Quot.ind (λ c. Quot-set _ _) (λ p. Quot.sound ((port_eq_iff (port_at p.port_ptr) p).1 refl))

-- The ports up to `==` are the pointers.
pub ports_are_pointers : PortClass ≡ ℕ
ports_are_pointers = iso_to_path (record {
  fun = pointer;
  inv = λ n. class_of (port_at n);
  rinv = λ n. refl;
  linv = class_of-port_at;
})

class_iff : (p q : Port) → SamePort p q ↔ (class_of p ≡ class_of q)
class_iff p q = (λ h. Quot.sound h, λ e. (port_eq_iff p q).1 (ap pointer e))

cmp_iff : (p q : Port) → (port_cmp p q ≡ Ordering.eq) ↔ SamePort p q
unfolding port_cmp port_eq
cmp_iff p q = (λ h. ground arith, λ h. ground arith)

-- Two ports are one up to `==` exactly if `==` says so, and exactly if their comparison gives `Equal`;
-- and the hash of a port is a function of what it is up to `==`.
pub port_hash-class_of :
    {H : Type 0} (write : ℕ → H → H) (p q : Port)
    → ((port_eq p q ≡ true) ↔ (class_of p ≡ class_of q))
      × ((port_cmp p q ≡ Ordering.eq) ↔ (class_of p ≡ class_of q))
      × ((hash : PortClass → H → H) × ((r : Port) → hash (class_of r) ≡ port_hash write r))
unfolding port_hash
port_hash-class_of write p q =
    let same = class_iff p q in
    let equal = cmp_iff p q in
    (same, (λ e. same.0 (equal.0 e), λ e. equal.1 (same.1 e)), (λ c. write (pointer c), λ r. refl))
