-- ===== src/Metadata/Tests.antt =====
-- A library that stores the one property that was set last; its value is at the address 1, its type at 2.
use rust_jack.Base.{
  ◌≢◌, ℕ, ◌≡◌, refl, Option, none, some, List, [], ◌==◌, if◌then◌else◌, ℤ, pos, negsuc, ok, returns,
}
use rust_jack.Strings.{codes, Utf8}
use rust_jack.Metadata.{Property, MetaApi, property_get, property_set}
use rust_jack.Metadata.Laws.{Stores, property_get-property_set}

abbrev Store : Type 0
Store = Option Property

abbrev typ_pointer : Option (List ℕ) → ℕ
typ_pointer none = 0
typ_pointer (some t) = 2

abbrev text : Option (List ℕ) → List ℕ
text none = []
text (some t) = t

abbrev answer : Store → ℤ × ℕ × ℕ × Store
answer none = (negsuc 0, 0, 0, none)
answer (some p) = (pos 0, 1, typ_pointer p.typ, some p)

abbrev bytes : ℕ → Store → List ℕ
bytes p none = []
bytes p (some q) = if p == 1 then q.value else text q.typ

abbrev lib : MetaApi Store
lib = record {
  jack_get_property = λ s k l. answer l;
  jack_set_property = λ c s k v t l. (pos 0, some (record { value = v; typ = t }));
  jack_remove_property = λ c s k l. (pos 0, none);
  jack_remove_properties = λ c s l. (pos 0, none);
  jack_remove_all_properties = λ c l. (pos 0, none);
  jack_free = λ p l. l;
  c_str = bytes;
}

two_nonzero : ◌≢◌ {A = ℕ} 2 0
two_nonzero e = cc

abbrev one_slot : Stores lib
one_slot = record {
  stored = λ s k l. l;
  set_stored = λ c s k v t l h. refl;
  get_code = λ s k p l h. rw h refl;
  get_value = λ s k p l h. rw h refl;
  get_no_typ = λ s k v l h. rw h refl;
  get_typ = λ s k v t l h. (rw h two_nonzero, rw h refl);
}

abbrev utf8 : Utf8
utf8 = record { to_str = λ s. some s; to_string_lossy = λ s. s }

abbrev robot : Property
robot = record { value = codes "robot"; typ = some (codes "text") }

property_get-property_set_example :
    (l' l'' : Store) × (property_set lib utf8 7 3 (codes "key") robot none ≡ returns (ok tt, l'))
    × (property_get lib utf8 3 (codes "key") l' ≡ returns (some robot, l''))
property_get-property_set_example =
    property_get-property_set lib utf8 one_slot 7 3 (codes "key") (codes "robot")
      (some (codes "text")) none (refl, refl) (refl, refl) (refl, refl) refl
