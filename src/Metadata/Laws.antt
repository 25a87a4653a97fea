-- ===== src/Metadata/Laws.antt =====
-- Setting and getting a property.
use rust_jack.Base.{ℕ, ◌≡◌, ◌≢◌, false, Option, none, some, arith, pos, ok, returns}
use rust_jack.Enums.{Str}
use rust_jack.Strings.{has_nul, Utf8}
use rust_jack.Metadata.{Property, MetaApi, property_get, property_set}

-- What the documentation of libjack says of its metadata: `stored` is the property of a subject and a
-- key. A set that returns 0 stores the value and the type; a get of what is stored returns 0 and
-- pointers to both, the second null if there is no type.
pub record Stores {L : Type 0} (api : MetaApi L) : Type 0 where
  pub stored : ℕ → Str → L → Option Property
  pub set_stored :
      (client subject : ℕ) (k v : Str) (t : Option Str) (l : L)
      → (api.jack_set_property client subject k v t l).0 ≡ pos 0
      → stored subject k (api.jack_set_property client subject k v t l).1
        ≡ some (record { value = v; typ = t })
  pub get_code :
      (subject : ℕ) (k : Str) (p : Property) (l : L)
      → stored subject k l ≡ some p
      → (api.jack_get_property subject k l).0 ≡ pos 0
  pub get_value :
      (subject : ℕ) (k : Str) (p : Property) (l : L)
      → stored subject k l ≡ some p
      → let (code, v, t, l') = api.jack_get_property subject k l in api.c_str v l' ≡ p.value
  pub get_no_typ :
      (subject : ℕ) (k v : Str) (l : L)
      → stored subject k l ≡ some (record { value = v; typ = none })
      → (api.jack_get_property subject k l).2 ≡ 0
  pub get_typ :
      (subject : ℕ) (k v typ : Str) (l : L)
      → stored subject k l ≡ some (record { value = v; typ = some typ })
      → let (code, v, t, l') = api.jack_get_property subject k l in (t ≢ 0) × (api.c_str t l' ≡ typ)

-- A string that is UTF-8 and holds no NUL byte.
abbrev pub IsText : Utf8 → Str → Type 0
IsText utf8 s = (has_nul s ≡ false) × (utf8.to_str s ≡ some s)

abbrev pub IsTextOrNone : Utf8 → Option Str → Type 0
IsTextOrNone utf8 none = Unit {0}
IsTextOrNone utf8 (some s) = IsText utf8 s

module _ {L : Type 0} (api : MetaApi L) (utf8 : Utf8) (law : Stores api) where
  -- Over a library that stores metadata (`Stores`), with a key, a value and a type, if there is one,
  -- that are UTF-8 without NUL bytes: if the library accepts `property_set`, it succeeds, and
  -- `property_get` then gives the same property back.
  pub property_get-property_set :
      (client subject : ℕ) (key value : Str) (typ : Option Str) (l : L)
      → IsText utf8 key
      → IsText utf8 value
      → IsTextOrNone utf8 typ
      → (api.jack_set_property client subject key value typ l).0 ≡ pos 0
      → let p : Property = record { value = value; typ = typ } in
        (l' l'' : L) × (property_set api utf8 client subject key p l ≡ returns (ok tt, l'))
        × (property_get api utf8 subject key l' ≡ returns (some p, l''))
  unfolding property_get property_set
  property_get-property_set client subject key value none l (nk, tk) (nv, tv) t e =
      let l' = (api.jack_set_property client subject key value none l).1 in
      let at = law.set_stored client subject key value none l e in
      let (code, v, t', l'') = api.jack_get_property subject key l' in
      (
        l',
        api.jack_free v l'',
        ground arith,
        ground (
          arith,
          law.get_code subject key _ l' at,
          law.get_value subject key _ l' at,
          law.get_no_typ subject key value l' at,
        ),
      )
  property_get-property_set client subject key value (some typ) l (nk, tk) (nv, tv) (nt, tt') e =
      let l' = (api.jack_set_property client subject key value (some typ) l).1 in
      let at = law.set_stored client subject key value (some typ) l e in
      let (code, v, t', l'') = api.jack_get_property subject key l' in
      let (nonnull, same) = law.get_typ subject key value typ l' at in
      (
        l',
        api.jack_free t' (api.jack_free v l''),
        ground arith,
        ground (
          arith,
          law.get_code subject key _ l' at,
          law.get_value subject key _ l' at,
          nonnull,
          same,
        ),
      )
