-- ===== src/Metadata.antt =====
-- src/properties.rs: the metadata of ports and clients.
pub mod Laws
pub mod Maps
mod Tests
use rust_jack.Base.{
  ℕ, zero, Option, none, some, List, ◌==◌, if◌then◌else◌, ℤ, pos, negsuc, Result, ok, err, Panics,
  returns, map_returns, and_then, unwrap,
}
use rust_jack.Enums.{Str, Error, unknown_error}
use rust_jack.Strings.{c_string, Utf8}

-- `PropertyChange`, and `PropertyChangeOwned`, which differs in who owns the key.
pub data PropertyChange : Type 0 where
  created changed deleted : ℕ → Str → PropertyChange

-- `PropertyCreated` and `PropertyDeleted`
abbrev pub property_created : ℕ
property_created = 0

abbrev pub property_deleted : ℕ
property_deleted = 2

pub record Property : Type 0 where
  pub value : Str
  pub typ : Option Str

-- The metadata functions of libjack over its state `L`. 0 is the null pointer; a property that is looked
-- up comes back as a code and two pointers to C strings.
pub record MetaApi (L : Type 0) : Type 0 where
  pub jack_get_property : ℕ → Str → L → ℤ × ℕ × ℕ × L
  pub jack_set_property : ℕ → ℕ → Str → Str → Option Str → L → ℤ × L
  pub jack_remove_property : ℕ → ℕ → Str → L → ℤ × L
  pub jack_remove_properties : ℕ → ℕ → L → ℤ × L
  pub jack_remove_all_properties : ℕ → L → ℤ × L
  pub jack_free : ℕ → L → L
  pub c_str : ℕ → L → List ℕ

-- `property_changed`, over the state `H` of the handler.
unfoldable pub property_changed :
    {H : Type 0} → Utf8 → (PropertyChange → H → H) → ℕ → List ℕ → ℕ → H → Panics H
property_changed utf8 handler subject key change h =
    map_returns
      (λ k.
        handler
          (if change == property_created
            then created subject k
            else if change == property_deleted
            then deleted subject k
            else changed subject k)
          h)
      (unwrap (utf8.to_str key))

-- `map_error`
abbrev pub map_error : ℤ → Result (Unit {0}) Error
map_error (pos zero) = ok tt
map_error _ = err unknown_error

-- The test of `property_remove_subject`: only -1 is an error.
abbrev pub unless_minus_one : ℤ → Result (Unit {0}) Error
unless_minus_one (negsuc zero) = err unknown_error
unless_minus_one _ = ok tt

module _ {L : Type 0} (api : MetaApi L) (utf8 : Utf8) where
  open api use {
    jack_get_property, jack_set_property, jack_remove_property, jack_remove_properties,
    jack_remove_all_properties, jack_free, c_str,
  }

  -- The type of a property, `None` for the null pointer.
  abbrev typ_at : ℕ → L → Panics (Option Str)
  typ_at p l = if p == 0 then returns none else map_returns some (unwrap (utf8.to_str (c_str p l)))

  -- What `property_get` makes of the two pointers, and the release of both.
  abbrev found : ℤ → ℕ → ℕ → L → Panics (Option Property × L)
  found (pos zero) v t l = and_then (unwrap (utf8.to_str (c_str v l))) λ value.
      map_returns
        (λ typ. (
          some (record { value = value; typ = typ }),
          if t == 0 then jack_free v l else jack_free t (jack_free v l),
        ))
        (typ_at t l)
  found _ v t l = returns (none, l)

  unfoldable pub property_get : ℕ → Str → L → Panics (Option Property × L)
  property_get subject key l =
      and_then (c_string key)
        λ k. let (code, v, t, l') = jack_get_property subject k l in found code v t l'

  -- The type of a property as a C string, if it has one.
  abbrev typ_string : Option Str → Panics (Option Str)
  typ_string none = returns none
  typ_string (some t) = map_returns some (c_string t)

  unfoldable pub property_set : ℕ → ℕ → Str → Property → L → Panics (Result (Unit {0}) Error × L)
  property_set client subject key p l = and_then (c_string key) λ k.
      and_then (c_string p.value) λ v.
        map_returns
          (λ t. let (code, l') = jack_set_property client subject k v t l in (map_error code, l'))
          (typ_string p.typ)

  unfoldable pub property_remove : ℕ → ℕ → Str → L → Panics (Result (Unit {0}) Error × L)
  property_remove client subject key l =
      map_returns
        (λ k. let (code, l') = jack_remove_property client subject k l in (map_error code, l'))
        (c_string key)

  unfoldable pub property_remove_subject : ℕ → ℕ → L → Result (Unit {0}) Error × L
  property_remove_subject client subject l =
      let (code, l') = jack_remove_properties client subject l in (unless_minus_one code, l')

  unfoldable pub property_remove_all : ℕ → L → Result (Unit {0}) Error × L
  property_remove_all client l =
      let (code, l') = jack_remove_all_properties client l in (map_error code, l')
