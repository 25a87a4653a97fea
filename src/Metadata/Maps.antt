-- ===== src/Metadata/Maps.antt =====
-- The maps of properties of src/properties.rs: what `property_get_subject` and `property_get_all` read
-- from the descriptions of the library, and the kinds of change that are sent between threads.
pub mod Laws
mod Tests
use rust_jack.Base.{
  ℕ, suc, Bool, true, false, ◌&&◌, Option, none, some, List, [], ◌∷◌, ◌==◌, if◌then◌else◌, ℤ, pos,
  Panics, returns, map_returns, and_then, unwrap,
}
use rust_jack.Enums.{Str}
use rust_jack.Strings.{Utf8}
use rust_jack.Metadata.{PropertyChange, created, changed, deleted, Property}

-- `HashMap` of the standard library, as what it maps a key to, and its `insert`.
abbrev pub HashMap : Type 0 → Type 0 → Type 0
HashMap K V = K → Option V

abbrev pub insert : {K V : Type 0} → (K → K → Bool) → K → V → HashMap K V → HashMap K V
insert same k v m j = if same j k then some v else m j

abbrev pub new_map : {K V : Type 0} → HashMap K V
new_map j = none

-- `==` of strings.
abbrev pub same_str : Str → Str → Bool
same_str [] [] = true
same_str [] (c ∷ t) = false
same_str (b ∷ s) [] = false
same_str (b ∷ s) (c ∷ t) = b == c && same_str s t

-- `PropertyMap`
abbrev pub PropertyMap : Type 0
PropertyMap = HashMap Str Property

-- `jack_property_t`, three pointers to C strings, and `jack_description_t` with the slice that its
-- pointer and its count give.
pub record JackProperty : Type 0 where
  pub key : ℕ
  pub value : ℕ
  pub typ : ℕ

pub record Description : Type 0 where
  pub subject : ℕ
  pub properties : List JackProperty

-- The functions of libjack for descriptions. `jack_get_properties` is given the memory that it may write
-- and returns what stands there then; `jack_get_all_properties` gives a count and an array, whose
-- descriptions are `described`.
pub record DescriptionApi (L : Type 0) : Type 0 where
  pub jack_get_properties : ℕ → Description → L → ℤ × Description × L
  pub jack_get_all_properties : L → ℤ × ℕ × L
  pub described : ℕ → ℕ → L → List Description
  pub jack_free_description : Description → L → L
  pub jack_free : ℕ → L → L
  pub c_str : ℕ → L → List ℕ

-- `Property::new`
unfoldable pub property_new : Str → Option Str → Property
property_new value typ = record { value = value; typ = typ }

-- `From<&PropertyChange> for PropertyChangeOwned`; the two types differ in who owns the key.
unfoldable pub to_owned : PropertyChange → PropertyChange
to_owned (created subject key) = created subject key
to_owned (changed subject key) = changed subject key
to_owned (deleted subject key) = deleted subject key

-- `ClosurePropertyChangeHandler`, over the state `H` of its closure.
pub record ClosureHandler (H : Type 0) : Type 0 where
  pub func : PropertyChange → H → H

-- Its `PropertyChangeHandler`.
unfoldable pub closure_property_changed : {H : Type 0} → ClosureHandler H → PropertyChange → H → H
closure_property_changed h change = h.func change

module _ {L : Type 0} (api : DescriptionApi L) (utf8 : Utf8) where
  open api use {
    jack_get_properties, jack_get_all_properties, described, jack_free_description, jack_free,
    c_str,
  }

  -- `CStr::from_ptr(p).to_str().expect(..)`
  abbrev text_at : ℕ → L → Panics Str
  text_at p l = unwrap (utf8.to_str (c_str p l))

  abbrev pub typ_at : ℕ → L → Panics (Option Str)
  typ_at p l = if p == 0 then returns none else map_returns some (text_at p l)

  -- The loop over the properties of a description.
  unfoldable pub insert_properties : List JackProperty → PropertyMap → L → Panics PropertyMap
  unfolding property_new
  insert_properties [] m l = returns m
  insert_properties (p ∷ ps) m l = and_then (typ_at p.typ l) λ typ.
      and_then (text_at p.key l) λ key.
        and_then (text_at p.value l)
          λ value. insert_properties ps (insert same_str key (property_new value typ) m) l

  -- `none` is the null pointer.
  unfoldable pub description_to_map_free : Option Description → L → Panics (Option PropertyMap × L)
  unfolding insert_properties
  description_to_map_free none l = returns (none, l)
  description_to_map_free (some d) l =
      map_returns (λ m. (some m, jack_free_description d l))
        (insert_properties d.properties new_map l)

  -- The code of the library is not read. `uninit` is what the memory for the description holds before.
  unfoldable pub property_get_subject : Description → ℕ → L → Panics (Option PropertyMap × L)
  unfolding description_to_map_free
  property_get_subject uninit subject l =
      let (code, d, l') = jack_get_properties subject uninit l in
      description_to_map_free (some d) l'

  -- The loop over the descriptions.
  unfoldable pub insert_descriptions :
      List Description → HashMap ℕ PropertyMap → L → Panics (HashMap ℕ PropertyMap × L)
  unfolding description_to_map_free
  insert_descriptions [] m l = returns (m, l)
  insert_descriptions (d ∷ ds) m l = and_then (description_to_map_free (some d) l) λ r. elim r.0 [
    | some dmap ↦ insert_descriptions ds (insert ◌==◌ d.subject dmap m) r.1
    | none ↦ insert_descriptions ds m r.1
  ]

  abbrev all_described : ℤ → ℕ → L → Panics (HashMap ℕ PropertyMap × L)
  all_described (pos (suc n)) array l =
      map_returns (λ r. (r.0, jack_free array r.1))
        (insert_descriptions (described array (suc n) l) new_map l)
  all_described _ array l = returns (new_map, l)

  unfoldable pub property_get_all : L → Panics (HashMap ℕ PropertyMap × L)
  unfolding insert_descriptions
  property_get_all l =
      let (cnt, array, l') = jack_get_all_properties l in all_described cnt array l'
