-- ===== src/Metadata/Maps/Laws.antt =====
-- What the maps of properties hold, against a search of the properties from the last to the first.
use mathlib.Core.Path.{fun_ext}
use rust_jack.Base.{
  ℕ, suc, ◌≡◌, refl, ap, ◌∙◌, ◌≢◌, Bool, true, false, Option, none, some, List, [], ◌∷◌, ◌==◌,
  if◌then◌else◌, pos, Panics, returns, panics, map_returns, arith, Panics,
}
use rust_jack.Enums.{Str}
use rust_jack.Strings.{Utf8}
use rust_jack.Metadata.{Property}
use rust_jack.Metadata.Maps.{
  HashMap, insert, new_map, same_str, PropertyMap, JackProperty, Description, DescriptionApi,
  property_new, typ_at, insert_properties, description_to_map_free, property_get_subject,
  insert_descriptions, property_get_all,
}

module _ {V : Type 0} where
  abbrev pub or_else : Option V → Option V → Option V
  or_else none p = p
  or_else (some w) p = some w

module _ {K V : Type 0} (same : K → K → Bool) where
  -- The value that stands last under a key.
  abbrev pub last_of : K → List (K × V) → Option V
  last_of j [] = none
  last_of j ((k, v) ∷ kvs) = or_else (last_of j kvs) (if same j k then some v else none)

  abbrev inserted : List (K × V) → HashMap K V → HashMap K V
  inserted [] m = m
  inserted ((k, v) ∷ kvs) m = inserted kvs (insert same k v m)

  inserted_lem :
      (kvs : List (K × V)) (m : HashMap K V) (j : K)
      → inserted kvs m j ≡ or_else (last_of j kvs) (m j)
  inserted_lem [] m j = refl
  inserted_lem ((k, v) ∷ kvs) m j =
      inserted_lem kvs (insert same k v m) j ∙ at (last_of j kvs) (same j k)
    where
      at :
          (o : Option V) (b : Bool)
          → or_else o (if b then some v else m j)
            ≡ or_else (or_else o (if b then some v else none)) (m j)
      at (some w) b = refl
      at none true = refl
      at none false = refl

  inserted-new_map : (kvs : List (K × V)) → inserted kvs new_map ≡ (λ j. last_of j kvs)
  inserted-new_map kvs = fun_ext λ j. inserted_lem kvs new_map j ∙ at (last_of j kvs)
    where
      at : (o : Option V) → or_else o none ≡ o
      at (some w) = refl
      at none = refl

-- The subjects with their properties as maps.
abbrev pub subjects : List (ℕ × List (Str × Property)) → List (ℕ × PropertyMap)
subjects [] = []
subjects ((s, kvs) ∷ rest) = (s, λ k. last_of same_str k kvs) ∷ subjects rest

module _ {L : Type 0} (api : DescriptionApi L) (utf8 : Utf8) where
  open api use {
    jack_get_all_properties, jack_get_properties, described, jack_free_description, jack_free,
    c_str,
  }

  -- The type of a property stands at a pointer: the null pointer if it has none.
  abbrev pub IsTyp : ℕ → Option Str → L → Type 0
  IsTyp p none l = p ≡ 0
  IsTyp p (some t) l = (p ≢ 0) × (utf8.to_str (c_str p l) ≡ some t)

  -- The strings at the pointers of some properties are these.
  abbrev pub IsRead : List JackProperty → List (Str × Property) → L → Type 0
  IsRead [] [] l = Unit {0}
  IsRead [] (_ ∷ _) l = ⊥
  IsRead (_ ∷ _) [] l = ⊥
  IsRead (p ∷ ps) ((k, v) ∷ kvs) l =
      (utf8.to_str (c_str p.key l) ≡ some k)
      × (utf8.to_str (c_str p.value l) ≡ some v.value)
      × IsTyp p.typ v.typ l
      × IsRead ps kvs l

  -- Descriptions of these subjects with these properties, each of which can still be read when those
  -- before it are freed.
  abbrev pub AreRead : List Description → List (ℕ × List (Str × Property)) → L → Type 0
  AreRead [] [] l = Unit {0}
  AreRead [] (_ ∷ _) l = ⊥
  AreRead (_ ∷ _) [] l = ⊥
  AreRead (d ∷ ds) ((s, kvs) ∷ rest) l =
      (d.subject ≡ s) × IsRead d.properties kvs l × AreRead ds rest (jack_free_description d l)

  abbrev pub freed : List Description → L → L
  freed [] l = l
  freed (d ∷ ds) l = freed ds (jack_free_description d l)

  typ_at_lem : (p : ℕ) (t : Option Str) (l : L) → IsTyp p t l → typ_at api utf8 p l ≡ returns t
  typ_at_lem p none l h = rw h refl
  typ_at_lem p (some t) l (nonnull, text) = ground (arith, nonnull, text)

  insert_properties_lem :
      (ps : List JackProperty) (kvs : List (Str × Property)) (m : PropertyMap) (l : L)
      → IsRead ps kvs l
      → insert_properties api utf8 ps m l ≡ returns (inserted same_str kvs m)
  unfolding insert_properties property_new
  insert_properties_lem [] [] m l h = refl
  insert_properties_lem [] (_ ∷ _) m l h = absurd h
  insert_properties_lem (_ ∷ _) [] m l h = absurd h
  insert_properties_lem (p ∷ ps) ((k, v) ∷ kvs) m l (key, value, typ, rest) =
      rw (typ_at_lem p.typ v.typ l typ, key, value)
        (insert_properties_lem ps kvs (insert same_str k v m) l rest)

  insert_descriptions_lem :
      (ds : List Description) (cs : List (ℕ × List (Str × Property))) (m : HashMap ℕ PropertyMap)
      (l : L)
      → AreRead ds cs l
      → insert_descriptions api utf8 ds m l ≡ returns (inserted ◌==◌ (subjects cs) m, freed ds l)
  unfolding insert_descriptions description_to_map_free
  insert_descriptions_lem [] [] m l h = refl
  insert_descriptions_lem [] (_ ∷ _) m l h = absurd h
  insert_descriptions_lem (_ ∷ _) [] m l h = absurd h
  insert_descriptions_lem (d ∷ ds) ((s, kvs) ∷ cs) m l (same, props, rest) =
      rw (insert_properties_lem d.properties kvs new_map l props, inserted-new_map same_str kvs)
        (insert_descriptions_lem ds cs (with_map d.subject) (jack_free_description d l) rest
          ∙ ap
              (λ k.
                returns
                  (inserted ◌==◌ (subjects cs) (with_map k), freed ds (jack_free_description d l)))
              same)
    where
      with_map : ℕ → HashMap ℕ PropertyMap
      with_map k = insert ◌==◌ k (λ j. last_of same_str j kvs) m

  -- Where the library gives some descriptions of these subjects and properties, which can be read one
  -- after the other (`AreRead`): `property_get_all` maps each subject to the properties of the last
  -- description that has it, in which each key has the property that stands last under it; every
  -- description is freed once, in order, and then their array.
  pub property_get_all_lem :
      (n array : ℕ) (l l' : L) (cs : List (ℕ × List (Str × Property)))
      → jack_get_all_properties l ≡ (pos (suc n), array, l')
      → AreRead (described array (suc n) l') cs l'
      → property_get_all api utf8 l
        ≡ returns (
          (λ s. last_of ◌==◌ s (subjects cs)),
          jack_free array (freed (described array (suc n) l') l'),
        )
  unfolding property_get_all
  property_get_all_lem n array l l' cs given read =
      rw
        (
          given,
          insert_descriptions_lem (described array (suc n) l') cs new_map l' read,
          inserted-new_map ◌==◌ (subjects cs),
        )
        refl

  -- Whatever the library answers and the uninitialised memory holds, `property_get_subject` never
  -- returns `None`.
  pub property_get_subject_lem :
      (uninit : Description) (subject : ℕ) (l l' : L)
      → property_get_subject api utf8 uninit subject l ≢ returns (none, l')
  unfolding property_get_subject description_to_map_free
  property_get_subject_lem uninit subject l l' e =
      at
        (insert_properties api utf8 (jack_get_properties subject uninit l).1.properties new_map
          (jack_get_properties subject uninit l).2)
        e
    where
      at :
          (r : Panics PropertyMap)
          → map_returns {B = Option PropertyMap × L}
              (λ m. (
                some m,
                jack_free_description
                    (jack_get_properties subject uninit l).1
                    (jack_get_properties subject uninit l).2,
              ))
              r
            ≢ returns (none, l')
      at (returns m) q = cc
      at panics q = cc
