-- ===== src/Metadata/Maps/Tests.antt =====
-- Maps of properties at concrete values: a library with the descriptions of two subjects, whose state is
-- how often it freed something.
use rust_jack.Base.{
  ℕ, ◌+◌, ◌≡◌, refl, ◌≢◌, none, some, List, [], ◌∷◌, ◌==◌, if◌then◌else◌, pos, negsuc, returns,
}
use rust_jack.Enums.{Str}
use rust_jack.Strings.{codes}
use rust_jack.Metadata.{Property}
use rust_jack.Client.Samples.{utf8}
use rust_jack.Metadata.Maps.{Description, DescriptionApi, property_get_all, property_get_subject}
use rust_jack.Metadata.Maps.Laws.{last_of, subjects, property_get_all_lem, property_get_subject_lem}

-- At 1 stands a key, at 2 and 3 values, and at 4 a type.
abbrev bytes : ℕ → List ℕ
bytes p =
    if p == 1
    then codes "name"
    else if p == 2
    then codes "low"
    else if p == 3
    then codes "high"
    else codes "text"

-- The subject 7 has the key twice.
abbrev both : List Description
both =
    record {
      subject = 7;
      properties =
          record { key = 1; value = 2; typ = 0 } ∷ record { key = 1; value = 3; typ = 4 } ∷ [];
    }
    ∷ record { subject = 8; properties = [] }
    ∷ []

abbrev lib : DescriptionApi ℕ
lib = record {
  jack_get_properties = λ s d n. (negsuc 0, d, n);
  jack_get_all_properties = λ n. (pos 2, 100, n);
  described = λ array cnt n. both;
  jack_free_description = λ d n. n + 1;
  jack_free = λ p n. n + 1;
  c_str = λ p n. bytes p;
}

abbrev low : Property
low = record { value = codes "low"; typ = none }

abbrev high : Property
high = record { value = codes "high"; typ = some (codes "text") }

abbrev texts : List (ℕ × List (Str × Property))
texts = (7, (codes "name", low) ∷ (codes "name", high) ∷ []) ∷ (8, []) ∷ []

four : ◌≢◌ {A = ℕ} 4 0
four e = cc

property_get_all_lem_example :
    property_get_all lib utf8 0 ≡ returns ((λ s. last_of ◌==◌ s (subjects texts)), 3)
property_get_all_lem_example =
    property_get_all_lem lib utf8 1 100 0 0 texts refl
      (refl, (refl, refl, refl, (refl, refl, (four, refl), tt)), (refl, tt, tt))

property_get_subject_lem_example :
    property_get_subject lib utf8 (record { subject = 0; properties = [] }) 7 0 ≢ returns (none, 0)
property_get_subject_lem_example =
    property_get_subject_lem lib utf8 (record { subject = 0; properties = [] }) 7 0 0
