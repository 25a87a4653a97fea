-- ===== src/Client/Identity/Library.antt =====
-- What the library's documentation says of names and uuids, and of the memory for them.
use rust_jack.Base.{ℕ, ◌+◌, ◌-◌, ◌≡◌, ◌≢◌, ◌==◌, if◌then◌else◌, pos, Bool, true, false, List}
use rust_jack.Enums.{Str}
use rust_jack.Strings.{has_nul}
use rust_jack.Client.Identity.{IdentityApi}

-- What the documentation of the library says of the clients that are open, their names and uuids, and
-- of the blocks that it allocates: the caller frees them.
pub record Identified {L : Type 0} (api : IdentityApi L) : Type 0 where
  pub is_open : ℕ → L → Bool
  pub name_of : ℕ → L → List ℕ
  pub uuid_of : ℕ → Str
  pub number_of : ℕ → ℕ
  pub blocks : L → ℕ → ℕ
  pub names : (c : ℕ) (l : L) → (api.memory l).c_str (api.jack_get_client_name c l) ≡ name_of c l
  pub uuids :
      (c : ℕ) (l : L)
      → (api.jack_client_get_uuid c l).0 ≢ 0
      → (api.memory (api.jack_client_get_uuid c l).1).c_str (api.jack_client_get_uuid c l).0
        ≡ uuid_of c
  pub plain : (c : ℕ) → has_nul (uuid_of c) ≡ false
  pub parses : (c : ℕ) → api.jack_uuid_parse (uuid_of c) ≡ (pos 0, number_of c)
  pub unparses : (c : ℕ) → api.jack_uuid_unparse (number_of c) ≡ uuid_of c
  pub finds :
      (d c : ℕ) (l : L)
      → is_open c l ≡ true
      → (api.jack_get_client_name_by_uuid d (uuid_of c) l).0 ≢ 0
  pub found :
      (d c : ℕ) (l : L)
      → is_open c l ≡ true
      → (api.memory (api.jack_get_client_name_by_uuid d (uuid_of c) l).1).c_str
          (api.jack_get_client_name_by_uuid d (uuid_of c) l).0
        ≡ name_of c l
  pub uuid_keeps :
      (c d : ℕ) (l : L)
      → (is_open c (api.jack_client_get_uuid d l).1 ≡ is_open c l)
        × (name_of c (api.jack_client_get_uuid d l).1 ≡ name_of c l)
  pub free_keeps :
      (c p : ℕ) (l : L)
      → (is_open c (api.jack_free p l) ≡ is_open c l)
        × (name_of c (api.jack_free p l) ≡ name_of c l)
  pub uuid_allocates :
      (c p : ℕ) (l : L)
      → blocks (api.jack_client_get_uuid c l).1 p
        ≡ blocks l p
          + (if (api.jack_client_get_uuid c l).0 == 0
              then 0
              else if p == (api.jack_client_get_uuid c l).0
              then 1
              else 0)
  pub name_allocates :
      (c p : ℕ) (u : List ℕ) (l : L)
      → blocks (api.jack_get_client_name_by_uuid c u l).1 p
        ≡ blocks l p
          + (if (api.jack_get_client_name_by_uuid c u l).0 == 0
              then 0
              else if p == (api.jack_get_client_name_by_uuid c u l).0
              then 1
              else 0)
  pub frees :
      (p q : ℕ) (l : L) → blocks (api.jack_free q l) p ≡ blocks l p - (if p == q then 1 else 0)
