-- ===== src/Client/Identity/Laws.antt =====
-- What the names and the uuids of clients have to do with each other, and the memory that asking for
-- them takes.
use rust_jack.Base.{
  ℕ, ◌+◌, ◌≡◌, refl, ap, ◌∙◌, subst, ◌≢◌, Option, none, some, ◌==◌, if◌then◌else◌, returns, true,
  unwrap, arith,
}
use rust_jack.Enums.{Str}
use rust_jack.Strings.{Utf8}
use rust_jack.Client.{Client}
use rust_jack.Client.State.{World, done}
use rust_jack.Client.Identity.{
  IdentityApi, name, parsed, uuid, uuid_string, name_by_uuid_raw, name_by_uuid, name_by_uuid_str,
}
use rust_jack.Client.Identity.Library.{Identified}

module _ {L : Type 0} (api : IdentityApi L) (utf8 : Utf8) (law : Identified api) where
  open api use {jack_client_get_uuid, jack_get_client_name_by_uuid, jack_free}
  open law use {is_open, name_of, uuid_of, number_of, blocks}

  -- The world behind a query of the uuid, with its string freed again.
  abbrev queried : ℕ → World L → World L
  queried c w = record w {
    lib = jack_free (jack_client_get_uuid c w.lib).0 (jack_client_get_uuid c w.lib).1;
  }

  -- The world behind the search for a client.
  abbrev searched : ℕ → ℕ → World L → World L
  searched d c w = record w { lib = (jack_get_client_name_by_uuid d (uuid_of c) w.lib).1 }

  uuid_string_lem :
      (c : Client) (w : World L)
      → (jack_client_get_uuid c.ptr w.lib).0 ≢ 0
      → utf8.to_str (uuid_of c.ptr) ≡ some (uuid_of c.ptr)
      → uuid_string api utf8 c w ≡ done (uuid_of c.ptr) (queried c.ptr w)
  unfolding uuid_string
  uuid_string_lem c w nonnull text = ground (arith, nonnull, text, law.uuids c.ptr w.lib nonnull)

  queried-keeps :
      (c d : ℕ) (w : World L)
      → (is_open d (queried c w).lib ≡ is_open d w.lib)
        × (name_of d (queried c w).lib ≡ name_of d w.lib)
  queried-keeps c d w =
      let free =
        law.free_keeps d (jack_client_get_uuid c w.lib).0 (jack_client_get_uuid c w.lib).1 in
      let query = law.uuid_keeps d c w.lib in (free.0 ∙ query.0, free.1 ∙ query.1)

  queried-blocks :
      (c p : ℕ) (w : World L)
      → (jack_client_get_uuid c w.lib).0 ≢ 0
      → blocks (queried c w).lib p ≡ blocks w.lib p
  queried-blocks c p w nonnull = ground (
    arith,
    nonnull,
    law.uuid_allocates c p w.lib,
    law.frees p (jack_client_get_uuid c w.lib).0 (jack_client_get_uuid c w.lib).1,
  )

  name_by_uuid_raw_lem :
      (c d : Client) (w : World L) (n : Str)
      → is_open c.ptr w.lib ≡ true
      → utf8.to_str (name_of c.ptr w.lib) ≡ some n
      → name_by_uuid_raw api utf8 d (uuid_of c.ptr) w ≡ done (some n) (searched d.ptr c.ptr w)
  unfolding name_by_uuid_raw
  name_by_uuid_raw_lem c d w n opened text =
      ground (arith, law.finds d.ptr c.ptr w.lib opened, law.found d.ptr c.ptr w.lib opened, text)

  searched-blocks :
      (d c p : ℕ) (w : World L)
      → (jack_get_client_name_by_uuid d (uuid_of c) w.lib).0 ≢ 0
      → blocks (searched d c w).lib p
        ≡ blocks w.lib p
          + (if p == (jack_get_client_name_by_uuid d (uuid_of c) w.lib).0 then 1 else 0)
  searched-blocks d c p w nonnull =
      ground (arith, nonnull, law.name_allocates d p (uuid_of c) w.lib)

  name_lem :
      (c : Client) (w : World L) (n : Str)
      → name api utf8 c w ≡ returns n
      → utf8.to_str (name_of c.ptr w.lib) ≡ some n
  unfolding name
  name_lem c w n e =
      at (utf8.to_str (name_of c.ptr w.lib)) refl
        (subst (λ b. unwrap (utf8.to_str b) ≡ returns n) (law.names c.ptr w.lib) e)
    where
      at :
          (o : Option Str)
          → utf8.to_str (name_of c.ptr w.lib) ≡ o
          → unwrap (utf8.to_str (name_of c.ptr w.lib)) ≡ returns n
          → utf8.to_str (name_of c.ptr w.lib) ≡ some n
      at none q h = ground (arith, q, h)
      at (some m) q h = ground (arith, q, h)

  name_by_uuid_str_lem :
      (c d : Client) (w : World L)
      → name_by_uuid_str api utf8 d (uuid_of c.ptr) w
        ≡ name_by_uuid_raw api utf8 d (uuid_of c.ptr) w
  unfolding name_by_uuid_str
  name_by_uuid_str_lem c d w = ground (arith, law.plain c.ptr)

  -- Over a library with the documented behaviour (`Identified`), for an open client that the library
  -- gives its uuid, a decodable text, and its name: `uuid_string` yields the uuid and leaves the
  -- allocated blocks as they were, and any client that then calls `name_by_uuid_str` with it gets the
  -- name, while a block that the library allocated stays behind.
  pub name_by_uuid_str-uuid_string :
      (c d : Client) (w : World L) (n : Str)
      → is_open c.ptr w.lib ≡ true
      → (jack_client_get_uuid c.ptr w.lib).0 ≢ 0
      → utf8.to_str (uuid_of c.ptr) ≡ some (uuid_of c.ptr)
      → name api utf8 c w ≡ returns n
      → (v v' : World L) × (p : ℕ) × (uuid_string api utf8 c w ≡ done (uuid_of c.ptr) v)
        × (name_by_uuid_str api utf8 d (uuid_of c.ptr) v ≡ done (some n) v')
        × ((q : ℕ) → blocks v.lib q ≡ blocks w.lib q)
        × ((q : ℕ) → blocks v'.lib q ≡ blocks w.lib q + (if q == p then 1 else 0))
  name_by_uuid_str-uuid_string c d w n opened nonnull text named =
      let keeps = queried-keeps c.ptr c.ptr w in
      (
        queried c.ptr w,
        searched d.ptr c.ptr (queried c.ptr w),
        (jack_get_client_name_by_uuid d.ptr (uuid_of c.ptr) (queried c.ptr w).lib).0,
        uuid_string_lem c w nonnull text,
        name_by_uuid_str_lem c d (queried c.ptr w)
            ∙ name_by_uuid_raw_lem c d (queried c.ptr w) n (keeps.0 ∙ opened)
                (ap utf8.to_str keeps.1 ∙ name_lem c w n named),
        λ q. queried-blocks c.ptr q w nonnull,
        λ q. omega (
          arith,
          searched-blocks d.ptr c.ptr q (queried c.ptr w)
              (law.finds d.ptr c.ptr (queried c.ptr w).lib (keeps.0 ∙ opened)),
          queried-blocks c.ptr q w nonnull,
        ),
      )

  uuid_lem :
      (c : Client) (w : World L)
      → (jack_client_get_uuid c.ptr w.lib).0 ≢ 0
      → uuid api utf8 c w ≡ done (number_of c.ptr) (queried c.ptr w)
  unfolding uuid parsed
  uuid_lem c w nonnull = ground (arith, nonnull, law.uuids c.ptr w.lib nonnull, law.parses c.ptr)

  -- Over such a library, for an open client that the library gives its uuid and its name: any client
  -- that calls `name_by_uuid` with the number that `uuid` yields gets the name.
  pub name_by_uuid-uuid :
      (c d : Client) (w : World L) (n : Str)
      → is_open c.ptr w.lib ≡ true
      → (jack_client_get_uuid c.ptr w.lib).0 ≢ 0
      → name api utf8 c w ≡ returns n
      → (u : ℕ) × (v v' : World L) × (uuid api utf8 c w ≡ done u v)
        × (name_by_uuid api utf8 d u v ≡ done (some n) v')
  unfolding name_by_uuid
  name_by_uuid-uuid c d w n opened nonnull named =
      let keeps = queried-keeps c.ptr c.ptr w in
      (
        number_of c.ptr,
        queried c.ptr w,
        searched d.ptr c.ptr (queried c.ptr w),
        uuid_lem c w nonnull,
        ap (λ u. name_by_uuid_raw api utf8 d u (queried c.ptr w)) (law.unparses c.ptr)
            ∙ name_by_uuid_raw_lem c d (queried c.ptr w) n (keeps.0 ∙ opened)
                (ap utf8.to_str keeps.1 ∙ name_lem c w n named),
      )
