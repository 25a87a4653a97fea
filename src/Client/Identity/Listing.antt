-- ===== src/Client/Identity/Listing.antt =====
-- What `ports` of src/client/client_impl.rs lists.
use rust_jack.Base.{ℕ, ◌<◌, ◌≡◌, refl, ◌≢◌, Option, some, List, length, returns, false}
use rust_jack.Enums.{Str}
use rust_jack.Strings.{has_nul, Utf8}
use rust_jack.Port.{PortFlags}
use rust_jack.CStrings.Laws.{IsTerminated, decoded, collect_strs_lem}
use rust_jack.Client.{Client}
use rust_jack.Client.State.{World}
use rust_jack.Client.Identity.{IdentityApi, pattern_or_empty, ports}

module _ {L : Type 0} (api : IdentityApi L) (utf8 : Utf8) where
  open api use {jack_get_ports, jack_free, memory}

  -- `ports` with patterns without NUL bytes, where the library allocates an array of pointers that ends
  -- with a null pointer, and with fuel for one test more than there are pointers: the patterns, empty
  -- where none was given, and the flags are what the library matches, the result is the decoded
  -- strings in their order, and the array is freed once.
  pub ports_lem :
      (fuel array : ℕ) (lib : L) (c : Client) (pnp tnp : Option Str) (flags : PortFlags)
      (w : World L) (ps : List ℕ)
      → has_nul (pattern_or_empty pnp) ≡ false
      → has_nul (pattern_or_empty tnp) ≡ false
      → jack_get_ports c.ptr (pattern_or_empty pnp) (pattern_or_empty tnp) flags.bits w.lib
        ≡ (array, lib)
      → array ≢ 0
      → IsTerminated (memory lib) array 0 ps
      → length ps < fuel
      → ports api utf8 fuel c pnp tnp flags w
        ≡ returns
            (some (decoded (memory lib) utf8 array ps, record w { lib = jack_free array lib }))
  unfolding ports
  ports_lem fuel array lib c pnp tnp flags w ps plain_p plain_t given nonnull terminated enough =
      rw
        (
          plain_p,
          plain_t,
          given,
          collect_strs_lem (memory lib) utf8 array jack_free ps fuel lib nonnull terminated enough,
        )
        refl
