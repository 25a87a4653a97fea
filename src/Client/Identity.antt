-- ===== src/Client/Identity.antt =====
-- The name and the uuid of a `Client` of src/client/client_impl.rs, the names of clients by their uuids,
-- and the names of the ports.
pub mod Library
pub mod Laws
pub mod Listing
mod Tests
use mathlib.Core.Option
use rust_jack.Base.{
  ℕ, Option, none, some, ◌==◌, if◌then◌else◌, ℤ, pos, zero, Panics, returns, panics, map_returns,
  unwrap, and_then, List, [],
}
use rust_jack.Enums.{Str}
use rust_jack.Strings.{c_string, Utf8}
use rust_jack.Port.{PortFlags}
use rust_jack.CStrings.{Memory, collect_strs}
use rust_jack.Client.{Client}
use rust_jack.Client.State.{World, Outcome, done, unwound}

-- The functions of libjack for names and uuids, over its state `L`. A C string that it allocates is a
-- pointer, 0 the null pointer, into `memory`. `jack_uuid_parse` returns its code
-- and the value that it writes.
pub record IdentityApi (L : Type 0) : Type 0 where
  pub jack_get_client_name : ℕ → L → ℕ
  pub jack_client_get_uuid : ℕ → L → ℕ × L
  pub jack_get_client_name_by_uuid : ℕ → List ℕ → L → ℕ × L
  pub jack_uuid_parse : List ℕ → ℤ × ℕ
  pub jack_uuid_unparse : ℕ → List ℕ
  pub jack_free : ℕ → L → L
  pub jack_get_ports : ℕ → Str → Str → ℕ → L → ℕ × L
  pub memory : L → Memory

-- `pattern.unwrap_or("")`
abbrev pub pattern_or_empty : Option Str → Str
pattern_or_empty none = []
pattern_or_empty (some s) = s

-- The names of the matching ports, with fuel to read the array of the library, which is in the
-- memory `mem` when it is read. `none` if the fuel does not reach its end.
module _ {L : Type 0} (api : IdentityApi L) (utf8 : Utf8) where
  open api use {
    jack_get_client_name, jack_client_get_uuid, jack_get_client_name_by_uuid, jack_uuid_parse,
    jack_uuid_unparse, jack_free, jack_get_ports, memory,
  }

  unfoldable pub name : Client → World L → Panics Str
  name c w = unwrap (utf8.to_str ((memory w.lib).c_str (jack_get_client_name c.ptr w.lib)))

  -- `assert_eq!(0, jack_uuid_parse(uuid_s, &mut uuid))`, and the freeing behind it.
  unfoldable pub parsed : ℕ → ℤ × ℕ → World L → Outcome L ℕ
  parsed uuid_s (pos zero, uuid) w = done uuid (record w { lib = jack_free uuid_s w.lib })
  parsed uuid_s _ w = unwound w

  unfoldable pub uuid : Client → World L → Outcome L ℕ
  unfolding parsed
  uuid c w =
      let (uuid_s, lib) = jack_client_get_uuid c.ptr w.lib in
      if uuid_s == 0
      then unwound (record w { lib = lib })
      else parsed uuid_s (jack_uuid_parse ((memory lib).c_str uuid_s)) (record w { lib = lib })

  unfoldable pub uuid_string : Client → World L → Outcome L Str
  uuid_string c w =
      let (uuid_s, lib) = jack_client_get_uuid c.ptr w.lib in
      if uuid_s == 0
      then unwound (record w { lib = lib })
      else elim (utf8.to_str ((memory lib).c_str uuid_s)) [
        | none ↦ unwound (record w { lib = lib })
        | some s ↦ done s (record w { lib = jack_free uuid_s lib })
      ]

  unfoldable pub name_by_uuid_raw : Client → List ℕ → World L → Outcome L (Option Str)
  name_by_uuid_raw c u w =
      let (name_ptr, lib) = jack_get_client_name_by_uuid c.ptr u w.lib in
      if name_ptr == 0
      then done none (record w { lib = lib })
      else elim (utf8.to_str ((memory lib).c_str name_ptr)) [
        | none ↦ unwound (record w { lib = lib })
        | some s ↦ done (some s) (record w { lib = lib })
      ]

  unfoldable pub name_by_uuid : Client → ℕ → World L → Outcome L (Option Str)
  unfolding name_by_uuid_raw
  name_by_uuid c u = name_by_uuid_raw c (jack_uuid_unparse u)

  unfoldable pub name_by_uuid_str : Client → Str → World L → Outcome L (Option Str)
  unfolding name_by_uuid_raw
  name_by_uuid_str c u w = elim (c_string u) [
    | panics ↦ unwound w
    | returns s ↦ name_by_uuid_raw c s w
  ]

  abbrev listed : ℕ → ℕ × L → World L → Option (List Str × World L)
  listed fuel (array, lib) w =
      Option.map (λ r. (r.0, record w { lib = r.1 }))
        (collect_strs (memory lib) utf8 jack_free fuel array lib)

  -- With fuel to read the array of the library; `none` if the fuel does not reach its end.
  unfoldable pub ports :
      ℕ
      → Client
      → Option Str
      → Option Str
      → PortFlags
      → World L
      → Panics (Option (List Str × World L))
  ports fuel c port_name_pattern type_name_pattern flags w =
      and_then (c_string (pattern_or_empty port_name_pattern)) λ pnp.
        map_returns (λ tnp. listed fuel (jack_get_ports c.ptr pnp tnp flags.bits w.lib) w)
          (c_string (pattern_or_empty type_name_pattern))
