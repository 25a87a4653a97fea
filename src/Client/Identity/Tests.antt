-- ===== src/Client/Identity/Tests.antt =====
-- Names and uuids at concrete values, over a library with two clients, whose state is the numbers of
-- its allocated blocks.
use rust_jack.Base.{ℕ, ◌+◌, ◌-◌, ◌≡◌, refl, ◌≢◌, some, ◌==◌, if◌then◌else◌, pos}
use rust_jack.Strings.{codes}
use rust_jack.CStrings.{Memory}
use rust_jack.Client.State.{World, done, free}
use rust_jack.Client.Samples.{utf8, client}
use rust_jack.Client.Identity.{IdentityApi, name, uuid_string, name_by_uuid_str}
use rust_jack.Client.Identity.Library.{Identified}
use rust_jack.Client.Identity.Laws.{name_by_uuid_str-uuid_string}

-- At 100 stands an array of two pointers, at 7 the name of the client 7, and at 20 its uuid.
abbrev memory : Memory
memory = record {
  cell = λ p i. if p == 100 then if i == 0 then 7 else if i == 1 then 20 else 0 else 0;
  c_str = λ p. if p == 7 then codes "synth" else codes "12";
}

abbrev Blocks : Type 0
Blocks = ℕ → ℕ

abbrev server : IdentityApi Blocks
server = record {
  jack_get_client_name = λ c l. 7;
  jack_client_get_uuid = λ c l. (20, λ p. l p + (if p == 20 then 1 else 0));
  jack_get_client_name_by_uuid = λ c u l. (7, λ p. l p + (if p == 7 then 1 else 0));
  jack_uuid_parse = λ s. (pos 0, 12);
  jack_uuid_unparse = λ u. codes "12";
  jack_free = λ q l p. l p - (if p == q then 1 else 0);
  jack_get_ports = λ c n t f l. (100, λ p. l p + (if p == 100 then 1 else 0));
  memory = λ l. memory;
}

seven : ◌≢◌ {A = ℕ} 7 0
seven e = cc

abbrev identified : Identified server
identified = record {
  is_open = λ c l. c == 7;
  name_of = λ c l. codes "synth";
  uuid_of = λ c. codes "12";
  number_of = λ c. 12;
  blocks = λ l. l;
  names = λ c l. refl;
  uuids = λ c l h. refl;
  plain = λ c. refl;
  parses = λ c. refl;
  unparses = λ c. refl;
  finds = λ d c l h. seven;
  found = λ d c l h. refl;
  uuid_keeps = λ c d l. (refl, refl);
  free_keeps = λ c p l. (refl, refl);
  uuid_allocates = λ c p l. refl;
  name_allocates = λ c p u l. refl;
  frees = λ p q l. refl;
}

abbrev world : World Blocks
world = record { mutex = free; lives = λ c. 1; next_cell = 4; next_box = 100; lib = λ p. 0 }

name_by_uuid_str-uuid_string_example :
    (v v' : World Blocks) × (p : ℕ) × (uuid_string server utf8 client world ≡ done (codes "12") v)
    × (name_by_uuid_str server utf8 client (codes "12") v ≡ done (some (codes "synth")) v')
    × ((q : ℕ) → v.lib q ≡ 0)
    × ((q : ℕ) → v'.lib q ≡ 0 + (if q == p then 1 else 0))
unfolding name
name_by_uuid_str-uuid_string_example =
    name_by_uuid_str-uuid_string server utf8 identified client client world (codes "synth") refl
      (λ e. cc) refl refl
