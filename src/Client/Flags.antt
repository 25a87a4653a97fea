-- ===== src/Client/Flags.antt =====
-- The flags of src/client/client_options.rs and src/client/client_status.rs, with their bits from
-- jack-sys/src/lib.rs.
use rust_jack.Base.{ℕ, ◌^◌, ◌≡◌, refl, List, [], ◌∷◌, bit_or, arith}

-- `ClientOptions`
pub data ClientOption : Type 0 where
  no_start_server use_exact_name server_name load_name load_init session_id : ClientOption

abbrev pub option_bit : ClientOption → ℕ
option_bit no_start_server = 1
option_bit use_exact_name = 2
option_bit server_name = 4
option_bit load_name = 8
option_bit load_init = 16
option_bit session_id = 32

-- `ClientStatus`, flag by flag.
pub data StatusFlag : Type 0 where
  failure invalid_option name_not_unique server_started server_failed : StatusFlag
  server_error no_such_client load_failure init_failure shm_failure : StatusFlag
  version_error backend_error client_zombie : StatusFlag

abbrev pub status_bit : StatusFlag → ℕ
status_bit failure = 1
status_bit invalid_option = 2
status_bit name_not_unique = 4
status_bit server_started = 8
status_bit server_failed = 16
status_bit server_error = 32
status_bit no_such_client = 64
status_bit load_failure = 128
status_bit init_failure = 256
status_bit shm_failure = 512
status_bit version_error = 1024
status_bit backend_error = 2048
status_bit client_zombie = 4096

-- `a | b | ..`, and no flag for the empty set.
abbrev pub bits_of : {A : Type 0} → (A → ℕ) → List A → ℕ
bits_of bit [] = 0
bits_of bit (f ∷ fs) = bit_or (bit f) (bits_of bit fs)

-- The place of a flag, from the lowest bit on.
abbrev status_place : StatusFlag → ℕ
status_place failure = 0
status_place invalid_option = 1
status_place name_not_unique = 2
status_place server_started = 3
status_place server_failed = 4
status_place server_error = 5
status_place no_such_client = 6
status_place load_failure = 7
status_place init_failure = 8
status_place shm_failure = 9
status_place version_error = 10
status_place backend_error = 11
status_place client_zombie = 12

-- Each flag of a status has one bit, and no two flags have the same one.
status_bit_lem : (f : StatusFlag) → status_bit f ≡ 2 ^ status_place f
status_bit_lem f = ground arith

all_options :
    bits_of option_bit
      (no_start_server ∷ use_exact_name ∷ server_name ∷ load_name ∷ load_init ∷ session_id ∷ [])
    ≡ 63
all_options = refl
