-- ===== src/CStrings.antt =====
-- src/jack_utils.rs: the arrays of C strings that libjack allocates.
pub mod Laws
mod Tests
use rust_jack.Base.{ℕ, zero, suc, ◌+◌, Option, none, some, List, [], ◌∷◌, ◌==◌, if◌then◌else◌}
use rust_jack.Enums.{Str}
use rust_jack.Strings.{Utf8}

-- The memory that the library gave: the pointer at an index of an array, and the bytes of a C string.
pub record Memory : Type 0 where
  pub cell : ℕ → ℕ → ℕ
  pub c_str : ℕ → List ℕ

module _ (mem : Memory) where
  -- `while !(*ptr.offset(len)).is_null()`, for at most `fuel` tests.
  unfoldable pub array_len : ℕ → ℕ → ℕ → Option ℕ
  array_len ptr zero len = none
  array_len ptr (suc fuel) len =
      let rest = array_len ptr fuel (len + 1) in if mem.cell ptr len == 0 then some len else rest

module _ (mem : Memory) (utf8 : Utf8) where
  -- `for i in 0..len`, from `i` on for `n` rounds.
  unfoldable pub read_strs : ℕ → ℕ → ℕ → List Str
  read_strs ptr i zero = []
  read_strs ptr i (suc n) =
      utf8.to_string_lossy (mem.c_str (mem.cell ptr i)) ∷ read_strs ptr (i + 1) n

  -- `jack_free` is called on the array, not on its strings. `None` if the fuel does not reach the end.
  unfoldable pub collect_strs : {L : Type 0} → (ℕ → L → L) → ℕ → ℕ → L → Option (List Str × L)
  unfolding array_len read_strs
  collect_strs jack_free fuel ptr lib =
      if ptr == 0 then some ([], lib) else elim (array_len mem ptr fuel 0) [
        | none ↦ none
        | some len ↦ some (read_strs ptr 0 len, jack_free ptr lib)
      ]
