-- ===== src/Strings.antt =====
-- `CString`, `CStr` and UTF-8 decoding of the standard library, over lists of bytes.
use rust_jack.Base.{
  ℕ, Bool, false, ◌||◌, Option, List, [], ◌∷◌, ◌==◌, if◌then◌else◌, Panics, returns, panics,
}
use Prim.Native.Char.{code}
use Prim.Native.String.{String}
use rust_jack.Enums.{Str}

abbrev pub has_nul : Str → Bool
has_nul [] = false
has_nul (b ∷ s) = b == 0 || has_nul s

-- `CString::new(s).unwrap()`, which panics if a NUL byte stands inside.
abbrev pub c_string : Str → Panics Str
c_string s = if has_nul s then panics else returns s

-- The bytes up to the first NUL of an array, as `CStr::from_ptr` sees them.
abbrev pub until_nul : List ℕ → Str
until_nul [] = []
until_nul (b ∷ s) = if b == 0 then [] else b ∷ until_nul s

-- The two decodings of `CStr`: `to_str`, which fails on what is not UTF-8, and `to_string_lossy`.
pub record Utf8 : Type 0 where
  pub to_str : List ℕ → Option Str
  pub to_string_lossy : List ℕ → Str

-- The code points of a literal: its bytes, if it is ASCII.
abbrev pub codes : String → Str
codes String.[] = []
codes (String.◌∷◌ c s) = code c ∷ codes s
