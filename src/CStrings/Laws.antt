-- ===== src/CStrings/Laws.antt =====
-- What `collect_strs` makes of a null-terminated array.
use rust_jack.Base.{ℕ, zero, suc, ◌+◌, ◌<◌, ◌≡◌, refl, ◌≢◌, some, List, [], ◌∷◌, arith, length}
use rust_jack.Enums.{Str}
use rust_jack.Strings.{Utf8}
use rust_jack.CStrings.{Memory, array_len, read_strs, collect_strs}

-- From the index `i` on, an array holds the pointers `ps`, none of them null, and then the null pointer.
abbrev pub IsTerminated : Memory → ℕ → ℕ → List ℕ → Type 0
IsTerminated mem ptr i [] = mem.cell ptr i ≡ 0
IsTerminated mem ptr i (p ∷ ps) = (mem.cell ptr i ≡ suc p) × IsTerminated mem ptr (i + 1) ps

module _ (mem : Memory) (utf8 : Utf8) (ptr : ℕ) where
  abbrev pub decoded : List ℕ → List Str
  decoded [] = []
  decoded (p ∷ ps) = utf8.to_string_lossy (mem.c_str (suc p)) ∷ decoded ps

  array_len_lem :
      (ps : List ℕ) (i fuel : ℕ)
      → IsTerminated mem ptr i ps
      → length ps < fuel
      → array_len mem ptr fuel i ≡ some (i + length ps)
  unfolding array_len
  array_len_lem ps i zero h k = absurd (omega arith)
  array_len_lem [] i (suc fuel) h k = ground arith
  array_len_lem (p ∷ ps) i (suc fuel) (e, h) k = ground (arith, array_len_lem ps (i + 1) fuel h)

  read_strs_lem :
      (ps : List ℕ) (i : ℕ)
      → IsTerminated mem ptr i ps
      → read_strs mem utf8 ptr i (length ps) ≡ decoded ps
  unfolding read_strs
  read_strs_lem [] i h = refl
  read_strs_lem (p ∷ ps) i (e, h) = rw (e, read_strs_lem ps (i + 1) h) refl

  -- For an array that is not null and holds some pointers, none of them null, and then the null pointer,
  -- and fuel for one test more than there are pointers, `collect_strs` comes to an end, yields the
  -- decoded strings in their order, and frees the array once.
  pub collect_strs_lem :
      {L : Type 0} (jack_free : ℕ → L → L) (ps : List ℕ) (fuel : ℕ) (lib : L)
      → ptr ≢ 0
      → IsTerminated mem ptr 0 ps
      → length ps < fuel
      → collect_strs mem utf8 jack_free fuel ptr lib ≡ some (decoded ps, jack_free ptr lib)
  unfolding collect_strs
  collect_strs_lem jack_free ps fuel lib nonnull h k =
      ground (arith, array_len_lem ps 0 fuel h, read_strs_lem ps 0 h)
