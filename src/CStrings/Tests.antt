-- ===== src/CStrings/Tests.antt =====
-- An array of two C strings: its cells hold the pointers 10 and 11.
use rust_jack.Base.{ℕ, zero, suc, ◌≡◌, refl, some, [], ◌∷◌, arith, ◌==◌, if◌then◌else◌}
use rust_jack.Strings.{codes, Utf8}
use rust_jack.CStrings.{Memory, collect_strs}
use rust_jack.CStrings.Laws.{collect_strs_lem}

abbrev pointer : ℕ → ℕ
pointer zero = 10
pointer (suc zero) = 11
pointer (suc (suc i)) = 0

abbrev mem : Memory
mem = record { cell = λ ptr i. pointer i; c_str = λ p. if p == 10 then codes "in" else codes "out" }

abbrev utf8 : Utf8
utf8 = record { to_str = λ s. some s; to_string_lossy = λ s. s }

collect_strs_lem_example :
    collect_strs mem utf8 (λ p freed. p ∷ freed) 3 7 []
    ≡ some (codes "in" ∷ codes "out" ∷ [], 7 ∷ [])
collect_strs_lem_example =
    collect_strs_lem mem utf8 7 (λ p freed. p ∷ freed) (9 ∷ 10 ∷ []) 3 [] (λ e. cc)
      (refl, (refl, refl)) (omega arith)
