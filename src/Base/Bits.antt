-- ===== src/Base/Bits.antt =====
-- `&` and `|` on words, seen bit by bit, and the masks of one bit that the crate uses.
use Prim.Native.Nat.{ℕ, zero, suc, ◌+◌, ◌*◌, ◌/◌, ◌%◌, ◌≤◌, min, max}
use Prim.Native.Nat.{bit_and, bit_or, digits, bit_and-bitwise, bit_or-bitwise}
use mathlib.Core.Path.{◌≡◌, refl, ap, ◌∙◌}
use native.Mathlib.Nat.{le_refl}
use native.Mathlib.Omega.{arith}

-- The bit of `v` at position `k`.
abbrev pub bit : ℕ → ℕ → ℕ
bit v zero = v % 2
bit v (suc k) = bit (v / 2) k

pub bit-le_one : (k v : ℕ) → bit v k ≤ 1
bit-le_one zero v = omega arith
bit-le_one (suc k) v = bit-le_one k (v / 2)

bit-zero : (k : ℕ) → bit 0 k ≡ 0
bit-zero zero = refl
bit-zero (suc k) = bit-zero k

-- A word operation that works on each bit by `f`, where `rest` serves once the left word is used up.
module _ (rest : ℕ → ℕ) (f : ℕ → ℕ → ℕ) (f_bit : (x y : ℕ) → y ≤ 1 → x ≤ 1 → f x y ≤ 1)
    (at_rest : (k b : ℕ) → bit (rest b) k ≡ f 0 (bit b k)) where
  bit-digits : (k fuel a b : ℕ) → a ≤ fuel → bit (digits rest f fuel a b) k ≡ f (bit a k) (bit b k)
  bit-digits k zero zero b h = at_rest k b ∙ ap (λ x. f x (bit b k)) (omega (arith, bit-zero k))
  bit-digits k zero (suc a) b h = absurd (omega arith)
  bit-digits k (suc fuel) zero b h =
      at_rest k b ∙ ap (λ x. f x (bit b k)) (omega (arith, bit-zero k))
  bit-digits zero (suc fuel) (suc a) b h =
      omega (arith, f_bit (suc a % 2) (b % 2) (omega arith) (omega arith))
  bit-digits (suc k) (suc fuel) (suc a) b h =
      ap (λ t. bit t k) (omega (arith, f_bit (suc a % 2) (b % 2) (omega arith) (omega arith)))
      ∙ bit-digits k fuel (suc a / 2) (b / 2) (omega arith)

pub bit-bit_or : (k a b : ℕ) → bit (bit_or a b) k ≡ max (bit a k) (bit b k)
bit-bit_or k a b =
    ap (λ t. bit t k) (bit_or-bitwise a b)
    ∙ bit-digits (λ y. y) max (λ x y p q. omega arith) (λ k b. omega arith) k a a b (le_refl _)

pub bit-bit_and : (k a b : ℕ) → bit (bit_and a b) k ≡ min (bit a k) (bit b k)
bit-bit_and k a b =
    ap (λ t. bit t k) (bit_and-bitwise a b)
    ∙ bit-digits (λ y. 0) min (λ x y p q. omega arith) (λ k b. omega (arith, bit-zero k)) k a a b
        (le_refl _)

eq_of_bits_below : (n a b : ℕ) → a + b ≤ n → ((k : ℕ) → bit a k ≡ bit b k) → a ≡ b
eq_of_bits_below zero a b h same = omega arith
eq_of_bits_below (suc n) a b h same =
    omega (arith, same 0, eq_of_bits_below n (a / 2) (b / 2) (omega arith) (λ k. same (suc k)))

-- A word is determined by its bits.
pub eq_of_bits : (a b : ℕ) → ((k : ℕ) → bit a k ≡ bit b k) → a ≡ b
eq_of_bits a b = eq_of_bits_below (a + b) a b (le_refl _)

-- The word with the bit at position `j` alone.
abbrev mask : ℕ → ℕ
mask zero = 1
mask (suc j) = mask j * 2

masked : (j v k : ℕ) → min (bit v k) (bit (mask j) k) ≡ bit (bit v j * mask j) k
masked zero v zero = omega arith
masked zero v (suc k) = omega (arith, bit-zero k, ap (λ t. bit t k) (beyond (v % 2) (omega arith)))
  where
    beyond : (x : ℕ) → x ≤ 1 → x * 1 / 2 ≡ 0
    beyond x h = omega arith
masked (suc j) v zero = omega (arith, ap (λ t. t % 2) (even (bit (v / 2) j) (mask j)))
  where
    even : (x y : ℕ) → x * (y * 2) ≡ x * y * 2
    even x y = omega arith
masked (suc j) v (suc k) =
    ap (λ t. min (bit (v / 2) k) (bit t k)) (halved (mask j))
    ∙ masked j (v / 2) k
    ∙ ap (λ t. bit t k) (doubled (bit (v / 2) j) (mask j))
  where
    halved : (y : ℕ) → y * 2 / 2 ≡ y
    halved y = omega arith

    doubled : (x y : ℕ) → x * y ≡ x * (y * 2) / 2
    doubled x y = omega arith

bit_and-mask : (j v : ℕ) → bit_and v (mask j) ≡ bit v j * mask j
bit_and-mask j v = eq_of_bits _ _ (λ k. bit-bit_and k v (mask j) ∙ masked j v k)

-- `v & 0x10` and `v & 0x40`.
pub bit_and-bit4 : (v : ℕ) → bit_and v 16 ≡ bit v 4 * 16
bit_and-bit4 v = bit_and-mask 4 v

pub bit_and-bit6 : (v : ℕ) → bit_and v 64 ≡ bit v 6 * 64
bit_and-bit6 v = bit_and-mask 6 v
