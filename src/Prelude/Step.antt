-- ===== src/Prelude/Step.antt =====
-- Bit operations by binary digits: the equation for the lowest digit, and the operations with zero.
use Prim.Native.Nat.{
  ℕ, zero, suc, ◌+◌, ◌*◌, ◌/◌, ◌%◌, ◌≤◌, min, max, digits, bit_and, bit_or, bit_and-bitwise,
  bit_or-bitwise,
}
use mathlib.Core.Path.{◌≡◌, refl, sym, ◌∙◌, ap}
use mathlib.Core.Logic.{◌⊎◌, inl, inr}
use native.Mathlib.Omega.{arith}

last_or_less : (n k : ℕ) → k ≤ suc n → (k ≡ suc n) ⊎ (k ≤ n)
last_or_less n k h = omega arith

module _ (rest : ℕ → ℕ) (op : ℕ → ℕ → ℕ) where
  -- One round more than the number needs.
  digits_spare : (k a b : ℕ) → a ≤ k → digits rest op (suc k) a b ≡ digits rest op k a b
  digits_spare zero zero b h = refl
  digits_spare zero (suc a) b h = absurd (omega arith)
  digits_spare (suc k) zero b h = refl
  digits_spare (suc k) (suc a) b h =
      ap (λ (t : ℕ). t * 2 + op (suc a % 2) (b % 2))
        (digits_spare k (suc a / 2) (b / 2) (omega arith))

  -- Any number of rounds more.
  digits_down : (n k a b : ℕ) → a ≤ k → k ≤ n → digits rest op n a b ≡ digits rest op k a b
  digits_down zero k a b h le = let e : k ≡ 0 = omega arith in rw e
  digits_down (suc n) k a b h le = elim (last_or_less n k le) [
    | inl e ↦ rw e
    | inr less ↦ digits_spare n a b (omega arith) ∙ digits_down n k a b h less
  ]

  module _ (at_zero : (b : ℕ) → rest b ≡ op 0 (b % 2) + 2 * rest (b / 2)) where
    lowest_digit :
        (a b : ℕ)
        → digits rest op a a b ≡ op (a % 2) (b % 2) + 2 * digits rest op (a / 2) (a / 2) (b / 2)
    lowest_digit zero b = at_zero b
    lowest_digit (suc a) b =
        omega (arith, digits_down a (suc a / 2) (suc a / 2) (b / 2) (omega arith) (omega arith))

-- With zero on the right.
and_with_zero : (n a : ℕ) → digits (λ b. 0) min n a 0 ≡ 0
and_with_zero zero a = refl
and_with_zero (suc n) zero = refl
and_with_zero (suc n) (suc a) = omega (arith, and_with_zero n (suc a / 2))

or_with_zero : (n a : ℕ) → a ≤ n → digits (λ b. b) max n a 0 ≡ a
or_with_zero zero a h = omega arith
or_with_zero (suc n) zero h = refl
or_with_zero (suc n) (suc a) h = omega (arith, or_with_zero n (suc a / 2) (omega arith))

pub bit_and-zero : (a : ℕ) → bit_and a 0 ≡ 0
bit_and-zero a = bit_and-bitwise a 0 ∙ and_with_zero a a

pub bit_or-zero : (a : ℕ) → bit_or a 0 ≡ a
bit_or-zero a = bit_or-bitwise a 0 ∙ or_with_zero a a (omega arith)

pub and_digit : (a b : ℕ) → bit_and a b ≡ min (a % 2) (b % 2) + 2 * bit_and (a / 2) (b / 2)
and_digit a b =
    bit_and-bitwise a b
    ∙ lowest_digit (λ b. 0) min (λ b. omega arith) a b
    ∙ ap (λ (t : ℕ). min (a % 2) (b % 2) + 2 * t) (sym (bit_and-bitwise (a / 2) (b / 2)))

pub or_digit : (a b : ℕ) → bit_or a b ≡ max (a % 2) (b % 2) + 2 * bit_or (a / 2) (b / 2)
or_digit a b =
    bit_or-bitwise a b
    ∙ lowest_digit (λ b. b) max (λ b. omega arith) a b
    ∙ ap (λ (t : ℕ). max (a % 2) (b % 2) + 2 * t) (sym (bit_or-bitwise (a / 2) (b / 2)))
