-- ===== src/Prelude/Bits.antt =====
-- Masks and flags as arithmetic, at every width.
use Prim.Native.Nat.{ℕ, zero, suc, ◌+◌, ◌-◌, ◌*◌, ◌/◌, ◌%◌, ◌^◌, ◌<◌, bit_and, bit_or}
use mathlib.Core.Path.{◌≡◌, ap}
use native.Mathlib.Nat.{pow-suc, one-le-pow}
use native.Mathlib.Omega.{arith}
use fur_os.Prelude.Step.{and_digit, or_digit, bit_and-zero, bit_or-zero}

mul-pow-suc : (q k : ℕ) → q * 2 ^ suc k ≡ 2 * (q * 2 ^ k)
mul-pow-suc q k = omega (arith, ap (λ (t : ℕ). q * t) (pow-suc 2 k))

low_field : (k q r : ℕ) → r < 2 ^ k → bit_and (q * 2 ^ k + r) (2 ^ k - 1) ≡ r
low_field zero q r h = rw bit_and-zero (omega arith)
low_field (suc k) q r h = ground (
  arith,
  and_digit (q * 2 ^ suc k + r) (2 ^ suc k - 1),
  mul-pow-suc q k,
  pow-suc 2 k,
  low_field k q (r / 2) (omega arith),
)

-- A mask of the `k` lowest bits is a remainder.
pub bit_and_low : (k a : ℕ) → bit_and a (2 ^ k - 1) ≡ a % 2 ^ k
bit_and_low k a = ground (arith, one-le-pow k 2, low_field k (a / 2 ^ k) (a % 2 ^ k))

high_field : (k q r b : ℕ) → r < 2 ^ k → bit_and (q * 2 ^ k + r) (b * 2 ^ k) ≡ bit_and q b * 2 ^ k
high_field zero q r b h =
    let e : q * 2 ^ 0 + r ≡ q = omega arith in
    let e' : b * 2 ^ 0 ≡ b = omega arith in rw (e, e') (omega arith)
high_field (suc k) q r b h = ground (
  arith,
  and_digit (q * 2 ^ suc k + r) (b * 2 ^ suc k),
  mul-pow-suc q k,
  mul-pow-suc b k,
  mul-pow-suc (bit_and q b) k,
  high_field k q (r / 2) b (omega arith),
)

-- A mask with `k` zeros at the end works on the bits above them.
pub bit_and_high : (k a b : ℕ) → bit_and a (b * 2 ^ k) ≡ bit_and (a / 2 ^ k) b * 2 ^ k
bit_and_high k a b = ground (arith, one-le-pow k 2, high_field k (a / 2 ^ k) (a % 2 ^ k) b)

-- A value of at most `k` bits is put below one whose `k` lowest bits are clear.
pub bit_or_fields : (k q r : ℕ) → r < 2 ^ k → bit_or (q * 2 ^ k) r ≡ q * 2 ^ k + r
bit_or_fields zero q r h = ground (arith, bit_or-zero q)
bit_or_fields (suc k) q r h =
    ground
      (arith, or_digit (q * 2 ^ suc k) r, mul-pow-suc q k, bit_or_fields k q (r / 2) (omega arith))

-- The two lowest bits are set, the others kept.
pub bit_or_three : (a : ℕ) → bit_or a 3 ≡ a / 4 * 4 + 3
bit_or_three a = omega (arith, or_digit a 3, or_digit (a / 2) 1, bit_or-zero (a / 2 / 2))

-- Bit 4 is set where it was clear.
pub bit_or_sixteen : (a : ℕ) → a / 16 % 2 ≡ 0 → bit_or a 16 ≡ a + 16
bit_or_sixteen a h = omega (
  arith,
  or_digit a 16,
  or_digit (a / 2) 8,
  or_digit (a / 2 / 2) 4,
  or_digit (a / 2 / 2 / 2) 2,
  or_digit (a / 2 / 2 / 2 / 2) 1,
  bit_or-zero (a / 2 / 2 / 2 / 2 / 2),
)
