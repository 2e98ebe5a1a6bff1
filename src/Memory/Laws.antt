-- ===== src/Memory/Laws.antt =====
-- What a load sees after a store.
use fur_os.Prelude.{
  ℕ, zero, suc, ◌+◌, ◌/◌, ◌^◌, ◌≤◌, ◌<◌, ◌≡◌, refl, ◌∙◌, ◌⊎◌, arith, ltb, leb, ◌&&◌, if◌then◌else◌,
  ◌==◌, false,
}
use native.Mathlib.Nat.{pow-suc}
use fur_os.Memory.{Memory, store8, load_le, store_le, clear_bytes}

-- The `n` bytes at `a` and the `k` bytes at `b` do not meet.
abbrev pub Apart : ℕ → ℕ → ℕ → ℕ → Type 0
Apart n a k b = (a + n ≤ b) ⊎ (b + k ≤ a)

pub load_le-store8_ne :
    (n : ℕ) (m : Memory) (a b v : ℕ)
    → (b < a) ⊎ (a + n ≤ b)
    → load_le n (store8 m b v) a ≡ load_le n m a
unfolding load_le store8
load_le-store8_ne zero m a b v h = refl
load_le-store8_ne (suc n) m a b v h = ground (arith, load_le-store8_ne n m (a + 1) b v)

pub load_le-lt : (n : ℕ) (m : Memory) (a : ℕ) → load_le n m a < 256 ^ n
unfolding load_le
load_le-lt zero m a = omega arith
load_le-lt (suc n) m a = omega (arith, load_le-lt n m (a + 1), pow-suc 256 n)

-- A value that fits comes back.
pub load_le-store_le :
    (n : ℕ) (m : Memory) (a v : ℕ) → v < 256 ^ n → load_le n (store_le n m a v) a ≡ v
unfolding load_le store_le store8
load_le-store_le zero m a v h = omega arith
load_le-store_le (suc n) m a v h = ground (
  arith,
  pow-suc 256 n,
  load_le-store8_ne n (store_le n m (a + 1) (v / 256)) (a + 1) a v,
  load_le-store_le n m (a + 1) (v / 256),
)

pub load_le-store_le-Apart :
    (n k : ℕ) (m : Memory) (a b v : ℕ)
    → Apart n a k b
    → load_le n (store_le k m b v) a ≡ load_le n m a
unfolding store_le
load_le-store_le-Apart n zero m a b v h = refl
load_le-store_le-Apart n (suc k) m a b v h =
    load_le-store8_ne n (store_le k m (b + 1) (v / 256)) a b v (ground arith)
    ∙ load_le-store_le-Apart n k m a (b + 1) (v / 256) (ground arith)

pub clear_bytes_lem :
    (n : ℕ) (m : Memory) (a b : ℕ)
    → clear_bytes n m a b ≡ (if leb a b && ltb b (a + n) then 0 else m b)
unfolding clear_bytes store8
clear_bytes_lem zero m a b = ground arith
clear_bytes_lem (suc n) m a b = ground (arith, clear_bytes_lem n (store8 m a 0) (a + 1) b)

pub load_le-clear_bytes :
    (n k : ℕ) (m : Memory) (a b : ℕ) → b ≤ a → a + n ≤ b + k → load_le n (clear_bytes k m b) a ≡ 0
unfolding load_le
load_le-clear_bytes zero k m a b p q = refl
load_le-clear_bytes (suc n) k m a b p q =
    ground (arith, clear_bytes_lem k m b a, load_le-clear_bytes n k m (a + 1) b)

pub load_le-clear_bytes-Apart :
    (n k : ℕ) (m : Memory) (a b : ℕ)
    → Apart n a k b
    → load_le n (clear_bytes k m b) a ≡ load_le n m a
unfolding load_le
load_le-clear_bytes-Apart zero k m a b h = refl
load_le-clear_bytes-Apart (suc n) k m a b h =
    ground (arith, clear_bytes_lem k m b a, load_le-clear_bytes-Apart n k m (a + 1) b)

pub store_le-outside :
    (n : ℕ) (m : Memory) (b v a : ℕ) → (a < b) ⊎ (b + n ≤ a) → store_le n m b v a ≡ m a
unfolding store_le store8
store_le-outside zero m b v a h = refl
store_le-outside (suc n) m b v a h =
    let off : (a == b) ≡ false = ground arith in
    rw off (store_le-outside n m (b + 1) (v / 256) a (omega arith))

-- A number within a range of bytes that two memories share.
pub load_le-agree :
    (n len : ℕ) (m m' : Memory) (a o : ℕ)
    → ((j : ℕ) → j < len → m' (a + j) ≡ m (a + j))
    → o + n ≤ len
    → load_le n m' (a + o) ≡ load_le n m (a + o)
unfolding load_le
load_le-agree zero len m m' a o same h = refl
load_le-agree (suc n) len m m' a o same h =
    let next : a + o + 1 ≡ a + (o + 1) = omega arith in
    rw (same o (omega arith), next, load_le-agree n len m m' a (o + 1) same (omega arith))
