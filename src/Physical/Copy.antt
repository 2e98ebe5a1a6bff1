-- ===== src/Physical/Copy.antt =====
-- `memcpy` on regions that do not overlap.
use fur_os.Prelude.{
  ℕ, zero, suc, ◌+◌, ◌%◌, ◌≤◌, ◌<◌, ◌≡◌, refl, ◌∙◌, ◌⊎◌, ◌&&◌, ltb, leb, if◌then◌else◌, arith, ap,
  inl, inr, ◌-◌, Bool-cases,
}
use fur_os.Memory.{Memory, store8}
use fur_os.Memory.Laws.{Apart}
use fur_os.Physical.{memcpy_loop, memcpy}

-- Nothing but the bytes `dest[i..n)` changes.
memcpy_loop-outside :
    (dest src n left i : ℕ) (m : Memory) (a : ℕ)
    → i + left ≡ n
    → (a < dest + i) ⊎ (dest + n ≤ a)
    → memcpy_loop dest src left i m a ≡ m a
unfolding memcpy_loop store8
memcpy_loop-outside dest src n zero i m a e h = refl
memcpy_loop-outside dest src n (suc left) i m a e h =
    memcpy_loop-outside dest src n left (i + 1) _ a (omega arith) (ground arith) ∙ ground arith

memcpy_loop-inside :
    (dest src n left i : ℕ) (m : Memory) (j : ℕ)
    → Apart n dest n src
    → i + left ≡ n
    → i ≤ j
    → j < n
    → memcpy_loop dest src left i m (dest + j) ≡ m (src + j) % 256
unfolding memcpy_loop store8
memcpy_loop-inside dest src n zero i m j apart e lo hi = absurd (omega arith)
memcpy_loop-inside dest src n (suc left) i m j apart e lo hi = ground (
  arith,
  memcpy_loop-inside dest src n left (i + 1) (store8 m (dest + i) (m (src + i) % 256)) j apart,
  memcpy_loop-outside dest src n left (i + 1) (store8 m (dest + i) (m (src + i) % 256)) (dest + j),
)

-- `memcpy` on two regions of `n` bytes that do not overlap: each byte of the destination is the
-- source's byte at the same place, and every other byte of memory is as before.
pub memcpy_lem :
    (dest src n : ℕ) (m : Memory)
    → Apart n dest n src
    → (a : ℕ)
    → memcpy dest src n m a
      ≡ (if leb dest a && ltb a (dest + n) then m (src + (a - dest)) % 256 else m a)
unfolding memcpy
memcpy_lem dest src n m apart a = elim (Bool-cases (leb dest a && ltb a (dest + n))) [
  | inl within ↦
      let e : a ≡ dest + (a - dest) = ground arith in
      let copied =
        memcpy_loop-inside dest src n n 0 m (a - dest) apart (omega arith) (omega arith)
          (ground arith) in
      rw within (ap (memcpy_loop dest src n 0 m) e ∙ copied)
  | inr out ↦ rw out (memcpy_loop-outside dest src n n 0 m a (omega arith) (ground arith))
]
