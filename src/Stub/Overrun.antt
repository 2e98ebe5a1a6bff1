-- ===== src/Stub/Overrun.antt =====
-- The clearing of the top-level table runs over its end.
use fur_os.Prelude.{
  ℕ, zero, suc, ◌+◌, ◌-◌, ◌*◌, ◌<◌, ◌≡◌, ◌∙◌, inl, inr, true, false, ltb, ◌==◌, arith, Bool-cases,
}
use fur_os.Command.Ensures.{Ensures, ensures}
use fur_os.Memory.{Memory, store_le, store8}
use fur_os.Efi.{BootServices, Machine, efi_success}
use fur_os.Stub.Root.{clear_entries-outside}
use fur_os.Stub.{clear_entries, make_root}

store_le-zero : (n : ℕ) (m : Memory) (a i : ℕ) → i < n → store_le n m a 0 (a + i) ≡ 0
unfolding store_le store8
store_le-zero zero m a i h = absurd (omega arith)
store_le-zero (suc n) m a i h = elim (Bool-cases (i == 0)) [
  | inl first ↦ let e : (a + i == a) ≡ true = ground arith in rw e
  | inr later ↦
      let e : (a + i == a) ≡ false = ground arith in
      let next : a + i ≡ a + 1 + (i - 1) = ground arith in
      rw (e, next) (store_le-zero n m (a + 1) (i - 1) (ground arith))
]

clear_entries-byte : (n : ℕ) (m : Memory) (a i : ℕ) → i < 8 * n → clear_entries n m a (a + i) ≡ 0
unfolding clear_entries
clear_entries-byte zero m a i h = absurd (omega arith)
clear_entries-byte (suc n) m a i h = elim (Bool-cases (ltb i 8)) [
  | inl first ↦
      clear_entries-outside n (store_le 8 m a 0) (a + 8) (a + i) (ground arith)
      ∙ store_le-zero 8 m a i (ground arith)
  | inr later ↦
      let e : a + i ≡ a + 8 + (i - 8) = ground arith in
      rw e (clear_entries-byte n (store_le 8 m a 0) (a + 8) (i - 8) (ground arith))
]

-- The loop that clears the top-level table has 0x400 rounds of 8 bytes, which is two pages, and one was
-- allocated: whatever the page after it is, a page in use too, all its bytes are 0 afterwards.
pub make_root_next_page :
    (B : BootServices) (s : Machine B) (page j : ℕ)
    → (B.allocate_pages s.boot 1).status ≡ efi_success
    → B.InUse s.boot page
    → page ≡ (B.allocate_pages s.boot 1).address + 4096
    → j < 4096
    → Ensures (λ _ s'. (B.InUse s'.boot page) × (s'.memory (page + j) ≡ 0)) (make_root B s)
unfolding make_root
make_root_next_page B s page j success used next h =
    let a = (B.allocate_pages s.boot 1).address in
    let e : page + j ≡ a + (4096 + j) = omega arith in
    rw success (
      ensures (
        B.page_kept s.boot 1 page used,
        rw e (clear_entries-byte 0x400 s.memory a (4096 + j) (omega arith)),
      ))
