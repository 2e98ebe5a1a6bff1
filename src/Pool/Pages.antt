-- ===== src/Pool/Pages.antt =====
-- The pages in use are as they were after `GetMemoryMap`, whatever it returns.
use fur_os.Prelude.{
  ℕ, ◌+◌, ◌*◌, ◌%◌, ◌^◌, ◌≤◌, ◌<◌, ◌≡◌, ◌∙◌, ◌⊎◌, inl, inr, leb, ◌==◌, arith, Bool-cases,
}
use fur_os.Memory.{Memory, load_le, store_le}
use fur_os.Memory.Laws.{store_le-outside}
use fur_os.Efi.{BootServices, Machine, efi_success}
use fur_os.Pool.{PoolServices, ask_map, make_buffer, efi_buffer_too_small}
use fur_os.Pool.Fields.{form-outside, map-outside}

-- The pages of a set have the same bytes in both memories.
abbrev pub SameOn : (ℕ → Type 0) → Memory → Memory → Type 0
SameOn U m m' = (a j : ℕ) → U a → j < 4096 → m' (a + j) ≡ m (a + j)

-- None of their bytes lies in the pool at `d`.
abbrev pub ClearOf : (ℕ → Type 0) → ℕ → ℕ → Type 0
ClearOf U d n = (a j : ℕ) → U a → j < 4096 → (a + j < d) ⊎ (d + n ≤ a + j)

pub SameOn-trans :
    (U : ℕ → Type 0) (m m' m'' : Memory) → SameOn U m m' → SameOn U m' m'' → SameOn U m m''
SameOn-trans U m m' m'' h k a j u lt = k a j u lt ∙ h a j u lt

pub SameOn-store :
    (U : ℕ → Type 0) (m : Memory) (d n o v : ℕ)
    → ClearOf U d n
    → o + 8 ≤ n
    → SameOn U m (store_le 8 m (d + o) v)
SameOn-store U m d n o v clear fits a j u lt =
    store_le-outside 8 m (d + o) v (a + j) (omega (arith, clear a j u lt))

module _ (B : BootServices) (P : PoolServices B) where
  -- The two answers to a call with a buffer of `size` bytes.
  pub answer_cases :
      (s : B.State) (size : ℕ)
      → (P.memory_map s size).map_size ≡ P.needed s
        × (((P.needed s ≤ size) × ((P.memory_map s size).status ≡ efi_success))
            ⊎ ((size < P.needed s) × ((P.memory_map s size).status ≡ efi_buffer_too_small)))
  answer_cases s size = elim (Bool-cases (leb (P.needed s) size)) [
    | inl enough ↦
        let h : P.needed s ≤ size = ground arith in
        let (e, n) = P.map_filled s size h in (n, inl (h, e))
    | inr small ↦
        let h : size < P.needed s = ground arith in
        let (e, n) = P.map_refused s size h in (n, inr (h, e))
  ]

  -- The firmware stores in the descriptor, and in the buffer if the map fits its size.
  pub ask_map-SameOn :
      (U : ℕ → Type 0) (d : ℕ) (s : Machine B)
      → ClearOf U d 40
      → ClearOf U (load_le 8 s.memory (d + 32)) (load_le 8 s.memory d)
      → SameOn U s.memory (ask_map B P d s).1.memory
  unfolding ask_map
  ask_map-SameOn U d s clear clear_buffer a j u lt =
      let size = load_le 8 s.memory d in
      let out : (a + j < d) ⊎ (d + 40 ≤ a + j) = omega (arith, clear a j u lt) in
      let (n, cases) = answer_cases s.boot size in
      elim cases [
        | inl (fits, e) ↦ rw e (
            map-outside d (load_le 8 s.memory (d + 32)) (a + j) size (P.memory_map s.boot size)
              s.memory (omega (arith, n, fits)) out (omega (arith, clear_buffer a j u lt)))
        | inr (small, e) ↦ rw e (form-outside d (a + j) (P.memory_map s.boot size) s.memory out)
      ]

  pub ask_map_boot : (d : ℕ) (s : Machine B) → (ask_map B P d s).1.boot ≡ s.boot
  unfolding ask_map
  ask_map_boot d s =
      let (n, cases) = answer_cases s.boot (load_le 8 s.memory d) in
      elim cases [ inl (fits, e) ↦ rw e | inr (small, e) ↦ rw e ]

  pub make_buffer_in_use :
      (d : ℕ) (s : Machine B) (a : ℕ) → B.InUse s.boot a → B.InUse (make_buffer B P d s).1.boot a
  unfolding make_buffer
  make_buffer_in_use d s a u =
      let size = (load_le 8 s.memory d + 5 * load_le 8 s.memory (d + 8)) % 2 ^ 64 in
      elim (Bool-cases ((P.allocate_pool s.boot size).status == efi_success)) [
        | inl made ↦ rw made (P.pool_page_kept s.boot size a u)
        | inr failed ↦ rw failed (P.pool_page_kept s.boot size a u)
      ]

  pub make_buffer-SameOn :
      (U : ℕ → Type 0) (d : ℕ) (s : Machine B)
      → ClearOf U d 40
      → SameOn U s.memory (make_buffer B P d s).1.memory
  unfolding make_buffer
  make_buffer-SameOn U d s clear =
      let size = (load_le 8 s.memory d + 5 * load_le 8 s.memory (d + 8)) % 2 ^ 64 in
      let m = store_le 8 s.memory d size in
      let e : d + 0 ≡ d = omega arith in
      let first : SameOn U s.memory m =
        rw e at (SameOn-store U s.memory d 40 0 size clear (omega arith)) in
      elim (Bool-cases ((P.allocate_pool s.boot size).status == efi_success)) [
        | inl made ↦ rw made (
            SameOn-trans U s.memory m (store_le 8 m (d + 32) (P.allocate_pool s.boot size).address)
              first
              (SameOn-store U m d 40 32 (P.allocate_pool s.boot size).address clear (omega arith)))
        | inr failed ↦ rw failed first
      ]
