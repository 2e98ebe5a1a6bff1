-- ===== src/Supply.antt =====
-- A firmware that has memory left: what the loader needs of it to come to its end.
pub mod Tables
pub mod Covers
pub mod Map
pub mod Stage
pub mod Main
pub mod Handed
use fur_os.Prelude.{ℕ, suc, ◌+◌, ◌*◌, ◌%◌, ◌^◌, ◌≤◌, ◌<◌, ◌≡◌}
use fur_os.Memory.{load_le}
use fur_os.Efi.{BootServices, efi_success}
use fur_os.Pool.{PoolServices}

-- `Left s n` says that `n` pages or pools more can be handed out. The map that the firmware gives is
-- not empty, making its buffer adds at most the five entries that are made room for, its entries are
-- as large as an `EFI_MEMORY_DESCRIPTOR`, and each ends at most at `top`.
pub record Supply (B : BootServices) (P : PoolServices B) : Type 1 where
  pub Left : B.State → ℕ → Type 0
  pub top : ℕ
  pub pages :
      (s : B.State) (n k : ℕ)
      → Left s (n + k)
      → ((B.allocate_pages s n).status ≡ efi_success) × Left (B.allocate_pages s n).state k
  pub fewer : (s : B.State) (n k : ℕ) → Left s (n + k) → Left s k
  pub descriptor_pool :
      (s : B.State) (k : ℕ)
      → Left s (1 + k)
      → ((P.allocate_pool s 40).status ≡ efi_success) × Left (P.allocate_pool s 40).state k
  pub map_pool :
      (s : B.State) (k : ℕ)
      → Left s (1 + k)
      → let room = P.needed s + 5 * (P.memory_map s 0).descriptor_size in
        ((P.allocate_pool s room).status ≡ efi_success)
        × Left (P.allocate_pool s room).state k
        × (P.needed (P.allocate_pool s room).state ≤ room)
  pub map_some : (s : B.State) → 0 < P.needed s
  pub map_entries :
      (s : B.State) (size : ℕ) → P.needed s ≤ size → 0 < (P.memory_map s size).descriptor_size
  pub map_ends :
      (s : B.State) (size k : ℕ)
      → P.needed s ≤ size
      → let a = P.memory_map s size in
        let i = k * a.descriptor_size in
        i < P.needed s
        → (i + 32 ≤ P.needed s)
          × ((load_le 8 a.bytes (i + 8) + load_le 8 a.bytes (i + 24) * 0x1000) % 2 ^ 64 ≤ top)
