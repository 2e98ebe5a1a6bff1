-- ===== src/Efi.antt =====
-- The firmware's side of the loader: status values, and the boot services that the loader calls.
-- Both come from the UEFI firmware and its headers, so the services are a parameter.
use fur_os.Prelude.{ℕ, ◌+◌, ◌*◌, ◌%◌, ◌^◌, ◌≤◌, ◌<◌, ◌≡◌, ◌⊎◌, Bool, leb}
use fur_os.Memory.{Memory}

abbrev pub efi_success : ℕ
efi_success = 0

-- `EFI_ERROR(s)`: the status is negative as a signed 64-bit number.
abbrev pub efi_error : ℕ → Bool
efi_error s = leb (2 ^ 63) s

abbrev pub page_size : ℕ
page_size = 0x1000

-- What a call of `AllocatePages` answers; `address` is stored only on success.
pub record Allocation (S : Type 0) : Type 0 where
  pub status : ℕ
  pub address : ℕ
  pub state : S

-- `AllocatePages(AllocateAnyPages, EfiLoaderData, count, &address)`. `InUse s a` says that the page
-- at `a` has been handed out. The laws are what the UEFI specification promises: a status is
-- success or an error, and on success the pages are aligned, within the physical address space,
-- not in use before and in use afterwards. No call takes a page back.
pub record BootServices : Type 1 where
  pub State : Type 0
  pub allocate_pages : State → ℕ → Allocation State
  pub InUse : State → ℕ → Type 0
  pub status_cases :
      (s : State) (n : ℕ)
      → ((allocate_pages s n).status ≡ 0) ⊎ (2 ^ 63 ≤ (allocate_pages s n).status)
  pub page_aligned :
      (s : State) (n : ℕ)
      → (allocate_pages s n).status ≡ 0
      → (allocate_pages s n).address % 4096 ≡ 0
  pub page_fits :
      (s : State) (n : ℕ)
      → (allocate_pages s n).status ≡ 0
      → (allocate_pages s n).address + 4096 * n ≤ 2 ^ 52
  pub page_fresh :
      (s : State) (n k : ℕ)
      → (allocate_pages s n).status ≡ 0
      → k < n
      → ¬ (InUse s ((allocate_pages s n).address + 4096 * k))
  pub page_marked :
      (s : State) (n k : ℕ)
      → (allocate_pages s n).status ≡ 0
      → k < n
      → InUse (allocate_pages s n).state ((allocate_pages s n).address + 4096 * k)
  pub page_kept : (s : State) (n a : ℕ) → InUse s a → InUse (allocate_pages s n).state a

-- The loader runs with memory identity-mapped, so a pointer is a physical address.
pub record Machine (B : BootServices) : Type 0 where
  pub memory : Memory
  pub boot : B.State
