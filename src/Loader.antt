-- ===== src/Loader.antt =====
-- The loops of `efi_main` in efi/src/EFI_STUB.c that map a range of pages: the loader itself, the
-- kernel, its stack, the frame map and the framebuffer. They ignore the status of `MMap`.
-- And its scan of the memory map for the highest address, which sizes the frame map.
pub mod Region
pub mod Scan
use fur_os.Prelude.{
  ℕ, zero, suc, ◌+◌, ◌*◌, ◌/◌, ◌%◌, ◌^◌, Bool, true, ltb, leb, ◌-◌, ◌≤◌, ◌<◌, ◌≡◌, arith,
  if◌then◌else◌, List, [], ◌∷◌,
}
use fur_os.Command.{ok, fault, Cmd, pure, ◌>>=◌}
use fur_os.Efi.{BootServices, Machine}
use fur_os.Paging.{mmap}

module _ (B : BootServices) where
  -- The rounds that are left, from the two addresses of the first of them.
  unfoldable pub map_rounds : ℕ → ℕ → ℕ → Bool → ℕ → Cmd (Machine B) (Unit {0})
  map_rounds zero phys virt cached pml4 = pure tt
  map_rounds (suc left) phys virt cached pml4 = do
    status ← mmap B phys virt cached pml4
    map_rounds left ((phys + 0x1000) % 2 ^ 64) ((virt + 0x1000) % 2 ^ 64) cached pml4

  -- `for (i = 0; i < size; i += 0x1000) MMap(phys + i, virt + i, cached, pml4);`. For a size above
  -- 2 ^ 64 - 0x1000 the counter wraps around and the C loop does not end, which is a fault here.
  unfoldable pub map_pages : ℕ → ℕ → ℕ → Bool → ℕ → Cmd (Machine B) (Unit {0})
  map_pages size phys virt cached pml4 =
      if leb size (2 ^ 64 - 0x1000)
      then map_rounds ((size + 0xfff) / 0x1000) phys virt cached pml4
      else λ s. fault

  pub map_pages-map_rounds :
      (size phys virt : ℕ) (cached : Bool) (pml4 : ℕ) (s : Machine B)
      → size ≤ 2 ^ 64 - 0x1000
      → map_pages size phys virt cached pml4 s
        ≡ map_rounds ((size + 0xfff) / 0x1000) phys virt cached pml4 s
  unfolding map_pages
  map_pages-map_rounds size phys virt cached pml4 s ends =
      let test : leb size (2 ^ 64 - 0x1000) ≡ true = ground arith in rw test

-- The two fields of an `EFI_MEMORY_DESCRIPTOR` that the scan reads.
pub record Descriptor : Type 0 where
  pub physical_start : ℕ
  pub number_of_pages : ℕ

-- `MaxAddress` at the end of the scan, from its value before it and the entries that are left, one
-- for every `DescriptorSize` bytes of the map.
unfoldable pub max_address : ℕ → List Descriptor → ℕ
max_address max [] = max
max_address max (entry ∷ entries) =
    max_address
      (if ltb max entry.physical_start
        then (entry.physical_start + entry.number_of_pages * 0x1000) % 2 ^ 64
        else max)
      entries

pub max_address-lt :
    (entries : List Descriptor) (max : ℕ) → max < 2 ^ 64 → max_address max entries < 2 ^ 64
unfolding max_address
max_address-lt [] max h = h
max_address-lt (entry ∷ entries) max h =
    max_address-lt entries
      (if ltb max entry.physical_start
        then (entry.physical_start + entry.number_of_pages * 0x1000) % 2 ^ 64
        else max)
      (ground arith)
