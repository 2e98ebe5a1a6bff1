-- ===== src/BootX64.antt =====
-- The earlier loader, efi/src/main.c: it reads the firmware's memory map and reserves pages for the
-- kernel at a fixed address. What it passes to the firmware as the address of the pages is never set,
-- and it then starts EFI_STUB.efi by calls of the firmware only.
pub mod Map
pub mod Reserve
use fur_os.Prelude.{
  ℕ, zero, suc, ◌+◌, ◌-◌, ◌*◌, ◌/◌, ◌%◌, ◌^◌, Bool, not, ◌&&◌, ltb, leb, ◌==◌, if◌then◌else◌,
  Option, none, some, List, [], ◌∷◌,
}
use fur_os.Command.{ok, Cmd}
use fur_os.Efi.{BootServices, Machine, efi_success}
use fur_os.Pool.{PoolServices, put_bytes, efi_buffer_too_small}

-- `KernelAddress`
abbrev pub kernel_address : ℕ
kernel_address = 0xffff00000000

-- `EfiConventionalMemory`
abbrev pub conventional_memory : ℕ
conventional_memory = 7

-- The fields of an `EFI_MEMORY_DESCRIPTOR` that are read.
pub record Entry : Type 0 where
  pub memory_type : ℕ
  pub physical_start : ℕ
  pub number_of_pages : ℕ

-- `MemoryMap`, `MemoryMapSize` and `DescriptorSize` after the calls.
pub record MapBuffer : Type 0 where
  pub memory_map : ℕ
  pub memory_map_size : ℕ
  pub descriptor_size : ℕ

module _ (B : BootServices) (P : PoolServices B) where
  -- `GetMemoryMap` without a buffer, `AllocatePool` with 100 bytes more, and `GetMemoryMap` with it;
  -- `none` is the return of `EFI_INVALID_PARAMETER`.
  unfoldable pub boot_map : Cmd (Machine B) (Option MapBuffer)
  boot_map s =
      let a = P.memory_map s.boot 0 in
      let size = (a.map_size + 100) % 2 ^ 64 in
      let r = P.allocate_pool s.boot size in
      let b = P.memory_map r.state size in
      if not (a.status == efi_success) && not (a.status == efi_buffer_too_small)
      then ok none s
      else (if not (r.status == efi_success)
          then ok none (record s { boot = r.state })
          else (if not (b.status == efi_success)
              then ok none (record s { boot = r.state })
              else ok
                  (some (record {
                    memory_map = r.address;
                    memory_map_size = b.map_size;
                    descriptor_size = b.descriptor_size;
                  }))
                  (record {
                    memory = put_bytes b.map_size b.bytes r.address s.memory;
                    boot = r.state;
                  })))

-- The pages that are asked for on account of an entry: `ReserveFromFile` or `ResereveFromMap`, the
-- smaller one.
unfoldable pub reserve_count : ℕ → Entry → ℕ
reserve_count file_size entry =
    let from_file = file_size / 0x1000 in
    let above = (kernel_address + 2 ^ 64 - entry.physical_start) % 2 ^ 64 in
    let from_map = (entry.number_of_pages + 2 ^ 64 - above / 0x1000) % 2 ^ 64 in
    if ltb from_file from_map then from_file else from_map

-- The test of the start reads the first entry of the map.
unfoldable pub reserve_test : Entry → Entry → Bool
reserve_test first entry =
    leb kernel_address ((entry.physical_start + entry.number_of_pages * 0x1000) % 2 ^ 64)
    && (leb first.physical_start kernel_address && (entry.memory_type == conventional_memory))

-- The calls of `AllocatePages` in the scan of the map, by the pages that each asks for.
unfoldable pub reserve_calls : ℕ → Entry → List Entry → List ℕ
reserve_calls file_size first [] = []
reserve_calls file_size first (entry ∷ entries) =
    let rest = reserve_calls file_size first entries in
    if reserve_test first entry then reserve_count file_size entry ∷ rest else rest
