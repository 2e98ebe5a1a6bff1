-- ===== src/Stub.antt =====
-- `efi_main` of efi/src/EFI_STUB.c from the making of the page tables (line 405) to the arguments that it
-- leaves for the kernel (line 489). What it has read before, of its own image, the kernel's file and
-- the screen, is its input; `Print` is left out.
pub mod Areas
pub mod Root
pub mod Overrun
pub mod Kept
pub mod Layout
pub mod Main
pub mod Apart
pub mod Exact
pub mod Scan
use fur_os.Prelude.{
  ℕ, zero, suc, ◌+◌, ◌-◌, ◌*◌, ◌/◌, ◌%◌, ◌^◌, bit_and, Bool, true, false, not, ltb, ◌==◌,
  if◌then◌else◌, Option, none, some, List, [], ◌∷◌,
}
use fur_os.Command.{ok, Cmd, pure, ◌>>=◌, ◌>>◌}
use fur_os.Memory.{Memory, load_le, store_le}
use fur_os.Efi.{BootServices, Machine, efi_success}
use fur_os.Paging.{make_temp_region}
use fur_os.Loader.{map_pages, Descriptor, max_address}
use fur_os.Pool.{PoolServices, get_memory_map}
use fur_os.Boot.{MemoryMapDescriptor}

abbrev pub higher_half_start : ℕ
higher_half_start = 0xffff800000000000

abbrev pub stack_top : ℕ
stack_top = 0xfffffffffffff000

abbrev pub stack_size : ℕ
stack_size = 0x50000

-- `RootImage`, the kernel's file and where it was loaded (`KernelInfo->FileSize`,
-- `KernelPhysicalAddress`), and `GopProtocol->Mode`.
pub record Loaded : Type 0 where
  pub image_base : ℕ
  pub image_size : ℕ
  pub kernel_physical : ℕ
  pub file_size : ℕ
  pub frame_buffer_base : ℕ
  pub frame_buffer_size : ℕ
  pub vertical_resolution : ℕ
  pub horizontal_resolution : ℕ
  pub pixels_per_scanline : ℕ

-- `KernelPagesCount`, the bytes of a file in whole pages, and 16 pages more.
unfoldable pub kernel_size : ℕ → ℕ
kernel_size file_size = ((file_size + 0xfff) % 2 ^ 64 / 0x1000 * 0x1000 + 0x10000) % 2 ^ 64

abbrev pub kernel_pages_count : Loaded → ℕ
kernel_pages_count l = kernel_size l.file_size

-- `KERNEL_ARGS`.
pub record LoaderArgs : Type 0 where
  pub framebuffer : ℕ
  pub framebuffersize : ℕ
  pub vertical_resolution : ℕ
  pub horizontal_resolution : ℕ
  pub pixels_per_scanline : ℕ
  pub memory_map_descriptor : MemoryMapDescriptor
  pub frame_map : ℕ
  pub frame_map_size : ℕ
  pub temp_mapping_region : ℕ

-- How it ends: with the arguments for the kernel; or in what C leaves undefined, a use of the `NULL`
-- that `GetMemoryMap` returned, a scan of a map whose entries have size 0, which does not end, or a
-- use of the frame map's address, which was not set.
pub data Ending : Type 0 where
  started : LoaderArgs → Ending
  null_map endless_scan unset_frame_map : Ending

-- `for (i = 0; i < 0x400; i++) PML4[i] = 0;`, on the entries left.
unfoldable pub clear_entries : ℕ → Memory → ℕ → Memory
clear_entries zero m a = m
clear_entries (suc n) m a = clear_entries n (store_le 8 m a 0) (a + 8)

-- `*d`, for a `MEMORY_MAP_DESCRIPTOR`.
unfoldable pub read_descriptor : Memory → ℕ → MemoryMapDescriptor
read_descriptor m d = record {
  memory_map_size = load_le 8 m d;
  descriptor_size = load_le 8 m (d + 8);
  map_key = load_le 8 m (d + 16);
  descriptor_version = load_le 4 m (d + 24);
  memory_map = load_le 8 m (d + 32);
}

-- The fields of the entry at `i` that the scan reads.
abbrev pub entry_at : Memory → MemoryMapDescriptor → ℕ → Descriptor
entry_at m d i =
    let a = (d.memory_map + i) % 2 ^ 64 in
    record { physical_start = load_le 8 m (a + 8); number_of_pages = load_le 8 m (a + 24) }

-- The entries that the scan reads from `i` on, on fuel: `none` is that the fuel ran out.
unfoldable pub read_entries : ℕ → Memory → MemoryMapDescriptor → ℕ → Option (List Descriptor)
read_entries zero m d i = none
read_entries (suc fuel) m d i =
    let rest = read_entries fuel m d ((i + d.descriptor_size) % 2 ^ 64) in
    if ltb i d.memory_map_size
    then elim rest [ none ↦ none | some entries ↦ some (entry_at m d i ∷ entries) ]
    else some []

-- `CurrentPage` after the frame map, after the framebuffer, and at the region.
abbrev pub after_frames : ℕ → ℕ → ℕ
after_frames current size = (current + (size + 0xfff) / 0x1000 * 0x10000) % 2 ^ 64

abbrev pub region_start : ℕ → ℕ
region_start current = (bit_and current (2 ^ 64 - 1 - 0x1fffff) + 2 ^ 21) % 2 ^ 64

module _ (B : BootServices) where
  -- `AllocatePages`; a failure leaves the variable at `old`.
  unfoldable pub allocate : {A : Type 0} → A → (ℕ → A) → ℕ → Cmd (Machine B) A
  allocate old set count s =
      let r = B.allocate_pages s.boot count in
      ok (if r.status == efi_success then set r.address else old) (record s { boot = r.state })

  -- `PML4` is a pointer: the entries past the page that was allocated are the memory behind it.
  unfoldable pub make_root : Cmd (Machine B) ℕ
  unfolding allocate
  make_root = do
    phys ← allocate 0 (λ a. a) 1
    λ s. ok phys (record s { memory = clear_entries 0x400 s.memory phys })

  -- The loader itself, the kernel and its stack.
  unfoldable pub map_kernel : Loaded → ℕ → Cmd (Machine B) (Unit {0})
  unfolding allocate
  map_kernel l pml4 = do
    map_pages B l.image_size l.image_base l.image_base false pml4
    map_pages B (kernel_pages_count l) l.kernel_physical higher_half_start true pml4
    stack ← allocate 0 (λ a. a) (stack_size / 0x1000)
    map_pages B stack_size stack (stack_top - stack_size) true pml4

  -- The frame map, where it has a page: its address may not have been set.
  unfoldable pub map_frames : ℕ → Option ℕ → ℕ → ℕ → Cmd (Machine B) Bool
  map_frames size none virt pml4 = pure (size == 0)
  map_frames size (some frame_map) virt pml4 =
      map_pages B size frame_map virt true pml4 >> pure true

module _ (B : BootServices) (P : PoolServices B) where
  unfoldable pub get_map : Cmd (Machine B) ℕ
  get_map s = let (d, s') = get_memory_map B P s in ok d s'

  -- The arguments: the descriptor at `d` is copied.
  unfoldable pub leave_args : Loaded → ℕ → ℕ → ℕ → Cmd (Machine B) Ending
  leave_args l size current d s =
      let screen = after_frames current size in
      let region = region_start ((screen + l.frame_buffer_size) % 2 ^ 64) in
      if d == 0
      then ok null_map s
      else ok
          (started (record {
            framebuffer = (higher_half_start + screen) % 2 ^ 64;
            framebuffersize = l.frame_buffer_size;
            vertical_resolution = l.vertical_resolution;
            horizontal_resolution = l.horizontal_resolution;
            pixels_per_scanline = l.pixels_per_scanline;
            memory_map_descriptor = read_descriptor s.memory d;
            frame_map = (higher_half_start + current) % 2 ^ 64;
            frame_map_size = size;
            temp_mapping_region = (higher_half_start + region) % 2 ^ 64;
          }))
          s

  -- The framebuffer and the region of temporary mappings, and the arguments.
  unfoldable pub map_rest : Loaded → ℕ → ℕ → ℕ → Cmd (Machine B) Ending
  unfolding get_map leave_args
  map_rest l size current pml4 =
      let screen = after_frames current size in
      let region = region_start ((screen + l.frame_buffer_size) % 2 ^ 64) in
      do
        map_pages B l.frame_buffer_size l.frame_buffer_base ((higher_half_start + screen) % 2 ^ 64)
            false pml4
        make_temp_region B ((higher_half_start + region) % 2 ^ 64) pml4
        d ← get_map
        leave_args l size current d

  -- From the size of the frame map on.
  unfoldable pub map_sized : Loaded → ℕ → ℕ → Cmd (Machine B) Ending
  unfolding allocate map_frames map_rest
  map_sized l size pml4 = do
    frame_map ← allocate B none some ((size + 0xfff) / 0x1000)
    set ← map_frames B size frame_map ((higher_half_start + kernel_pages_count l) % 2 ^ 64) pml4
    if set then map_rest l size (kernel_pages_count l) pml4 else pure unset_frame_map

  -- The scan of the map that the descriptor at `d` describes, and what depends on its result. It has at
  -- most one round for each byte of the map, unless it does not end.
  unfoldable pub scan_map : Loaded → ℕ → ℕ → Cmd (Machine B) Ending
  unfolding map_sized
  scan_map l pml4 d s =
      let descriptor = read_descriptor s.memory d in
      if d == 0
      then ok null_map s
      else (elim (read_entries (suc descriptor.memory_map_size) s.memory descriptor 0) [
        | none ↦ ok endless_scan s
        | some entries ↦ map_sized l (max_address 0 entries / 0x1000 / 8) pml4 s
      ])

  unfoldable pub efi_main : Loaded → Cmd (Machine B) Ending
  unfolding make_root map_kernel get_map scan_map
  efi_main l = do pml4 ← make_root B; map_kernel B l pml4; d ← get_map; scan_map l pml4 d
