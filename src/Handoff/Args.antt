-- ===== src/Handoff/Args.antt =====
-- `KERNEL_ARGS` in memory: the loader stores it by the type of efi/src/EFI_STUB.c, and the kernel reads
-- it by the type of src/main.c. Fields stand at multiples of their alignment, as the x86-64 ABI says.
pub mod Fields
use fur_os.Prelude.{ℕ, zero, suc, ◌+◌, ◌-◌, ◌*◌, ◌/◌, List, [], ◌∷◌, get_or}
use fur_os.Memory.{Memory, load_le, store_le}
use fur_os.Boot.{MemoryMapDescriptor}
use fur_os.Stub.{Loaded, LoaderArgs}

-- The size of a scalar field, which is its alignment too, or a structure's fields: an inner structure of
-- these types starts with a field of 8 bytes and is aligned to 8.
abbrev pub align : ℕ → ℕ → ℕ
align n o = (o + (n - 1)) / n * n

-- The offsets of fields of these sizes, from the first free byte on.
abbrev pub offsets : ℕ → List ℕ → List ℕ
offsets o [] = []
offsets o (n ∷ ns) = align n o ∷ offsets (align n o + n) ns

-- `MemoryMapSize`, `DescriptorSize`, `MapKey`, `DescriptorVersion`, `MemoryMap`.
abbrev pub descriptor_sizes : List ℕ
descriptor_sizes = 8 ∷ 8 ∷ 8 ∷ 4 ∷ 8 ∷ []

-- The fields of the loader's structure, with those of the inner one in its place.
abbrev pub loader_sizes : List ℕ
loader_sizes = 8 ∷ 8 ∷ 4 ∷ 4 ∷ 4 ∷ 8 ∷ 8 ∷ 8 ∷ 4 ∷ 8 ∷ 8 ∷ 8 ∷ 8 ∷ []

-- Those of the kernel's: three pointers take the place of addresses.
abbrev pub kernel_sizes : List ℕ
kernel_sizes = 8 ∷ 8 ∷ 4 ∷ 4 ∷ 4 ∷ 8 ∷ 8 ∷ 8 ∷ 4 ∷ 8 ∷ 8 ∷ 8 ∷ 8 ∷ []

abbrev pub loader_at : ℕ → ℕ
loader_at i = get_or (offsets 0 loader_sizes) i 0

abbrev pub kernel_at : ℕ → ℕ
kernel_at i = get_or (offsets 0 kernel_sizes) i 0

-- A field to be stored.
pub record Field : Type 0 where
  pub offset : ℕ
  pub size : ℕ
  pub value : ℕ

unfoldable pub store_fields : ℕ → List Field → Memory → Memory
store_fields a [] m = m
store_fields a (f ∷ fs) m = store_fields a fs (store_le f.size m (a + f.offset) f.value)

abbrev pub field : ℕ → ℕ → ℕ → Field
field o n v = record { offset = o; size = n; value = v }

-- The assignments to the fields of `KernelArgs` before the page tables are made, in order: the screen as
-- the firmware gives it.
abbrev pub mode_fields : Loaded → List Field
mode_fields l =
    field (loader_at 0) 8 l.frame_buffer_base
    ∷ field (loader_at 1) 8 l.frame_buffer_size
    ∷ field (loader_at 3) 4 l.horizontal_resolution
    ∷ field (loader_at 2) 4 l.vertical_resolution
    ∷ field (loader_at 4) 4 l.pixels_per_scanline
    ∷ []

unfoldable pub write_mode : ℕ → Loaded → Memory → Memory
write_mode a l m = store_fields a (mode_fields l) m

-- Those that follow the making of the top-level table, in order: the frame map, the framebuffer's new
-- address, the region, and the copy of the descriptor.
abbrev pub rest_fields : LoaderArgs → List Field
rest_fields x =
    let d = x.memory_map_descriptor in
    field (loader_at 10) 8 x.frame_map
    ∷ field (loader_at 11) 8 x.frame_map_size
    ∷ field (loader_at 0) 8 x.framebuffer
    ∷ field (loader_at 12) 8 x.temp_mapping_region
    ∷ field (loader_at 5) 8 d.memory_map_size
    ∷ field (loader_at 6) 8 d.descriptor_size
    ∷ field (loader_at 7) 8 d.map_key
    ∷ field (loader_at 8) 4 d.descriptor_version
    ∷ field (loader_at 9) 8 d.memory_map
    ∷ []

unfoldable pub write_rest : ℕ → LoaderArgs → Memory → Memory
write_rest a x m = store_fields a (rest_fields x) m

-- `KernelArgs->` each field, in `kernel`.
unfoldable pub read_args : Memory → ℕ → LoaderArgs
read_args m a = record {
  framebuffer = load_le 8 m (a + kernel_at 0);
  framebuffersize = load_le 8 m (a + kernel_at 1);
  vertical_resolution = load_le 4 m (a + kernel_at 2);
  horizontal_resolution = load_le 4 m (a + kernel_at 3);
  pixels_per_scanline = load_le 4 m (a + kernel_at 4);
  memory_map_descriptor = record {
    memory_map_size = load_le 8 m (a + kernel_at 5);
    descriptor_size = load_le 8 m (a + kernel_at 6);
    map_key = load_le 8 m (a + kernel_at 7);
    descriptor_version = load_le 4 m (a + kernel_at 8);
    memory_map = load_le 8 m (a + kernel_at 9);
  };
  frame_map = load_le 8 m (a + kernel_at 10);
  frame_map_size = load_le 8 m (a + kernel_at 11);
  temp_mapping_region = load_le 8 m (a + kernel_at 12);
}
