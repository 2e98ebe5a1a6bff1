-- ===== src/Stub/Layout.antt =====
-- Where the areas of the address space stand that `efi_main` makes, and a state with no other.
use fur_os.Prelude.{ℕ, ◌+◌, ◌-◌, ◌/◌, ◌%◌, ◌^◌, ◌≡◌, ◌≤◌, ◌<◌, ◌*◌, ◌⊎◌, true, false, List, [], ◌∷◌}
use fur_os.Efi.{BootServices, Machine}
use fur_os.Paging.Leads.{Leads}
use fur_os.Stub.{
  kernel_pages_count, Loaded, Ending, started, higher_half_start, stack_top, stack_size,
  after_frames, region_start,
}
use fur_os.Stub.Areas.{Area, Confined}

-- The areas of the address space, the last made first: the region of temporary mappings, which shows
-- the table `pt`; the framebuffer; the frame map; the stack; the kernel; and the loader.
abbrev pub image_area : Loaded → Area
image_area l = record {
  pages = (l.image_size + 0xfff) / 0x1000;
  phys = l.image_base;
  virt = l.image_base;
  cached = false;
}

abbrev pub kernel_area : Loaded → Area
kernel_area l = record {
  pages = (kernel_pages_count l + 0xfff) / 0x1000;
  phys = l.kernel_physical;
  virt = higher_half_start;
  cached = true;
}

abbrev pub stack_area : ℕ → Area
stack_area stack = record {
  pages = (stack_size + 0xfff) / 0x1000;
  phys = stack;
  virt = stack_top - stack_size;
  cached = true;
}

abbrev pub frames_area : Loaded → ℕ → ℕ → Area
frames_area l frame_map size = record {
  pages = (size + 0xfff) / 0x1000;
  phys = frame_map;
  virt = (higher_half_start + kernel_pages_count l) % 2 ^ 64;
  cached = true;
}

-- Where the framebuffer and the region start, counted from the higher half.
abbrev pub screen_at : Loaded → ℕ → ℕ
screen_at l size = after_frames (kernel_pages_count l) size

abbrev pub region_at : Loaded → ℕ → ℕ
region_at l size = region_start ((screen_at l size + l.frame_buffer_size) % 2 ^ 64)

abbrev pub screen_area : Loaded → ℕ → Area
screen_area l size = record {
  pages = (l.frame_buffer_size + 0xfff) / 0x1000;
  phys = l.frame_buffer_base;
  virt = (higher_half_start + screen_at l size) % 2 ^ 64;
  cached = false;
}

abbrev pub region_area : Loaded → ℕ → ℕ → Area
region_area l size pt = record {
  pages = 1;
  phys = pt;
  virt = (higher_half_start + region_at l size) % 2 ^ 64;
  cached = false;
}

abbrev pub kernel_areas : Loaded → ℕ → List Area
kernel_areas l stack = stack_area stack ∷ kernel_area l ∷ image_area l ∷ []

abbrev pub areas_of : Loaded → (stack frame_map size pt : ℕ) → List Area
areas_of l stack frame_map size pt =
    region_area l size pt ∷ screen_area l size ∷ frames_area l frame_map size ∷ kernel_areas l stack

-- The arguments point to the areas.
abbrev pub ArgsOf : Loaded → ℕ → Ending → Type 0
ArgsOf l size (started a) =
    (a.framebuffer ≡ (higher_half_start + screen_at l size) % 2 ^ 64)
    × (a.framebuffersize ≡ l.frame_buffer_size)
    × (a.frame_map ≡ (higher_half_start + kernel_pages_count l) % 2 ^ 64)
    × (a.frame_map_size ≡ size)
    × (a.temp_mapping_region ≡ (higher_half_start + region_at l size) % 2 ^ 64)
ArgsOf l size _ = Unit {0}

-- The counters of the loops over the loader and the framebuffer do not wrap around.
pub record LoopsEnd (l : Loaded) : Type 0 where
  pub image : l.image_size ≤ 2 ^ 64 - 0x1000
  pub screen : l.frame_buffer_size ≤ 2 ^ 64 - 0x1000

-- The `count` pages from `address` on are in use.
abbrev pub HeldPages : (B : BootServices) → (count address : ℕ) → Machine B → Type 0
HeldPages B count address s = (k : ℕ) → k < count → B.InUse s.boot (address + 4096 * k)

-- The stack is memory that the firmware handed out, or at address 0, if there was none; the frame map is
-- such memory; and `pt` is the page table that maps the region, or there is no such area.
pub record Booted (B : BootServices) (l : Loaded) (root : ℕ) (ending : Ending) (s : Machine B)
    : Type 0 where
  pub stack : ℕ
  pub frame_map : ℕ
  pub size : ℕ
  pub pt : ℕ
  pub confined : Confined B root (areas_of l stack frame_map size pt) s
  pub arguments : ArgsOf l size ending
  pub stack_from : (stack ≡ 0) ⊎ HeldPages B (stack_size / 0x1000) stack s
  pub frames_from : HeldPages B ((size + 0xfff) / 0x1000) frame_map s
  pub region :
      Leads s.memory root ((higher_half_start + region_at l size) % 2 ^ 64) pt
      ⊎ Confined B root (screen_area l size ∷ frames_area l frame_map size ∷ kernel_areas l stack) s
