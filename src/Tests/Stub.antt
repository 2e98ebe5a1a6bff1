-- ===== src/Tests/Stub.antt =====
-- `efi_main` on a firmware with memory, and the areas of a state with a part of the screen mapped.
use fur_os.Prelude.{
  inl, inr, ℕ, ◌+◌, ◌-◌, ◌/◌, ◌*◌, ◌^◌, ◌%◌, ◌<◌, ◌≡◌, refl, true, false, suc, ltb, leb, ◌&&◌, ◌≤◌,
  if◌then◌else◌, none, some, get_elem?, List, [], ◌∷◌, arith,
}
use fur_os.Command.{ok}
use fur_os.Command.Ensures.{Ensures, weaken, result_of}
use fur_os.Efi.{Allocation, BootServices, Machine}
use fur_os.Stub.Overrun.{make_root_next_page}
use fur_os.Paging.Tree.{translate}
use fur_os.Paging.Map.{leaf_of}
use fur_os.Loader.{Descriptor, map_pages}
use fur_os.Memory.{Memory}
use fur_os.Boot.{MemoryMapDescriptor}
use fur_os.Stub.Scan.{read_entries_lem}
use fur_os.Stub.{
  entry_at, read_entries, kernel_pages_count, LoaderArgs, started, higher_half_start, stack_top,
  stack_size, make_root, efi_main,
}
use fur_os.Stub.Areas.{widen, Area, Confined, map_pages-Confined}
use fur_os.Stub.Root.{make_root-Confined}
use fur_os.Stub.Layout.{
  image_area, kernel_area, stack_area, frames_area, screen_area, region_area, kernel_areas,
  screen_at, region_at, Booted,
}
use fur_os.Stub.Main.{efi_main-Booted}
use fur_os.Stub.Apart.{FitsLayout}
use fur_os.Stub.Exact.{AtMost, Booted-exact}
use fur_os.Tests.Firmware.{boot, pools, machine, loaded}

efi_main-Booted_example :
    Ensures
      (Booted boot loaded (boot.allocate_pages machine.boot 1).address)
      (efi_main boot pools loaded machine)
efi_main-Booted_example =
    efi_main-Booted boot pools loaded machine (record { image = omega arith; screen = omega arith })
      refl

-- A top-level table, and 64 KiB of the screen mapped in it.
abbrev made :
    (root : ℕ) × (s : Machine boot) × (make_root boot machine ≡ ok root s)
    × (Confined boot root [] s × boot.InUse s.boot 0)
made = result_of {P = λ root s. Confined boot root [] s × boot.InUse s.boot 0} (
    weaken (make_root-Confined boot machine refl)
      (λ _ _ (at, (c, x)). (c, x.kept 0 (omega arith, omega arith))))

abbrev frames : List Area
frames = frames_area loaded 0 0x100 ∷ kernel_areas loaded 0

frames-Confined : Confined boot made.0 frames made.1
frames-Confined = widen boot made.0 (frames_area loaded 0 0x100) (kernel_areas loaded 0) made.1 (
    widen boot made.0 (stack_area 0) (kernel_area loaded ∷ image_area loaded ∷ []) made.1 (
      widen boot made.0 (kernel_area loaded) (image_area loaded ∷ []) made.1
        (widen boot made.0 (image_area loaded) [] made.1 made.3.0)))

abbrev shown :
    (_ : Unit {0}) × (s : Machine boot) × (map_pages boot 0x10000 0x80000000
        ((higher_half_start + screen_at loaded 0x100) % 2 ^ 64)
        false
        made.0
        made.1
      ≡ ok tt s)
    × (Confined boot made.0 (screen_area loaded 0x100 ∷ frames) s × boot.InUse s.boot 0)
shown =
    result_of
      {P = λ _ s. Confined boot made.0 (screen_area loaded 0x100 ∷ frames) s × boot.InUse s.boot 0}
      (weaken
        (map_pages-Confined boot made.0 frames 0x10000 0x80000000
          ((higher_half_start + screen_at loaded 0x100) % 2 ^ 64) false made.1 frames-Confined
          (omega arith))
        (λ _ _ (c, x). (c, x.kept 0 made.3.1)))

abbrev args : LoaderArgs
args = record {
  framebuffer = (higher_half_start + screen_at loaded 0x100) % 2 ^ 64;
  framebuffersize = 0x10000;
  vertical_resolution = 80;
  horizontal_resolution = 120;
  pixels_per_scanline = 120;
  memory_map_descriptor = record {
    memory_map_size = 96;
    descriptor_size = 48;
    map_key = 7;
    descriptor_version = 1;
    memory_map = 2 ^ 52 + 41;
  };
  frame_map = (higher_half_start + kernel_pages_count loaded) % 2 ^ 64;
  frame_map_size = 0x100;
  temp_mapping_region = (higher_half_start + region_at loaded 0x100) % 2 ^ 64;
}

abbrev booted : Booted boot loaded made.0 (started args) shown.1
booted = record {
  stack = 0;
  frame_map = 0;
  size = 0x100;
  pt = 0;
  confined =
      widen boot made.0 (region_area loaded 0x100 0) (screen_area loaded 0x100 ∷ frames) shown.1
        shown.3.0;
  arguments = (refl, refl, refl, refl, refl);
  stack_from = inl refl;
  frames_from = λ k lt. let z : k ≡ 0 = omega arith in rw z (shown.3.1);
  region = inr shown.3.0;
}

loaded-FitsLayout : FitsLayout loaded 0x100
loaded-FitsLayout = record {
  image = omega arith;
  image_pages = refl;
  kernel = omega arith;
  frames = omega arith;
  screen = omega arith;
  screen_pages = refl;
}

Booted-exact_example :
    ((j : ℕ)
      → j < args.framebuffersize
      → AtMost
          (translate shown.1.memory made.0 (args.framebuffer + j))
          (leaf_of (0x80000000 + j) false))
    × ((j : ℕ)
        → j < args.frame_map_size
        → AtMost
            (translate shown.1.memory made.0 (args.frame_map + j))
            (leaf_of (0 + 4096 * (j / 4096)) true))
    × ((j : ℕ)
        → j < 4096
        → AtMost (translate shown.1.memory made.0 (args.temp_mapping_region + j)) (leaf_of 0 false))
    × ((j : ℕ)
        → j < kernel_pages_count loaded
        → AtMost
            (translate shown.1.memory made.0 (higher_half_start + j))
            (leaf_of (0x20000000 + 4096 * (j / 4096)) true))
    × ((j : ℕ)
        → j < stack_size
        → AtMost
            (translate shown.1.memory made.0 (stack_top - stack_size + j))
            (leaf_of (0 + 4096 * (j / 4096)) true))
Booted-exact_example = Booted-exact boot loaded args made.0 shown.1 booted loaded-FitsLayout

-- A map of two entries.
abbrev two_entries : MemoryMapDescriptor
two_entries = record {
  memory_map_size = 96;
  descriptor_size = 48;
  map_key = 7;
  descriptor_version = 1;
  memory_map = 0x7000;
}

abbrev zeros : Memory
zeros a = 0

read_entries_lem_example :
    (entries : List Descriptor) × (read_entries (suc 96) zeros two_entries 0 ≡ some entries)
    × ((k : ℕ)
        → get_elem? entries k
          ≡ (if ltb (0 + k * 48) 96 then some (entry_at zeros two_entries (0 + k * 48)) else none))
read_entries_lem_example = read_entries_lem zeros two_entries (omega arith) (omega arith)

-- A firmware that hands out its pages from the top down: the state is the number of pages left.
abbrev down_pages : ℕ → ℕ → Allocation ℕ
down_pages s n =
    let enough = leb n s && leb s (2 ^ 40) in
    record {
      status = if enough then 0 else 2 ^ 63 + 9;
      address = 4096 * (s - n);
      state = if enough then s - n else s;
    }

abbrev down : BootServices
down = record {
  State = ℕ;
  allocate_pages = down_pages;
  InUse = λ s a. 4096 * s ≤ a;
  status_cases = λ s n. ground arith;
  page_aligned = λ s n h. omega arith;
  page_fits = λ s n h. ground arith;
  page_fresh = λ s n k h lt. ground arith;
  page_marked = λ s n k h lt. ground arith;
  page_kept = λ s n a h. ground arith;
}

-- The sixteenth page is in use, and the fifteenth becomes the top-level table.
abbrev low : Machine down
low = record { memory = λ a. 0x90; boot = 16 }

make_root_next_page_example :
    Ensures
      (λ _ s'. (4096 * s'.boot ≤ 0x10000) × (s'.memory (0x10000 + 3) ≡ 0))
      (make_root down low)
make_root_next_page_example =
    make_root_next_page down low 0x10000 3 refl (omega arith) refl (omega arith)
