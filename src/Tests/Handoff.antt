-- ===== src/Tests/Handoff.antt =====
-- The arguments in memory, and a temporary mapping through a region that `MakeTempRegion` made.
use fur_os.Prelude.{
  ℕ, ◌+◌, ◌%◌, ◌≡◌, refl, false, ◌==◌, if◌then◌else◌, Option, none, some, [], arith,
}
use fur_os.Command.{Outcome, ok, fault}
use fur_os.Command.Ensures.{Ensures, ensures}
use fur_os.Memory.{Memory, load_le, store_le, store8, clear_bytes}
use fur_os.Efi.{Machine, efi_success}
use fur_os.Paging.{
  make_temp_region, descend, get_table, or_flags, require, set_entry, present, table_of,
}
use fur_os.Paging.Entry.{entry, present_even}
use fur_os.Paging.Tree.{Owner, IsTree, translate, walk, page_of}
use fur_os.Paging.Place.{IsMapped}
use fur_os.Paging.Map.{leaf_of, make_temp_region-IsMapped}
use fur_os.Physical.{Kernel, temp_entry, temp_map}
use fur_os.Physical.Temp.{busy, temp_leaf}
use fur_os.Stub.{Loaded, LoaderArgs}
use fur_os.Handoff.Args.{read_args, write_mode, write_rest}
use fur_os.Handoff.Args.Fields.{FitsArgs, read_args-write_rest}
use fur_os.Handoff.Window.{Sees, write_back, temp_map-window}
use fur_os.Tests.Firmware.{boot, machine}

abbrev args : LoaderArgs
args = record {
  framebuffer = 0xffff800000020000;
  framebuffersize = 0x10000;
  vertical_resolution = 80;
  horizontal_resolution = 120;
  pixels_per_scanline = 120;
  memory_map_descriptor = record {
    memory_map_size = 96;
    descriptor_size = 48;
    map_key = 7;
    descriptor_version = 1;
    memory_map = 0x7000;
  };
  frame_map = 0xffff800000010000;
  frame_map_size = 0x100;
  temp_mapping_region = 0xffff800000200000;
}

args-FitsArgs : FitsArgs args
args-FitsArgs = record {
  framebuffer = omega arith;
  framebuffersize = omega arith;
  vertical_resolution = omega arith;
  horizontal_resolution = omega arith;
  pixels_per_scanline = omega arith;
  memory_map_size = omega arith;
  descriptor_size = omega arith;
  map_key = omega arith;
  descriptor_version = omega arith;
  memory_map = omega arith;
  frame_map = omega arith;
  frame_map_size = omega arith;
  temp_mapping_region = omega arith;
}

-- The screen's mode was stored with another address of the framebuffer.
abbrev loaded : Loaded
loaded = record {
  image_base = 0x10000000;
  image_size = 0x20000;
  kernel_physical = 0x20000000;
  file_size = 0x3210;
  frame_buffer_base = 0x80000000;
  frame_buffer_size = 0x10000;
  vertical_resolution = 80;
  horizontal_resolution = 120;
  pixels_per_scanline = 120;
}

read_args-write_rest_example :
    read_args (write_rest 0x5000 args (write_mode 0x5000 loaded (λ a. 0))) 0x5000 ≡ args
read_args-write_rest_example =
    read_args-write_rest 0x5000 loaded args (λ a. 0) (write_mode 0x5000 loaded (λ a. 0))
      args-FitsArgs
      (record {
        framebuffersize = refl;
        vertical_resolution = refl;
        horizontal_resolution = refl;
        pixels_per_scanline = refl;
      })
      (λ j lt. refl)

-- The second page is the top-level table.
abbrev own : Owner
own t = if t == 4096 then some [] else none

entry_empty : (t i : ℕ) → entry machine.memory t i ≡ 0
unfolding load_le
entry_empty t i = refl

IsTree-machine : IsTree boot 4096 own machine
IsTree-machine = record {
  root_owned = refl;
  child_owned =
      λ t i p o short b h. ground (arith, entry_empty t i, present_even (entry machine.memory t i));
  aligned = λ t p o. ground arith;
  in_use = λ t p o. (ground arith, ground arith);
}

abbrev status_of : Outcome (Machine boot) ℕ → ℕ
status_of (ok status s) = status
status_of fault = 1

abbrev state_of : Outcome (Machine boot) ℕ → Machine boot
state_of (ok status s) = s
state_of fault = machine

-- What holds of the outcome holds of its parts.
parts :
    {P : ℕ → Machine boot → Type 0} {r : Outcome (Machine boot) ℕ}
    → Ensures P r
    → P (status_of r) (state_of r)
parts (ensures p) = p

abbrev region : Outcome (Machine boot) ℕ
region = make_temp_region boot 0x40000000 4096 machine

region_made : status_of region ≡ efi_success
unfolding make_temp_region descend get_table or_flags require set_entry present table_of load_le
    store_le store8 clear_bytes
region_made = refl

mapped :
    IsMapped boot 4096 (λ pt. leaf_of pt false) 0x40000000 own machine efi_success (state_of region)
mapped =
    rw region_made at
      (parts (make_temp_region-IsMapped boot 4096 own machine IsTree-machine 0x40000000))

-- Memory through the tables.
abbrev seen : Option ℕ → Memory → ℕ → ℕ
seen none m va = 0
seen (some e) m va = m (table_of e + va % 4096)

abbrev kernel : Kernel
kernel = record {
  memory = λ va. seen (translate (state_of region).memory 4096 va) (state_of region).memory va;
  memory_map = 0;
  descriptor_size = 48;
  memory_map_size = 0;
  frame_map = 0x1000;
  frame_map_size = 0x1000;
  temp_mapping_region = 0x40000000;
  dynamic_memory = 0;
  flushes = 0;
}

kernel-Sees : Sees kernel (state_of region).memory 4096
kernel-Sees = record { seen = λ va e h. rw h }

kernel_idle : busy kernel 1 ≡ false
unfolding temp_entry load_le make_temp_region descend get_table or_flags require set_entry present
    table_of store_le store8 clear_bytes translate walk
kernel_idle = refl

temp_map-window_example :
    (k' : Kernel) × (pt : ℕ) × (translate (state_of region).memory 4096 0x40000000
      ≡ some (leaf_of pt false))
    × (temp_map 1 0x7000 kernel ≡ some (0x40000000 + 0x8000, k'))
    × ((a : ℕ)
        → translate (write_back pt k' (state_of region).memory) 4096 a ≡ (
            if page_of a == page_of (0x40000000 + 0x1000)
            then some (temp_leaf 0x7000)
            else translate (state_of region).memory 4096 a))
temp_map-window_example =
    temp_map-window boot 4096 0x40000000 own machine (state_of region) mapped (omega arith) kernel
      refl kernel-Sees kernel_idle 0 0x7000
