-- ===== src/Tests/Kernel.antt =====
-- Physical memory of a kernel whose frame map stands at 0x1000 and whose region of temporary
-- mappings stands at 2 MiB.
use fur_os.Prelude.{
  ℕ, ◌+◌, ◌*◌, ◌/◌, ◌%◌, ◌≡◌, refl, inl, true, false, ◌||◌, ◌==◌, if◌then◌else◌, none, some, List,
  [], ◌∷◌, arith,
}
use fur_os.Prelude.Int.{pos, negsuc}
use fur_os.Memory.{Memory, load_le}
use fur_os.Physical.{Kernel, memcpy, alloc_frame, free_frame, temp_entry, temp_map, free_temp_map}
use fur_os.Physical.Frames.{taken, alloc_frame-taken, free_frame_address}
use fur_os.Physical.Copy.{memcpy_lem}
use fur_os.Physical.Sequence.{
  FrameCall, alloc, free, run_calls, run_set, run_calls-run_set, alloc_frame-exclusive,
}
use fur_os.Physical.Temp.{busy, temp_leaf, temp_map-busy, temp_map_again}

-- Frame 9 is taken.
abbrev initial : Kernel
initial = record {
  memory = λ a. if a == 0x1001 then 2 else 0;
  memory_map = 0;
  descriptor_size = 48;
  memory_map_size = 0;
  frame_map = 0x1000;
  frame_map_size = 0x1000;
  temp_mapping_region = 0x200000;
  dynamic_memory = 0;
  flushes = 0;
}

-- The first slot is in use.
abbrev full : Kernel
full = record initial { memory = λ a. if a == 0x200008 then 3 else 0 }

alloc_frame-taken_example :
    ((alloc_frame 0x5000 initial).0 ≡ (if taken initial (0x5000 / 4096) then negsuc 0 else pos 0))
    × ((g : ℕ) → taken (alloc_frame 0x5000 initial).1 g ≡ ((g == 0x5000 / 4096) || taken initial g))
alloc_frame-taken_example = alloc_frame-taken 0x5000 initial

free_frame_address_example :
    taken (free_frame 0x5000 (alloc_frame 0x5000 initial).1).1 (0x5000 / 4096) ≡ true
free_frame_address_example = free_frame_address 0x5000 initial (omega arith) refl

slot_kernel : busy initial 1 ≡ false
unfolding temp_entry load_le
slot_kernel = refl

slot_full : busy full 1 ≡ true
unfolding temp_entry load_le
slot_full = refl

temp_map-busy_example : temp_map 1000 0x7000 full ≡ none
temp_map-busy_example = temp_map-busy 1000 0x7000 full slot_full

temp_map_again_example :
    (k1 : Kernel) × (k2 : Kernel) × (temp_map 1 0x7000 initial ≡ some (0x200000 + 0x8000, k1))
    × (temp_map 1 0x9000 (free_temp_map (0x200000 + 0x8000) k1).1 ≡ some (0x200000 + 0x8000, k2))
    × (temp_entry k2 1 ≡ temp_leaf 0x9000)
temp_map_again_example = temp_map_again 0 0x7000 0x9000 initial refl slot_kernel

abbrev bytes : Memory
bytes a = a * 7 % 256

memcpy_lem_example : memcpy 100 200 50 bytes 120 ≡ bytes 220 % 256
memcpy_lem_example = memcpy_lem 100 200 50 bytes (inl (omega arith)) 120

abbrev calls : List FrameCall
calls = alloc 0x5000 ∷ alloc 0x5fff ∷ free 9 ∷ free 9 ∷ []

run_calls-run_set_example :
    ((run_calls calls initial).0 ≡ (run_set calls (taken initial)).0)
    × (taken (run_calls calls initial).1 ≡ (run_set calls (taken initial)).1)
run_calls-run_set_example = run_calls-run_set calls initial

alloc_frame-exclusive_example :
    (alloc_frame 0x7010 (run_calls calls (alloc_frame 0x7000 initial).1).1).0 ≡ negsuc 0
alloc_frame-exclusive_example =
    alloc_frame-exclusive 0x7000 0x7010 calls initial (omega arith) (omega arith, (omega arith, tt))
