-- ===== src/Tests/BootX64.antt =====
-- The earlier loader, on a firmware whose map takes 96 bytes.
use fur_os.Prelude.{◌+◌, ◌*◌, ◌≤◌, ◌<◌, ◌≡◌, ◌⊎◌, refl, [], ◌∷◌, arith}
use fur_os.Command.Ensures.{Ensures}
use fur_os.BootX64.{Entry, kernel_address, boot_map, reserve_count, reserve_calls, reserve_test}
use fur_os.BootX64.Map.{IsMap, boot_map-IsMap}
use fur_os.BootX64.Reserve.{reserve_count_lem}
use fur_os.Tests.Firmware.{boot, pools, machine}

boot_map-IsMap_example : Ensures (IsMap boot pools) (boot_map boot pools machine)
boot_map-IsMap_example = boot_map-IsMap boot pools machine (omega arith) refl (omega arith)

-- It contains the address, with 16 pages behind it.
abbrev around : Entry
around = record { memory_type = 7; physical_start = 0xfffeffff0000; number_of_pages = 32 }

reserve_count_lem_example :
    let reserved = reserve_count 0x20123 around * 4096 in
    (reserved ≤ 0x20123)
    × ((0x20123 < reserved + 4096)
        ⊎ ((around.physical_start ≤ kernel_address)
            × (kernel_address + reserved ≡ around.physical_start + around.number_of_pages * 4096)))
    × ((kernel_address < around.physical_start)
        ⊎ (kernel_address + reserved ≤ around.physical_start + around.number_of_pages * 4096))
reserve_count_lem_example =
    reserve_count_lem 0x20123 around (omega arith) refl (omega arith) (omega arith)

-- A free entry of one page, far above the address, takes part in the scan.
abbrev far_above : Entry
far_above = record { memory_type = 7; physical_start = 0x1000000000000; number_of_pages = 1 }

abbrev lowest : Entry
lowest = record { memory_type = 7; physical_start = 0; number_of_pages = 1 }

two_calls : reserve_calls 0x20123 lowest (lowest ∷ around ∷ far_above ∷ []) ≡ 16 ∷ 32 ∷ []
unfolding reserve_calls reserve_test reserve_count
two_calls = refl
