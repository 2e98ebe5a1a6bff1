-- ===== src/Tests/Pool.antt =====
-- The memory map of a firmware whose map takes 96 bytes.
use fur_os.Prelude.{ℕ, ◌+◌, ◌^◌, ◌≡◌, ◌≢◌, refl, ◌==◌, if◌then◌else◌, arith}
use fur_os.Memory.{load_le}
use fur_os.Efi.{Machine}
use fur_os.Pool.{get_memory_map, free_memory_map_descriptor}
use fur_os.Pool.Map.{Described, Returned, get_memory_map-Returned}
use fur_os.Pool.Calls.{Serves, free_memory_map_descriptor-Described}
use fur_os.Tests.Firmware.{boot, pools, machine}

get_memory_map-Returned_example : Returned boot pools machine (get_memory_map boot pools machine)
get_memory_map-Returned_example = get_memory_map-Returned boot pools machine

machine-Serves : Serves boot pools machine
machine-Serves = record {
  first = refl;
  some_map = omega arith;
  second = refl;
  growth = omega arith;
}

-- The descriptor, and the map's buffer after it.
abbrev d : ℕ
d = 2 ^ 52

abbrev buffer : ℕ
buffer = 2 ^ 52 + 64

abbrev described : Machine boot
described = record {
  memory = λ a.
      if a == d
      then 96
      else (if a == d + 8
          then 48
          else (if a == d + 16
              then 7
              else (if a == d + 24
                  then 1
                  else (if a == d + 32
                      then 64
                      else (if a == d + 38
                          then 16
                          else (if a == buffer + 58
                              then 16
                              else (if a == buffer + 73 then 1 else 0)))))));
  boot = record {
    next = 2;
    heap = 2 ^ 52 + 256;
    sizes = λ a. if a == d then 41 else (if a == buffer then 97 else 0);
  };
}

described-Described : Described boot pools described d 96
unfolding load_le
described-Described = record {
  buffer = buffer;
  buffer_field = refl;
  descriptor_live = (refl, omega arith, omega arith);
  buffer_live = (refl, omega arith, omega arith);
  apart = omega arith;
  in_space = omega arith;
  map_fits = omega arith;
  size_field = refl;
  entry_field = refl;
  key_field = refl;
  version_field = refl;
  map_bytes = λ i h. ground arith;
}

free_memory_map_descriptor-Described_example :
    let (status, s') = free_memory_map_descriptor boot pools d described in
    (status ≡ 0)
    × (s'.memory ≡ described.memory)
    × ((n : ℕ) → ¬ (pools.Live s'.boot d n))
    × ((n : ℕ) → ¬ (pools.Live s'.boot described-Described.buffer n))
    × ((a n : ℕ)
        → a ≢ d
        → a ≢ described-Described.buffer
        → pools.Live described.boot a n
        → pools.Live s'.boot a n)
free_memory_map_descriptor-Described_example =
    free_memory_map_descriptor-Described boot pools described d 96 described-Described (omega arith)
