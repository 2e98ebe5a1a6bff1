-- ===== src/Physical.antt =====
-- src/MemoryManagment/physical.c: the frame map, the temporary mappings and `memcpy`. The file's
-- static variables and the memory that they point into are one record; a pointer is an address.
pub mod Frames
pub mod Sequence
pub mod Temp
pub mod Copy
use fur_os.Prelude.{
  ℕ, zero, suc, ◌+◌, ◌-◌, ◌*◌, ◌/◌, ◌%◌, ◌^◌, bit_and, bit_or, Bool, not, ltb, ◌==◌, if◌then◌else◌,
  Option, none, some,
}
use fur_os.Prelude.Int.{ℤ, pos, negsuc}
use fur_os.Memory.{Memory, store8, load_le, store_le}

-- `flushes` counts the reloads of CR3 by `RefreshPages`.
pub record Kernel : Type 0 where
  pub memory : Memory
  pub memory_map : ℕ
  pub descriptor_size : ℕ
  pub memory_map_size : ℕ
  pub frame_map : ℕ
  pub frame_map_size : ℕ
  pub temp_mapping_region : ℕ
  pub dynamic_memory : ℕ
  pub flushes : ℕ

-- `for (i = from; i < from + n; i++) dest[i] = src[i];`
unfoldable pub memcpy_loop : ℕ → ℕ → ℕ → ℕ → Memory → Memory
memcpy_loop dest src zero i m = m
memcpy_loop dest src (suc left) i m =
    memcpy_loop dest src left (i + 1) (store8 m (dest + i) (m (src + i) % 256))

unfoldable pub memcpy : ℕ → ℕ → ℕ → Memory → Memory
memcpy dest src n m = memcpy_loop dest src n 0 m

-- `(frame_map[offset] >> bit) & 1`
unfoldable pub frame_bit : Kernel → ℕ → ℕ → ℕ
frame_bit k offset bit = bit_and (k.memory (k.frame_map + offset) % 256 / 2 ^ bit) 1

-- The return value is the C function's: 0, or -1.
unfoldable pub alloc_frame : ℕ → Kernel → ℤ × Kernel
alloc_frame frame_pointer k =
    let frame = frame_pointer / 0x1000 in
    let offset = frame / 8 in
    let bit_in_byte = frame % 8 in
    if not (frame_bit k offset bit_in_byte == 0) then (negsuc 0, k) else (
      pos 0,
      record k {
        memory =
            store8 k.memory (k.frame_map + offset)
              (bit_or (k.memory (k.frame_map + offset) % 256) (2 ^ bit_in_byte));
      },
    )

-- `~(uint8_t)(1 << bit)`, of which the assignment to a byte keeps eight bits.
unfoldable pub free_frame : ℕ → Kernel → ℤ × Kernel
free_frame frame_pointer k =
    let offset = frame_pointer / 8 in
    let bit_in_byte = frame_pointer % 8 in
    if not (frame_bit k offset bit_in_byte == 1) then (negsuc 0, k) else (
      pos 0,
      record k {
        memory =
            store8 k.memory (k.frame_map + offset)
              (bit_and (k.memory (k.frame_map + offset) % 256) (255 - 2 ^ bit_in_byte));
      },
    )

unfoldable pub refresh_pages : Kernel → Kernel
refresh_pages k = record k { flushes = k.flushes + 1 }

abbrev pub pte_addr_mask : ℕ
pte_addr_mask = 0x000FFFFFFFFFF000

-- `temp_mapping_region[i]`
unfoldable pub temp_entry : Kernel → ℕ → ℕ
temp_entry k i = load_le 8 k.memory (k.temp_mapping_region + 8 * i)

-- The loop of `TempMap`, on fuel: the slot at its end, where `some none` is the return of `NULL`,
-- and `none` is that it still runs.
unfoldable pub temp_loop : ℕ → Kernel → ℕ → Option (Option ℕ)
temp_loop zero k i = none
temp_loop (suc fuel) k i =
    let rest = temp_loop fuel k i in
    if not (bit_and (temp_entry k i) 1 == 0)
    then (if ltb 511 i then some none else rest)
    else some (some i)

-- After the loop: the slot is written, and its address returned. `temp_mapping_region` points to
-- 64-bit entries, so `+ i * 0x1000` adds eight times that many bytes.
unfoldable pub temp_place : ℕ → ℕ → Kernel → ℕ × Kernel
temp_place physical_address i k = if ltb 511 i then (0, k) else (
  k.temp_mapping_region + 8 * (i * 0x1000),
  record k {
    memory =
        store_le 8 k.memory (k.temp_mapping_region + 8 * i)
          (bit_or (bit_and physical_address pte_addr_mask) 3);
  },
)

-- The address returned (0 is `NULL`) and the state; `none` is that the loop has not ended.
unfoldable pub temp_map : ℕ → ℕ → Kernel → Option (ℕ × Kernel)
temp_map fuel physical_address k = elim (temp_loop fuel k 1) [
  | none ↦ none
  | some none ↦ some (0, k)
  | some (some i) ↦ some (temp_place physical_address i k)
]

-- `&= ~(uint64_t)0x1` on the slot that the address is taken to stand for.
unfoldable pub free_temp_map : ℕ → Kernel → ℤ × Kernel
free_temp_map virtual_address k =
    let slot = bit_and (virtual_address / 2 ^ 12) 0x1ff / 8 in
    (
      pos 0,
      refresh_pages (record k {
        memory =
            store_le 8 k.memory (k.temp_mapping_region + 8 * slot)
              (bit_and (temp_entry k slot) (2 ^ 64 - 2));
      }),
    )

unfoldable pub init_memory_managment : ℕ → ℕ → ℕ → ℕ → ℕ → ℕ → Kernel → ℤ × Kernel
init_memory_managment in_memory_map in_descriptor_size in_memory_map_size in_frame_map
      in_frame_map_size in_temp_mapping_region k =
    (
      pos 0,
      record k {
        memory_map = in_memory_map;
        memory_map_size = in_memory_map_size;
        descriptor_size = in_descriptor_size;
        frame_map = in_frame_map;
        frame_map_size = in_frame_map_size;
        temp_mapping_region = in_temp_mapping_region;
        dynamic_memory = in_temp_mapping_region + 8 * (0x1000 * 512);
      },
    )
