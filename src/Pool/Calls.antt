-- ===== src/Pool/Calls.antt =====
-- When `GetMemoryMap` succeeds, and what `FreeMemoryMapDescriptor` does with its descriptor.
use fur_os.Prelude.{ℕ, ◌+◌, ◌*◌, ◌%◌, ◌^◌, ◌≤◌, ◌<◌, ◌≡◌, ◌≢◌, refl, ◌∙◌, arith}
use fur_os.Memory.{load_le, store_le}
use fur_os.Memory.Laws.{load_le-store_le, load_le-store_le-Apart}
use fur_os.Efi.{BootServices, Machine, efi_success}
use fur_os.Pool.{PoolServices, ask_map, make_buffer, get_memory_map, free_memory_map_descriptor}
use fur_os.Pool.Fields.{with_form, form_size, form_entry}
use fur_os.Pool.Map.{Described}

module _ (B : BootServices) (P : PoolServices B) where
  -- The pools on the way are allocated, the map is not empty, and making them adds no more than five
  -- entries to it.
  pub record Serves (s : Machine B) : Type 0 where
    pub first : (P.allocate_pool s.boot 40).status ≡ efi_success
    pub some_map : 0 < P.needed (P.allocate_pool s.boot 40).state
    pub second :
        let t = (P.allocate_pool s.boot 40).state in
        (P.allocate_pool t (P.needed t + 5 * (P.memory_map t 0).descriptor_size)).status
        ≡ efi_success
    pub growth :
        let t = (P.allocate_pool s.boot 40).state in
        let room = P.needed t + 5 * (P.memory_map t 0).descriptor_size in
        P.needed (P.allocate_pool t room).state ≤ room

  ask_map_filled :
      (d : ℕ) (s : Machine B)
      → P.needed s.boot ≤ load_le 8 s.memory d
      → (ask_map B P d s).0 ≡ efi_success
  unfolding ask_map
  ask_map_filled d s h = let (e, _) = P.map_filled s.boot (load_le 8 s.memory d) h in rw e

  -- Then there is a descriptor, and the firmware's state is the one after both pools.
  pub get_memory_map_served :
      (s : Machine B)
      → Serves s
      → let t = (P.allocate_pool s.boot 40).state in
        (0 < (get_memory_map B P s).0)
        × ((get_memory_map B P s).1.boot
            ≡ (P.allocate_pool t (P.needed t + 5 * (P.memory_map t 0).descriptor_size)).state)
  unfolding get_memory_map ask_map make_buffer
  get_memory_map_served s h =
      let r = P.allocate_pool s.boot 40 in
      let d = r.address in
      let t = r.state in
      let a = P.memory_map t 0 in
      let m = store_le 8 s.memory d 0 in
      let (positive, top) = P.pool_fits s.boot 40 h.first in
      let size0 : load_le 8 m d ≡ 0 = load_le-store_le 8 s.memory d 0 (omega arith) in
      let (small, key, entry, version) = P.map_fits t 0 in
      let (refused, n) = P.map_refused t 0 h.some_map in
      let w : a.map_size < 2 ^ 64 = omega arith in
      let f : a.descriptor_size < 2 ^ 64 = omega arith in
      let size1 = form_size d a m w f version ∙ n in
      let entry1 = form_entry d a m w f version in
      let room : (P.needed t + 5 * a.descriptor_size) % 2 ^ 64
          ≡ P.needed t + 5 * a.descriptor_size =
        omega (arith, n) in
      let first = h.first in
      let second = h.second in
      let wide = P.needed t + 5 * a.descriptor_size in
      let q = P.allocate_pool t wide in
      let size2 : load_le 8 (store_le 8 (store_le 8 (with_form d a m) d wide) (d + 32) q.address) d
          ≡ wide =
        load_le-store_le-Apart 8 8 _ d (d + 32) _ (omega arith)
        ∙ load_le-store_le 8 _ d wide (omega (arith, n)) in
      let (served, _) = P.map_filled q.state wide h.growth in
      rw (first, size0, refused, size1, entry1, room, second, size2, served) (positive, refl)

  -- `GetMemoryMap` does not return `NULL` if the firmware allocates both pools, its map is not empty, and
  -- the map grows by at most five entries meanwhile.
  pub get_memory_map-Serves : (s : Machine B) → Serves s → 0 < (get_memory_map B P s).0
  get_memory_map-Serves s h = (get_memory_map_served s h).0

  -- On a descriptor that describes the firmware's map, which is not empty, `FreeMemoryMapDescriptor` returns success: the
  -- descriptor and its buffer are freed, and exactly the other pools are allocated still.
  pub free_memory_map_descriptor-Described :
      (s : Machine B) (d room : ℕ) (h : Described B P s d room)
      → 0 < P.needed s.boot
      → let (status, s') = free_memory_map_descriptor B P d s in
        (status ≡ efi_success)
        × (s'.memory ≡ s.memory)
        × ((n : ℕ) → ¬ (P.Live s'.boot d n))
        × ((n : ℕ) → ¬ (P.Live s'.boot h.buffer n))
        × ((a n : ℕ) → a ≢ d → a ≢ h.buffer → P.Live s.boot a n → P.Live s'.boot a n)
  unfolding free_memory_map_descriptor
  free_memory_map_descriptor-Described s d room h some_map =
      let ne : d ≢ h.buffer = λ e. absurd (omega (arith, h.apart, h.map_fits, e)) in
      let b = h.buffer in
      let t = (P.free_pool s.boot b).state in
      let at = h.buffer_field in
      let live = P.free_other s.boot b room d 40 h.buffer_live ne h.descriptor_live in
      let first = P.free_status s.boot b room h.buffer_live in
      let second = P.free_status t d 40 live in
      rw (at, first, second)
        (
          refl,
          refl,
          λ n. P.free_gone t d 40 n live,
          λ n l. P.free_gone s.boot b room n h.buffer_live (P.free_stays t d 40 b n live l),
          λ a n nd nb l.
              P.free_other t d 40 a n live nd (P.free_other s.boot b room a n h.buffer_live nb l),
        )
