-- ===== src/BootX64/Map.antt =====
-- The memory map that the earlier loader reads.
use fur_os.Prelude.{ℕ, ◌+◌, ◌%◌, ◌^◌, ◌≤◌, ◌<◌, ◌≡◌, refl, Option, some, arith}
use fur_os.Command.Ensures.{Ensures, ensures}
use fur_os.Efi.{BootServices, Machine, efi_success}
use fur_os.Pool.{PoolServices}
use fur_os.Pool.Fields.{put_bytes-inside}
use fur_os.BootX64.{MapBuffer, boot_map}

module _ (B : BootServices) (P : PoolServices B) where
  -- The map stands whole in its buffer, which is allocated.
  pub record IsMap (result : Option MapBuffer) (s : Machine B) : Type 0 where
    pub buffer : MapBuffer
    pub room : ℕ
    pub comes_to : result ≡ some buffer
    pub live : P.Live s.boot buffer.memory_map room
    pub whole : buffer.memory_map_size ≡ P.needed s.boot
    pub fits : buffer.memory_map_size ≤ room
    pub entry_size : buffer.descriptor_size ≡ (P.memory_map s.boot room).descriptor_size
    pub bytes :
        (i : ℕ)
        → i < buffer.memory_map_size
        → s.memory (buffer.memory_map + i) ≡ (P.memory_map s.boot room).bytes i % 256

  -- If the firmware's map is not empty, the pool is allocated, and the map grows by at most 100 bytes
  -- meanwhile: the earlier loader has the whole map in an allocated buffer.
  pub boot_map-IsMap :
      (s : Machine B)
      → 0 < P.needed s.boot
      → (P.allocate_pool s.boot (P.needed s.boot + 100)).status ≡ efi_success
      → P.needed (P.allocate_pool s.boot (P.needed s.boot + 100)).state ≤ P.needed s.boot + 100
      → Ensures IsMap (boot_map B P s)
  unfolding boot_map
  boot_map-IsMap s some_map pool growth =
      let (refused, n) = P.map_refused s.boot 0 some_map in
      let (small, key, form, version) = P.map_fits s.boot 0 in
      let size = P.needed s.boot + 100 in
      let word : size % 2 ^ 64 ≡ size = omega (arith, n) in
      let r = P.allocate_pool s.boot size in
      let (filled, whole) = P.map_filled r.state size growth in
      rw (refused, n, word, pool, filled)
        (ensures (record {
          buffer = _;
          room = size;
          comes_to = refl;
          live = P.pool_live s.boot size pool;
          whole = whole;
          fits = rw whole growth;
          entry_size = refl;
          bytes = λ i lt. put_bytes-inside _ _ r.address i s.memory lt;
        }))
