-- ===== src/Pool.antt =====
-- `GetMemoryMap` and `FreeMemoryMapDescriptor` of efi/src/EFI_STUB.c. The firmware's pool and its
-- memory map are parameters; `Print` writes to the console only and is left out.
pub mod Fields
pub mod Pages
pub mod Map
pub mod Calls
use fur_os.Prelude.{
  ℕ, ◌+◌, ◌-◌, ◌*◌, ◌%◌, ◌^◌, ◌≤◌, ◌<◌, ◌≡◌, ◌≢◌, Bool, not, ◌&&◌, ◌||◌, ltb, leb, ◌==◌,
  if◌then◌else◌,
}
use fur_os.Memory.{Memory, load_le, store_le}
use fur_os.Memory.Laws.{Apart}
use fur_os.Efi.{BootServices, Machine, Allocation, efi_success}

-- `EFIERR(5)`
abbrev pub efi_buffer_too_small : ℕ
efi_buffer_too_small = 2 ^ 63 + 5

pub record Freed (S : Type 0) : Type 0 where
  pub status : ℕ
  pub state : S

-- What a call of the firmware's `GetMemoryMap` answers. `bytes` is the map.
pub record MapAnswer : Type 0 where
  pub status : ℕ
  pub map_size : ℕ
  pub map_key : ℕ
  pub descriptor_size : ℕ
  pub descriptor_version : ℕ
  pub bytes : ℕ → ℕ

-- `AllocatePool(EfiLoaderData, size, &address)`, `FreePool(address)`, and `GetMemoryMap` on a buffer of
-- `size` bytes, which reads the firmware's state only. `Live s a n` says that the pool of `n` bytes at
-- `a` is allocated. The laws are what the UEFI specification promises: a pool lies within the address
-- space, apart from those that are allocated and from the pages in use, as do new pages; one that is allocated can be
-- freed; a buffer that is too small is refused with the size that is needed, and one that is large
-- enough is filled with the map of that size.
pub record PoolServices (B : BootServices) : Type 1 where
  pub allocate_pool : B.State → ℕ → Allocation B.State
  pub free_pool : B.State → ℕ → Freed B.State
  pub memory_map : B.State → ℕ → MapAnswer
  pub Live : B.State → ℕ → ℕ → Type 0
  pub needed : B.State → ℕ
  pub pool_live :
      (s : B.State) (n : ℕ)
      → (allocate_pool s n).status ≡ 0
      → Live (allocate_pool s n).state (allocate_pool s n).address n
  pub pool_kept : (s : B.State) (n a k : ℕ) → Live s a k → Live (allocate_pool s n).state a k
  pub pool_apart :
      (s : B.State) (n a k : ℕ)
      → (allocate_pool s n).status ≡ 0
      → Live s a k
      → Apart n (allocate_pool s n).address k a
  pub pool_fits :
      (s : B.State) (n : ℕ)
      → (allocate_pool s n).status ≡ 0
      → (0 < (allocate_pool s n).address) × ((allocate_pool s n).address < 2 ^ 64)
  pub pool_ends :
      (s : B.State) (n : ℕ)
      → (allocate_pool s n).status ≡ 0
      → (allocate_pool s n).address + n ≤ 2 ^ 64
  pub pool_no_page :
      (s : B.State) (n a : ℕ)
      → (allocate_pool s n).status ≡ 0
      → B.InUse s a
      → Apart n (allocate_pool s n).address 4096 a
  pub page_no_pool :
      (s : B.State) (n k a m : ℕ)
      → (B.allocate_pages s n).status ≡ 0
      → k < n
      → Live s a m
      → Apart m a 4096 ((B.allocate_pages s n).address + 4096 * k)
  pub pool_page_kept : (s : B.State) (n a : ℕ) → B.InUse s a → B.InUse (allocate_pool s n).state a
  pub free_status : (s : B.State) (a n : ℕ) → Live s a n → (free_pool s a).status ≡ 0
  pub free_gone : (s : B.State) (a n k : ℕ) → Live s a n → ¬ (Live (free_pool s a).state a k)
  pub free_other :
      (s : B.State) (a n b k : ℕ) → Live s a n → b ≢ a → Live s b k → Live (free_pool s a).state b k
  pub free_stays :
      (s : B.State) (a n b k : ℕ) → Live s a n → Live (free_pool s a).state b k → Live s b k
  pub map_refused :
      (s : B.State) (size : ℕ)
      → size < needed s
      → ((memory_map s size).status ≡ efi_buffer_too_small)
        × ((memory_map s size).map_size ≡ needed s)
  pub map_filled :
      (s : B.State) (size : ℕ)
      → needed s ≤ size
      → ((memory_map s size).status ≡ 0) × ((memory_map s size).map_size ≡ needed s)
  pub map_fits :
      (s : B.State) (size : ℕ)
      → ((memory_map s size).map_size < 2 ^ 63)
        × ((memory_map s size).map_key < 2 ^ 64)
        × ((memory_map s size).descriptor_size < 2 ^ 32)
        × ((memory_map s size).descriptor_version < 2 ^ 32)

-- `bytes[0..n)` at the address `a`.
unfoldable pub put_bytes : ℕ → (ℕ → ℕ) → ℕ → Memory → Memory
put_bytes n bytes a m b = if leb a b && ltb b (a + n) then bytes (b - a) % 256 else m b

-- The offsets in a `MEMORY_MAP_DESCRIPTOR`, and its size.
abbrev pub descriptor_size_at : ℕ
descriptor_size_at = 8

abbrev pub map_key_at : ℕ
map_key_at = 16

abbrev pub version_at : ℕ
version_at = 24

abbrev pub memory_map_at : ℕ
memory_map_at = 32

abbrev pub descriptor_bytes : ℕ
descriptor_bytes = 40

module _ (B : BootServices) (P : PoolServices B) where
  -- The call of the firmware with the addresses of four fields of the descriptor at `d`, and the buffer
  -- that its last field names: the size and the form of the entries are stored unless the call fails
  -- for another reason than the buffer's size, the key and the map on success only.
  unfoldable pub ask_map : ℕ → Machine B → ℕ × Machine B
  ask_map d s =
      let a = P.memory_map s.boot (load_le 8 s.memory d) in
      let buffer = load_le 8 s.memory (d + memory_map_at) in
      let m1 = store_le 8 s.memory d a.map_size in
      let m2 = store_le 8 m1 (d + descriptor_size_at) a.descriptor_size in
      let m3 = store_le 4 m2 (d + version_at) a.descriptor_version in
      let m4 = store_le 8 (put_bytes a.map_size a.bytes buffer m3) (d + map_key_at) a.map_key in
      if a.status == efi_success
      then (a.status, record s { memory = m4 })
      else (if a.status == efi_buffer_too_small
          then (a.status, record s { memory = m3 })
          else (a.status, s))

  -- The size with room for five entries more, and the buffer of that size.
  unfoldable pub make_buffer : ℕ → Machine B → ℕ × Machine B
  make_buffer d s =
      let size =
        (load_le 8 s.memory d + 5 * load_le 8 s.memory (d + descriptor_size_at)) % 2 ^ 64 in
      let m = store_le 8 s.memory d size in
      let r = P.allocate_pool s.boot size in
      if r.status == efi_success
      then (
        r.status,
        record { memory = store_le 8 m (d + memory_map_at) r.address; boot = r.state },
      )
      else (r.status, record { memory = m; boot = r.state })

  -- The address of the descriptor, or 0, which is `NULL`.
  unfoldable pub get_memory_map : Machine B → ℕ × Machine B
  get_memory_map s =
      let r = P.allocate_pool s.boot descriptor_bytes in
      if not (r.status == efi_success)
      then (0, record s { boot = r.state })
      else (let d = r.address in
          let s1 : Machine B = record { memory = store_le 8 s.memory d 0; boot = r.state } in
          let (status, s2) = ask_map d s1 in
          if not (status == efi_buffer_too_small)
          then (0, s2)
          else (let (status, s3) = make_buffer d s2 in
              if not (status == efi_success)
              then (0, s3)
              else (let (status, s4) = ask_map d s3 in
                  if not (status == efi_success) then (0, s4) else (d, s4))))

  unfoldable pub free_memory_map_descriptor : ℕ → Machine B → ℕ × Machine B
  free_memory_map_descriptor d s =
      let r = P.free_pool s.boot (load_le 8 s.memory (d + memory_map_at)) in
      let s1 = record s { boot = r.state } in
      if not (r.status == efi_success)
      then (r.status, s1)
      else (let q = P.free_pool s1.boot d in
          let s2 = record s1 { boot = q.state } in
          if not (q.status == efi_success) then (q.status, s2) else (efi_success, s2))
