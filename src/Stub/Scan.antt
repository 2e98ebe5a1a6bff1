-- ===== src/Stub/Scan.antt =====
-- The scan of the memory map ends, and reads every entry once.
use fur_os.Prelude.{
  ℕ, zero, suc, ◌+◌, ◌*◌, ◌%◌, ◌^◌, ◌≤◌, ◌<◌, ◌≡◌, inl, inr, true, false, ltb, if◌then◌else◌, none,
  some, List, [], ◌∷◌, get_elem?, arith, Bool-cases,
}
use fur_os.Memory.{Memory}
use fur_os.Boot.{MemoryMapDescriptor}
use fur_os.Loader.{Descriptor}
use fur_os.Stub.{entry_at, read_entries}

module _ (m : Memory) (d : MemoryMapDescriptor) where
  -- The entries are those from `i` on.
  abbrev AreFrom : ℕ → List Descriptor → Type 0
  AreFrom i entries =
      (k : ℕ)
      → get_elem? entries k ≡ (
          if ltb (i + k * d.descriptor_size) d.memory_map_size
          then some (entry_at m d (i + k * d.descriptor_size))
          else none)

  next_offset :
      (i k : ℕ) → i + d.descriptor_size + k * d.descriptor_size ≡ i + suc k * d.descriptor_size
  next_offset i k = grind arith

  AreFrom-∷ :
      (i : ℕ) (entries : List Descriptor)
      → ltb i d.memory_map_size ≡ true
      → AreFrom (i + d.descriptor_size) entries
      → AreFrom i (entry_at m d i ∷ entries)
  AreFrom-∷ i entries h rest zero = let e : i + 0 * d.descriptor_size ≡ i = omega arith in rw (e, h)
  AreFrom-∷ i entries h rest (suc k) = rw (← next_offset i k) (rest k)

  module _ (some_size : 0 < d.descriptor_size)
      (fits : d.memory_map_size + d.descriptor_size ≤ 2 ^ 64) where
    read_entries-AreFrom :
        (fuel i : ℕ)
        → 0 < fuel
        → d.memory_map_size < i + fuel
        → (entries : List Descriptor) × (read_entries fuel m d i ≡ some entries) × AreFrom i entries
    unfolding read_entries
    read_entries-AreFrom zero i positive h = absurd (omega arith)
    read_entries-AreFrom (suc fuel) i positive h = elim (Bool-cases (ltb i d.memory_map_size)) [
      | inl inside ↦
          let left : 0 < fuel = ground arith in
          let (entries, e, rest) =
            read_entries-AreFrom fuel (i + d.descriptor_size) left (omega arith) in
          let whole : (i + d.descriptor_size) % 2 ^ 64 ≡ i + d.descriptor_size = ground arith in
          (entry_at m d i ∷ entries, rw (inside, whole, e), AreFrom-∷ i entries inside rest)
      | inr past ↦ (
        [],
        rw past,
        λ k.
            let out : ltb (i + k * d.descriptor_size) d.memory_map_size ≡ false = ground arith in
            rw out,
      )
    ]

-- On a memory map whose entries have a size above 0, and where that size and the map's together are
-- at most 2 ^ 64, the scan ends within the rounds that it is given: it reads exactly the entries that
-- start within the map, in order, each one entry's size after the one before.
pub read_entries_lem :
    (m : Memory) (d : MemoryMapDescriptor)
    → 0 < d.descriptor_size
    → d.memory_map_size + d.descriptor_size ≤ 2 ^ 64
    → (entries : List Descriptor) × (read_entries (suc d.memory_map_size) m d 0 ≡ some entries)
      × ((k : ℕ)
          → get_elem? entries k ≡ (
              if ltb (0 + k * d.descriptor_size) d.memory_map_size
              then some (entry_at m d (0 + k * d.descriptor_size))
              else none))
read_entries_lem m d some_size fits =
    read_entries-AreFrom m d some_size fits (suc d.memory_map_size) 0 (omega arith) (omega arith)
