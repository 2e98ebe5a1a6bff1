-- ===== src/Supply/Map.antt =====
-- With memory left, `GetMemoryMap` succeeds, and the scan of its map ends at `top` at most.
use fur_os.Prelude.{
  ℕ, suc, ◌+◌, ◌*◌, ◌%◌, ◌^◌, ◌≤◌, ◌<◌, ◌≡◌, refl, ltb, inl, inr, Option, none, some, List, [], ◌∷◌,
  get_elem?, arith, Bool-cases,
}
use fur_os.Efi.{BootServices, Machine}
use fur_os.Memory.{load_le}
use fur_os.Boot.{MemoryMapDescriptor}
use fur_os.Loader.{Descriptor, max_address}
use fur_os.Pool.{PoolServices, get_memory_map}
use fur_os.Pool.Calls.{get_memory_map_served}
use fur_os.Pool.Fields.{load_le-bytes}
use fur_os.Pool.Map.{Described}
use fur_os.Supply.{Supply}
use fur_os.Stub.{read_descriptor, entry_at, read_entries}
use fur_os.Stub.Scan.{read_entries_lem}

-- Where an entry ends.
abbrev pub end_of : Descriptor → ℕ
end_of e = (e.physical_start + e.number_of_pages * 0x1000) % 2 ^ 64

max_address-le :
    (entries : List Descriptor) (max top : ℕ)
    → max ≤ top
    → ((k : ℕ) (e : Descriptor) → get_elem? entries k ≡ some e → end_of e ≤ top)
    → max_address max entries ≤ top
unfolding max_address
max_address-le [] max top h ends = h
max_address-le (e ∷ entries) max top h ends =
    max_address-le entries _ top (ground (arith, h, ends 0 e refl)) (λ k x at. ends (suc k) x at)

module _ (B : BootServices) (P : PoolServices B) (U : Supply B P) where
  pub get_memory_map-Supply :
      (n : ℕ) (s : Machine B)
      → U.Left s.boot (2 + n)
      → (0 < (get_memory_map B P s).0) × U.Left (get_memory_map B P s).1.boot n
  get_memory_map-Supply n s left =
      let e : 2 + n ≡ 1 + (1 + n) = omega arith in
      let (first, left1) = U.descriptor_pool s.boot (1 + n) (rw e at left) in
      let t = (P.allocate_pool s.boot 40).state in
      let (second, left2, growth) = U.map_pool t n left1 in
      let (positive, boot) =
        get_memory_map_served B P s
          (record { first = first; some_map = U.map_some t; second = second; growth = growth }) in
      (positive, rw boot left2)

  module _ (s : Machine B) (d room : ℕ) (h : Described B P s d room) (x : MemoryMapDescriptor)
      (size : x.memory_map_size ≡ P.needed s.boot)
      (step : x.descriptor_size ≡ (P.memory_map s.boot room).descriptor_size)
      (base : x.memory_map ≡ h.buffer) where
    -- The entry at an offset within the map.
    entry_end :
        (k : ℕ)
        → k * (P.memory_map s.boot room).descriptor_size < P.needed s.boot
        → end_of (entry_at s.memory x (k * (P.memory_map s.boot room).descriptor_size)) ≤ U.top
    entry_end k lt =
        let bytes = (P.memory_map s.boot room).bytes in
        let i = k * (P.memory_map s.boot room).descriptor_size in
        let (whole, ends) = U.map_ends s.boot room k h.map_fits lt in
        let at : (x.memory_map + i) % 2 ^ 64 ≡ h.buffer + i =
          omega (arith, h.in_space, h.map_fits, base) in
        let read : (o : ℕ)
            → o + 8 ≤ 32
            → load_le 8 s.memory (h.buffer + i + o) ≡ load_le 8 bytes (i + o) =
          λ o b.
            let e : h.buffer + i + o ≡ h.buffer + (i + o) = omega arith in
            rw e (
              load_le-bytes 8 (P.needed s.boot) s.memory bytes h.buffer (i + o) h.map_bytes
                (omega arith)) in
        rw (at, read 8 (omega arith), read 24 (omega arith)) ends

    same_entry : (y z : Descriptor) (o : Option Descriptor) → o ≡ some y → o ≡ some z → z ≡ y
    same_entry y z o a b = cc

    not_entry : (z : Descriptor) (o : Option Descriptor) → o ≡ none → o ≡ some z → ⊥
    not_entry z o a b = cc

    scan_ends :
        (entries : List Descriptor) × (read_entries (suc x.memory_map_size) s.memory x 0
          ≡ some entries)
        × (max_address 0 entries ≤ U.top)
    scan_ends =
        let ds = (P.memory_map s.boot room).descriptor_size in
        let positive = U.map_entries s.boot room h.map_fits in
        let (small, key, form, version) = P.map_fits s.boot room in
        let (_, same) = P.map_filled s.boot room h.map_fits in
        let some_size : 0 < x.descriptor_size = omega (arith, step, positive) in
        let in_words : x.memory_map_size + x.descriptor_size ≤ 2 ^ 64 =
          omega (arith, size, step, small, same, form) in
        let (entries, e, are) = read_entries_lem s.memory x some_size in_words in
        (
          entries,
          e,
          max_address-le entries 0 U.top (omega arith) (λ k z at.
              elim (Bool-cases (ltb (0 + k * x.descriptor_size) x.memory_map_size)) [
                | inl inside ↦
                    let i : 0 + k * x.descriptor_size ≡ k * ds = rw step (omega arith) in
                    let lt : k * ds < P.needed s.boot = ground (arith, inside, i, size) in
                    let here : get_elem? entries k ≡ some (entry_at s.memory x (k * ds)) =
                      rw (inside, i) at (are k) in
                    rw (same_entry _ z _ here at) (entry_end k lt)
                | inr out ↦
                    let gone : get_elem? entries k ≡ none = rw out at (are k) in
                    absurd (not_entry z _ gone at)
              ]),
        )

  -- The scan of the map that `GetMemoryMap` described ends, at `top` at most.
  pub scan-Supply :
      (s : Machine B) (d room : ℕ)
      → Described B P s d room
      → let x = read_descriptor s.memory d in
        (entries : List Descriptor) × (read_entries (suc x.memory_map_size) s.memory x 0
          ≡ some entries)
        × (max_address 0 entries ≤ U.top)
  unfolding read_descriptor
  scan-Supply s d room h =
      scan_ends s d room h (read_descriptor s.memory d) h.size_field h.entry_field h.buffer_field
