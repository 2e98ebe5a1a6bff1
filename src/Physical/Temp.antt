-- ===== src/Physical/Temp.antt =====
-- The temporary mappings: one slot is ever used.
use fur_os.Prelude.{
  ℕ, zero, suc, ◌+◌, ◌-◌, ◌*◌, ◌/◌, ◌%◌, ◌^◌, ◌<◌, bit_and, bit_or, ◌≡◌, ◌≢◌, refl, ◌∙◌, Bool, true,
  false, not, ◌==◌, if◌then◌else◌, none, some, arith, bit_and_low, bit_and_high, bit_or_three, inl,
  inr, Bool-cases,
}
use fur_os.Prelude.Int.{pos}
use fur_os.Memory.{store_le}
use fur_os.Memory.Laws.{load_le-store_le, load_le-store_le-Apart, load_le-lt}
use fur_os.Physical.{
  Kernel, temp_entry, temp_loop, temp_place, temp_map, free_temp_map, refresh_pages,
}

-- Slot `i` is in use.
abbrev pub busy : Kernel → ℕ → Bool
busy k i = temp_entry k i % 2 == 1

slot_test : (k : Kernel) (i : ℕ) → not (bit_and (temp_entry k i) 1 == 0) ≡ busy k i
slot_test k i = rw (bit_and_low 1 (temp_entry k i)) (ground arith)

temp_loop-busy : (fuel : ℕ) (k : Kernel) → busy k 1 ≡ true → temp_loop fuel k 1 ≡ none
unfolding temp_loop
temp_loop-busy zero k h = refl
temp_loop-busy (suc fuel) k h = rw (slot_test k 1, h) (temp_loop-busy fuel k h)

temp_loop-free :
    (fuel : ℕ) (k : Kernel) → busy k 1 ≡ false → temp_loop (suc fuel) k 1 ≡ some (some 1)
unfolding temp_loop
temp_loop-free fuel k h = rw (slot_test k 1, h)

-- While slot 1 is in use `TempMap` does not return, whatever the fuel.
pub temp_map-busy :
    (fuel physical_address : ℕ) (k : Kernel)
    → busy k 1 ≡ true
    → temp_map fuel physical_address k ≡ none
unfolding temp_map
temp_map-busy fuel p k h = rw (temp_loop-busy fuel k h, temp_map)

-- The entry that `TempMap` writes.
abbrev pub temp_leaf : ℕ → ℕ
temp_leaf p = p / 4096 % 2 ^ 40 * 4096 + 3

temp_flags : (p : ℕ) → bit_or (bit_and p 0x000FFFFFFFFFF000) 3 ≡ temp_leaf p
temp_flags p = omega (
  arith,
  bit_and_high 12 p (2 ^ 40 - 1),
  bit_and_low 40 (p / 4096),
  bit_or_three (bit_and p 0x000FFFFFFFFFF000),
)

-- The state after a write to slot `i`.
abbrev pub put_entry : Kernel → ℕ → ℕ → Kernel
put_entry k i v = record k { memory = store_le 8 k.memory (k.temp_mapping_region + 8 * i) v }

put_entry_self : (k : Kernel) (i v : ℕ) → v < 2 ^ 64 → temp_entry (put_entry k i v) i ≡ v
unfolding temp_entry
put_entry_self k i v h = load_le-store_le 8 k.memory (k.temp_mapping_region + 8 * i) v h

put_entry_ne : (k : Kernel) (i j v : ℕ) → j ≢ i → temp_entry (put_entry k i v) j ≡ temp_entry k j
unfolding temp_entry
put_entry_ne k i j v ne =
    load_le-store_le-Apart 8 8 k.memory (k.temp_mapping_region + 8 * j)
      (k.temp_mapping_region + 8 * i) v (ground arith)

put_entry_lem :
    (k : Kernel) (i j v : ℕ)
    → v < 2 ^ 64
    → temp_entry (put_entry k i v) j ≡ (if j == i then v else temp_entry k j)
put_entry_lem k i j v h = elim (Bool-cases (j == i)) [
  | inl same ↦ let e : j ≡ i = ground arith in rw (same, e) (put_entry_self k i v h)
  | inr other ↦ rw other (put_entry_ne k i j v (ground arith))
]

flushed : (k : Kernel) (n i : ℕ) → temp_entry (record k { flushes = n }) i ≡ temp_entry k i
unfolding temp_entry
flushed k n i = refl

pub temp_map-put :
    (fuel p : ℕ) (k : Kernel)
    → busy k 1 ≡ false
    → temp_map (suc fuel) p k ≡ some (k.temp_mapping_region + 0x8000, put_entry k 1 (temp_leaf p))
unfolding temp_map temp_place
temp_map-put fuel p k h = rw (temp_loop-free fuel k h, temp_map) (rw temp_flags)

entry_fits : (k : Kernel) → temp_entry k 1 < 2 ^ 64
unfolding temp_entry
entry_fits k = load_le-lt 8 k.memory (k.temp_mapping_region + 8 * 1)

-- With slot 1 free `TempMap` returns with any fuel above 0: the slot holds the frame's address, present and
-- writable, the other slots are as before, and the address is the one `0x8000` bytes on.
pub temp_map-free :
    (fuel p : ℕ) (k : Kernel)
    → busy k 1 ≡ false
    → (k' : Kernel) × (temp_map (suc fuel) p k ≡ some (k.temp_mapping_region + 0x8000, k'))
      × ((i : ℕ) → temp_entry k' i ≡ (if i == 1 then temp_leaf p else temp_entry k i))
      × (k'.temp_mapping_region ≡ k.temp_mapping_region)
temp_map-free fuel p k h = (
  put_entry k 1 (temp_leaf p),
  temp_map-put fuel p k h,
  λ i. put_entry_lem k 1 i (temp_leaf p) (omega arith),
  refl,
)

clear_present : (e : ℕ) → e < 2 ^ 64 → bit_and e (2 ^ 64 - 2) ≡ e / 2 * 2
clear_present e h = omega (arith, bit_and_high 1 e (2 ^ 63 - 1), bit_and_low 63 (e / 2))

slot_of_address : (r : ℕ) → r % 2 ^ 21 ≡ 0 → bit_and ((r + 0x8000) / 2 ^ 12) 0x1ff / 8 ≡ 1
slot_of_address r h = omega (arith, bit_and_low 9 ((r + 0x8000) / 2 ^ 12))

-- `FreeTempMap` on the address that `TempMap` returned, with the region at a multiple of 2 MiB,
-- returns 0, clears the present bit of slot 1 only, leaves the other slots, and reloads CR3 once.
pub free_temp_map_lem :
    (k : Kernel)
    → k.temp_mapping_region % 2 ^ 21 ≡ 0
    → let (r, k') = free_temp_map (k.temp_mapping_region + 0x8000) k in
      (r ≡ pos 0)
      × ((i : ℕ) → temp_entry k' i ≡ (if i == 1 then temp_entry k 1 / 2 * 2 else temp_entry k i))
      × (k'.flushes ≡ k.flushes + 1)
unfolding free_temp_map refresh_pages
free_temp_map_lem k h =
    let fits = entry_fits k in
    rw (slot_of_address k.temp_mapping_region h, clear_present (temp_entry k 1) fits)
      (
        refl,
        λ i.
            flushed (put_entry k 1 (temp_entry k 1 / 2 * 2)) (k.flushes + 1) i
            ∙ put_entry_lem k 1 i (temp_entry k 1 / 2 * 2) (omega arith),
        refl,
      )

-- With the region at a multiple of 2 MiB and slot 1 free, a page mapped, freed and another mapped: the second `TempMap` succeeds too, at the same address,
-- and the slot then holds the second frame.
pub temp_map_again :
    (fuel p q : ℕ) (k : Kernel)
    → k.temp_mapping_region % 2 ^ 21 ≡ 0
    → busy k 1 ≡ false
    → (k1 : Kernel) × (k2 : Kernel) × (temp_map (suc fuel) p k
        ≡ some (k.temp_mapping_region + 0x8000, k1))
      × (temp_map (suc fuel) q (free_temp_map (k.temp_mapping_region + 0x8000) k1).1
          ≡ some (k.temp_mapping_region + 0x8000, k2))
      × (temp_entry k2 1 ≡ temp_leaf q)
unfolding free_temp_map refresh_pages
temp_map_again fuel p q k aligned free =
    let k1 = put_entry k 1 (temp_leaf p) in
    let freed = (free_temp_map (k.temp_mapping_region + 0x8000) k1).1 in
    let cleared : temp_entry freed 1 ≡ temp_entry k1 1 / 2 * 2 =
      (free_temp_map_lem k1 aligned).1 1 in
    let idle : busy freed 1 ≡ false = ground (arith, cleared) in
    (
      k1,
      put_entry freed 1 (temp_leaf q),
      temp_map-put fuel p k free,
      temp_map-put fuel q freed idle,
      put_entry_self freed 1 (temp_leaf q) (omega arith),
    )
