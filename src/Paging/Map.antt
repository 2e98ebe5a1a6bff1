-- ===== src/Paging/Map.antt =====
-- `MMap` and `MakeTempRegion` as updates of the map from pages to entries.
use fur_os.Prelude.{
  ℕ, suc, ◌+◌, ◌-◌, ◌*◌, ◌/◌, ◌%◌, ◌^◌, ◌<◌, bit_and, bit_or, ◌≡◌, sym, Bool, true, false, Option,
  none, some, arith, if◌then◌else◌, bit_and_low, bit_and_high, bit_or_three, bit_or_sixteen,
  bit_or-zero,
}
use mathlib.Core.Path.{fun_ext, subst}
use fur_os.Command.Ensures.{Ensures}
use fur_os.Efi.{BootServices, Machine}
use fur_os.Paging.{mmap, make_temp_region}
use fur_os.Paging.Tree.{Owner, IsTree}
use fur_os.Paging.Place.{IsMapped, place, place-IsMapped}

-- The entry that `MMap` writes: the page's address, present and writable, and bit 4 if `Cached`.
abbrev pub leaf_of : ℕ → Bool → ℕ
leaf_of phys cached = phys / 4096 % 2 ^ 52 * 4096 + 3 + (if cached then 16 else 0)

page_mask : (phys : ℕ) → bit_and phys (2 ^ 64 - 0x1000) ≡ phys / 4096 % 2 ^ 52 * 4096
page_mask phys = omega (arith, bit_and_high 12 phys (2 ^ 52 - 1), bit_and_low 52 (phys / 4096))

leaf_flags :
    (phys : ℕ) (cached : Bool)
    → bit_or (bit_or (bit_and phys (2 ^ 64 - 0x1000)) 3) (if cached then 16 else 0)
      ≡ leaf_of phys cached
leaf_flags phys true =
    let x = phys / 4096 % 2 ^ 52 * 4096 in
    rw (page_mask, bit_or_three x, bit_or_sixteen (x / 4 * 4 + 3) (omega arith)) (omega arith)
leaf_flags phys false =
    let x = phys / 4096 % 2 ^ 52 * 4096 in
    rw (page_mask, bit_or-zero) (omega (arith, bit_or_three x))

index_mask : (x : ℕ) → bit_and x 0x1ff ≡ x % 512
index_mask x = bit_and_low 9 x

leaf_odd : (phys : ℕ) (cached : Bool) → leaf_of phys cached % 2 ≡ 1
leaf_odd phys cached = ground arith

leaf_fits : (phys : ℕ) (cached : Bool) → leaf_of phys cached < 2 ^ 64
leaf_fits phys cached = ground arith

temp_leaf : (pt : ℕ) → bit_or (bit_and pt (2 ^ 64 - 0x1000)) 3 ≡ leaf_of pt false
temp_leaf pt = rw page_mask (omega (arith, bit_or_three (pt / 4096 % 2 ^ 52 * 4096)))

-- What the variables for the three tables hold before `GetTable` sets them.
abbrev mmap_ret : ℕ → ℕ → Option ℕ
mmap_ret phys (suc (suc (suc n))) = some phys
mmap_ret phys n = none

abbrev temp_ret : ℕ → Option ℕ
temp_ret n = none

module _ (B : BootServices) (root : ℕ) (own : Owner) (s : Machine B)
    (tr : IsTree B root own s) where
  -- With the tables a tree below `root`, `MMap` does not fault. Either it returns success, and then
  -- the page of `virt` translates to the entry of `phys` (present, writable, bit 4 if `Cached`) and
  -- every other page as before; or it returns an error, and every page translates as before. The
  -- tables are a tree again, and the pages in use that are no tables have the bytes that they had.
  pub mmap-IsMapped :
      (phys virt : ℕ) (cached : Bool)
      → Ensures
          (IsMapped B root (λ pt. leaf_of phys cached) virt own s)
          (mmap B phys virt cached root s)
  unfolding mmap
  mmap-IsMapped phys virt cached =
      rw
        (
          leaf_flags phys cached,
          index_mask (virt / 2 ^ 39),
          index_mask (virt / 2 ^ 30),
          index_mask (virt / 2 ^ 21),
          index_mask (virt / 2 ^ 12),
        )
        (place-IsMapped B root (mmap_ret phys) (λ pt. leaf_of phys cached) virt
          (λ pt. leaf_odd phys cached) (λ pt. leaf_fits phys cached) own s tr)

  -- With the tables a tree below `root`, `MakeTempRegion` does not fault. Either it returns success,
  -- and then the page of `virt` translates to the page table that maps it, present and writable,
  -- and every other page as before; or it returns an error, and every page translates as before.
  -- The tables are a tree again, and the pages in use that are no tables have the bytes that they had.
  pub make_temp_region-IsMapped :
      (virt : ℕ)
      → Ensures
          (IsMapped B root (λ pt. leaf_of pt false) virt own s)
          (make_temp_region B virt root s)
  unfolding make_temp_region
  make_temp_region-IsMapped virt =
      rw
        (
          index_mask (virt / 2 ^ 39),
          index_mask (virt / 2 ^ 30),
          index_mask (virt / 2 ^ 21),
          index_mask (virt / 2 ^ 12),
        )
        (subst
          (λ f.
            Ensures (IsMapped B root (λ pt. leaf_of pt false) virt own s)
              (place B root temp_ret f virt s))
          (sym (fun_ext temp_leaf))
          (place-IsMapped B root temp_ret (λ pt. leaf_of pt false) virt (λ pt. leaf_odd pt false)
            (λ pt. leaf_fits pt false) own s tr))
