-- ===== src/Tests/Paging.antt =====
-- The page tables with a firmware that hands out its pages one after the other.
use fur_os.Prelude.{
  ℕ, ◌+◌, ◌*◌, ◌^◌, ◌<◌, ◌≡◌, refl, true, false, leb, ◌==◌, if◌then◌else◌, none, some, [], arith,
}
use fur_os.Command.Ensures.{Ensures}
use fur_os.Memory.{load_le, store_le, store8, clear_bytes}
use fur_os.Efi.{Allocation, BootServices, Machine}
use fur_os.Paging.{
  mmap, make_temp_region, descend, get_table, or_flags, require, set_entry, present, table_of,
}
use fur_os.Paging.Entry.{entry, present_even}
use fur_os.Paging.Tree.{Owner, IsTree}
use fur_os.Paging.Place.{IsMapped}
use fur_os.Loader.{map_pages}
use fur_os.Loader.Region.{IsRegion, all_succeed, map_pages-IsRegion}
use fur_os.Paging.Map.{leaf_of, mmap-IsMapped, make_temp_region-IsMapped}

-- The state is the number of the next page; past the last page, `EFI_OUT_OF_RESOURCES`.
abbrev bump_pages : ℕ → ℕ → Allocation ℕ
bump_pages s n =
    let enough = leb (s + n) (2 ^ 40) in
    record {
      status = if enough then 0 else 2 ^ 63 + 9;
      address = 4096 * s;
      state = if enough then s + n else s;
    }

abbrev bump : BootServices
bump = record {
  State = ℕ;
  allocate_pages = bump_pages;
  InUse = λ s a. a < 4096 * s;
  status_cases = λ s n. ground arith;
  page_aligned = λ s n h. omega arith;
  page_fits = λ s n h. ground arith;
  page_fresh = λ s n k h lt. ground arith;
  page_marked = λ s n k h lt. ground arith;
  page_kept = λ s n a h. ground arith;
}

-- One empty table, at the second page.
abbrev root : ℕ
root = 4096

abbrev own : Owner
own t = if t == root then some [] else none

abbrev machine : Machine bump
machine = record { memory = λ a. 0; boot = 2 }

entry_empty : (t i : ℕ) → entry machine.memory t i ≡ 0
unfolding load_le
entry_empty t i = refl

own_root : (t : ℕ) → t ≡ root → own t ≡ some []
own_root t e = ground arith

IsTree-machine : IsTree bump root own machine
IsTree-machine = record {
  root_owned = refl;
  child_owned =
      λ t i p o short b h. ground (arith, entry_empty t i, present_even (entry machine.memory t i));
  aligned = λ t p o. ground arith;
  in_use = λ t p o. ground arith;
}

mmap-IsMapped_example :
    Ensures
      (IsMapped bump root (λ pt. leaf_of 0xb8000 true) 0xffff800000001000 own machine)
      (mmap bump 0xb8000 0xffff800000001000 true root machine)
mmap-IsMapped_example =
    mmap-IsMapped bump root own machine IsTree-machine 0xb8000 0xffff800000001000 true

make_temp_region-IsMapped_example :
    Ensures
      (IsMapped bump root (λ pt. leaf_of pt false) 0x40000000 own machine)
      (make_temp_region bump 0x40000000 root machine)
make_temp_region-IsMapped_example =
    make_temp_region-IsMapped bump root own machine IsTree-machine 0x40000000

two_succeed : all_succeed bump root true 2 0x100000 0xffff800000000000 machine ≡ true
unfolding all_succeed mmap descend get_table or_flags require set_entry present table_of load_le
    store_le store8 clear_bytes
two_succeed = refl

map_pages-IsRegion_example :
    Ensures
      (λ _ s'. IsRegion bump root true 2 0x100000 0xffff800000000000 machine s')
      (map_pages bump 0x1800 0x100000 0xffff800000000000 true root machine)
map_pages-IsRegion_example =
    map_pages-IsRegion bump root true 0x1800 0x100000 0xffff800000000000 own machine IsTree-machine
      (omega arith) two_succeed
