-- ===== src/BootX64/Reserve.antt =====
-- How many pages are asked for.
use fur_os.Prelude.{
  ℕ, ◌+◌, ◌-◌, ◌*◌, ◌/◌, ◌%◌, ◌^◌, ◌≤◌, ◌<◌, ◌≡◌, ◌⊎◌, inl, inr, ltb, leb, true, arith, Bool-cases,
}
use fur_os.BootX64.{Entry, kernel_address, reserve_count}

-- On an entry that starts at a page, ends at 0xffff00000000 or above and within the address space, and
-- for a file smaller than 2 ^ 60 bytes: the pages that are asked for hold no more than the file, and
-- leave out its last part of a page. They are fewer only up to the end of an entry that contains the address; an
-- entry that starts above the address does not limit them.
pub reserve_count_lem :
    (file_size : ℕ) (entry : Entry)
    → file_size < 2 ^ 60
    → entry.physical_start % 4096 ≡ 0
    → kernel_address ≤ entry.physical_start + entry.number_of_pages * 4096
    → entry.physical_start + entry.number_of_pages * 4096 < 2 ^ 64
    → let end = entry.physical_start + entry.number_of_pages * 4096 in
      let reserved = reserve_count file_size entry * 4096 in
      (reserved ≤ file_size)
      × ((file_size < reserved + 4096)
          ⊎ ((entry.physical_start ≤ kernel_address) × (kernel_address + reserved ≡ end)))
      × ((kernel_address < entry.physical_start) ⊎ (kernel_address + reserved ≤ end))
unfolding reserve_count
reserve_count_lem file_size entry small aligned reaches ends =
    let start = entry.physical_start in
    let pages = entry.number_of_pages in
    let from_map =
      (pages + 2 ^ 64 - (kernel_address + 2 ^ 64 - start) % 2 ^ 64 / 0x1000) % 2 ^ 64 in
    elim (Bool-cases (leb start kernel_address)) [
      | inl below ↦
          let le : start ≤ kernel_address = ground arith in
          let e : from_map ≡ pages - (kernel_address - start) / 4096 = omega arith in
          rw e
            (elim (Bool-cases (ltb (file_size / 4096) (pages - (kernel_address - start) / 4096))) [
              | inl file ↦
                  let lt : file_size / 4096 < pages - (kernel_address - start) / 4096 =
                    ground arith in
                  rw file (omega arith, inl (omega arith), inr (omega arith))
              | inr map ↦
                  let ge : pages - (kernel_address - start) / 4096 ≤ file_size / 4096 =
                    ground arith in
                  rw map (omega arith, inr (le, omega arith), inr (omega arith))
            ])
      | inr above ↦
          let gt : kernel_address < start = ground arith in
          let ge : 2 ^ 63 ≤ from_map = omega arith in
          let file : ltb (file_size / 4096) from_map ≡ true = ground arith in
          rw file (omega arith, inl (omega arith), inl gt)
    ]
