-- ===== src/Tests/Loader.antt =====
-- A memory map of three entries, from address 0 on.
use fur_os.Prelude.{◌≡◌, [], ◌∷◌, arith}
use fur_os.Loader.{max_address}
use fur_os.Loader.Scan.{entries_from, max_address-entries_from}

-- The map ends at 0x106000, and the scan finds the start of its last entry.
max_address-entries_from_example : max_address 0 (entries_from 0 (0xa0 ∷ 0x60 ∷ 6 ∷ [])) ≡ 0x100000
max_address-entries_from_example =
    max_address-entries_from 0 (0xa0 ∷ 0x60 ∷ 6 ∷ [])
      (omega arith, (omega arith, (omega arith, tt))) (omega arith)
