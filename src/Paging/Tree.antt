-- ===== src/Paging/Tree.antt =====
-- What the processor makes of the tables, and the invariant that they form a tree.
use fur_os.Prelude.{
  ℕ, ◌/◌, ◌%◌, ◌^◌, ◌<◌, ◌≡◌, true, if◌then◌else◌, Option, none, some, List, [], ◌∷◌, length,
}
use fur_os.Memory.{Memory}
use fur_os.Efi.{BootServices, Machine}
use fur_os.Paging.{present, table_of}
use fur_os.Paging.Entry.{entry}

-- The processor's walk from the table at `t`, by an index for each level: the last entry, if every
-- entry on the way is present. (The tables of the loader use 4 KiB pages only.)
unfoldable pub walk : Memory → ℕ → ℕ → List ℕ → Option ℕ
walk m t i [] = if present (entry m t i) then some (entry m t i) else none
walk m t i (j ∷ is) = if present (entry m t i) then walk m (table_of (entry m t i)) j is else none

-- The index of a virtual address at each level, and the entry that maps its page.
abbrev pub pml4_index : ℕ → ℕ
pml4_index va = va / 2 ^ 39 % 512

abbrev pub pdpt_index : ℕ → ℕ
pdpt_index va = va / 2 ^ 30 % 512

abbrev pub pd_index : ℕ → ℕ
pd_index va = va / 2 ^ 21 % 512

abbrev pub pt_index : ℕ → ℕ
pt_index va = va / 2 ^ 12 % 512

unfoldable pub translate : Memory → ℕ → ℕ → Option ℕ
translate m root va = walk m root (pml4_index va) (pdpt_index va ∷ pd_index va ∷ pt_index va ∷ [])

-- The page number that the four indices read.
abbrev pub page_of : ℕ → ℕ
page_of va = va / 2 ^ 12 % 2 ^ 36

-- `own` gives for each table the indices that lead to it from the root, the last one first.
abbrev pub Owner : Type 0
Owner = ℕ → Option (List ℕ)

-- The tables form a tree below `root`: an entry of a table above the last level leads to the table
-- that its own path says, so no table is shared; the tables are aligned pages in use.
pub record IsTree (B : BootServices) (root : ℕ) (own : Owner) (s : Machine B) : Type 0 where
  pub root_owned : own root ≡ some []
  pub child_owned :
      (t i : ℕ) (p : List ℕ)
      → own t ≡ some p
      → length p < 3
      → i < 512
      → present (entry s.memory t i) ≡ true
      → own (table_of (entry s.memory t i)) ≡ some (i ∷ p)
  pub aligned : (t : ℕ) (p : List ℕ) → own t ≡ some p → t % 4096 ≡ 0
  pub in_use : (t : ℕ) (p : List ℕ) → own t ≡ some p → B.InUse s.boot t
