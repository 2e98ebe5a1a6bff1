-- ===== src/Paging.antt =====
-- The page tables that efi/src/EFI_STUB.c builds: `GetTable`, `MMap` and `MakeTempRegion`.
-- `Print` writes to the firmware's console only and is left out.
pub mod Entry
pub mod Tree
pub mod Link
pub mod Spares
pub mod Descend
pub mod Leaf
pub mod Leads
pub mod Place
pub mod Map
use fur_os.Prelude.{
  ℕ, ◌+◌, ◌-◌, ◌*◌, ◌/◌, ◌^◌, bit_and, bit_or, Bool, not, ◌==◌, if◌then◌else◌, Option, none, some,
}
use fur_os.Command.{Outcome, ok, fault, Cmd, pure, ◌>>=◌, ◌>>◌}
use fur_os.Memory.{load_le, store_le, clear_bytes}
use fur_os.Efi.{BootServices, Machine, efi_success, efi_error}

abbrev pub pte_addr_mask : ℕ
pte_addr_mask = 0x000FFFFFFFFFF000

-- `entry & PTE_PRESENT`
unfoldable pub present : ℕ → Bool
present e = not (bit_and e 1 == 0)

-- `entry & PTE_ADDR_MASK`
unfoldable pub table_of : ℕ → ℕ
table_of e = bit_and e pte_addr_mask

module _ (B : BootServices) where
  -- `table[entry] = v` and `table[entry] |= 3` on a table of 64-bit entries.
  unfoldable pub set_entry : ℕ → ℕ → ℕ → Cmd (Machine B) (Unit {0})
  set_entry table i v s = ok tt (record s { memory = store_le 8 s.memory (table + 8 * i) v })

  unfoldable pub or_flags : ℕ → ℕ → Cmd (Machine B) (Unit {0})
  unfolding set_entry
  or_flags table i s = set_entry table i (bit_or (load_le 8 s.memory (table + 8 * i)) 3) s

  -- The status and what `*RetTable` holds afterwards; `none` is a variable that was never set.
  unfoldable pub get_table : ℕ → ℕ → Option ℕ → Cmd (Machine B) (ℕ × Option ℕ)
  get_table table i ret s =
      let e = load_le 8 s.memory (table + 8 * i) in
      let r = B.allocate_pages s.boot 1 in
      if present e
      then ok (efi_success, some (table_of e)) s
      else (if not (r.status == efi_success)
          then ok (r.status, ret) (record s { boot = r.state })
          else ok (efi_success, some r.address)
              (record {
                memory =
                    store_le 8 (clear_bytes 0x1000 s.memory r.address) (table + 8 * i) r.address;
                boot = r.state;
              }))

  unfoldable pub require : Option ℕ → Cmd (Machine B) ℕ
  require none s = fault
  require (some t) s = ok t s

  -- One level of `MMap` and of `MakeTempRegion`: find or make the table, return on an error, set
  -- the flags of its entry, and go on with the table.
  unfoldable pub descend : ℕ → ℕ → Option ℕ → (ℕ → Cmd (Machine B) ℕ) → Cmd (Machine B) ℕ
  unfolding get_table or_flags require
  descend table i ret next = do
    (status, t) ← get_table table i ret
    if efi_error status then pure status else do or_flags table i; t ← require t; next t

  unfoldable pub mmap : ℕ → ℕ → Bool → ℕ → Cmd (Machine B) ℕ
  mmap phys virt cached pml4 =
      let entry_pml4 = bit_and (virt / 2 ^ 39) 0x1ff in
      let entry_pdpt = bit_and (virt / 2 ^ 30) 0x1ff in
      let entry_pd = bit_and (virt / 2 ^ 21) 0x1ff in
      let entry_pt = bit_and (virt / 2 ^ 12) 0x1ff in
      let page = bit_and phys (2 ^ 64 - 0x1000) in
      let leaf = bit_or (bit_or page 3) (if cached then 16 else 0) in
      descend pml4 entry_pml4 none λ pdpt.
        descend pdpt entry_pdpt none
          λ pd. descend pd entry_pd (some phys) λ pt. set_entry pt entry_pt leaf >> pure efi_success

  unfoldable pub make_temp_region : ℕ → ℕ → Cmd (Machine B) ℕ
  make_temp_region virt pml4 =
      let entry_pml4 = bit_and (virt / 2 ^ 39) 0x1ff in
      let entry_pdpt = bit_and (virt / 2 ^ 30) 0x1ff in
      let entry_pd = bit_and (virt / 2 ^ 21) 0x1ff in
      let entry_pt = bit_and (virt / 2 ^ 12) 0x1ff in
      descend pml4 entry_pml4 none λ pdpt. descend pdpt entry_pdpt none λ pd.
        descend pd entry_pd none
          λ pt. set_entry pt entry_pt (bit_or (bit_and pt (2 ^ 64 - 0x1000)) 3) >> pure efi_success
