-- ===== src/Handoff/Jump.antt =====
-- The end of `efi_main` of efi/src/EFI_STUB.c: the new page tables, the new stack, and the call of the
-- kernel. The status of `ExitBootServices` is not looked at.
use fur_os.Prelude.{ℕ, ◌+◌, ◌-◌, ◌*◌, ◌/◌, ◌^◌, ◌<◌, ◌≡◌, true, some, arith}
use fur_os.Efi.{BootServices, Machine}
use fur_os.Paging.Tree.{translate}
use fur_os.Paging.Map.{leaf_of}
use fur_os.Pool.{PoolServices}
use fur_os.Stub.{Loaded, Ending, kernel_pages_count, kernel_size}
use fur_os.Supply.Handed.{Handed}

-- The registers after the assembly and the call.
pub record Cpu : Type 0 where
  pub cr3 : ℕ
  pub rsp : ℕ
  pub rdi : ℕ
  pub rip : ℕ

-- The call pushes its return address, of 8 bytes.
unfoldable pub jump : (pml4 kernel_args : ℕ) → Cpu
jump pml4 kernel_args = record {
  cr3 = pml4;
  rsp = 0xfffffffffffff000 - 8;
  rdi = kernel_args;
  rip = 0xffff800000000000;
}

some_kernel : (l : Loaded) → l.file_size < 2 ^ 63 → 0 < kernel_pages_count l
unfolding kernel_size
some_kernel l h = omega arith

-- After `efi_main` has handed over, with a kernel's file smaller than 2 ^ 63 bytes: the call of the
-- kernel lands at the first byte of the kernel as it was loaded, and each of the 8 bytes that it pushes
-- lies on the last page of the memory for the stack, which the firmware handed out.
pub jump-Handed :
    (B : BootServices) (P : PoolServices B) (start : Machine B) (l : Loaded)
    (root kernel_args j : ℕ) (ending : Ending) (s : Machine B)
    (h : Handed B P start l root ending s)
    → l.file_size < 2 ^ 63
    → j < 8
    → let c = jump root kernel_args in
      (translate s.memory c.cr3 c.rip ≡ some (leaf_of l.kernel_physical true))
      × (translate s.memory c.cr3 (c.rsp + j) ≡ some (leaf_of (h.stack + 4096 * 79) true))
      × B.InUse s.boot (h.stack + 4096 * 79)
unfolding jump
jump-Handed B P start l root kernel_args j ending s h small lt =
    let last : (0x50000 - 8 + j) / 4096 ≡ 79 = omega arith in
    let at : 0xfffffffffffff000 - 0x50000 + (0x50000 - 8 + j) ≡ 0xfffffffffffff000 - 8 + j =
      omega arith in
    let first : l.kernel_physical + 4096 * (0 / 4096) ≡ l.kernel_physical = omega arith in
    (
      rw first at (h.kernel 0 (some_kernel l small)),
      rw (last, at) at (h.kernel_stack (0x50000 - 8 + j) (omega arith)),
      h.stack_held 79 (omega arith),
    )
