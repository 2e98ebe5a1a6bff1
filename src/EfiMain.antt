-- ===== src/EfiMain.antt =====
-- All of `efi_main` of efi/src/EFI_STUB.c up to the exit from the boot services: what is loaded is what the
-- page tables are made for.
pub mod Kernel
pub mod Seen
use fur_os.Prelude.{ℕ, Option, none, some}
use fur_os.Command.{ok, Cmd, pure, ◌>>=◌, ◌>>◌}
use fur_os.Memory.{Memory}
use fur_os.Efi.{BootServices, Machine}
use fur_os.Pool.{PoolServices}
use fur_os.Load.{Protocols, load}
use fur_os.Stub.{Ending, started, efi_main}
use fur_os.Handoff.Args.{write_mode, write_rest}

module _ (B : BootServices) (P : PoolServices B) (F : Protocols B P) where
  -- Without the stores to `KernelArgs`. `none` is the return of `EFI_OUT_OF_RESOURCES`.
  unfoldable pub run_efi_main : Cmd (Machine B) (Option Ending)
  unfolding load efi_main
  run_efi_main = do
    loaded ← load B P F
    elim loaded [ none ↦ pure none | some l ↦ do ending ← efi_main B P l; pure (some ending) ]

-- The last assignments, where the run comes to them.
unfoldable pub leave_rest : ℕ → Ending → Memory → Memory
unfolding write_rest
leave_rest kernel_args (started x) m = write_rest kernel_args x m
leave_rest kernel_args _ m = m

module _ (B : BootServices) (P : PoolServices B) (F : Protocols B P) where
  abbrev in_memory : (Memory → Memory) → Cmd (Machine B) (Unit {0})
  in_memory f s = ok tt (record s { memory = f s.memory })

  -- With the stores to the static `KernelArgsStruct` at `kernel_args`: the screen's mode before the
  -- page tables are made, and the rest, which `efi_main` assigns between its calls after the top-level
  -- table is cleared, at the end.
  unfoldable pub run_with_args : ℕ → Cmd (Machine B) (Option Ending)
  unfolding load efi_main write_mode leave_rest
  run_with_args kernel_args = do
    loaded ← load B P F
    elim loaded [
      | none ↦ pure none
      | some l ↦ do
        in_memory (write_mode kernel_args l)
        ending ← efi_main B P l
        in_memory (leave_rest kernel_args ending)
        pure (some ending)
    ]
