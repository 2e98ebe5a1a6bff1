-- ===== src/Tests/Supply.antt =====
-- `efi_main` on a firmware that has memory left.
use fur_os.Prelude.{◌+◌, ◌/◌, ◌≡◌, refl, some, true, ◌*◌, arith}
use fur_os.Command.{ok}
use fur_os.Command.Ensures.{Ensures, result_of}
use fur_os.Efi.{Machine}
use fur_os.Paging.Tree.{translate}
use fur_os.Handoff.Jump.{jump, jump-Handed}
use fur_os.Paging.Map.{leaf_of}
use fur_os.Stub.{Ending, kernel_size, efi_main}
use fur_os.Stub.Apart.{FitsLayout}
use fur_os.Supply.Main.{enough}
use fur_os.Supply.Handed.{Handed, IsMode, efi_main-Handed}
use fur_os.Tests.Firmware.{boot, pools, supply, machine, loaded}

loaded-FitsLayout : FitsLayout loaded (0x200000 / 0x1000 / 8)
loaded-FitsLayout = record {
  image = omega arith;
  image_pages = refl;
  kernel = omega arith;
  frames = omega arith;
  screen = omega arith;
  screen_pages = refl;
}

loaded-IsMode : IsMode loaded
loaded-IsMode = record { vertical = omega arith; horizontal = omega arith; line = omega arith }

memory_left : supply.Left machine.boot (enough loaded 0x200000)
unfolding kernel_size
memory_left = (omega arith, omega arith, omega arith)

efi_main-Handed_example :
    Ensures
      (Handed boot pools machine loaded (boot.allocate_pages machine.boot 1).address)
      (efi_main boot pools loaded machine)
efi_main-Handed_example =
    efi_main-Handed boot pools machine loaded supply loaded-IsMode loaded-FitsLayout memory_left

abbrev run :
    (ending : Ending) × (s : Machine boot) × (efi_main boot pools loaded machine ≡ ok ending s)
    × Handed boot pools machine loaded (boot.allocate_pages machine.boot 1).address ending s
run =
    result_of
      (efi_main-Handed boot pools machine loaded supply loaded-IsMode loaded-FitsLayout memory_left)

jump-Handed_example :
    let c = jump (boot.allocate_pages machine.boot 1).address 0x10000000 in
    (translate run.1.memory c.cr3 c.rip ≡ some (leaf_of 0x20000000 true))
    × (translate run.1.memory c.cr3 (c.rsp + 5) ≡ some (leaf_of (run.3.stack + 4096 * 79) true))
    × boot.InUse run.1.boot (run.3.stack + 4096 * 79)
jump-Handed_example =
    jump-Handed boot pools machine loaded (boot.allocate_pages machine.boot 1).address 0x10000000 5
      run.0 run.1 run.3 (omega arith) (omega arith)
