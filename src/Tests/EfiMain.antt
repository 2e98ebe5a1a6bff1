-- ===== src/Tests/EfiMain.antt =====
-- All of `efi_main`, with a kernel's file of 5000 bytes.
use fur_os.Prelude.{◌+◌, ◌/◌, ◌^◌, ◌≡◌, refl, Option, some, arith}
use fur_os.Command.{Outcome, ok, fault}
use fur_os.Command.Ensures.{Ensures}
use fur_os.Supply.Handed.{IsMode}
use fur_os.Memory.{load_le}
use fur_os.Pool.{put_bytes}
use fur_os.Efi.{Machine}
use fur_os.Stub.{Loaded, allocate, kernel_size}
use fur_os.Stub.Apart.{FitsLayout}
use fur_os.Supply.Main.{enough}
use fur_os.Load.{call, needed, open_file, ask_info, info_pool, file_info, read_to, load_file, load}
use fur_os.EfiMain.{run_efi_main, run_with_args}
use fur_os.EfiMain.Kernel.{Started, run_efi_main-Started}
use fur_os.Tests.Firmware.{boot, pools, supply, machine}
use fur_os.Tests.Load.{protocols, machine-CanLoad}
use fur_os.Handoff.Args.{write_mode}
use fur_os.EfiMain.Seen.{IsStatic, Seen, run_with_args-Seen}

abbrev loaded : Loaded
loaded = record {
  image_base = 0x1000;
  image_size = 0x1000;
  kernel_physical = 0x2000;
  file_size = 5000;
  frame_buffer_base = 0x80000000;
  frame_buffer_size = 0x10000;
  vertical_resolution = 80;
  horizontal_resolution = 120;
  pixels_per_scanline = 120;
}

abbrev left_by : Outcome (Machine boot) (Option Loaded) → Machine boot
left_by (ok l s) = s
left_by fault = machine

abbrev start : Machine boot
start = left_by (load boot pools protocols machine)

load-loaded : load boot pools protocols machine ≡ ok (some loaded) start
unfolding load call needed open_file load_file file_info ask_info info_pool read_to allocate
    kernel_size load_le put_bytes
load-loaded = refl

start_next : start.boot.next ≡ 20
unfolding load call needed open_file load_file file_info ask_info info_pool read_to allocate
    kernel_size load_le put_bytes
start_next = refl

start_heap : start.boot.heap ≡ 2 ^ 52 + 81
unfolding load call needed open_file load_file file_info ask_info info_pool read_to allocate
    kernel_size load_le put_bytes
start_heap = refl

memory_left : supply.Left start.boot (enough loaded 0x200000)
unfolding kernel_size
memory_left = (omega (arith, start_next), omega (arith, start_heap), omega (arith, start_heap))

loaded-FitsLayout : FitsLayout loaded (0x200000 / 0x1000 / 8)
loaded-FitsLayout = record {
  image = omega arith;
  image_pages = refl;
  kernel = omega arith;
  frames = omega arith;
  screen = omega arith;
  screen_pages = refl;
}

loaded-IsMode : IsMode loaded
loaded-IsMode = record { vertical = omega arith; horizontal = omega arith; line = omega arith }

run_efi_main-Started_example :
    Ensures
      (Started boot pools protocols 3 start loaded)
      (run_efi_main boot pools protocols machine)
run_efi_main-Started_example =
    run_efi_main-Started boot pools protocols supply 3 machine start loaded machine-CanLoad
      load-loaded memory_left loaded-IsMode loaded-FitsLayout (λ k h. omega (arith, start_next, h))

args-IsStatic : IsStatic boot pools protocols 3 start loaded 0x1100
args-IsStatic = record {
  from = omega arith;
  to = omega arith;
  held = λ j lt. (omega (arith, start_next, lt), omega (arith, lt));
  spared = λ j lt. omega (arith, start_next, lt);
  no_file = omega arith;
}

run_with_args-Seen_example :
    Ensures
      (Seen boot pools protocols 3
        (record start { memory = write_mode 0x1100 loaded start.memory })
        loaded
        0x1100)
      (run_with_args boot pools protocols 0x1100 machine)
run_with_args-Seen_example =
    run_with_args-Seen boot pools protocols supply 3 machine start loaded 0x1100 machine-CanLoad
      load-loaded memory_left loaded-IsMode loaded-FitsLayout (λ k h. omega (arith, start_next, h))
      args-IsStatic
