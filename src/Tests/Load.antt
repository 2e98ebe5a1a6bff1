-- ===== src/Tests/Load.antt =====
-- A kernel's file of 5000 bytes, read by the loader.
use fur_os.Prelude.{ℕ, ◌+◌, ◌%◌, ◌^◌, ◌≡◌, refl, ltb, ◌==◌, if◌then◌else◌, arith}
use fur_os.Command.Ensures.{Ensures}
use fur_os.Memory.{load_le}
use fur_os.Stub.{kernel_size}
use fur_os.Load.{Answer, Bytes, LoadedImage, GopMode, Protocols, load}
use fur_os.Load.Read.{CanLoad, IsLoaded, load-IsLoaded}
use fur_os.Tests.Firmware.{Stock, boot, pools, machine}

abbrev found : {A : Type 0} → Stock → A → Answer Stock A
found b x = record { status = 0; value = x; state = b }

abbrev info : Stock → ℕ → Bytes Stock
info b size = record {
  status = if ltb size 80 then 2 ^ 63 + 5 else 0;
  size = 80;
  bytes = λ i. if i == 8 then 0x88 else (if i == 9 then 0x13 else 0);
  state = b;
}

abbrev file_bytes : Stock → ℕ → Bytes Stock
file_bytes b size = record { status = 0; size = size; bytes = λ i. i % 256; state = b }

abbrev mode : GopMode
mode = record {
  frame_buffer_base = 0x80000000;
  frame_buffer_size = 0x10000;
  vertical_resolution = 80;
  horizontal_resolution = 120;
  pixels_per_scanline = 120;
}

abbrev image : LoadedImage
image = record { image_base = 0x1000; image_size = 0x1000; device_handle = 3 }

pub info_length : load_le 8 (info (record { next = 0; heap = 0; sizes = λ a. 0 }) 80).bytes 8 ≡ 5000
unfolding load_le
info_length = refl

abbrev pub protocols : Protocols boot pools
protocols = record {
  Volume = ℕ;
  Dir = ℕ;
  File = ℕ;
  loaded_image = λ b. found b image;
  file_system = λ b device. found b 1;
  open_volume = λ b volume. found b 2;
  open_kernel = λ b dir. found b 3;
  get_info = λ b f size. info b size;
  read_file = λ b f size. file_bytes b size;
  locate_gop = λ b. found b mode;
  length = λ f. 5000;
  content = λ f i. i % 256;
  info_size = λ f. 80;
  info_small = λ b f size h. (ground arith, refl);
  info_filled = λ b f size h. (ground arith, refl, info_length);
  info_holds = λ f. (omega arith, omega arith);
  length_fits = λ f. omega arith;
  read_whole = λ b f h. (refl, λ i. refl);
  info_kept = λ b f size a u. u;
  info_live = λ b f size a n u. u;
  read_kept = λ b f size a u. u;
  gop_kept = λ b a u. u;
}

pub machine-CanLoad : CanLoad boot pools protocols machine.boot 3
unfolding kernel_size
machine-CanLoad = record {
  volume = 1;
  dir = 2;
  image = refl;
  file_system = (refl, refl);
  open_volume = (refl, refl);
  open_kernel = (refl, refl, record { pool = refl; pages = refl; read = refl });
  gop = λ c. refl;
}

load-IsLoaded_example :
    Ensures (IsLoaded boot pools protocols machine.boot 3) (load boot pools protocols machine)
load-IsLoaded_example = load-IsLoaded boot pools protocols machine 3 machine-CanLoad
