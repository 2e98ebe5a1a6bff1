-- ===== src/Tests/Boot.antt =====
-- The kernel on a screen of 240 by 80 pixels.
use fur_os.Prelude.{◌*◌, ◌==◌, if◌then◌else◌, refl, arith}
use fur_os.Command.Ensures.{Ensures}
use fur_os.Memory.{Memory}
use fur_os.Vga.{Pixel}
use fur_os.Str.Laws.{IsString}
use fur_os.Boot.{KernelArgs, System, kernel}
use fur_os.Boot.Hello.{Greeted, Screen, hello_line, kernel-Greeted}

abbrev grey : Pixel
grey = record { blue = 128; green = 128; red = 128; reserved = 0 }

abbrev args : KernelArgs
args = record {
  framebuffer = λ k. grey;
  framebuffersize = 4 * 240 * 80;
  vertical_resolution = 80;
  horizontal_resolution = 240;
  pixels_per_scanline = 240;
  memory_map_descriptor = record {
    memory_map_size = 96;
    descriptor_size = 48;
    map_key = 1;
    descriptor_version = 1;
    memory_map = 0x9000;
  };
  frame_map = 0xa000;
  frame_map_size = 32;
  temp_mapping_region = 0x200000;
}

-- "Hello" and a line feed at 16.
abbrev memory : Memory
memory a =
    if a == 16
    then b'H'
    else (if a == 17
        then b'e'
        else (if a == 18
            then b'l'
            else (if a == 19
                then b'l'
                else (if a == 20 then b'o' else (if a == 21 then 0xa else 0)))))

abbrev system : System
system = record {
  terminal = record {
    x = 0;
    y = 0;
    max_vertical = 0;
    max_horizontal = 0;
    bgcolor = 0x000000;
    fgcolor = 0xffffff;
    vga = record { framebuffer = λ k. grey; size = 0; pixel_per_scanline = 0 };
  };
  physical = record {
    memory = memory;
    memory_map = 0;
    descriptor_size = 0;
    memory_map_size = 0;
    frame_map = 0;
    frame_map_size = 0;
    temp_mapping_region = 0;
    dynamic_memory = 0;
    flushes = 0;
  };
}

args-Screen : Screen args
args-Screen = record {
  columns = omega arith;
  lines = omega arith;
  in_buffer = omega arith;
  in_word = omega arith;
}

memory-IsString : IsString memory 16 hello_line
memory-IsString = (
  refl,
  omega arith,
  (
    refl,
    omega arith,
    (refl, omega arith, (refl, omega arith, (refl, omega arith, (refl, omega arith, refl)))),
  ),
)

kernel-Greeted_example : Ensures (λ _ s'. Greeted args system s') (kernel 7 16 args system)
kernel-Greeted_example = kernel-Greeted args system 7 16 args-Screen memory-IsString (omega arith)
