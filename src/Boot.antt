-- ===== src/Boot.antt =====
-- `kernel` of src/main.c, up to its endless loop: what it does with the arguments of the loader.
pub mod Hello
use fur_os.Prelude.{ℕ, zero, suc, ◌/◌}
use fur_os.Command.{Outcome, ok, fault, Cmd, ◌>>=◌, ◌>>◌, for_range}
use fur_os.Vga.{Pixel, Vga, set_pixel, init_vga}
use fur_os.Terminal.{Terminal, init_terminal, on_vga, print_string}
use fur_os.Physical.{Kernel, init_memory_managment}

pub record MemoryMapDescriptor : Type 0 where
  pub memory_map_size : ℕ
  pub descriptor_size : ℕ
  pub map_key : ℕ
  pub descriptor_version : ℕ
  pub memory_map : ℕ

-- `framebuffer` is what the pointer points to.
pub record KernelArgs : Type 0 where
  pub framebuffer : ℕ → Pixel
  pub framebuffersize : ℕ
  pub vertical_resolution : ℕ
  pub horizontal_resolution : ℕ
  pub pixels_per_scanline : ℕ
  pub memory_map_descriptor : MemoryMapDescriptor
  pub frame_map : ℕ
  pub frame_map_size : ℕ
  pub temp_mapping_region : ℕ

-- The static variables of the terminal, with the driver's, and of the memory manager.
pub record System : Type 0 where
  pub terminal : Terminal
  pub physical : Kernel

unfoldable pub on_terminal : Cmd Terminal (Unit {0}) → Cmd System (Unit {0})
on_terminal f s = elim (f s.terminal) [ ok _ t ↦ ok tt (record s { terminal = t }) | fault ↦ fault ]

-- `for (i = 0; i < framebuffersize / 16; i++) framebuffer[i].blue = 0xff;`
unfoldable pub paint_blue : KernelArgs → Outcome Vga (Unit {0})
paint_blue a =
    for_range (a.framebuffersize / 16) 0
      (λ i v. set_pixel i (record (v.framebuffer i) { blue = 0xff }) v)
      (record {
        framebuffer = a.framebuffer;
        size = a.framebuffersize;
        pixel_per_scanline = a.pixels_per_scanline;
      })

unfoldable pub start_memory : KernelArgs → Cmd System (Unit {0})
start_memory a s =
    let d = a.memory_map_descriptor in
    ok tt (record s {
      physical =
          (init_memory_managment d.memory_map d.descriptor_size d.memory_map_size a.frame_map
            a.frame_map_size a.temp_mapping_region s.physical).1;
    })

-- The calls after the first loop, with the framebuffer as it leaves it. `string` is the address of
-- the literal.
unfoldable pub start : ℕ → ℕ → KernelArgs → (ℕ → Pixel) → Cmd System (Unit {0})
start fuel string a painted = do
  on_terminal (on_vga (init_vga painted a.framebuffersize a.pixels_per_scanline))
  on_terminal (λ t. ok tt (init_terminal a.vertical_resolution a.horizontal_resolution t))
  start_memory a
  λ s. on_terminal (print_string fuel s.physical.memory string) s

unfoldable pub kernel : ℕ → ℕ → KernelArgs → Cmd System (Unit {0})
kernel fuel string a s = elim (paint_blue a) [
  | ok _ v ↦ start fuel string a v.framebuffer s
  | fault ↦ fault
]
