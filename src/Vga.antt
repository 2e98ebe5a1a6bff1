-- ===== src/Vga.antt =====
-- src/Drivers/vga.c: the framebuffer. A pixel index past the end of the framebuffer is a fault.
pub mod Plot
use fur_os.Prelude.{ℕ, ◌+◌, ◌*◌, ◌/◌, ◌%◌, ◌^◌, Bool, ltb, ◌==◌, if◌then◌else◌}
use fur_os.Command.{ok, fault, Cmd, for_range}

pub record Pixel : Type 0 where
  pub blue : ℕ
  pub green : ℕ
  pub red : ℕ
  pub reserved : ℕ

-- `*(Pixel *)&color`: the bytes of a 32-bit colour, the lowest first.
unfoldable pub pixel_of : ℕ → Pixel
pixel_of color = record {
  blue = color % 256;
  green = color / 256 % 256;
  red = color / 2 ^ 16 % 256;
  reserved = color / 2 ^ 24 % 256;
}

-- `size` is in bytes, and a pixel has four.
pub record Vga : Type 0 where
  pub framebuffer : ℕ → Pixel
  pub size : ℕ
  pub pixel_per_scanline : ℕ

unfoldable pub set_pixel : ℕ → Pixel → Cmd Vga (Unit {0})
set_pixel i p v =
    if ltb i (v.size / 4)
    then ok tt (record v { framebuffer = λ k. if k == i then p else v.framebuffer k })
    else fault

unfoldable pub init_vga : (ℕ → Pixel) → ℕ → ℕ → Cmd Vga (Unit {0})
init_vga in_framebuffer in_size in_pixelscanline v =
    for_range (in_size / 4) 0 (λ i. set_pixel i (pixel_of 0x000000))
      (record {
        framebuffer = in_framebuffer;
        size = in_size;
        pixel_per_scanline = in_pixelscanline;
      })

-- The index is computed in `uint32_t`.
unfoldable pub print_pixel : ℕ → ℕ → ℕ → Cmd Vga (Unit {0})
print_pixel x y color v =
    set_pixel ((x + y * v.pixel_per_scanline % 2 ^ 32) % 2 ^ 32) (pixel_of color) v
