-- ===== src/Vga/Plot.antt =====
-- What the driver's two functions do to the framebuffer.
use fur_os.Prelude.{
  ℕ, ◌+◌, ◌*◌, ◌/◌, ◌%◌, ◌^◌, ◌≤◌, ◌<◌, ◌≡◌, refl, true, arith, ltb, ◌==◌, if◌then◌else◌,
}
use fur_os.Command.{ok}
use fur_os.Command.Ensures.{Ensures, ensures, for_range-Ensures}
use fur_os.Vga.{Pixel, pixel_of, Vga, set_pixel, init_vga, print_pixel}

pub set_pixel-ok :
    (i : ℕ) (p : Pixel) (v : Vga)
    → i < v.size / 4
    → set_pixel i p v
      ≡ ok tt (record v { framebuffer = λ k. if k == i then p else v.framebuffer k })
unfolding set_pixel
set_pixel-ok i p v h = let t : ltb i (v.size / 4) ≡ true = ground arith in rw t

-- `PrintPixel` on a place whose index is within the framebuffer, of at most 2 ^ 32 pixels, gives that
-- pixel the colour and changes no other. It does not fault.
pub print_pixel-ok :
    (x y color : ℕ) (v : Vga)
    → x + y * v.pixel_per_scanline < v.size / 4
    → v.size / 4 ≤ 2 ^ 32
    → print_pixel x y color v
      ≡ ok tt (record v {
        framebuffer =
            λ k. if k == x + y * v.pixel_per_scanline then pixel_of color else v.framebuffer k;
      })
unfolding print_pixel
print_pixel-ok x y color v h fits =
    let e : (x + y * v.pixel_per_scanline % 2 ^ 32) % 2 ^ 32 ≡ x + y * v.pixel_per_scanline =
      omega arith in
    rw e (set_pixel-ok (x + y * v.pixel_per_scanline) (pixel_of color) v h)

-- The first `i` pixels are black.
abbrev Cleared : (ℕ → Pixel) → ℕ → ℕ → ℕ → Vga → Type 0
Cleared fb size line i v =
    (v.size ≡ size)
    × (v.pixel_per_scanline ≡ line)
    × ((k : ℕ) → v.framebuffer k ≡ (if ltb k i then pixel_of 0x000000 else fb k))

-- `initVga` never faults. Afterwards every pixel of the framebuffer is black, no index past it was
-- written, and the size and the line length are the arguments.
pub init_vga-Ensures :
    (fb : ℕ → Pixel) (size line : ℕ) (v : Vga)
    → Ensures
        (λ _ v'.
          (v'.size ≡ size)
          × (v'.pixel_per_scanline ≡ line)
          × ((k : ℕ) → v'.framebuffer k ≡ (if ltb k (size / 4) then pixel_of 0x000000 else fb k)))
        (init_vga fb size line v)
unfolding init_vga
init_vga-Ensures fb size line v =
    for_range-Ensures (Cleared fb size line) _ (size / 4)
      (λ i s h (sized, lined, old).
        rw (set_pixel-ok i (pixel_of 0) s (rw sized h))
          (ensures (sized, lined, λ k. ground (arith, old k))))
      (size / 4) 0 (record { framebuffer = fb; size = size; pixel_per_scanline = line })
      (omega arith) (refl, refl, λ k. ground arith)
