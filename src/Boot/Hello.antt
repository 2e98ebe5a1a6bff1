-- ===== src/Boot/Hello.antt =====
-- The kernel's greeting.
use fur_os.Prelude.{
  ℕ, ◌+◌, ◌*◌, ◌/◌, ◌^◌, ◌≤◌, ◌<◌, ◌≡◌, refl, ◌∙◌, ap, ltb, if◌then◌else◌, List, [], ◌∷◌, arith,
}
use mathlib.Core.Path.{fun_ext}
use fur_os.Command.{ok}
use fur_os.Command.Ensures.{Ensures, ensures, for_range-Ensures, result_of}
use fur_os.Str.Laws.{IsString}
use fur_os.Vga.{Pixel, Vga, pixel_of, set_pixel, init_vga}
use fur_os.Vga.Plot.{set_pixel-ok, init_vga-Ensures}
use fur_os.Terminal.{Terminal, init_terminal, on_vga}
use fur_os.Terminal.Cell.{with_picture}
use fur_os.Terminal.Char.{print_char-blank}
use fur_os.Terminal.Number.{print_all}
use fur_os.Terminal.Text.{print_all-++, print_string-all}
use fur_os.Terminal.Line.{Room, line_pixel, print_all-line_pixel}
use fur_os.Physical.{init_memory_managment}
use fur_os.Boot.{KernelArgs, System, on_terminal, paint_blue, start_memory, start, kernel}

abbrev pub hello : List ℕ
hello = b'H' ∷ b'e' ∷ b'l' ∷ b'l' ∷ b'o' ∷ []

abbrev pub hello_line : List ℕ
hello_line = b'H' ∷ b'e' ∷ b'l' ∷ b'l' ∷ b'o' ∷ 0xa ∷ []

-- A picture that is black within the framebuffer.
abbrev pub black_picture : KernelArgs → ℕ → Pixel
black_picture a k = if ltb k (a.framebuffersize / 4) then pixel_of 0x000000 else a.framebuffer k

-- The terminal after `initVga` and `initTerminal`.
abbrev pub fresh : KernelArgs → Terminal → Terminal
fresh a t = record t {
  x = 0;
  y = 0;
  max_vertical = a.vertical_resolution / 40;
  max_horizontal = a.horizontal_resolution / 40;
  vga = record {
    framebuffer = black_picture a;
    size = a.framebuffersize;
    pixel_per_scanline = a.pixels_per_scanline;
  };
}

-- The screen has a line of text with six columns, and its framebuffer has that line.
pub record Screen (a : KernelArgs) : Type 0 where
  pub columns : 240 ≤ a.horizontal_resolution
  pub lines : a.horizontal_resolution ≤ a.pixels_per_scanline
  pub in_buffer : 40 * a.pixels_per_scanline ≤ a.framebuffersize / 4
  pub in_word : a.framebuffersize / 4 ≤ 2 ^ 32

Room-fresh : (a : KernelArgs) (t : Terminal) → Screen a → Room 5 (fresh a t)
Room-fresh a t s = record {
  columns = omega (arith, s);
  lines = omega (arith, s);
  in_buffer = omega (arith, s);
  in_word = s.in_word;
  more = omega arith;
}

-- The first loop writes within the framebuffer only.
paint_blue-Ensures :
    (a : KernelArgs)
    → Ensures
        (λ _ v.
          (v.size ≡ a.framebuffersize)
          × ((k : ℕ) → a.framebuffersize / 4 ≤ k → v.framebuffer k ≡ a.framebuffer k))
        (paint_blue a)
unfolding paint_blue
paint_blue-Ensures a =
    for_range-Ensures
      (λ i v.
        (v.size ≡ a.framebuffersize)
        × ((k : ℕ) → a.framebuffersize / 4 ≤ k → v.framebuffer k ≡ a.framebuffer k))
      (λ i v. set_pixel i (record (v.framebuffer i) { blue = 0xff }) v) (a.framebuffersize / 16)
      (λ i v h (sized, old).
        let inside : i < v.size / 4 = omega (arith, sized) in
        rw (set_pixel-ok i (record (v.framebuffer i) { blue = 0xff }) v inside)
          (ensures (sized, λ k far. ground (arith, old k))))
      (a.framebuffersize / 16) 0 _ (omega arith) (refl, λ k far. refl)

same_vga :
    (v : Vga) (f : ℕ → Pixel) (size line : ℕ)
    → v.framebuffer ≡ f
    → v.size ≡ size
    → v.pixel_per_scanline ≡ line
    → v ≡ record { framebuffer = f; size = size; pixel_per_scanline = line }
same_vga v f size line e d g =
    λ i. record { framebuffer = e i; size = d i; pixel_per_scanline = g i }

-- `initVga` after it leaves a black picture.
init_vga-black :
    (a : KernelArgs) (painted : ℕ → Pixel) (v : Vga)
    → ((k : ℕ) → a.framebuffersize / 4 ≤ k → painted k ≡ a.framebuffer k)
    → init_vga painted a.framebuffersize a.pixels_per_scanline v
      ≡ ok tt (record {
        framebuffer = black_picture a;
        size = a.framebuffersize;
        pixel_per_scanline = a.pixels_per_scanline;
      })
init_vga-black a painted v far =
    let (_, v', e, (sized, lined, black)) =
      result_of (init_vga-Ensures painted a.framebuffersize a.pixels_per_scanline v) in
    let picture : v'.framebuffer ≡ black_picture a =
      fun_ext (λ k. ground (arith, black k, far k)) in
    e
    ∙ ap (ok tt)
        (same_vga v' (black_picture a) a.framebuffersize a.pixels_per_scanline picture sized lined)

hello_line-ok :
    (t : Terminal)
    → t.x ≡ 0
    → Room 5 t
    → print_all hello_line t
      ≡ ok tt (record (with_picture t (line_pixel t hello)) { x = 0; y = t.y + 1 })
unfolding print_all
hello_line-ok t e r =
    let printed = print_all-line_pixel hello t (refl, (refl, (refl, (refl, (refl, tt))))) r in
    let feed =
      print_char-blank (record (with_picture t (line_pixel t hello)) { x = t.x + 5 })
        (omega (arith, r, e), r.more) (omega (arith, r)) in
    rw (print_all-++ hello (0xa ∷ []) t, printed, feed.1)

-- What the kernel has done when it comes to its endless loop.
pub record Greeted (a : KernelArgs) (s s' : System) : Type 0 where
  pub terminal :
      s'.terminal
      ≡ record (with_picture (fresh a s.terminal) (line_pixel (fresh a s.terminal) hello)) {
        x = 0;
        y = 1;
      }
  pub physical :
      let d = a.memory_map_descriptor in
      s'.physical
      ≡ (init_memory_managment d.memory_map d.descriptor_size d.memory_map_size a.frame_map
          a.frame_map_size a.temp_mapping_region s.physical).1

module _ (a : KernelArgs) (s : System) (fuel string : ℕ) (screen : Screen a)
    (text : IsString s.physical.memory string hello_line) (enough : 6 < fuel) where
  start-Greeted :
      (painted : ℕ → Pixel)
      → ((k : ℕ) → a.framebuffersize / 4 ≤ k → painted k ≡ a.framebuffer k)
      → Ensures (λ _ s'. Greeted a s s') (start fuel string a painted s)
  unfolding start on_terminal on_vga start_memory init_terminal init_memory_managment
  start-Greeted painted far =
      let room = Room-fresh a s.terminal screen in
      let printed =
        print_string-all hello_line fuel s.physical.memory string (fresh a s.terminal) text enough
          (omega arith)
        ∙ hello_line-ok (fresh a s.terminal) refl room in
      rw (init_vga-black a painted s.terminal.vga far, on_terminal, on_vga, printed)
        (ensures (record { terminal = refl; physical = refl }))

  -- On a screen with a line of six columns of 40 pixels, whose framebuffer has that line and indices
  -- of 32 bits, with the greeting in memory and fuel above its length: `kernel` comes to its endless
  -- loop without a fault. The framebuffer is black but for the glyphs of "Hello" in the first five
  -- cells, nothing past its end has changed, the cursor stands at the start of the second line, and
  -- the memory manager is as `InitMemoryManagment` on the loader's arguments leaves it.
  pub kernel-Greeted : Ensures (λ _ s'. Greeted a s s') (kernel fuel string a s)
  unfolding kernel
  kernel-Greeted =
      let (_, v, e, (sized, far)) = result_of (paint_blue-Ensures a) in
      rw (e, kernel) (start-Greeted v.framebuffer far)
