-- ===== src/Terminal/Cell.antt =====
-- Drawing one glyph: its cell shows the glyph, and no other pixel changes.
use fur_os.Prelude.{
  ℕ, zero, suc, ap, ◌+◌, ◌*◌, ◌/◌, ◌%◌, ◌^◌, ◌≤◌, ◌<◌, ◌≡◌, Bool, ◌==◌, if◌then◌else◌, none, some,
  arith,
}
use fur_os.Command.{ok}
use fur_os.Font.{font_dot}
use fur_os.Font.Table.{font_dot-in_range}
use fur_os.Vga.{Pixel, pixel_of, print_pixel}
use fur_os.Vga.Plot.{print_pixel-ok}
use fur_os.Terminal.{Terminal, on_vga, print_dot}

mul_mono : (w a b : ℕ) → a ≤ b → a * w ≤ b * w
mul_mono w a b h = grind arith

le_mul : (w a : ℕ) → 0 < w → a ≤ a * w
le_mul w a h = grind arith

pub cell_unique : (w x y a b : ℕ) → x < w → a < w → x + y * w ≡ a + b * w → (x ≡ a) × (y ≡ b)
cell_unique w x zero a zero p q e = omega arith
cell_unique w x zero a (suc b) p q e = absurd (omega arith)
cell_unique w x (suc y) a zero p q e = absurd (omega arith)
cell_unique w x (suc y) a (suc b) p q e =
    let (h, k) = cell_unique w x y a b p q (omega arith) in (h, ap suc k)

-- The cell of the cursor lies on the screen: within a line, and its last pixel within the
-- framebuffer, whose indices fit 32 bits.
pub record OnScreen (t : Terminal) : Type 0 where
  pub in_line : t.x * 40 + 40 ≤ t.vga.pixel_per_scanline
  pub in_buffer : t.x * 40 + 39 + (t.y * 40 + 39) * t.vga.pixel_per_scanline < t.vga.size / 4
  pub in_word : t.vga.size / 4 ≤ 2 ^ 32

-- The state with another picture.
abbrev pub with_picture : Terminal → (ℕ → Pixel) → Terminal
with_picture t fb = record t { vga = record t.vga { framebuffer = fb } }

in_cell :
    (t : Terminal) (i j : ℕ)
    → OnScreen t
    → i < 40
    → j < 40
    → i + t.x * 40 + (j + t.y * 40) * t.vga.pixel_per_scanline < t.vga.size / 4
in_cell t i j on hi hj =
    omega
      (arith, on, mul_mono t.vga.pixel_per_scanline (j + t.y * 40) (t.y * 40 + 39) (omega arith))

row_in_word : (t : Terminal) (j : ℕ) → OnScreen t → j < 40 → j + t.y * 40 < 2 ^ 32
row_in_word t j on hj =
    omega (arith, on, le_mul t.vga.pixel_per_scanline (t.y * 40 + 39) (omega (arith, on)))

-- The colour of the dot at column `i` and row `j` of glyph `n`.
unfoldable pub shade : Terminal → ℕ → ℕ → ℕ → Pixel
shade t n i j = elim (font_dot n (j * 40 + i)) [
  | none ↦ pixel_of t.bgcolor
  | some d ↦ pixel_of (if d then t.fgcolor else t.bgcolor)
]

-- The pixel at column `i` and row `j` of the cursor's cell.
abbrev pub cell_index : Terminal → ℕ → ℕ → ℕ
cell_index t i j = i + t.x * 40 + (j + t.y * 40) * t.vga.pixel_per_scanline

shade_lem :
    (t : Terminal) (n i j : ℕ) (d : Bool)
    → font_dot n (j * 40 + i) ≡ some d
    → shade t n i j ≡ pixel_of (if d then t.fgcolor else t.bgcolor)
unfolding shade
shade_lem t n i j d e = rw (e, shade)

col_fits :
    (t : Terminal) (i : ℕ) → OnScreen t → i < 40 → (i + t.x * 40 % 2 ^ 32) % 2 ^ 32 ≡ i + t.x * 40
col_fits t i on hi = omega (arith, in_cell t i 0 on hi (omega arith), on)

row_fits :
    (t : Terminal) (j : ℕ) → OnScreen t → j < 40 → (j + t.y * 40 % 2 ^ 32) % 2 ^ 32 ≡ j + t.y * 40
row_fits t j on hj = omega (arith, row_in_word t j on hj)

pub print_dot-ok :
    (t : Terminal) (fb : ℕ → Pixel) (n i j : ℕ)
    → OnScreen t
    → n < 62
    → i < 40
    → j < 40
    → print_dot n i j (with_picture t fb)
      ≡ ok tt (with_picture t (λ k. if k == cell_index t i j then shade t n i j else fb k))
unfolding print_dot
print_dot-ok t fb n i j on hn hi hj =
    let (d, e) = font_dot-in_range n (j * 40 + i) hn (omega arith) in
    rw (e, print_dot)
      (rw (col_fits t i on hi, row_fits t j on hj, shade_lem t n i j d e)
        (drawn (if d then t.fgcolor else t.bgcolor)))
  where
    drawn :
        (color : ℕ)
        → on_vga (print_pixel (i + t.x * 40) (j + t.y * 40) color) (with_picture t fb)
          ≡ ok tt (with_picture t (λ k. if k == cell_index t i j then pixel_of color else fb k))
    drawn color =
        unfold on_vga in
        rw (
          print_pixel-ok (i + t.x * 40) (j + t.y * 40) color (record t.vga { framebuffer = fb })
              (in_cell t i j on hi hj) on.in_word,
          on_vga,
        )
