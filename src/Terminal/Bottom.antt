-- ===== src/Terminal/Bottom.antt =====
-- Below the last row: `PrintChar` does not scroll, and does not look at `max_vertical`.
use fur_os.Prelude.{
  ℕ, zero, suc, ◌+◌, ◌*◌, ◌/◌, ◌%◌, ◌^◌, ◌≤◌, ◌<◌, ◌≡◌, refl, ◌∙◌, true, false, ltb, [], ◌∷◌, ◌++◌,
  replicate, arith,
}
use fur_os.Command.{ok, fault, for_range}
use fur_os.Font.Table.{font_dot-in_range}
use fur_os.Vga.{set_pixel, print_pixel}
use fur_os.Terminal.{Terminal, init_terminal, on_vga, print_dot, draw_glyph, print_char}
use fur_os.Terminal.Char.{
  is_alphanumeric, glyph_of, glyph_index-alphanumeric, alphanumeric_tests, print_char-blank,
}
use fur_os.Terminal.Number.{print_all}
use fur_os.Terminal.Text.{print_all-++}

-- The first dot of the cursor's cell is past the framebuffer, at an index of 32 bits.
record IsBelow (t : Terminal) : Type 0 where
  past : t.vga.size / 4 ≤ t.x * 40 + t.y * 40 * t.vga.pixel_per_scanline
  index : t.x * 40 + t.y * 40 * t.vga.pixel_per_scanline < 2 ^ 32
  row : t.y * 40 < 2 ^ 32

print_dot-below : (t : Terminal) (n : ℕ) → IsBelow t → n < 62 → print_dot n 0 0 t ≡ fault
unfolding print_dot on_vga print_pixel set_pixel
print_dot-below t n b hn =
    let (d, e) = font_dot-in_range n 0 hn (omega arith) in
    let w = t.vga.pixel_per_scanline in
    let column : (0 + t.x * 40 % 2 ^ 32) % 2 ^ 32 ≡ t.x * 40 = omega (arith, b.index) in
    let row : (0 + t.y * 40 % 2 ^ 32) % 2 ^ 32 ≡ t.y * 40 = omega (arith, b.row) in
    let index : (t.x * 40 + t.y * 40 * w % 2 ^ 32) % 2 ^ 32 ≡ t.x * 40 + t.y * 40 * w =
      omega (arith, b.index) in
    let out : ltb (t.x * 40 + t.y * 40 * w) (t.vga.size / 4) ≡ false = ground (arith, b.past) in
    rw (e, print_dot) (rw (column, row) (rw (index, out, on_vga)))

print_char-below :
    (c : ℕ) (t : Terminal) → is_alphanumeric c ≡ true → IsBelow t → print_char c t ≡ fault
unfolding print_char draw_glyph for_range
print_char-below c t h b =
    let (space, line) = alphanumeric_tests c h in
    let (glyph, low) = glyph_index-alphanumeric c h in
    rw (space, line, glyph, draw_glyph) (rw (print_dot-below t (glyph_of c) b low))

feeds :
    (n : ℕ) (t : Terminal)
    → t.x ≡ 0
    → 0 < t.max_horizontal
    → t.y + n + 1 < 2 ^ 32
    → print_all (replicate n 0xa) t ≡ ok tt (record t { y = t.y + n })
unfolding print_all
feeds zero t e wide fits = let y : t.y + 0 ≡ t.y = omega arith in rw y
feeds (suc n) t e wide fits =
    let fed = (print_char-blank t (omega arith, omega arith) wide).1 in
    let y : t.y + 1 + n ≡ t.y + suc n = omega arith in
    rw fed (feeds n (record t { x = 0; y = t.y + 1 }) refl wide (omega arith) ∙ rw (y, e))

-- On a screen whose framebuffer has no pixel below its rows of cells, and with indices of 32 bits:
-- after `initTerminal` and a line feed for each row, the next letter or digit faults, since it is
-- drawn past the framebuffer.
pub print_all-bottom :
    (vertical horizontal c : ℕ) (t : Terminal)
    → is_alphanumeric c ≡ true
    → 40 ≤ horizontal
    → t.vga.size / 4 ≤ vertical / 40 * 40 * t.vga.pixel_per_scanline
    → vertical / 40 * 40 * t.vga.pixel_per_scanline < 2 ^ 32
    → vertical + 2 < 2 ^ 32
    → print_all (replicate (vertical / 40) 0xa ++ c ∷ []) (init_terminal vertical horizontal t)
      ≡ fault
unfolding init_terminal print_all
print_all-bottom vertical horizontal c t h wide past index row =
    let n = vertical / 40 in
    let t0 = init_terminal vertical horizontal t in
    let below =
      print_char-below c (record t0 { y = 0 + n }) h
        (record { past = omega arith; index = omega arith; row = omega arith }) in
    rw (
      print_all-++ (replicate n 0xa) (c ∷ []) t0,
      feeds n t0 refl (omega arith) (omega arith),
      below,
    )
