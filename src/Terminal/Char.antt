-- ===== src/Terminal/Char.antt =====
-- `PrintChar` on every character.
use fur_os.Prelude.{
  ℕ, ◌+◌, ◌-◌, ◌*◌, ◌/◌, ◌%◌, ◌^◌, ◌≤◌, ◌<◌, ◌≡◌, ◌≢◌, refl, ◌⊎◌, inl, inr, Bool, true, false, ◌&&◌,
  ◌||◌, leb, ◌==◌, if◌then◌else◌, none, some, arith, Bool-cases,
}
use native.Mathlib.Nat.{mod-lt, div-add-mod'}
use fur_os.Command.{ok, fault, ◌>>◌, and_then_assoc, for_range}
use fur_os.Command.Ensures.{Ensures, ensures, bind}
use fur_os.Font.Table.{font_dot-past}
use fur_os.Vga.{Pixel}
use fur_os.Terminal.{
  Terminal, glyph_index, draw_glyph, next_column, next_line, wrap_line, print_char, print_dot,
}
use fur_os.Terminal.Cell.{OnScreen, with_picture, shade}
use fur_os.Terminal.Glyph.{in_cell_of, Shows, draw_glyph-Drawn}

-- The characters that have a glyph: 0-9, A-Z and a-z.
abbrev pub is_alphanumeric : ℕ → Bool
is_alphanumeric c =
    (leb b'0' c && leb c b'9') || ((leb b'A' c && leb c b'Z') || (leb b'a' c && leb c b'z'))

-- The cursor one column on, at the start of the next line where the line is full.
abbrev pub advance : Terminal → Terminal
advance t = record t {
  x = if leb t.max_horizontal (t.x + 1) then 0 else t.x + 1;
  y = if leb t.max_horizontal (t.x + 1) then t.y + 1 else t.y;
}

-- The cursor's next places are numbers of 32 bits.
abbrev pub CursorFits : Terminal → Type 0
CursorFits t = (t.x + 1 < 2 ^ 32) × (t.y + 2 < 2 ^ 32)

-- Its place in the font: the digits, then the capital letters, then the small ones.
abbrev pub glyph_of : ℕ → ℕ
glyph_of c =
    if leb c b'9' then c - b'0' else (if leb c b'Z' then 10 + (c - b'A') else 36 + (c - b'a'))

pub glyph_index-alphanumeric :
    (c : ℕ) → is_alphanumeric c ≡ true → (glyph_index c ≡ some (glyph_of c)) × (glyph_of c < 62)
unfolding glyph_index
glyph_index-alphanumeric c h = ground arith

-- No other character has a glyph of the font.
glyph_index-other :
    (c : ℕ)
    → is_alphanumeric c ≡ false
    → (glyph_index c ≡ none) ⊎ ((glyph_index c ≡ some (c - 0x61 + 36)) × (62 ≤ c - 0x61 + 36))
unfolding glyph_index
glyph_index-other c h = ground arith

column-advance : (t : Terminal) → CursorFits t → (next_column >> wrap_line) t ≡ ok tt (advance t)
unfolding next_column wrap_line next_line
column-advance t f =
    let x' : (t.x + 1) % 2 ^ 32 ≡ t.x + 1 = omega arith in
    let y' : (t.y + 1) % 2 ^ 32 ≡ t.y + 1 = omega arith in
    rw (x', y')
      (elim (Bool-cases (leb t.max_horizontal (t.x + 1))) [
        | inl full ↦ rw full
        | inr room ↦ rw room
      ])

pub alphanumeric_tests :
    (c : ℕ) → is_alphanumeric c ≡ true → ((c == 0x20) ≡ false) × ((c == 0xa) ≡ false)
alphanumeric_tests c h = ground arith

-- The colour that the pixel `k` has after glyph `n` is drawn: in the cursor's cell that of the
-- glyph's dot, and elsewhere what it was.
abbrev pub glyph_pixel : Terminal → ℕ → ℕ → Pixel
glyph_pixel t n k =
    let column = k % t.vga.pixel_per_scanline in
    let row = k / t.vga.pixel_per_scanline in
    if in_cell_of t column row
    then shade t n (column - t.x * 40) (row - t.y * 40)
    else t.vga.framebuffer k

Shows-pixel :
    (t : Terminal) (n : ℕ) (picture : ℕ → Pixel) (k : ℕ)
    → OnScreen t
    → Shows t n (in_cell_of t) picture
    → picture k ≡ glyph_pixel t n k
Shows-pixel t n picture k on sh =
    let w = t.vga.pixel_per_scanline in
    let wide : 0 < w = omega (arith, on) in
    let e : k % w + k / w * w ≡ k = omega (arith, div-add-mod' k w) in
    rw e at (sh (k % w) (k / w) (mod-lt k wide))

-- On a letter or digit, with the cursor's cell on the screen and the cursor's next place within 32
-- bits, `PrintChar` does not fault: it draws the character's glyph in that cell, changes no other
-- pixel, and moves the cursor on.
pub print_char-Drawn :
    (c : ℕ) (t : Terminal)
    → is_alphanumeric c ≡ true
    → OnScreen t
    → CursorFits t
    → Ensures
        (λ _ t'.
          (picture : ℕ → Pixel) × (t' ≡ advance (with_picture t picture))
          × ((k : ℕ) → picture k ≡ glyph_pixel t (glyph_of c) k))
        (print_char c t)
unfolding print_char
print_char-Drawn c t h on fits =
    let (space, line) = alphanumeric_tests c h in
    let (glyph, low) = glyph_index-alphanumeric c h in
    rw (space, line, glyph, and_then_assoc)
      (bind (draw_glyph-Drawn t (glyph_of c) on low) (λ _ s d.
        rw (d.same_rest, column-advance (with_picture t d.picture) fits)
          (ensures (d.picture, refl, λ k. Shows-pixel t (glyph_of c) d.picture k on d.shows))))

line_feed :
    (t : Terminal)
    → CursorFits t
    → 0 < t.max_horizontal
    → (next_line >> wrap_line) t ≡ ok tt (record t { x = 0; y = t.y + 1 })
unfolding next_line wrap_line
line_feed t fits wide =
    let y' : (t.y + 1) % 2 ^ 32 ≡ t.y + 1 = omega arith in
    let room : leb t.max_horizontal 0 ≡ false = ground arith in rw (y', room)

-- With the cursor's next place within 32 bits and lines of at least one character, `PrintChar` on a
-- blank only moves the cursor on, and on a line feed only to the start of the next line.
pub print_char-blank :
    (t : Terminal)
    → CursorFits t
    → 0 < t.max_horizontal
    → (print_char b' ' t ≡ ok tt (advance t))
      × (print_char 0xa t ≡ ok tt (record t { x = 0; y = t.y + 1 }))
unfolding print_char
print_char-blank t fits wide = (column-advance t fits, line_feed t fits wide)

print_dot-past : (n i j : ℕ) (t : Terminal) → 62 ≤ n → print_dot n i j t ≡ fault
unfolding print_dot
print_dot-past n i j t h = rw (font_dot-past n (j * 40 + i) h, print_dot)

draw_glyph-past : (n : ℕ) (t : Terminal) → 62 ≤ n → draw_glyph (some n) t ≡ fault
unfolding draw_glyph for_range
draw_glyph-past n t h = rw (print_dot-past n 0 0 t h)

other_tests : (c : ℕ) → c ≢ b' ' → c ≢ 0xa → ((c == 0x20) ≡ false) × ((c == 0xa) ≡ false)
other_tests c ne ne' = ground arith

-- On a character that is no letter, digit, blank or line feed `PrintChar` faults: it uses a variable
-- that it did not set, or reads past the font.
pub print_char-other :
    (c : ℕ) (t : Terminal) → is_alphanumeric c ≡ false → c ≢ b' ' → c ≢ 0xa → print_char c t ≡ fault
unfolding print_char draw_glyph
print_char-other c t h ne ne' =
    let (space, line) = other_tests c ne ne' in
    rw (space, line)
      (elim (glyph_index-other c h) [
        | inl unset ↦ rw (unset, draw_glyph)
        | inr (set, past) ↦ rw (set, draw_glyph-past (c - 0x61 + 36) t past)
      ])
