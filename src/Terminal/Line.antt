-- ===== src/Terminal/Line.antt =====
-- Letters and digits that `PrintChar` puts on one line.
use fur_os.Prelude.{
  ℕ, suc, ◌+◌, ◌-◌, ◌*◌, ◌/◌, ◌%◌, ◌^◌, ◌≤◌, ◌<◌, ◌≡◌, ◌∙◌, ap, inl, inr, Bool, true, false, ◌&&◌,
  ltb, leb, if◌then◌else◌, Option, none, some, List, [], ◌∷◌, length, get_elem?, arith, Bool-cases,
}
use mathlib.Core.Path.{fun_ext}
use fur_os.Command.{ok}
use fur_os.Command.Ensures.{result_of}
use fur_os.Vga.{Pixel}
use fur_os.Terminal.{Terminal, print_char}
use fur_os.Terminal.Cell.{OnScreen, with_picture, shade}
use fur_os.Terminal.Char.{
  is_alphanumeric, advance, CursorFits, glyph_of, glyph_pixel, print_char-Drawn,
}
use fur_os.Terminal.Glyph.{in_cell_of}
use fur_os.Terminal.Number.{print_all}

abbrev pub AllAlphanumeric : List ℕ → Type 0
AllAlphanumeric [] = Unit {0}
AllAlphanumeric (c ∷ cs) = (is_alphanumeric c ≡ true) × AllAlphanumeric cs

-- The cells of the next `n` characters and one more lie on the cursor's line, and the line on the
-- screen.
pub record Room (n : ℕ) (t : Terminal) : Type 0 where
  pub columns : t.x + n < t.max_horizontal
  pub lines : t.max_horizontal * 40 ≤ t.vga.pixel_per_scanline
  pub in_buffer : (t.y * 40 + 40) * t.vga.pixel_per_scanline ≤ t.vga.size / 4
  pub in_word : t.vga.size / 4 ≤ 2 ^ 32
  pub more : t.y + 2 < 2 ^ 32

-- One character, as a function on the state.
abbrev typed_char : ℕ → Terminal → Terminal
typed_char c t = advance (with_picture t (glyph_pixel t (glyph_of c)))

mul_suc_le : (w y : ℕ) → (y * 40 + 39) * w + w ≡ (y * 40 + 40) * w
mul_suc_le w y = grind arith

Room-OnScreen : (n : ℕ) (t : Terminal) → Room (suc n) t → OnScreen t
Room-OnScreen n t r = record {
  in_line = omega (arith, r);
  in_buffer = omega (arith, r, mul_suc_le t.vga.pixel_per_scanline t.y);
  in_word = r.in_word;
}

width_in_word : (w y s : ℕ) → (y * 40 + 40) * w ≤ s → w ≤ s
width_in_word w y s h = grind arith

Room-CursorFits : (n : ℕ) (t : Terminal) → Room (suc n) t → CursorFits t
Room-CursorFits n t r = (
  omega (arith, r, width_in_word t.vga.pixel_per_scanline t.y (t.vga.size / 4) r.in_buffer),
  r.more,
)

print_char-typed_char :
    (n c : ℕ) (t : Terminal)
    → Room (suc n) t
    → is_alphanumeric c ≡ true
    → print_char c t ≡ ok tt (typed_char c t)
print_char-typed_char n c t r h =
    let (a, s, e, (picture, at, all)) =
      result_of (print_char-Drawn c t h (Room-OnScreen n t r) (Room-CursorFits n t r)) in
    e ∙ ap (ok tt) (at ∙ ap (λ p. advance (with_picture t p)) (fun_ext all))

-- The state after a character that does not end the line.
abbrev next_cell : ℕ → Terminal → Terminal
next_cell c t = record (with_picture t (glyph_pixel t (glyph_of c))) { x = t.x + 1 }

typed_char-next_cell : (n c : ℕ) (t : Terminal) → Room (suc n) t → typed_char c t ≡ next_cell c t
typed_char-next_cell n c t r =
    let room : leb t.max_horizontal (t.x + 1) ≡ false = ground (arith, r.columns) in rw room

Room-next_cell : (n c : ℕ) (t : Terminal) → Room (suc n) t → Room n (next_cell c t)
Room-next_cell n c t r = record {
  columns = omega (arith, r);
  lines = r.lines;
  in_buffer = r.in_buffer;
  in_word = r.in_word;
  more = r.more;
}

-- The dot of a character's glyph, if there is one.
abbrev pub dot_or : Terminal → Option ℕ → ℕ → ℕ → Pixel → Pixel
dot_or t none i j old = old
dot_or t (some c) i j old = shade t (glyph_of c) i j

-- From the cursor's cell on, in its line.
abbrev pub in_line_of : Terminal → ℕ → ℕ → Bool
in_line_of t X Y = leb (t.x * 40) X && (leb (t.y * 40) Y && ltb Y (t.y * 40 + 40))

-- The colour of pixel `k` when the characters of `cs` stand in the cells from the cursor's on.
abbrev pub line_pixel : Terminal → List ℕ → ℕ → Pixel
line_pixel t cs k =
    let column = k % t.vga.pixel_per_scanline in
    let row = k / t.vga.pixel_per_scanline in
    if in_line_of t column row
    then dot_or t (get_elem? cs (column / 40 - t.x)) (column % 40) (row - t.y * 40)
        (t.vga.framebuffer k)
    else t.vga.framebuffer k

line_pixel-∷ :
    (t : Terminal) (c : ℕ) (cs : List ℕ) (k : ℕ)
    → line_pixel (next_cell c t) cs k ≡ line_pixel t (c ∷ cs) k
unfolding shade
line_pixel-∷ t c cs k =
    let X = k % t.vga.pixel_per_scanline in
    let Y = k / t.vga.pixel_per_scanline in
    elim (Bool-cases (in_line_of t X Y)) [
      | inl line ↦ elim (Bool-cases (ltb X (t.x * 40 + 40))) [
        | inl here ↦
            let after : in_line_of (next_cell c t) X Y ≡ false = ground arith in
            let cell : in_cell_of t X Y ≡ true = ground arith in
            let index : X / 40 - t.x ≡ 0 = ground arith in
            let column : X % 40 ≡ X - t.x * 40 = ground arith in
            rw (after, cell, line, index, column)
        | inr later ↦
            let after : in_line_of (next_cell c t) X Y ≡ true = ground arith in
            let cell : in_cell_of t X Y ≡ false = ground arith in
            let index : X / 40 - t.x ≡ suc (X / 40 - (t.x + 1)) = ground arith in
            rw (after, cell, line, index)
      ]
      | inr off ↦
          let after : in_line_of (next_cell c t) X Y ≡ false = ground arith in
          let cell : in_cell_of t X Y ≡ false = ground arith in rw (after, cell, off)
    ]

-- Letters and digits that fit on the cursor's line, with a cell to spare: printing them one after the
-- other does not fault, draws each one's glyph in its cell, changes no other pixel, and leaves the
-- cursor behind the last.
pub print_all-line_pixel :
    (cs : List ℕ) (t : Terminal)
    → AllAlphanumeric cs
    → Room (length cs) t
    → print_all cs t ≡ ok tt (record (with_picture t (line_pixel t cs)) { x = t.x + length cs })
unfolding print_all
print_all-line_pixel [] t h r =
    let same : line_pixel t [] ≡ t.vga.framebuffer = fun_ext (λ k. ground arith) in
    let x : t.x + 0 ≡ t.x = omega arith in rw (same, x)
print_all-line_pixel (c ∷ cs) t (here, rest) r =
    let n = length cs in
    let x : t.x + 1 + n ≡ t.x + suc n = omega arith in
    rw (print_char-typed_char n c t r here, typed_char-next_cell n c t r)
      (print_all-line_pixel cs (next_cell c t) rest (Room-next_cell n c t r)
        ∙ rw (fun_ext (line_pixel-∷ t c cs), x))
