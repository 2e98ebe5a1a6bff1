-- ===== src/Terminal/Settings.antt =====
-- What each function of the terminal leaves as it was, and where it leaves the cursor.
use fur_os.Prelude.{
  ℕ, zero, suc, ◌+◌, ◌*◌, ◌/◌, ◌%◌, ◌^◌, ◌<◌, ◌≡◌, refl, ◌∙◌, ◌⊎◌, inl, inr, true, false, leb, ◌==◌,
  if◌then◌else◌, Option, none, some, arith, Bool-cases, Option-cases, ltb,
}
use fur_os.Command.{Outcome, ok, fault, Cmd, ◌>>◌}
use fur_os.Command.OrFault.{OrFault, good, bad, OrFault-bind, for_range-OrFault}
use fur_os.Memory.{Memory}
use fur_os.Str.{strlen}
use fur_os.Font.{font_dot}
use fur_os.Vga.{Pixel, Vga, set_pixel, print_pixel}
use fur_os.Terminal.{
  Terminal, glyph_index, on_vga, print_dot, draw_glyph, next_column, next_line, wrap_line,
  print_char, Array, read, print_back, print_array, print_num, print_hex, print_string_loop,
  print_string,
}

-- The settings of the screen: all of the state but the cursor and the picture.
pub record SameScreen (t t' : Terminal) : Type 0 where
  pub max_vertical : t'.max_vertical ≡ t.max_vertical
  pub max_horizontal : t'.max_horizontal ≡ t.max_horizontal
  pub bgcolor : t'.bgcolor ≡ t.bgcolor
  pub fgcolor : t'.fgcolor ≡ t.fgcolor
  pub size : t'.vga.size ≡ t.vga.size
  pub pixel_per_scanline : t'.vga.pixel_per_scanline ≡ t.vga.pixel_per_scanline

-- The cursor is within its line.
abbrev pub InLine : Terminal → Type 0
InLine t = (t.x ≡ 0) ⊎ (t.x < t.max_horizontal)

pub SameScreen-refl : (t : Terminal) → SameScreen t t
SameScreen-refl t = record {
  max_vertical = refl;
  max_horizontal = refl;
  bgcolor = refl;
  fgcolor = refl;
  size = refl;
  pixel_per_scanline = refl;
}

-- A command on the driver that keeps its settings.
abbrev SameVga : Vga → Vga → Type 0
SameVga v v' = (v'.size ≡ v.size) × (v'.pixel_per_scanline ≡ v.pixel_per_scanline)

set_pixel-OrFault : (i : ℕ) (p : Pixel) (v : Vga) → OrFault (λ _ v'. SameVga v v') (set_pixel i p v)
unfolding set_pixel
set_pixel-OrFault i p v = elim (Bool-cases (ltb i (v.size / 4))) [
  | inl within ↦ rw within (good (refl, refl))
  | inr out ↦ rw out bad
]

on_vga-OrFault :
    (t s : Terminal) (f : Cmd Vga (Unit {0})) (r : Outcome Vga (Unit {0}))
    → f s.vga ≡ r
    → OrFault (λ _ v'. SameVga s.vga v') r
    → SameScreen t s
    → OrFault (λ _ s'. SameScreen t s') (on_vga f s)
unfolding on_vga
on_vga-OrFault t s f (ok a v) e (good (sized, lined)) same =
    rw (e, on_vga)
      (good (record {
        max_vertical = same.max_vertical;
        max_horizontal = same.max_horizontal;
        bgcolor = same.bgcolor;
        fgcolor = same.fgcolor;
        size = sized ∙ same.size;
        pixel_per_scanline = lined ∙ same.pixel_per_scanline;
      }))
on_vga-OrFault t s f fault e h same = rw (e, on_vga) bad

print_dot-OrFault :
    (t : Terminal) (n i j : ℕ) (s : Terminal)
    → SameScreen t s
    → OrFault (λ _ s'. SameScreen t s') (print_dot n i j s)
unfolding print_dot print_pixel
print_dot-OrFault t n i j s same = elim (Option-cases (font_dot n (j * 40 + i))) [
  | inl none_there ↦ rw (none_there, print_dot) bad
  | inr (d, there) ↦
      rw (there, print_dot) (on_vga-OrFault t s _ _ refl (set_pixel-OrFault _ _ s.vga) same)
]

draw_glyph-OrFault :
    (t : Terminal) (g : Option ℕ) (s : Terminal)
    → SameScreen t s
    → OrFault (λ _ s'. SameScreen t s') (draw_glyph g s)
unfolding draw_glyph
draw_glyph-OrFault t none s same = bad
draw_glyph-OrFault t (some n) s same =
    for_range-OrFault (SameScreen t) _
      (λ i s' h.
        for_range-OrFault (SameScreen t) (print_dot n i) (print_dot-OrFault t n i) 40 0 s' h)
      40 0 s same

-- The settings are those of `t`, and the cursor is within its line.
abbrev pub Within : Terminal → Terminal → Type 0
Within t s = SameScreen t s × InLine s

SameScreen-moved :
    (t s : Terminal) (x y : ℕ) → SameScreen t s → SameScreen t (record s { x = x; y = y })
SameScreen-moved t s x y same = record {
  max_vertical = same.max_vertical;
  max_horizontal = same.max_horizontal;
  bgcolor = same.bgcolor;
  fgcolor = same.fgcolor;
  size = same.size;
  pixel_per_scanline = same.pixel_per_scanline;
}

next_column-OrFault :
    (t s : Terminal) → SameScreen t s → OrFault (λ _ s'. SameScreen t s') (next_column s)
unfolding next_column
next_column-OrFault t s same = good (SameScreen-moved t s ((s.x + 1) % 2 ^ 32) s.y same)

next_line-OrFault :
    (t s : Terminal) → SameScreen t s → OrFault (λ _ s'. SameScreen t s') (next_line s)
unfolding next_line
next_line-OrFault t s same = good (SameScreen-moved t s 0 ((s.y + 1) % 2 ^ 32) same)

wrap_line-Within : (t s : Terminal) → SameScreen t s → OrFault (λ _ s'. Within t s') (wrap_line s)
unfolding wrap_line next_line
wrap_line-Within t s same = elim (Bool-cases (leb s.max_horizontal s.x)) [
  | inl full ↦ rw full (good (SameScreen-moved t s 0 ((s.y + 1) % 2 ^ 32) same, inl refl))
  | inr room ↦ rw room (good (same, inr (ground arith)))
]

pub print_char-Within :
    (t : Terminal) (c : ℕ) (s : Terminal)
    → Within t s
    → OrFault (λ _ s'. Within t s') (print_char c s)
unfolding print_char
print_char-Within t c s (same, _) =
    OrFault-bind (body (Bool-cases (c == 0x20)) (Bool-cases (c == 0xa)))
      (λ _ s'. wrap_line-Within t s')
  where
    body :
        ((c == 0x20) ≡ true) ⊎ ((c == 0x20) ≡ false)
        → ((c == 0xa) ≡ true) ⊎ ((c == 0xa) ≡ false)
        → OrFault
            (λ _ s'. SameScreen t s')
            ((if c == 0x20
                then next_column
                else (if c == 0xa then next_line else (draw_glyph (glyph_index c) >> next_column)))
              s)
    body (inl blank) _ = rw blank (next_column-OrFault t s same)
    body (inr other) (inl feed) = rw (other, feed) (next_line-OrFault t s same)
    body (inr other) (inr glyph) =
        rw (other, glyph)
          (OrFault-bind (draw_glyph-OrFault t (glyph_index c) s same)
            (λ _ s'. next_column-OrFault t s'))

print_back-Within :
    (t : Terminal) (i : ℕ) (a : Array) (s : Terminal)
    → Within t s
    → OrFault (λ _ s'. Within t s') (print_back i a s)
unfolding print_back read
print_back-Within t zero a s h = good h
print_back-Within t (suc i) a s h = elim (Option-cases (a i)) [
  | inl unset ↦ rw (unset, read) bad
  | inr (c, set) ↦
      rw (set, read) (OrFault-bind (print_char-Within t c s h) (λ _ s'. print_back-Within t i a s'))
]

print_array-Within :
    (t : Terminal) (r : Option (ℕ × Array)) (s : Terminal)
    → Within t s
    → OrFault (λ _ s'. Within t s') (print_array r s)
unfolding print_array
print_array-Within t none s h = bad
print_array-Within t (some (numsize, numstring)) s h = print_back-Within t numsize numstring s h

pub print_num-Within :
    (t : Terminal) (n : ℕ) (s : Terminal)
    → Within t s
    → OrFault (λ _ s'. Within t s') (print_num n s)
unfolding print_num
print_num-Within t n s h = elim (Bool-cases (n == 0)) [
  | inl none_left ↦ rw none_left (print_char-Within t b'0' s h)
  | inr digits ↦ rw digits (print_array-Within t _ s h)
]

pub print_hex-Within :
    (t : Terminal) (n : ℕ) (s : Terminal)
    → Within t s
    → OrFault (λ _ s'. Within t s') (print_hex n s)
unfolding print_hex
print_hex-Within t n s h = elim (Bool-cases (n == 0)) [
  | inl none_left ↦ rw none_left (print_char-Within t b'0' s h)
  | inr digits ↦ rw digits (print_array-Within t _ s h)
]

print_string_loop-Within :
    (t : Terminal) (m : Memory) (a n i : ℕ) (s : Terminal)
    → Within t s
    → OrFault (λ _ s'. Within t s') (print_string_loop m a n i s)
unfolding print_string_loop
print_string_loop-Within t m a zero i s h = good h
print_string_loop-Within t m a (suc n) i s h =
    OrFault-bind (print_char-Within t _ s h) (λ _ s'. print_string_loop-Within t m a n (i + 1) s')

pub print_string-Within :
    (t : Terminal) (fuel : ℕ) (m : Memory) (a : ℕ) (s : Terminal)
    → Within t s
    → OrFault (λ _ s'. Within t s') (print_string fuel m a s)
unfolding print_string
print_string-Within t fuel m a s h = elim (Option-cases (strlen fuel m a)) [
  | inl endless ↦ rw (endless, print_string) bad
  | inr (n, e) ↦ rw (e, print_string) (print_string_loop-Within t m a n 0 s h)
]
