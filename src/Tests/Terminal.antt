-- ===== src/Tests/Terminal.antt =====
-- The terminal on a screen of two lines of three characters.
use fur_os.Prelude.{
  ℕ, ◌*◌, ◌/◌, ◌<◌, ◌≡◌, ◌≤◌, ◌⊎◌, refl, ltb, ◌==◌, if◌then◌else◌, none, some, List, [], ◌∷◌, ◌++◌,
  replicate, arith,
}
use mathlib.Core.Option
use fur_os.Command.{ok, fault}
use fur_os.Command.Ensures.{Ensures}
use fur_os.Memory.{Memory}
use fur_os.Vga.{Pixel, pixel_of, Vga, init_vga}
use fur_os.Vga.Plot.{init_vga-Ensures}
use fur_os.Terminal.{
  Terminal, init_terminal, num_loop, decimal_digit, print_char, print_num, print_hex, print_string,
}
use fur_os.Terminal.Cell.{OnScreen, with_picture}
use fur_os.Terminal.Char.{
  CursorFits, advance, glyph_pixel, glyph_of, print_char-Drawn, print_char-blank, print_char-other,
}
use fur_os.Terminal.Number.{IsNumeral, print_all, print_num-IsNumeral, print_hex-IsNumeral}
use fur_os.Terminal.Line.{Room, line_pixel, print_all-line_pixel}
use fur_os.Terminal.Text.{print_string-all}
use fur_os.Terminal.Settings.{SameScreen}
use fur_os.Terminal.Reach.{Reach, here, after, char, FitsScreen, Reach-OnScreen}
use fur_os.Terminal.Bottom.{print_all-bottom}

abbrev black : Pixel
black = record { blue = 0; green = 0; red = 0; reserved = 0 }

abbrev vga : Vga
vga = record { framebuffer = λ k. black; size = 4 * 120 * 80; pixel_per_scanline = 120 }

abbrev terminal : Terminal
terminal = record {
  x = 2;
  y = 0;
  max_vertical = 2;
  max_horizontal = 3;
  bgcolor = 0;
  fgcolor = 0xffffff;
  vga = vga;
}

terminal-OnScreen : OnScreen terminal
terminal-OnScreen = record { in_line = omega arith; in_buffer = omega arith; in_word = omega arith }

terminal-CursorFits : CursorFits terminal
terminal-CursorFits = (omega arith, omega arith)

print_char-Drawn_example :
    Ensures
      (λ _ t'.
        (picture : ℕ → Pixel) × (t' ≡ advance (with_picture terminal picture))
        × ((k : ℕ) → picture k ≡ glyph_pixel terminal (glyph_of b'Q') k))
      (print_char b'Q' terminal)
print_char-Drawn_example = print_char-Drawn b'Q' terminal refl terminal-OnScreen terminal-CursorFits

print_char-other_example : print_char b'!' terminal ≡ fault
print_char-other_example = print_char-other b'!' terminal refl (omega arith) (omega arith)

print_num-IsNumeral_example :
    (cs : List ℕ) × IsNumeral 10 10 4294967295 cs
    × ((t : Terminal) → print_num 4294967295 t ≡ print_all cs t)
print_num-IsNumeral_example = print_num-IsNumeral 4294967295 (omega arith)

print_hex-IsNumeral_example :
    (cs : List ℕ) × IsNumeral 16 16 0xffffffff40000000 cs
    × ((t : Terminal) → print_hex 0xffffffff40000000 t ≡ print_all cs t)
print_hex-IsNumeral_example = print_hex-IsNumeral 0xffffffff40000000 (omega arith)

abbrev text : Memory
text a = if a == 16 then b'O' else (if a == 17 then b'K' else 0)

print_string-all_example : print_string 3 text 16 terminal ≡ print_all (b'O' ∷ b'K' ∷ []) terminal
print_string-all_example =
    print_string-all (b'O' ∷ b'K' ∷ []) 3 text 16 terminal
      (refl, omega arith, (refl, omega arith, refl)) (omega arith) (omega arith)

init_vga-Ensures_example :
    Ensures
      (λ _ v'.
        (v'.size ≡ 64)
        × (v'.pixel_per_scanline ≡ 4)
        × ((k : ℕ) → v'.framebuffer k ≡ (if ltb k (64 / 4) then pixel_of 0x000000 else black)))
      (init_vga (λ k. black) 64 4 vga)
init_vga-Ensures_example = init_vga-Ensures (λ k. black) 64 4 vga

-- The digits that `PrintNum` leaves for 1234, the last one first.
digits_1234 :
    Option.map (λ r. r.1 0) (num_loop 10 10 decimal_digit 11 1234 0 (λ k. none)) ≡ some (some b'4')
unfolding num_loop decimal_digit
digits_1234 = refl

-- The terminal with the cursor at the start of the line.
abbrev line_start : Terminal
line_start = record terminal { x = 0 }

line_start-Room : Room 2 line_start
line_start-Room = record {
  columns = omega arith;
  lines = omega arith;
  in_buffer = omega arith;
  in_word = omega arith;
  more = omega arith;
}

print_all-line_pixel_example :
    print_all (b'O' ∷ b'K' ∷ []) line_start
    ≡ ok tt (record (with_picture line_start (line_pixel line_start (b'O' ∷ b'K' ∷ []))) { x = 2 })
print_all-line_pixel_example =
    print_all-line_pixel (b'O' ∷ b'K' ∷ []) line_start (refl, (refl, tt)) line_start-Room

-- A screen of 120 by 80 pixels.
terminal-FitsScreen : FitsScreen 80 120 terminal
terminal-FitsScreen = record {
  some_column = omega arith;
  in_line = omega arith;
  in_buffer = omega arith;
  in_word = omega arith;
}

abbrev started : Terminal
started = record {
  x = 0;
  y = 0;
  max_vertical = 2;
  max_horizontal = 3;
  bgcolor = 0;
  fgcolor = 0xffffff;
  vga = vga;
}

started_lem : init_terminal 80 120 terminal ≡ started
unfolding init_terminal
started_lem = refl

started-CursorFits : CursorFits started
started-CursorFits = (omega arith, omega arith)

-- A blank and a line feed after `initTerminal`.
two_calls : Reach (init_terminal 80 120 terminal) (record started { x = 0; y = 1 })
two_calls = rw started_lem (
    after (after here (char b' ' (print_char-blank started started-CursorFits (omega arith)).0)) (
      char 0xa
        (print_char-blank (record started { x = 1 }) (omega arith, omega arith) (omega arith)).1))

Reach-OnScreen_example :
    let s = record started { x = 0; y = 1 } in
    (s.x < 120 / 40) × SameScreen (init_terminal 80 120 terminal) s × ((80 / 40 ≤ s.y) ⊎ OnScreen s)
Reach-OnScreen_example =
    Reach-OnScreen 80 120 terminal (record started { x = 0; y = 1 }) terminal-FitsScreen two_calls

print_all-bottom_example :
    print_all (replicate (80 / 40) 0xa ++ b'A' ∷ []) (init_terminal 80 120 terminal) ≡ fault
print_all-bottom_example =
    print_all-bottom 80 120 b'A' terminal refl (omega arith) (omega arith) (omega arith)
      (omega arith)
