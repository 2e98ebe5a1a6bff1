-- ===== src/Terminal.antt =====
-- src/Terminal/stdio.c: text on the framebuffer. `char` is signed, and is kept as its bit pattern.
pub mod Cell
pub mod Glyph
pub mod Char
pub mod Number
pub mod Text
pub mod Line
pub mod Bottom
pub mod Settings
pub mod Reach
use fur_os.Prelude.{
  ℕ, zero, suc, ◌+◌, ◌-◌, ◌*◌, ◌/◌, ◌%◌, ◌^◌, Bool, ◌&&◌, ltb, leb, ◌==◌, if◌then◌else◌, Option,
  none, some,
}
use fur_os.Command.{Outcome, ok, fault, Cmd, pure, ◌>>=◌, ◌>>◌, for_range}
use fur_os.Memory.{Memory}
use fur_os.Str.{char_at, strlen}
use fur_os.Font.{font_dot}
use fur_os.Vga.{Vga, print_pixel}

abbrev pub font_height : ℕ
font_height = 40

abbrev pub font_width : ℕ
font_width = 40

-- The file's static variables, with the driver's.
pub record Terminal : Type 0 where
  pub x : ℕ
  pub y : ℕ
  pub max_vertical : ℕ
  pub max_horizontal : ℕ
  pub bgcolor : ℕ
  pub fgcolor : ℕ
  pub vga : Vga

unfoldable pub init_terminal : ℕ → ℕ → Terminal → Terminal
init_terminal in_vertical in_horizontal t = record t {
  x = 0;
  y = 0;
  max_vertical = in_vertical / font_height;
  max_horizontal = in_horizontal / font_width;
}

-- The value of `printed`; `none` is that no branch sets it. A pattern of 0x80 or more is negative.
unfoldable pub glyph_index : ℕ → Option ℕ
glyph_index c =
    if ltb 0x40 c && ltb c 0x5b
    then some (c - 0x41 + 10)
    else (if ltb 0x2f c && ltb c 0x3a
        then some (c - 0x30)
        else (if ltb 0x60 c && ltb c 0x80 then some (c - 0x61 + 36) else none))

unfoldable pub on_vga : Cmd Vga (Unit {0}) → Cmd Terminal (Unit {0})
on_vga f t = elim (f t.vga) [ ok _ v ↦ ok tt (record t { vga = v }) | fault ↦ fault ]

-- The body of the two loops. The sums with `x` and `y` are computed in `uint32_t`.
unfoldable pub print_dot : ℕ → ℕ → ℕ → Cmd Terminal (Unit {0})
print_dot n i j t = elim (font_dot n (j * font_width + i)) [
  | none ↦ fault
  | some d ↦
      on_vga
        (print_pixel ((i + t.x * font_width % 2 ^ 32) % 2 ^ 32)
          ((j + t.y * font_height % 2 ^ 32) % 2 ^ 32) (if d then t.fgcolor else t.bgcolor))
        t
]

unfoldable pub draw_glyph : Option ℕ → Cmd Terminal (Unit {0})
draw_glyph none = λ t. fault
draw_glyph (some n) = for_range font_height 0 λ i. for_range font_width 0 λ j. print_dot n i j

unfoldable pub next_column : Cmd Terminal (Unit {0})
next_column t = ok tt (record t { x = (t.x + 1) % 2 ^ 32 })

unfoldable pub next_line : Cmd Terminal (Unit {0})
next_line t = ok tt (record t { y = (t.y + 1) % 2 ^ 32; x = 0 })

unfoldable pub wrap_line : Cmd Terminal (Unit {0})
wrap_line t = if leb t.max_horizontal t.x then next_line t else pure tt t

unfoldable pub print_char : ℕ → Cmd Terminal (Unit {0})
print_char c = do
  if c == 0x20
      then next_column
      else (if c == 0xa then next_line else (do draw_glyph (glyph_index c); next_column))
  wrap_line

-- A local array of bytes: `none` at an index was not written yet. Outside its `cap` elements, and
-- for a read of what was not written, there is a fault.
abbrev pub Array : Type 0
Array = ℕ → Option ℕ

unfoldable pub read : Array → ℕ → Cmd Terminal ℕ
read a i t = elim (a i) [ none ↦ fault | some c ↦ ok c t ]

-- The first loop of `PrintNum` and of `PrintHex`, on fuel: `numsize` and `numstring` at its end.
-- `none` is that the fuel ran out, or a write past the `cap` elements.
unfoldable pub num_loop : (base cap : ℕ) → (ℕ → ℕ) → ℕ → ℕ → ℕ → Array → Option (ℕ × Array)
num_loop base cap digit zero number numsize numstring = none
num_loop base cap digit (suc fuel) number numsize numstring =
    let rest =
      num_loop base cap digit fuel (number / base) ((numsize + 1) % 256)
        (λ k. if k == numsize then some (digit (number % base)) else numstring k) in
    if number == 0 then some (numsize, numstring) else (if ltb numsize cap then rest else none)

-- The second loop: `for (i = numsize; i > 0; i--) PrintChar(numstring[i - 1]);`
unfoldable pub print_back : ℕ → Array → Cmd Terminal (Unit {0})
print_back zero numstring = pure tt
print_back (suc i) numstring = do c ← read numstring i; print_char c; print_back i numstring

unfoldable pub print_array : Option (ℕ × Array) → Cmd Terminal (Unit {0})
print_array none t = fault
print_array (some (numsize, numstring)) t = print_back numsize numstring t

-- `(uint8_t)(number % 10) + '0'`
unfoldable pub decimal_digit : ℕ → ℕ
decimal_digit d = (d + b'0') % 256

unfoldable pub hex_digit : ℕ → ℕ
hex_digit d = if ltb d 10 then (d + b'0') % 256 else (d + 55) % 256

unfoldable pub print_num : ℕ → Cmd Terminal (Unit {0})
print_num number =
    if number == 0
    then print_char b'0'
    else print_array (num_loop 10 10 decimal_digit 11 number 0 (λ k. none))

unfoldable pub print_hex : ℕ → Cmd Terminal (Unit {0})
print_hex number =
    if number == 0
    then print_char b'0'
    else print_array (num_loop 16 16 hex_digit 17 number 0 (λ k. none))

-- `for (int i = 0; i < stringlen; i++) PrintChar(string[i]);`, on the rounds left.
unfoldable pub print_string_loop : Memory → ℕ → ℕ → ℕ → Cmd Terminal (Unit {0})
print_string_loop m string zero i = pure tt
print_string_loop m string (suc left) i =
    print_char (char_at m (string + i)) >> print_string_loop m string left (i + 1)

unfoldable pub print_string : ℕ → Memory → ℕ → Cmd Terminal (Unit {0})
print_string fuel m string t = elim (strlen fuel m string) [
  | none ↦ fault
  | some stringlen ↦ print_string_loop m string stringlen 0 t
]
