-- ===== src/Terminal/Reach.antt =====
-- The states that the terminal can come to, by calls of its functions in any order.
use fur_os.Prelude.{
  ℕ, ◌+◌, ◌*◌, ◌/◌, ◌^◌, ◌≤◌, ◌<◌, ◌≡◌, refl, inl, inr, ◌⊎◌, ltb, Bool-cases, arith,
}
use fur_os.Command.{ok}
use fur_os.Command.OrFault.{OrFault-ok}
use fur_os.Memory.{Memory}
use fur_os.Terminal.{Terminal, init_terminal, print_char, print_num, print_hex, print_string}
use fur_os.Terminal.Cell.{OnScreen}
use fur_os.Terminal.Settings.{
  SameScreen, InLine, SameScreen-refl, Within, print_char-Within, print_num-Within,
  print_hex-Within, print_string-Within,
}

-- One call that returns, of any function of the terminal.
pub data Call (s s' : Terminal) : Type 0 where
  char : (c : ℕ) → print_char c s ≡ ok tt s' → Call s s'
  num : (n : ℕ) → print_num n s ≡ ok tt s' → Call s s'
  hex : (n : ℕ) → print_hex n s ≡ ok tt s' → Call s s'
  string : (fuel : ℕ) (m : Memory) (a : ℕ) → print_string fuel m a s ≡ ok tt s' → Call s s'

pub data Reach (s : Terminal) : Terminal → Type 0 where
  here : Reach s s
  after : {u v : Terminal} → Reach s u → Call u v → Reach s v

Call-Within : (t s s' : Terminal) → Within t s → Call s s' → Within t s'
Call-Within t s s' h (char c e) = OrFault-ok (print_char-Within t c s h) e
Call-Within t s s' h (num n e) = OrFault-ok (print_num-Within t n s h) e
Call-Within t s s' h (hex n e) = OrFault-ok (print_hex-Within t n s h) e
Call-Within t s s' h (string fuel m a e) = OrFault-ok (print_string-Within t fuel m a s h) e

Reach-Within : {t s : Terminal} → InLine t → Reach t s → Within t s
Reach-Within {t = t} h here = (SameScreen-refl t, h)
Reach-Within {t = t} h (after r c) = Call-Within t _ _ (Reach-Within h r) c

rows_below : (w y n s : ℕ) → y < n → n * 40 * w ≤ s → (y * 40 + 40) * w ≤ s
rows_below w y n s h le = grind arith

last_row : (w y : ℕ) → (y * 40 + 39) * w + w ≡ (y * 40 + 40) * w
last_row w y = grind arith

-- A screen of whole lines and rows of cells, with a framebuffer for all of them.
pub record FitsScreen (vertical horizontal : ℕ) (t : Terminal) : Type 0 where
  pub some_column : 40 ≤ horizontal
  pub in_line : horizontal ≤ t.vga.pixel_per_scanline
  pub in_buffer : vertical / 40 * 40 * t.vga.pixel_per_scanline ≤ t.vga.size / 4
  pub in_word : t.vga.size / 4 ≤ 2 ^ 32

-- After `initTerminal` on the resolutions of a screen that the framebuffer holds, and any calls of
-- `PrintChar`, `PrintNum`, `PrintHex` and `PrintString` that return, in any order: the cursor is in
-- its line and the settings are as they were set; and the cursor is past the screen's last row, or its
-- cell lies on the screen.
pub Reach-OnScreen :
    (vertical horizontal : ℕ) (t s : Terminal)
    → FitsScreen vertical horizontal t
    → Reach (init_terminal vertical horizontal t) s
    → (s.x < horizontal / 40)
      × SameScreen (init_terminal vertical horizontal t) s
      × ((vertical / 40 ≤ s.y) ⊎ OnScreen s)
unfolding init_terminal
Reach-OnScreen vertical horizontal t s fits r =
    let (same, line) = Reach-Within (inl refl) r in
    let w = t.vga.pixel_per_scanline in
    let column : s.x < horizontal / 40 =
      omega (arith, line, same.max_horizontal, fits.some_column) in
    (
      column,
      same,
      elim (Bool-cases (ltb s.y (vertical / 40))) [
        | inl above ↦
            let row =
              rows_below w s.y (vertical / 40) (t.vga.size / 4) (ground arith) fits.in_buffer in
            inr (record {
              in_line = omega (arith, fits.in_line, same.pixel_per_scanline);
              in_buffer =
                  rw (same.pixel_per_scanline, same.size)
                    (omega (arith, last_row w s.y, row, fits.in_line));
              in_word = rw same.size fits.in_word;
            })
        | inr below ↦ inl (ground arith)
      ],
    )
