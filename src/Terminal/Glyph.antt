-- ===== src/Terminal/Glyph.antt =====
-- The two loops that draw a glyph.
use fur_os.Prelude.{
  ℕ, ◌+◌, ◌-◌, ◌*◌, ◌<◌, ◌≡◌, ◌≢◌, refl, ◌⊎◌, inl, inr, Bool, true, false, ◌&&◌, ◌||◌, ltb, leb,
  ◌==◌, if◌then◌else◌, some, arith, ==_refl, ==_false,
}
use fur_os.Command.{for_range}
use fur_os.Command.Ensures.{Ensures, ensures, weaken, for_range-Ensures}
use fur_os.Vga.{Pixel}
use fur_os.Terminal.{Terminal, print_dot, draw_glyph}
use fur_os.Terminal.Cell.{OnScreen, with_picture, shade, cell_index, cell_unique, print_dot-ok}

-- The columns below `i` of the cursor's cell, and the rows below `j` of column `i`.
abbrev painted : Terminal → ℕ → ℕ → ℕ → ℕ → Bool
painted t i j X Y =
    leb (t.x * 40) X
    && (leb (t.y * 40) Y
        && (ltb Y (t.y * 40 + 40)
            && (ltb X (t.x * 40 + i) || (X == t.x * 40 + i && ltb Y (t.y * 40 + j)))))

-- The cursor's cell.
abbrev pub in_cell_of : Terminal → ℕ → ℕ → Bool
in_cell_of t X Y =
    leb (t.x * 40) X && (leb (t.y * 40) Y && (ltb Y (t.y * 40 + 40) && ltb X (t.x * 40 + 40)))

-- The dots of glyph `n` stand where the test holds, and the old picture elsewhere.
abbrev pub Shows : Terminal → ℕ → (ℕ → ℕ → Bool) → (ℕ → Pixel) → Type 0
Shows t n test fb =
    (X Y : ℕ)
    → X < t.vga.pixel_per_scanline
    → fb (X + Y * t.vga.pixel_per_scanline) ≡ (
        if test X Y
        then shade t n (X - t.x * 40) (Y - t.y * 40)
        else t.vga.framebuffer (X + Y * t.vga.pixel_per_scanline))

-- Only the picture has changed, and it shows the dots where the test holds.
pub record Drawn (t : Terminal) (n : ℕ) (test : ℕ → ℕ → Bool) (t' : Terminal) : Type 0 where
  pub picture : ℕ → Pixel
  pub same_rest : t' ≡ with_picture t picture
  pub shows : Shows t n test picture

module _ (t : Terminal) (n : ℕ) (on : OnScreen t) (hn : n < 62) where
  -- One more dot.
  Shows-dot :
      (i j : ℕ) (fb : ℕ → Pixel)
      → i < 40
      → j < 40
      → Shows t n (painted t i j) fb
      → Shows t n (painted t i (j + 1)) (λ k. if k == cell_index t i j then shade t n i j else fb k)
  Shows-dot i j fb hi hj sh X Y hX = elim (here_or_not X Y i j) [
    | inl (x, y) ↦
        let at : (X + Y * t.vga.pixel_per_scanline == cell_index t i j) ≡ true =
          rw (x, y) (==_refl _) in
        let new : painted t i (j + 1) X Y ≡ true = ground arith in
        let col : X - t.x * 40 ≡ i = omega arith in
        let row : Y - t.y * 40 ≡ j = omega arith in rw (at, new, col, row)
    | inr ne ↦
        let off : (X + Y * t.vga.pixel_per_scanline == cell_index t i j) ≡ false =
          ==_false _ _ (λ e. elsewhere ne (cell_unique _ X Y _ _ hX (omega (arith, on)) e)) in
        let old : painted t i (j + 1) X Y ≡ painted t i j X Y = ground arith in
        rw (off, old) (sh X Y hX)
  ]
    where
      here_or_not :
          (X Y i j : ℕ)
          → ((X ≡ i + t.x * 40) × (Y ≡ j + t.y * 40)) ⊎ ((X ≢ i + t.x * 40) ⊎ (Y ≢ j + t.y * 40))
      here_or_not X Y i j = ground arith

      elsewhere :
          (X ≢ i + t.x * 40) ⊎ (Y ≢ j + t.y * 40) → ¬ ((X ≡ i + t.x * 40) × (Y ≡ j + t.y * 40))
      elsewhere (inl a) (x, y) = a x
      elsewhere (inr b) (x, y) = b y

  print_dot-Drawn :
      (i j : ℕ) (s : Terminal)
      → i < 40
      → j < 40
      → Drawn t n (painted t i j) s
      → Ensures (λ _ s'. Drawn t n (painted t i (j + 1)) s') (print_dot n i j s)
  print_dot-Drawn i j s hi hj d =
      rw (d.same_rest, print_dot-ok t d.picture n i j on hn hi hj)
        (ensures
          (record { picture = _; same_rest = refl; shows = Shows-dot i j d.picture hi hj d.shows }))

  Drawn-same :
      (a b : ℕ → ℕ → Bool) (s : Terminal)
      → ((X Y : ℕ) → a X Y ≡ b X Y)
      → Drawn t n a s
      → Drawn t n b s
  Drawn-same a b s same d = record {
    picture = d.picture;
    same_rest = d.same_rest;
    shows = λ X Y h. rw (← same X Y) (d.shows X Y h);
  }

  column-Drawn :
      (i : ℕ) (s : Terminal)
      → i < 40
      → Drawn t n (painted t i 0) s
      → Ensures
          (λ _ s'. Drawn t n (painted t (i + 1) 0) s')
          (for_range 40 0 (λ j. print_dot n i j) s)
  column-Drawn i s hi d =
      weaken
        (for_range-Ensures (λ j s. Drawn t n (painted t i j) s) (λ j. print_dot n i j) 40
          (λ j s' hj d'. print_dot-Drawn i j s' hi hj d') 40 0 s (omega arith) d)
        (λ _ s' d'. Drawn-same (painted t i 40) (painted t (i + 1) 0) s' (λ X Y. ground arith) d')

  -- `n` is drawn in the cell of the cursor.
  pub draw_glyph-Drawn : Ensures (λ _ t'. Drawn t n (in_cell_of t) t') (draw_glyph (some n) t)
  unfolding draw_glyph
  draw_glyph-Drawn =
      weaken
        (for_range-Ensures (λ i s. Drawn t n (painted t i 0) s) _ 40
          (λ i s hi d. column-Drawn i s hi d) 40 0 t (omega arith)
          (record { picture = t.vga.framebuffer; same_rest = refl; shows = λ X Y h. nothing X Y }))
        (λ _ s' d'. Drawn-same (painted t 40 0) (in_cell_of t) s' (λ X Y. ground arith) d')
    where
      nothing :
          (X Y : ℕ)
          → t.vga.framebuffer (X + Y * t.vga.pixel_per_scanline) ≡ (
              if painted t 0 0 X Y
              then shade t n (X - t.x * 40) (Y - t.y * 40)
              else t.vga.framebuffer (X + Y * t.vga.pixel_per_scanline))
      nothing X Y = let e : painted t 0 0 X Y ≡ false = ground arith in rw e
