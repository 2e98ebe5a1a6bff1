-- ===== src/Font/LowerOne.antt =====
-- Glyphs of src/font_mononoki.c: a to m. A row is a number of 40 bits, the leftmost dot the highest.
use fur_os.Prelude.{ℕ, List, [], ◌∷◌}

abbrev pub lower_a : List ℕ
lower_a =
    0 ∷ 0 ∷ 0 ∷ 0 ∷ 0 ∷ 0 ∷ 0 ∷ 0 ∷ 0 ∷ 0 ∷ 0 ∷ 0x7e0000 ∷ 0x1ff8000 ∷ 0x1ffc000 ∷ 0x3c000 ∷ 0x1c000
    ∷ 0x1c000 ∷ 0x1e000 ∷ 0x1c000 ∷ 0xffe000 ∷ 0x1ffc000 ∷ 0x3ffe000 ∷ 0x781c000 ∷ 0x781e000
    ∷ 0x781c000 ∷ 0x3ffe000 ∷ 0x1ffc000 ∷ 0xffc000 ∷ 0 ∷ 0 ∷ 0 ∷ 0 ∷ 0 ∷ 0 ∷ 0 ∷ 0 ∷ 0 ∷ 0 ∷ 0 ∷ 0
    ∷ []

abbrev pub lower_b : List ℕ
lower_b =
    0 ∷ 0 ∷ 0 ∷ 0x7800000 ∷ 0x7800000 ∷ 0x7800000 ∷ 0x7800000 ∷ 0x7800000 ∷ 0x7800000 ∷ 0x7800000
    ∷ 0x7800000 ∷ 0x7fe0000 ∷ 0x7ff0000 ∷ 0x7ff8000 ∷ 0x783c000 ∷ 0x781c000 ∷ 0x781e000 ∷ 0x781e000
    ∷ 0x780e000 ∷ 0x780e000 ∷ 0x780e000 ∷ 0x781e000 ∷ 0x781e000 ∷ 0x781c000 ∷ 0x783c000 ∷ 0x7ff8000
    ∷ 0x7ff0000 ∷ 0x1fe0000 ∷ 0 ∷ 0 ∷ 0 ∷ 0 ∷ 0 ∷ 0 ∷ 0 ∷ 0 ∷ 0 ∷ 0 ∷ 0 ∷ 0 ∷ []

abbrev pub lower_c : List ℕ
lower_c =
    0 ∷ 0 ∷ 0 ∷ 0 ∷ 0 ∷ 0 ∷ 0 ∷ 0 ∷ 0 ∷ 0 ∷ 0 ∷ 0x3fc000 ∷ 0xffe000 ∷ 0x1ffe000 ∷ 0x3e04000
    ∷ 0x3c00000 ∷ 0x3800000 ∷ 0x7800000 ∷ 0x7800000 ∷ 0x7800000 ∷ 0x7800000 ∷ 0x7800000 ∷ 0x3800000
    ∷ 0x3c00000 ∷ 0x3e04000 ∷ 0x1ffe000 ∷ 0xffe000 ∷ 0x3fc000 ∷ 0 ∷ 0 ∷ 0 ∷ 0 ∷ 0 ∷ 0 ∷ 0 ∷ 0 ∷ 0
    ∷ 0 ∷ 0 ∷ 0 ∷ []

abbrev pub lower_d : List ℕ
lower_d =
    0 ∷ 0 ∷ 0 ∷ 0xe000 ∷ 0xe000 ∷ 0xe000 ∷ 0xe000 ∷ 0xe000 ∷ 0xe000 ∷ 0xe000 ∷ 0xe000 ∷ 0x3fe000
    ∷ 0xffe000 ∷ 0x1ffe000 ∷ 0x3e0e000 ∷ 0x3c0e000 ∷ 0x380e000 ∷ 0x780e000 ∷ 0x780e000 ∷ 0x780e000
    ∷ 0x780e000 ∷ 0x780e000 ∷ 0x380e000 ∷ 0x3c0e000 ∷ 0x3e0e000 ∷ 0x1ffe000 ∷ 0xffe000 ∷ 0x3fc000
    ∷ 0 ∷ 0 ∷ 0 ∷ 0 ∷ 0 ∷ 0 ∷ 0 ∷ 0 ∷ 0 ∷ 0 ∷ 0 ∷ 0 ∷ []

abbrev pub lower_e : List ℕ
lower_e =
    0 ∷ 0 ∷ 0 ∷ 0 ∷ 0 ∷ 0 ∷ 0 ∷ 0 ∷ 0 ∷ 0 ∷ 0 ∷ 0x7e0000 ∷ 0xff8000 ∷ 0x1ffc000 ∷ 0x3e3c000
    ∷ 0x3c1e000 ∷ 0x381e000 ∷ 0x780e000 ∷ 0x7ffe000 ∷ 0x7ffe000 ∷ 0x7ffe000 ∷ 0x7800000 ∷ 0x7800000
    ∷ 0x3c00000 ∷ 0x3e00000 ∷ 0x1ffe000 ∷ 0xffe000 ∷ 0x3fc000 ∷ 0 ∷ 0 ∷ 0 ∷ 0 ∷ 0 ∷ 0 ∷ 0 ∷ 0 ∷ 0
    ∷ 0 ∷ 0 ∷ 0 ∷ []

abbrev pub lower_f : List ℕ
lower_f =
    0 ∷ 0 ∷ 0 ∷ 0xfe000 ∷ 0x1fe000 ∷ 0x3fe000 ∷ 0x780000 ∷ 0x780000 ∷ 0x700000 ∷ 0x700000 ∷ 0x700000
    ∷ 0x7ffc000 ∷ 0x7ffc000 ∷ 0x7ffc000 ∷ 0x700000 ∷ 0x700000 ∷ 0x700000 ∷ 0x700000 ∷ 0x700000
    ∷ 0x700000 ∷ 0x700000 ∷ 0x700000 ∷ 0x700000 ∷ 0x700000 ∷ 0x700000 ∷ 0x700000 ∷ 0x700000
    ∷ 0x700000 ∷ 0 ∷ 0 ∷ 0 ∷ 0 ∷ 0 ∷ 0 ∷ 0 ∷ 0 ∷ 0 ∷ 0 ∷ 0 ∷ 0 ∷ []

abbrev pub lower_g : List ℕ
lower_g =
    0 ∷ 0 ∷ 0 ∷ 0 ∷ 0 ∷ 0 ∷ 0 ∷ 0 ∷ 0 ∷ 0 ∷ 0 ∷ 0x7ff000 ∷ 0x1fff000 ∷ 0x3fff000 ∷ 0x3c3e000
    ∷ 0x381e000 ∷ 0x780e000 ∷ 0x780e000 ∷ 0x381e000 ∷ 0x3c3e000 ∷ 0x3ffc000 ∷ 0x1ff8000 ∷ 0x3fe0000
    ∷ 0x3800000 ∷ 0x7800000 ∷ 0x7c00000 ∷ 0x3ffc000 ∷ 0x3fff000 ∷ 0x3fff800 ∷ 0x7003c00 ∷ 0xf003c00
    ∷ 0xf003c00 ∷ 0xf807800 ∷ 0x7fff800 ∷ 0x3fff000 ∷ 0xffc000 ∷ 0 ∷ 0 ∷ 0 ∷ 0 ∷ []

abbrev pub lower_h : List ℕ
lower_h =
    0 ∷ 0 ∷ 0 ∷ 0x7800000 ∷ 0x7800000 ∷ 0x7800000 ∷ 0x7800000 ∷ 0x7800000 ∷ 0x7800000 ∷ 0x7800000
    ∷ 0x7800000 ∷ 0x7ff0000 ∷ 0x7ff8000 ∷ 0x7ffc000 ∷ 0x781e000 ∷ 0x781e000 ∷ 0x780e000 ∷ 0x780e000
    ∷ 0x780e000 ∷ 0x780e000 ∷ 0x780e000 ∷ 0x780e000 ∷ 0x780e000 ∷ 0x780e000 ∷ 0x780e000 ∷ 0x780e000
    ∷ 0x780e000 ∷ 0x780e000 ∷ 0 ∷ 0 ∷ 0 ∷ 0 ∷ 0 ∷ 0 ∷ 0 ∷ 0 ∷ 0 ∷ 0 ∷ 0 ∷ 0 ∷ []

abbrev pub lower_i : List ℕ
lower_i =
    0 ∷ 0 ∷ 0 ∷ 0x3c0000 ∷ 0x7c0000 ∷ 0x7c0000 ∷ 0x3c0000 ∷ 0 ∷ 0 ∷ 0 ∷ 0 ∷ 0x3fc0000 ∷ 0x3fc0000
    ∷ 0x1fc0000 ∷ 0x1c0000 ∷ 0x3c0000 ∷ 0x1c0000 ∷ 0x3c0000 ∷ 0x1c0000 ∷ 0x3c0000 ∷ 0x1c0000
    ∷ 0x3c0000 ∷ 0x1c0000 ∷ 0x3c0000 ∷ 0x1c0000 ∷ 0x3ffe000 ∷ 0x7ffe000 ∷ 0x7ffe000 ∷ 0 ∷ 0 ∷ 0 ∷ 0
    ∷ 0 ∷ 0 ∷ 0 ∷ 0 ∷ 0 ∷ 0 ∷ 0 ∷ 0 ∷ []

abbrev pub lower_j : List ℕ
lower_j =
    0 ∷ 0 ∷ 0 ∷ 0x1e000 ∷ 0x1e000 ∷ 0x1e000 ∷ 0x1e000 ∷ 0 ∷ 0 ∷ 0 ∷ 0 ∷ 0x3ffe000 ∷ 0x3ffe000
    ∷ 0x3ffe000 ∷ 0xe000 ∷ 0xe000 ∷ 0xe000 ∷ 0xe000 ∷ 0xe000 ∷ 0xe000 ∷ 0xe000 ∷ 0xe000 ∷ 0xe000
    ∷ 0xe000 ∷ 0xe000 ∷ 0xe000 ∷ 0x1e000 ∷ 0x1e000 ∷ 0x1c000 ∷ 0x203c000 ∷ 0x7ff8000 ∷ 0x7ff0000
    ∷ 0x1fc0000 ∷ 0 ∷ 0 ∷ 0 ∷ 0 ∷ 0 ∷ 0 ∷ 0 ∷ []

abbrev pub lower_k : List ℕ
lower_k =
    0 ∷ 0 ∷ 0 ∷ 0x7800000 ∷ 0x7800000 ∷ 0x7800000 ∷ 0x7800000 ∷ 0x7800000 ∷ 0x7800000 ∷ 0x7800000
    ∷ 0x7800000 ∷ 0x781e000 ∷ 0x783e000 ∷ 0x787c000 ∷ 0x78f8000 ∷ 0x79f0000 ∷ 0x79e0000 ∷ 0x7bc0000
    ∷ 0x7fc0000 ∷ 0x7f00000 ∷ 0x7f80000 ∷ 0x7fc0000 ∷ 0x7be0000 ∷ 0x79f0000 ∷ 0x78f8000 ∷ 0x787c000
    ∷ 0x783e000 ∷ 0x780f000 ∷ 0 ∷ 0 ∷ 0 ∷ 0 ∷ 0 ∷ 0 ∷ 0 ∷ 0 ∷ 0 ∷ 0 ∷ 0 ∷ 0 ∷ []

abbrev pub lower_l : List ℕ
lower_l =
    0 ∷ 0 ∷ 0 ∷ 0x3f80000 ∷ 0x7f80000 ∷ 0x3f80000 ∷ 0x380000 ∷ 0x380000 ∷ 0x380000 ∷ 0x380000
    ∷ 0x380000 ∷ 0x380000 ∷ 0x380000 ∷ 0x380000 ∷ 0x380000 ∷ 0x380000 ∷ 0x380000 ∷ 0x380000
    ∷ 0x380000 ∷ 0x380000 ∷ 0x380000 ∷ 0x380000 ∷ 0x380000 ∷ 0x380000 ∷ 0x3c0000 ∷ 0x3fe000
    ∷ 0x1fe000 ∷ 0xfe000 ∷ 0 ∷ 0 ∷ 0 ∷ 0 ∷ 0 ∷ 0 ∷ 0 ∷ 0 ∷ 0 ∷ 0 ∷ 0 ∷ 0 ∷ []

abbrev pub lower_m : List ℕ
lower_m =
    0 ∷ 0 ∷ 0 ∷ 0 ∷ 0 ∷ 0 ∷ 0 ∷ 0 ∷ 0 ∷ 0 ∷ 0 ∷ 0x7ffc000 ∷ 0xfffe000 ∷ 0xffff000 ∷ 0xf3cf000
    ∷ 0xf3c7000 ∷ 0xf1c7000 ∷ 0xf3c7000 ∷ 0xf1c7000 ∷ 0xf3c7000 ∷ 0xf1c7000 ∷ 0xf3c7000 ∷ 0xf1c7000
    ∷ 0xf3c7000 ∷ 0xf1c7000 ∷ 0xf3c7000 ∷ 0xf1c7000 ∷ 0xf1c7000 ∷ 0 ∷ 0 ∷ 0 ∷ 0 ∷ 0 ∷ 0 ∷ 0 ∷ 0 ∷ 0
    ∷ 0 ∷ 0 ∷ 0 ∷ []
