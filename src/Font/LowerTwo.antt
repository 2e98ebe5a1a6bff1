-- ===== src/Font/LowerTwo.antt =====
-- Glyphs of src/font_mononoki.c: n to z. A row is a number of 40 bits, the leftmost dot the highest.
use fur_os.Prelude.{ℕ, List, [], ◌∷◌}

abbrev pub lower_n : List ℕ
lower_n =
    0 ∷ 0 ∷ 0 ∷ 0 ∷ 0 ∷ 0 ∷ 0 ∷ 0 ∷ 0 ∷ 0 ∷ 0 ∷ 0x3ff0000 ∷ 0x7ff8000 ∷ 0x7ffc000 ∷ 0x781e000
    ∷ 0x781e000 ∷ 0x780e000 ∷ 0x780e000 ∷ 0x780e000 ∷ 0x780e000 ∷ 0x780e000 ∷ 0x780e000 ∷ 0x780e000
    ∷ 0x780e000 ∷ 0x780e000 ∷ 0x780e000 ∷ 0x780e000 ∷ 0x780e000 ∷ 0 ∷ 0 ∷ 0 ∷ 0 ∷ 0 ∷ 0 ∷ 0 ∷ 0 ∷ 0
    ∷ 0 ∷ 0 ∷ 0 ∷ []

abbrev pub lower_o : List ℕ
lower_o =
    0 ∷ 0 ∷ 0 ∷ 0 ∷ 0 ∷ 0 ∷ 0 ∷ 0 ∷ 0 ∷ 0 ∷ 0 ∷ 0x7e0000 ∷ 0xff8000 ∷ 0x1ffc000 ∷ 0x3c3c000
    ∷ 0x3c1e000 ∷ 0x381e000 ∷ 0x781e000 ∷ 0x780e000 ∷ 0x780e000 ∷ 0x780e000 ∷ 0x781e000 ∷ 0x381e000
    ∷ 0x3c1e000 ∷ 0x3c3c000 ∷ 0x1ffc000 ∷ 0xff8000 ∷ 0x7e0000 ∷ 0 ∷ 0 ∷ 0 ∷ 0 ∷ 0 ∷ 0 ∷ 0 ∷ 0 ∷ 0
    ∷ 0 ∷ 0 ∷ 0 ∷ []

abbrev pub lower_p : List ℕ
lower_p =
    0 ∷ 0 ∷ 0 ∷ 0 ∷ 0 ∷ 0 ∷ 0 ∷ 0 ∷ 0 ∷ 0 ∷ 0 ∷ 0x1fe0000 ∷ 0x7ff0000 ∷ 0x7ff8000 ∷ 0x783c000
    ∷ 0x781c000 ∷ 0x781e000 ∷ 0x781e000 ∷ 0x780e000 ∷ 0x780e000 ∷ 0x780e000 ∷ 0x781e000 ∷ 0x781e000
    ∷ 0x781c000 ∷ 0x783c000 ∷ 0x7ff8000 ∷ 0x7ff0000 ∷ 0x7fe0000 ∷ 0x7800000 ∷ 0x7800000 ∷ 0x7800000
    ∷ 0x7800000 ∷ 0x7800000 ∷ 0x7800000 ∷ 0x7800000 ∷ 0x7000000 ∷ 0 ∷ 0 ∷ 0 ∷ 0 ∷ []

abbrev pub lower_q : List ℕ
lower_q =
    0 ∷ 0 ∷ 0 ∷ 0 ∷ 0 ∷ 0 ∷ 0 ∷ 0 ∷ 0 ∷ 0 ∷ 0 ∷ 0x3fc000 ∷ 0xffe000 ∷ 0x1ffe000 ∷ 0x3e0e000
    ∷ 0x3c0e000 ∷ 0x380e000 ∷ 0x780e000 ∷ 0x780e000 ∷ 0x780e000 ∷ 0x780e000 ∷ 0x780e000 ∷ 0x380e000
    ∷ 0x3c0e000 ∷ 0x3e0e000 ∷ 0x1ffe000 ∷ 0xffe000 ∷ 0x3fe000 ∷ 0xe000 ∷ 0xe000 ∷ 0xe000 ∷ 0xe000
    ∷ 0xe000 ∷ 0xe000 ∷ 0xe000 ∷ 0xe000 ∷ 0 ∷ 0 ∷ 0 ∷ 0 ∷ []

abbrev pub lower_r : List ℕ
lower_r =
    0 ∷ 0 ∷ 0 ∷ 0 ∷ 0 ∷ 0 ∷ 0 ∷ 0 ∷ 0 ∷ 0 ∷ 0 ∷ 0x3ff0000 ∷ 0x7ffc000 ∷ 0x7ffe000 ∷ 0x781e000
    ∷ 0x780e000 ∷ 0x780e000 ∷ 0x7800000 ∷ 0x7800000 ∷ 0x7800000 ∷ 0x7800000 ∷ 0x7800000 ∷ 0x7800000
    ∷ 0x7800000 ∷ 0x7800000 ∷ 0x7800000 ∷ 0x7800000 ∷ 0x7800000 ∷ 0 ∷ 0 ∷ 0 ∷ 0 ∷ 0 ∷ 0 ∷ 0 ∷ 0 ∷ 0
    ∷ 0 ∷ 0 ∷ 0 ∷ []

abbrev pub lower_s : List ℕ
lower_s =
    0 ∷ 0 ∷ 0 ∷ 0 ∷ 0 ∷ 0 ∷ 0 ∷ 0 ∷ 0 ∷ 0 ∷ 0 ∷ 0x7f0000 ∷ 0x1ff8000 ∷ 0x1ff8000 ∷ 0x3c00000
    ∷ 0x3c00000 ∷ 0x3c00000 ∷ 0x3e00000 ∷ 0x1fe0000 ∷ 0xff8000 ∷ 0x1fc000 ∷ 0x3c000 ∷ 0x1c000
    ∷ 0x1c000 ∷ 0x3c000 ∷ 0x3ffc000 ∷ 0x3ff8000 ∷ 0x3fe0000 ∷ 0 ∷ 0 ∷ 0 ∷ 0 ∷ 0 ∷ 0 ∷ 0 ∷ 0 ∷ 0 ∷ 0
    ∷ 0 ∷ 0 ∷ []

abbrev pub lower_t : List ℕ
lower_t =
    0 ∷ 0 ∷ 0 ∷ 0 ∷ 0 ∷ 0 ∷ 0x700000 ∷ 0xf00000 ∷ 0x700000 ∷ 0xf00000 ∷ 0xf00000 ∷ 0x7ffc000
    ∷ 0x7ffc000 ∷ 0x3ffc000 ∷ 0xf00000 ∷ 0xf00000 ∷ 0x700000 ∷ 0xf00000 ∷ 0xf00000 ∷ 0xf00000
    ∷ 0x700000 ∷ 0xf00000 ∷ 0x700000 ∷ 0x700000 ∷ 0x780000 ∷ 0x3fe000 ∷ 0x3fe000 ∷ 0xfc000 ∷ 0 ∷ 0
    ∷ 0 ∷ 0 ∷ 0 ∷ 0 ∷ 0 ∷ 0 ∷ 0 ∷ 0 ∷ 0 ∷ 0 ∷ []

abbrev pub lower_u : List ℕ
lower_u =
    0 ∷ 0 ∷ 0 ∷ 0 ∷ 0 ∷ 0 ∷ 0 ∷ 0 ∷ 0 ∷ 0 ∷ 0 ∷ 0x780e000 ∷ 0x780e000 ∷ 0x780e000 ∷ 0x780e000
    ∷ 0x780e000 ∷ 0x780e000 ∷ 0x780e000 ∷ 0x780e000 ∷ 0x780e000 ∷ 0x780e000 ∷ 0x780e000 ∷ 0x780e000
    ∷ 0x780e000 ∷ 0x3c0e000 ∷ 0x3ffe000 ∷ 0x1ffe000 ∷ 0xffe000 ∷ 0 ∷ 0 ∷ 0 ∷ 0 ∷ 0 ∷ 0 ∷ 0 ∷ 0 ∷ 0
    ∷ 0 ∷ 0 ∷ 0 ∷ []

abbrev pub lower_v : List ℕ
lower_v =
    0 ∷ 0 ∷ 0 ∷ 0 ∷ 0 ∷ 0 ∷ 0 ∷ 0 ∷ 0 ∷ 0 ∷ 0 ∷ 0x700f000 ∷ 0x700f000 ∷ 0x780e000 ∷ 0x780e000
    ∷ 0x381e000 ∷ 0x381e000 ∷ 0x3c1c000 ∷ 0x3c1c000 ∷ 0x1c3c000 ∷ 0x1c3c000 ∷ 0x1e38000 ∷ 0x1e38000
    ∷ 0x1e78000 ∷ 0xe78000 ∷ 0xff0000 ∷ 0x7f0000 ∷ 0x3e0000 ∷ 0 ∷ 0 ∷ 0 ∷ 0 ∷ 0 ∷ 0 ∷ 0 ∷ 0 ∷ 0 ∷ 0
    ∷ 0 ∷ 0 ∷ []

abbrev pub lower_w : List ℕ
lower_w =
    0 ∷ 0 ∷ 0 ∷ 0 ∷ 0 ∷ 0 ∷ 0 ∷ 0 ∷ 0 ∷ 0 ∷ 0 ∷ 0xe003800 ∷ 0x1e007800 ∷ 0xe007800 ∷ 0xe1c7800
    ∷ 0xe3c7800 ∷ 0xe3e7800 ∷ 0xe7e7800 ∷ 0xe7f7800 ∷ 0xef77800 ∷ 0xfe7f000 ∷ 0xfe3f000 ∷ 0xfc3f000
    ∷ 0xfc1f000 ∷ 0xf81f000 ∷ 0xf80f000 ∷ 0xf00f000 ∷ 0xf007000 ∷ 0 ∷ 0 ∷ 0 ∷ 0 ∷ 0 ∷ 0 ∷ 0 ∷ 0 ∷ 0
    ∷ 0 ∷ 0 ∷ 0 ∷ []

abbrev pub lower_x : List ℕ
lower_x =
    0 ∷ 0 ∷ 0 ∷ 0 ∷ 0 ∷ 0 ∷ 0 ∷ 0 ∷ 0 ∷ 0 ∷ 0 ∷ 0x380e000 ∷ 0x381e000 ∷ 0x3c1c000 ∷ 0x1c3c000
    ∷ 0x1e38000 ∷ 0xe78000 ∷ 0xf70000 ∷ 0xff0000 ∷ 0x7e0000 ∷ 0x7f0000 ∷ 0xf70000 ∷ 0xe78000
    ∷ 0x1e38000 ∷ 0x1c3c000 ∷ 0x3c1c000 ∷ 0x381e000 ∷ 0x780e000 ∷ 0 ∷ 0 ∷ 0 ∷ 0 ∷ 0 ∷ 0 ∷ 0 ∷ 0 ∷ 0
    ∷ 0 ∷ 0 ∷ 0 ∷ []

abbrev pub lower_y : List ℕ
lower_y =
    0 ∷ 0 ∷ 0 ∷ 0 ∷ 0 ∷ 0 ∷ 0 ∷ 0 ∷ 0 ∷ 0 ∷ 0 ∷ 0x700f000 ∷ 0x700f000 ∷ 0x780e000 ∷ 0x780e000
    ∷ 0x381e000 ∷ 0x381e000 ∷ 0x3c1c000 ∷ 0x3c1c000 ∷ 0x1c3c000 ∷ 0x1c3c000 ∷ 0x1e38000 ∷ 0x1e38000
    ∷ 0x1e78000 ∷ 0xe78000 ∷ 0xff0000 ∷ 0x7f0000 ∷ 0x3f0000 ∷ 0xf0000 ∷ 0xe0000 ∷ 0x1e0000
    ∷ 0x1e0000 ∷ 0x3c0000 ∷ 0xffc0000 ∷ 0x1ff80000 ∷ 0xfe00000 ∷ 0 ∷ 0 ∷ 0 ∷ 0 ∷ []

abbrev pub lower_z : List ℕ
lower_z =
    0 ∷ 0 ∷ 0 ∷ 0 ∷ 0 ∷ 0 ∷ 0 ∷ 0 ∷ 0 ∷ 0 ∷ 0 ∷ 0x3ffe000 ∷ 0x3ffe000 ∷ 0x3ffe000 ∷ 0x1e000
    ∷ 0x3c000 ∷ 0x78000 ∷ 0xf0000 ∷ 0x1e0000 ∷ 0x3e0000 ∷ 0x7c0000 ∷ 0xf80000 ∷ 0x1f00000
    ∷ 0x3e00000 ∷ 0x3c00000 ∷ 0x7ffe000 ∷ 0x7ffe000 ∷ 0x7ffe000 ∷ 0 ∷ 0 ∷ 0 ∷ 0 ∷ 0 ∷ 0 ∷ 0 ∷ 0 ∷ 0
    ∷ 0 ∷ 0 ∷ 0 ∷ []
