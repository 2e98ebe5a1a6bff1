-- ===== src/Font/UpperTwo.antt =====
-- Glyphs of src/font_mononoki.c: N to Z. A row is a number of 40 bits, the leftmost dot the highest.
use fur_os.Prelude.{ℕ, List, [], ◌∷◌}

abbrev pub upper_n : List ℕ
upper_n =
    0 ∷ 0 ∷ 0 ∷ 0 ∷ 0 ∷ 0x700f000 ∷ 0x780f000 ∷ 0x780f000 ∷ 0x7c0f000 ∷ 0x7c0f000 ∷ 0x7e0f000
    ∷ 0x7e0f000 ∷ 0x7f0f000 ∷ 0x770f000 ∷ 0x778f000 ∷ 0x738f000 ∷ 0x73cf000 ∷ 0x71cf000 ∷ 0x71ef000
    ∷ 0x70ef000 ∷ 0x70ff000 ∷ 0x707f000 ∷ 0x707f000 ∷ 0x703f000 ∷ 0x703f000 ∷ 0x701f000 ∷ 0x701f000
    ∷ 0x700f000 ∷ 0 ∷ 0 ∷ 0 ∷ 0 ∷ 0 ∷ 0 ∷ 0 ∷ 0 ∷ 0 ∷ 0 ∷ 0 ∷ 0 ∷ []

abbrev pub upper_o : List ℕ
upper_o =
    0 ∷ 0 ∷ 0 ∷ 0 ∷ 0 ∷ 0x7e0000 ∷ 0xff8000 ∷ 0x1ffc000 ∷ 0x3c3c000 ∷ 0x3c1e000 ∷ 0x781e000
    ∷ 0x780e000 ∷ 0x780e000 ∷ 0x780e000 ∷ 0x780e000 ∷ 0x780e000 ∷ 0x780e000 ∷ 0x780e000 ∷ 0x780e000
    ∷ 0x780e000 ∷ 0x780e000 ∷ 0x780e000 ∷ 0x781e000 ∷ 0x3c1e000 ∷ 0x3c3c000 ∷ 0x1ffc000 ∷ 0xff8000
    ∷ 0x7e0000 ∷ 0 ∷ 0 ∷ 0 ∷ 0 ∷ 0 ∷ 0 ∷ 0 ∷ 0 ∷ 0 ∷ 0 ∷ 0 ∷ 0 ∷ []

abbrev pub upper_p : List ℕ
upper_p =
    0 ∷ 0 ∷ 0 ∷ 0 ∷ 0 ∷ 0x7fe0000 ∷ 0x7ff8000 ∷ 0x7ffc000 ∷ 0x783e000 ∷ 0x781e000 ∷ 0x780f000
    ∷ 0x780f000 ∷ 0x7807000 ∷ 0x780f000 ∷ 0x780f000 ∷ 0x781e000 ∷ 0x787e000 ∷ 0x7ffc000 ∷ 0x7ff0000
    ∷ 0x7fc0000 ∷ 0x7800000 ∷ 0x7800000 ∷ 0x7800000 ∷ 0x7800000 ∷ 0x7800000 ∷ 0x7800000 ∷ 0x7800000
    ∷ 0x7800000 ∷ 0 ∷ 0 ∷ 0 ∷ 0 ∷ 0 ∷ 0 ∷ 0 ∷ 0 ∷ 0 ∷ 0 ∷ 0 ∷ 0 ∷ []

abbrev pub upper_q : List ℕ
upper_q =
    0 ∷ 0 ∷ 0 ∷ 0 ∷ 0 ∷ 0x7e0000 ∷ 0xff8000 ∷ 0x1ffc000 ∷ 0x3c3c000 ∷ 0x3c1e000 ∷ 0x781e000
    ∷ 0x780e000 ∷ 0x780e000 ∷ 0x780e000 ∷ 0x780e000 ∷ 0x780e000 ∷ 0x780e000 ∷ 0x780e000 ∷ 0x780e000
    ∷ 0x780e000 ∷ 0x780e000 ∷ 0x780e000 ∷ 0x781e000 ∷ 0x381e000 ∷ 0x3c3c000 ∷ 0x1ffc000 ∷ 0x1ff8000
    ∷ 0x7e0000 ∷ 0x1c0000 ∷ 0x3c0000 ∷ 0x1c0000 ∷ 0x1e0000 ∷ 0x1ff800 ∷ 0xff800 ∷ 0x3f000 ∷ 0 ∷ 0
    ∷ 0 ∷ 0 ∷ 0 ∷ []

abbrev pub upper_r : List ℕ
upper_r =
    0 ∷ 0 ∷ 0 ∷ 0 ∷ 0 ∷ 0x7fe0000 ∷ 0x7ff8000 ∷ 0x7ffc000 ∷ 0x783e000 ∷ 0x781e000 ∷ 0x780e000
    ∷ 0x780f000 ∷ 0x780e000 ∷ 0x781e000 ∷ 0x783e000 ∷ 0x7ffc000 ∷ 0x7ff8000 ∷ 0x7ff0000 ∷ 0x7878000
    ∷ 0x7838000 ∷ 0x783c000 ∷ 0x781c000 ∷ 0x781e000 ∷ 0x780e000 ∷ 0x780f000 ∷ 0x7807000 ∷ 0x7807800
    ∷ 0x7803800 ∷ 0 ∷ 0 ∷ 0 ∷ 0 ∷ 0 ∷ 0 ∷ 0 ∷ 0 ∷ 0 ∷ 0 ∷ 0 ∷ 0 ∷ []

abbrev pub upper_s : List ℕ
upper_s =
    0 ∷ 0 ∷ 0 ∷ 0 ∷ 0 ∷ 0x7f8000 ∷ 0xffc000 ∷ 0x3ffc000 ∷ 0x3c00000 ∷ 0x7800000 ∷ 0x7800000
    ∷ 0x7800000 ∷ 0x7800000 ∷ 0x3c00000 ∷ 0x3f00000 ∷ 0x1fe0000 ∷ 0x7f8000 ∷ 0x1fc000 ∷ 0x3e000
    ∷ 0x1e000 ∷ 0xf000 ∷ 0xf000 ∷ 0xf000 ∷ 0xe000 ∷ 0x3e000 ∷ 0x3ffc000 ∷ 0x7ff8000 ∷ 0x1fe0000 ∷ 0
    ∷ 0 ∷ 0 ∷ 0 ∷ 0 ∷ 0 ∷ 0 ∷ 0 ∷ 0 ∷ 0 ∷ 0 ∷ 0 ∷ []

abbrev pub upper_t : List ℕ
upper_t =
    0 ∷ 0 ∷ 0 ∷ 0 ∷ 0 ∷ 0x1ffff800 ∷ 0x1ffff800 ∷ 0xffff800 ∷ 0x1c0000 ∷ 0x3c0000 ∷ 0x1c0000
    ∷ 0x3c0000 ∷ 0x1c0000 ∷ 0x3c0000 ∷ 0x1c0000 ∷ 0x3c0000 ∷ 0x1c0000 ∷ 0x3c0000 ∷ 0x1c0000
    ∷ 0x3c0000 ∷ 0x1c0000 ∷ 0x3c0000 ∷ 0x1c0000 ∷ 0x3c0000 ∷ 0x1c0000 ∷ 0x3c0000 ∷ 0x1c0000
    ∷ 0x1c0000 ∷ 0 ∷ 0 ∷ 0 ∷ 0 ∷ 0 ∷ 0 ∷ 0 ∷ 0 ∷ 0 ∷ 0 ∷ 0 ∷ 0 ∷ []

abbrev pub upper_u : List ℕ
upper_u =
    0 ∷ 0 ∷ 0 ∷ 0 ∷ 0 ∷ 0x780e000 ∷ 0x780e000 ∷ 0x780e000 ∷ 0x780e000 ∷ 0x780e000 ∷ 0x780e000
    ∷ 0x780e000 ∷ 0x780e000 ∷ 0x780e000 ∷ 0x780e000 ∷ 0x780e000 ∷ 0x780e000 ∷ 0x780e000 ∷ 0x780e000
    ∷ 0x780e000 ∷ 0x780e000 ∷ 0x780e000 ∷ 0x780e000 ∷ 0x781e000 ∷ 0x3c1e000 ∷ 0x3ffc000 ∷ 0x1ff8000
    ∷ 0x7f0000 ∷ 0 ∷ 0 ∷ 0 ∷ 0 ∷ 0 ∷ 0 ∷ 0 ∷ 0 ∷ 0 ∷ 0 ∷ 0 ∷ 0 ∷ []

abbrev pub upper_v : List ℕ
upper_v =
    0 ∷ 0 ∷ 0 ∷ 0 ∷ 0 ∷ 0x1c003800 ∷ 0x1e003800 ∷ 0x1e007800 ∷ 0xe007800 ∷ 0xe007800 ∷ 0xf007000
    ∷ 0xf00f000 ∷ 0x700f000 ∷ 0x700e000 ∷ 0x780e000 ∷ 0x781e000 ∷ 0x381e000 ∷ 0x381c000 ∷ 0x3c1c000
    ∷ 0x3c3c000 ∷ 0x1c3c000 ∷ 0x1c38000 ∷ 0x1e38000 ∷ 0x1e78000 ∷ 0xe78000 ∷ 0xff0000 ∷ 0x7f0000
    ∷ 0x3e0000 ∷ 0 ∷ 0 ∷ 0 ∷ 0 ∷ 0 ∷ 0 ∷ 0 ∷ 0 ∷ 0 ∷ 0 ∷ 0 ∷ 0 ∷ []

abbrev pub upper_w : List ℕ
upper_w =
    0 ∷ 0 ∷ 0 ∷ 0 ∷ 0 ∷ 0xe003800 ∷ 0x1e007800 ∷ 0xe007800 ∷ 0xe007800 ∷ 0xe007800 ∷ 0xe007800
    ∷ 0xe007800 ∷ 0xe007800 ∷ 0xe007800 ∷ 0xe007800 ∷ 0xe3c7800 ∷ 0xe3e7000 ∷ 0xe7e7800 ∷ 0xe7f7800
    ∷ 0xff77800 ∷ 0xfe77000 ∷ 0xfe3f000 ∷ 0xfc3f000 ∷ 0xfc1f000 ∷ 0xf81f000 ∷ 0xf80f000 ∷ 0xf00f000
    ∷ 0xf007000 ∷ 0 ∷ 0 ∷ 0 ∷ 0 ∷ 0 ∷ 0 ∷ 0 ∷ 0 ∷ 0 ∷ 0 ∷ 0 ∷ 0 ∷ []

abbrev pub upper_x : List ℕ
upper_x =
    0 ∷ 0 ∷ 0 ∷ 0 ∷ 0 ∷ 0xe007000 ∷ 0xf007000 ∷ 0x700f000 ∷ 0x780e000 ∷ 0x381e000 ∷ 0x3c1c000
    ∷ 0x1c3c000 ∷ 0x1e38000 ∷ 0xe78000 ∷ 0xf70000 ∷ 0x7f0000 ∷ 0x7e0000 ∷ 0xff0000 ∷ 0xe78000
    ∷ 0x1e78000 ∷ 0x1c3c000 ∷ 0x3c3c000 ∷ 0x381c000 ∷ 0x781e000 ∷ 0x700e000 ∷ 0xf00f000 ∷ 0xe007000
    ∷ 0xe003800 ∷ 0 ∷ 0 ∷ 0 ∷ 0 ∷ 0 ∷ 0 ∷ 0 ∷ 0 ∷ 0 ∷ 0 ∷ 0 ∷ 0 ∷ []

abbrev pub upper_y : List ℕ
upper_y =
    0 ∷ 0 ∷ 0 ∷ 0 ∷ 0 ∷ 0x1e003800 ∷ 0xe007800 ∷ 0xf007000 ∷ 0x700f000 ∷ 0x780e000 ∷ 0x381e000
    ∷ 0x3c1e000 ∷ 0x3c3c000 ∷ 0x1e3c000 ∷ 0x1e78000 ∷ 0xf78000 ∷ 0xff0000 ∷ 0x7e0000 ∷ 0x1c0000
    ∷ 0x3c0000 ∷ 0x1c0000 ∷ 0x3c0000 ∷ 0x1c0000 ∷ 0x3c0000 ∷ 0x1c0000 ∷ 0x3c0000 ∷ 0x1c0000
    ∷ 0x1c0000 ∷ 0 ∷ 0 ∷ 0 ∷ 0 ∷ 0 ∷ 0 ∷ 0 ∷ 0 ∷ 0 ∷ 0 ∷ 0 ∷ 0 ∷ []

abbrev pub upper_z : List ℕ
upper_z =
    0 ∷ 0 ∷ 0 ∷ 0 ∷ 0 ∷ 0x3fff000 ∷ 0x7fff000 ∷ 0x3fff000 ∷ 0xf000 ∷ 0xe000 ∷ 0xe000 ∷ 0x1e000
    ∷ 0x3c000 ∷ 0x78000 ∷ 0xf0000 ∷ 0x1e0000 ∷ 0x3c0000 ∷ 0x780000 ∷ 0xf00000 ∷ 0x1e00000
    ∷ 0x3c00000 ∷ 0x7800000 ∷ 0x7800000 ∷ 0x7000000 ∷ 0x7000000 ∷ 0xfffe000 ∷ 0xffff000 ∷ 0x7fff000
    ∷ 0 ∷ 0 ∷ 0 ∷ 0 ∷ 0 ∷ 0 ∷ 0 ∷ 0 ∷ 0 ∷ 0 ∷ 0 ∷ 0 ∷ []
