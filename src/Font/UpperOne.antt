-- ===== src/Font/UpperOne.antt =====
-- Glyphs of src/font_mononoki.c: A to M. A row is a number of 40 bits, the leftmost dot the highest.
use fur_os.Prelude.{ℕ, List, [], ◌∷◌}

abbrev pub upper_a : List ℕ
upper_a =
    0 ∷ 0 ∷ 0 ∷ 0 ∷ 0 ∷ 0x3e0000 ∷ 0x7f0000 ∷ 0xff0000 ∷ 0xe78000 ∷ 0x1e78000 ∷ 0x1e38000
    ∷ 0x1e38000 ∷ 0x1c3c000 ∷ 0x3c3c000 ∷ 0x3c1c000 ∷ 0x381c000 ∷ 0x381e000 ∷ 0x781e000 ∷ 0x7ffe000
    ∷ 0x7ffe000 ∷ 0x7fff000 ∷ 0xf00f000 ∷ 0xf007000 ∷ 0xe007000 ∷ 0xe007800 ∷ 0x1e007800
    ∷ 0x1e003800 ∷ 0x1c003800 ∷ 0 ∷ 0 ∷ 0 ∷ 0 ∷ 0 ∷ 0 ∷ 0 ∷ 0 ∷ 0 ∷ 0 ∷ 0 ∷ 0 ∷ []

abbrev pub upper_b : List ℕ
upper_b =
    0 ∷ 0 ∷ 0 ∷ 0 ∷ 0 ∷ 0xffc0000 ∷ 0xfff0000 ∷ 0xfff8000 ∷ 0x383c000 ∷ 0x381c000 ∷ 0x381c000
    ∷ 0x381e000 ∷ 0x381c000 ∷ 0x383c000 ∷ 0x38f8000 ∷ 0x3ff0000 ∷ 0x3ff8000 ∷ 0x3ffc000 ∷ 0x381e000
    ∷ 0x380e000 ∷ 0x3807000 ∷ 0x3807000 ∷ 0x3807000 ∷ 0x380f000 ∷ 0x381e000 ∷ 0x3ffc000 ∷ 0x3ff8000
    ∷ 0x3fe0000 ∷ 0 ∷ 0 ∷ 0 ∷ 0 ∷ 0 ∷ 0 ∷ 0 ∷ 0 ∷ 0 ∷ 0 ∷ 0 ∷ 0 ∷ []

abbrev pub upper_c : List ℕ
upper_c =
    0 ∷ 0 ∷ 0 ∷ 0 ∷ 0 ∷ 0x3fc000 ∷ 0x7fe000 ∷ 0x1ffe000 ∷ 0x1e00000 ∷ 0x3c00000 ∷ 0x3800000
    ∷ 0x3800000 ∷ 0x7800000 ∷ 0x7800000 ∷ 0x7800000 ∷ 0x7800000 ∷ 0x7800000 ∷ 0x7800000 ∷ 0x7800000
    ∷ 0x7800000 ∷ 0x7800000 ∷ 0x3800000 ∷ 0x3800000 ∷ 0x3c00000 ∷ 0x1e00000 ∷ 0x1ffe000 ∷ 0x7fe000
    ∷ 0x3fc000 ∷ 0 ∷ 0 ∷ 0 ∷ 0 ∷ 0 ∷ 0 ∷ 0 ∷ 0 ∷ 0 ∷ 0 ∷ 0 ∷ 0 ∷ []

abbrev pub upper_d : List ℕ
upper_d =
    0 ∷ 0 ∷ 0 ∷ 0 ∷ 0 ∷ 0xffc0000 ∷ 0xfff0000 ∷ 0xfff8000 ∷ 0x387c000 ∷ 0x383e000 ∷ 0x381e000
    ∷ 0x380f000 ∷ 0x380f000 ∷ 0x380f000 ∷ 0x380f000 ∷ 0x380f000 ∷ 0x3807000 ∷ 0x380f000 ∷ 0x380f000
    ∷ 0x380f000 ∷ 0x380f000 ∷ 0x380f000 ∷ 0x381e000 ∷ 0x381e000 ∷ 0x387c000 ∷ 0x3ffc000 ∷ 0x3ff0000
    ∷ 0x3fc0000 ∷ 0 ∷ 0 ∷ 0 ∷ 0 ∷ 0 ∷ 0 ∷ 0 ∷ 0 ∷ 0 ∷ 0 ∷ 0 ∷ 0 ∷ []

abbrev pub upper_e : List ℕ
upper_e =
    0 ∷ 0 ∷ 0 ∷ 0 ∷ 0 ∷ 0x7ffe000 ∷ 0x7ffe000 ∷ 0x7ffe000 ∷ 0x7800000 ∷ 0x7800000 ∷ 0x7800000
    ∷ 0x7800000 ∷ 0x7800000 ∷ 0x7800000 ∷ 0x7800000 ∷ 0x7ffc000 ∷ 0x7ffc000 ∷ 0x7ffc000 ∷ 0x7800000
    ∷ 0x7800000 ∷ 0x7800000 ∷ 0x7800000 ∷ 0x7800000 ∷ 0x7800000 ∷ 0x7800000 ∷ 0x7ffe000 ∷ 0x7fff000
    ∷ 0x7fff000 ∷ 0 ∷ 0 ∷ 0 ∷ 0 ∷ 0 ∷ 0 ∷ 0 ∷ 0 ∷ 0 ∷ 0 ∷ 0 ∷ 0 ∷ []

abbrev pub upper_f : List ℕ
upper_f =
    0 ∷ 0 ∷ 0 ∷ 0 ∷ 0 ∷ 0x7fff000 ∷ 0x7fff000 ∷ 0x7ffe000 ∷ 0x7800000 ∷ 0x7800000 ∷ 0x7800000
    ∷ 0x7800000 ∷ 0x7800000 ∷ 0x7800000 ∷ 0x7800000 ∷ 0x7800000 ∷ 0x7ffe000 ∷ 0x7ffe000 ∷ 0x7ffe000
    ∷ 0x7800000 ∷ 0x7800000 ∷ 0x7800000 ∷ 0x7800000 ∷ 0x7800000 ∷ 0x7800000 ∷ 0x7800000 ∷ 0x7800000
    ∷ 0x7800000 ∷ 0 ∷ 0 ∷ 0 ∷ 0 ∷ 0 ∷ 0 ∷ 0 ∷ 0 ∷ 0 ∷ 0 ∷ 0 ∷ 0 ∷ []

abbrev pub upper_g : List ℕ
upper_g =
    0 ∷ 0 ∷ 0 ∷ 0 ∷ 0 ∷ 0x3fc000 ∷ 0x7fe000 ∷ 0xffe000 ∷ 0x1e04000 ∷ 0x3c00000 ∷ 0x3c00000
    ∷ 0x3800000 ∷ 0x7800000 ∷ 0x7800000 ∷ 0x7800000 ∷ 0x787e000 ∷ 0x787f000 ∷ 0x787f000 ∷ 0x780f000
    ∷ 0x780f000 ∷ 0x780f000 ∷ 0x380f000 ∷ 0x380f000 ∷ 0x3c0f000 ∷ 0x1e0f000 ∷ 0x1fff000 ∷ 0x7fe000
    ∷ 0x3fc000 ∷ 0 ∷ 0 ∷ 0 ∷ 0 ∷ 0 ∷ 0 ∷ 0 ∷ 0 ∷ 0 ∷ 0 ∷ 0 ∷ 0 ∷ []

abbrev pub upper_h : List ℕ
upper_h =
    0 ∷ 0 ∷ 0 ∷ 0 ∷ 0 ∷ 0x700f000 ∷ 0x700f000 ∷ 0x700f000 ∷ 0x700f000 ∷ 0x700f000 ∷ 0x700f000
    ∷ 0x700f000 ∷ 0x700f000 ∷ 0x700f000 ∷ 0x7fff000 ∷ 0x7fff000 ∷ 0x7fff000 ∷ 0x700f000 ∷ 0x700f000
    ∷ 0x700f000 ∷ 0x700f000 ∷ 0x700f000 ∷ 0x700f000 ∷ 0x700f000 ∷ 0x700f000 ∷ 0x700f000 ∷ 0x700f000
    ∷ 0x700e000 ∷ 0 ∷ 0 ∷ 0 ∷ 0 ∷ 0 ∷ 0 ∷ 0 ∷ 0 ∷ 0 ∷ 0 ∷ 0 ∷ 0 ∷ []

abbrev pub upper_i : List ℕ
upper_i =
    0 ∷ 0 ∷ 0 ∷ 0 ∷ 0 ∷ 0x3ffe000 ∷ 0x3ffe000 ∷ 0x3ffc000 ∷ 0x1c0000 ∷ 0x3c0000 ∷ 0x1c0000
    ∷ 0x3c0000 ∷ 0x1c0000 ∷ 0x3c0000 ∷ 0x1c0000 ∷ 0x3c0000 ∷ 0x1c0000 ∷ 0x3c0000 ∷ 0x1c0000
    ∷ 0x3c0000 ∷ 0x1c0000 ∷ 0x3c0000 ∷ 0x1c0000 ∷ 0x3c0000 ∷ 0x1c0000 ∷ 0x3ffe000 ∷ 0x7ffe000
    ∷ 0x7ffe000 ∷ 0 ∷ 0 ∷ 0 ∷ 0 ∷ 0 ∷ 0 ∷ 0 ∷ 0 ∷ 0 ∷ 0 ∷ 0 ∷ 0 ∷ []

abbrev pub upper_j : List ℕ
upper_j =
    0 ∷ 0 ∷ 0 ∷ 0 ∷ 0 ∷ 0xffe000 ∷ 0xffe000 ∷ 0xffe000 ∷ 0xe000 ∷ 0xe000 ∷ 0xe000 ∷ 0xe000 ∷ 0xe000
    ∷ 0xe000 ∷ 0xe000 ∷ 0xe000 ∷ 0xe000 ∷ 0xe000 ∷ 0xe000 ∷ 0xe000 ∷ 0xe000 ∷ 0x1e000 ∷ 0x1e000
    ∷ 0x3c000 ∷ 0x7c000 ∷ 0x7ff8000 ∷ 0x7ff0000 ∷ 0x1fc0000 ∷ 0 ∷ 0 ∷ 0 ∷ 0 ∷ 0 ∷ 0 ∷ 0 ∷ 0 ∷ 0 ∷ 0
    ∷ 0 ∷ 0 ∷ []

abbrev pub upper_k : List ℕ
upper_k =
    0 ∷ 0 ∷ 0 ∷ 0 ∷ 0 ∷ 0x781e000 ∷ 0x781e000 ∷ 0x783c000 ∷ 0x7878000 ∷ 0x7878000 ∷ 0x78f0000
    ∷ 0x79e0000 ∷ 0x7be0000 ∷ 0x7bc0000 ∷ 0x7f80000 ∷ 0x7f00000 ∷ 0x7f00000 ∷ 0x7f80000 ∷ 0x7f80000
    ∷ 0x7bc0000 ∷ 0x79e0000 ∷ 0x79f0000 ∷ 0x78f0000 ∷ 0x7878000 ∷ 0x783c000 ∷ 0x783e000 ∷ 0x781e000
    ∷ 0x780f000 ∷ 0 ∷ 0 ∷ 0 ∷ 0 ∷ 0 ∷ 0 ∷ 0 ∷ 0 ∷ 0 ∷ 0 ∷ 0 ∷ 0 ∷ []

abbrev pub upper_l : List ℕ
upper_l =
    0 ∷ 0 ∷ 0 ∷ 0 ∷ 0 ∷ 0x7800000 ∷ 0x7800000 ∷ 0x7800000 ∷ 0x7800000 ∷ 0x7800000 ∷ 0x7800000
    ∷ 0x7800000 ∷ 0x7800000 ∷ 0x7800000 ∷ 0x7800000 ∷ 0x7800000 ∷ 0x7800000 ∷ 0x7800000 ∷ 0x7800000
    ∷ 0x7800000 ∷ 0x7800000 ∷ 0x7800000 ∷ 0x7800000 ∷ 0x7800000 ∷ 0x7800000 ∷ 0x7fff800 ∷ 0x7fff800
    ∷ 0x7fff800 ∷ 0 ∷ 0 ∷ 0 ∷ 0 ∷ 0 ∷ 0 ∷ 0 ∷ 0 ∷ 0 ∷ 0 ∷ 0 ∷ 0 ∷ []

abbrev pub upper_m : List ℕ
upper_m =
    0 ∷ 0 ∷ 0 ∷ 0 ∷ 0 ∷ 0xf007000 ∷ 0xf00f000 ∷ 0xf80f000 ∷ 0xf81f000 ∷ 0xfc1f000 ∷ 0xfc3f000
    ∷ 0xfe3f000 ∷ 0xee77000 ∷ 0xef77000 ∷ 0xe7e7000 ∷ 0xe7e7800 ∷ 0xe3c7000 ∷ 0xe3c7800 ∷ 0xe007800
    ∷ 0xe007800 ∷ 0xe007800 ∷ 0xe007800 ∷ 0xe007800 ∷ 0xe007800 ∷ 0xe007800 ∷ 0xe007800 ∷ 0x1e007800
    ∷ 0xe003800 ∷ 0 ∷ 0 ∷ 0 ∷ 0 ∷ 0 ∷ 0 ∷ 0 ∷ 0 ∷ 0 ∷ 0 ∷ 0 ∷ 0 ∷ []
