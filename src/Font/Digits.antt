-- ===== src/Font/Digits.antt =====
-- Glyphs of src/font_mononoki.c: the digits. A row is a number of 40 bits, the leftmost dot the highest.
use fur_os.Prelude.{ℕ, List, [], ◌∷◌}

abbrev pub digit_0 : List ℕ
digit_0 =
    0 ∷ 0 ∷ 0 ∷ 0 ∷ 0 ∷ 0x7e0000 ∷ 0xff8000 ∷ 0x1ffc000 ∷ 0x3c3c000 ∷ 0x381e000 ∷ 0x780e000
    ∷ 0x701f000 ∷ 0x703f000 ∷ 0x707f000 ∷ 0xf0ff000 ∷ 0xf1e7000 ∷ 0xf3c7000 ∷ 0xf787000 ∷ 0xff07000
    ∷ 0x7e0f000 ∷ 0x7c0f000 ∷ 0x780f000 ∷ 0x780e000 ∷ 0x381e000 ∷ 0x3c3c000 ∷ 0x1ffc000 ∷ 0xff8000
    ∷ 0x7e0000 ∷ 0 ∷ 0 ∷ 0 ∷ 0 ∷ 0 ∷ 0 ∷ 0 ∷ 0 ∷ 0 ∷ 0 ∷ 0 ∷ 0 ∷ []

abbrev pub digit_1 : List ℕ
digit_1 =
    0 ∷ 0 ∷ 0 ∷ 0 ∷ 0 ∷ 0xe0000 ∷ 0x1e0000 ∷ 0x3e0000 ∷ 0x3fe0000 ∷ 0x7fe0000 ∷ 0x7fe0000 ∷ 0x1e0000
    ∷ 0x1e0000 ∷ 0x1e0000 ∷ 0x1e0000 ∷ 0x1e0000 ∷ 0x1e0000 ∷ 0x1e0000 ∷ 0x1e0000 ∷ 0x1e0000
    ∷ 0x1e0000 ∷ 0x1e0000 ∷ 0x1e0000 ∷ 0x1e0000 ∷ 0x1e0000 ∷ 0x3ffe000 ∷ 0x7ffe000 ∷ 0x7ffe000 ∷ 0
    ∷ 0 ∷ 0 ∷ 0 ∷ 0 ∷ 0 ∷ 0 ∷ 0 ∷ 0 ∷ 0 ∷ 0 ∷ 0 ∷ []

abbrev pub digit_2 : List ℕ
digit_2 =
    0 ∷ 0 ∷ 0 ∷ 0 ∷ 0 ∷ 0x1fe0000 ∷ 0x3ff8000 ∷ 0x3ffc000 ∷ 0x1e000 ∷ 0x1e000 ∷ 0xe000 ∷ 0xe000
    ∷ 0xe000 ∷ 0x1e000 ∷ 0x1e000 ∷ 0x3c000 ∷ 0x78000 ∷ 0x1f0000 ∷ 0x3e0000 ∷ 0x7c0000 ∷ 0xf80000
    ∷ 0x1e00000 ∷ 0x3c00000 ∷ 0x3800000 ∷ 0x7800000 ∷ 0x7ffe000 ∷ 0x7fff000 ∷ 0x7fff000 ∷ 0 ∷ 0 ∷ 0
    ∷ 0 ∷ 0 ∷ 0 ∷ 0 ∷ 0 ∷ 0 ∷ 0 ∷ 0 ∷ 0 ∷ []

abbrev pub digit_3 : List ℕ
digit_3 =
    0 ∷ 0 ∷ 0 ∷ 0 ∷ 0 ∷ 0x1fe0000 ∷ 0x3ff8000 ∷ 0x1ffc000 ∷ 0x3c000 ∷ 0x1e000 ∷ 0x1e000 ∷ 0x1e000
    ∷ 0x1e000 ∷ 0x3c000 ∷ 0x7c000 ∷ 0xff0000 ∷ 0xff0000 ∷ 0x7f8000 ∷ 0x3c000 ∷ 0x1e000 ∷ 0x1e000
    ∷ 0xe000 ∷ 0xe000 ∷ 0x1e000 ∷ 0x3e000 ∷ 0x3ffc000 ∷ 0x3ff8000 ∷ 0x3fe0000 ∷ 0 ∷ 0 ∷ 0 ∷ 0 ∷ 0
    ∷ 0 ∷ 0 ∷ 0 ∷ 0 ∷ 0 ∷ 0 ∷ 0 ∷ []

abbrev pub digit_4 : List ℕ
digit_4 =
    0 ∷ 0 ∷ 0 ∷ 0 ∷ 0 ∷ 0x70000 ∷ 0xf0000 ∷ 0x1e0000 ∷ 0x1e0000 ∷ 0x3c0000 ∷ 0x3c0000 ∷ 0x780000
    ∷ 0x780000 ∷ 0xf00000 ∷ 0xf10000 ∷ 0x1e38000 ∷ 0x1e38000 ∷ 0x3c38000 ∷ 0x3c38000 ∷ 0x7838000
    ∷ 0x7838000 ∷ 0x7fff000 ∷ 0x7fff000 ∷ 0x7ffe000 ∷ 0x38000 ∷ 0x38000 ∷ 0x38000 ∷ 0x38000 ∷ 0 ∷ 0
    ∷ 0 ∷ 0 ∷ 0 ∷ 0 ∷ 0 ∷ 0 ∷ 0 ∷ 0 ∷ 0 ∷ 0 ∷ []

abbrev pub digit_5 : List ℕ
digit_5 =
    0 ∷ 0 ∷ 0 ∷ 0 ∷ 0 ∷ 0xffc000 ∷ 0x1ffc000 ∷ 0x1ffc000 ∷ 0x1c00000 ∷ 0x1c00000 ∷ 0x1c00000
    ∷ 0x1c00000 ∷ 0x1c00000 ∷ 0x1c00000 ∷ 0x1fe0000 ∷ 0x1ff8000 ∷ 0xffc000 ∷ 0x3e000 ∷ 0x1e000
    ∷ 0xe000 ∷ 0xe000 ∷ 0xe000 ∷ 0xe000 ∷ 0x1e000 ∷ 0x3e000 ∷ 0x18fc000 ∷ 0x3ff8000 ∷ 0x3ff0000
    ∷ 0x300000 ∷ 0 ∷ 0 ∷ 0 ∷ 0 ∷ 0 ∷ 0 ∷ 0 ∷ 0 ∷ 0 ∷ 0 ∷ 0 ∷ []

abbrev pub digit_6 : List ℕ
digit_6 =
    0 ∷ 0 ∷ 0 ∷ 0 ∷ 0 ∷ 0x3f8000 ∷ 0xff8000 ∷ 0x1ff8000 ∷ 0x3e00000 ∷ 0x3c00000 ∷ 0x7800000
    ∷ 0x7800000 ∷ 0x7000000 ∷ 0x7000000 ∷ 0xfff0000 ∷ 0xfff8000 ∷ 0xfffc000 ∷ 0xf01e000 ∷ 0xf01e000
    ∷ 0xf00e000 ∷ 0xf00e000 ∷ 0x700e000 ∷ 0x700e000 ∷ 0x781e000 ∷ 0x3c3e000 ∷ 0x3ffc000 ∷ 0x1ff8000
    ∷ 0xff0000 ∷ 0 ∷ 0 ∷ 0 ∷ 0 ∷ 0 ∷ 0 ∷ 0 ∷ 0 ∷ 0 ∷ 0 ∷ 0 ∷ 0 ∷ []

abbrev pub digit_7 : List ℕ
digit_7 =
    0 ∷ 0 ∷ 0 ∷ 0 ∷ 0 ∷ 0x7fff000 ∷ 0x7fff000 ∷ 0x7fff000 ∷ 0x780f000 ∷ 0x780f000 ∷ 0x780f000
    ∷ 0x781e000 ∷ 0x1e000 ∷ 0x3c000 ∷ 0x3c000 ∷ 0x78000 ∷ 0x70000 ∷ 0xf0000 ∷ 0xe0000 ∷ 0x1e0000
    ∷ 0x1c0000 ∷ 0x1c0000 ∷ 0x3c0000 ∷ 0x380000 ∷ 0x380000 ∷ 0x380000 ∷ 0x780000 ∷ 0x380000 ∷ 0 ∷ 0
    ∷ 0 ∷ 0 ∷ 0 ∷ 0 ∷ 0 ∷ 0 ∷ 0 ∷ 0 ∷ 0 ∷ 0 ∷ []

abbrev pub digit_8 : List ℕ
digit_8 =
    0 ∷ 0 ∷ 0 ∷ 0 ∷ 0 ∷ 0xff0000 ∷ 0x1ffc000 ∷ 0x3ffe000 ∷ 0x781e000 ∷ 0x780e000 ∷ 0x780e000
    ∷ 0x780e000 ∷ 0x781e000 ∷ 0x3c3c000 ∷ 0x1f7c000 ∷ 0xff8000 ∷ 0x7f0000 ∷ 0xff8000 ∷ 0x3e3c000
    ∷ 0x381e000 ∷ 0x700f000 ∷ 0x7007000 ∷ 0xf007000 ∷ 0xf00f000 ∷ 0x780f000 ∷ 0x7e7e000 ∷ 0x3ffc000
    ∷ 0xff8000 ∷ 0x80000 ∷ 0 ∷ 0 ∷ 0 ∷ 0 ∷ 0 ∷ 0 ∷ 0 ∷ 0 ∷ 0 ∷ 0 ∷ 0 ∷ []

abbrev pub digit_9 : List ℕ
digit_9 =
    0 ∷ 0 ∷ 0 ∷ 0 ∷ 0 ∷ 0x7f0000 ∷ 0xff8000 ∷ 0x3ffc000 ∷ 0x3c3e000 ∷ 0x381e000 ∷ 0x780f000
    ∷ 0x780f000 ∷ 0x700f000 ∷ 0x7807000 ∷ 0x7807000 ∷ 0x3c07000 ∷ 0x3f7f000 ∷ 0x1fff000 ∷ 0xfff000
    ∷ 0xf000 ∷ 0xf000 ∷ 0xe000 ∷ 0xe000 ∷ 0x1e000 ∷ 0x3c000 ∷ 0x8f8000 ∷ 0x1ff0000 ∷ 0x1fe0000 ∷ 0
    ∷ 0 ∷ 0 ∷ 0 ∷ 0 ∷ 0 ∷ 0 ∷ 0 ∷ 0 ∷ 0 ∷ 0 ∷ 0 ∷ []
