-- ===== src/Font.antt =====
-- `font_data` of src/font_mononoki.c: 62 glyphs of 40 rows of 40 dots, for 0-9, A-Z and a-z.
pub mod Table
pub mod Digits
pub mod UpperOne
pub mod UpperTwo
pub mod LowerOne
pub mod LowerTwo
use Digits.{
  digit_0, digit_1, digit_2, digit_3, digit_4, digit_5, digit_6, digit_7, digit_8, digit_9,
}
use UpperOne.{
  upper_a, upper_b, upper_c, upper_d, upper_e, upper_f, upper_g, upper_h, upper_i, upper_j, upper_k,
  upper_l, upper_m,
}
use UpperTwo.{
  upper_n, upper_o, upper_p, upper_q, upper_r, upper_s, upper_t, upper_u, upper_v, upper_w, upper_x,
  upper_y, upper_z,
}
use LowerOne.{
  lower_a, lower_b, lower_c, lower_d, lower_e, lower_f, lower_g, lower_h, lower_i, lower_j, lower_k,
  lower_l, lower_m,
}
use LowerTwo.{
  lower_n, lower_o, lower_p, lower_q, lower_r, lower_s, lower_t, lower_u, lower_v, lower_w, lower_x,
  lower_y, lower_z,
}
use fur_os.Prelude.{
  ℕ, ◌+◌, ◌-◌, ◌*◌, ◌/◌, ◌%◌, ◌^◌, Bool, ◌==◌, List, [], ◌∷◌, Option, none, some, get_elem?,
}
use mathlib.Core.Option

unfoldable pub font_data : List (List ℕ)
font_data =
    digit_0 ∷ digit_1 ∷ digit_2 ∷ digit_3 ∷ digit_4 ∷ digit_5 ∷ digit_6 ∷ digit_7 ∷ digit_8
    ∷ digit_9 ∷ upper_a ∷ upper_b ∷ upper_c ∷ upper_d ∷ upper_e ∷ upper_f ∷ upper_g ∷ upper_h
    ∷ upper_i ∷ upper_j ∷ upper_k ∷ upper_l ∷ upper_m ∷ upper_n ∷ upper_o ∷ upper_p ∷ upper_q
    ∷ upper_r ∷ upper_s ∷ upper_t ∷ upper_u ∷ upper_v ∷ upper_w ∷ upper_x ∷ upper_y ∷ upper_z
    ∷ lower_a ∷ lower_b ∷ lower_c ∷ lower_d ∷ lower_e ∷ lower_f ∷ lower_g ∷ lower_h ∷ lower_i
    ∷ lower_j ∷ lower_k ∷ lower_l ∷ lower_m ∷ lower_n ∷ lower_o ∷ lower_p ∷ lower_q ∷ lower_r
    ∷ lower_s ∷ lower_t ∷ lower_u ∷ lower_v ∷ lower_w ∷ lower_x ∷ lower_y ∷ lower_z ∷ []

-- The element `k` of a glyph, which lies in row `k / 40` and column `k % 40`.
unfoldable pub dot : List ℕ → ℕ → Option Bool
dot glyph k = Option.map (λ row. row / 2 ^ (39 - k % 40) % 2 == 1) (get_elem? glyph (k / 40))

-- `font_data[n][k]`; `none` is an index out of range.
unfoldable pub font_dot : ℕ → ℕ → Option Bool
font_dot n k = elim (get_elem? font_data n) [ none ↦ none | some glyph ↦ dot glyph k ]
