-- ===== src/Font/Table.antt =====
-- The table has the shape that its declaration says, so the code's reads are in range.
use fur_os.Prelude.{
  ℕ, zero, suc, ◌/◌, ◌-◌, ◌%◌, ◌^◌, ◌≤◌, ◌<◌, ◌≡◌, refl, Bool, true, ◌&&◌, ◌==◌, List, [], ◌∷◌,
  none, some, get_elem?, length, arith,
}
use fur_os.Font.{font_data, dot, font_dot}

all_rows : List (List ℕ) → Bool
all_rows [] = true
all_rows (g ∷ gs) = length g == 40 && all_rows gs

table_rows : all_rows font_data ≡ true
unfolding all_rows font_data
table_rows = refl

table_length : length font_data ≡ 62
unfolding font_data
table_length = refl

elem_of_lt :
    {A : Type 0} (xs : List A) (i : ℕ) → i < length xs → (a : A) × (get_elem? xs i ≡ some a)
elem_of_lt [] i h = elim h [ ]
elem_of_lt (x ∷ xs) zero h = (x, refl)
elem_of_lt (x ∷ xs) (suc i) h = elem_of_lt xs i (omega arith)

rows_of :
    (gs : List (List ℕ)) (n : ℕ) {g : List ℕ}
    → all_rows gs ≡ true
    → get_elem? gs n ≡ some g
    → length g ≡ 40
unfolding all_rows
rows_of [] n h e = cc
rows_of (x ∷ gs) zero h e = ground arith
rows_of (x ∷ gs) (suc n) h e = rows_of gs n (ground arith) e

dot-in_range : (g : List ℕ) (k : ℕ) → k / 40 < length g → (d : Bool) × (dot g k ≡ some d)
unfolding dot
dot-in_range g k h =
    let (row, e) = elem_of_lt g (k / 40) h in (row / 2 ^ (39 - k % 40) % 2 == 1, rw e)

dot_of :
    (n k : ℕ) {g : List ℕ} {d : Bool}
    → get_elem? font_data n ≡ some g
    → dot g k ≡ some d
    → font_dot n k ≡ some d
unfolding font_dot
dot_of n k e e' = rw (e, font_dot) e'

-- `font_data[n][k]` is in range for every `n` below 62 and every `k` below 1600.
pub font_dot-in_range : (n k : ℕ) → n < 62 → k < 1600 → (d : Bool) × (font_dot n k ≡ some d)
font_dot-in_range n k hn hk =
    let (g, e) = elem_of_lt font_data n (omega (arith, table_length)) in
    let rows = rows_of font_data n table_rows e in
    let (d, e') = dot-in_range g k (omega arith) in (d, dot_of n k e e')

past_end : {A : Type 0} (xs : List A) (i : ℕ) → length xs ≤ i → get_elem? xs i ≡ none
past_end [] i h = refl
past_end (x ∷ xs) zero h = absurd (omega arith)
past_end (x ∷ xs) (suc i) h = past_end xs i (omega arith)

-- There is no glyph 62.
pub font_dot-past : (n k : ℕ) → 62 ≤ n → font_dot n k ≡ none
unfolding font_dot
font_dot-past n k h = rw (past_end font_data n (omega (arith, table_length)), font_dot)
