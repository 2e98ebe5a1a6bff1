-- ===== src/Tests/Strings.antt =====
-- The string functions on "OK" at 16 and "O" at 32.
use fur_os.Prelude.{ℕ, ◌≡◌, refl, ◌↔◌, ◌==◌, if◌then◌else◌, some, List, [], ◌∷◌, arith}
use fur_os.Prelude.Int.{pos}
use fur_os.Memory.{Memory}
use fur_os.Str.{strlen, strcmp}
use fur_os.Str.Laws.{first_difference, strlen-length, strcmp-eq}

abbrev strings : Memory
strings a = if a == 16 then b'O' else (if a == 17 then b'K' else (if a == 32 then b'O' else 0))

abbrev text_ok : List ℕ
text_ok = b'O' ∷ b'K' ∷ []

abbrev text_o : List ℕ
text_o = b'O' ∷ []

strlen-length_example : strlen 3 strings 16 ≡ some 2
strlen-length_example =
    strlen-length text_ok 3 strings 16 (refl, omega arith, (refl, omega arith, refl)) (omega arith)
      (omega arith)

strcmp-eq_example :
    (strcmp 3 strings 16 32 ≡ some (first_difference text_ok text_o))
    × ((strcmp 3 strings 16 32 ≡ some (pos 0)) ↔ (text_ok ≡ text_o))
strcmp-eq_example =
    strcmp-eq text_ok text_o 3 strings 16 32 (refl, omega arith, (refl, omega arith, refl))
      (refl, omega arith, refl) (omega arith)
