-- ===== src/Str.antt =====
-- src/stdlib/string.c. A string is its address in memory; the loops run on fuel, and `none` is
-- that the fuel ran out before the terminating zero.
pub mod Laws
use fur_os.Prelude.{
  ℕ, zero, suc, ◌+◌, ◌-◌, ◌%◌, ◌^◌, Bool, not, ◌&&◌, ltb, ◌==◌, if◌then◌else◌, Option, none, some,
}
use fur_os.Prelude.Int.{ℤ, pos, negsuc, ◌-ℤ◌}
use fur_os.Memory.{Memory}

-- The `char` at an address, as its bit pattern, and the `int` that it is promoted to.
abbrev pub char_at : Memory → ℕ → ℕ
char_at m a = m a % 256

abbrev pub char_value : ℕ → ℤ
char_value c = if ltb c 128 then pos c else negsuc (255 - c)

-- `stringindex` is a `uint32_t`.
unfoldable pub strlen_loop : ℕ → Memory → ℕ → ℕ → Option ℕ
strlen_loop zero m string stringindex = none
strlen_loop (suc fuel) m string stringindex =
    let rest = strlen_loop fuel m string ((stringindex + 1) % 2 ^ 32) in
    if char_at m (string + stringindex) == 0 then some stringindex else rest

unfoldable pub strlen : ℕ → Memory → ℕ → Option ℕ
unfolding strlen_loop
strlen fuel m string = strlen_loop fuel m string 0

unfoldable pub strcmp : ℕ → Memory → ℕ → ℕ → Option ℤ
strcmp zero m str1 str2 = none
strcmp (suc fuel) m str1 str2 =
    let rest = strcmp fuel m (str1 + 1) (str2 + 1) in
    if not (char_at m str1 == 0) && char_at m str1 == char_at m str2
    then rest
    else some (char_value (char_at m str1) -ℤ char_value (char_at m str2))
