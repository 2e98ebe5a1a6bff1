-- ===== src/Str/Laws.antt =====
-- The two functions on strings that stand in memory.
use fur_os.Prelude.{
  ℕ, zero, suc, ◌+◌, ◌%◌, ◌^◌, ◌<◌, ◌≡◌, ◌≢◌, refl, ◌∙◌, inl, inr, ◌↔◌, false, ◌==◌, if◌then◌else◌,
  some, List, [], ◌∷◌, length, arith, ap, sym, Bool-cases, ==_false, ==_refl,
}
use fur_os.Prelude.Int.{ℤ, pos, ◌-ℤ◌}
use mathlib.Core.Path.{ap₂}
use fur_os.Memory.{Memory}
use fur_os.Str.{char_at, char_value, strlen_loop, strlen, strcmp}

-- The characters of `cs`, none of them zero, stand from `a` on, followed by a zero.
abbrev pub IsString : Memory → ℕ → List ℕ → Type 0
IsString m a [] = char_at m a ≡ 0
IsString m a (c ∷ cs) = (char_at m a ≡ c) × (c ≢ 0) × IsString m (a + 1) cs

strlen_loop-length :
    (cs : List ℕ) (fuel : ℕ) (m : Memory) (a i : ℕ)
    → IsString m (a + i) cs
    → length cs < fuel
    → i + length cs < 2 ^ 32
    → strlen_loop fuel m a i ≡ some (i + length cs)
unfolding strlen_loop
strlen_loop-length [] zero m a i h f small = absurd (omega arith)
strlen_loop-length [] (suc fuel) m a i h f small = ground arith
strlen_loop-length (c ∷ cs) zero m a i h f small = absurd (omega arith)
strlen_loop-length (c ∷ cs) (suc fuel) m a i (here, ne, rest) f small =
    let more : (char_at m (a + i) == 0) ≡ false = rw here (==_false c 0 ne) in
    let next : (i + 1) % 2 ^ 32 ≡ i + 1 = omega arith in
    let there : a + i + 1 ≡ a + (i + 1) = omega arith in
    rw (more, next)
      (strlen_loop-length cs fuel m a (i + 1) (rw there at rest) (omega arith) (omega arith)
        ∙ ap some (omega arith))

-- On a string of fewer than 2 ^ 32 characters `strlen`, with fuel above that number, ends and returns
-- the number of characters before the terminating zero.
pub strlen-length :
    (cs : List ℕ) (fuel : ℕ) (m : Memory) (a : ℕ)
    → IsString m a cs
    → length cs < fuel
    → length cs < 2 ^ 32
    → strlen fuel m a ≡ some (length cs)
unfolding strlen
strlen-length cs fuel m a h f small =
    let start : a ≡ a + 0 = omega arith in
    strlen_loop-length cs fuel m a 0 (rw start at h) f (omega arith) ∙ ap some (omega arith)

-- The difference of the first characters that differ, where the end of a string is a zero.
unfoldable pub first_difference : List ℕ → List ℕ → ℤ
first_difference [] [] = pos 0
first_difference [] (d ∷ ds) = pos 0 -ℤ char_value d
first_difference (c ∷ cs) [] = char_value c -ℤ pos 0
first_difference (c ∷ cs) (d ∷ ds) =
    if c == d then first_difference cs ds else char_value c -ℤ char_value d

pub strcmp-first_difference :
    (cs ds : List ℕ) (fuel : ℕ) (m : Memory) (a b : ℕ)
    → IsString m a cs
    → IsString m b ds
    → length cs < fuel
    → strcmp fuel m a b ≡ some (first_difference cs ds)
unfolding strcmp first_difference ◌-ℤ◌
strcmp-first_difference cs ds zero m a b h k f = absurd (omega arith)
strcmp-first_difference [] [] (suc fuel) m a b h k f = rw (h, k)
strcmp-first_difference [] (d ∷ ds) (suc fuel) m a b h (k, ne, ks) f = rw (h, k)
strcmp-first_difference (c ∷ cs) [] (suc fuel) m a b (h, ne, hs) k f = rw (h, k, ==_false c 0 ne)
strcmp-first_difference (c ∷ cs) (d ∷ ds) (suc fuel) m a b (h, ne, hs) (k, ne', ks) f =
    rw (h, k, ==_false c 0 ne)
      (elim (Bool-cases (c == d)) [
        | inl same ↦
            rw same (strcmp-first_difference cs ds fuel m (a + 1) (b + 1) hs ks (omega arith))
        | inr differ ↦ rw differ
      ])

IsText : List ℕ → Type 0
IsText [] = Unit {0}
IsText (c ∷ cs) = (c < 256) × (c ≢ 0) × IsText cs

char_value_zero : (c : ℕ) → c < 256 → c ≢ 0 → char_value c ≢ pos 0
char_value_zero c h ne = ground arith

char_value_injective : (c d : ℕ) → c < 256 → d < 256 → char_value c -ℤ char_value d ≡ pos 0 → c ≡ d
unfolding ◌-ℤ◌
char_value_injective c d h k e = ground arith

IsString-IsText : (m : Memory) (a : ℕ) (cs : List ℕ) → IsString m a cs → IsText cs
unfolding IsText
IsString-IsText m a [] h = tt
IsString-IsText m a (c ∷ cs) (h, ne, hs) =
    (rw (← h) (omega arith), ne, IsString-IsText m (a + 1) cs hs)

first_difference_refl : (cs : List ℕ) → first_difference cs cs ≡ pos 0
unfolding first_difference
first_difference_refl [] = refl
first_difference_refl (c ∷ cs) = rw (==_refl c) (first_difference_refl cs)

first_difference-zero :
    (cs ds : List ℕ) → IsText cs → IsText ds → first_difference cs ds ≡ pos 0 → cs ≡ ds
unfolding first_difference IsText
first_difference-zero [] [] h k e = refl
first_difference-zero [] (d ∷ ds) h (k, ne, ks) e =
    absurd (ne (sym (char_value_injective 0 d (omega arith) k e)))
first_difference-zero (c ∷ cs) [] (h, ne, hs) k e =
    absurd (ne (char_value_injective c 0 h (omega arith) e))
first_difference-zero (c ∷ cs) (d ∷ ds) (h, ne, hs) (k, ne', ks) e = elim (Bool-cases (c == d)) [
  | inl same ↦
      let e' : c ≡ d = ground arith in ap₂ ◌∷◌ e' (first_difference-zero cs ds hs ks (rw same at e))
  | inr differ ↦ let e' : c ≡ d = char_value_injective c d h k (rw differ at e) in ground arith
]

-- On two strings `strcmp`, with fuel above the length of the first, ends and returns the difference of
-- the first characters that differ, and 0 exactly for equal strings.
pub strcmp-eq :
    (cs ds : List ℕ) (fuel : ℕ) (m : Memory) (a b : ℕ)
    → IsString m a cs
    → IsString m b ds
    → length cs < fuel
    → (strcmp fuel m a b ≡ some (first_difference cs ds))
      × ((strcmp fuel m a b ≡ some (pos 0)) ↔ (cs ≡ ds))
strcmp-eq cs ds fuel m a b h k f = (
  strcmp-first_difference cs ds fuel m a b h k f,
  (
    λ e.
        first_difference-zero cs ds (IsString-IsText m a cs h) (IsString-IsText m b ds k)
          (cc (strcmp-first_difference cs ds fuel m a b h k f)),
    λ e.
        strcmp-first_difference cs ds fuel m a b h k f
        ∙ ap some (rw (← e) (first_difference_refl cs)),
  ),
)
