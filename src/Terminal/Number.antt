-- ===== src/Terminal/Number.antt =====
-- `PrintNum` and `PrintHex` print the numeral of their argument.
use fur_os.Prelude.{
  ℕ, zero, suc, ◌+◌, ◌-◌, ◌*◌, ◌/◌, ◌%◌, ◌^◌, ◌≤◌, ◌<◌, ◌≡◌, ◌≢◌, refl, ◌∙◌, ap, ◌⊎◌, inl, inr,
  Bool, true, false, ◌&&◌, ◌||◌, ltb, leb, ◌==◌, if◌then◌else◌, Option, none, some, List, [], ◌∷◌,
  arith, length,
}
use Prim.Native.Nat.pow
use native.Mathlib.Nat.{pow-suc, mod-lt, div-add-mod', div-lt_iff_lt-mul}
use mathlib.Core.Path.{fun_ext}
use fur_os.Command.{Cmd, pure, ◌>>◌, and_then, and_then_pure}
use fur_os.Terminal.{
  Terminal, Array, read, num_loop, print_back, print_array, decimal_digit, hex_digit, print_num,
  print_hex, print_char,
}

-- `PrintChar` on each character in turn.
unfoldable pub print_all : List ℕ → Cmd Terminal (Unit {0})
print_all [] = pure tt
print_all (c ∷ cs) = print_char c >> print_all cs

-- The value of a digit, and of a numeral that is read after the number `v`.
abbrev pub digit_value : ℕ → ℕ
digit_value c = if leb c b'9' then c - b'0' else 10 + (c - b'A')

unfoldable pub numeral_value : ℕ → ℕ → List ℕ → ℕ
numeral_value base v [] = v
numeral_value base v (c ∷ cs) = numeral_value base (v * base + digit_value c) cs

-- The digits of a base up to sixteen, with capital letters.
abbrev pub is_digit : ℕ → ℕ → Bool
is_digit base c =
    ((leb b'0' c && leb c b'9') || (leb b'A' c && leb c b'F')) && ltb (digit_value c) base

abbrev pub AllDigits : ℕ → List ℕ → Type 0
AllDigits base [] = Unit {0}
AllDigits base (c ∷ cs) = (is_digit base c ≡ true) × AllDigits base cs

abbrev pub NoLeadingZero : List ℕ → Type 0
NoLeadingZero [] = ⊥
NoLeadingZero (c ∷ cs) = c ≢ b'0'

-- The array holds, from the last element on, the characters of `cs`.
abbrev Holds : Array → List ℕ → Type 0
Holds a [] = Unit {0}
Holds a (c ∷ cs) = (a (length cs) ≡ some c) × Holds a cs

print_back-Holds :
    (cs : List ℕ) (a : Array) (t : Terminal)
    → Holds a cs
    → print_back (length cs) a t ≡ print_all cs t
unfolding print_back print_all read
print_back-Holds [] a t h = refl
print_back-Holds (c ∷ cs) a t (here, rest) =
    rw (here, read)
      (ap (λ k. and_then (print_char c t) (λ _. k)) (fun_ext λ s. print_back-Holds cs a s rest))

Holds-put :
    (cs : List ℕ) (a : Array) (k c : ℕ)
    → length cs ≤ k
    → Holds a cs
    → Holds (λ i. if i == k then some c else a i) cs
Holds-put [] a k c le h = tt
Holds-put (d ∷ cs) a k c le (here, rest) = (ground arith, Holds-put cs a k c (omega arith) rest)

nonzero_test : (m : ℕ) → (suc m == 0) ≡ false
nonzero_test m = ground arith

-- What the first loop leaves: the characters of the numeral, in an array within its bound.
record Converted (base cap number : ℕ) (before : List ℕ) (r : Option (ℕ × Array)) : Type 0 where
  chars : List ℕ
  array : Array
  returns : r ≡ some (length chars, array)
  holds : Holds array chars
  fits : length chars ≤ cap
  digits : AllDigits base chars
  value : numeral_value base 0 chars ≡ numeral_value base number before
  same : number ≡ 0 → chars ≡ before
  leading : number ≢ 0 → NoLeadingZero chars

module _ (base cap : ℕ) (digit : ℕ → ℕ) (pos : 0 < base) (byte : cap < 256)
    (digit_ok : (d : ℕ)
      → d < base
      → (is_digit base (digit d) ≡ true)
        × (digit_value (digit d) ≡ d)
        × (d ≢ 0 → digit d ≢ b'0')) where
  num_loop-Converted :
      (k fuel number : ℕ) (a : Array) (before : List ℕ)
      → number < base ^ k
      → k < fuel
      → k + length before ≤ cap
      → Holds a before
      → AllDigits base before
      → Converted base cap number before (num_loop base cap digit fuel number (length before) a)
  unfolding num_loop numeral_value
  num_loop-Converted k zero number a before n f c h d = absurd (omega arith)
  num_loop-Converted k (suc fuel) zero a before n f c h d = record {
    chars = before;
    array = a;
    returns = refl;
    holds = h;
    fits = omega arith;
    digits = d;
    value = refl;
    same = λ e. refl;
    leading = λ ne. absurd (ne refl);
  }
  num_loop-Converted zero (suc fuel) (suc m) a before n f c h d =
      absurd (omega (arith, pow.zero base))
  num_loop-Converted (suc k) (suc fuel) (suc m) a before n f c h d =
      let c0 = digit (suc m % base) in
      let (good, val, nonzero) = digit_ok (suc m % base) (mod-lt (suc m) pos) in
      let small : suc m / base < base ^ k =
        (div-lt_iff_lt-mul pos).1 (omega (arith, pow-suc base k)) in
      let r =
        num_loop-Converted k fuel (suc m / base) (λ i. if i == length before then some c0 else a i)
          (c0 ∷ before) small (omega arith) (omega arith)
          (ground arith, Holds-put before a (length before) c0 (omega arith) h) (good, d) in
      let size : (length before + 1) % 256 ≡ suc (length before) = omega arith in
      let room : ltb (length before) cap ≡ true = ground arith in
      let value_here : suc m / base * base + digit_value c0 ≡ suc m =
        omega (arith, val, div-add-mod' (suc m) base) in
      record {
        chars = r.chars;
        array = r.array;
        returns = rw (nonzero_test m, size, room) r.returns;
        holds = r.holds;
        fits = r.fits;
        digits = r.digits;
        value = r.value ∙ ap (λ v. numeral_value base v before) value_here;
        same = λ e. cc;
        leading = λ _. elim (zero_or_not (suc m / base)) [
          | inl last ↦ rw (r.same last) (nonzero (λ e. cc_zero m (value_of_last last e)))
          | inr more ↦ r.leading more
        ];
      }
    where
      zero_or_not : (x : ℕ) → (x ≡ 0) ⊎ (x ≢ 0)
      zero_or_not x = ground arith

      cc_zero : (x : ℕ) → suc x ≢ 0
      cc_zero x e = absurd (omega arith)

      value_of_last : suc m / base ≡ 0 → suc m % base ≡ 0 → suc m ≡ 0
      value_of_last p q = omega (arith, div-add-mod' (suc m) base, ap (λ (t : ℕ). t * base) p)

decimal_ok :
    (d : ℕ)
    → d < 10
    → (is_digit 10 (decimal_digit d) ≡ true)
      × (digit_value (decimal_digit d) ≡ d)
      × (d ≢ 0 → decimal_digit d ≢ b'0')
unfolding decimal_digit
decimal_ok d h =
    let e : (d + b'0') % 256 ≡ d + b'0' = omega arith in
    rw e (ground arith, ground arith, ground arith)

hex_ok :
    (d : ℕ)
    → d < 16
    → (is_digit 16 (hex_digit d) ≡ true)
      × (digit_value (hex_digit d) ≡ d)
      × (d ≢ 0 → hex_digit d ≢ b'0')
unfolding hex_digit
hex_ok d h = (ground arith, ground arith, ground arith)

-- `cs` is the numeral of `n` in a base, of at most `cap` digits and with no zero in front.
pub record IsNumeral (base cap n : ℕ) (cs : List ℕ) : Type 0 where
  pub digits : AllDigits base cs
  pub value : numeral_value base 0 cs ≡ n
  pub fits : length cs ≤ cap
  pub leading : (n ≡ 0) ⊎ NoLeadingZero cs

abbrev Prints : ℕ → ℕ → ℕ → Cmd Terminal (Unit {0}) → Type 0
Prints base cap n f =
    (cs : List ℕ) × IsNumeral base cap n cs × ((t : Terminal) → f t ≡ print_all cs t)

Prints-zero : (base cap : ℕ) → 0 < base → 0 < cap → Prints base cap 0 (print_char b'0')
unfolding print_all numeral_value
Prints-zero base cap pos room = (
  b'0' ∷ [],
  record {
    digits = (ground arith, tt);
    value = omega arith;
    fits = omega arith;
    leading = inl refl;
  },
  λ t. and_then_pure (print_char b'0' t),
)

Prints-array :
    (base cap n : ℕ) (r : Option (ℕ × Array))
    → Converted base cap n [] r
    → n ≢ 0
    → Prints base cap n (print_array r)
unfolding print_array
Prints-array base cap n r c ne = (
  c.chars,
  record {
    digits = c.digits;
    value = c.value ∙ unfold numeral_value in refl;
    fits = c.fits;
    leading = inr (c.leading ne);
  },
  λ t. rw (c.returns, print_array) (print_back-Holds c.chars c.array t c.holds),
)

-- `PrintNum` of a 32-bit number is `PrintChar` on each character, in order, of its decimal numeral:
-- digits only, of the number's value, at most ten, with no zero in front unless the number is 0.
-- Neither the fuel nor the array of ten characters runs out.
pub print_num-IsNumeral : (n : ℕ) → n < 2 ^ 32 → Prints 10 10 n (print_num n)
unfolding print_num
print_num-IsNumeral zero h = Prints-zero 10 10 (omega arith) (omega arith)
print_num-IsNumeral (suc m) h = rw (nonzero_test m) (
    Prints-array 10 10 (suc m) _
      (num_loop-Converted 10 10 decimal_digit (omega arith) (omega arith) decimal_ok 10 11 (suc m)
        (λ k. none) [] (omega arith) (omega arith) (omega arith) tt tt)
      (λ e. absurd (omega arith)))

-- `PrintHex` of a 64-bit number is `PrintChar` on each character, in order, of its hexadecimal
-- numeral: digits and capital letters only, of the number's value, at most sixteen, with no zero in
-- front unless the number is 0. Neither the fuel nor the array of sixteen characters runs out.
pub print_hex-IsNumeral : (n : ℕ) → n < 2 ^ 64 → Prints 16 16 n (print_hex n)
unfolding print_hex
print_hex-IsNumeral zero h = Prints-zero 16 16 (omega arith) (omega arith)
print_hex-IsNumeral (suc m) h = rw (nonzero_test m) (
    Prints-array 16 16 (suc m) _
      (num_loop-Converted 16 16 hex_digit (omega arith) (omega arith) hex_ok 16 17 (suc m)
        (λ k. none) [] (omega arith) (omega arith) (omega arith) tt tt)
      (λ e. absurd (omega arith)))
