-- ===== src/Terminal/Text.antt =====
-- `PrintString` of src/Terminal/stdio.c, and printing in two parts.
use fur_os.Prelude.{ℕ, ◌+◌, ◌^◌, ◌<◌, ◌≡◌, refl, List, [], ◌∷◌, ◌++◌, length, arith, ap}
use mathlib.Core.Path.{fun_ext}
use fur_os.Command.{Outcome, ok, fault, and_then}
use fur_os.Memory.{Memory}
use fur_os.Str.Laws.{IsString, strlen-length}
use fur_os.Terminal.{Terminal, print_char, print_string_loop, print_string}
use fur_os.Terminal.Number.{print_all}

print_string_loop-all :
    (cs : List ℕ) (m : Memory) (a i : ℕ) (t : Terminal)
    → IsString m (a + i) cs
    → print_string_loop m a (length cs) i t ≡ print_all cs t
unfolding print_string_loop print_all
print_string_loop-all [] m a i t h = refl
print_string_loop-all (c ∷ cs) m a i t (here, ne, rest) =
    let there : a + i + 1 ≡ a + (i + 1) = omega arith in
    rw here (
      ap (λ k. and_then (print_char c t) (λ _. k))
        (fun_ext λ s. print_string_loop-all cs m a (i + 1) s (rw there at rest)))

-- On a string of fewer than 2 ^ 31 characters, with fuel above its length, `PrintString` is `PrintChar`
-- on each character before the terminating zero, in order.
pub print_string-all :
    (cs : List ℕ) (fuel : ℕ) (m : Memory) (a : ℕ) (t : Terminal)
    → IsString m a cs
    → length cs < fuel
    → length cs < 2 ^ 31
    → print_string fuel m a t ≡ print_all cs t
unfolding print_string
print_string-all cs fuel m a t h f small =
    let start : a ≡ a + 0 = omega arith in
    rw (strlen-length cs fuel m a h f (omega arith), print_string)
      (print_string_loop-all cs m a 0 t (rw start at h))

pub print_all-++ :
    (cs ds : List ℕ) (t : Terminal)
    → print_all (cs ++ ds) t ≡ and_then (print_all cs t) (λ _. print_all ds)
unfolding print_all
print_all-++ [] ds t = refl
print_all-++ (c ∷ cs) ds t = after (print_char c t) (print_all-++ cs ds)
  where
    after :
        (r : Outcome Terminal (Unit {0}))
        → ((t : Terminal) → print_all (cs ++ ds) t ≡ and_then (print_all cs t) (λ _. print_all ds))
        → and_then r (λ _. print_all (cs ++ ds))
          ≡ and_then (and_then r (λ _. print_all cs)) (λ _. print_all ds)
    after (ok a s) h = h s
    after fault h = refl
