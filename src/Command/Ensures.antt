-- ===== src/Command/Ensures.antt =====
-- Total correctness of a command: it does not fault, and its result meets a postcondition.
use fur_os.Prelude.{ℕ, zero, suc, ◌+◌, ◌<◌, ◌≡◌, refl, arith}
use fur_os.Command.{Outcome, ok, Cmd, and_then, for_range}

module _ {S A : Type 0} where
  pub data Ensures (P : A → S → Type 0) : Outcome S A → Type 0 where
    ensures : {a : A} {s : S} → P a s → Ensures P (ok a s)

module _ {S A : Type 0} {P : A → S → Type 0} where
  pub bind :
      {B : Type 0} {Q : B → S → Type 0} {r : Outcome S A} {k : A → Cmd S B}
      → Ensures P r
      → ((a : A) (s : S) → P a s → Ensures Q (k a s))
      → Ensures Q (and_then r k)
  bind (ensures p) next = next _ _ p

  pub weaken :
      {Q : A → S → Type 0} {r : Outcome S A}
      → Ensures P r
      → ((a : A) (s : S) → P a s → Q a s)
      → Ensures Q r
  weaken (ensures p) f = ensures (f _ _ p)

-- The rule for a counted loop, with an invariant that knows the number of rounds done.
pub for_range-Ensures :
    {S : Type 0} (P : ℕ → S → Type 0) (body : ℕ → Cmd S (Unit {0})) (hi : ℕ)
    → ((i : ℕ) (s : S) → i < hi → P i s → Ensures (λ _ s'. P (i + 1) s') (body i s))
    → (n i : ℕ) (s : S) → i + n ≡ hi
    → P i s
    → Ensures (λ _ s'. P hi s') (for_range n i body s)
unfolding for_range
for_range-Ensures P body hi keep zero i s e h =
    let e' : i ≡ hi = omega arith in ensures (rw e' at h)
for_range-Ensures P body hi keep (suc n) i s e h =
    bind (keep i s (omega arith) h)
      (λ _ s' h'. for_range-Ensures P body hi keep n (i + 1) s' (omega arith) h')

-- Two postconditions of one outcome.
pub both :
    {S A : Type 0} {P Q : A → S → Type 0} {r : Outcome S A}
    → Ensures P r
    → Ensures Q r
    → Ensures (λ a s. P a s × Q a s) r
both (ensures p) (ensures q) = ensures (p, q)

pub result_of :
    {S A : Type 0} {P : A → S → Type 0} {r : Outcome S A}
    → Ensures P r
    → (a : A) × (s : S) × (r ≡ ok a s) × P a s
result_of (ensures p) = (_, _, refl, p)
