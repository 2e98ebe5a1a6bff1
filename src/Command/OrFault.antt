-- ===== src/Command/OrFault.antt =====
-- Partial correctness of a command: where it does not fault, its result meets a postcondition.
use fur_os.Prelude.{ℕ, zero, suc, ◌+◌, ◌≡◌}
use fur_os.Command.{Outcome, ok, fault, Cmd, and_then, for_range}

module _ {S A : Type 0} where
  pub data OrFault (P : A → S → Type 0) : Outcome S A → Type 0 where
    good : {a : A} {s : S} → P a s → OrFault P (ok a s)
    bad : OrFault P fault

module _ {S A : Type 0} {P : A → S → Type 0} where
  pub OrFault-bind :
      {B : Type 0} {Q : B → S → Type 0} {r : Outcome S A} {k : A → Cmd S B}
      → OrFault P r
      → ((a : A) (s : S) → P a s → OrFault Q (k a s))
      → OrFault Q (and_then r k)
  OrFault-bind (good p) next = next _ _ p
  OrFault-bind bad next = bad

  good_inverse : {a : A} {s : S} → OrFault P (ok a s) → P a s
  good_inverse (good p) = p

  -- An `ok` result meets it.
  pub OrFault-ok : {r : Outcome S A} {a : A} {s : S} → OrFault P r → r ≡ ok a s → P a s
  OrFault-ok h e = good_inverse (rw e at h)

-- A counted loop keeps what its body keeps.
pub for_range-OrFault :
    {S : Type 0} (P : S → Type 0) (body : ℕ → Cmd S (Unit {0}))
    → ((i : ℕ) (s : S) → P s → OrFault (λ _ s'. P s') (body i s))
    → (n i : ℕ) (s : S) → P s
    → OrFault (λ _ s'. P s') (for_range n i body s)
unfolding for_range
for_range-OrFault P body keep zero i s h = good h
for_range-OrFault P body keep (suc n) i s h =
    OrFault-bind (keep i s h) (λ _ s' h'. for_range-OrFault P body keep n (i + 1) s' h')
