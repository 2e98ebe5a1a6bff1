-- ===== src/Command.antt =====
-- Commands of the C code over a state: a result and the new state, or a fault, which is a use of an
-- object that C leaves undefined (an index out of range, a variable that was never set), or a
-- loop that is known not to end.
pub mod Ensures
pub mod OrFault
use fur_os.Prelude.{ℕ, zero, suc, ◌+◌, ◌≡◌, refl}

pub data Outcome (S A : Type 0) : Type 0 where
  ok : A → S → Outcome S A
  fault : Outcome S A

abbrev pub Cmd : Type 0 → Type 0 → Type 0
Cmd S A = S → Outcome S A

module _ {S : Type 0} where
  abbrev pub pure : {A : Type 0} → A → Cmd S A
  pure = ok

  abbrev pub and_then : {A B : Type 0} → Outcome S A → (A → Cmd S B) → Outcome S B
  and_then (ok a s) k = k a s
  and_then fault k = fault

  pub and_then_assoc :
      {A B C : Type 0} (r : Outcome S A) (k : A → Cmd S B) (l : B → Cmd S C)
      → and_then (and_then r k) l ≡ and_then r (λ a s. and_then (k a s) l)
  and_then_assoc (ok a s) k l = refl
  and_then_assoc fault k l = refl

  pub and_then_pure : (r : Outcome S (Unit {0})) → r ≡ and_then r (λ _. ok tt)
  and_then_pure (ok a s) = refl
  and_then_pure fault = refl

  infixl 5 ◌>>=◌ ◌>>◌
  abbrev pub ◌>>=◌ : {A B : Type 0} → Cmd S A → (A → Cmd S B) → Cmd S B
  m >>= k = λ s. and_then (m s) k

  abbrev pub ◌>>◌ : {A B : Type 0} → Cmd S A → Cmd S B → Cmd S B
  m >> k = m >>= λ _. k

  -- `for (i = from; i < from + n; i++) body(i)`
  unfoldable pub for_range : ℕ → ℕ → (ℕ → Cmd S (Unit {0})) → Cmd S (Unit {0})
  for_range zero i body = pure tt
  for_range (suc n) i body = body i >> for_range n (i + 1) body
