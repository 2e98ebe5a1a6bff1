-- ===== src/Paging/Link.antt =====
-- Linking a table into the tree: no translation changes.
use fur_os.Prelude.{
  ℕ, ◌+◌, ◌<◌, ◌≡◌, ◌≢◌, refl, sym, ◌∙◌, ◌⊎◌, inl, inr, true, false, ◌==◌, if◌then◌else◌, none,
  some, List, [], ◌∷◌, length, arith, Bool-cases, ap,
}
use fur_os.Memory.{Memory}
use fur_os.Paging.{present, table_of}
use fur_os.Paging.Entry.{entry}
use fur_os.Paging.Tree.{walk, Owner}

-- From `m` to `m'` the entry `e` of `t` came to lead to the table at `n`: it led there before, or
-- was not present, and then `n` is a new empty table. Every other entry of a table is as before.
pub record IsLinked (own : Owner) (m m' : Memory) (t e n : ℕ) : Type 0 where
  pub leads : present (entry m' t e) ≡ true
  pub target : table_of (entry m' t e) ≡ n
  pub others :
      (u i : ℕ) (q : List ℕ)
      → own u ≡ some q
      → i < 512
      → (u ≢ t) ⊎ (i ≢ e)
      → entry m' u i ≡ entry m u i
  pub source :
      ((present (entry m t e) ≡ true) × (table_of (entry m t e) ≡ n))
      ⊎ ((present (entry m t e) ≡ false)
          × (own n ≡ none)
          × ((i : ℕ) → i < 512 → present (entry m' n i) ≡ false))

-- Every index is below 512.
abbrev pub IsIndices : List ℕ → Type 0
IsIndices [] = Unit {0}
IsIndices (i ∷ is) = (i < 512) × IsIndices is

abbrev pub Children : Owner → Memory → Type 0
Children own m =
    (t i : ℕ) (p : List ℕ)
    → own t ≡ some p
    → length p < 3
    → i < 512
    → present (entry m t i) ≡ true
    → own (table_of (entry m t i)) ≡ some (i ∷ p)

-- The owner that knows the table at `n` too.
abbrev pub grow : Owner → ℕ → List ℕ → Owner
grow own n p u = if u == n then some p else own u

-- The tables and their links are kept, and so is every translation.
pub record Extends (root : ℕ) (own own' : Owner) (m m' : Memory) : Type 0 where
  pub grows : (u : ℕ) (q : List ℕ) → own u ≡ some q → own' u ≡ some q
  pub links :
      (u i : ℕ) (q : List ℕ)
      → own u ≡ some q
      → length q < 3
      → i < 512
      → present (entry m u i) ≡ true
      → (present (entry m' u i) ≡ true) × (table_of (entry m' u i) ≡ table_of (entry m u i))
  pub walks :
      (i : ℕ) (is : List ℕ)
      → i < 512
      → IsIndices is
      → length is ≡ 3
      → walk m' root i is ≡ walk m root i is

same_entry : (u i t e : ℕ) → ((u ≡ t) × (i ≡ e)) ⊎ ((u ≢ t) ⊎ (i ≢ e))
same_entry u i t e = ground arith

walk-empty :
    (m : Memory) (n j : ℕ) (is : List ℕ) → present (entry m n j) ≡ false → walk m n j is ≡ none
unfolding walk
walk-empty m n j [] h = rw h
walk-empty m n j (k ∷ is) h = rw h

pub longer_differs :
    (own : Owner) {t u : ℕ} {p q : List ℕ}
    → own u ≡ some q
    → own t ≡ some p
    → length p < length q
    → u ≢ t
longer_differs own {p} {q} a b h e = let same : q ≡ p = cc in absurd (omega (arith, ap length same))

module _ {own : Owner} {m m' : Memory} {t e n : ℕ} {p : List ℕ} (children : Children own m)
    (owned : own t ≡ some p) (above : length p < 3) (bound : e < 512)
    (l : IsLinked own m m' t e n) where
  -- At the link itself, given that the walk below it is the same.
  walk-at_link :
      (q : List ℕ) (j : ℕ) (is : List ℕ)
      → own t ≡ some q
      → length q < 3
      → j < 512
      → (own n ≡ some (e ∷ q) → walk m' n j is ≡ walk m n j is)
      → walk m' t e (j ∷ is) ≡ walk m t e (j ∷ is)
  unfolding walk
  walk-at_link q j is o short b below = elim l.source [
    | inl (old, to) ↦
        rw (l.leads, l.target, old, to) (below (rw to at (children t e q o short bound old)))
    | inr (new, free, empty) ↦ rw (l.leads, l.target, new) (walk-empty m' n j is (empty j b))
  ]

  pub walk-linked :
      (is : List ℕ) (u i : ℕ) (q : List ℕ)
      → own u ≡ some q
      → i < 512
      → IsIndices is
      → length q + length is ≡ 3
      → walk m' u i is ≡ walk m u i is
  unfolding walk
  walk-linked [] u i q o b bs len =
      rw (l.others u i q o b (inl (λ x. longer_differs own o owned (omega arith) x)))
  walk-linked (j ∷ is) u i q o b bs len = elim (same_entry u i t e) [
    | inl (x, y) ↦
        let o' : own t ≡ some q = rw x at o in
        rw (x, y)
          (walk-at_link q j is o' (omega arith) bs.0
            (λ h. walk-linked is n j (e ∷ q) h bs.0 bs.1 (omega arith)))
    | inr ne ↦ rw (l.others u i q o b ne) (elim (Bool-cases (present (entry m u i))) [
      | inl is_in ↦ rw is_in (
          walk-linked is _ j (i ∷ q) (children u i q o (omega arith) b is_in) bs.0 bs.1
            (omega arith))
      | inr out ↦ rw out
    ])
  ]

  pub grow-grows : (u : ℕ) (q : List ℕ) → own u ≡ some q → grow own n (e ∷ p) u ≡ some q
  grow-grows u q o = elim l.source [
    | inl (old, to) ↦ ground (arith, rw to at (children t e p owned above bound old))
    | inr (new, free, empty) ↦ ground arith
  ]

  links-linked :
      (u i : ℕ) (q : List ℕ)
      → own u ≡ some q
      → length q < 3
      → i < 512
      → present (entry m u i) ≡ true
      → (present (entry m' u i) ≡ true) × (table_of (entry m' u i) ≡ table_of (entry m u i))
  links-linked u i q o short b h = elim (same_entry u i t e) [
    | inl (x, y) ↦ rw (x, y) (link_source l.source (rw (x, y) at h))
    | inr ne ↦ rw (l.others u i q o b ne) (h, refl)
  ]
    where
      link_source :
          ((present (entry m t e) ≡ true) × (table_of (entry m t e) ≡ n))
            ⊎ ((present (entry m t e) ≡ false)
                × (own n ≡ none)
                × ((k : ℕ) → k < 512 → present (entry m' n k) ≡ false))
          → present (entry m t e) ≡ true
          → (present (entry m' t e) ≡ true) × (table_of (entry m' t e) ≡ table_of (entry m t e))
      link_source (inl (old, to)) g = (l.leads, l.target ∙ sym to)
      link_source (inr (new, free, empty)) g = cc

  pub Extends-linked : (root : ℕ) → own root ≡ some [] → Extends root own (grow own n (e ∷ p)) m m'
  Extends-linked root r = record {
    grows = grow-grows;
    links = links-linked;
    walks = λ i is b bs len. walk-linked is root i [] r b bs (omega arith);
  }

  -- A table that the grown owner knows and that has an entry was known before.
  owned_before :
      (u i : ℕ) (q : List ℕ)
      → grow own n (e ∷ p) u ≡ some q
      → i < 512
      → present (entry m' u i) ≡ true
      → own u ≡ some q
  owned_before u i q o b h = elim l.source [
    | inl (old, to) ↦ ground (arith, rw to at (children t e p owned above bound old))
    | inr (new, free, empty) ↦ ground (arith, empty i)
  ]

  pub Children-linked : Children (grow own n (e ∷ p)) m'
  Children-linked u i q o short b h =
      let o' = owned_before u i q o b h in
      elim (same_entry u i t e) [
        | inl (x, y) ↦ ground (arith, l.target)
        | inr ne ↦
            rw (l.others u i q o' b ne)
              (grow-grows _ (i ∷ q) (children u i q o' short b (rw (l.others u i q o' b ne) at h)))
      ]
