-- ===== src/Paging/Leaf.antt =====
-- Writing an entry of a page table: it maps its own page, and no other.
use fur_os.Prelude.{
  ℕ, ◌+◌, ◌*◌, ◌%◌, ◌<◌, ◌≡◌, ◌≢◌, ◌⊎◌, inl, inr, some, List, [], ◌∷◌, length, arith, Bool-cases,
}
use fur_os.Memory.{Memory, store_le}
use fur_os.Paging.{present}
use fur_os.Paging.Entry.{entry, entry-set_ne}
use fur_os.Paging.Tree.{walk, Owner, page_of, pml4_index, pdpt_index, pd_index, pt_index}
use fur_os.Paging.Link.{Children, IsIndices, longer_differs}

-- The path of the entry at which a walk ends.
abbrev pub end_of : List ℕ → ℕ → List ℕ → List ℕ
end_of q i [] = i ∷ q
end_of q i (j ∷ is) = end_of (i ∷ q) j is

-- Where two addresses have the same four indices, they lie in the same page.
pub page_of_indices :
    (a b : ℕ)
    → pml4_index a ≡ pml4_index b
    → pdpt_index a ≡ pdpt_index b
    → pd_index a ≡ pd_index b
    → pt_index a ≡ pt_index b
    → page_of a ≡ page_of b
page_of_indices a b h k l n = omega arith

pub indices_of_page :
    (a b : ℕ)
    → page_of a ≡ page_of b
    → (pml4_index a ≡ pml4_index b)
      × (pdpt_index a ≡ pdpt_index b)
      × (pd_index a ≡ pd_index b)
      × (pt_index a ≡ pt_index b)
indices_of_page a b h = omega arith

-- The memory after `table[e] = v`.
abbrev pub written : Memory → ℕ → ℕ → ℕ → Memory
written m t e v = store_le 8 m (t + 8 * e) v

module _ (own : Owner) (m : Memory) (t e v : ℕ) (p : List ℕ) (children : Children own m)
    (aligned : (u : ℕ) (q : List ℕ) → own u ≡ some q → u % 4096 ≡ 0) (owned : own t ≡ some p)
    (last : length p ≡ 3) (bound : e < 512) where
  entry-after :
      (u i : ℕ) (q : List ℕ)
      → own u ≡ some q
      → i < 512
      → (u ≢ t) ⊎ (i ≢ e)
      → entry (written m t e v) u i ≡ entry m u i
  entry-after u i q o b ne = entry-set_ne m t u e i v (aligned t p owned) (aligned u q o) bound b ne

  -- Above the last level nothing changes.
  pub entry-above :
      (u i : ℕ) (q : List ℕ)
      → own u ≡ some q
      → length q < 3
      → i < 512
      → entry (written m t e v) u i ≡ entry m u i
  entry-above u i q o short b =
      entry-after u i q o b (inl λ x. longer_differs own owned o (omega arith) (ground arith))

  same_end : (u i : ℕ) (q : List ℕ) → own u ≡ some q → i ∷ q ≢ e ∷ p → (u ≢ t) ⊎ (i ≢ e)
  same_end u i q o ne = ground arith

  pub walk-after :
      (is : List ℕ) (u i : ℕ) (q : List ℕ)
      → own u ≡ some q
      → i < 512
      → IsIndices is
      → length q + length is ≡ 3
      → end_of q i is ≢ e ∷ p
      → walk (written m t e v) u i is ≡ walk m u i is
  unfolding walk
  walk-after [] u i q o b bs len ne = rw (entry-after u i q o b (same_end u i q o ne))
  walk-after (j ∷ is) u i q o b bs len ne =
      rw (entry-above u i q o (omega arith) b) (elim (Bool-cases (present (entry m u i))) [
        | inl is_in ↦ rw is_in (
            walk-after is _ j (i ∷ q) (children u i q o (omega arith) b is_in) bs.0 bs.1
              (omega arith) ne)
        | inr out ↦ rw out
      ])

  -- Nor does a walk that ends above it.
  pub walk-above :
      (is : List ℕ) (u i : ℕ) (q : List ℕ)
      → own u ≡ some q
      → i < 512
      → IsIndices is
      → length q + length is < 3
      → walk (written m t e v) u i is ≡ walk m u i is
  unfolding walk
  walk-above [] u i q o b bs len = rw (entry-above u i q o (omega arith) b)
  walk-above (j ∷ is) u i q o b bs len =
      rw (entry-above u i q o (omega arith) b) (elim (Bool-cases (present (entry m u i))) [
        | inl is_in ↦ rw is_in (
            walk-above is _ j (i ∷ q) (children u i q o (omega arith) b is_in) bs.0 bs.1
              (omega arith))
        | inr out ↦ rw out
      ])
