-- ===== src/Paging/Leads.antt =====
-- The processor's walk to a page table, and on from it to an entry.
use fur_os.Prelude.{
  ℕ, ◌≡◌, inl, inr, none, some, List, [], ◌∷◌, ◌++◌, ◌∙◌, Bool-cases, if◌then◌else◌,
}
use fur_os.Memory.{Memory}
use fur_os.Paging.{present, table_of}
use fur_os.Paging.Entry.{entry}
use fur_os.Paging.Tree.{walk, translate, pml4_index, pdpt_index, pd_index, pt_index}

-- The upper three levels of the walk for `va` end at the page table `pt`.
abbrev pub Leads : Memory → ℕ → ℕ → ℕ → Type 0
Leads m root va pt =
    (e : ℕ) × (walk m root (pml4_index va) (pdpt_index va ∷ pd_index va ∷ []) ≡ some e)
    × (table_of e ≡ pt)

-- One level more.
walk_on :
    (m : Memory) (is : List ℕ) (t i j e : ℕ)
    → walk m t i is ≡ some e
    → walk m t i (is ++ (j ∷ [])) ≡ walk m (table_of e) j []
unfolding walk
walk_on m [] t i j e h = elim (Bool-cases (present (entry m t i))) [
  | inl is_in ↦
      let h' : some (entry m t i) ≡ some e = rw is_in at h in
      let same : entry m t i ≡ e = cc h' in rw (is_in, same)
  | inr out ↦ cc (rw out at h)
]
walk_on m (k ∷ is) t i j e h = elim (Bool-cases (present (entry m t i))) [
  | inl is_in ↦ rw is_in (walk_on m is (table_of (entry m t i)) k j e (rw is_in at h))
  | inr out ↦ cc (rw out at h)
]

pub translate-Leads :
    (m : Memory) (root va pt : ℕ)
    → Leads m root va pt
    → translate m root va
      ≡ (if present (entry m pt (pt_index va)) then some (entry m pt (pt_index va)) else none)
unfolding translate
translate-Leads m root va pt (e, h, to) =
    walk_on m (pdpt_index va ∷ pd_index va ∷ []) root (pml4_index va) (pt_index va) e h
    ∙ (unfold walk in rw to)
