-- ===== src/Stub/Kept.antt =====
-- Page tables whose pages are as they were map what they mapped.
use fur_os.Prelude.{
  ℕ, ◌+◌, ◌*◌, ◌<◌, ◌≡◌, ◌≤◌, ◌∙◌, refl, inl, inr, some, List, [], ◌∷◌, length, arith, Bool-cases,
}
use fur_os.Command.Ensures.{Ensures, ensures}
use fur_os.Memory.Laws.{load_le-agree}
use fur_os.Efi.{BootServices, Machine}
use fur_os.Paging.{present, table_of}
use fur_os.Paging.Entry.{entry}
use fur_os.Paging.Tree.{walk, translate, Owner, IsTree, pml4_index, pdpt_index, pd_index, pt_index}
use fur_os.Paging.Leads.{Leads}
use fur_os.Paging.Link.{IsIndices}
use fur_os.Pool.{PoolServices, get_memory_map}
use fur_os.Pool.Pages.{SameOn}
use fur_os.Pool.Map.{Returned, get_memory_map-Returned}
use fur_os.Stub.{get_map, allocate}
use fur_os.Stub.Areas.{Area, Confined, Extends}

module _ (B : BootServices) (root : ℕ) (own : Owner) (s s' : Machine B) (t : IsTree B root own s)
    (memory : (u j : ℕ) (q : List ℕ)
      → own u ≡ some q
      → j < 4096
      → s'.memory (u + j) ≡ s.memory (u + j))
    (in_use : (a : ℕ) → B.InUse s.boot a → B.InUse s'.boot a) where
  entry-same :
      (u i : ℕ) (q : List ℕ) → own u ≡ some q → i < 512 → entry s'.memory u i ≡ entry s.memory u i
  entry-same u i q o b =
      load_le-agree 8 4096 s.memory s'.memory u (8 * i) (λ j lt. memory u j q o lt) (omega arith)

  IsTree-same : IsTree B root own s'
  IsTree-same = record {
    root_owned = t.root_owned;
    child_owned = λ u i q o short b h.
        let e = entry-same u i q o b in rw e (t.child_owned u i q o short b (rw e at h));
    aligned = t.aligned;
    in_use = λ u q o. in_use u (t.in_use u q o);
  }

  walk-same :
      (is : List ℕ) (u i : ℕ) (q : List ℕ)
      → own u ≡ some q
      → i < 512
      → IsIndices is
      → length q + length is ≤ 3
      → walk s'.memory u i is ≡ walk s.memory u i is
  unfolding walk
  walk-same [] u i q o b bs len = rw (entry-same u i q o b)
  walk-same (j ∷ is) u i q o b bs len =
      rw (entry-same u i q o b) (elim (Bool-cases (present (entry s.memory u i))) [
        | inl is_in ↦ rw is_in (
            walk-same is (table_of (entry s.memory u i)) j (i ∷ q)
              (t.child_owned u i q o (omega arith) b is_in) bs.0 bs.1 (omega arith))
        | inr out ↦ rw out
      ])

  pub translate-same : (va : ℕ) → translate s'.memory root va ≡ translate s.memory root va
  unfolding translate
  translate-same va =
      walk-same (pdpt_index va ∷ pd_index va ∷ pt_index va ∷ []) root (pml4_index va) []
        t.root_owned (omega arith) (omega arith, (omega arith, (omega arith, tt))) (omega arith)

  Leads-same : (va pt : ℕ) → Leads s.memory root va pt → Leads s'.memory root va pt
  Leads-same va pt (e, h, to) = (
    e,
    walk-same (pdpt_index va ∷ pd_index va ∷ []) root (pml4_index va) [] t.root_owned (omega arith)
          (omega arith, (omega arith, tt)) (omega arith)
        ∙ h,
    to,
  )

module _ (B : BootServices) (root : ℕ) (areas : List Area) where
  -- Every table is a page in use.
  pub on_tables :
      (s s' : Machine B) (c : Confined B root areas s)
      → SameOn (B.InUse s.boot) s.memory s'.memory
      → (u j : ℕ) (q : List ℕ) → c.own u ≡ some q
      → j < 4096
      → s'.memory (u + j) ≡ s.memory (u + j)
  on_tables s s' c memory u j q o lt = memory u j (c.tree.in_use u q o) lt

  Extends-same :
      (s s' : Machine B) (c : Confined B root areas s)
      → SameOn (B.InUse s.boot) s.memory s'.memory
      → ((a : ℕ) → B.InUse s.boot a → B.InUse s'.boot a)
      → Extends B root areas c.own s s'
  Extends-same s s' c memory in_use = (
    record {
      own = c.own;
      tree = IsTree-same B root c.own s s' c.tree (on_tables s s' c memory) in_use;
      entries = λ va e h.
          c.entries va e
            (rw (translate-same B root c.own s s' c.tree (on_tables s s' c memory) in_use va) at h);
    },
    record { kept = in_use; unowned = λ v u o. o; memory = λ v j u a o lt. memory v j u lt },
  )

  pub get_map-Confined :
      (P : PoolServices B) (s : Machine B) (c : Confined B root areas s)
      → Ensures (λ _ s'. Extends B root areas c.own s s') (get_map B P s)
  unfolding get_map Returned
  get_map-Confined P s c =
      let (_, kept) = get_memory_map-Returned B P s in
      ensures (Extends-same s (get_memory_map B P s).1 c kept.memory kept.in_use)

  pub get_map-Leads :
      (P : PoolServices B) (s : Machine B)
      → Confined B root areas s
      → (va pt : ℕ) → Leads s.memory root va pt
      → Ensures (λ _ s'. Leads s'.memory root va pt) (get_map B P s)
  unfolding get_map Returned
  get_map-Leads P s c va pt led =
      let (_, kept) = get_memory_map-Returned B P s in
      ensures (
        Leads-same B root c.own s (get_memory_map B P s).1 c.tree
          (on_tables s (get_memory_map B P s).1 c kept.memory) kept.in_use va pt led)

  pub allocate-Confined :
      {A : Type 0} (old : A) (set : ℕ → A) (count : ℕ) (s : Machine B) (c : Confined B root areas s)
      → Ensures (λ _ s'. Extends B root areas c.own s s') (allocate B old set count s)
  unfolding allocate
  allocate-Confined old set count s c = ensures (
      Extends-same s (record s { boot = (B.allocate_pages s.boot count).state }) c
        (λ a j u lt. refl) (λ a u. B.page_kept s.boot count a u))
