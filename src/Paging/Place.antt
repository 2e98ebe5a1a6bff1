-- ===== src/Paging/Place.antt =====
-- Three levels of tables and a write at the last, the common part of `MMap` and `MakeTempRegion`,
-- refines an update of a map from pages to entries.
use fur_os.Prelude.{
  ℕ, ◌%◌, ◌^◌, ◌<◌, ◌≡◌, ◌≢◌, refl, ◌∙◌, ◌⊎◌, inl, inr, true, Option, some, List, [], ◌∷◌, length,
  arith, Bool-cases, if◌then◌else◌, ◌==◌,
}
use fur_os.Command.{Cmd, pure, ◌>>◌}
use fur_os.Command.Ensures.{Ensures, ensures}
use fur_os.Memory.{Memory}
use fur_os.Efi.{BootServices, Machine, efi_success, efi_error}
use fur_os.Paging.{present, table_of, descend, set_entry}
use fur_os.Paging.Entry.{entry, present_lem, entry-set_self}
use fur_os.Paging.Tree.{
  walk, translate, Owner, IsTree, page_of, pml4_index, pdpt_index, pd_index, pt_index,
}
use fur_os.Paging.Spares.{Spares, Spares-trans, store-other}
use fur_os.Paging.Leads.{Leads, translate-Leads}
use fur_os.Paging.Link.{Extends}
use fur_os.Paging.Leaf.{page_of_indices, indices_of_page, written, entry-above, walk-after}
use fur_os.Paging.Descend.{Reached, descend-Ensures}

-- The path of the page table that maps `va`.
abbrev pub path_of : ℕ → List ℕ
path_of va = pd_index va ∷ pdpt_index va ∷ pml4_index va ∷ []

page_of_path :
    (a b : ℕ)
    → (pt_index a ∷ pd_index a ∷ pdpt_index a ∷ pml4_index a ∷ []) ≡ pt_index b ∷ path_of b
    → page_of a ≡ page_of b
page_of_path a b e = page_of_indices a b (cc) (cc) (cc) (cc)

pub translate-page :
    (m : Memory) (root a b : ℕ) → page_of a ≡ page_of b → translate m root a ≡ translate m root b
unfolding translate
translate-page m root a b h = let (h4, h3, h2, h1) = indices_of_page a b h in rw (h4, h3, h2, h1)

module _ (B : BootServices) (root : ℕ) where
  -- The map from pages to entries after one of the two functions: the page of `virt` has the entry
  -- that `leaf` gives for its page table, to which the upper levels lead, and all others are as
  -- before; or, with an error, none
  -- has changed. Either way the tables still form a tree, and the other pages in use are spared.
  pub record IsMapped (leaf : ℕ → ℕ) (virt : ℕ) (old : Owner) (s : Machine B) (status : ℕ)
      (s' : Machine B) : Type 0 where
    pub own : Owner
    pub tree : IsTree B root own s'
    pub spares : Spares B old s own s'
    pub outcome :
        ((status ≡ efi_success)
          × ((pt : ℕ) × (own pt ≡ some (path_of virt))
              × Leads s'.memory root virt pt
              × ((va : ℕ)
                  → translate s'.memory root va ≡ (
                      if page_of va == page_of virt
                      then some (leaf pt)
                      else translate s.memory root va))))
        ⊎ ((efi_error status ≡ true)
            × ((va : ℕ) → translate s'.memory root va ≡ translate s.memory root va))

  Extends-trans :
      {own own' own'' : Owner} (s s' s'' : Machine B)
      → Extends root own own' s.memory s'.memory
      → Extends root own' own'' s'.memory s''.memory
      → Extends root own own'' s.memory s''.memory
  Extends-trans s s' s'' x y = record {
    grows = λ u q o. y.grows u q (x.grows u q o);
    links = λ u i q o short b h.
        let (h', e') = x.links u i q o short b h in
        let (h'', e'') = y.links u i q (x.grows u q o) short b h' in (h'', e'' ∙ e');
    walks = λ i is b bs len. y.walks i is b bs len ∙ x.walks i is b bs len;
  }

  translate-Extends :
      {own own' : Owner} (s s' : Machine B)
      → Extends root own own' s.memory s'.memory
      → (va : ℕ) → translate s'.memory root va ≡ translate s.memory root va
  unfolding translate
  translate-Extends s s' x va =
      x.walks (pml4_index va) (pdpt_index va ∷ pd_index va ∷ pt_index va ∷ []) (omega arith)
        (omega arith) refl

  -- An error on the way: nothing is mapped.
  IsMapped-failed :
      (leaf : ℕ → ℕ) (virt : ℕ) (own own' : Owner) (s s' : Machine B) (status : ℕ)
      → IsTree B root own' s'
      → Extends root own own' s.memory s'.memory
      → Spares B own s own' s'
      → efi_error status ≡ true
      → IsMapped leaf virt own s status s'
  IsMapped-failed leaf virt own own' s s' status tr x spares error = record {
    own = own';
    tree = tr;
    spares = spares;
    outcome = inr (error, translate-Extends s s' x);
  }

  module _ (own : Owner) (s : Machine B) (pt v virt : ℕ) (tr : IsTree B root own s)
      (owned : own pt ≡ some (path_of virt)) (odd : v % 2 ≡ 1) (fits : v < 2 ^ 64) where
    abbrev stored : Machine B
    stored = record s { memory = written s.memory pt (pt_index virt) v }

    pub IsTree-stored : IsTree B root own stored
    IsTree-stored = record {
      root_owned = tr.root_owned;
      child_owned = λ u i q o short b h.
          let same =
            entry-above own s.memory pt (pt_index virt) v (path_of virt) tr.child_owned tr.aligned
              owned refl (omega arith) u i q o short b in
          rw same (tr.child_owned u i q o short b (rw same at h));
      aligned = tr.aligned;
      in_use = tr.in_use;
    }

    Spares-stored : Spares B own s own stored
    Spares-stored = record {
      kept = λ a u. u;
      unowned = λ a u o. o;
      memory = λ a j u al o lt.
          store-other own s.memory pt (pt_index virt) v a j (path_of virt) owned
            (tr.aligned pt (path_of virt) owned) (omega arith) al o lt;
    }

    -- Another page ends at another entry.
    pub translate-other :
        (va : ℕ)
        → page_of va ≢ page_of virt
        → translate stored.memory root va ≡ translate s.memory root va
    unfolding translate
    translate-other va ne =
        walk-after own s.memory pt (pt_index virt) v (path_of virt) tr.child_owned tr.aligned owned
          refl (omega arith) (pdpt_index va ∷ pd_index va ∷ pt_index va ∷ []) root (pml4_index va)
          [] tr.root_owned (omega arith) (omega arith) refl (λ e. ne (page_of_path va virt e))

    -- The links from the root to the page table.
    module _ (pdpt pd : ℕ) (owned2 : own pdpt ≡ some (pml4_index virt ∷ []))
        (owned3 : own pd ≡ some (pdpt_index virt ∷ pml4_index virt ∷ []))
        (in1 : present (entry s.memory root (pml4_index virt)) ≡ true)
        (to1 : table_of (entry s.memory root (pml4_index virt)) ≡ pdpt)
        (in2 : present (entry s.memory pdpt (pdpt_index virt)) ≡ true)
        (to2 : table_of (entry s.memory pdpt (pdpt_index virt)) ≡ pd)
        (in3 : present (entry s.memory pd (pd_index virt)) ≡ true)
        (to3 : table_of (entry s.memory pd (pd_index virt)) ≡ pt) where
      above :
          (u i : ℕ) (q : List ℕ)
          → own u ≡ some q
          → length q < 3
          → i < 512
          → entry stored.memory u i ≡ entry s.memory u i
      above =
          entry-above own s.memory pt (pt_index virt) v (path_of virt) tr.child_owned tr.aligned
            owned refl (omega arith)

      Leads-stored : Leads stored.memory root virt pt
      unfolding walk
      Leads-stored = (
        entry s.memory pd (pd_index virt),
        rw (
          above root (pml4_index virt) [] tr.root_owned (omega arith) (omega arith),
          in1,
          to1,
          above pdpt (pdpt_index virt) _ owned2 (omega arith) (omega arith),
          in2,
          to2,
          above pd (pd_index virt) _ owned3 (omega arith) (omega arith),
          in3,
        ),
        to3,
      )

      translate_self : translate stored.memory root virt ≡ some v
      translate_self =
          translate-Leads stored.memory root virt pt Leads-stored
          ∙ rw (entry-set_self s.memory pt (pt_index virt) v fits, (present_lem v).1 odd)

  -- Three levels down and a write at the last one, as both functions do.
  abbrev pub place : (ret : ℕ → Option ℕ) → (leaf : ℕ → ℕ) → ℕ → Cmd (Machine B) ℕ
  place ret leaf virt = descend B root (pml4_index virt) (ret 1) λ pdpt.
      descend B pdpt (pdpt_index virt) (ret 2) λ pd.
        descend B pd (pd_index virt) (ret 3)
          λ pt. set_entry B pt (pt_index virt) (leaf pt) >> pure efi_success

  module _ (ret : ℕ → Option ℕ) (leaf : ℕ → ℕ) (virt : ℕ) (odd : (pt : ℕ) → leaf pt % 2 ≡ 1)
      (fits : (pt : ℕ) → leaf pt < 2 ^ 64) (own : Owner) (s : Machine B) where
    translate-placed :
        (own' : Owner) (s' : Machine B) (pt : ℕ)
        → IsTree B root own' s'
        → Extends root own own' s.memory s'.memory
        → own' pt ≡ some (path_of virt)
        → translate (written s'.memory pt (pt_index virt) (leaf pt)) root virt ≡ some (leaf pt)
        → (va : ℕ)
        → translate (written s'.memory pt (pt_index virt) (leaf pt)) root va
          ≡ (if page_of va == page_of virt then some (leaf pt) else translate s.memory root va)
    translate-placed own' s' pt tr x owned self va =
        elim (Bool-cases (page_of va == page_of virt)) [
          | inl same ↦ rw same (translate-page _ root va virt (ground arith) ∙ self)
          | inr other ↦ rw other (
              translate-other own' s' pt (leaf pt) virt tr owned (odd pt) (fits pt) va
                (ground arith)
              ∙ translate-Extends s s' x va)
        ]

    placed :
        (own1 own2 own3 : Owner) (s1 s2 s3 : Machine B) (pdpt pd pt : ℕ)
        → Reached B root own own1 s s1 root (pml4_index virt) pdpt (pml4_index virt ∷ [])
        → Reached B root own1 own2 s1 s2 pdpt
            (pdpt_index virt)
            pd
            (pdpt_index virt ∷ pml4_index virt ∷ [])
        → Reached B root own2 own3 s2 s3 pd (pd_index virt) pt (path_of virt)
        → IsMapped leaf virt own s efi_success
            (record s3 { memory = written s3.memory pt (pt_index virt) (leaf pt) })
    placed own1 own2 own3 s1 s2 s3 pdpt pd pt r1 r2 r3 =
        let spared3 =
          Spares-trans B s s1 s3 r1.grown.spares
            (Spares-trans B s1 s2 s3 r2.grown.spares r3.grown.spares) in
        let x23 = r3.grown.extends in
        let x13 = Extends-trans s1 s2 s3 r2.grown.extends x23 in
        let x03 = Extends-trans s s1 s3 r1.grown.extends x13 in
        let tr = r3.grown.tree in
        let (in1, to1) =
          x13.links root (pml4_index virt) [] r1.grown.tree.root_owned (omega arith) (omega arith)
            r1.leads in
        let (in2, to2) =
          x23.links pdpt (pdpt_index virt) _ r1_owned (omega arith) (omega arith) r2.leads in
        let o2 = x13.grows _ _ r1.owned in
        let o3 = x23.grows _ _ r2.owned in
        let self =
          translate_self own3 s3 pt (leaf pt) virt tr r3.owned (odd pt) (fits pt) pdpt pd o2 o3 in1
            (to1 ∙ r1.target) in2 (to2 ∙ r2.target) r3.leads r3.target in
        let led =
          Leads-stored own3 s3 pt (leaf pt) virt tr r3.owned (odd pt) (fits pt) pdpt pd o2 o3 in1
            (to1 ∙ r1.target) in2 (to2 ∙ r2.target) r3.leads r3.target in
        record {
          own = own3;
          spares =
              Spares-trans B s s3 _ spared3
                (Spares-stored own3 s3 pt (leaf pt) virt tr r3.owned (odd pt) (fits pt));
          tree = IsTree-stored own3 s3 pt (leaf pt) virt tr r3.owned (odd pt) (fits pt);
          outcome =
              inl (refl, (pt, r3.owned, led, translate-placed own3 s3 pt tr x03 r3.owned self));
        }
      where
        r1_owned : own2 pdpt ≡ some (pml4_index virt ∷ [])
        r1_owned = r2.grown.extends.grows _ _ r1.owned

    pub place-IsMapped :
        IsTree B root own s → Ensures (IsMapped leaf virt own s) (place ret leaf virt s)
    unfolding set_entry
    place-IsMapped tr =
        descend-Ensures B root own s root (pml4_index virt) [] tr tr.root_owned (omega arith)
          (omega arith) (ret 1) _
          (λ own' s' status g error.
            IsMapped-failed leaf virt own own' s s' status g.tree g.extends g.spares error)
          λ own1 s1 pdpt r1.
            descend-Ensures B root own1 s1 pdpt (pdpt_index virt) _ r1.grown.tree r1.owned
              (omega arith) (omega arith) (ret 2) _
              (λ own' s' status g error.
                IsMapped-failed leaf virt own own' s s' status g.tree
                  (Extends-trans s s1 s' r1.grown.extends g.extends)
                  (Spares-trans B s s1 s' r1.grown.spares g.spares) error)
              λ own2 s2 pd r2.
                descend-Ensures B root own2 s2 pd (pd_index virt) _ r2.grown.tree r2.owned
                  (omega arith) (omega arith) (ret 3) _
                  (λ own' s' status g error.
                    IsMapped-failed leaf virt own own' s s' status g.tree
                      (Extends-trans s s1 s' r1.grown.extends
                        (Extends-trans s1 s2 s' r2.grown.extends g.extends))
                      (Spares-trans B s s1 s' r1.grown.spares
                        (Spares-trans B s1 s2 s' r2.grown.spares g.spares))
                      error)
                  λ own3 s3 pt r3. ensures (placed own1 own2 own3 s1 s2 s3 pdpt pd pt r1 r2 r3)
