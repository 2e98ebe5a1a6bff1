-- ===== src/Loader/Region.antt =====
-- What the page tables say of a range of pages after the loop over it.
use fur_os.Prelude.{
  ℕ, zero, suc, ◌+◌, ◌-◌, ◌*◌, ◌/◌, ◌%◌, ◌^◌, ◌≤◌, ◌≡◌, ◌≢◌, ◌∙◌, inl, inr, Bool, true, false, ◌&&◌,
  ltb, ◌==◌, if◌then◌else◌, Option, some, arith, Bool-cases,
}
use fur_os.Command.{ok, fault, Outcome, and_then}
use fur_os.Command.Ensures.{Ensures, ensures, weaken}
use fur_os.Efi.{BootServices, Machine, efi_success, efi_error}
use fur_os.Paging.{mmap}
use fur_os.Paging.Tree.{translate, Owner, IsTree, page_of}
use fur_os.Paging.Place.{IsMapped}
use fur_os.Paging.Map.{leaf_of, mmap-IsMapped}
use fur_os.Loader.{map_rounds, map_pages, map_pages-map_rounds}

-- The number of pages from the page of `virt` to that of `va`, around the address space.
abbrev pub pages_from : ℕ → ℕ → ℕ
pages_from virt va = (page_of va + 2 ^ 36 - page_of virt) % 2 ^ 36

pages_from_self : (virt va : ℕ) → page_of va ≡ page_of virt → pages_from virt va ≡ 0
pages_from_self virt va e = omega arith

pages_from_before :
    (virt va : ℕ) → page_of va ≡ page_of virt → pages_from ((virt + 4096) % 2 ^ 64) va ≡ 2 ^ 36 - 1
pages_from_before virt va e = omega arith

pages_from_next :
    (virt va : ℕ)
    → page_of va ≢ page_of virt
    → pages_from virt va ≡ 1 + pages_from ((virt + 4096) % 2 ^ 64) va
pages_from_next virt va ne = omega arith

leaf_of_next :
    (phys k : ℕ) (cached : Bool)
    → leaf_of ((phys + 4096) % 2 ^ 64 + 4096 * k) cached ≡ leaf_of (phys + 4096 * (1 + k)) cached
leaf_of_next phys k cached =
    let e : ((phys + 4096) % 2 ^ 64 + 4096 * k) / 4096 % 2 ^ 52
        ≡ (phys + 4096 * (1 + k)) / 4096 % 2 ^ 52 =
      omega arith in
    rw e

and_both : (a b : Bool) → (a && b) ≡ true → (a ≡ true) × (b ≡ true)
and_both a b h = ground arith

module _ (B : BootServices) (root : ℕ) (cached : Bool) where
  -- Every call of `MMap` in the loop returns success.
  unfoldable pub all_succeed : ℕ → ℕ → ℕ → Machine B → Bool
  all_succeed zero phys virt s = true
  all_succeed (suc left) phys virt s = elim (mmap B phys virt cached root s) [
    | ok status s' ↦
        status == efi_success
        && all_succeed left ((phys + 0x1000) % 2 ^ 64) ((virt + 0x1000) % 2 ^ 64) s'
    | fault ↦ false
  ]

  -- The tables are a tree, and the `n` pages from that of `virt` on have the entries of the pages from
  -- `phys` on, while all others are as they were.
  pub record IsRegion (n phys virt : ℕ) (s s' : Machine B) : Type 0 where
    pub own : Owner
    pub tree : IsTree B root own s'
    pub mapped :
        (va : ℕ)
        → translate s'.memory root va ≡ (
            if ltb (pages_from virt va) n
            then some (leaf_of (phys + 4096 * pages_from virt va) cached)
            else translate s.memory root va)

  first_entry :
      (left phys : ℕ) (old : Option ℕ)
      → some (leaf_of phys cached)
        ≡ (if ltb 0 (suc left) then some (leaf_of (phys + 4096 * 0) cached) else old)
  first_entry left phys old =
      let test : ltb 0 (suc left) ≡ true = ground arith in
      let e : phys + 4096 * 0 ≡ phys = omega arith in rw (test, e)

  none_below : (k : ℕ) (a old : Option ℕ) → old ≡ (if ltb k 0 then a else old)
  none_below k a old = let e : ltb k 0 ≡ false = ground arith in rw e

  -- One page and then the others.
  IsRegion-suc :
      (left phys virt : ℕ) (s s1 s' : Machine B)
      → suc left ≤ 2 ^ 36
      → ((va : ℕ)
          → translate s1.memory root va ≡ (
              if page_of va == page_of virt
              then some (leaf_of phys cached)
              else translate s.memory root va))
      → IsRegion left ((phys + 0x1000) % 2 ^ 64) ((virt + 0x1000) % 2 ^ 64) s1 s'
      → IsRegion (suc left) phys virt s s'
  IsRegion-suc left phys virt s s1 s' fits first r = record {
    own = r.own;
    tree = r.tree;
    mapped = λ va. elim (Bool-cases (page_of va == page_of virt)) [
      | inl same ↦
          let e : page_of va ≡ page_of virt = ground arith in
          let far = pages_from_before virt va e in
          let here = pages_from_self virt va e in
          let out : ltb (pages_from ((virt + 4096) % 2 ^ 64) va) left ≡ false =
            rw far (ground arith) in
          (rw out at (r.mapped va))
          ∙ (rw same at (first va))
          ∙ rw here (first_entry left phys (translate s.memory root va))
      | inr other ↦
          let ne : page_of va ≢ page_of virt = ground arith in
          let next = pages_from_next virt va ne in
          let k = pages_from ((virt + 4096) % 2 ^ 64) va in
          let first_other : translate s1.memory root va ≡ translate s.memory root va =
            rw other at (first va) in
          let test : ltb (1 + k) (suc left) ≡ ltb k left = ground arith in
          rw (next, test, ← leaf_of_next phys k cached) (rw (← first_other) (r.mapped va))
    ];
  }

  IsRegion-zero :
      (phys virt : ℕ) (own : Owner) (s : Machine B) → IsTree B root own s → IsRegion 0 phys virt s s
  IsRegion-zero phys virt own s t = record {
    own = own;
    tree = t;
    mapped = λ va.
        none_below (pages_from virt va) (some (leaf_of (phys + 4096 * pages_from virt va) cached))
          (translate s.memory root va);
  }

  -- A call of `MMap` that returns success maps its page.
  succeeded :
      (phys virt status : ℕ) (old : Owner) (s s1 : Machine B)
      → IsMapped B root (λ pt. leaf_of phys cached) virt old s status s1
      → (status == efi_success) ≡ true
      → (va : ℕ)
      → translate s1.memory root va ≡ (
          if page_of va == page_of virt
          then some (leaf_of phys cached)
          else translate s.memory root va)
  succeeded phys virt status old s s1 m zeroed va = elim m.outcome [
    | inl (e, (pt, o, led, t)) ↦ t va
    | inr (error, t) ↦ absurd (no_error status zeroed error)
  ]
    where
      no_error : (status : ℕ) → (status == efi_success) ≡ true → efi_error status ≡ true → ⊥
      no_error status a b = ground arith

  -- One round of the loop, before rounds that are known to map theirs.
  round-IsRegion :
      (left phys virt : ℕ) (old : Owner) (s : Machine B) (r : Outcome (Machine B) ℕ)
      → suc left ≤ 2 ^ 36
      → ((s1 : Machine B) (own : Owner)
          → IsTree B root own s1
          → all_succeed left ((phys + 0x1000) % 2 ^ 64) ((virt + 0x1000) % 2 ^ 64) s1 ≡ true
          → Ensures
              (λ _ s'. IsRegion left ((phys + 0x1000) % 2 ^ 64) ((virt + 0x1000) % 2 ^ 64) s1 s')
              (map_rounds B left
                ((phys + 0x1000) % 2 ^ 64)
                ((virt + 0x1000) % 2 ^ 64)
                cached
                root
                s1))
      → Ensures (IsMapped B root (λ pt. leaf_of phys cached) virt old s) r
      → elim r [
        | ok status s' ↦
            status == efi_success
            && all_succeed left ((phys + 0x1000) % 2 ^ 64) ((virt + 0x1000) % 2 ^ 64) s'
        | fault ↦ false
      ]
        ≡ true
      → Ensures
          (λ _ s'. IsRegion (suc left) phys virt s s')
          (and_then r (λ _.
            map_rounds B left ((phys + 0x1000) % 2 ^ 64) ((virt + 0x1000) % 2 ^ 64) cached root))
  round-IsRegion left phys virt old s (ok status s1) fits others (ensures m) h =
      let (now, later) = and_both (status == efi_success) _ h in
      weaken (others s1 m.own m.tree later) (λ _ s' r.
        IsRegion-suc left phys virt s s1 s' fits (succeeded phys virt status old s s1 m now) r)
  round-IsRegion left phys virt old s fault fits others e h = cc

  map_rounds-IsRegion :
      (n phys virt : ℕ) (own : Owner) (s : Machine B)
      → IsTree B root own s
      → n ≤ 2 ^ 36
      → all_succeed n phys virt s ≡ true
      → Ensures (λ _ s'. IsRegion n phys virt s s') (map_rounds B n phys virt cached root s)
  unfolding map_rounds all_succeed
  map_rounds-IsRegion zero phys virt own s t fits all = ensures (IsRegion-zero phys virt own s t)
  map_rounds-IsRegion (suc left) phys virt own s t fits all =
      round-IsRegion left phys virt own s (mmap B phys virt cached root s) fits
        (λ s1 own1 t1 h.
          map_rounds-IsRegion left ((phys + 0x1000) % 2 ^ 64) ((virt + 0x1000) % 2 ^ 64) own1 s1 t1
            (omega arith) h)
        (mmap-IsMapped B root own s t phys virt cached) all

  -- With the tables a tree below `root`, for a size of at most 2 ^ 48 and if every call of `MMap` in
  -- the loop returns success: the loop does not fault, and afterwards the pages that the range takes
  -- up from that of `virt` on have, one by one, the entries of the pages from `phys` on, every other
  -- page translates as before, and the tables are a tree again.
  pub map_pages-IsRegion :
      (size phys virt : ℕ) (own : Owner) (s : Machine B)
      → IsTree B root own s
      → size ≤ 2 ^ 48
      → all_succeed ((size + 0xfff) / 0x1000) phys virt s ≡ true
      → Ensures
          (λ _ s'. IsRegion ((size + 0xfff) / 0x1000) phys virt s s')
          (map_pages B size phys virt cached root s)
  map_pages-IsRegion size phys virt own s t fits all =
      rw (map_pages-map_rounds B size phys virt cached root s (omega arith))
        (map_rounds-IsRegion ((size + 0xfff) / 0x1000) phys virt own s t (omega arith) all)
