-- ===== src/Handoff/Window.antt =====
-- `TempMap` on the region that `MakeTempRegion` made: the page table maps itself as the region's first
-- page, so that a store to the region is a store to the table.
use fur_os.Prelude.{
  ℕ, zero, suc, ◌+◌, ◌-◌, ◌/◌, ◌%◌, ◌^◌, ◌≤◌, ◌<◌, ◌≡◌, refl, sym, ◌∙◌, ap, inl, inr, true, false,
  ◌&&◌, ltb, leb, ◌==◌, if◌then◌else◌, some, [], ◌∷◌, arith, Bool-cases, ==_refl,
}
use mathlib.Core.Path.{fun_ext}
use fur_os.Memory.{Memory, store8, store_le}
use fur_os.Memory.Laws.{store_le-outside}
use fur_os.Efi.{BootServices, Machine, efi_success, efi_error}
use fur_os.Paging.{table_of}
use fur_os.Paging.Entry.{present_lem, table_of_lem, entry-set_self}
use fur_os.Paging.Tree.{
  translate, Owner, IsTree, page_of, pml4_index, pdpt_index, pd_index, pt_index,
}
use fur_os.Paging.Leads.{Leads, translate-Leads}
use fur_os.Paging.Leaf.{written, walk-above}
use fur_os.Paging.Place.{IsMapped, path_of, translate-page, translate-other}
use fur_os.Paging.Map.{leaf_of}
use fur_os.Physical.{Kernel, temp_map}
use fur_os.Physical.Temp.{busy, temp_leaf, put_entry, temp_map-put}

-- The kernel's memory is the machine's, seen through the page tables.
pub record Sees (k : Kernel) (m : Memory) (root : ℕ) : Type 0 where
  pub seen : (va e : ℕ) → translate m root va ≡ some e → k.memory va ≡ m (table_of e + va % 4096)

-- The machine's memory after the kernel's stores to the region's first page, which is the page at `pt`.
abbrev pub write_back : ℕ → Kernel → Memory → Memory
write_back pt k m a =
    if leb pt a && ltb a (pt + 4096) then k.memory (k.temp_mapping_region + (a - pt)) else m a

-- A store within a page is the same at every address that the page is seen at.
store_le-shift :
    (n : ℕ) (m m' : Memory) (a b o v : ℕ)
    → ((j : ℕ) → j < 4096 → m (a + j) ≡ m' (b + j))
    → o + n ≤ 4096
    → (j : ℕ) → j < 4096
    → store_le n m (a + o) v (a + j) ≡ store_le n m' (b + o) v (b + j)
unfolding store_le store8
store_le-shift zero m m' a b o v same fits j h = same j h
store_le-shift (suc n) m m' a b o v same fits j h =
    let next : a + o + 1 ≡ a + (o + 1) = omega arith in
    let next' : b + o + 1 ≡ b + (o + 1) = omega arith in
    let rest = store_le-shift n m m' a b (o + 1) (v / 256) same (omega arith) j h in
    elim (Bool-cases (j == o)) [
      | inl here ↦
          let e : (a + j == a + o) ≡ true = ground arith in
          let e' : (b + j == b + o) ≡ true = ground arith in rw (e, e')
      | inr other ↦
          let e : (a + j == a + o) ≡ false = ground arith in
          let e' : (b + j == b + o) ≡ false = ground arith in rw (e, e', next, next') rest
    ]

-- The page after the region's first.
abbrev slot_page : ℕ → ℕ
slot_page va = va + 0x1000

slot_path : (va : ℕ) → va % 2 ^ 21 ≡ 0 → path_of (slot_page va) ≡ path_of va
slot_path va h =
    let a : pd_index (va + 4096) ≡ pd_index va = omega arith in
    let b : pdpt_index (va + 4096) ≡ pdpt_index va = omega arith in
    let c : pml4_index (va + 4096) ≡ pml4_index va = omega arith in rw (a, b, c)

slot_index : (va : ℕ) → va % 2 ^ 21 ≡ 0 → pt_index (slot_page va) ≡ 1
slot_index va h = omega arith

table_of_leaf : (pt : ℕ) → pt % 4096 ≡ 0 → pt < 2 ^ 52 → table_of (leaf_of pt false) ≡ pt
table_of_leaf pt a h = omega (arith, table_of_lem (leaf_of pt false))

module _ (B : BootServices) (root : ℕ) (own : Owner) (s : Machine B) (va pt : ℕ)
    (tr : IsTree B root own s) (owned : own pt ≡ some (path_of va))
    (led : Leads s.memory root va pt) (self : translate s.memory root va ≡ some (leaf_of pt false))
    (aligned : va % 2 ^ 21 ≡ 0) where
  pt_bound : pt < 2 ^ 52
  pt_bound = let (e, _, to) = led in omega (arith, table_of_lem e, to)

  -- The first page of the region shows the table.
  shown :
      (k : Kernel)
      → k.temp_mapping_region ≡ va
      → Sees k s.memory root
      → (j : ℕ) → j < 4096
      → k.memory (va + j) ≡ s.memory (pt + j)
  shown k at sees j h =
      let e = translate-page s.memory root (va + j) va (omega arith) ∙ self in
      let page = table_of_leaf pt (tr.aligned pt _ owned) pt_bound in
      let offset : (va + j) % 4096 ≡ j = omega arith in
      sees.seen (va + j) (leaf_of pt false) e ∙ rw (page, offset)

  module _ (v : ℕ) (odd : v % 2 ≡ 1) (fits : v < 2 ^ 64) where
    Leads-slot : Leads (written s.memory pt 1 v) root (slot_page va) pt
    Leads-slot =
        let (e, h, to) = led in
        let a : pd_index (va + 4096) ≡ pd_index va = omega arith in
        let b : pdpt_index (va + 4096) ≡ pdpt_index va = omega arith in
        let c : pml4_index (va + 4096) ≡ pml4_index va = omega arith in
        (
          e,
          rw (a, b, c)
              (walk-above own s.memory pt 1 v (path_of va) tr.child_owned tr.aligned owned refl
                  (omega arith) (pdpt_index va ∷ pd_index va ∷ []) root (pml4_index va) []
                  tr.root_owned (omega arith) (omega arith, (omega arith, tt)) (omega arith)
                ∙ h),
          to,
        )

    translate-slot : translate (written s.memory pt 1 v) root (slot_page va) ≡ some v
    translate-slot =
        translate-Leads (written s.memory pt 1 v) root (slot_page va) pt Leads-slot
        ∙ rw (slot_index va aligned, entry-set_self s.memory pt 1 v fits, (present_lem v).1 odd)

    translate-written :
        (a : ℕ)
        → translate (written s.memory pt 1 v) root a
          ≡ (if page_of a == page_of (slot_page va) then some v else translate s.memory root a)
    translate-written a = elim (Bool-cases (page_of a == page_of (slot_page va))) [
      | inl same ↦ rw same (
          translate-page (written s.memory pt 1 v) root a (slot_page va) (ground arith)
          ∙ translate-slot)
      | inr other ↦ rw other (
          rw (slot_index va aligned) at (
            translate-other B root own s pt v (slot_page va) tr
              (owned ∙ ap some (sym (slot_path va aligned))) odd fits a (ground arith)))
    ]

  -- The kernel's store to slot 1 is the store to entry 1 of the table.
  write_back-written :
      (k : Kernel) (v : ℕ)
      → k.temp_mapping_region ≡ va
      → Sees k s.memory root
      → write_back pt (put_entry k 1 v) s.memory ≡ written s.memory pt 1 v
  write_back-written k v at sees = fun_ext λ a. elim (Bool-cases (leb pt a && ltb a (pt + 4096))) [
    | inl inside ↦
        let e : pt + (a - pt) ≡ a = ground arith in
        let stored =
          store_le-shift 8 k.memory s.memory va pt 8 v (shown k at sees) (omega arith) (a - pt)
            (ground arith) in
        rw (inside, at) (stored ∙ ap (store_le 8 s.memory (pt + 8) v) e)
    | inr outside ↦ rw outside (sym (store_le-outside 8 s.memory (pt + 8) v a (ground arith)))
  ]

-- After `MakeTempRegion` returned success on an address `va` at a multiple of 2 MiB, with a kernel
-- that sees memory through the tables and has `va` as its region and slot 1 free: `TempMap` of `p`
-- returns the address `0x8000` bytes on, and once its store has reached
-- the page table, to which the region's first page translates, the page `0x1000`
-- bytes on translates to the page of `p`, present and writable, and every other page, that of the
-- address returned included, as before.
pub temp_map-window :
    (B : BootServices) (root va : ℕ) (old : Owner) (s0 s : Machine B)
    → IsMapped B root (λ pt. leaf_of pt false) va old s0 efi_success s
    → va % 2 ^ 21 ≡ 0
    → (k : Kernel) → k.temp_mapping_region ≡ va
    → Sees k s.memory root
    → busy k 1 ≡ false
    → (fuel p : ℕ)
    → (k' : Kernel) × (pt : ℕ) × (translate s.memory root va ≡ some (leaf_of pt false))
      × (temp_map (suc fuel) p k ≡ some (va + 0x8000, k'))
      × ((a : ℕ)
          → translate (write_back pt k' s.memory) root a ≡ (
              if page_of a == page_of (va + 0x1000)
              then some (temp_leaf p)
              else translate s.memory root a))
temp_map-window B root va old s0 s mapped aligned k at sees idle fuel p = elim mapped.outcome [
  | inl (_, (pt, owned, led, all)) ↦
      let self : translate s.memory root va ≡ some (leaf_of pt false) =
        all va ∙ rw (==_refl (page_of va)) in
      (
        put_entry k 1 (temp_leaf p),
        pt,
        self,
        temp_map-put fuel p k idle ∙ rw at,
        λ a.
            rw
              (write_back-written B root mapped.own s va pt mapped.tree owned led self aligned k
                (temp_leaf p) at sees)
              (translate-written B root mapped.own s va pt mapped.tree owned led self aligned
                (temp_leaf p) (omega arith) (omega arith) a),
      )
  | inr (error, _) ↦ absurd (not_error error)
]
  where
    not_error : efi_error efi_success ≡ true → ⊥
    not_error e = ground arith
