-- ===== src/Stub/Areas.antt =====
-- Areas of the address space, and page tables that map nothing outside of them.
use fur_os.Prelude.{
  ℕ, zero, suc, ◌+◌, ◌*◌, ◌/◌, ◌%◌, ◌^◌, ◌<◌, ◌≡◌, ◌≤◌, ◌-◌, true, refl, ◌∙◌, ◌⊎◌, inl, inr, Bool,
  false, ◌==◌, Option, some, List, [], ◌∷◌, arith, Bool-cases,
}
use fur_os.Command.Ensures.{Ensures, ensures, bind, weaken}
use fur_os.Efi.{BootServices, Machine, efi_success, efi_error}
use fur_os.Paging.{make_temp_region}
use fur_os.Paging.Leads.{Leads}
use fur_os.Paging.Spares.{Spares, Spares-boot, Spares-trans}
use fur_os.Paging.Tree.{translate, Owner, IsTree, page_of}
use fur_os.Paging.Place.{IsMapped}
use fur_os.Paging.Map.{leaf_of, mmap-IsMapped, make_temp_region-IsMapped}
use fur_os.Loader.{map_rounds, map_pages, map_pages-map_rounds}

-- `pages` pages from `virt` on, for the memory from `phys` on.
pub record Area : Type 0 where
  pub pages : ℕ
  pub phys : ℕ
  pub virt : ℕ
  pub cached : Bool

-- `e` is the entry that the area has for the page of `va`.
pub record InArea (a : Area) (va e : ℕ) : Type 0 where
  pub page : ℕ
  pub within : page < a.pages
  pub at : page_of va ≡ page_of (a.virt + 4096 * page)
  pub maps : e ≡ leaf_of (a.phys + 4096 * page) a.cached

abbrev pub InAreas : List Area → ℕ → ℕ → Type 0
InAreas [] va e = ⊥
InAreas (a ∷ areas) va e = InArea a va e ⊎ InAreas areas va e

-- The tables are a tree, and every page that they map has the entry of one of the areas.
pub record Confined (B : BootServices) (root : ℕ) (areas : List Area) (s : Machine B) : Type 0 where
  pub own : Owner
  pub tree : IsTree B root own s
  pub entries : (va e : ℕ) → translate s.memory root va ≡ some e → InAreas areas va e

leaf_of_next :
    (phys k : ℕ) (cached : Bool)
    → leaf_of ((phys + 0x1000) % 2 ^ 64 + 4096 * k) cached ≡ leaf_of (phys + 4096 * (1 + k)) cached
leaf_of_next phys k cached =
    let e : ((phys + 4096) % 2 ^ 64 + 4096 * k) / 4096 % 2 ^ 52
        ≡ (phys + 4096 * (1 + k)) / 4096 % 2 ^ 52 =
      omega arith in
    rw e

-- The area without its first page.
InArea-next :
    (left phys virt : ℕ) (cached : Bool) (va e : ℕ)
    → InArea
        (record {
          pages = left;
          phys = (phys + 0x1000) % 2 ^ 64;
          virt = (virt + 0x1000) % 2 ^ 64;
          cached = cached;
        })
        va
        e
    → InArea (record { pages = suc left; phys = phys; virt = virt; cached = cached }) va e
InArea-next left phys virt cached va e i = record {
  page = 1 + i.page;
  within = omega (arith, i.within);
  at = omega (arith, i.at);
  maps = i.maps ∙ leaf_of_next phys i.page cached;
}

InArea-first :
    (left phys virt : ℕ) (cached : Bool) (va : ℕ)
    → page_of va ≡ page_of virt
    → InArea
        (record { pages = suc left; phys = phys; virt = virt; cached = cached })
        va
        (leaf_of phys cached)
InArea-first left phys virt cached va h =
    let x : phys + 4096 * 0 ≡ phys = omega arith in
    record { page = 0; within = omega arith; at = omega (arith, h); maps = rw x }

module _ (B : BootServices) (root : ℕ) where
  -- From one state to another, only entries of the area came in, and the pages that are no tables are
  -- as they were.
  record Adds (a : Area) (old : Owner) (s s' : Machine B) : Type 0 where
    own : Owner
    tree : IsTree B root own s'
    entries :
        (va e : ℕ)
        → translate s'.memory root va ≡ some e
        → InArea a va e ⊎ (translate s.memory root va ≡ some e)
    spares : Spares B old s own s'

  some_eq : (x y : ℕ) → (let a : Option ℕ = some x in a) ≡ some y → y ≡ x
  some_eq x y h = cc

  -- One page, mapped or not.
  page_entry :
      (leaf : ℕ → ℕ) (virt status : ℕ) (old : Owner) (s s' : Machine B)
      → IsMapped B root leaf virt old s status s'
      → (pt : ℕ) × ((va e : ℕ)
          → translate s'.memory root va ≡ some e
          → ((page_of va ≡ page_of virt) × (e ≡ leaf pt)) ⊎ (translate s.memory root va ≡ some e))
        × (((status ≡ efi_success) × Leads s'.memory root virt pt)
            ⊎ ((efi_error status ≡ true)
                × ((va : ℕ) → translate s'.memory root va ≡ translate s.memory root va)))
  page_entry leaf virt status own s s' m = elim m.outcome [
    | inl (success, (pt, _, led, all)) ↦ (
      pt,
      λ va e h. elim (Bool-cases (page_of va == page_of virt)) [
        | inl same ↦
            let at : some (leaf pt) ≡ some e = rw same at (rw (all va) at h) in
            inl (ground arith, some_eq (leaf pt) e at)
        | inr other ↦ inr (rw other at (rw (all va) at h))
      ],
      inl (success, led),
    )
    | inr (error, all) ↦ (0, λ va e h. inr (rw (all va) at h), inr (error, all))
  ]

  map_rounds-Adds :
      (n phys virt : ℕ) (cached : Bool) (own : Owner) (s : Machine B)
      → IsTree B root own s
      → Ensures
          (λ _ s'. Adds (record { pages = n; phys = phys; virt = virt; cached = cached }) own s s')
          (map_rounds B n phys virt cached root s)
  unfolding map_rounds
  map_rounds-Adds zero phys virt cached own s t = ensures (record {
    own = own;
    tree = t;
    entries = λ va e h. inr h;
    spares = Spares-boot B own s s (λ a u. u) refl;
  })
  map_rounds-Adds (suc left) phys virt cached own s t =
      bind (mmap-IsMapped B root own s t phys virt cached) (λ status s1 m.
        let (pt, one, _) = page_entry (λ pt. leaf_of phys cached) virt status own s s1 m in
        weaken
          (map_rounds-Adds left ((phys + 0x1000) % 2 ^ 64) ((virt + 0x1000) % 2 ^ 64) cached m.own
            s1 m.tree)
          (λ _ s' r. record {
            own = r.own;
            tree = r.tree;
            entries = λ va e h. elim (r.entries va e h) [
              | inl i ↦ inl (InArea-next left phys virt cached va e i)
              | inr before ↦ elim (one va e before) [
                | inl (page, is_leaf) ↦
                    inl (rw is_leaf (InArea-first left phys virt cached va page))
                | inr old ↦ inr old
              ]
            ];
            spares = Spares-trans B s s1 s' m.spares r.spares;
          }))

  -- The areas are all that is mapped, and the pages in use that are no tables are as they were.
  abbrev pub Extends : List Area → Owner → Machine B → Machine B → Type 0
  Extends areas old s s' = (c : Confined B root areas s') × Spares B old s c.own s'

  -- Another area may come in front.
  pub widen :
      (a : Area) (areas : List Area) (s : Machine B)
      → Confined B root areas s
      → Confined B root (a ∷ areas) s
  widen a areas s c = record {
    own = c.own;
    tree = c.tree;
    entries = λ va e h. inr (c.entries va e h);
  }

  -- The loop over an area adds nothing outside of it.
  pub map_pages-Confined :
      (areas : List Area) (size phys virt : ℕ) (cached : Bool) (s : Machine B)
      → (c : Confined B root areas s) → size ≤ 2 ^ 64 - 0x1000
      → Ensures
          (λ _ s'.
            Extends
              (record { pages = (size + 0xfff) / 0x1000; phys = phys; virt = virt; cached = cached }
                ∷ areas)
              c.own
              s
              s')
          (map_pages B size phys virt cached root s)
  map_pages-Confined areas size phys virt cached s c ends =
      rw (map_pages-map_rounds B size phys virt cached root s ends) (
        weaken (map_rounds-Adds ((size + 0xfff) / 0x1000) phys virt cached c.own s c.tree)
          (λ _ s' r. (
            record {
              own = r.own;
              tree = r.tree;
              entries = λ va e h. elim (r.entries va e h) [
                | inl i ↦ inl i
                | inr old ↦ inr (c.entries va e old)
              ];
            },
            r.spares,
          )))

  -- `MakeTempRegion` adds the one page of the table `pt`, which is the page table that maps it; or it
  -- returns an error and adds nothing.
  abbrev pub Shown : List Area → (virt pt status : ℕ) → Machine B → Type 0
  Shown areas virt pt status s =
      ((status ≡ efi_success) × Leads s.memory root virt pt)
      ⊎ ((efi_error status ≡ true) × Confined B root areas s)

  pub make_temp_region-Confined :
      (areas : List Area) (virt : ℕ) (s : Machine B)
      → (c : Confined B root areas s)
      → Ensures
          (λ status s'.
            (pt : ℕ) × Extends
              (record { pages = 1; phys = pt; virt = virt; cached = false } ∷ areas)
              c.own
              s
              s'
            × Shown areas virt pt status s')
          (make_temp_region B virt root s)
  make_temp_region-Confined areas virt s c =
      weaken (make_temp_region-IsMapped B root c.own s c.tree virt) (λ status s' m.
        let (pt, one, shown) = page_entry (λ pt. leaf_of pt false) virt status c.own s s' m in
        (
          pt,
          (
            record {
              own = m.own;
              tree = m.tree;
              entries = λ va e h. elim (one va e h) [
                | inl (page, is_leaf) ↦ inl (rw is_leaf (InArea-first 0 pt virt false va page))
                | inr old ↦ inr (c.entries va e old)
              ];
            },
            m.spares,
          ),
          elim shown [
            | inl led ↦ inl led
            | inr (error, same) ↦ inr (
              error,
              record {
                own = m.own;
                tree = m.tree;
                entries = λ va e h. c.entries va e (rw (same va) at h);
              },
            )
          ],
        ))
