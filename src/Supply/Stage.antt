-- ===== src/Supply/Stage.antt =====
-- What holds between the steps of `efi_main` while there is memory left: the areas made so far are mapped
-- whole, nothing else is, and the pages that were allocated for them are in use.
use fur_os.Prelude.{
  ℕ, ◌+◌, ◌*◌, ◌/◌, ◌<◌, ◌≤◌, ◌-◌, ◌^◌, ◌≡◌, refl, ◌∙◌, ◌⊎◌, inl, inr, Bool, List, [], ◌∷◌, false,
  arith,
}
use fur_os.Command.Ensures.{Ensures, ensures, weaken, both}
use fur_os.Efi.{BootServices, Machine, efi_success}
use fur_os.Memory.{Memory}
use fur_os.Paging.{make_temp_region}
use fur_os.Loader.{map_pages}
use fur_os.Pool.{PoolServices, get_memory_map}
use fur_os.Pool.Map.{Described, Returned, get_memory_map-Returned}
use fur_os.Supply.{Supply}
use fur_os.Supply.Tables.{same_left, make_temp_region-Served}
use fur_os.Supply.Covers.{
  HasPage, HasPages, Covers, map_pages-Covers, make_temp_region-Covers, no_error,
}
use fur_os.Supply.Map.{get_memory_map-Supply}
use fur_os.Stub.{allocate, get_map, make_root}
use fur_os.Paging.Leads.{Leads}
use fur_os.Paging.Spares.{Spares, Spares-trans}
use fur_os.Stub.Areas.{
  Area, Confined, Extends, Shown, map_pages-Confined, make_temp_region-Confined,
}
use fur_os.Stub.Root.{spoiled, make_root-Confined}
use fur_os.Stub.Kept.{get_map-Confined, allocate-Confined, translate-same, on_tables}

-- The pages of every area are mapped.
abbrev pub AllMapped : List Area → Memory → ℕ → Type 0
AllMapped [] m root = Unit {0}
AllMapped (a ∷ areas) m root = HasPages a.pages a.virt m root × AllMapped areas m root

AllMapped-grows :
    (areas : List Area) (root : ℕ) (m m' : Memory)
    → ((va : ℕ) → HasPage m root va → HasPage m' root va)
    → AllMapped areas m root
    → AllMapped areas m' root
AllMapped-grows [] root m m' grows all = tt
AllMapped-grows (a ∷ areas) root m m' grows (one, all) =
    (λ va page lt at. grows va (one va page lt at), AllMapped-grows areas root m m' grows all)

-- The page at `a` is one of the `count` pages from `address` on.
abbrev pub InBlock : ℕ → ℕ → ℕ → Type 0
InBlock address count a = (k : ℕ) × (k < count) × (a ≡ address + 4096 * k)

-- `start` is the machine before the top-level table was made.
module _ (B : BootServices) (P : PoolServices B) (U : Supply B P) (start : Machine B)
    (root : ℕ) where
  pub record Stage (areas : List Area) (n : ℕ) (held : ℕ → Type 0) (s : Machine B) : Type 0 where
    pub confined : Confined B root areas s
    pub mapped : AllMapped areas s.memory root
    pub left : U.Left s.boot n
    pub in_use : (a : ℕ) → held a → B.InUse s.boot a
    pub spares : Spares B (spoiled root) start confined.own s

  module _ (areas : List Area) (m n : ℕ) (held : ℕ → Type 0) (s : Machine B)
      (h : Stage areas m held s) where
    add_area :
        (a : Area) (s' : Machine B)
        → Extends B root (a ∷ areas) h.confined.own s s'
        → Covers B P U root a.pages a.virt n s s'
        → Stage (a ∷ areas) n held s'
    add_area a s' (c, spared) v = record {
      confined = c;
      mapped = (v.maps, AllMapped-grows areas root s.memory s'.memory v.grows h.mapped);
      left = v.left;
      in_use = λ p x. v.kept p (h.in_use p x);
      spares = Spares-trans B start s s' h.spares spared;
    }

    pub map_pages-Stage :
        (size phys virt : ℕ) (cached : Bool)
        → m ≡ 3 * ((size + 0xfff) / 0x1000) + n
        → size ≤ 2 ^ 64 - 0x1000
        → Ensures
            (λ _ s'.
              Stage
                (record {
                  pages = (size + 0xfff) / 0x1000;
                  phys = phys;
                  virt = virt;
                  cached = cached;
                }
                  ∷ areas)
                n
                held
                s')
            (map_pages B size phys virt cached root s)
    map_pages-Stage size phys virt cached e ends =
        weaken
          (both (map_pages-Confined B root areas size phys virt cached s h.confined ends) (
            map_pages-Covers B P U root size n phys virt cached h.confined.own s h.confined.tree
              (same_left B P U s.boot m _ e h.left) ends))
          (λ _ s' (c, v). add_area _ s' c v)

    led_on_success :
        (less : List Area) (virt pt status : ℕ) (s' : Machine B)
        → status ≡ efi_success
        → Shown B root less virt pt status s'
        → Leads s'.memory root virt pt
    led_on_success less virt pt status s' success (inl (_, led)) = led
    led_on_success less virt pt status s' success (inr (error, _)) =
        absurd (no_error B P U root status success error)

    pub make_temp_region-Stage :
        (virt : ℕ)
        → m ≡ 3 + n
        → Ensures
            (λ _ s'.
              (pt : ℕ) × Stage
                (record { pages = 1; phys = pt; virt = virt; cached = false } ∷ areas)
                n
                held
                s'
              × Leads s'.memory root virt pt)
            (make_temp_region B virt root s)
    make_temp_region-Stage virt e =
        weaken
          (both (make_temp_region-Confined B root areas virt s h.confined) (
            both
              (make_temp_region-Covers B P U root n virt h.confined.own s h.confined.tree
                (same_left B P U s.boot m _ e h.left))
              (make_temp_region-Served B P U n virt root s (same_left B P U s.boot m _ e h.left))))
          (λ status s' ((pt, c, shown), (v, served)).
            (pt, add_area _ s' c v, led_on_success areas virt pt status s' served.success shown))

    -- The pages that are allocated are held from then on.
    allocate_ok :
        {A : Type 0} (old : A) (set : ℕ → A) (count : ℕ)
        → (B.allocate_pages s.boot count).status ≡ efi_success
        → Ensures
            (λ x s'.
              (x ≡ set (B.allocate_pages s.boot count).address)
              × (s' ≡ record s { boot = (B.allocate_pages s.boot count).state }))
            (allocate B old set count s)
    unfolding allocate
    allocate_ok old set count success = rw success (ensures (refl, refl))

    pub allocate-Stage :
        {A : Type 0} (old : A) (set : ℕ → A) (count : ℕ)
        → m ≡ count + n
        → Ensures
            (λ x s'.
              (address : ℕ) × (x ≡ set address)
              × Stage areas n (λ a. InBlock address count a ⊎ held a) s')
            (allocate B old set count s)
    allocate-Stage old set count e =
        let (success, left) = U.pages s.boot count n (same_left B P U s.boot m _ e h.left) in
        let r = B.allocate_pages s.boot count in
        weaken
          (both (allocate-Confined B root areas old set count s h.confined)
            (allocate_ok old set count success))
          (λ x s' ((c, spared), (at, to)). (
            r.address,
            at,
            record {
              confined = c;
              mapped = rw to h.mapped;
              left = rw to left;
              in_use = λ a x. rw to (elim x [
                | inl (k, lt, here) ↦ rw here (B.page_marked s.boot count k success lt)
                | inr old ↦ B.page_kept s.boot count a (h.in_use a old)
              ]);
              spares = Spares-trans B start s s' h.spares spared;
            },
          ))

    pub get_map-Stage :
        m ≡ 2 + n
        → Ensures
            (λ d s'. (0 < d) × ((room : ℕ) × Described B P s' d room) × Stage areas n held s')
            (get_map B P s)
    unfolding get_map Returned
    get_map-Stage e =
        weaken (both (get_map-Confined B root areas P s h.confined) described)
          (λ d s' ((c, spared), (positive, some_map, mapped, left, in_use)). (
            positive,
            some_map,
            record {
              confined = c;
              mapped = mapped;
              left = left;
              in_use = in_use;
              spares = Spares-trans B start s s' h.spares spared;
            },
          ))
      where
        not_null : (d : ℕ) (A : Type 0) → (d ≡ 0) ⊎ ((0 < d) × A) → 0 < d → A
        not_null d A (inl null) positive = absurd (omega arith)
        not_null d A (inr (_, x)) positive = x

        described :
            Ensures
              (λ d s'.
                (0 < d)
                × ((room : ℕ) × Described B P s' d room)
                × AllMapped areas s'.memory root
                × U.Left s'.boot n
                × ((a : ℕ) → held a → B.InUse s'.boot a))
              (get_map B P s)
        described =
            let (result, kept) = get_memory_map-Returned B P s in
            let (positive, left) =
              get_memory_map-Supply B P U n s (same_left B P U s.boot m _ e h.left) in
            let s' = (get_memory_map B P s).1 in
            let c = h.confined in
            ensures (
              positive,
              not_null _ _ result positive,
              AllMapped-grows areas root s.memory s'.memory
                  (λ va (x, at). (
                    x,
                    translate-same B root c.own s s' c.tree
                          (on_tables B root areas s s' c kept.memory) kept.in_use va
                        ∙ at,
                  ))
                  h.mapped,
              left,
              λ a x. kept.in_use a (h.in_use a x),
            )

pub make_root-Stage :
    (B : BootServices) (P : PoolServices B) (U : Supply B P) (n : ℕ) (s : Machine B)
    → U.Left s.boot (1 + n)
    → Ensures
        (λ root s'.
          (root ≡ (B.allocate_pages s.boot 1).address) × Stage B P U s root [] n (λ a. ⊥) s')
        (make_root B s)
unfolding make_root
make_root-Stage B P U n s left =
    weaken (both (make_root-Confined B s success) boot) (λ root s' ((at, (c, spared)), to). (
      at,
      record {
        confined = c;
        mapped = tt;
        left = rw to (U.pages s.boot 1 n left).1;
        in_use = λ a x. absurd x;
        spares = spared;
      },
    ))
  where
    success : (B.allocate_pages s.boot 1).status ≡ efi_success
    success = (U.pages s.boot 1 n left).0

    boot : Ensures (λ _ s'. s'.boot ≡ (B.allocate_pages s.boot 1).state) (make_root B s)
    boot = ensures refl
