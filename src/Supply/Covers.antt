-- ===== src/Supply/Covers.antt =====
-- With memory left for the tables, every page of a range is mapped after the loop over it.
use fur_os.Prelude.{
  ℕ, zero, suc, ◌+◌, ◌-◌, ◌*◌, ◌/◌, ◌%◌, ◌^◌, ◌<◌, ◌≡◌, ◌≤◌, ◌∙◌, ◌⊎◌, Bool, ◌==◌, inl, inr, Option,
  some, true, false, arith, Bool-cases, if◌then◌else◌,
}
use fur_os.Command.Ensures.{Ensures, ensures, bind, weaken, both}
use fur_os.Efi.{BootServices, Machine, efi_success, efi_error}
use fur_os.Memory.{Memory}
use fur_os.Paging.{make_temp_region}
use fur_os.Paging.Tree.{Owner, IsTree, page_of, translate}
use fur_os.Paging.Place.{IsMapped}
use fur_os.Paging.Map.{leaf_of, mmap-IsMapped, make_temp_region-IsMapped}
use fur_os.Loader.{map_rounds, map_pages, map_pages-map_rounds}
use fur_os.Pool.{PoolServices}
use fur_os.Supply.{Supply}
use fur_os.Supply.Tables.{Served, same_left, mmap-Served, make_temp_region-Served}

-- The page of `va` is mapped.
abbrev pub HasPage : Memory → ℕ → ℕ → Type 0
HasPage m root va = (e : ℕ) × (translate m root va ≡ some e)

-- The `n` pages from that of `virt` on are mapped.
abbrev pub HasPages : ℕ → ℕ → Memory → ℕ → Type 0
HasPages n virt m root =
    (va page : ℕ) → page < n → page_of va ≡ page_of (virt + 4096 * page) → HasPage m root va

module _ (B : BootServices) (P : PoolServices B) (U : Supply B P) (root : ℕ) where
  -- Every page that was mapped is still, the `n` pages from that of `virt` on are, and so much is left.
  pub record Covers (n virt rest : ℕ) (s s' : Machine B) : Type 0 where
    pub left : U.Left s'.boot rest
    pub kept : (a : ℕ) → B.InUse s.boot a → B.InUse s'.boot a
    pub grows : (va : ℕ) → HasPage s.memory root va → HasPage s'.memory root va
    pub maps : HasPages n virt s'.memory root

  pub no_error : (status : ℕ) → status ≡ efi_success → efi_error status ≡ true → ⊥
  no_error status a b = ground arith

  placed_or_before :
      (va virt leaf : ℕ) (old new : Option ℕ)
      → new ≡ (if page_of va == page_of virt then some leaf else old)
      → ((page_of va ≡ page_of virt) × (new ≡ some leaf)) ⊎ (new ≡ old)
  placed_or_before va virt leaf old new h = ground arith

  -- One page: a call that returned success.
  one-Covers :
      (leaf : ℕ → ℕ) (virt left status : ℕ) (old : Owner) (s s' : Machine B)
      → IsMapped B root leaf virt old s status s'
      → Served B P U left s.boot status s'
      → Covers 1 virt left s s'
  one-Covers leaf virt left status own s s' m v = elim m.outcome [
    | inl (_, (pt, _, _, all)) ↦ record {
      left = v.left;
      kept = v.kept;
      grows = λ va (e, h).
          elim (placed_or_before va virt (leaf pt) (translate s.memory root va) _ (all va)) [
            | inl (_, new) ↦ (leaf pt, new)
            | inr old ↦ (e, old ∙ h)
          ];
      maps = λ va page lt at.
          let same : (page_of va == page_of virt) ≡ true = ground (arith, at) in
          (leaf pt, all va ∙ rw same);
    }
    | inr (error, _) ↦ absurd (no_error status v.success error)
  ]

  map_rounds-Covers :
      (n left phys virt : ℕ) (cached : Bool) (own : Owner) (s : Machine B)
      → IsTree B root own s
      → U.Left s.boot (3 * n + left)
      → Ensures (λ _ s'. Covers n virt left s s') (map_rounds B n phys virt cached root s)
  unfolding map_rounds
  map_rounds-Covers zero left phys virt cached own s t h = ensures (record {
    left = same_left B P U s.boot (3 * 0 + left) left (omega arith) h;
    kept = λ a u. u;
    grows = λ va x. x;
    maps = λ va page lt at. absurd (omega arith);
  })
  map_rounds-Covers (suc n) left phys virt cached own s t h =
      bind
        (both (mmap-IsMapped B root own s t phys virt cached) (
          mmap-Served B P U (3 * n + left) phys virt cached root s
            (same_left B P U s.boot (3 * suc n + left) (3 + (3 * n + left)) (omega arith) h)))
        (λ status s1 (m, v).
          let one =
            one-Covers (λ pt. leaf_of phys cached) virt (3 * n + left) status own s s1 m v in
          weaken
            (map_rounds-Covers n left ((phys + 0x1000) % 2 ^ 64) ((virt + 0x1000) % 2 ^ 64) cached
              m.own s1 m.tree one.left)
            (λ _ s' r. record {
              left = r.left;
              kept = λ a u. r.kept a (one.kept a u);
              grows = λ va x. r.grows va (one.grows va x);
              maps = λ va page lt at. elim (Bool-cases (page == 0)) [
                | inl first ↦
                    let z : page ≡ 0 = ground arith in
                    r.grows va (one.maps va page (omega arith) at)
                | inr later ↦
                    let z : 0 < page = ground arith in
                    r.maps va (page - 1) (omega arith) (omega arith)
              ];
            }))

  pub map_pages-Covers :
      (size left phys virt : ℕ) (cached : Bool) (own : Owner) (s : Machine B)
      → IsTree B root own s
      → U.Left s.boot (3 * ((size + 0xfff) / 0x1000) + left)
      → size ≤ 2 ^ 64 - 0x1000
      → Ensures
          (λ _ s'. Covers ((size + 0xfff) / 0x1000) virt left s s')
          (map_pages B size phys virt cached root s)
  map_pages-Covers size left phys virt cached own s t h ends =
      rw (map_pages-map_rounds B size phys virt cached root s ends)
        (map_rounds-Covers ((size + 0xfff) / 0x1000) left phys virt cached own s t h)

  pub make_temp_region-Covers :
      (left virt : ℕ) (own : Owner) (s : Machine B)
      → IsTree B root own s
      → U.Left s.boot (3 + left)
      → Ensures (λ _ s'. Covers 1 virt left s s') (make_temp_region B virt root s)
  make_temp_region-Covers left virt own s t h =
      weaken
        (both (make_temp_region-IsMapped B root own s t virt)
          (make_temp_region-Served B P U left virt root s h))
        (λ status s1 (m, v). one-Covers (λ pt. leaf_of pt false) virt left status own s s1 m v)
