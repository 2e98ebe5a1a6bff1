-- ===== src/Stub/Main.antt =====
-- The address space that `efi_main` makes for the kernel.
use fur_os.Prelude.{
  ℕ, suc, ◌+◌, ◌-◌, ◌/◌, ◌%◌, ◌^◌, ◌≡◌, ◌≤◌, ◌⊎◌, List, arith, refl, inl, inr, Bool, true, false,
  ◌==◌, if◌then◌else◌, Option, none, some, [], ◌∷◌, Bool-cases, Option-cases,
}
use fur_os.Command.{◌>>=◌, ◌>>◌, pure}
use fur_os.Command.Ensures.{Ensures, ensures, bind, weaken, both}
use fur_os.Efi.{BootServices, Machine, efi_success}
use fur_os.Loader.{max_address, max_address-lt, map_pages}
use fur_os.Paging.Leads.{Leads}
use fur_os.Pool.{PoolServices}
use fur_os.Stub.{
  kernel_pages_count, Loaded, Ending, started, null_map, endless_scan, unset_frame_map,
  higher_half_start, stack_top, stack_size, map_kernel, map_frames, leave_args, map_rest, map_sized,
  scan_map, allocate, kernel_size, read_descriptor, read_entries, efi_main, get_map,
}
use fur_os.Stub.Areas.{
  Area, Confined, Extends, Shown, map_pages-Confined, make_temp_region-Confined, widen,
}
use fur_os.Stub.Root.{make_root-Confined}
use fur_os.Stub.Kept.{get_map-Confined, get_map-Leads, allocate-Confined}
use fur_os.Stub.Layout.{
  image_area, kernel_area, frames_area, screen_area, region_area, screen_at, region_at,
  kernel_areas, areas_of, ArgsOf, Booted, LoopsEnd, HeldPages,
}

allocate_held :
    (B : BootServices) {A : Type 0} (old : A) (set : ℕ → A) (count : ℕ) (s : Machine B)
    → Ensures
        (λ x s'. (x ≡ old) ⊎ ((address : ℕ) × (x ≡ set address) × HeldPages B count address s'))
        (allocate B old set count s)
unfolding allocate
allocate_held B old set count s =
    let r = B.allocate_pages s.boot count in
    elim (Bool-cases (r.status == efi_success)) [
      | inl given ↦
          let e : r.status ≡ 0 = ground arith in
          rw given (ensures (inr (r.address, refl, λ k lt. B.page_marked s.boot count k e lt)))
      | inr refused ↦ rw refused (ensures (inl refl))
    ]

-- `KernelPagesCount` is a multiple of the page size.
pub kernel_loop_ends : (l : Loaded) → kernel_pages_count l ≤ 2 ^ 64 - 0x1000
unfolding kernel_size
kernel_loop_ends l = omega arith

module _ (B : BootServices) (root : ℕ) (l : Loaded) (ends : LoopsEnd l) where
  -- Only these areas are mapped, and the stack and the frame map are the firmware's memory.
  record Mapped (areas : List Area) (stack size phys : ℕ) (s : Machine B) : Type 0 where
    confined : Confined B root areas s
    stack_from : (stack ≡ 0) ⊎ HeldPages B (stack_size / 0x1000) stack s
    frames_from : HeldPages B ((size + 0xfff) / 0x1000) phys s

  Mapped-kept :
      (areas areas' : List Area) (stack size phys : ℕ) (s s' : Machine B)
      → (h : Mapped areas stack size phys s) → Extends B root areas' h.confined.own s s'
      → Mapped areas' stack size phys s'
  Mapped-kept areas areas' stack size phys s s' h (c, spared) = record {
    confined = c;
    stack_from = elim h.stack_from [
      | inl null ↦ inl null
      | inr held ↦ inr (λ k lt. spared.kept _ (held k lt))
    ];
    frames_from = λ k lt. spared.kept _ (h.frames_from k lt);
  }

  after_stack :
      (stack : ℕ) (s : Machine B)
      → Confined B root (kernel_area l ∷ image_area l ∷ []) s
      → (stack ≡ 0) ⊎ HeldPages B (stack_size / 0x1000) stack s
      → Ensures
          (λ _ s'. (stack : ℕ) × Mapped (kernel_areas l stack) stack 0 0 s')
          (map_pages B stack_size stack (stack_top - stack_size) true root s)
  after_stack stack s c from =
      let h : Mapped (kernel_area l ∷ image_area l ∷ []) stack 0 0 s = record {
        confined = c;
        stack_from = from;
        frames_from = λ k lt. absurd (omega arith);
      } in
      weaken
        (map_pages-Confined B root (kernel_area l ∷ image_area l ∷ []) stack_size stack
          (stack_top - stack_size) true s c (omega arith))
        (λ _ s' x. (stack, Mapped-kept _ _ stack 0 0 s s' h x))

  stack_cases :
      (x : ℕ) (s : Machine B)
      → (x ≡ 0) ⊎ ((address : ℕ) × (x ≡ address) × HeldPages B (stack_size / 0x1000) address s)
      → (x ≡ 0) ⊎ HeldPages B (stack_size / 0x1000) x s
  stack_cases x s (inl null) = inl null
  stack_cases x s (inr (address, e, held)) = inr (rw e held)

  map_kernel-Mapped :
      (s : Machine B)
      → Confined B root [] s
      → Ensures
          (λ _ s'. (stack : ℕ) × Mapped (kernel_areas l stack) stack 0 0 s')
          (map_kernel B l root s)
  unfolding map_kernel
  map_kernel-Mapped s c =
      bind
        (map_pages-Confined B root [] l.image_size l.image_base l.image_base false s c ends.image)
        (λ _ s1 (c1, _).
          bind
            (map_pages-Confined B root (image_area l ∷ []) (kernel_pages_count l) l.kernel_physical
              higher_half_start true s1 c1 (kernel_loop_ends l))
            (λ _ s2 (c2, _).
              bind
                (both
                  (allocate-Confined B root (kernel_area l ∷ image_area l ∷ []) 0 (λ a. a)
                    (stack_size / 0x1000) s2 c2)
                  (allocate_held B 0 (λ a. a) (stack_size / 0x1000) s2))
                (λ stack s3 ((c3, _), from). after_stack stack s3 c3 (stack_cases stack s3 from))))

  module _ (stack : ℕ) where
    map_frames-Mapped :
        (size : ℕ) (frame_map : Option ℕ) (s : Machine B)
        → size ≤ 2 ^ 64 - 0x1000
        → Mapped (kernel_areas l stack) stack 0 0 s
        → (frame_map ≡ none)
          ⊎ ((phys : ℕ) × (frame_map ≡ some phys) × HeldPages B ((size + 0xfff) / 0x1000) phys s)
        → Ensures
            (λ set s'.
              ((set ≡ false) × Mapped (kernel_areas l stack) stack 0 0 s')
              ⊎ ((set ≡ true)
                  × ((phys : ℕ) × Mapped
                        (frames_area l phys size ∷ kernel_areas l stack)
                        stack
                        size
                        phys
                        s')))
            (map_frames B size frame_map
              ((higher_half_start + kernel_pages_count l) % 2 ^ 64)
              root
              s)
    unfolding map_frames
    map_frames-Mapped size frame_map s fits h (inl e) = rw e (elim (Bool-cases (size == 0)) [
      | inl empty ↦ rw empty (
          ensures (
            inr (
              refl,
              (
                0,
                record {
                  confined =
                      widen B root (frames_area l 0 size) (kernel_areas l stack) s h.confined;
                  stack_from = h.stack_from;
                  frames_from =
                      λ k lt. let z : size ≡ 0 = ground arith in absurd (omega (arith, lt, z));
                },
              ),
            )))
      | inr some_page ↦ rw some_page (ensures (inl (refl, h)))
    ])
    map_frames-Mapped size frame_map s fits h (inr (phys, e, held)) =
        let h' : Mapped (kernel_areas l stack) stack size phys s = record {
          confined = h.confined;
          stack_from = h.stack_from;
          frames_from = held;
        } in
        rw e (
          bind
            (map_pages-Confined B root (kernel_areas l stack) size phys
              ((higher_half_start + kernel_pages_count l) % 2 ^ 64) true s h.confined fits)
            (λ _ s1 x. ensures (inr (refl, (phys, Mapped-kept _ _ stack size phys s s1 h' x)))))

    -- An ending with fewer areas.
    ends_early :
        (ending : Ending) (s : Machine B)
        → ArgsOf l 0 ending
        → Mapped (kernel_areas l stack) stack 0 0 s
        → Booted B l root ending s
    ends_early ending s arguments h =
        let screen =
          widen B root (screen_area l 0) (frames_area l 0 0 ∷ kernel_areas l stack) s
            (widen B root (frames_area l 0 0) (kernel_areas l stack) s h.confined) in
        record {
          stack = stack;
          frame_map = 0;
          size = 0;
          pt = 0;
          confined =
              widen B root (region_area l 0 0)
                (screen_area l 0 ∷ frames_area l 0 0 ∷ kernel_areas l stack) s screen;
          arguments = arguments;
          stack_from = h.stack_from;
          frames_from = h.frames_from;
          region = inr screen;
        }

    module _ (P : PoolServices B) where
      -- What is known of the region's table at the end.
      abbrev RegionOf : (size phys pt : ℕ) → Machine B → Type 0
      RegionOf size phys pt s =
          Leads s.memory root ((higher_half_start + region_at l size) % 2 ^ 64) pt
          ⊎ Confined B root (screen_area l size ∷ frames_area l phys size ∷ kernel_areas l stack) s

      leave_args-Booted :
          (size phys pt d : ℕ) (s : Machine B)
          → Mapped (areas_of l stack phys size pt) stack size phys s
          → RegionOf size phys pt s
          → Ensures (Booted B l root) (leave_args B P l size (kernel_pages_count l) d s)
      unfolding leave_args
      leave_args-Booted size phys pt d s h region = elim (Bool-cases (d == 0)) [
        | inl null ↦ rw null (ensures (booted null_map tt))
        | inr described ↦ rw described (ensures (booted (started _) (refl, refl, refl, refl, refl)))
      ]
        where
          booted : (ending : Ending) → ArgsOf l size ending → Booted B l root ending s
          booted ending arguments = record {
            stack = stack;
            frame_map = phys;
            size = size;
            pt = pt;
            confined = h.confined;
            arguments = arguments;
            stack_from = h.stack_from;
            frames_from = h.frames_from;
            region = region;
          }

      -- `GetMemoryMap` keeps the tables.
      get_map-RegionOf :
          (size phys pt status : ℕ) (s : Machine B)
          → Confined B root (areas_of l stack phys size pt) s
          → Shown B root
              (screen_area l size ∷ frames_area l phys size ∷ kernel_areas l stack)
              ((higher_half_start + region_at l size) % 2 ^ 64)
              pt
              status
              s
          → Ensures (λ _ s'. RegionOf size phys pt s') (get_map B P s)
      get_map-RegionOf size phys pt status s c (inl (_, led)) =
          weaken
            (get_map-Leads B root (areas_of l stack phys size pt) P s c
              ((higher_half_start + region_at l size) % 2 ^ 64) pt led)
            (λ _ s' x. inl x)
      get_map-RegionOf size phys pt status s c (inr (_, less)) =
          weaken (get_map-Confined B root _ P s less) (λ _ s' (x, _). inr x)

      map_rest-Booted :
          (size phys : ℕ) (s : Machine B)
          → Mapped (frames_area l phys size ∷ kernel_areas l stack) stack size phys s
          → Ensures (Booted B l root) (map_rest B P l size (kernel_pages_count l) root s)
      unfolding map_rest
      map_rest-Booted size phys s h =
          bind
            (map_pages-Confined B root (frames_area l phys size ∷ kernel_areas l stack)
              l.frame_buffer_size l.frame_buffer_base
              ((higher_half_start + screen_at l size) % 2 ^ 64) false s h.confined ends.screen)
            (λ _ s1 x1.
              let h1 = Mapped-kept _ _ stack size phys s s1 h x1 in
              bind
                (make_temp_region-Confined B root
                  (screen_area l size ∷ frames_area l phys size ∷ kernel_areas l stack)
                  ((higher_half_start + region_at l size) % 2 ^ 64) s1 h1.confined)
                (λ status s2 (pt, x2, shown).
                  let h2 = Mapped-kept _ _ stack size phys s1 s2 h1 x2 in
                  bind
                    (both (get_map-Confined B root (areas_of l stack phys size pt) P s2 h2.confined)
                      (get_map-RegionOf size phys pt status s2 h2.confined shown))
                    (λ d s3 (x3, region).
                      leave_args-Booted size phys pt d s3
                        (Mapped-kept _ _ stack size phys s2 s3 h2 x3) region)))

      after_frame_map :
          (size : ℕ) (set : Bool) (s : Machine B)
          → ((set ≡ false) × Mapped (kernel_areas l stack) stack 0 0 s)
            ⊎ ((set ≡ true)
                × ((phys : ℕ) × Mapped
                      (frames_area l phys size ∷ kernel_areas l stack)
                      stack
                      size
                      phys
                      s))
          → Ensures (Booted B l root) (
              (if set
                  then map_rest B P l size (kernel_pages_count l) root
                  else pure unset_frame_map)
                s)
      after_frame_map size set s (inl (unset, h)) =
          rw unset (ensures (ends_early unset_frame_map s tt h))
      after_frame_map size set s (inr (is_set, (phys, h))) =
          rw is_set (map_rest-Booted size phys s h)

      map_sized-Booted :
          (size : ℕ) (s : Machine B)
          → size ≤ 2 ^ 64 - 0x1000
          → Mapped (kernel_areas l stack) stack 0 0 s
          → Ensures (Booted B l root) (map_sized B P l size root s)
      unfolding map_sized
      map_sized-Booted size s fits h =
          bind
            (both
              (allocate-Confined B root (kernel_areas l stack) none some ((size + 0xfff) / 0x1000) s
                h.confined)
              (allocate_held B none some ((size + 0xfff) / 0x1000) s))
            (λ frame_map s1 (x1, from).
              bind
                (map_frames-Mapped size frame_map s1 fits (Mapped-kept _ _ stack 0 0 s s1 h x1)
                  from)
                (λ set s2 h2. after_frame_map size set s2 h2))

      scan_map-Booted :
          (d : ℕ) (s : Machine B)
          → Mapped (kernel_areas l stack) stack 0 0 s
          → Ensures (Booted B l root) (scan_map B P l root d s)
      unfolding scan_map
      scan_map-Booted d s h =
          let descriptor = read_descriptor s.memory d in
          elim (Bool-cases (d == 0)) [
            | inl null ↦ rw null (ensures (ends_early null_map s tt h))
            | inr described ↦
                rw described
                  (elim (Option-cases
                    (read_entries (suc descriptor.memory_map_size) s.memory descriptor 0)) [
                      | inl endless ↦
                          rw (endless, scan_map) (ensures (ends_early endless_scan s tt h))
                      | inr (entries, e) ↦
                          rw (e, scan_map)
                            (map_sized-Booted (max_address 0 entries / 0x1000 / 8) s
                              (omega (arith, max_address-lt entries 0 (omega arith))) h)
                    ])
          ]

after_root :
    (B : BootServices) (P : PoolServices B) (l : Loaded) (root start : ℕ) (s : Machine B)
    → LoopsEnd l
    → root ≡ start
    → Confined B root [] s
    → Ensures
        (Booted B l start)
        ((do map_kernel B l root; d ← get_map B P; scan_map B P l root d) s)
after_root B P l root start s ends at c = rw (← at) (
    bind (map_kernel-Mapped B root l ends s c) (λ _ s2 (stack, h2).
      bind (get_map-Confined B root (kernel_areas l stack) P s2 h2.confined) (λ d s3 x3.
        scan_map-Booted B root l ends stack P d s3
          (Mapped-kept B root l ends _ _ stack 0 0 s2 s3 h2 x3))))

-- With memory for the top-level table, and with a loader's image and a framebuffer of at most
-- 2 ^ 64 - 0x1000 bytes, so that the loops over them end: `efi_main` makes its page tables without a fault in the model,
-- up to its end or to one of the three uses of what is not there, which are endings of their own.
-- Whichever calls of the firmware failed on the way: the tables form a tree below the page that was
-- allocated first, every page that they map lies in one of the six areas (the loader, the kernel, its stack,
-- the frame map, the framebuffer and the page that shows the region's table), and has the entry of the area
-- for that page. The stack is memory that the firmware handed out, or stands at address 0, the frame map is
-- memory that the firmware handed out, and the table that the region's area shows is the page table to which
-- the region's address leads, unless there is no such area. The arguments for the kernel, if it comes so far,
-- are the starts and sizes of the last three areas.
pub efi_main-Booted :
    (B : BootServices) (P : PoolServices B) (l : Loaded) (s : Machine B)
    → LoopsEnd l
    → (B.allocate_pages s.boot 1).status ≡ efi_success
    → Ensures (Booted B l (B.allocate_pages s.boot 1).address) (efi_main B P l s)
unfolding efi_main
efi_main-Booted B P l s ends h =
    bind (make_root-Confined B s h) (λ root s1 (at, (c1, _)). after_root B P l root _ s1 ends at c1)
