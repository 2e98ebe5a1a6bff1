-- ===== src/Supply/Main.antt =====
-- With memory left, `efi_main` comes to its end.
use fur_os.Stub.Main.{kernel_loop_ends}
use fur_os.Stub.Kept.{get_map-Leads}
use fur_os.Paging.Leads.{Leads}
use fur_os.Prelude.{
  ℕ, ◌+◌, ◌-◌, ◌*◌, ◌/◌, ◌%◌, ◌^◌, ◌≤◌, ◌<◌, ◌≡◌, refl, ◌⊎◌, Option, none, some, [], ◌∷◌, true,
  false, ◌==◌, arith, if◌then◌else◌,
}
use fur_os.Command.{pure, ◌>>=◌, ◌>>◌}
use fur_os.Command.Ensures.{Ensures, ensures, bind, weaken, both}
use fur_os.Efi.{BootServices, Machine}
use fur_os.Loader.{max_address, max_address-lt, map_pages}
use fur_os.Pool.{PoolServices}
use fur_os.Pool.Map.{Described}
use fur_os.Supply.{Supply}
use fur_os.Supply.Tables.{same_left}
use fur_os.Supply.Map.{scan-Supply}
use fur_os.Supply.Stage.{
  InBlock, Stage, map_pages-Stage, make_temp_region-Stage, allocate-Stage, get_map-Stage,
  make_root-Stage,
}
use fur_os.Stub.{
  Loaded, LoaderArgs, Ending, started, unset_frame_map, kernel_pages_count, higher_half_start,
  stack_top, stack_size, read_descriptor, map_kernel, map_frames, get_map, leave_args, map_rest,
  map_sized, scan_map, efi_main,
}
use fur_os.Stub.Layout.{
  image_area, kernel_area, frames_area, screen_at, region_at, kernel_areas, areas_of, ArgsOf,
  LoopsEnd,
}

-- Pages for so many bytes.
abbrev pub pages_for : ℕ → ℕ
pages_for size = (size + 0xfff) / 0x1000

-- What is left to do before each step: the last memory map and the region; the framebuffer; the frame
-- map; everything.
abbrev for_screen : Loaded → ℕ
for_screen l = 3 * pages_for l.frame_buffer_size + (3 + 2)

abbrev for_frames : Loaded → ℕ → ℕ
for_frames l size = pages_for size + (3 * pages_for size + for_screen l)

abbrev pub enough : Loaded → ℕ → ℕ
enough l top =
    1
    + (3 * pages_for l.image_size
        + (3 * pages_for (kernel_pages_count l)
            + (stack_size / 0x1000
                + (3 * pages_for stack_size + (2 + for_frames l (top / 0x1000 / 8))))))

module _ (B : BootServices) (P : PoolServices B) (U : Supply B P) (start : Machine B) (l : Loaded)
    (ends : LoopsEnd l) where
  -- The end: the arguments are left, the six areas are mapped whole and nothing else is, the stack and
  -- the frame map are memory that was allocated, and the arguments hold the firmware's map.
  pub record Running (root : ℕ) (ending : Ending) (s : Machine B) : Type 0 where
    pub stack : ℕ
    pub frame_map : ℕ
    pub size : ℕ
    pub pt : ℕ
    pub args : LoaderArgs
    pub descriptor : ℕ
    pub room : ℕ
    pub comes_to : ending ≡ started args
    pub arguments : ArgsOf l size (started args)
    pub resolutions :
        (args.vertical_resolution ≡ l.vertical_resolution)
        × (args.horizontal_resolution ≡ l.horizontal_resolution)
        × (args.pixels_per_scanline ≡ l.pixels_per_scanline)
    pub size_bound : size ≤ U.top / 0x1000 / 8
    pub described : Described B P s descriptor room
    pub map_passed : args.memory_map_descriptor ≡ read_descriptor s.memory descriptor
    pub table : Leads s.memory root ((higher_half_start + region_at l size) % 2 ^ 64) pt
    pub stage :
        Stage B P U start root
          (areas_of l stack frame_map size pt)
          0
          (λ a. InBlock frame_map (pages_for size) a ⊎ (InBlock stack (stack_size / 0x1000) a ⊎ ⊥))
          s

  module _ (root stack : ℕ) where
    abbrev StackHeld : ℕ → Type 0
    StackHeld a = InBlock stack (stack_size / 0x1000) a ⊎ ⊥

    module _ (size : ℕ) (bound : size ≤ U.top / 0x1000 / 8) (fits : size ≤ 2 ^ 64 - 0x1000) where
      module _ (phys : ℕ) where
        abbrev Held : ℕ → Type 0
        Held a = InBlock phys (pages_for size) a ⊎ StackHeld a

        leave_args-Running :
            (pt d room : ℕ) (s : Machine B)
            → 0 < d
            → Described B P s d room
            → Stage B P U start root (areas_of l stack phys size pt) 0 Held s
            → Leads s.memory root ((higher_half_start + region_at l size) % 2 ^ 64) pt
            → Ensures (Running root) (leave_args B P l size (kernel_pages_count l) d s)
        unfolding leave_args
        leave_args-Running pt d room s positive described h led =
            let test : (d == 0) ≡ false = ground arith in
            rw test (
              ensures (record {
                stack = stack;
                frame_map = phys;
                size = size;
                pt = pt;
                args = _;
                descriptor = d;
                room = room;
                comes_to = refl;
                arguments = (refl, refl, refl, refl, refl);
                resolutions = (refl, refl, refl);
                size_bound = bound;
                described = described;
                map_passed = refl;
                table = led;
                stage = h;
              }))

        map_rest-Running :
            (s : Machine B)
            → Stage B P U start root
                (frames_area l phys size ∷ kernel_areas l stack)
                (for_screen l)
                Held
                s
            → Ensures (Running root) (map_rest B P l size (kernel_pages_count l) root s)
        unfolding map_rest
        map_rest-Running s h =
            bind
              (map_pages-Stage B P U start root _ _ (3 + 2) Held s h l.frame_buffer_size
                l.frame_buffer_base ((higher_half_start + screen_at l size) % 2 ^ 64) false refl
                ends.screen)
              (λ _ s1 h1.
                bind
                  (make_temp_region-Stage B P U start root _ _ 2 Held s1 h1
                    ((higher_half_start + region_at l size) % 2 ^ 64) refl)
                  (λ _ s2 (pt, h2, led).
                    bind
                      (both (get_map-Stage B P U start root _ _ 0 Held s2 h2 (omega arith)) (
                        get_map-Leads B root _ P s2 h2.confined
                          ((higher_half_start + region_at l size) % 2 ^ 64) pt led))
                      (λ d s3 ((positive, (room, described), h3), led').
                        leave_args-Running pt d room s3 positive described h3 led')))

        map_frames-Stage :
            (s : Machine B)
            → Stage B P U start root
                (kernel_areas l stack)
                (3 * pages_for size + for_screen l)
                Held
                s
            → Ensures
                (λ set s'.
                  (set ≡ true)
                  × Stage B P U start root
                      (frames_area l phys size ∷ kernel_areas l stack)
                      (for_screen l)
                      Held
                      s')
                (map_frames B size
                  (some phys)
                  ((higher_half_start + kernel_pages_count l) % 2 ^ 64)
                  root
                  s)
        unfolding map_frames
        map_frames-Stage s h =
            bind
              (map_pages-Stage B P U start root _ _ (for_screen l) Held s h size phys
                ((higher_half_start + kernel_pages_count l) % 2 ^ 64) true refl fits)
              (λ _ s1 h1. ensures (refl, h1))

      after_frames_allocated :
          (phys : ℕ) (x : Option ℕ) (s : Machine B)
          → x ≡ some phys
          → Stage B P U start root
              (kernel_areas l stack)
              (3 * pages_for size + for_screen l)
              (Held phys)
              s
          → Ensures (Running root) (
              (do
                set ← map_frames B size x ((higher_half_start + kernel_pages_count l) % 2 ^ 64) root
                if set
                    then map_rest B P l size (kernel_pages_count l) root
                    else pure unset_frame_map)
                s)
      after_frames_allocated phys x s at h = rw at (
          bind (map_frames-Stage phys s h)
            (λ set s1 (true_set, h1). rw true_set (map_rest-Running phys s1 h1)))

      map_sized-Running :
          (s : Machine B)
          → Stage B P U start root (kernel_areas l stack) (for_frames l size) StackHeld s
          → Ensures (Running root) (map_sized B P l size root s)
      unfolding map_sized
      map_sized-Running s h =
          bind
            (allocate-Stage B P U start root (kernel_areas l stack) _
              (3 * pages_for size + for_screen l) StackHeld s h none some (pages_for size) refl)
            (λ x s1 (phys, at, h1). after_frames_allocated phys x s1 at h1)

    scan_map-Running :
        (d room : ℕ) (s : Machine B)
        → 0 < d
        → Described B P s d room
        → Stage B P U start root
            (kernel_areas l stack)
            (for_frames l (U.top / 0x1000 / 8))
            StackHeld
            s
        → Ensures (Running root) (scan_map B P l root d s)
    unfolding scan_map
    scan_map-Running d room s positive described h =
        let test : (d == 0) ≡ false = ground arith in
        let (entries, e, le) = scan-Supply B P U s d room described in
        let size = max_address 0 entries / 0x1000 / 8 in
        let bound : size ≤ U.top / 0x1000 / 8 = omega (arith, le) in
        let spare = for_frames l (U.top / 0x1000 / 8) - for_frames l size in
        let sum : for_frames l (U.top / 0x1000 / 8) ≡ spare + for_frames l size = omega arith in
        rw (test, e, scan_map)
          (map_sized-Running size bound (omega (arith, max_address-lt entries 0 (omega arith))) s
            (record {
              confined = h.confined;
              mapped = h.mapped;
              left =
                  U.fewer s.boot spare (for_frames l size) (same_left B P U s.boot _ _ sum h.left);
              in_use = h.in_use;
              spares = h.spares;
            }))

  after_stack_allocated :
      (root stack n x : ℕ) (s : Machine B)
      → x ≡ stack
      → Stage B P U start root
          (kernel_area l ∷ image_area l ∷ [])
          (3 * pages_for stack_size + n)
          (StackHeld root stack)
          s
      → Ensures
          (λ _ s'.
            (stack : ℕ) × Stage B P U start root (kernel_areas l stack) n (StackHeld root stack) s')
          (map_pages B stack_size x (stack_top - stack_size) true root s)
  after_stack_allocated root stack n x s at h = rw at (
      weaken
        (map_pages-Stage B P U start root _ _ n (StackHeld root stack) s h stack_size stack
          (stack_top - stack_size) true refl (omega arith))
        (λ _ s' h'. (stack, h')))

  map_kernel-Stage :
      (root n : ℕ) (s : Machine B)
      → Stage B P U start root []
          (3 * pages_for l.image_size
            + (3 * pages_for (kernel_pages_count l)
                + (stack_size / 0x1000 + (3 * pages_for stack_size + n))))
          (λ a. ⊥)
          s
      → Ensures
          (λ _ s'.
            (stack : ℕ) × Stage B P U start root (kernel_areas l stack) n (StackHeld root stack) s')
          (map_kernel B l root s)
  unfolding map_kernel
  map_kernel-Stage root n s h =
      bind
        (map_pages-Stage B P U start root _ _ _ (λ a. ⊥) s h l.image_size l.image_base l.image_base
          false refl ends.image)
        (λ _ s1 h1.
          bind
            (map_pages-Stage B P U start root _ _ _ (λ a. ⊥) s1 h1 (kernel_pages_count l)
              l.kernel_physical higher_half_start true refl (kernel_loop_ends l))
            (λ _ s2 h2.
              bind
                (allocate-Stage B P U start root _ _ _ (λ a. ⊥) s2 h2 0 (λ a. a)
                  (stack_size / 0x1000) refl)
                (λ x s3 (stack, at, h3). after_stack_allocated root stack n x s3 at h3)))

  after_root :
      (root table : ℕ) (s : Machine B)
      → root ≡ table
      → Stage B P U start root []
          (3 * pages_for l.image_size
            + (3 * pages_for (kernel_pages_count l)
                + (stack_size / 0x1000
                    + (3 * pages_for stack_size + (2 + for_frames l (U.top / 0x1000 / 8))))))
          (λ a. ⊥)
          s
      → Ensures (Running table) ((do map_kernel B l root; d ← get_map B P; scan_map B P l root d) s)
  after_root root table s at h = rw (← at) (
      bind (map_kernel-Stage root _ s h) (λ _ s1 (stack, h1).
        bind (get_map-Stage B P U start root _ _ _ _ s1 h1 refl)
          (λ d s2 (positive, (room, described), h2).
            scan_map-Running root stack d room s2 positive described h2)))

  -- With loops over the loader and the framebuffer that end, and on a firmware that has memory left for the tables, the stack, the frame map and two memory maps,
  -- `efi_main` comes to its end, without a fault and without the three uses of what is not there. It
  -- leaves the arguments for the kernel with the firmware's memory map; the six areas are mapped whole,
  -- nothing else is mapped, and the stack and the frame map are pages that the firmware handed out.
  pub efi_main-Running :
      U.Left start.boot (enough l U.top)
      → Ensures (Running (B.allocate_pages start.boot 1).address) (efi_main B P l start)
  unfolding efi_main
  efi_main-Running left =
      bind (make_root-Stage B P U _ start left) (λ root s1 (at, h1). after_root root _ s1 at h1)
