-- ===== src/Supply/Handed.antt =====
-- What the kernel is handed: every argument leads to what it is for.
use fur_os.Prelude.{
  ℕ, ◌+◌, ◌-◌, ◌*◌, ◌/◌, ◌%◌, ◌^◌, ◌≤◌, ◌<◌, ◌≡◌, ◌≢◌, none, refl, ◌∙◌, ap, inl, inr, some, true,
  false, arith,
}
use fur_os.Command.Ensures.{Ensures, weaken}
use fur_os.Efi.{BootServices, Machine}
use fur_os.Memory.{Memory}
use fur_os.Paging.Tree.{Owner, IsTree, translate}
use fur_os.Paging.Map.{leaf_of}
use fur_os.Pool.{PoolServices}
use fur_os.Pool.Map.{Described}
use fur_os.Memory.Laws.{load_le-lt}
use fur_os.Handoff.Args.Fields.{FitsArgs}
use fur_os.Supply.{Supply}
use fur_os.Supply.Covers.{HasPage, HasPages}
use fur_os.Supply.Main.{Running, enough, pages_for, efi_main-Running}
use fur_os.Stub.{
  Loaded, LoaderArgs, Ending, started, kernel_pages_count, higher_half_start, stack_top, stack_size,
  read_descriptor, efi_main,
}
use fur_os.Stub.Root.{spoiled_other}
use fur_os.Paging.Leads.{Leads}
use fur_os.Stub.Layout.{LoopsEnd, screen_at, region_at}
use fur_os.Stub.Apart.{
  FitsLayout, only_screen, only_frames, only_region, only_kernel, only_stack, only_image,
  kernel_bound, screen_bound, region_bound,
}

-- The byte at `va` is on the page of the entry `leaf`.
abbrev pub Leaf : Memory → ℕ → ℕ → ℕ → Type 0
Leaf m root va leaf = translate m root va ≡ some leaf

leaf_here :
    (m : Memory) (root va leaf : ℕ)
    → HasPage m root va
    → ((e : ℕ) → translate m root va ≡ some e → e ≡ leaf)
    → Leaf m root va leaf
leaf_here m root va leaf (e, h) only = h ∙ ap some (only e h)

-- The pages from one that starts at `virt` on hold the bytes from there on.
byte_of :
    (n virt j : ℕ) (m : Memory) (root : ℕ)
    → virt % 4096 ≡ 0
    → HasPages ((n + 0xfff) / 0x1000) virt m root
    → j < n
    → HasPage m root (virt + j)
byte_of n virt j m root aligned pages h = pages (virt + j) (j / 4096) (omega arith) (omega arith)

-- The resolutions of the screen's mode are numbers of their type.
pub record IsMode (l : Loaded) : Type 0 where
  pub vertical : l.vertical_resolution < 2 ^ 32
  pub horizontal : l.horizontal_resolution < 2 ^ 32
  pub line : l.pixels_per_scanline < 2 ^ 32

-- `start` is the machine before the page tables are made.
module _ (B : BootServices) (P : PoolServices B) (start : Machine B) (l : Loaded) where
  -- The framebuffer, the frame map, the table that the region shows, the kernel, its stack and the loader stand at
  -- the arguments, and at the fixed addresses, that the kernel finds them at; the frame map and the
  -- stack are memory that was allocated, and the memory map is the firmware's. The pages that were handed
  -- out before have the bytes that they had, but for the one that the clearing of the table runs over.
  pub record Handed (root : ℕ) (ending : Ending) (s : Machine B) : Type 0 where
    pub args : LoaderArgs
    pub stack : ℕ
    pub frame_map : ℕ
    pub pt : ℕ
    pub descriptor : ℕ
    pub room : ℕ
    pub own : Owner
    pub tree : IsTree B root own s
    pub comes_to : ending ≡ started args
    pub resolutions :
        (args.vertical_resolution ≡ l.vertical_resolution)
        × (args.horizontal_resolution ≡ l.horizontal_resolution)
        × (args.pixels_per_scanline ≡ l.pixels_per_scanline)
    pub in_types : FitsArgs args
    pub screen_size : args.framebuffersize ≡ l.frame_buffer_size
    pub screen :
        (j : ℕ)
        → j < args.framebuffersize
        → Leaf s.memory root (args.framebuffer + j) (leaf_of (l.frame_buffer_base + j) false)
    pub frames :
        (j : ℕ)
        → j < args.frame_map_size
        → Leaf s.memory root (args.frame_map + j) (leaf_of (frame_map + 4096 * (j / 4096)) true)
    pub region :
        (j : ℕ) → j < 4096 → Leaf s.memory root (args.temp_mapping_region + j) (leaf_of pt false)
    pub table : Leads s.memory root args.temp_mapping_region pt
    pub kernel :
        (j : ℕ)
        → j < kernel_pages_count l
        → Leaf s.memory root
            (higher_half_start + j)
            (leaf_of (l.kernel_physical + 4096 * (j / 4096)) true)
    pub kernel_stack :
        (j : ℕ)
        → j < stack_size
        → Leaf s.memory root (stack_top - stack_size + j) (leaf_of (stack + 4096 * (j / 4096)) true)
    pub image :
        (j : ℕ)
        → j < l.image_size
        → Leaf s.memory root (l.image_base + j) (leaf_of (l.image_base + j) false)
    pub frames_held :
        (k : ℕ) → k < pages_for args.frame_map_size → B.InUse s.boot (frame_map + 4096 * k)
    pub stack_held : (k : ℕ) → k < stack_size / 0x1000 → B.InUse s.boot (stack + 4096 * k)
    pub described : Described B P s descriptor room
    pub map_passed : args.memory_map_descriptor ≡ read_descriptor s.memory descriptor
    pub untouched :
        (v j : ℕ)
        → B.InUse start.boot v
        → v % 4096 ≡ 0
        → v ≢ root + 0x1000
        → j < 4096
        → (B.InUse s.boot v) × (own v ≡ none) × (s.memory (v + j) ≡ start.memory (v + j))

  smaller : (size top : ℕ) → size ≤ top → FitsLayout l top → FitsLayout l size
  smaller size top h fits = record {
    image = fits.image;
    image_pages = fits.image_pages;
    kernel = fits.kernel;
    frames = omega (arith, h, fits.frames);
    screen = fits.screen;
    screen_pages = fits.screen_pages;
  }

  loops_end : (top : ℕ) → FitsLayout l top → LoopsEnd l
  loops_end top fits = record {
    image = omega (arith, fits.image);
    screen = omega (arith, fits.screen);
  }

  -- The descriptor is read from memory by its types.
  IsMode-FitsArgs :
      (root size : ℕ) (ending : Ending) (s : Machine B) (U : Supply B P) (ends : LoopsEnd l)
      → IsMode l
      → FitsLayout l size
      → (r : Running B P U start l ends root ending s) → r.size ≡ size
      → FitsArgs r.args
  unfolding read_descriptor
  IsMode-FitsArgs root size ending s U ends mode fit r e =
      let (screen, screen_size, frames, frames_size, region) = r.arguments in
      let (vertical, horizontal, line) = r.resolutions in
      let d = r.descriptor in
      record {
        framebuffer = rw screen (omega arith);
        framebuffersize = rw screen_size (omega (arith, fit.screen));
        vertical_resolution = rw vertical mode.vertical;
        horizontal_resolution = rw horizontal mode.horizontal;
        pixels_per_scanline = rw line mode.line;
        memory_map_size = rw r.map_passed (load_le-lt 8 s.memory d);
        descriptor_size = rw r.map_passed (load_le-lt 8 s.memory (d + 8));
        map_key = rw r.map_passed (load_le-lt 8 s.memory (d + 16));
        descriptor_version = rw r.map_passed (load_le-lt 4 s.memory (d + 24));
        memory_map = rw r.map_passed (load_le-lt 8 s.memory (d + 32));
        frame_map = rw frames (omega arith);
        frame_map_size = rw (frames_size, e) (omega (arith, fit.frames));
        temp_mapping_region = rw region (omega arith);
      }

  module _ (U : Supply B P) (mode : IsMode l) (fits : FitsLayout l (U.top / 0x1000 / 8)) where
    Running-Handed :
        (root : ℕ) (ending : Ending) (s : Machine B)
        → Running B P U start l (loops_end (U.top / 0x1000 / 8) fits) root ending s
        → Handed root ending s
    Running-Handed root ending s r =
        let (screen, screen_size, frames, frames_size, region) = r.arguments in
        let fit = smaller r.size (U.top / 0x1000 / 8) r.size_bound fits in
        let inside = r.stage.confined.entries in
        let (
          region_pages,
          (screen_pages, (frames_pages, (stack_pages, (kernel_pages, (image_pages, _))))),
        ) =
          r.stage.mapped in
        let kernel = kernel_bound l r.size r.stack r.frame_map r.pt fit in
        let low = screen_bound l r.size r.stack r.frame_map r.pt fit in
        let high = region_bound l r.size r.stack r.frame_map r.pt fit in
        record {
          args = r.args;
          stack = r.stack;
          frame_map = r.frame_map;
          pt = r.pt;
          descriptor = r.descriptor;
          room = r.room;
          own = r.stage.confined.own;
          tree = r.stage.confined.tree;
          comes_to = r.comes_to;
          resolutions = r.resolutions;
          in_types =
              IsMode-FitsArgs root r.size ending s U (loops_end (U.top / 0x1000 / 8) fits) mode fit
                r refl;
          screen_size = screen_size;
          screen = λ j h. rw screen (
              leaf_here s.memory root ((higher_half_start + screen_at l r.size) % 2 ^ 64 + j) _
                (byte_of l.frame_buffer_size ((higher_half_start + screen_at l r.size) % 2 ^ 64) j
                  s.memory root (omega (arith, fit, kernel, low, high)) screen_pages
                  (rw screen_size at h))
                (λ e found.
                  only_screen l r.size r.stack r.frame_map r.pt fit j e (rw screen_size at h)
                    (inside _ e found)));
          frames = λ j h. rw frames (
              leaf_here s.memory root ((higher_half_start + kernel_pages_count l) % 2 ^ 64 + j) _
                (byte_of r.size ((higher_half_start + kernel_pages_count l) % 2 ^ 64) j s.memory
                  root (omega (arith, fit, kernel, low, high)) frames_pages (rw frames_size at h))
                (λ e found.
                  only_frames l r.size r.stack r.frame_map r.pt fit j e (rw frames_size at h)
                    (inside _ e found)));
          region = λ j h. rw region (
              leaf_here s.memory root ((higher_half_start + region_at l r.size) % 2 ^ 64 + j) _
                (byte_of 4096 ((higher_half_start + region_at l r.size) % 2 ^ 64) j s.memory root
                  (omega (arith, fit, kernel, low, high)) region_pages h)
                (λ e found.
                  only_region l r.size r.stack r.frame_map r.pt fit j e h (inside _ e found)));
          table = rw region r.table;
          kernel = λ j h.
              leaf_here s.memory root (higher_half_start + j) _
                (byte_of (kernel_pages_count l) higher_half_start j s.memory root (omega arith)
                  kernel_pages h)
                (λ e found.
                  only_kernel l r.size r.stack r.frame_map r.pt fit j e h (inside _ e found));
          kernel_stack = λ j h.
              leaf_here s.memory root (stack_top - stack_size + j) _
                (byte_of stack_size (stack_top - stack_size) j s.memory root (omega arith)
                  stack_pages h)
                (λ e found.
                  only_stack l r.size r.stack r.frame_map r.pt fit j e h (inside _ e found));
          image = λ j h.
              leaf_here s.memory root (l.image_base + j) _
                (byte_of l.image_size l.image_base j s.memory root fit.image_pages image_pages h)
                (λ e found.
                  only_image l r.size r.stack r.frame_map r.pt fit j e h (inside _ e found));
          frames_held = λ k h. r.stage.in_use _ (inl (k, rw frames_size at h, refl));
          stack_held = λ k h. r.stage.in_use _ (inr (inl (k, h, refl)));
          described = r.described;
          map_passed = r.map_passed;
          untouched = λ v j u a ne lt.
              let free = spoiled_other root v ne in
              let x = r.stage.spares in (x.kept v u, x.unowned v u free, x.memory v j u a free lt);
        }

    -- On a firmware that has memory left for the tables, the stack, the frame map and two memory maps;
    -- with the loader below 2 ^ 47, a kernel's file smaller than 2 ^ 39 bytes, a framebuffer of at most
    -- 2 ^ 40 bytes, both from the start of a page on, and a memory map that asks for a frame map of at
    -- most 2 ^ 40 bytes, and with resolutions of 32 bits: `efi_main` comes to its end without a fault and
    -- leaves arguments for the kernel, each within its type.
    -- Every byte of the framebuffer, of the frame map and of the first page of the region of temporary
    -- mappings translates, at the address in the arguments, to the page of that byte of the physical
    -- framebuffer, of the memory for the frame map, and to the page table to which the upper three levels of the walk
    -- for the region lead, so that the region shows the entries that map it; every byte of the kernel, from
    -- the higher half on, to that of the kernel as it was loaded, of its stack to that of the memory for
    -- it, and of the loader to itself. The memories for the frame map and the stack are pages that the
    -- firmware handed out, and the arguments hold the firmware's memory map. Every page that was in use
    -- before the page tables were made is in use still, is none of the tables and has all the bytes that it
    -- had, unless it is the page right after the top-level table.
    pub efi_main-Handed :
        U.Left start.boot (enough l U.top)
        → Ensures (Handed (B.allocate_pages start.boot 1).address) (efi_main B P l start)
    efi_main-Handed left =
        weaken (efi_main-Running B P U start l (loops_end (U.top / 0x1000 / 8) fits) left)
          (λ ending s' r. Running-Handed _ ending s' r)
