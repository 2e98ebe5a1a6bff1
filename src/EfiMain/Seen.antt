-- ===== src/EfiMain/Seen.antt =====
-- What the kernel sees when it is called.
use fur_os.Prelude.{
  ℕ, ◌+◌, ◌-◌, ◌*◌, ◌/◌, ◌%◌, ◌^◌, ◌≤◌, ◌<◌, ◌≡◌, ◌≢◌, refl, Bool-cases, ltb, ◌∙◌, ap, ◌⊎◌, inl,
  inr, List, Option, none, some, false, arith,
}
use fur_os.Command.{ok}
use fur_os.Command.Ensures.{Ensures, ensures, bind}
use fur_os.Memory.{Memory}
use fur_os.Efi.{BootServices, Machine}
use fur_os.Paging.{table_of}
use fur_os.Paging.Entry.{table_of_lem}
use fur_os.Paging.Tree.{translate}
use fur_os.Paging.Map.{leaf_of}
use fur_os.Pool.{PoolServices}
use fur_os.Load.{Protocols, load}
use fur_os.Load.Read.{CanLoad, IsRead, load-IsLoaded}
use fur_os.Stub.{Loaded, Ending, started, higher_half_start}
use fur_os.Stub.Apart.{FitsLayout}
use fur_os.Stub.Kept.{translate-same}
use fur_os.Supply.{Supply}
use fur_os.Supply.Main.{enough}
use fur_os.Supply.Handed.{Handed, IsMode, efi_main-Handed}
use fur_os.Handoff.Args.{read_args, write_mode, write_rest}
use fur_os.Handoff.Args.Fields.{
  write_mode-outside, write_rest-outside, read_args-agree, read_args-write_rest, ShowsMode,
}
use fur_os.Handoff.Jump.{jump}
use fur_os.EfiMain.{run_with_args, leave_rest}
use fur_os.EfiMain.Kernel.{kernel_byte, loaded_of}

-- The byte that an entry leads to for an address.
abbrev byte_through : Memory → Option ℕ → ℕ → ℕ
byte_through m none va = 0
byte_through m (some e) va = m (table_of e + va % 4096)

-- Memory as it is seen through the page tables below `root`.
unfoldable pub through : Memory → ℕ → Memory
unfolding translate
through m root va = byte_through m (translate m root va) va

through-translate :
    (m : Memory) (root va e : ℕ)
    → translate m root va ≡ some e
    → through m root va ≡ m (table_of e + va % 4096)
unfolding through
through-translate m root va e h = rw h

-- The entry of an identity mapping leads to the byte.
identity_byte : (a : ℕ) → a < 2 ^ 52 → table_of (leaf_of a false) + a % 4096 ≡ a
identity_byte a h = omega (arith, table_of_lem (leaf_of a false))

-- The page of an address.
abbrev page_at : ℕ → ℕ
page_at a = a / 4096 * 4096

not_owned : {x : Option (List ℕ)} {p : List ℕ} → x ≡ none → x ≡ some p → ⊥
not_owned a b = cc

module _ (B : BootServices) (P : PoolServices B) (F : Protocols B P) where
  -- The 96 bytes at `at` lie in the loader's image, in pages that were handed out to it, apart from the
  -- page right after the top-level table and from the kernel's file.
  pub record IsStatic (f : F.File) (start : Machine B) (l : Loaded) (at : ℕ) : Type 0 where
    pub from : l.image_base ≤ at
    pub to : at + 96 ≤ l.image_base + l.image_size
    pub held : (j : ℕ) → j < 96 → B.InUse start.boot (page_at (at + j))
    pub spared :
        (j : ℕ) → j < 96 → page_at (at + j) ≢ (B.allocate_pages start.boot 1).address + 0x1000
    pub no_file : (at + 96 ≤ l.kernel_physical) ⊎ (l.kernel_physical + F.length f ≤ at)

  -- The call of the kernel finds, through the page tables that are loaded for it, its arguments where its
  -- first argument points to, and its file where the processor goes on. The arguments are those that
  -- `before`, the machine before the last of them were stored, hands over.
  pub record Seen (f : F.File) (start : Machine B) (l : Loaded) (at : ℕ) (outcome : Option Ending)
      (s : Machine B) : Type 0 where
    pub ending : Ending
    pub before : Machine B
    pub comes_to : outcome ≡ some ending
    pub handed : Handed B P start l (B.allocate_pages start.boot 1).address ending before
    pub tables :
        (va : ℕ)
        → translate s.memory (B.allocate_pages start.boot 1).address va
          ≡ translate before.memory (B.allocate_pages start.boot 1).address va
    pub args :
        let c = jump (B.allocate_pages start.boot 1).address at in
        read_args (through s.memory c.cr3) c.rdi ≡ handed.args
    pub file :
        let c = jump (B.allocate_pages start.boot 1).address at in
        (i : ℕ) → i < F.length f → through s.memory c.cr3 (c.rip + i) ≡ F.content f i % 256

  module _ (f : F.File) (before_mode : Machine B) (l : Loaded) (at : ℕ)
      (static : IsStatic f before_mode l at) (low : l.image_base + l.image_size ≤ 2 ^ 47) where
    -- The machine with the screen's mode stored.
    abbrev start : Machine B
    start = record before_mode { memory = write_mode at l before_mode.memory }

    abbrev root : ℕ
    root = (B.allocate_pages before_mode.boot 1).address

    IsRead-stored :
        IsRead B P F f (l.file_size, l.kernel_physical) before_mode
        → IsRead B P F f (l.file_size, l.kernel_physical) start
    IsRead-stored r = record {
      size = r.size;
      bytes = λ i lt.
          write_mode-outside at (l.kernel_physical + i) l before_mode.memory
            (omega (arith, static.no_file))
          ∙ r.bytes i lt;
      pages = r.pages;
      room = r.room;
      aligned = r.aligned;
      in_space = r.in_space;
    }

    module _ (ending : Ending) (s : Machine B) (h : Handed B P start l root ending s) where
      abbrev final : Memory
      final = write_rest at h.args s.memory

      kept_byte : (j : ℕ) → j < 96 → s.memory (at + j) ≡ write_mode at l before_mode.memory (at + j)
      kept_byte j lt =
          let (_, _, same) =
            h.untouched (page_at (at + j)) ((at + j) % 4096) (static.held j lt) (omega arith)
              (static.spared j lt) (omega arith) in
          let split : page_at (at + j) + (at + j) % 4096 ≡ at + j = omega arith in rw split at same

      -- The arguments lie in no table.
      outside_tables :
          (u j : ℕ) (q : List ℕ) → h.own u ≡ some q → j < 4096 → (u + j < at) ⊎ (at + 96 ≤ u + j)
      outside_tables u j q o lt = elim (Bool-cases (ltb (u + j) at)) [
        | inl below ↦ inl (ground arith)
        | inr not_below ↦ elim (Bool-cases (ltb (u + j) (at + 96))) [
          | inl inside ↦
              let i = u + j - at in
              let small : i < 96 = ground arith in
              let aligned = h.tree.aligned u q o in
              let here : page_at (at + i) ≡ u = ground (arith, aligned) in
              let (_, free, _) =
                h.untouched (page_at (at + i)) 0 (static.held i small) (omega arith)
                  (static.spared i small) (omega arith) in
              absurd (not_owned (rw here at free) o)
          | inr above ↦ inr (ground arith)
        ]
      ]

      tables_same : (va : ℕ) → translate final root va ≡ translate s.memory root va
      tables_same va =
          translate-same B root h.own s (record s { memory = final }) h.tree
            (λ u j q o lt.
              write_rest-outside at (u + j) h.args s.memory (outside_tables u j q o lt))
            (λ a u. u) va

      shows_mode : ShowsMode l h.args
      shows_mode =
          let (vertical, horizontal, line) = h.resolutions in
          record {
            framebuffersize = h.screen_size;
            vertical_resolution = vertical;
            horizontal_resolution = horizontal;
            pixels_per_scanline = line;
          }

      args_seen : read_args (through final root) at ≡ h.args
      args_seen =
          read_args-agree at final (through final root) (λ j lt.
            let i : l.image_base + (at + j - l.image_base) ≡ at + j = omega (arith, static.from) in
            let mapped =
              rw i at (h.image (at + j - l.image_base) (omega (arith, static.from, static.to))) in
            through-translate final root (at + j) (leaf_of (at + j) false)
              (tables_same (at + j) ∙ mapped)
            ∙ ap final (identity_byte (at + j) (omega (arith, static.to))))
          ∙ read_args-write_rest at l h.args before_mode.memory s.memory h.in_types shows_mode
              kept_byte

      module _ (read : IsRead B P F f (l.file_size, l.kernel_physical) before_mode)
          (apart : (k : ℕ)
            → 4096 * k < F.length f
            → l.kernel_physical + 4096 * k ≢ root + 0x1000) where
        file_seen :
            (i : ℕ)
            → i < F.length f
            → through final root (higher_half_start + i) ≡ F.content f i % 256
        file_seen i lt =
            let (e, shown, _, here, byte) =
              kernel_byte B P F f start l root (IsRead-stored read) apart ending s h i lt in
            through-translate final root (higher_half_start + i) e
              (tables_same (higher_half_start + i) ∙ shown)
            ∙ ap final here
            ∙ write_rest-outside at (l.kernel_physical + i) h.args s.memory
                (omega (arith, static.no_file))
            ∙ byte

        Handed-Seen :
            Seen f start l at (some ending) (record s { memory = leave_rest at ending s.memory })
        unfolding leave_rest jump
        Handed-Seen = rw h.comes_to (record {
          ending = started h.args;
          before = s;
          comes_to = refl;
          handed = rw h.comes_to at h;
          tables = tables_same;
          args = args_seen;
          file = file_seen;
        })

  -- On a firmware where the protocols are there, and the kernel's file can be opened and read; where
  -- loading leaves `l` and the machine `loaded`; where that has memory left for the tables, the stack, the
  -- frame map and two memory maps; with the sizes and the alignments of `FitsLayout` and `IsMode`; where
  -- the page right after the top-level table is none of those that hold the file; and with the arguments
  -- in the loader's image, in pages that were handed out to it, apart from that page and from the file:
  -- `efi_main`, with the screen's mode stored in the arguments before the page tables are made and the rest at
  -- the end, comes to the exit from the boot services without a fault. The kernel that is called then
  -- finds, through the page tables that the jump loads, the arguments of `Handed` where its first argument
  -- points to, and byte `i` of its own file, as it is on the disk, `i` bytes from where the processor goes on.
  pub run_with_args-Seen :
      (U : Supply B P) (f : F.File) (s loaded : Machine B) (l : Loaded) (at : ℕ)
      → CanLoad B P F s.boot f
      → load B P F s ≡ ok (some l) loaded
      → U.Left loaded.boot (enough l U.top)
      → IsMode l
      → FitsLayout l (U.top / 0x1000 / 8)
      → ((k : ℕ)
          → 4096 * k < F.length f
          → l.kernel_physical + 4096 * k ≢ (B.allocate_pages loaded.boot 1).address + 0x1000)
      → IsStatic f loaded l at
      → Ensures
          (Seen f (record loaded { memory = write_mode at l loaded.memory }) l at)
          (run_with_args B P F at s)
  unfolding run_with_args
  run_with_args-Seen U f s loaded l at can e left mode fits apart static =
      let read = loaded_of B P F f s.boot l loaded (rw e at (load-IsLoaded B P F s f can)) in
      let stored : Machine B = record loaded { memory = write_mode at l loaded.memory } in
      rw e (
        bind (efi_main-Handed B P stored l U mode fits left) (λ ending s' h.
          ensures
            (Handed-Seen f loaded l at static (omega (arith, fits.image)) ending s' h read apart)))
