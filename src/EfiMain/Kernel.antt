-- ===== src/EfiMain/Kernel.antt =====
-- The kernel's file, from the disk to the higher half.
use fur_os.Prelude.{
  ℕ, ◌+◌, ◌*◌, ◌/◌, ◌%◌, ◌^◌, ◌<◌, ◌≡◌, ◌≢◌, refl, ◌∙◌, ap, Option, some, true, arith,
}
use fur_os.Command.{ok}
use fur_os.Command.Ensures.{Ensures, ensures, bind}
use fur_os.Efi.{BootServices, Machine}
use fur_os.Paging.{table_of}
use fur_os.Paging.Entry.{table_of_lem}
use fur_os.Paging.Tree.{translate}
use fur_os.Paging.Map.{leaf_of}
use fur_os.Pool.{PoolServices}
use fur_os.Load.{Protocols, load}
use fur_os.Load.Read.{CanLoad, IsRead, IsLoaded, load-IsLoaded}
use fur_os.Stub.{Loaded, Ending, higher_half_start, kernel_size}
use fur_os.Stub.Apart.{FitsLayout}
use fur_os.Supply.{Supply}
use fur_os.Supply.Main.{enough}
use fur_os.Supply.Handed.{Handed, IsMode, efi_main-Handed}
use fur_os.EfiMain.{run_efi_main}

module _ (B : BootServices) (P : PoolServices B) (F : Protocols B P) where
  -- Byte `i` of the file is what the page tables show `i` bytes into the higher half, on a page that the
  -- firmware handed out.
  abbrev pub Shows : F.File → ℕ → Machine B → Type 0
  Shows f root s =
      (i : ℕ)
      → i < F.length f
      → (e : ℕ) × (translate s.memory root (higher_half_start + i) ≡ some e)
        × B.InUse s.boot (table_of e)
        × (s.memory (table_of e + (higher_half_start + i) % 4096) ≡ F.content f i % 256)

  in_file : (n i : ℕ) → n < 2 ^ 63 → i < n → i < kernel_size n
  unfolding kernel_size
  in_file n i h lt = omega arith

  leaf_page :
      (a i : ℕ)
      → a % 4096 ≡ 0
      → a + i < 2 ^ 52
      → table_of (leaf_of (a + 4096 * (i / 4096)) true) ≡ a + 4096 * (i / 4096)
  leaf_page a i h b = omega (arith, table_of_lem (leaf_of (a + 4096 * (i / 4096)) true))

  module _ (f : F.File) (start : Machine B) (l : Loaded) (root : ℕ)
      (read : IsRead B P F f (l.file_size, l.kernel_physical) start)
      (apart : (k : ℕ) → 4096 * k < F.length f → l.kernel_physical + 4096 * k ≢ root + 0x1000) where
    -- The page of byte `i`, where that byte stands.
    pub kernel_byte :
        (ending : Ending) (s : Machine B)
        → Handed B P start l root ending s
        → (i : ℕ) → i < F.length f
        → (e : ℕ) × (translate s.memory root (higher_half_start + i) ≡ some e)
          × B.InUse s.boot (table_of e)
          × (table_of e + (higher_half_start + i) % 4096 ≡ l.kernel_physical + i)
          × (s.memory (l.kernel_physical + i) ≡ F.content f i % 256)
    kernel_byte ending s h i lt =
        let size = read.size in
        let k = i / 4096 in
        let v = l.kernel_physical + 4096 * k in
        let inside = in_file (F.length f) i (F.length_fits f) lt in
        let aligned = read.aligned in
        let (used, _, same) =
          h.untouched v (i % 4096) (read.pages k (omega (arith, inside))) (omega arith)
            (apart k (omega arith)) (omega arith) in
        let page = leaf_page l.kernel_physical i aligned (omega (arith, read.in_space, inside)) in
        let split : v + i % 4096 ≡ l.kernel_physical + i = omega arith in
        (
          leaf_of v true,
          h.kernel i (rw size inside),
          rw page used,
          rw page (omega arith),
          rw split at same ∙ read.bytes i lt,
        )

    Handed-Shows :
        (ending : Ending) (s : Machine B) → Handed B P start l root ending s → Shows f root s
    Handed-Shows ending s h i lt =
        let (e, shown, used, at, byte) = kernel_byte ending s h i lt in
        (e, shown, used, ap s.memory at ∙ byte)

  -- The page tables below `root` show the kernel's file, and hand over what was loaded.
  pub record Started (f : F.File) (start : Machine B) (l : Loaded) (outcome : Option Ending)
      (s : Machine B) : Type 0 where
    pub ending : Ending
    pub comes_to : outcome ≡ some ending
    pub handed : Handed B P start l (B.allocate_pages start.boot 1).address ending s
    pub shows : Shows f (B.allocate_pages start.boot 1).address s

  some_loaded : (l l' : Loaded) → (let a : Option Loaded = some l in a) ≡ some l' → l ≡ l'
  some_loaded l l' h = cc

  pub loaded_of :
      (f : F.File) (b : B.State) (l : Loaded) (start : Machine B)
      → Ensures (IsLoaded B P F b f) (ok (some l) start)
      → IsRead B P F f (l.file_size, l.kernel_physical) start
  loaded_of f b l start (ensures r) = rw (some_loaded l r.loaded r.comes_to) (r.kernel)

  -- On a firmware where the protocols are there, and the kernel's file can be opened and read; where
  -- loading leaves `l` and the machine `start`; where `start` has memory left for the tables, the stack,
  -- the frame map and two memory maps; with the sizes and the alignments of `FitsLayout` and `IsMode`; and
  -- where the page right after the top-level table is none of those that hold the file: `efi_main`,
  -- but for its stores to `KernelArgs`, comes to the exit from the boot services without a fault and leaves arguments for the kernel as in `Handed`,
  -- and byte `i` of the kernel's file, as it is on the disk, is the byte that the page tables show `i` bytes into
  -- the higher half, where the kernel is then called.
  pub run_efi_main-Started :
      (U : Supply B P) (f : F.File) (s start : Machine B) (l : Loaded)
      → CanLoad B P F s.boot f
      → load B P F s ≡ ok (some l) start
      → U.Left start.boot (enough l U.top)
      → IsMode l
      → FitsLayout l (U.top / 0x1000 / 8)
      → ((k : ℕ)
          → 4096 * k < F.length f
          → l.kernel_physical + 4096 * k ≢ (B.allocate_pages start.boot 1).address + 0x1000)
      → Ensures (Started f start l) (run_efi_main B P F s)
  unfolding run_efi_main
  run_efi_main-Started U f s start l can e left mode fits apart =
      let read = loaded_of f s.boot l start (rw e at (load-IsLoaded B P F s f can)) in
      rw e (
        bind (efi_main-Handed B P start l U mode fits left) (λ ending s' h. ensures (record {
          ending = ending;
          comes_to = refl;
          handed = h;
          shows =
              Handed-Shows f start l (B.allocate_pages start.boot 1).address read apart ending s' h;
        })))
