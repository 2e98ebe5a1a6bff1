-- ===== src/Load/Read.antt =====
-- The kernel's file is read whole, to pages that hold it.
use fur_os.Prelude.{
  ℕ, ◌+◌, ◌*◌, ◌/◌, ◌%◌, ◌^◌, ◌≤◌, ◌<◌, ◌≡◌, refl, ◌∙◌, false, ◌==◌, Option, some, arith,
}
use fur_os.Command.Ensures.{Ensures, ensures, bind}
use fur_os.Memory.{load_le}
use fur_os.Memory.Laws.{store_le-outside}
use fur_os.Efi.{BootServices, Machine, efi_success}
use fur_os.Pool.{PoolServices, put_bytes}
use fur_os.Pool.Fields.{put_bytes-inside, load_le-bytes}
use fur_os.Stub.{Loaded, allocate, kernel_size}
use fur_os.Load.{
  Protocols, ask_info, info_pool, file_info, read_to, load_file, call, needed, open_file, load,
}

kernel_size_lem : (n : ℕ) → n < 2 ^ 63 → (n + 0x10000 ≤ kernel_size n) × (kernel_size n % 4096 ≡ 0)
unfolding kernel_size
kernel_size_lem n h = (omega arith, omega arith)

module _ (B : BootServices) (P : PoolServices B) (F : Protocols B P) where
  -- The pool for the file's information and the pages for the file are allocated, and the file is read.
  pub record CanRead (b : B.State) (f : F.File) : Type 0 where
    pub pool : (P.allocate_pool (F.get_info b f 0).state (F.info_size f)).status ≡ efi_success
    pub pages :
        let b2 = (P.allocate_pool (F.get_info b f 0).state (F.info_size f)).state in
        let b3 = (F.get_info b2 f (F.info_size f)).state in
        (B.allocate_pages b3 (kernel_size (F.length f) / 0x1000)).status ≡ efi_success
    pub read :
        let b2 = (P.allocate_pool (F.get_info b f 0).state (F.info_size f)).state in
        let b3 = (F.get_info b2 f (F.info_size f)).state in
        let b4 = (B.allocate_pages b3 (kernel_size (F.length f) / 0x1000)).state in
        (F.read_file b4 f (F.length f)).status ≡ efi_success

  -- The file stands whole at the address, in pages that are in use and have 64 KiB more.
  pub record IsRead (f : F.File) (result : ℕ × ℕ) (s : Machine B) : Type 0 where
    pub size : result.0 ≡ F.length f
    pub bytes : (i : ℕ) → i < F.length f → s.memory (result.1 + i) ≡ F.content f i % 256
    pub pages : (k : ℕ) → 4096 * k < kernel_size (F.length f) → B.InUse s.boot (result.1 + 4096 * k)
    pub room : F.length f + 0x10000 ≤ kernel_size (F.length f)
    pub aligned : result.1 % 4096 ≡ 0
    pub in_space : result.1 + kernel_size (F.length f) ≤ 2 ^ 52

  -- When the pool and the pages are allocated and the file is read, the loader comes to the size of
  -- the kernel's file and an address, without a fault: the file stands whole from there on, in pages
  -- that the firmware handed out, from the start of the first one on and below 2 ^ 52, with 64 KiB of
  -- them or more behind it.
  pub load_file-IsRead :
      (f : F.File) (s : Machine B) → CanRead s.boot f → Ensures (IsRead f) (load_file B P F f s)
  unfolding load_file file_info ask_info info_pool allocate read_to
  load_file-IsRead f s h =
      let n = F.info_size f in
      let len = F.length f in
      let (holds, word) = F.info_holds f in
      let b1 = (F.get_info s.boot f 0).state in
      let q = P.allocate_pool b1 n in
      let info = q.address in
      let r = F.get_info q.state f n in
      let p = B.allocate_pages r.state (kernel_size len / 0x1000) in
      let x = F.read_file p.state f len in
      let (small, asked) = F.info_small s.boot f 0 (omega arith) in
      let (filled, whole, length_field) = F.info_filled q.state f n (omega arith) in
      let pool = h.pool in
      let pages = h.pages in
      let read = h.read in
      let (positive, top) = P.pool_fits b1 n pool in
      let set : (info == 0) ≡ false = ground arith in
      let m = put_bytes n r.bytes info s.memory in
      let size : load_le 8 m (info + 8) ≡ len =
        load_le-bytes 8 n m r.bytes info 8 (λ i lt. put_bytes-inside n r.bytes info i s.memory lt)
          (omega arith)
        ∙ length_field in
      let (all, same) = F.read_whole p.state f read in
      let (room, aligned) = kernel_size_lem len (F.length_fits f) in
      let live = F.info_live q.state f n info n (P.pool_live b1 n pool) in
      rw (small, asked, pool, filled, whole, set, size, pages, read, all)
        (ensures (record {
          size = refl;
          bytes = λ i lt.
              let apart =
                P.page_no_pool r.state (kernel_size len / 0x1000) (i / 4096) info n pages
                  (omega arith) live in
              store_le-outside 8 (put_bytes len x.bytes p.address m) (info + 8) len (p.address + i)
                (omega (arith, apart))
              ∙ put_bytes-inside len x.bytes p.address i m lt
              ∙ rw (same i);
          pages = λ k lt.
              F.read_kept p.state f len (p.address + 4096 * k)
                (B.page_marked r.state (kernel_size len / 0x1000) k pages (omega arith));
          room = room;
          aligned = B.page_aligned r.state (kernel_size len / 0x1000) pages;
          in_space = omega (arith, B.page_fits r.state (kernel_size len / 0x1000) pages, aligned);
        }))

module _ (B : BootServices) (P : PoolServices B) (F : Protocols B P) where
  -- The protocols are there, and the kernel's file can be opened and read.
  pub record CanLoad (b : B.State) (f : F.File) : Type 0 where
    pub volume : F.Volume
    pub dir : F.Dir
    pub image : (F.loaded_image b).status ≡ efi_success
    pub file_system :
        let r = F.loaded_image b in
        let q = F.file_system r.state r.value.device_handle in
        (q.status ≡ efi_success) × (q.value ≡ volume)
    pub open_volume :
        let r = F.loaded_image b in
        let q = F.open_volume (F.file_system r.state r.value.device_handle).state volume in
        (q.status ≡ efi_success) × (q.value ≡ dir)
    pub open_kernel :
        let r = F.loaded_image b in
        let b2 = (F.file_system r.state r.value.device_handle).state in
        let q = F.open_kernel (F.open_volume b2 volume).state dir in
        (q.status ≡ efi_success) × (q.value ≡ f) × CanRead B P F q.state f
    pub gop : (c : B.State) → (F.locate_gop c).status ≡ efi_success

  -- What is loaded: the image and the screen are the firmware's, and the kernel's file stands whole.
  pub record IsLoaded (b : B.State) (f : F.File) (result : Option Loaded) (s : Machine B)
      : Type 0 where
    pub loaded : Loaded
    pub comes_to : result ≡ some loaded
    pub image_base : loaded.image_base ≡ (F.loaded_image b).value.image_base
    pub image_size : loaded.image_size ≡ (F.loaded_image b).value.image_size
    pub kernel : IsRead B P F f (loaded.file_size, loaded.kernel_physical) s
    pub screen :
        (c : B.State) × (loaded.frame_buffer_base ≡ (F.locate_gop c).value.frame_buffer_base)
        × (loaded.frame_buffer_size ≡ (F.locate_gop c).value.frame_buffer_size)
        × (loaded.vertical_resolution ≡ (F.locate_gop c).value.vertical_resolution)
        × (loaded.horizontal_resolution ≡ (F.locate_gop c).value.horizontal_resolution)
        × (loaded.pixels_per_scanline ≡ (F.locate_gop c).value.pixels_per_scanline)

  -- When the firmware's protocols are there, and the kernel's file can be opened and read into memory:
  -- the loader returns no error and does not fault before it makes the page tables. It has the place
  -- of its own image and of the screen from the firmware, and the kernel's file stands whole in
  -- pages that the firmware handed out, from the start of the first one on and below 2 ^ 52, with 64 KiB of
  -- them or more behind it.
  pub load-IsLoaded :
      (s : Machine B) (f : F.File) → CanLoad s.boot f → Ensures (IsLoaded s.boot f) (load B P F s)
  unfolding load call needed open_file
  load-IsLoaded s f h =
      let image = h.image in
      let (has_system, volume) = h.file_system in
      let (has_volume, dir) = h.open_volume in
      let (has_kernel, file, can_read) = h.open_kernel in
      rw (image, has_system, volume, has_volume, dir, has_kernel, file)
        (bind (load_file-IsRead B P F f _ can_read) (λ (size, address) s1 r.
          let gop = h.gop s1.boot in
          rw gop (
            ensures (record {
              loaded = _;
              comes_to = refl;
              image_base = refl;
              image_size = refl;
              kernel = record {
                size = r.size;
                bytes = r.bytes;
                pages = λ k lt. F.gop_kept s1.boot _ (r.pages k lt);
                room = r.room;
                aligned = r.aligned;
                in_space = r.in_space;
              };
              screen = (s1.boot, refl, refl, refl, refl, refl);
            }))))
