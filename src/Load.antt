-- ===== src/Load.antt =====
-- `efi_main` of efi/src/EFI_STUB.c up to the page map (lines 316 to 403): the loader finds its own image,
-- reads the kernel's file to memory, and finds the screen. The firmware's protocols are parameters;
-- `Print` is left out.
pub mod Read
use fur_os.Prelude.{
  ℕ, ◌+◌, ◌/◌, ◌%◌, ◌^◌, ◌≤◌, ◌<◌, ◌≡◌, Bool, not, ◌==◌, if◌then◌else◌, Option, none, some,
}
use fur_os.Command.{ok, fault, Cmd, pure, ◌>>=◌, ◌>>◌}
use fur_os.Memory.{load_le, store_le}
use fur_os.Efi.{BootServices, Machine, efi_success}
use fur_os.Pool.{PoolServices, efi_buffer_too_small, put_bytes}
use fur_os.Stub.{Loaded, allocate, kernel_size}

-- What a call of a protocol answers; `value` is stored only on success.
pub record Answer (S A : Type 0) : Type 0 where
  pub status : ℕ
  pub value : A
  pub state : S

-- What a call of `GetInfo` or `Read` answers: bytes for the buffer, and their number.
pub record Bytes (S : Type 0) : Type 0 where
  pub status : ℕ
  pub size : ℕ
  pub bytes : ℕ → ℕ
  pub state : S

-- `EFI_LOADED_IMAGE_PROTOCOL`, the fields that are used.
pub record LoadedImage : Type 0 where
  pub image_base : ℕ
  pub image_size : ℕ
  pub device_handle : ℕ

-- `GopProtocol->Mode` and its `Info`, the fields that are used.
pub record GopMode : Type 0 where
  pub frame_buffer_base : ℕ
  pub frame_buffer_size : ℕ
  pub vertical_resolution : ℕ
  pub horizontal_resolution : ℕ
  pub pixels_per_scanline : ℕ

-- `HandleProtocol` for the image and for the file system, `OpenVolume`, `Open` of the file `kernel`,
-- `GetInfo` for its `EFI_FILE_INFO`, `Read`, and `LocateProtocol` for the screen. The laws are what the
-- UEFI specification promises: no call takes a page back or a pool; `GetInfo` refuses a buffer that is
-- too small with the size that is needed, at least the 16 bytes up to the end of `FileSize`, and fills
-- one that is large enough, with the file's length as `FileSize`; `Read` gives the file's bytes, as many as it has and the buffer takes.
pub record Protocols (B : BootServices) (P : PoolServices B) : Type 1 where
  pub Volume : Type 0
  pub Dir : Type 0
  pub File : Type 0
  pub loaded_image : B.State → Answer B.State LoadedImage
  pub file_system : B.State → ℕ → Answer B.State Volume
  pub open_volume : B.State → Volume → Answer B.State Dir
  pub open_kernel : B.State → Dir → Answer B.State File
  pub get_info : B.State → File → ℕ → Bytes B.State
  pub read_file : B.State → File → ℕ → Bytes B.State
  pub locate_gop : B.State → Answer B.State GopMode
  pub length : File → ℕ
  pub content : File → ℕ → ℕ
  pub info_size : File → ℕ
  pub info_small :
      (b : B.State) (f : File) (size : ℕ)
      → size < info_size f
      → ((get_info b f size).status ≡ efi_buffer_too_small)
        × ((get_info b f size).size ≡ info_size f)
  pub info_filled :
      (b : B.State) (f : File) (size : ℕ)
      → info_size f ≤ size
      → ((get_info b f size).status ≡ efi_success)
        × ((get_info b f size).size ≡ info_size f)
        × (load_le 8 (get_info b f size).bytes 8 ≡ length f)
  pub info_holds : (f : File) → (16 ≤ info_size f) × (info_size f < 2 ^ 64)
  pub length_fits : (f : File) → length f < 2 ^ 63
  pub read_whole :
      (b : B.State) (f : File)
      → (read_file b f (length f)).status ≡ efi_success
      → ((read_file b f (length f)).size ≡ length f)
        × ((i : ℕ) → (read_file b f (length f)).bytes i ≡ content f i)
  pub info_kept :
      (b : B.State) (f : File) (size a : ℕ) → B.InUse b a → B.InUse (get_info b f size).state a
  pub info_live :
      (b : B.State) (f : File) (size a n : ℕ) → P.Live b a n → P.Live (get_info b f size).state a n
  pub read_kept :
      (b : B.State) (f : File) (size a : ℕ) → B.InUse b a → B.InUse (read_file b f size).state a
  pub gop_kept : (b : B.State) (a : ℕ) → B.InUse b a → B.InUse (locate_gop b).state a

module _ (B : BootServices) (P : PoolServices B) (F : Protocols B P) where
  -- The variable after the call; `none` is one that was never set.
  unfoldable pub call : {A : Type 0} → (B.State → Answer B.State A) → Cmd (Machine B) (Option A)
  call f s =
      let r = f s.boot in
      ok (if r.status == efi_success then some r.value else none) (record s { boot = r.state })

  unfoldable pub needed : {A : Type 0} → Option A → Cmd (Machine B) A
  needed none s = fault
  needed (some a) s = ok a s

  unfoldable pub open_file : ℕ → Cmd (Machine B) F.File
  unfolding call needed
  open_file device = do
    root_volume_interface ← call (λ b. F.file_system b device)
    volume ← needed root_volume_interface
    root_dir ← call (λ b. F.open_volume b volume)
    dir ← needed root_dir
    kernel_handle ← call (λ b. F.open_kernel b dir)
    needed kernel_handle

  -- `GetInfo(file, &size, buffer)`: the size afterwards.
  unfoldable pub ask_info : F.File → ℕ → ℕ → Cmd (Machine B) ℕ
  ask_info file size buffer s =
      let r = F.get_info s.boot file size in
      if r.status == efi_success
      then ok r.size (record { memory = put_bytes r.size r.bytes buffer s.memory; boot = r.state })
      else (if r.status == efi_buffer_too_small
          then ok r.size (record s { boot = r.state })
          else ok size (record s { boot = r.state }))

  -- `KernelInfo`, which stays `NULL` on an error.
  unfoldable pub info_pool : ℕ → Cmd (Machine B) ℕ
  info_pool size s =
      let r = P.allocate_pool s.boot size in
      ok (if r.status == efi_success then r.address else 0) (record s { boot = r.state })

  unfoldable pub file_info : F.File → Cmd (Machine B) ℕ
  unfolding ask_info info_pool
  file_info file = do
    size ← ask_info file 0 0
    info ← info_pool size
    ask_info file size info
    if info == 0 then (λ s. fault) else pure info

  -- `Read(file, &KernelInfo->FileSize, address)`.
  unfoldable pub read_to : F.File → ℕ → ℕ → Cmd (Machine B) (Unit {0})
  read_to file info address s =
      let r = F.read_file s.boot file (load_le 8 s.memory (info + 8)) in
      let m = put_bytes r.size r.bytes address s.memory in
      if r.status == efi_success
      then ok tt (record { memory = store_le 8 m (info + 8) r.size; boot = r.state })
      else ok tt (record s { boot = r.state })

  -- The kernel's file: its size, and where it was read to.
  unfoldable pub load_file : F.File → Cmd (Machine B) (ℕ × ℕ)
  unfolding file_info allocate read_to
  load_file file = do
    info ← file_info file
    size ← λ s. ok (load_le 8 s.memory (info + 8)) s
    address ← allocate B 0 (λ a. a) (kernel_size size / 0x1000)
    read_to file info address
    pure (size, address)

  -- `none` is the early return of an error.
  unfoldable pub load : Cmd (Machine B) (Option Loaded)
  unfolding call needed open_file load_file
  load = do
    root_image ← call F.loaded_image
    elim root_image [
      | none ↦ pure none
      | some image ↦ do
        file ← open_file image.device_handle
        (size, address) ← load_file file
        gop_protocol ← call F.locate_gop
        mode ← needed gop_protocol
        pure (
            some (record {
              image_base = image.image_base;
              image_size = image.image_size;
              kernel_physical = address;
              file_size = size;
              frame_buffer_base = mode.frame_buffer_base;
              frame_buffer_size = mode.frame_buffer_size;
              vertical_resolution = mode.vertical_resolution;
              horizontal_resolution = mode.horizontal_resolution;
              pixels_per_scanline = mode.pixels_per_scanline;
            }))
    ]
