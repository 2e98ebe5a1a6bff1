-- ===== src/Stub/Exact.antt =====
-- The kernel finds at each argument what it is for.
use fur_os.Prelude.{
  ℕ, ◌+◌, ◌-◌, ◌*◌, ◌/◌, ◌<◌, ◌≡◌, refl, ◌⊎◌, inl, inr, true, false, Option, none, some, ap,
}
use fur_os.Efi.{BootServices, Machine}
use fur_os.Paging.Tree.{translate}
use fur_os.Paging.Map.{leaf_of}
use fur_os.Stub.{
  kernel_pages_count, Loaded, LoaderArgs, started, higher_half_start, stack_top, stack_size,
}
use fur_os.Stub.Layout.{Booted}
use fur_os.Stub.Apart.{FitsLayout, only_screen, only_frames, only_region, only_kernel, only_stack}

-- An entry that is not there, or is `e`.
abbrev pub AtMost : Option ℕ → ℕ → Type 0
AtMost found e = (found ≡ none) ⊎ (found ≡ some e)

at_most : (found : Option ℕ) (e : ℕ) → ((x : ℕ) → found ≡ some x → x ≡ e) → AtMost found e
at_most none e h = inl refl
at_most (some x) e h = inr (ap some (h x refl))

-- In a state that `efi_main` leaves with arguments, where the loader lies below 2 ^ 47, the kernel's
-- file is smaller than 2 ^ 39 bytes, the frame map and the framebuffer have at most 2 ^ 40 bytes each,
-- and the addresses of the loader and of the framebuffer are multiples of the page size: the areas do
-- not meet. At every byte of the framebuffer, of the frame map and of the first page of the region of
-- temporary mappings, as the arguments give them, and of the kernel's pages from the higher half on and
-- of its stack's, the tables map either nothing or the page of that byte of the physical framebuffer, of
-- the memory for the frame map, the table that the region shows, the page of that byte of the kernel as
-- it was loaded, and of the memory for the stack.
pub Booted-exact :
    (B : BootServices) (l : Loaded) (a : LoaderArgs) (root : ℕ) (s : Machine B)
    (b : Booted B l root (started a) s)
    → FitsLayout l b.size
    → ((j : ℕ)
        → j < a.framebuffersize
        → AtMost
            (translate s.memory root (a.framebuffer + j))
            (leaf_of (l.frame_buffer_base + j) false))
      × ((j : ℕ)
          → j < a.frame_map_size
          → AtMost
              (translate s.memory root (a.frame_map + j))
              (leaf_of (b.frame_map + 4096 * (j / 4096)) true))
      × ((j : ℕ)
          → j < 4096
          → AtMost (translate s.memory root (a.temp_mapping_region + j)) (leaf_of b.pt false))
      × ((j : ℕ)
          → j < kernel_pages_count l
          → AtMost
              (translate s.memory root (higher_half_start + j))
              (leaf_of (l.kernel_physical + 4096 * (j / 4096)) true))
      × ((j : ℕ)
          → j < stack_size
          → AtMost
              (translate s.memory root (stack_top - stack_size + j))
              (leaf_of (b.stack + 4096 * (j / 4096)) true))
Booted-exact B l a root s b fits =
    let (screen, screen_size, frames, frames_size, region) = b.arguments in
    let inside = b.confined.entries in
    (
      λ j h. at_most _ _ (λ e found.
          only_screen l b.size b.stack b.frame_map b.pt fits j e (rw screen_size at h)
            (rw screen at (inside (a.framebuffer + j) e found))),
      λ j h. at_most _ _ (λ e found.
          only_frames l b.size b.stack b.frame_map b.pt fits j e (rw frames_size at h)
            (rw frames at (inside (a.frame_map + j) e found))),
      λ j h. at_most _ _ (λ e found.
          only_region l b.size b.stack b.frame_map b.pt fits j e h
            (rw region at (inside (a.temp_mapping_region + j) e found))),
      λ j h. at_most _ _ (λ e found.
          only_kernel l b.size b.stack b.frame_map b.pt fits j e h
            (inside (higher_half_start + j) e found)),
      λ j h. at_most _ _ (λ e found.
          only_stack l b.size b.stack b.frame_map b.pt fits j e h
            (inside (stack_top - stack_size + j) e found)),
    )
