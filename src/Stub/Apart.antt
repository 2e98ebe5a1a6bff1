-- ===== src/Stub/Apart.antt =====
-- The areas of the address space do not meet: at each page only one of them can have an entry.
use fur_os.Prelude.{
  ℕ, ◌+◌, ◌-◌, ◌*◌, ◌/◌, ◌%◌, ◌^◌, ◌≤◌, ◌<◌, ◌≡◌, ◌∙◌, inl, inr, true, false, bit_and_high,
  bit_and_low, arith,
}
use fur_os.Paging.Map.{leaf_of}
use fur_os.Stub.{
  kernel_pages_count, kernel_size, Loaded, higher_half_start, stack_top, stack_size, region_start,
}
use fur_os.Stub.Areas.{InAreas}
use fur_os.Stub.Layout.{areas_of, screen_at, region_at}

-- The loader lies in the lower half, the areas of the higher half are at most 2 ^ 40 bytes each, and
-- the loader and the framebuffer start at a page.
pub record FitsLayout (l : Loaded) (size : ℕ) : Type 0 where
  pub image : l.image_base + l.image_size + 0x1000 ≤ 2 ^ 47
  pub image_pages : l.image_base % 4096 ≡ 0
  pub kernel : l.file_size < 2 ^ 39
  pub frames : size ≤ 2 ^ 40
  pub screen : l.frame_buffer_size ≤ 2 ^ 40
  pub screen_pages : l.frame_buffer_base % 4096 ≡ 0

region_start_lem : (x : ℕ) → x < 2 ^ 50 → region_start x ≡ x / 2 ^ 21 * 2 ^ 21 + 2 ^ 21
region_start_lem x h = omega (arith, bit_and_high 21 x (2 ^ 43 - 1), bit_and_low 43 (x / 2 ^ 21))

-- No page of two areas is the same.
module _ (l : Loaded) (size stack frame_map pt : ℕ) (fits : FitsLayout l size) where
  pub kernel_bound : (kernel_pages_count l ≤ 2 ^ 40) × (kernel_pages_count l % 4096 ≡ 0)
  unfolding kernel_size
  kernel_bound = (omega (arith, fits.kernel), omega (arith, fits.kernel))

  pub screen_bound : screen_at l size ≡ kernel_pages_count l + (size + 0xfff) / 0x1000 * 0x10000
  screen_bound = omega (arith, fits, kernel_bound)

  pub region_bound :
      region_at l size ≡ (screen_at l size + l.frame_buffer_size) / 2 ^ 21 * 2 ^ 21 + 2 ^ 21
  region_bound =
      let e : (screen_at l size + l.frame_buffer_size) % 2 ^ 64
          ≡ screen_at l size + l.frame_buffer_size =
        omega (arith, fits, kernel_bound, screen_bound) in
      rw e (
        region_start_lem (screen_at l size + l.frame_buffer_size)
          (omega (arith, fits, kernel_bound, screen_bound)))

  pub only_screen :
      (j e : ℕ)
      → j < l.frame_buffer_size
      → InAreas
          (areas_of l stack frame_map size pt)
          ((higher_half_start + screen_at l size) % 2 ^ 64 + j)
          e
      → e ≡ leaf_of (l.frame_buffer_base + j) false
  only_screen j e h (inl i) =
      absurd (omega (arith, fits, kernel_bound, screen_bound, region_bound, i.at, i.within))
  only_screen j e h (inr (inl i)) =
      let p : i.page ≡ j / 4096 = omega (arith, fits, kernel_bound, screen_bound, i.at, i.within) in
      let q : (l.frame_buffer_base + 4096 * (j / 4096)) / 4096 ≡ (l.frame_buffer_base + j) / 4096 =
        omega (arith, fits.screen_pages) in
      i.maps ∙ rw (p, q)
  only_screen j e h (inr (inr (inl i))) =
      absurd (omega (arith, fits, kernel_bound, screen_bound, i.at, i.within))
  only_screen j e h (inr (inr (inr (inl i)))) =
      absurd (omega (arith, fits, kernel_bound, screen_bound, i.at, i.within))
  only_screen j e h (inr (inr (inr (inr (inl i))))) =
      absurd (omega (arith, fits, kernel_bound, screen_bound, i.at, i.within))
  only_screen j e h (inr (inr (inr (inr (inr (inl i)))))) =
      absurd (omega (arith, fits, kernel_bound, screen_bound, i.at, i.within))
  only_screen j e h (inr (inr (inr (inr (inr (inr none_left)))))) = elim none_left [ ]

  pub only_frames :
      (j e : ℕ)
      → j < size
      → InAreas
          (areas_of l stack frame_map size pt)
          ((higher_half_start + kernel_pages_count l) % 2 ^ 64 + j)
          e
      → e ≡ leaf_of (frame_map + 4096 * (j / 4096)) true
  only_frames j e h (inl i) =
      absurd (omega (arith, fits, kernel_bound, screen_bound, region_bound, i.at, i.within))
  only_frames j e h (inr (inl i)) =
      absurd (omega (arith, fits, kernel_bound, screen_bound, i.at, i.within))
  only_frames j e h (inr (inr (inl i))) =
      let p : i.page ≡ j / 4096 = omega (arith, fits, kernel_bound, i.at, i.within) in i.maps ∙ rw p
  only_frames j e h (inr (inr (inr (inl i)))) =
      absurd (omega (arith, fits, kernel_bound, i.at, i.within))
  only_frames j e h (inr (inr (inr (inr (inl i))))) =
      absurd (omega (arith, fits, kernel_bound, i.at, i.within))
  only_frames j e h (inr (inr (inr (inr (inr (inl i)))))) =
      absurd (omega (arith, fits, kernel_bound, i.at, i.within))
  only_frames j e h (inr (inr (inr (inr (inr (inr none_left)))))) = elim none_left [ ]

  pub only_region :
      (j e : ℕ)
      → j < 4096
      → InAreas
          (areas_of l stack frame_map size pt)
          ((higher_half_start + region_at l size) % 2 ^ 64 + j)
          e
      → e ≡ leaf_of pt false
  only_region j e h (inl i) =
      let p : i.page ≡ 0 = omega (arith, i.within) in
      let q : pt + 4096 * 0 ≡ pt = omega arith in i.maps ∙ rw (p, q)
  only_region j e h (inr (inl i)) =
      absurd (omega (arith, fits, kernel_bound, screen_bound, region_bound, i.at, i.within))
  only_region j e h (inr (inr (inl i))) =
      absurd (omega (arith, fits, kernel_bound, screen_bound, region_bound, i.at, i.within))
  only_region j e h (inr (inr (inr (inl i)))) =
      absurd (omega (arith, fits, kernel_bound, screen_bound, region_bound, i.at, i.within))
  only_region j e h (inr (inr (inr (inr (inl i))))) =
      absurd (omega (arith, fits, kernel_bound, screen_bound, region_bound, i.at, i.within))
  only_region j e h (inr (inr (inr (inr (inr (inl i)))))) =
      absurd (omega (arith, fits, kernel_bound, screen_bound, region_bound, i.at, i.within))
  only_region j e h (inr (inr (inr (inr (inr (inr none_left)))))) = elim none_left [ ]

  pub only_kernel :
      (j e : ℕ)
      → j < kernel_pages_count l
      → InAreas (areas_of l stack frame_map size pt) (higher_half_start + j) e
      → e ≡ leaf_of (l.kernel_physical + 4096 * (j / 4096)) true
  only_kernel j e h (inl i) =
      absurd (omega (arith, fits, kernel_bound, screen_bound, region_bound, i.at, i.within))
  only_kernel j e h (inr (inl i)) =
      absurd (omega (arith, fits, kernel_bound, screen_bound, region_bound, i.at, i.within))
  only_kernel j e h (inr (inr (inl i))) =
      absurd (omega (arith, fits, kernel_bound, screen_bound, region_bound, i.at, i.within))
  only_kernel j e h (inr (inr (inr (inl i)))) =
      absurd (omega (arith, fits, kernel_bound, screen_bound, region_bound, i.at, i.within))
  only_kernel j e h (inr (inr (inr (inr (inl i))))) =
      let p : i.page ≡ j / 4096 = omega (arith, fits, kernel_bound, i.at, i.within) in i.maps ∙ rw p
  only_kernel j e h (inr (inr (inr (inr (inr (inl i)))))) =
      absurd (omega (arith, fits, kernel_bound, screen_bound, region_bound, i.at, i.within))
  only_kernel j e h (inr (inr (inr (inr (inr (inr (none_left))))))) = elim none_left [ ]

  pub only_stack :
      (j e : ℕ)
      → j < stack_size
      → InAreas (areas_of l stack frame_map size pt) (stack_top - stack_size + j) e
      → e ≡ leaf_of (stack + 4096 * (j / 4096)) true
  only_stack j e h (inl i) =
      absurd (omega (arith, fits, kernel_bound, screen_bound, region_bound, i.at, i.within))
  only_stack j e h (inr (inl i)) =
      absurd (omega (arith, fits, kernel_bound, screen_bound, region_bound, i.at, i.within))
  only_stack j e h (inr (inr (inl i))) =
      absurd (omega (arith, fits, kernel_bound, screen_bound, region_bound, i.at, i.within))
  only_stack j e h (inr (inr (inr (inl i)))) =
      let p : i.page ≡ j / 4096 = omega (arith, fits, kernel_bound, i.at, i.within) in i.maps ∙ rw p
  only_stack j e h (inr (inr (inr (inr (inl i))))) =
      absurd (omega (arith, fits, kernel_bound, screen_bound, region_bound, i.at, i.within))
  only_stack j e h (inr (inr (inr (inr (inr (inl i)))))) =
      absurd (omega (arith, fits, kernel_bound, screen_bound, region_bound, i.at, i.within))
  only_stack j e h (inr (inr (inr (inr (inr (inr (none_left))))))) = elim none_left [ ]

  pub only_image :
      (j e : ℕ)
      → j < l.image_size
      → InAreas (areas_of l stack frame_map size pt) (l.image_base + j) e
      → e ≡ leaf_of (l.image_base + j) false
  only_image j e h (inl i) =
      absurd (omega (arith, fits, kernel_bound, screen_bound, region_bound, i.at, i.within))
  only_image j e h (inr (inl i)) =
      absurd (omega (arith, fits, kernel_bound, screen_bound, region_bound, i.at, i.within))
  only_image j e h (inr (inr (inl i))) =
      absurd (omega (arith, fits, kernel_bound, screen_bound, region_bound, i.at, i.within))
  only_image j e h (inr (inr (inr (inl i)))) =
      absurd (omega (arith, fits, kernel_bound, screen_bound, region_bound, i.at, i.within))
  only_image j e h (inr (inr (inr (inr (inl i))))) =
      absurd (omega (arith, fits, kernel_bound, screen_bound, region_bound, i.at, i.within))
  only_image j e h (inr (inr (inr (inr (inr (inl i)))))) =
      let p : i.page ≡ j / 4096 = omega (arith, fits, i.at, i.within) in
      let q : (l.image_base + 4096 * (j / 4096)) / 4096 ≡ (l.image_base + j) / 4096 =
        omega (arith, fits.image_pages) in
      i.maps ∙ rw (p, q)
  only_image j e h (inr (inr (inr (inr (inr (inr (none_left))))))) = elim none_left [ ]
