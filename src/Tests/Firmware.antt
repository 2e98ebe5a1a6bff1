-- ===== src/Tests/Firmware.antt =====
-- A firmware for the concrete runs: pages one after the other below 2^28, pools one after the other
-- from 2^52 on, and a memory map of two entries, of which the second ends at 0x200000.
use fur_os.Prelude.{
  ℕ, suc, ◌+◌, ◌*◌, ◌^◌, ◌%◌, ◌≤◌, ◌<◌, ◌≡◌, refl, ◌&&◌, ltb, leb, ◌==◌, if◌then◌else◌, inl, inr,
  Bool-cases, arith,
}
use fur_os.Efi.{Allocation, BootServices, Machine}
use fur_os.Memory.{load_le}
use fur_os.Supply.{Supply}
use fur_os.Stub.{Loaded}
use fur_os.Pool.{Freed, MapAnswer, PoolServices}

-- The next page, the next byte for a pool, and for each address the size of the pool there, plus 1.
pub record Stock : Type 0 where
  pub next : ℕ
  pub heap : ℕ
  pub sizes : ℕ → ℕ

abbrev pages_of : Stock → ℕ → Allocation Stock
pages_of s n =
    let enough = leb (s.next + n) (2 ^ 16) in
    record {
      status = if enough then 0 else 2 ^ 63 + 9;
      address = 4096 * s.next;
      state = record s { next = if enough then s.next + n else s.next };
    }

abbrev pub boot : BootServices
boot = record {
  State = Stock;
  allocate_pages = pages_of;
  InUse = λ s a. (a < 4096 * s.next) × (a + 4096 ≤ 2 ^ 28);
  status_cases = λ s n. ground arith;
  page_aligned = λ s n h. omega arith;
  page_fits = λ s n h. ground arith;
  page_fresh = λ s n k h lt. ground arith;
  page_marked = λ s n k h lt. (ground arith, ground arith);
  page_kept = λ s n a (h, top). (ground arith, top);
}

pub page_top : (s : Stock) (n : ℕ) → (pages_of s n).status ≡ 0 → 4096 * s.next + 4096 * n ≤ 2 ^ 28
page_top s n h = ground arith

abbrev pool_of : Stock → ℕ → Allocation Stock
pool_of s n = record {
  status = if leb (2 ^ 52) s.heap && ltb (s.heap + n) (2 ^ 64) then 0 else 2 ^ 63 + 9;
  address = s.heap;
  state = record s { heap = s.heap + n + 1; sizes = λ a. if a == s.heap then suc n else s.sizes a };
}

abbrev freed : Stock → ℕ → Freed Stock
freed s a = record {
  status = if s.sizes a == 0 then 2 ^ 63 + 2 else 0;
  state = record s { sizes = λ b. if b == a then 0 else s.sizes b };
}

abbrev pub map_bytes : ℕ → ℕ
map_bytes i = if i == 58 then 0x10 else (if i == 73 then 1 else 0)

abbrev map_of : ℕ → MapAnswer
map_of size = record {
  status = if ltb size 96 then 2 ^ 63 + 5 else 0;
  map_size = 96;
  map_key = 7;
  descriptor_size = 48;
  descriptor_version = 1;
  bytes = map_bytes;
}

abbrev pub pools : PoolServices boot
pools = record {
  allocate_pool = pool_of;
  free_pool = freed;
  memory_map = λ s size. map_of size;
  Live = λ s a n. (s.sizes a ≡ suc n) × (a + n < s.heap) × (2 ^ 52 ≤ a);
  needed = λ s. 96;
  pool_live = λ s n h. (ground arith, omega arith, ground arith);
  pool_kept = λ s n a k (e, lt, low). (ground (arith, e), omega arith, low);
  pool_apart = λ s n a k h (e, lt, low). omega arith;
  pool_fits = λ s n h. (ground arith, ground arith);
  pool_ends = λ s n h. ground arith;
  pool_no_page = λ s n a h (lt, top). ground arith;
  page_no_pool = λ s n k a m h lt (e, ends, starts). omega (arith, page_top s n h, starts);
  pool_page_kept = λ s n a (lt, top). (lt, top);
  free_status = λ s a n (e, lt, low). ground (arith, e);
  free_gone = λ s a n k (e, lt, low) (e', lt', low'). ground arith;
  free_other = λ s a n b k (e, lt, low) ne (e', lt', low'). (ground arith, lt', low');
  free_stays = λ s a n b k (e, lt, low) (e', lt', low'). (ground arith, lt', low');
  map_refused = λ s size h. (ground arith, refl);
  map_filled = λ s size h. (ground arith, refl);
  map_fits = λ s size. (omega arith, omega arith, omega arith, omega arith);
}

-- Nothing is handed out but the first two pages, and memory is cleared.
abbrev pub machine : Machine boot
machine = record { memory = λ a. 0; boot = record { next = 2; heap = 2 ^ 52; sizes = λ a. 0 } }

pub map_ends_lem :
    (k : ℕ)
    → k * 48 < 96
    → (k * 48 + 32 ≤ 96)
      × ((load_le 8 map_bytes (k * 48 + 8) + load_le 8 map_bytes (k * 48 + 24) * 0x1000) % 2 ^ 64
          ≤ 0x200000)
unfolding load_le
map_ends_lem k h = elim (Bool-cases (k == 0)) [
  | inl zeroth ↦ let e : k ≡ 0 = ground arith in rw e (omega arith, omega arith)
  | inr other ↦ let e : k ≡ 1 = ground arith in rw e (omega arith, omega arith)
]

-- It has memory left.
abbrev pub supply : Supply boot pools
supply = record {
  Left = λ s n. (s.next + n ≤ 2 ^ 16) × (2 ^ 52 ≤ s.heap) × (s.heap + 4096 * n ≤ 2 ^ 63);
  top = 0x200000;
  pages = λ s n k (a, b, c). (ground arith, (ground arith, b, omega arith));
  fewer = λ s n k (a, b, c). (omega arith, b, omega arith);
  descriptor_pool = λ s k (a, b, c). (ground arith, (omega arith, omega arith, omega arith));
  map_pool = λ s k (a, b, c). (ground arith, (omega arith, omega arith, omega arith), omega arith);
  map_some = λ s. omega arith;
  map_entries = λ s size h. omega arith;
  map_ends = λ s size k h lt. map_ends_lem k lt;
}

-- What is loaded when the page tables are made.
abbrev pub loaded : Loaded
loaded = record {
  image_base = 0x10000000;
  image_size = 0x20000;
  kernel_physical = 0x20000000;
  file_size = 0x3210;
  frame_buffer_base = 0x80000000;
  frame_buffer_size = 0x10000;
  vertical_resolution = 80;
  horizontal_resolution = 120;
  pixels_per_scanline = 120;
}
