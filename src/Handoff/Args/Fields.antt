-- ===== src/Handoff/Args/Fields.antt =====
-- What the loader stores is what the kernel reads.
use fur_os.Prelude.{
  ℕ, zero, suc, ◌+◌, ◌^◌, ◌≤◌, ◌<◌, ◌≡◌, refl, ◌∙◌, ◌⊎◌, List, [], ◌∷◌, some, get_elem?, ap, arith,
}
use fur_os.Memory.{Memory, load_le, store_le}
use fur_os.Memory.Laws.{
  Apart, load_le-store_le, load_le-store_le-Apart, load_le-agree, store_le-outside,
}
use fur_os.Stub.{Loaded, LoaderArgs}
use fur_os.Handoff.Args.{
  Field, store_fields, mode_fields, rest_fields, write_mode, write_rest, read_args, kernel_at,
}

-- None of the fields meets the `n` bytes at the offset `o`.
abbrev AllApart : (o n : ℕ) → List Field → Type 0
AllApart o n [] = Unit {0}
AllApart o n (f ∷ fs) = Apart n o f.size f.offset × AllApart o n fs

-- No two fields meet, and each value fits its field.
abbrev IsLaidOut : List Field → Type 0
IsLaidOut [] = Unit {0}
IsLaidOut (f ∷ fs) = (f.value < 256 ^ f.size) × AllApart f.offset f.size fs × IsLaidOut fs

load_le-store_fields-Apart :
    (fs : List Field) (a o n : ℕ) (m : Memory)
    → AllApart o n fs
    → load_le n (store_fields a fs m) (a + o) ≡ load_le n m (a + o)
unfolding store_fields
load_le-store_fields-Apart [] a o n m h = refl
load_le-store_fields-Apart (f ∷ fs) a o n m (apart, h) =
    load_le-store_fields-Apart fs a o n _ h
    ∙ load_le-store_le-Apart n f.size m (a + o) (a + f.offset) f.value (omega arith)

load_le-store_fields :
    (fs : List Field) (a i : ℕ) (m : Memory) {f : Field}
    → IsLaidOut fs
    → get_elem? fs i ≡ some f
    → load_le f.size (store_fields a fs m) (a + f.offset) ≡ f.value
unfolding store_fields
load_le-store_fields [] a i m h e = cc
load_le-store_fields (g ∷ fs) a zero m {f = f} (fits, apart, h) e =
    let same : g ≡ f = cc e in
    rw (← same) (
      load_le-store_fields-Apart fs a g.offset g.size _ apart
      ∙ load_le-store_le g.size m (a + g.offset) g.value fits)
load_le-store_fields (g ∷ fs) a (suc i) m (fits, apart, h) e =
    load_le-store_fields fs a i (store_le g.size m (a + g.offset) g.value) h e

-- Every field of the arguments is a number of its type.
pub record FitsArgs (x : LoaderArgs) : Type 0 where
  pub framebuffer : x.framebuffer < 2 ^ 64
  pub framebuffersize : x.framebuffersize < 2 ^ 64
  pub vertical_resolution : x.vertical_resolution < 2 ^ 32
  pub horizontal_resolution : x.horizontal_resolution < 2 ^ 32
  pub pixels_per_scanline : x.pixels_per_scanline < 2 ^ 32
  pub memory_map_size : x.memory_map_descriptor.memory_map_size < 2 ^ 64
  pub descriptor_size : x.memory_map_descriptor.descriptor_size < 2 ^ 64
  pub map_key : x.memory_map_descriptor.map_key < 2 ^ 64
  pub descriptor_version : x.memory_map_descriptor.descriptor_version < 2 ^ 32
  pub memory_map : x.memory_map_descriptor.memory_map < 2 ^ 64
  pub frame_map : x.frame_map < 2 ^ 64
  pub frame_map_size : x.frame_map_size < 2 ^ 64
  pub temp_mapping_region : x.temp_mapping_region < 2 ^ 64

abbrev drop_first : List Field → List Field
drop_first [] = []
drop_first (f ∷ fs) = fs

-- The arguments show the screen's mode as the firmware gives it.
pub record ShowsMode (l : Loaded) (x : LoaderArgs) : Type 0 where
  pub framebuffersize : x.framebuffersize ≡ l.frame_buffer_size
  pub vertical_resolution : x.vertical_resolution ≡ l.vertical_resolution
  pub horizontal_resolution : x.horizontal_resolution ≡ l.horizontal_resolution
  pub pixels_per_scanline : x.pixels_per_scanline ≡ l.pixels_per_scanline

rest_fields-IsLaidOut : (x : LoaderArgs) → FitsArgs x → IsLaidOut (rest_fields x)
rest_fields-IsLaidOut x h = omega (arith, h)

-- The assignments of the screen's mode, but for the framebuffer's address.
abbrev later_fields : Loaded → List Field
later_fields l = drop_first (mode_fields l)

mode_fields-later :
    (a : ℕ) (l : Loaded) (m : Memory)
    → store_fields a (mode_fields l) m
      ≡ store_fields a (later_fields l) (store_le 8 m (a + kernel_at 0) l.frame_buffer_base)
unfolding store_fields
mode_fields-later a l m = refl

mode_fields-IsLaidOut :
    (l : Loaded) (x : LoaderArgs) → FitsArgs x → ShowsMode l x → IsLaidOut (later_fields l)
mode_fields-IsLaidOut l x h shows = omega (arith, h, shows)

-- Whatever lies between the two groups of assignments, of the screen's mode before the page tables are
-- made and of the rest after, as long as it keeps the bytes of the arguments: with every argument within its
-- type the kernel reads, by the layout of its own structure,
-- the arguments that the loader stored by the layout of its structure, at any address.
pub read_args-write_rest :
    (a : ℕ) (l : Loaded) (x : LoaderArgs) (m m' : Memory)
    → FitsArgs x
    → ShowsMode l x
    → ((j : ℕ) → j < 96 → m' (a + j) ≡ write_mode a l m (a + j))
    → read_args (write_rest a x m') a ≡ x
unfolding read_args write_mode write_rest
read_args-write_rest a l x m m' h shows same =
    let laid = rest_fields-IsLaidOut x h in
    let laid' = mode_fields-IsLaidOut l x h shows in
    let late = λ (i : ℕ) (f : Field) (e : get_elem? (rest_fields x) i ≡ some f).
      load_le-store_fields (rest_fields x) a i m' laid e in
    let early =
      λ (i : ℕ) (f : Field) (e : get_elem? (later_fields l) i ≡ some f)
          (apart : AllApart f.offset f.size (rest_fields x)) (fits : f.offset + f.size ≤ 96).
        load_le-store_fields-Apart (rest_fields x) a f.offset f.size m' apart
        ∙ load_le-agree f.size 96 (store_fields a (mode_fields l) m) m' a f.offset same fits
        ∙ ap (λ (m : Memory). load_le f.size m (a + f.offset)) (mode_fields-later a l m)
        ∙ load_le-store_fields (later_fields l) a i
            (store_le 8 m (a + kernel_at 0) l.frame_buffer_base) laid' e in
    rw (
      late 2 _ refl,
      early 0 _ refl (omega arith) (omega arith),
      early 2 _ refl (omega arith) (omega arith),
      early 1 _ refl (omega arith) (omega arith),
      early 3 _ refl (omega arith) (omega arith),
      late 4 _ refl,
      late 5 _ refl,
      late 6 _ refl,
      late 7 _ refl,
      late 8 _ refl,
      late 0 _ refl,
      late 1 _ refl,
      late 3 _ refl,
      ← shows.framebuffersize,
      ← shows.vertical_resolution,
      ← shows.horizontal_resolution,
      ← shows.pixels_per_scanline,
    )

-- Each field lies within `n` bytes.
abbrev AllWithin : ℕ → List Field → Type 0
AllWithin n [] = Unit {0}
AllWithin n (f ∷ fs) = (f.offset + f.size ≤ n) × AllWithin n fs

store_fields-outside :
    (fs : List Field) (a n b : ℕ) (m : Memory)
    → AllWithin n fs
    → (b < a) ⊎ (a + n ≤ b)
    → store_fields a fs m b ≡ m b
unfolding store_fields
store_fields-outside [] a n b m h out = refl
store_fields-outside (f ∷ fs) a n b m (fits, h) out =
    store_fields-outside fs a n b _ h out
    ∙ store_le-outside f.size m (a + f.offset) f.value b (omega arith)

-- The arguments take 96 bytes.
pub write_mode-outside :
    (a b : ℕ) (l : Loaded) (m : Memory) → (b < a) ⊎ (a + 96 ≤ b) → write_mode a l m b ≡ m b
unfolding write_mode
write_mode-outside a b l m out = store_fields-outside (mode_fields l) a 96 b m (omega arith) out

pub write_rest-outside :
    (a b : ℕ) (x : LoaderArgs) (m : Memory) → (b < a) ⊎ (a + 96 ≤ b) → write_rest a x m b ≡ m b
unfolding write_rest
write_rest-outside a b x m out = store_fields-outside (rest_fields x) a 96 b m (omega arith) out

-- What the kernel reads depends on these bytes only.
pub read_args-agree :
    (a : ℕ) (m m' : Memory)
    → ((j : ℕ) → j < 96 → m' (a + j) ≡ m (a + j))
    → read_args m' a ≡ read_args m a
unfolding read_args
read_args-agree a m m' same =
    let e = λ (n o : ℕ) (fits : o + n ≤ 96). load_le-agree n 96 m m' a o same fits in
    rw (
      e 8 (kernel_at 0) (omega arith),
      e 8 (kernel_at 1) (omega arith),
      e 4 (kernel_at 2) (omega arith),
      e 4 (kernel_at 3) (omega arith),
      e 4 (kernel_at 4) (omega arith),
      e 8 (kernel_at 5) (omega arith),
      e 8 (kernel_at 6) (omega arith),
      e 8 (kernel_at 7) (omega arith),
      e 4 (kernel_at 8) (omega arith),
      e 8 (kernel_at 9) (omega arith),
      e 8 (kernel_at 10) (omega arith),
      e 8 (kernel_at 11) (omega arith),
      e 8 (kernel_at 12) (omega arith),
    )
