-- ===== src/Pool/Fields.antt =====
-- The descriptor and its buffer after the firmware's answer is stored.
use fur_os.Prelude.{
  ℕ, zero, suc, ◌+◌, ◌-◌, ◌%◌, ◌^◌, ◌≤◌, ◌<◌, ◌≡◌, refl, ◌∙◌, ◌⊎◌, true, ◌&&◌, ltb, leb, arith,
}
use fur_os.Memory.{Memory, load_le, store_le}
use fur_os.Memory.Laws.{Apart, load_le-store_le, load_le-store_le-Apart, store_le-outside}
use fur_os.Pool.{MapAnswer, put_bytes}

pub put_bytes-outside :
    (n : ℕ) (bytes : ℕ → ℕ) (a b : ℕ) (m : Memory)
    → (b < a) ⊎ (a + n ≤ b)
    → put_bytes n bytes a m b ≡ m b
unfolding put_bytes
put_bytes-outside n bytes a b m h = ground arith

pub put_bytes-inside :
    (n : ℕ) (bytes : ℕ → ℕ) (a i : ℕ) (m : Memory)
    → i < n
    → put_bytes n bytes a m (a + i) ≡ bytes i % 256
unfolding put_bytes
put_bytes-inside n bytes a i m h =
    let test : (leb a (a + i) && ltb (a + i) (a + n)) ≡ true = ground arith in
    let e : a + i - a ≡ i = omega arith in rw (test, e)

-- A number among bytes that stand at `b` on.
pub load_le-bytes :
    (n room : ℕ) (m bytes : Memory) (b o : ℕ)
    → ((i : ℕ) → i < room → m (b + i) ≡ bytes i % 256)
    → o + n ≤ room
    → load_le n m (b + o) ≡ load_le n bytes o
unfolding load_le
load_le-bytes zero room m bytes b o same h = refl
load_le-bytes (suc n) room m bytes b o same h =
    let next : b + o + 1 ≡ b + (o + 1) = omega arith in
    let twice : bytes o % 256 % 256 ≡ bytes o % 256 = omega arith in
    rw
      (same o (omega arith), next, load_le-bytes n room m bytes b (o + 1) same (omega arith), twice)

load_le-put_bytes :
    (k n : ℕ) (bytes : ℕ → ℕ) (a b : ℕ) (m : Memory)
    → Apart n a k b
    → load_le k (put_bytes n bytes a m) b ≡ load_le k m b
unfolding load_le
load_le-put_bytes zero n bytes a b m h = refl
load_le-put_bytes (suc k) n bytes a b m h = rw (
  put_bytes-outside n bytes a b m (omega arith),
  load_le-put_bytes k n bytes a (b + 1) m (omega arith),
)

-- The memory after the size and the form of the entries are stored in the descriptor at `d`.
abbrev pub with_form : ℕ → MapAnswer → Memory → Memory
with_form d a m =
    store_le 4 (store_le 8 (store_le 8 m d a.map_size) (d + 8) a.descriptor_size) (d + 24)
      a.descriptor_version

-- And after the map is stored at `b`, and the key.
abbrev pub with_map : ℕ → ℕ → MapAnswer → Memory → Memory
with_map d b a m = store_le 8 (put_bytes a.map_size a.bytes b (with_form d a m)) (d + 16) a.map_key

module _ (d : ℕ) (a : MapAnswer) (m : Memory) (small : a.map_size < 2 ^ 64)
    (form : a.descriptor_size < 2 ^ 64) (version : a.descriptor_version < 2 ^ 32) where
  pub form_size : load_le 8 (with_form d a m) d ≡ a.map_size
  form_size =
      load_le-store_le-Apart 8 4 _ d (d + 24) _ (omega arith)
      ∙ load_le-store_le-Apart 8 8 _ d (d + 8) _ (omega arith)
      ∙ load_le-store_le 8 m d a.map_size small

  pub form_entry : load_le 8 (with_form d a m) (d + 8) ≡ a.descriptor_size
  form_entry =
      load_le-store_le-Apart 8 4 _ (d + 8) (d + 24) _ (omega arith)
      ∙ load_le-store_le 8 _ (d + 8) a.descriptor_size form

  form_version : load_le 4 (with_form d a m) (d + 24) ≡ a.descriptor_version
  form_version = load_le-store_le 4 _ (d + 24) a.descriptor_version version

  pub form_buffer : load_le 8 (with_form d a m) (d + 32) ≡ load_le 8 m (d + 32)
  form_buffer =
      load_le-store_le-Apart 8 4 _ (d + 32) (d + 24) _ (omega arith)
      ∙ load_le-store_le-Apart 8 8 _ (d + 32) (d + 8) _ (omega arith)
      ∙ load_le-store_le-Apart 8 8 _ (d + 32) d _ (omega arith)

  module _ (b n : ℕ) (fits : a.map_size ≤ n) (apart : Apart n b 40 d) where
    -- A field apart from the key is as it was before the map was stored.
    field_kept :
        (k o : ℕ)
        → (o + k ≤ 16) ⊎ (24 ≤ o)
        → o + k ≤ 40
        → load_le k (with_map d b a m) (d + o) ≡ load_le k (with_form d a m) (d + o)
    field_kept k o key in_descriptor =
        load_le-store_le-Apart k 8 _ (d + o) (d + 16) _ (omega arith)
        ∙ load_le-put_bytes k a.map_size a.bytes b (d + o) _ (omega arith)

    pub map_size_stored : load_le 8 (with_map d b a m) d ≡ a.map_size
    map_size_stored =
        let e : d + 0 ≡ d = omega arith in
        rw e at (field_kept 8 0 (omega arith) (omega arith)) ∙ form_size

    pub map_entry_stored : load_le 8 (with_map d b a m) (d + 8) ≡ a.descriptor_size
    map_entry_stored = field_kept 8 8 (omega arith) (omega arith) ∙ form_entry

    pub map_version_stored : load_le 4 (with_map d b a m) (d + 24) ≡ a.descriptor_version
    map_version_stored = field_kept 4 24 (omega arith) (omega arith) ∙ form_version

    pub map_buffer_kept : load_le 8 (with_map d b a m) (d + 32) ≡ load_le 8 m (d + 32)
    map_buffer_kept = field_kept 8 32 (omega arith) (omega arith) ∙ form_buffer

    pub map_key_stored : a.map_key < 2 ^ 64 → load_le 8 (with_map d b a m) (d + 16) ≡ a.map_key
    map_key_stored key = load_le-store_le 8 _ (d + 16) a.map_key key

    pub map_bytes_stored : (i : ℕ) → i < a.map_size → with_map d b a m (b + i) ≡ a.bytes i % 256
    map_bytes_stored i h =
        store_le-outside 8 _ (d + 16) a.map_key (b + i) (omega arith)
        ∙ put_bytes-inside a.map_size a.bytes b i _ h

-- Stores in the descriptor and the buffer leave the rest of memory.
pub form-outside :
    (d c : ℕ) (a : MapAnswer) (m : Memory) → (c < d) ⊎ (d + 40 ≤ c) → with_form d a m c ≡ m c
form-outside d c a m h =
    store_le-outside 4 _ (d + 24) _ c (omega arith)
    ∙ store_le-outside 8 _ (d + 8) _ c (omega arith)
    ∙ store_le-outside 8 m d _ c (omega arith)

pub map-outside :
    (d b c n : ℕ) (a : MapAnswer) (m : Memory)
    → a.map_size ≤ n
    → (c < d) ⊎ (d + 40 ≤ c)
    → (c < b) ⊎ (b + n ≤ c)
    → with_map d b a m c ≡ m c
map-outside d b c n a m fits h k =
    store_le-outside 8 _ (d + 16) _ c (omega arith)
    ∙ put_bytes-outside a.map_size a.bytes b c _ (omega arith)
    ∙ form-outside d c a m h
