-- ===== src/Physical/Frames.antt =====
-- The frame map as a set of frames.
use fur_os.Prelude.{
  ℕ, zero, suc, ◌+◌, ◌-◌, ◌/◌, ◌%◌, ◌^◌, ◌≤◌, ◌<◌, bit_and, bit_or, ◌≡◌, ◌≢◌, refl, sym, ◌∙◌, ap,
  inl, inr, Bool, true, false, not, ◌&&◌, ◌||◌, ◌==◌, if◌then◌else◌, arith, Bool-cases, bit_and_low,
  ==_refl, ==_false,
}
use fur_os.Prelude.Int.{pos, negsuc}
use fur_os.Memory.{store8}
use fur_os.Physical.{Kernel, frame_bit, alloc_frame, free_frame}

-- Bit `b` of a byte.
abbrev pub bit_of : ℕ → ℕ → Bool
bit_of x b = x / 2 ^ b % 2 == 1

-- Frame `f` is taken.
abbrev pub taken : Kernel → ℕ → Bool
taken k f = bit_of (k.memory (k.frame_map + f / 8) % 256) (f % 8)

-- The test holds at the `left` numbers from `i` on.
holds_from : ℕ → ℕ → (ℕ → Bool) → Bool
holds_from i zero test = true
holds_from i (suc left) test = holds_from (i + 1) left test && test i

holds_at :
    (left i x : ℕ) (test : ℕ → Bool)
    → i ≤ x
    → x < i + left
    → holds_from i left test ≡ true
    → test x ≡ true
unfolding holds_from
holds_at zero i x test lo hi h = absurd (omega arith)
holds_at (suc left) i x test lo hi h = elim (Bool-cases (x == i)) [
  | inl here ↦ let e : x ≡ i = ground arith in rw e (ground arith)
  | inr later ↦ holds_at left (i + 1) x test (ground arith) (omega arith) (ground arith)
]

same_bool : Bool → Bool → Bool
same_bool true b = b
same_bool false b = not b

same_bool-eq : (a b : Bool) → same_bool a b ≡ true → a ≡ b
unfolding same_bool
same_bool-eq a b h = ground arith

-- Setting bit `b` of the byte `x`, and clearing it, checked at every byte and every two bits.
set_table :
    holds_from 0 256 (λ x. holds_from 0 8 λ b.
      holds_from 0 8 λ c. same_bool (bit_of (bit_or x (2 ^ b) % 256) c) ((c == b) || bit_of x c))
    ≡ true
unfolding holds_from same_bool
set_table = refl

clear_table :
    holds_from 0 256 (λ x. holds_from 0 8 λ b.
      holds_from 0 8
        λ c. same_bool (bit_of (bit_and x (255 - 2 ^ b) % 256) c) (not (c == b) && bit_of x c))
    ≡ true
unfolding holds_from same_bool
clear_table = refl

set_bit :
    (x b c : ℕ)
    → x < 256
    → b < 8
    → c < 8
    → bit_of (bit_or x (2 ^ b) % 256) c ≡ ((c == b) || bit_of x c)
set_bit x b c hx hb hc = same_bool-eq _ _ (
    holds_at 8 0 c _ (omega arith) hc
      (holds_at 8 0 b _ (omega arith) hb (holds_at 256 0 x _ (omega arith) hx set_table)))

clear_bit :
    (x b c : ℕ)
    → x < 256
    → b < 8
    → c < 8
    → bit_of (bit_and x (255 - 2 ^ b) % 256) c ≡ (not (c == b) && bit_of x c)
clear_bit x b c hx hb hc = same_bool-eq _ _ (
    holds_at 8 0 c _ (omega arith) hc
      (holds_at 8 0 b _ (omega arith) hb (holds_at 256 0 x _ (omega arith) hx clear_table)))

-- The code's tests read the bit.
alloc_test : (k : Kernel) (f : ℕ) → not (frame_bit k (f / 8) (f % 8) == 0) ≡ taken k f
unfolding frame_bit
alloc_test k f =
    rw (bit_and_low 1 (k.memory (k.frame_map + f / 8) % 256 / 2 ^ (f % 8))) (ground arith)

free_test : (k : Kernel) (f : ℕ) → not (frame_bit k (f / 8) (f % 8) == 1) ≡ not (taken k f)
unfolding frame_bit
free_test k f = rw (bit_and_low 1 (k.memory (k.frame_map + f / 8) % 256 / 2 ^ (f % 8)))

-- A write to the byte of frame `f`, seen from frame `g`.
put_byte : Kernel → ℕ → ℕ → Kernel
put_byte k f v = record k { memory = store8 k.memory (k.frame_map + f / 8) v }

taken-put_byte_same :
    (k : Kernel) (f g v : ℕ) → g / 8 ≡ f / 8 → taken (put_byte k f v) g ≡ bit_of (v % 256) (g % 8)
unfolding put_byte store8
taken-put_byte_same k f g v e =
    let here : (k.frame_map + g / 8 == k.frame_map + f / 8) ≡ true = ground arith in
    let twice : v % 256 % 256 ≡ v % 256 = omega arith in rw (here, twice)

taken-put_byte_other :
    (k : Kernel) (f g v : ℕ) → g / 8 ≢ f / 8 → taken (put_byte k f v) g ≡ taken k g
unfolding put_byte store8
taken-put_byte_other k f g v ne =
    let off : (k.frame_map + g / 8 == k.frame_map + f / 8) ≡ false = ground arith in rw off

-- The whole frame map after setting the bit of `f`.
taken-set :
    (k : Kernel) (f g : ℕ)
    → taken (put_byte k f (bit_or (k.memory (k.frame_map + f / 8) % 256) (2 ^ (f % 8)))) g
      ≡ ((g == f) || taken k g)
taken-set k f g = elim (Bool-cases (g / 8 == f / 8)) [
  | inl same ↦
      let e : g / 8 ≡ f / 8 = ground arith in
      let at : (g == f) ≡ (g % 8 == f % 8) = ground arith in
      taken-put_byte_same k f g _ e
      ∙ set_bit _ (f % 8) (g % 8) (omega arith) (omega arith) (omega arith)
      ∙ rw (at, e)
  | inr other ↦
      let ne : (g == f) ≡ false = ground arith in
      rw ne (taken-put_byte_other k f g _ (ground arith))
]

taken-clear :
    (k : Kernel) (f g : ℕ)
    → taken (put_byte k f (bit_and (k.memory (k.frame_map + f / 8) % 256) (255 - 2 ^ (f % 8)))) g
      ≡ (not (g == f) && taken k g)
taken-clear k f g = elim (Bool-cases (g / 8 == f / 8)) [
  | inl same ↦
      let e : g / 8 ≡ f / 8 = ground arith in
      let at : (g == f) ≡ (g % 8 == f % 8) = ground arith in
      taken-put_byte_same k f g _ e
      ∙ clear_bit _ (f % 8) (g % 8) (omega arith) (omega arith) (omega arith)
      ∙ rw (at, e)
  | inr other ↦
      let ne : (g == f) ≡ false = ground arith in
      rw ne (taken-put_byte_other k f g _ (ground arith))
]

-- On an address: -1 and no change if its frame is taken, and else 0, and exactly that
-- frame is taken besides.
alloc_frame_cases :
    (address : ℕ) (k : Kernel)
    → (taken k (address / 4096) ≡ true → alloc_frame address k ≡ (negsuc 0, k))
      × (taken k (address / 4096) ≡ false
          → ((alloc_frame address k).0 ≡ pos 0)
            × ((g : ℕ) → taken (alloc_frame address k).1 g ≡ ((g == address / 4096) || taken k g)))
unfolding alloc_frame put_byte
alloc_frame_cases address k =
    let test = alloc_test k (address / 4096) in
    (
      λ t. let e = test ∙ t in rw e,
      λ t. let e = test ∙ t in (rw e, λ g. rw e (taken-set k (address / 4096) g)),
    )

-- On a frame number: -1 and no change if the frame is not taken, and else 0, and
-- exactly that frame is free besides.
free_frame_cases :
    (frame : ℕ) (k : Kernel)
    → (taken k frame ≡ false → free_frame frame k ≡ (negsuc 0, k))
      × (taken k frame ≡ true
          → ((free_frame frame k).0 ≡ pos 0)
            × ((g : ℕ) → taken (free_frame frame k).1 g ≡ (not (g == frame) && taken k g)))
unfolding free_frame put_byte
free_frame_cases frame k =
    let test = free_test k frame in
    (
      λ t. let e : not (frame_bit k (frame / 8) (frame % 8) == 1) ≡ true = test ∙ ap not t in rw e,
      λ t.
          let e : not (frame_bit k (frame / 8) (frame % 8) == 1) ≡ false = test ∙ ap not t in
          (rw e, λ g. rw e (taken-clear k frame g)),
    )

-- `AllocFrame` takes an address. It returns -1 if the frame of that address is taken and else 0,
-- and afterwards exactly that frame is taken besides those that were.
pub alloc_frame-taken :
    (address : ℕ) (k : Kernel)
    → ((alloc_frame address k).0 ≡ (if taken k (address / 4096) then negsuc 0 else pos 0))
      × ((g : ℕ) → taken (alloc_frame address k).1 g ≡ ((g == address / 4096) || taken k g))
alloc_frame-taken address k = elim (Bool-cases (taken k (address / 4096))) [
  | inl is_taken ↦
      let same = (alloc_frame_cases address k).0 is_taken in
      rw (same, is_taken) (refl, λ g. already g is_taken)
  | inr free ↦ let (r, after) = (alloc_frame_cases address k).1 free in rw free (r, after)
]
  where
    already :
        (g : ℕ) → taken k (address / 4096) ≡ true → taken k g ≡ ((g == address / 4096) || taken k g)
    already g h = elim (Bool-cases (g == address / 4096)) [
      | inl same ↦ let e : g ≡ address / 4096 = ground arith in rw (same, e) h
      | inr other ↦ rw other
    ]

-- `FreeFrame` takes a frame number. It returns -1 if that frame is not taken and else 0, and
-- afterwards exactly the other frames that were taken are.
pub free_frame-taken :
    (frame : ℕ) (k : Kernel)
    → ((free_frame frame k).0 ≡ (if taken k frame then pos 0 else negsuc 0))
      × ((g : ℕ) → taken (free_frame frame k).1 g ≡ (not (g == frame) && taken k g))
free_frame-taken frame k = elim (Bool-cases (taken k frame)) [
  | inl is_taken ↦ let (r, after) = (free_frame_cases frame k).1 is_taken in rw is_taken (r, after)
  | inr free ↦
      let same = (free_frame_cases frame k).0 free in rw (same, free) (refl, λ g. already g free)
]
  where
    already : (g : ℕ) → taken k frame ≡ false → taken k g ≡ (not (g == frame) && taken k g)
    already g h = elim (Bool-cases (g == frame)) [
      | inl same ↦ let e : g ≡ frame = ground arith in rw (same, e) h
      | inr other ↦ rw other
    ]

-- `AllocFrame` on an address of a free frame, then `FreeFrame` on that frame's number: 0 is returned
-- and exactly the frames that were taken before are.
pub free_frame-alloc_frame :
    (address : ℕ) (k : Kernel)
    → taken k (address / 4096) ≡ false
    → let k' = (alloc_frame address k).1 in
      ((free_frame (address / 4096) k').0 ≡ pos 0)
      × ((g : ℕ) → taken (free_frame (address / 4096) k').1 g ≡ taken k g)
free_frame-alloc_frame address k free =
    let f = address / 4096 in
    let k' = (alloc_frame address k).1 in
    let (_, after) = (alloc_frame_cases address k).1 free in
    let got : taken k' f ≡ true = after f ∙ ap (λ b. b || taken k f) (==_refl f) in
    let (done, after') = (free_frame_cases f k').1 got in (done, λ g. after' g ∙ restored after g)
  where
    restored :
        ((g : ℕ) → taken (alloc_frame address k).1 g ≡ ((g == address / 4096) || taken k g))
        → (g : ℕ) → (not (g == address / 4096) && taken (alloc_frame address k).1 g) ≡ taken k g
    restored after g = elim (Bool-cases (g == address / 4096)) [
      | inl same ↦ let e : g ≡ address / 4096 = ground arith in rw (same, e) (sym free)
      | inr other ↦ rw other (after g ∙ ap (λ b. b || taken k g) other)
    ]

-- `FreeFrame` does not divide by the page size as `AllocFrame` does: given the address that was
-- allocated, from the second page on, it leaves the frame taken.
pub free_frame_address :
    (address : ℕ) (k : Kernel)
    → 4096 ≤ address
    → taken k (address / 4096) ≡ false
    → taken (free_frame address (alloc_frame address k).1).1 (address / 4096) ≡ true
free_frame_address address k far free =
    let f = address / 4096 in
    let k' = (alloc_frame address k).1 in
    let got : taken k' f ≡ true =
      ((alloc_frame_cases address k).1 free).1 f ∙ ap (λ b. b || taken k f) (==_refl f) in
    elim (Bool-cases (taken k' address)) [
      | inl there ↦
          ((free_frame_cases address k').1 there).1 f
          ∙ rw (==_false f address (λ e. absurd (omega arith))) got
      | inr gone ↦ rw ((free_frame_cases address k').0 gone) got
    ]
