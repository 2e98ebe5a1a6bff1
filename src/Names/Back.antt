-- ===== src/Names/Back.antt =====
-- The names tell the numbers apart.
use Prim.Native.String.{String, compare}
use text.Mathlib.Text.{is_eq}
use text.Mathlib.TextPositions.{eq_refl}
use fur_os.Prelude.{
  ℕ, ◌≡◌, refl, Bool, true, false, not, ◌&&◌, ◌==◌, if◌then◌else◌, List, [], ◌∷◌, Option, some,
  none, Bool-cases, inl, inr, arith,
}
use fur_os.Names.{
  Case, switch, status_cases, efi_status_to_str, memory_type_cases, efi_mem_type_to_string,
}

abbrev same_text : String → String → Bool
same_text s t = is_eq (compare s t)

-- The number that a text stands for, by the first case that returns it.
unfoldable number_of : List Case → String → Option ℕ
number_of [] text = none
number_of ((number, name) ∷ cases) text =
    if same_text name text then some number else number_of cases text

abbrev is_case : List Case → ℕ → Bool
is_case [] n = false
is_case ((number, name) ∷ cases) n = if n == number then true else is_case cases n

-- No case returns the text.
abbrev absent : String → List Case → Bool
absent text [] = true
absent text ((number, name) ∷ cases) = not (same_text text name) && absent text cases

-- The texts of the cases are different, and none of them is that of `default`.
abbrev all_apart : List Case → String → Bool
all_apart [] other = true
all_apart ((number, name) ∷ cases) other =
    not (same_text name other) && (absent name cases && all_apart cases other)

left_true : (a b : Bool) → (a && b) ≡ true → a ≡ true
left_true a b h = ground arith

right_true : (a b : Bool) → (a && b) ≡ true → b ≡ true
right_true a b h = ground arith

switch_other :
    (cases : List Case) (other text : String) (n : ℕ)
    → not (same_text text other) ≡ true
    → absent text cases ≡ true
    → same_text text (switch cases other n) ≡ false
unfolding switch
switch_other [] other text n h a = ground arith
switch_other ((number, name) ∷ cases) other text n h a = elim (Bool-cases (n == number)) [
  | inl here ↦
      let x = left_true (not (same_text text name)) (absent text cases) a in rw here (ground arith)
  | inr later ↦ rw later (
      switch_other cases other text n h
        (right_true (not (same_text text name)) (absent text cases) a))
]

number_of-switch :
    (cases : List Case) (other : String) (n : ℕ)
    → all_apart cases other ≡ true
    → number_of cases (switch cases other n) ≡ (if is_case cases n then some n else none)
unfolding number_of switch
number_of-switch [] other n h = refl
number_of-switch ((number, name) ∷ cases) other n h = elim (Bool-cases (n == number)) [
  | inl here ↦ let e : n ≡ number = ground arith in rw (here, eq_refl name, e) refl
  | inr later ↦
      let x = left_true (not (same_text name other)) _ h in
      let rest =
        right_true (not (same_text name other)) (absent name cases && all_apart cases other) h in
      let a = left_true (absent name cases) (all_apart cases other) rest in
      let b = right_true (absent name cases) (all_apart cases other) rest in
      rw (later, switch_other cases other name n x a) (number_of-switch cases other n b)
]

-- From the text that `EFIStatusToStr` returns one reads off the status, if it is one of the cases; all the
-- others share one text, which is none of those of the cases. Likewise for `EFIMemTypeToString`.
number_of-efi_status_to_str :
    (status memory_type : ℕ)
    → (number_of status_cases (efi_status_to_str status)
        ≡ (if is_case status_cases status then some status else none))
      × (number_of memory_type_cases (efi_mem_type_to_string memory_type)
          ≡ (if is_case memory_type_cases memory_type then some memory_type else none))
unfolding efi_status_to_str efi_mem_type_to_string
number_of-efi_status_to_str status memory_type = (
  number_of-switch status_cases "UNKNOWN_EFI_STATUS" status refl,
  number_of-switch memory_type_cases "EfiInvalidMemoryType" memory_type refl,
)
