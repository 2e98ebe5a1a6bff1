-- ===== src/Loader/Scan.antt =====
-- The scan of a memory map without gaps.
use fur_os.Prelude.{
  ℕ, ◌+◌, ◌*◌, ◌%◌, ◌^◌, ◌<◌, ◌≡◌, refl, ◌∙◌, Bool, true, false, ltb, if◌then◌else◌, not, List, [],
  ◌∷◌, arith,
}
use fur_os.Loader.{Descriptor, max_address}

-- Entries of `ns` pages each, from the address `a` on, each one where the last one ends.
abbrev pub entries_from : ℕ → List ℕ → List Descriptor
entries_from a [] = []
entries_from a (n ∷ ns) =
    record { physical_start = a; number_of_pages = n } ∷ entries_from (a + n * 4096) ns

abbrev pub end_of : ℕ → List ℕ → ℕ
end_of a [] = a
end_of a (n ∷ ns) = end_of (a + n * 4096) ns

-- The address where the last entry starts.
abbrev pub last_start : ℕ → List ℕ → ℕ
last_start a [] = a
last_start a (n ∷ []) = a
last_start a (n ∷ m ∷ ns) = last_start (a + n * 4096) (m ∷ ns)

abbrev pub AllNonempty : List ℕ → Type 0
AllNonempty [] = Unit {0}
AllNonempty (n ∷ ns) = (0 < n) × AllNonempty ns

abbrev pub is_even : List ℕ → Bool
is_even [] = true
is_even (n ∷ ns) = not (is_even ns)

end_of_above : (a : ℕ) (ns : List ℕ) → a < 1 + end_of a ns
end_of_above a [] = omega arith
end_of_above a (n ∷ ns) = omega (arith, end_of_above (a + n * 4096) ns)

last_start-∷ :
    (a n m k : ℕ) (ns : List ℕ)
    → last_start a (n ∷ m ∷ k ∷ ns) ≡ last_start (a + n * 4096 + m * 4096) (k ∷ ns)
last_start-∷ a n m k ns = refl

-- On a memory map without gaps or empty entries that starts at `MaxAddress`, below 2 ^ 64: the scan
-- finds the end of the map if the number of entries is even, and the start of the last entry if it
-- is odd, so that it leaves out the whole last entry.
pub max_address-entries_from :
    (a : ℕ) (ns : List ℕ)
    → AllNonempty ns
    → end_of a ns < 2 ^ 64
    → max_address a (entries_from a ns) ≡ (if is_even ns then end_of a ns else last_start a ns)
unfolding max_address
max_address-entries_from a [] h top = refl
max_address-entries_from a (n ∷ []) h top = let skip : ltb a a ≡ false = ground arith in rw skip
max_address-entries_from a (n ∷ m ∷ ns) (pn, (pm, h)) top =
    let skip : ltb a a ≡ false = ground arith in
    let take : ltb a (a + n * 4096) ≡ true = ground arith in
    let fits : (a + n * 4096 + m * 4096) % 2 ^ 64 ≡ a + n * 4096 + m * 4096 =
      omega (arith, end_of_above (a + n * 4096 + m * 4096) ns, top) in
    rw (max_address, skip, take, fits)
      (max_address-entries_from (a + n * 4096 + m * 4096) ns h top ∙ two_more a n m ns)
  where
    not_not : (b : Bool) → not (not b) ≡ b
    not_not true = refl
    not_not false = refl

    two_more :
        (a n m : ℕ) (ns : List ℕ)
        → (if is_even ns
            then end_of (a + n * 4096 + m * 4096) ns
            else last_start (a + n * 4096 + m * 4096) ns)
          ≡ (if not (not (is_even ns))
              then end_of (a + n * 4096 + m * 4096) ns
              else last_start a (n ∷ m ∷ ns))
    two_more a n m [] = refl
    two_more a n m (k ∷ ns) = rw (not_not (is_even (k ∷ ns)))
