-- ===== src/Supply/Tables.antt =====
-- With memory left for the tables, every page of a range is mapped.
use fur_os.Prelude.{ℕ, ◌+◌, ◌*◌, ◌≡◌, refl, Bool, inl, inr, Option, none, some, arith, Bool-cases}
use fur_os.Command.{Cmd}
use fur_os.Command.Ensures.{Ensures, ensures}
use fur_os.Efi.{BootServices, Machine, efi_success}
use fur_os.Memory.{load_le}
use fur_os.Paging.{present, descend, mmap, make_temp_region, set_entry}
use fur_os.Pool.{PoolServices}
use fur_os.Supply.{Supply}

module _ (B : BootServices) (P : PoolServices B) (U : Supply B P) where
  pub same_left : (s : B.State) (n k : ℕ) → n ≡ k → U.Left s n → U.Left s k
  same_left s n k e left = rw e at left

  -- Success, the pages that were in use are so still, and so much is left.
  pub record Served (n : ℕ) (b : B.State) (status : ℕ) (s' : Machine B) : Type 0 where
    pub success : status ≡ efi_success
    pub left : U.Left s'.boot n
    pub kept : (a : ℕ) → B.InUse b a → B.InUse s'.boot a

  descend-Served :
      (n k : ℕ) (b : B.State) (s : Machine B) (t e : ℕ) (ret : Option ℕ)
      (next : ℕ → Cmd (Machine B) ℕ)
      → U.Left s.boot (1 + n)
      → ((a : ℕ) → B.InUse b a → B.InUse s.boot a)
      → ((u : ℕ) (s' : Machine B)
          → U.Left s'.boot n
          → ((a : ℕ) → B.InUse b a → B.InUse s'.boot a)
          → Ensures (Served k b) (next u s'))
      → Ensures (Served k b) (descend B t e ret next s)
  unfolding descend
  descend-Served n k b s t e ret next left kept rest =
      let (success, left') = U.pages s.boot 1 n left in
      elim (Bool-cases (present (load_le 8 s.memory (t + 8 * e)))) [
        | inl is_in ↦ rw is_in (rest _ _ (U.fewer s.boot 1 n left) kept)
        | inr out ↦ rw (out, success) (rest _ _ left' (λ a u. B.page_kept s.boot 1 a (kept a u)))
      ]

  pub mmap-Served :
      (n phys virt : ℕ) (cached : Bool) (root : ℕ) (s : Machine B)
      → U.Left s.boot (3 + n)
      → Ensures (Served n s.boot) (mmap B phys virt cached root s)
  unfolding mmap set_entry
  mmap-Served n phys virt cached root s left =
      descend-Served (1 + (1 + n)) n s.boot s root _ none _
        (same_left s.boot (3 + n) (1 + (1 + (1 + n))) (omega arith) left) (λ a u. u)
        (λ pdpt s1 left1 kept1.
          descend-Served (1 + n) n s.boot s1 pdpt _ none _ left1 kept1 (λ pd s2 left2 kept2.
            descend-Served n n s.boot s2 pd _ (some phys) _ left2 kept2 (λ pt s3 left3 kept3.
              ensures (record { success = refl; left = left3; kept = kept3 }))))

  pub make_temp_region-Served :
      (n virt root : ℕ) (s : Machine B)
      → U.Left s.boot (3 + n)
      → Ensures (Served n s.boot) (make_temp_region B virt root s)
  unfolding make_temp_region set_entry
  make_temp_region-Served n virt root s left =
      descend-Served (1 + (1 + n)) n s.boot s root _ none _
        (same_left s.boot (3 + n) (1 + (1 + (1 + n))) (omega arith) left) (λ a u. u)
        (λ pdpt s1 left1 kept1.
          descend-Served (1 + n) n s.boot s1 pdpt _ none _ left1 kept1 (λ pd s2 left2 kept2.
            descend-Served n n s.boot s2 pd _ none _ left2 kept2 (λ pt s3 left3 kept3.
              ensures (record { success = refl; left = left3; kept = kept3 }))))
