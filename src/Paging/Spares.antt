-- ===== src/Paging/Spares.antt =====
-- The pages in use that are no tables are spared by every change of the tables.
use fur_os.Prelude.{
  ℕ, ◌+◌, ◌*◌, ◌%◌, ◌<◌, ◌≡◌, ◌≢◌, ◌∙◌, Option, none, some, List, leb, ltb, ◌&&◌, false, arith,
}
use fur_os.Memory.{Memory, store_le, clear_bytes}
use fur_os.Memory.Laws.{store_le-outside, clear_bytes_lem}
use fur_os.Efi.{BootServices, Machine}
use fur_os.Paging.Tree.{Owner}

-- They are in use still, they are no tables still, and their bytes are the same.
pub record Spares (B : BootServices) (old : Owner) (s : Machine B) (own : Owner) (s' : Machine B)
    : Type 0 where
  pub kept : (a : ℕ) → B.InUse s.boot a → B.InUse s'.boot a
  pub unowned : (v : ℕ) → B.InUse s.boot v → old v ≡ none → own v ≡ none
  pub memory :
      (v j : ℕ)
      → B.InUse s.boot v
      → v % 4096 ≡ 0
      → old v ≡ none
      → j < 4096
      → s'.memory (v + j) ≡ s.memory (v + j)

pub Spares-boot :
    (B : BootServices) (own : Owner) (s s' : Machine B)
    → ((a : ℕ) → B.InUse s.boot a → B.InUse s'.boot a)
    → s'.memory ≡ s.memory
    → Spares B own s own s'
Spares-boot B own s s' kept same = record {
  kept = kept;
  unowned = λ v u o. o;
  memory = λ v j u a o lt. rw same;
}

pub Spares-trans :
    (B : BootServices) {own own' own'' : Owner} (s s' s'' : Machine B)
    → Spares B own s own' s'
    → Spares B own' s' own'' s''
    → Spares B own s own'' s''
Spares-trans B s s' s'' x y = record {
  kept = λ a u. y.kept a (x.kept a u);
  unowned = λ v u o. y.unowned v (x.kept v u) (x.unowned v u o);
  memory = λ v j u a o lt. y.memory v j (x.kept v u) a (x.unowned v u o) lt ∙ x.memory v j u a o lt;
}

-- A table is another page than one that is none.
pub other_page : (own : Owner) (t v : ℕ) (p : List ℕ) → own t ≡ some p → own v ≡ none → v ≢ t
other_page own t v p o free e = not_both (own v) (rw e o) free
  where
    not_both : (x : Option (List ℕ)) → x ≡ some p → x ≡ none → ⊥
    not_both x a b = cc

-- A store to an entry of a table changes no other page.
pub store-other :
    (own : Owner) (m : Memory) (t e x v j : ℕ) (p : List ℕ)
    → own t ≡ some p
    → t % 4096 ≡ 0
    → e < 512
    → v % 4096 ≡ 0
    → own v ≡ none
    → j < 4096
    → store_le 8 m (t + 8 * e) x (v + j) ≡ m (v + j)
store-other own m t e x v j p o at b av free lt =
    store_le-outside 8 m (t + 8 * e) x (v + j) (omega (arith, other_page own t v p o free))

-- Nor does the clearing of a page.
pub clear-other :
    (m : Memory) (n v j : ℕ)
    → v ≢ n
    → n % 4096 ≡ 0
    → v % 4096 ≡ 0
    → j < 4096
    → clear_bytes 0x1000 m n (v + j) ≡ m (v + j)
clear-other m n v j ne an av lt =
    let out : (leb n (v + j) && ltb (v + j) (n + 0x1000)) ≡ false = ground arith in
    clear_bytes_lem 0x1000 m n (v + j) ∙ rw out
