-- ===== src/Stub/Root.antt =====
-- The top-level table that `efi_main` makes maps nothing.
use fur_os.Prelude.{
  ℕ, zero, suc, ◌+◌, ◌*◌, ◌%◌, ◌≤◌, ◌<◌, ◌≡◌, ◌≢◌, ◌⊎◌, Bool-cases, refl, ◌∙◌, ap, inl, inr, Bool,
  true, false, ◌==◌, if◌then◌else◌, Option, none, some, List, [], arith,
}
use fur_os.Command.Ensures.{Ensures, ensures}
use fur_os.Memory.{Memory, load_le, store_le}
use fur_os.Memory.Laws.{store_le-outside, load_le-store_le, load_le-store_le-Apart}
use fur_os.Efi.{BootServices, Machine, efi_success}
use fur_os.Paging.{present}
use fur_os.Paging.Entry.{entry, present_even}
use fur_os.Paging.Spares.{Spares}
use fur_os.Paging.Tree.{walk, translate, Owner, pml4_index}
use fur_os.Stub.{clear_entries, make_root}
use fur_os.Stub.Areas.{Confined}

-- The clearing changes no other byte.
pub clear_entries-outside :
    (n : ℕ) (m : Memory) (a b : ℕ) → (b < a) ⊎ (a + 8 * n ≤ b) → clear_entries n m a b ≡ m b
unfolding clear_entries
clear_entries-outside zero m a b h = refl
clear_entries-outside (suc n) m a b h =
    clear_entries-outside n (store_le 8 m a 0) (a + 8) b (omega arith)
    ∙ store_le-outside 8 m a 0 b (omega arith)

load_le-clear_entries_before :
    (n : ℕ) (m : Memory) (a b : ℕ) → b + 8 ≤ a → load_le 8 (clear_entries n m a) b ≡ load_le 8 m b
unfolding clear_entries
load_le-clear_entries_before zero m a b h = refl
load_le-clear_entries_before (suc n) m a b h =
    load_le-clear_entries_before n (store_le 8 m a 0) (a + 8) b (omega arith)
    ∙ load_le-store_le-Apart 8 8 m b a 0 (inl h)

pub load_le-clear_entries :
    (n : ℕ) (m : Memory) (a i : ℕ) → i < n → load_le 8 (clear_entries n m a) (a + 8 * i) ≡ 0
unfolding clear_entries
load_le-clear_entries zero m a i h = absurd (omega arith)
load_le-clear_entries (suc n) m a zero h =
    let e : a + 8 * 0 ≡ a = omega arith in
    rw e (
      load_le-clear_entries_before n (store_le 8 m a 0) (a + 8) a (omega arith)
      ∙ load_le-store_le 8 m a 0 (omega arith))
load_le-clear_entries (suc n) m a (suc i) h =
    let e : a + 8 * suc i ≡ a + 8 + 8 * i = omega arith in
    rw e (load_le-clear_entries n (store_le 8 m a 0) (a + 8) i (omega arith))

-- Only the table is known.
abbrev only_root : ℕ → Owner
only_root root t = if t == root then some [] else none

only_root-eq : (root t : ℕ) (p : List ℕ) → only_root root t ≡ some p → (t ≡ root) × (p ≡ [])
only_root-eq root t p h = ground arith

only_root_self : (root : ℕ) → only_root root root ≡ some []
only_root_self root = ground arith

not_both : {A : Type 0} (b : Bool) → b ≡ false → b ≡ true → A
not_both b h k = cc

not_some : {x : Option ℕ} {e : ℕ} → x ≡ none → x ≡ some e → ⊥
not_some h k = cc

-- The clearing runs over the page after the table: that page is not spared.
unfoldable pub spoiled : ℕ → Owner
spoiled root t = if t == root + 0x1000 then some [] else none

spoiled_ne : (root t : ℕ) → spoiled root t ≡ none → t ≢ root + 0x1000
unfolding spoiled
spoiled_ne root t h = ground arith

pub spoiled_other : (root t : ℕ) → t ≢ root + 0x1000 → spoiled root t ≡ none
unfolding spoiled
spoiled_other root t h = let other : (t == root + 0x1000) ≡ false = ground (arith, h) in rw other

make_root-Spares :
    (B : BootServices) (s : Machine B)
    → (B.allocate_pages s.boot 1).status ≡ efi_success
    → let r = B.allocate_pages s.boot 1 in
      Spares B
        (spoiled r.address)
        s
        (only_root r.address)
        (record { memory = clear_entries 0x400 s.memory r.address; boot = r.state })
make_root-Spares B s h =
    let root = (B.allocate_pages s.boot 1).address in
    let zero_page : root + 4096 * 0 ≡ root = omega arith in
    let other : (v : ℕ) → B.InUse s.boot v → (v == root) ≡ false = λ v u.
      elim (Bool-cases (v == root)) [
        | inl same ↦
            let e : v ≡ root + 4096 * 0 = ground arith in
            absurd (B.page_fresh s.boot 1 0 h (omega arith) (rw e at u))
        | inr differs ↦ differs
      ] in
    record {
      kept = λ a u. B.page_kept s.boot 1 a u;
      unowned = λ v u o. rw (other v u);
      memory = λ v j u a o lt.
          let x : v ≢ root = ground (arith, other v u) in
          clear_entries-outside 0x400 s.memory root (v + j)
            (omega (arith, x, spoiled_ne root v o, B.page_aligned s.boot 1 h));
    }

-- With memory for it, `efi_main` makes a top-level table that maps nothing.
pub make_root-Confined :
    (B : BootServices) (s : Machine B)
    → (B.allocate_pages s.boot 1).status ≡ efi_success
    → Ensures
        (λ root s'.
          (root ≡ (B.allocate_pages s.boot 1).address)
          × ((c : Confined B root [] s') × Spares B (spoiled root) s c.own s'))
        (make_root B s)
unfolding make_root
make_root-Confined B s h =
    let r = B.allocate_pages s.boot 1 in
    let root = r.address in
    let m = clear_entries 0x400 s.memory root in
    let empty : (i : ℕ) → i < 512 → present (entry m root i) ≡ false = λ i b.
      present_even (entry m root i)
        (ap (λ (x : ℕ). x % 2) (load_le-clear_entries 0x400 s.memory root i (omega arith))) in
    let zero_page : root + 4096 * 0 ≡ root = omega arith in
    let nothing : (va : ℕ) → translate m root va ≡ none =
      λ va. unfold translate walk in rw (empty (pml4_index va) (omega arith)) in
    rw h (
      ensures (
        refl,
        (
          record {
            own = only_root root;
            tree = record {
              root_owned = only_root_self root;
              child_owned = λ t i p o short b is_in.
                  let (at, _) = only_root-eq root t p o in
                  let is_in' : present (entry m root i) ≡ true = rw at at is_in in
                  not_both (present (entry m root i)) (empty i b) is_in';
              aligned = λ t p o.
                  let (at, _) = only_root-eq root t p o in rw at (B.page_aligned s.boot 1 h);
              in_use = λ t p o.
                  let (at, _) = only_root-eq root t p o in
                  rw at (rw zero_page at (B.page_marked s.boot 1 0 h (omega arith)));
            };
            entries = λ va e is_some. absurd (not_some (nothing va) is_some);
          },
          make_root-Spares B s h,
        ),
      ))
