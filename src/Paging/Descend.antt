-- ===== src/Paging/Descend.antt =====
-- One level of `MMap`: the table that `GetTable` finds or makes is linked into the tree.
use fur_os.Prelude.{
  ℕ, ◌+◌, ◌*◌, ◌%◌, ◌^◌, ◌≤◌, ◌<◌, bit_or, ◌≡◌, ◌≢◌, refl, sym, ◌∙◌, ap, inl, inr, true, false,
  Option, none, some, List, [], ◌∷◌, length, ◌==◌, arith, Bool-cases, Option-cases, bit_or_three,
}
use fur_os.Command.{Cmd}
use fur_os.Command.Ensures.{Ensures, ensures}
use fur_os.Memory.{Memory, load_le, store_le, clear_bytes}
use fur_os.Memory.Laws.{load_le-lt}
use fur_os.Efi.{BootServices, Machine, efi_error}
use fur_os.Paging.{present, table_of, descend}
use fur_os.Paging.Entry.{
  entry, present_lem, present_even, table_of_lem, entry-set_self, entry-set_ne, entry-clear_self,
  entry-clear_ne,
}
use fur_os.Paging.Tree.{Owner, IsTree}
use fur_os.Paging.Spares.{Spares, Spares-boot, other_page, store-other, clear-other}
use fur_os.Paging.Link.{IsLinked, grow, Extends, Extends-linked, Children-linked}

-- The memory after `table[e] |= 3`.
abbrev flagged : Memory → ℕ → ℕ → Memory
flagged m t e = store_le 8 m (t + 8 * e) (bit_or (load_le 8 m (t + 8 * e)) 3)

flags-lt : (x : ℕ) → x < 2 ^ 64 → bit_or x 3 < 2 ^ 64
flags-lt x h = omega (arith, bit_or_three x)

flags-present : (x : ℕ) → present (bit_or x 3) ≡ true
flags-present x = (present_lem (bit_or x 3)).1 (omega (arith, bit_or_three x))

flags-table : (x : ℕ) → table_of (bit_or x 3) ≡ table_of x
flags-table x = omega (arith, table_of_lem (bit_or x 3), table_of_lem x, bit_or_three x)

entry-flagged : (m : Memory) (t e : ℕ) → entry (flagged m t e) t e ≡ bit_or (entry m t e) 3
entry-flagged m t e =
    entry-set_self m t e (bit_or (entry m t e) 3) (flags-lt _ (load_le-lt 8 m (t + 8 * e)))

module _ (own : Owner) (m : Memory) (t e : ℕ) (p : List ℕ) (owned : own t ≡ some p)
    (aligned : (u : ℕ) (q : List ℕ) → own u ≡ some q → u % 4096 ≡ 0) (bound : e < 512) where
  -- The entry was present.
  IsLinked-found :
      present (entry m t e) ≡ true → IsLinked own m (flagged m t e) t e (table_of (entry m t e))
  IsLinked-found h = record {
    leads = rw entry-flagged (flags-present _);
    target = rw entry-flagged (flags-table _);
    others =
        λ u i q o b ne. entry-set_ne m t u e i _ (aligned t p owned) (aligned u q o) bound b ne;
    source = inl (h, refl);
  }

  module _ (n : ℕ) (page : n % 4096 ≡ 0) (fits : n + 4096 ≤ 2 ^ 52)
      (fresh : (u : ℕ) (q : List ℕ) → own u ≡ some q → u ≢ n) where
    -- The memory after a new table was cleared and entered.
    abbrev made : Memory
    made = store_le 8 (clear_bytes 0x1000 m n) (t + 8 * e) n

    entry-made : entry made t e ≡ n
    entry-made = entry-set_self (clear_bytes 0x1000 m n) t e n (omega arith)

    new_is_free : own n ≡ none
    new_is_free = elim (Option-cases (own n)) [
      | inl free ↦ free
      | inr (q, o) ↦ absurd (fresh n q o refl)
    ]

    empty_table : (i : ℕ) → i < 512 → entry (flagged made t e) n i ≡ 0
    empty_table i b =
        let a = aligned t p owned in
        let ne = inl (λ x. fresh t p owned (sym x)) in
        entry-set_ne made t n e i _ a page bound b ne
        ∙ entry-set_ne (clear_bytes 0x1000 m n) t n e i n a page bound b ne
        ∙ entry-clear_self m n i b

    IsLinked-made : present (entry m t e) ≡ false → IsLinked own m (flagged made t e) t e n
    IsLinked-made h = record {
      leads = rw entry-flagged (flags-present _);
      target =
          rw entry-flagged (flags-table _ ∙ ap table_of entry-made ∙ omega (arith, table_of_lem n));
      others = λ u i q o b ne.
          let a = aligned t p owned in
          let a' = aligned u q o in
          entry-set_ne made t u e i _ a a' bound b ne
          ∙ entry-set_ne (clear_bytes 0x1000 m n) t u e i n a a' bound b ne
          ∙ entry-clear_ne m n u i page a' b (fresh u q o);
      source =
          inr (h, new_is_free, λ i b. present_even _ (ap (λ (x : ℕ). x % 2) (empty_table i b)));
    }

-- The tree that `s'` holds extends that of `s`, and the other pages in use are spared.
pub record Grown (B : BootServices) (root : ℕ) (own own' : Owner) (s s' : Machine B) : Type 0 where
  pub tree : IsTree B root own' s'
  pub extends : Extends root own own' s.memory s'.memory
  pub spares : Spares B own s own' s'

-- Besides, the entry `e` of the table at `t` leads to the table at `n` with the path `p`.
pub record Reached (B : BootServices) (root : ℕ) (own own' : Owner) (s s' : Machine B) (t e n : ℕ)
    (p : List ℕ) : Type 0 where
  pub grown : Grown B root own own' s s'
  pub owned : own' n ≡ some p
  pub leads : present (entry s'.memory t e) ≡ true
  pub target : table_of (entry s'.memory t e) ≡ n

module _ (B : BootServices) (root : ℕ) where
  pub Extends-refl : (own : Owner) (m : Memory) → Extends root own own m m
  Extends-refl own m = record {
    grows = λ u q o. o;
    links = λ u i q o short b h. (h, refl);
    walks = λ i is b bs len. refl;
  }

  -- The firmware's part of the state moved on, and memory did not change.
  Grown-boot :
      (own : Owner) (s : Machine B) (k : ℕ)
      → IsTree B root own s
      → Grown B root own own s (record s { boot = (B.allocate_pages s.boot k).state })
  Grown-boot own s k tr = record {
    tree = record {
      root_owned = tr.root_owned;
      child_owned = tr.child_owned;
      aligned = tr.aligned;
      in_use = λ t p o. B.page_kept s.boot k t (tr.in_use t p o);
    };
    extends = Extends-refl own s.memory;
    spares = Spares-boot B own s _ (B.page_kept s.boot k) refl;
  }

  -- What holds of every known table and of the new one holds of the grown tree.
  grow-all :
      (own : Owner) (n : ℕ) (p : List ℕ) (P : ℕ → Type 0)
      → ((u : ℕ) (q : List ℕ) → own u ≡ some q → P u)
      → P n
      → (u : ℕ) (q : List ℕ) → grow own n p u ≡ some q
      → P u
  grow-all own n p P old new u q g = elim (Bool-cases (u == n)) [
    | inl same ↦ let e : u ≡ n = ground arith in rw e new
    | inr other ↦ old u q (rw other at g)
  ]

  module _ (own : Owner) (s : Machine B) (t e : ℕ) (p : List ℕ) (tr : IsTree B root own s)
      (o : own t ≡ some p) (short : length p < 3) (bound : e < 512) where
    Reached-linked :
        (n : ℕ) (s' : Machine B)
        → IsLinked own s.memory s'.memory t e n
        → n % 4096 ≡ 0
        → B.InUse s'.boot n
        → Spares B own s (grow own n (e ∷ p)) s'
        → Reached B root own (grow own n (e ∷ p)) s s' t e n (e ∷ p)
    Reached-linked n s' l page used spares =
        let ext = Extends-linked tr.child_owned o short bound l root tr.root_owned in
        record {
          grown = record {
            tree = record {
              root_owned = ext.grows root [] tr.root_owned;
              child_owned = Children-linked tr.child_owned o short bound l;
              aligned = grow-all own n (e ∷ p) (λ u. u % 4096 ≡ 0) tr.aligned page;
              in_use =
                  grow-all own n (e ∷ p) (B.InUse s'.boot)
                    (λ u q x. spares.kept u (tr.in_use u q x)) used;
            };
            extends = ext;
            spares = spares;
          };
          owned = ground arith;
          leads = l.leads;
          target = l.target;
        }

    -- A page that is none of the tables, and not the new one, is none afterwards.
    unowned-grow : (n v : ℕ) → v ≢ n → own v ≡ none → grow own n (e ∷ p) v ≡ none
    unowned-grow n v ne free = ground arith

    Reached-found :
        present (entry s.memory t e) ≡ true
        → let n = table_of (entry s.memory t e) in
          Reached B root own
            (grow own n (e ∷ p))
            s
            (record s { memory = flagged s.memory t e })
            t
            e
            n
            (e ∷ p)
    Reached-found h =
        let here = tr.child_owned t e p o short bound h in
        Reached-linked (table_of (entry s.memory t e)) (record s { memory = flagged s.memory t e })
          (IsLinked-found own s.memory t e p o tr.aligned bound h) (tr.aligned _ _ here)
          (tr.in_use _ _ here)
          (record {
            kept = λ u x. x;
            unowned = λ v u free. unowned-grow _ v (other_page own _ v _ here free) free;
            memory = λ v j u a free lt.
                store-other own s.memory t e _ v j p o (tr.aligned t p o) bound a free lt;
          })

    Reached-made :
        present (entry s.memory t e) ≡ false
        → (B.allocate_pages s.boot 1).status ≡ 0
        → let r = B.allocate_pages s.boot 1 in
          let m = store_le 8 (clear_bytes 0x1000 s.memory r.address) (t + 8 * e) r.address in
          Reached B root own
            (grow own r.address (e ∷ p))
            s
            (record { memory = flagged m t e; boot = r.state })
            t
            e
            r.address
            (e ∷ p)
    Reached-made h success =
        let r = B.allocate_pages s.boot 1 in
        let first : r.address + 4096 * 0 ≡ r.address = omega arith in
        let page = B.page_aligned s.boot 1 success in
        let fits : r.address + 4096 ≤ 2 ^ 52 = omega (arith, B.page_fits s.boot 1 success) in
        let free : ¬ (B.InUse s.boot r.address) =
          rw first at (B.page_fresh s.boot 1 0 success (omega arith)) in
        let used : B.InUse r.state r.address =
          rw first at (B.page_marked s.boot 1 0 success (omega arith)) in
        let fresh : (u : ℕ) (q : List ℕ) → own u ≡ some q → u ≢ r.address =
          λ u q x same. free (rw same at (tr.in_use u q x)) in
        let not_new : (v : ℕ) → B.InUse s.boot v → v ≢ r.address =
          λ v u same. free (rw same at u) in
        Reached-linked r.address _
          (IsLinked-made own s.memory t e p o tr.aligned bound r.address page fits fresh h) page
          used
          (record {
            kept = B.page_kept s.boot 1;
            unowned = λ v u x. unowned-grow r.address v (not_new v u) x;
            memory = λ v j u a x lt.
                store-other own _ t e _ v j p o (tr.aligned t p o) bound a x lt
                ∙ store-other own _ t e r.address v j p o (tr.aligned t p o) bound a x lt
                ∙ clear-other s.memory r.address v j (not_new v u) page a lt;
          })

    -- After `descend` either the tree has grown and nothing else has changed, and an error is
    -- returned; or the next table is linked below `t`, and the rest runs on it.
    pub descend-Ensures :
        {Q : ℕ → Machine B → Type 0} (ret : Option ℕ) (next : ℕ → Cmd (Machine B) ℕ)
        → ((own' : Owner) (s' : Machine B) (status : ℕ)
            → Grown B root own own' s s'
            → efi_error status ≡ true
            → Q status s')
        → ((own' : Owner) (s' : Machine B) (n : ℕ)
            → Reached B root own own' s s' t e n (e ∷ p)
            → Ensures Q (next n s'))
        → Ensures Q (descend B t e ret next s)
    unfolding descend
    descend-Ensures {Q} ret next failed linked = elim (Bool-cases (present (entry s.memory t e))) [
      | inl is_in ↦ rw is_in (linked _ _ _ (Reached-found is_in))
      | inr out ↦ rw out (elim (B.status_cases s.boot 1) [
        | inl success ↦ rw success (linked _ _ _ (Reached-made out success))
        | inr bad ↦
            let failing : (B.allocate_pages s.boot 1).status == 0 ≡ false = ground arith in
            let error : efi_error (B.allocate_pages s.boot 1).status ≡ true = ground arith in
            rw (failing, error) (ensures (failed own _ _ (Grown-boot own s 1 tr) error))
      ])
    ]
