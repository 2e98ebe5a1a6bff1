-- ===== src/Pool/Map.antt =====
-- `GetMemoryMap` returns `NULL`, or a descriptor of the firmware's map in a buffer that holds it.
use fur_os.Prelude.{
  ℕ, ◌+◌, ◌*◌, ◌%◌, ◌^◌, ◌≤◌, ◌<◌, ◌≡◌, refl, ◌∙◌, ◌⊎◌, inl, inr, true, not, ◌==◌, if◌then◌else◌,
  arith, Bool-cases,
}
use fur_os.Memory.{load_le, store_le}
use fur_os.Memory.Laws.{Apart, load_le-store_le, load_le-store_le-Apart}
use fur_os.Efi.{BootServices, Machine, efi_success}
use fur_os.Pool.{PoolServices, ask_map, make_buffer, get_memory_map, efi_buffer_too_small}
use fur_os.Pool.Fields.{
  map_size_stored, map_entry_stored, map_version_stored, map_buffer_kept, map_key_stored,
  map_bytes_stored,
}
use fur_os.Pool.Pages.{
  SameOn, ClearOf, SameOn-trans, SameOn-store, answer_cases, ask_map-SameOn, make_buffer-SameOn,
  ask_map_boot, make_buffer_in_use,
}

module _ (B : BootServices) (P : PoolServices B) where
  -- The descriptor at `d` describes the firmware's map: it stands whole in a buffer of `room` bytes, of
  -- which both are allocated and lie apart, and the fields are those of the firmware's answer.
  pub record Described (s : Machine B) (d room : ℕ) : Type 0 where
    pub buffer : ℕ
    pub buffer_field : load_le 8 s.memory (d + 32) ≡ buffer
    pub descriptor_live : P.Live s.boot d 40
    pub buffer_live : P.Live s.boot buffer room
    pub apart : Apart room buffer 40 d
    pub in_space : buffer + room ≤ 2 ^ 64
    pub map_fits : P.needed s.boot ≤ room
    pub size_field : load_le 8 s.memory d ≡ P.needed s.boot
    pub entry_field : load_le 8 s.memory (d + 8) ≡ (P.memory_map s.boot room).descriptor_size
    pub key_field : load_le 8 s.memory (d + 16) ≡ (P.memory_map s.boot room).map_key
    pub version_field : load_le 4 s.memory (d + 24) ≡ (P.memory_map s.boot room).descriptor_version
    pub map_bytes :
        (i : ℕ)
        → i < P.needed s.boot
        → s.memory (buffer + i) ≡ (P.memory_map s.boot room).bytes i % 256

  -- The second call of the firmware, on a descriptor with a buffer.
  ask_map-Described :
      (d b room : ℕ) (s : Machine B)
      → load_le 8 s.memory d ≡ room
      → load_le 8 s.memory (d + 32) ≡ b
      → P.Live s.boot d 40
      → P.Live s.boot b room
      → Apart room b 40 d
      → b + room ≤ 2 ^ 64
      → ((ask_map B P d s).0 ≡ efi_buffer_too_small)
        ⊎ (((ask_map B P d s).0 ≡ efi_success) × Described (ask_map B P d s).1 d room)
  unfolding ask_map
  ask_map-Described d b room s size at live live' apart ends =
      let a = P.memory_map s.boot room in
      let (n, cases) = answer_cases B P s.boot room in
      let (small, key, entry, version) = P.map_fits s.boot room in
      elim cases [
        | inl (fits, e) ↦
            let le : a.map_size ≤ room = omega (arith, n, fits) in
            let w : a.map_size < 2 ^ 64 = omega arith in
            let f : a.descriptor_size < 2 ^ 64 = omega arith in
            rw (size, e, at)
              (inr (
                refl,
                record {
                  buffer = b;
                  buffer_field = map_buffer_kept d a s.memory w f version b room le apart ∙ at;
                  descriptor_live = live;
                  buffer_live = live';
                  apart = apart;
                  in_space = ends;
                  map_fits = fits;
                  size_field = map_size_stored d a s.memory w f version b room le apart ∙ n;
                  entry_field = map_entry_stored d a s.memory w f version b room le apart;
                  key_field = map_key_stored d a s.memory w f version b room le apart key;
                  version_field = map_version_stored d a s.memory w f version b room le apart;
                  map_bytes = λ i h.
                      map_bytes_stored d a s.memory w f version b room le apart i
                        (omega (arith, n, h));
                },
              ))
        | inr (refused, e) ↦ rw (size, e) (inl refl)
      ]

  -- The buffer that is made for a descriptor, and the second call with it.
  make_buffer-Described :
      (d : ℕ) (s : Machine B)
      → P.Live s.boot d 40
      → ((make_buffer B P d s).0 == efi_success) ≡ true
      → (b room : ℕ) × (load_le 8 (make_buffer B P d s).1.memory d ≡ room)
        × (load_le 8 (make_buffer B P d s).1.memory (d + 32) ≡ b)
        × P.Live (make_buffer B P d s).1.boot d 40
        × P.Live (make_buffer B P d s).1.boot b room
        × Apart room b 40 d
        × (b + room ≤ 2 ^ 64)
        × ((U : ℕ → Type 0) → ((a : ℕ) → U a → B.InUse s.boot a) → ClearOf U b room)
        × ((a : ℕ) → B.InUse s.boot a → B.InUse (make_buffer B P d s).1.boot a)
        × (room ≡ (load_le 8 s.memory d + 5 * load_le 8 s.memory (d + 8)) % 2 ^ 64)
  unfolding make_buffer
  make_buffer-Described d s live made =
      let size = (load_le 8 s.memory d + 5 * load_le 8 s.memory (d + 8)) % 2 ^ 64 in
      let r = P.allocate_pool s.boot size in
      elim (Bool-cases (r.status == efi_success)) [
        | inl test ↦
            let e : r.status ≡ 0 = ground arith in
            let (_, top) = P.pool_fits s.boot size e in
            rw test (
              r.address,
              size,
              load_le-store_le-Apart 8 8 _ d (d + 32) _ (omega arith)
                  ∙ load_le-store_le 8 s.memory d size (omega arith),
              load_le-store_le 8 _ (d + 32) r.address top,
              P.pool_kept s.boot size d 40 live,
              P.pool_live s.boot size e,
              P.pool_apart s.boot size d 40 e live,
              P.pool_ends s.boot size e,
              λ U in_use a j u lt. omega (arith, P.pool_no_page s.boot size a e (in_use a u)),
              λ a u. P.pool_page_kept s.boot size a u,
              refl,
            )
        | inr test ↦ cc (rw test at made)
      ]

  -- The pages in use are in use still, with the bytes that they had.
  pub record Kept (s s' : Machine B) : Type 0 where
    pub memory : SameOn (B.InUse s.boot) s.memory s'.memory
    pub in_use : (a : ℕ) → B.InUse s.boot a → B.InUse s'.boot a

  -- `NULL`, or a descriptor of the firmware's map.
  unfoldable pub Returned : Machine B → ℕ × Machine B → Type 0
  Returned s (d, s') = ((d ≡ 0) ⊎ ((0 < d) × ((room : ℕ) × Described s' d room))) × Kept s s'

  module _ (s s3 : Machine B) (d : ℕ) (positive : 0 < d) (clear : ClearOf (B.InUse s.boot) d 40)
      (kept : Kept s s3) (live : P.Live s3.boot d 40) where
    -- From the first answer on.
    finish : Returned s (
        let (status, s4) = make_buffer B P d s3 in
        if not (status == efi_success)
        then (0, s4)
        else (let (status, s5) = ask_map B P d s4 in
            if not (status == efi_success) then (0, s5) else (d, s5)))
    unfolding Returned
    finish =
        let s4 = (make_buffer B P d s3).1 in
        let k4 =
          SameOn-trans (B.InUse s.boot) s.memory s3.memory s4.memory kept.memory
            (make_buffer-SameOn B P (B.InUse s.boot) d s3 clear) in
        elim (Bool-cases ((make_buffer B P d s3).0 == efi_success)) [
          | inl made ↦
              let (b, room, size, at, l, l', apart, ends, clear', in_use, _) =
                make_buffer-Described d s3 live made in
              let s5 = (ask_map B P d s4).1 in
              let buffer_clear : ClearOf (B.InUse s.boot) (load_le 8 s4.memory (d + 32))
                  (load_le 8 s4.memory d) =
                rw (at, size) (clear' (B.InUse s.boot) kept.in_use) in
              let k5 =
                SameOn-trans (B.InUse s.boot) s.memory s4.memory s5.memory k4
                  (ask_map-SameOn B P (B.InUse s.boot) d s4 clear buffer_clear) in
              let k : Kept s s5 = record {
                memory = k5;
                in_use = λ a u. rw (ask_map_boot B P d s4) (in_use a (kept.in_use a u));
              } in
              elim (ask_map-Described d b room s4 size at l l' apart ends) [
                | inl small ↦ rw (made, small) (inl refl, k)
                | inr (e, described) ↦ rw (made, e) (inr (positive, (room, described)), k)
              ]
          | inr failed ↦ rw failed (
            inl refl,
            record { memory = k4; in_use = λ a u. make_buffer_in_use B P d s3 a (kept.in_use a u) },
          )
        ]

  -- `GetMemoryMap` returns `NULL`, or the address of a descriptor that describes the firmware's map as
  -- it is then: the map stands whole in an allocated buffer, apart from the descriptor, and the fields
  -- are those of the firmware's answer. Whatever it returns, the pages in use are in use still, with
  -- the bytes that they had.
  pub get_memory_map-Returned : (s : Machine B) → Returned s (get_memory_map B P s)
  unfolding get_memory_map Returned
  get_memory_map-Returned s =
      let r = P.allocate_pool s.boot 40 in
      elim (Bool-cases (r.status == efi_success)) [
        | inl made ↦
            let e : r.status ≡ 0 = ground arith in
            let d = r.address in
            let U = B.InUse s.boot in
            let (positive, top) = P.pool_fits s.boot 40 e in
            let clear : ClearOf U d 40 =
              λ a j u lt. omega (arith, P.pool_no_page s.boot 40 a e u) in
            let s1 : Machine B = record { memory = store_le 8 s.memory d 0; boot = r.state } in
            let size0 : load_le 8 s1.memory d ≡ 0 = load_le-store_le 8 s.memory d 0 (omega arith) in
            let shift : d + 0 ≡ d = omega arith in
            let k1 : SameOn U s.memory s1.memory =
              rw shift at (SameOn-store U s.memory d 40 0 0 clear (omega arith)) in
            let none_stored : ClearOf U (load_le 8 s1.memory (d + 32)) (load_le 8 s1.memory d) =
              λ a j u lt. omega (arith, size0) in
            let s2 = (ask_map B P d s1).1 in
            let k2 =
              SameOn-trans U s.memory s1.memory s2.memory k1
                (ask_map-SameOn B P U d s1 clear none_stored) in
            let kept : Kept s s2 = record {
              memory = k2;
              in_use = λ a u. rw (ask_map_boot B P d s1) (P.pool_page_kept s.boot 40 a u);
            } in
            let live : P.Live s2.boot d 40 = rw (ask_map_boot B P d s1) (P.pool_live s.boot 40 e) in
            elim (Bool-cases ((ask_map B P d s1).0 == efi_buffer_too_small)) [
              | inl small ↦ rw (made, small) (finish s s2 d positive clear kept live)
              | inr filled ↦ rw (made, filled) (inl refl, kept)
            ]
        | inr failed ↦
            rw failed
              (inl refl, record { memory = λ a j u lt. refl; in_use = P.pool_page_kept s.boot 40 })
      ]
