-- ===== src/Paging/Entry.antt =====
-- Entries of a table: the bits that the code reads, and loads after its stores.
use fur_os.Prelude.{
  ℕ, ◌+◌, ◌-◌, ◌*◌, ◌/◌, ◌%◌, ◌^◌, ◌<◌, ◌≡◌, ◌≢◌, ◌⊎◌, true, false, arith, bit_and_low,
  bit_and_high,
}
use fur_os.Memory.{Memory, load_le, store_le, clear_bytes}
use fur_os.Memory.Laws.{
  load_le-store_le, load_le-store_le-Apart, load_le-clear_bytes, load_le-clear_bytes-Apart,
}
use fur_os.Paging.{present, table_of}

-- The entry `i` of the table at `t`.
abbrev pub entry : Memory → ℕ → ℕ → ℕ
entry m t i = load_le 8 m (t + 8 * i)

pub present_lem : (e : ℕ) → (present e ≡ true → e % 2 ≡ 1) × (e % 2 ≡ 1 → present e ≡ true)
unfolding present
present_lem e = ground (arith, bit_and_low 1 e)

pub present_even : (e : ℕ) → e % 2 ≡ 0 → present e ≡ false
unfolding present
present_even e h = ground (arith, bit_and_low 1 e)

pub table_of_lem : (e : ℕ) → table_of e ≡ e / 4096 % 2 ^ 40 * 4096
unfolding table_of
table_of_lem e = ground (arith, bit_and_high 12 e (2 ^ 40 - 1), bit_and_low 40 (e / 4096))

pub entry-set_self :
    (m : Memory) (t i v : ℕ) → v < 2 ^ 64 → entry (store_le 8 m (t + 8 * i) v) t i ≡ v
entry-set_self m t i v h = load_le-store_le 8 m (t + 8 * i) v h

pub entry-set_ne :
    (m : Memory) (t t' i i' v : ℕ)
    → t % 4096 ≡ 0
    → t' % 4096 ≡ 0
    → i < 512
    → i' < 512
    → (t' ≢ t) ⊎ (i' ≢ i)
    → entry (store_le 8 m (t + 8 * i) v) t' i' ≡ entry m t' i'
entry-set_ne m t t' i i' v a a' p p' ne =
    load_le-store_le-Apart 8 8 m (t' + 8 * i') (t + 8 * i) v (ground arith)

pub entry-clear_self : (m : Memory) (t i : ℕ) → i < 512 → entry (clear_bytes 0x1000 m t) t i ≡ 0
entry-clear_self m t i p = load_le-clear_bytes 8 0x1000 m (t + 8 * i) t (omega arith) (omega arith)

pub entry-clear_ne :
    (m : Memory) (t t' i : ℕ)
    → t % 4096 ≡ 0
    → t' % 4096 ≡ 0
    → i < 512
    → t' ≢ t
    → entry (clear_bytes 0x1000 m t) t' i ≡ entry m t' i
entry-clear_ne m t t' i a a' p ne =
    load_le-clear_bytes-Apart 8 0x1000 m (t' + 8 * i) t (ground arith)
