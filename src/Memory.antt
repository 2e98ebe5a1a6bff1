-- ===== src/Memory.antt =====
-- The machine's memory as the C code sees it: a byte at each address, and little-endian loads and
-- stores of 1, 2, 4 and 8 bytes. Addresses are those that the code computes.
pub mod Laws
use fur_os.Prelude.{ℕ, zero, suc, ◌+◌, ◌*◌, ◌/◌, ◌%◌, Bool, ◌==◌, if◌then◌else◌}

abbrev pub Memory : Type 0
Memory = ℕ → ℕ

unfoldable pub store8 : Memory → ℕ → ℕ → Memory
store8 m a v b = if b == a then v % 256 else m b

-- `n` bytes, the lowest first.
unfoldable pub load_le : ℕ → Memory → ℕ → ℕ
load_le zero m a = 0
load_le (suc n) m a = m a % 256 + 256 * load_le n m (a + 1)

unfoldable pub store_le : ℕ → Memory → ℕ → ℕ → Memory
store_le zero m a v = m
store_le (suc n) m a v = store8 (store_le n m (a + 1) (v / 256)) a v

-- `for (i = 0; i < n; i++) ((uint8_t *)a)[i] = 0;`
unfoldable pub clear_bytes : ℕ → Memory → ℕ → Memory
clear_bytes zero m a = m
clear_bytes (suc n) m a = clear_bytes n (store8 m a 0) (a + 1)
