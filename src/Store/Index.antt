-- ===== src/Store/Index.antt =====
-- How store.go packs an index and the table that it belongs to into one `int`: engine-wide entries
-- are even, store-local ones odd.
use wasmtime_go.Base.{ℕ, ◌^◌, ◌≤◌, ◌<◌, ◌≡◌, ◌≢◌, arith}
use wasmtime_go.Base.Word.{shl1, shr1, and1, or1}

pub engine_index : (i : ℕ) → i < 2 ^ 62 → (and1 (shl1 i) ≡ 0) × (shr1 (shl1 i) ≡ i)
engine_index i h = ground arith

pub local_index : (i : ℕ) → i < 2 ^ 62 → (and1 (or1 (shl1 i)) ≡ 1) × (shr1 (or1 (shl1 i)) ≡ i)
local_index i h = ground arith

-- An index that needs 63 bits does not come back.
pub index_overflow :
    (i : ℕ) → 2 ^ 62 ≤ i → i < 2 ^ 63 → (shr1 (shl1 i) ≢ i) × (shr1 (or1 (shl1 i)) ≢ i)
index_overflow i h k = (λ e. ground arith, λ e. ground arith)
