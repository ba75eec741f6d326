-- ===== src/Types/Limits.antt =====
-- memorytype.go, tabletype.go and globaltype.go: the constructors, and what the accessors give back.
pub mod RoundTrip
use wasmtime_go.Base.{ℕ, ◌^◌, Bool, true, false, ◌||◌, Option, none, some, ltb, ◌==◌, if◌then◌else◌}
use wasmtime_go.Go.Value.{text}
use wasmtime_go.Go.Outcome.{Exec, return, throw, ◌>>=◌}
use wasmtime_go.Types.{Heap, ptr_of, mk_memory_type, mk_table_type, mk_global_type}

-- wasmtime_memorytype_new and the accessors.
pub record MemoryApi : Type 0 where
  pub new : ℕ → Bool → ℕ → Bool → ℕ
  pub minimum : ℕ → ℕ
  pub maximum : ℕ → Option ℕ
  pub is64 : ℕ → Bool

-- wasm_valtype_kind, wasm_tabletype_new and wasm_tabletype_limits, with the limits as two numbers.
pub record TableApi : Type 0 where
  pub new : ℕ → ℕ → ℕ → ℕ
  pub valtype_kind : ℕ → ℕ
  pub limits : ℕ → ℕ × ℕ

-- wasm_globaltype_new and wasm_globaltype_mutability, with its two constants.
pub record GlobalApi : Type 0 where
  pub new : ℕ → ℕ → ℕ
  pub valtype_kind : ℕ → ℕ
  pub mutability : ℕ → ℕ
  pub wasm_const : ℕ
  pub wasm_var : ℕ

module _ (api : MemoryApi) where
  -- NewMemoryType and NewMemoryType64, up to the bound on the sizes
  bounded_memory_type : ℕ → Bool → ℕ → Bool → ℕ → Exec Heap ℕ
  bounded_memory_type bound wide min has_max max =
      if ltb bound min || ltb bound max
      then throw (text "provided sizes are too large")
      else mk_memory_type (api.new min has_max max wide) none

  unfoldable pub new_memory_type : ℕ → Bool → ℕ → Exec Heap ℕ
  unfolding bounded_memory_type
  new_memory_type min has_max max = bounded_memory_type (2 ^ 16) false min has_max max

  unfoldable pub new_memory_type64 : ℕ → Bool → ℕ → Exec Heap ℕ
  unfolding bounded_memory_type
  new_memory_type64 min has_max max = bounded_memory_type (2 ^ 48) true min has_max max

  -- MemoryType.Minimum, Maximum and Is64; `size` is 0 where nothing is written to it
  unfoldable pub memory_minimum : ℕ → Exec Heap ℕ
  memory_minimum ref = do p ← ptr_of ref; return (api.minimum p)

  abbrev pub present_size : Option ℕ → Bool × ℕ
  present_size none = (false, 0)
  present_size (some n) = (true, n)

  unfoldable pub memory_maximum : ℕ → Exec Heap (Bool × ℕ)
  memory_maximum ref = do p ← ptr_of ref; return (present_size (api.maximum p))

  unfoldable pub memory_is64 : ℕ → Exec Heap Bool
  memory_is64 ref = do p ← ptr_of ref; return (api.is64 p)

module _ (api : TableApi) where
  -- NewTableType
  unfoldable pub new_table_type : ℕ → ℕ → Bool → ℕ → Exec Heap ℕ
  new_table_type element min has_max max = do
    e ← ptr_of element
    mk_table_type (api.new (api.valtype_kind e) min (if has_max then max else 4294967295)) none

  -- TableType.Minimum and Maximum
  unfoldable pub table_minimum : ℕ → Exec Heap ℕ
  table_minimum ref = do p ← ptr_of ref; return (api.limits p).0

  abbrev pub listed : ℕ → Bool × ℕ
  listed max = if max == 4294967295 then (false, 0) else (true, max)

  unfoldable pub table_maximum : ℕ → Exec Heap (Bool × ℕ)
  table_maximum ref = do p ← ptr_of ref; return (listed (api.limits p).1)

module _ (api : GlobalApi) where
  -- NewGlobalType
  unfoldable pub new_global_type : ℕ → Bool → Exec Heap ℕ
  new_global_type content mutable = do
    c ← ptr_of content
    mk_global_type (api.new (api.valtype_kind c) (if mutable then api.wasm_var else api.wasm_const))
        none

  -- GlobalType.Mutable
  unfoldable pub mutable : ℕ → Exec Heap Bool
  mutable ref = do p ← ptr_of ref; return (api.mutability p == api.wasm_var)
