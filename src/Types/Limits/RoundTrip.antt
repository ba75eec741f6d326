-- ===== src/Types/Limits/RoundTrip.antt =====
-- What the accessors of a new memory, table or global type return.
use wasmtime_go.Base.{
  ℕ, ◌^◌, ◌≡◌, ◌≢◌, refl, Bool, true, false, not, ◌&&◌, ◌||◌, none, some, [], ◌∷◌, ◌++◌, length,
  get_elem?, get_elem?-append_length, ltb, ◌==◌, if◌then◌else◌, arith, Bool-cases, inl, inr,
}
use wasmtime_go.Go.Value.{text}
use wasmtime_go.Go.Outcome.{Outcome, ok, panic}
use wasmtime_go.Types.{Class, TypeObject, Heap, ptr_of, mk, mk_memory_type}
use wasmtime_go.Types.Operations.{ptr_of_lem}
use wasmtime_go.Types.Limits.{
  MemoryApi, TableApi, GlobalApi, bounded_memory_type, new_memory_type, new_memory_type64,
  memory_minimum, memory_maximum, memory_is64, present_size, new_table_type, table_minimum,
  table_maximum, listed, new_global_type, mutable,
}

-- What the accessors of a memory type return.
abbrev pub Describes : MemoryApi → Heap → ℕ → ℕ → Bool → ℕ → Bool → Type 0
Describes api heap ref min has_max max wide =
    (memory_minimum api ref heap ≡ (ok min, heap))
    × (memory_maximum api ref heap ≡ (ok (has_max, if has_max then max else 0), heap))
    × (memory_is64 api ref heap ≡ (ok wide, heap))

present_size-if :
    (api : MemoryApi) (has_max : Bool) (max : ℕ)
    → present_size api (if has_max then some max else none) ≡ (has_max, if has_max then max else 0)
present_size-if api true max = refl
present_size-if api false max = refl

ptr_of-append :
    (heap : Heap) (o : TypeObject)
    → ptr_of (length heap) (heap ++ o ∷ []) ≡ (ok o.ptr, heap ++ o ∷ [])
ptr_of-append heap o = ptr_of_lem (heap ++ o ∷ []) (length heap) o (get_elem?-append_length heap o)

-- A heap with one more object, which owns a C object.
abbrev with_own : Heap → Class → ℕ → Heap
with_own heap class ptr =
    heap ++ record { class = class; ptr = ptr; owner = none; finalizer = true } ∷ []

-- wasmtime gives back the limits of a memory type that it was given.
pub record MemoryKept (api : MemoryApi) (min : ℕ) (has_max : Bool) (max : ℕ) (wide : Bool)
    : Type 0 where
  pub minimum : api.minimum (api.new min has_max max wide) ≡ min
  pub maximum : api.maximum (api.new min has_max max wide) ≡ (if has_max then some max else none)
  pub is64 : api.is64 (api.new min has_max max wide) ≡ wide

-- The end of a constructor of memory types.
Describes-mk :
    (api : MemoryApi) (min max : ℕ) (has_max wide : Bool) (heap : Heap)
    → MemoryKept api min has_max max wide
    → let (r, later) = mk_memory_type (api.new min has_max max wide) none heap in
      (r ≡ ok (length heap)) × Describes api later (length heap) min has_max max wide
unfolding mk memory_minimum memory_maximum memory_is64
Describes-mk api min max has_max wide heap kept = (
  refl,
  (
    rw (ptr_of-append heap _) (rw kept.minimum refl),
    rw (ptr_of-append heap _) (rw kept.maximum (rw (present_size-if api has_max max) refl)),
    rw (ptr_of-append heap _) (rw kept.is64 refl),
  ),
)

-- The outcomes of a constructor with this bound: a panic that changes nothing, or a type that is
-- described by what it was made with.
abbrev pub Bounded : MemoryApi → ℕ → ℕ → Bool → ℕ → Bool → Heap → Outcome ℕ × Heap → Type 0
Bounded api bound min has_max max wide heap (r, later) =
    if ltb bound min || ltb bound max
    then (r ≡ panic (text "provided sizes are too large")) × (later ≡ heap)
    else (r ≡ ok (length heap)) × Describes api later (length heap) min has_max max wide

bounded_memory_type_lem :
    (api : MemoryApi) (bound min max : ℕ) (has_max wide : Bool) (heap : Heap)
    → ((ltb bound min || ltb bound max) ≡ false → MemoryKept api min has_max max wide)
    → Bounded api bound min has_max max wide heap
        (bounded_memory_type api bound wide min has_max max heap)
unfolding bounded_memory_type
bounded_memory_type_lem api bound min max has_max wide heap kept =
    elim (Bool-cases (ltb bound min || ltb bound max)) [
      | inl large ↦ rw large (refl, refl)
      | inr within ↦ rw within (Describes-mk api min max has_max wide heap (kept within))
    ]

-- `NewMemoryType` and `NewMemoryType64` panic, and change nothing, if the minimum or the maximum is
-- above 2 ^ 16 or 2 ^ 48, even a maximum that is not present. Otherwise they return a type whose
-- accessors give back the minimum, the maximum, or (false, 0) where none is present, and the width, if
-- wasmtime gives back what it was given by the constructor at hand, for sizes that the constructor
-- lets through.
pub new_memory_types_lem :
    (api : MemoryApi) (min max : ℕ) (has_max : Bool) (heap : Heap)
    → ((ltb (2 ^ 16) min || ltb (2 ^ 16) max) ≡ false → MemoryKept api min has_max max false)
    → ((ltb (2 ^ 48) min || ltb (2 ^ 48) max) ≡ false → MemoryKept api min has_max max true)
    → Bounded api (2 ^ 16) min has_max max false heap (new_memory_type api min has_max max heap)
      × Bounded api (2 ^ 48) min has_max max true heap (new_memory_type64 api min has_max max heap)
unfolding new_memory_type new_memory_type64
new_memory_types_lem api min max has_max heap kept kept64 = (
  bounded_memory_type_lem api (2 ^ 16) min max has_max false heap kept,
  bounded_memory_type_lem api (2 ^ 48) min max has_max true heap kept64,
)

-- The maximum that is handed to wasmtime, read back.
listed-if :
    (api : TableApi) (has_max : Bool) (max : ℕ)
    → listed api (if has_max then max else 4294967295)
      ≡ (has_max && not (max == 4294967295), if has_max && not (max == 4294967295) then max else 0)
listed-if api true max = elim (Bool-cases (max == 4294967295)) [
  | inl same ↦ rw same refl
  | inr differ ↦ rw differ refl
]
listed-if api false max = refl

-- `NewTableType` with an element type that is there returns a type whose `Minimum` gives back the
-- minimum. Its `Maximum` gives back the maximum if one is present and is not 4294967295, and
-- otherwise (false, 0), if wasmtime gives back the limits that it was given.
pub new_table_type_lem :
    (api : TableApi) (element min max : ℕ) (has_max : Bool) (heap : Heap) (o : TypeObject)
    → get_elem? heap element ≡ some o
    → api.limits (api.new (api.valtype_kind o.ptr) min (if has_max then max else 4294967295))
      ≡ (min, if has_max then max else 4294967295)
    → let there = has_max && not (max == 4294967295) in
      (ref : ℕ) × (later : Heap) × (new_table_type api element min has_max max heap
        ≡ (ok ref, later))
      × (table_minimum api ref later ≡ (ok min, later))
      × (table_maximum api ref later ≡ (ok (there, if there then max else 0), later))
unfolding new_table_type mk table_minimum table_maximum
new_table_type_lem api element min max has_max heap o at kept = (
  length heap,
  with_own heap Class.table_type
      (api.new (api.valtype_kind o.ptr) min (if has_max then max else 4294967295)),
  rw (ptr_of_lem heap element o at) refl,
  rw (ptr_of-append heap _) (rw kept refl),
  rw (ptr_of-append heap _) (rw kept (rw (listed-if api has_max max) refl)),
)

-- `NewGlobalType` returns a type whose `Mutable` gives back the mutability, if the two constants of
-- wasmtime differ and it gives back the one that it was given.
pub new_global_type_lem :
    (api : GlobalApi) (content : ℕ) (is_mutable : Bool) (heap : Heap) (o : TypeObject)
    → get_elem? heap content ≡ some o
    → api.wasm_const ≢ api.wasm_var
    → let m = if is_mutable then api.wasm_var else api.wasm_const in
      api.mutability (api.new (api.valtype_kind o.ptr) m) ≡ m
      → (ref : ℕ) × (later : Heap) × (new_global_type api content is_mutable heap ≡ (ok ref, later))
        × (mutable api ref later ≡ (ok is_mutable, later))
unfolding new_global_type mk mutable
new_global_type_lem api content true heap o at differ kept =
    let same : (api.wasm_var == api.wasm_var) ≡ true = ground arith in
    (
      length heap,
      with_own heap Class.global_type (api.new (api.valtype_kind o.ptr) api.wasm_var),
      rw (ptr_of_lem heap content o at) refl,
      rw (ptr_of-append heap _) (rw kept (rw same refl)),
    )
new_global_type_lem api content false heap o at differ kept =
    let other : (api.wasm_const == api.wasm_var) ≡ false = ground arith in
    (
      length heap,
      with_own heap Class.global_type (api.new (api.valtype_kind o.ptr) api.wasm_const),
      rw (ptr_of_lem heap content o at) refl,
      rw (ptr_of-append heap _) (rw kept (rw other refl)),
    )
