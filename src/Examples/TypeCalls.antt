-- ===== src/Examples/TypeCalls.antt =====
-- Type objects at concrete heaps.
use wasmtime_go.Base.{
  ℕ, ◌^◌, ◌≡◌, refl, arith, true, false, none, some, [], ◌∷◌, ◌==◌, if◌then◌else◌,
}
use wasmtime_go.Go.Outcome.{ok}
use wasmtime_go.Types.{Class, TypeObject, Heap, TypeApi, mk, memory_as_extern_type}
use wasmtime_go.Types.Owners.{Rooted, freed}
use wasmtime_go.Types.History.{History, start, step, new, memory_extern, received, History-Rooted}
use wasmtime_go.Types.Limits.{
  MemoryApi, TableApi, GlobalApi, new_memory_type, new_memory_type64, new_table_type, table_minimum,
  table_maximum,
}
use wasmtime_go.Types.Limits.RoundTrip.{
  MemoryKept, Bounded, new_memory_types_lem, new_table_type_lem,
}

abbrev api : TypeApi
api = record {
  functype_as_externtype = λ p. p;
  globaltype_as_externtype = λ p. p;
  tabletype_as_externtype = λ p. p;
  memorytype_as_externtype = λ p. p;
  externtype_as_functype = λ p. none;
  externtype_as_globaltype = λ p. none;
  externtype_as_tabletype = λ p. none;
  externtype_as_memorytype = λ p. some p;
  functype_params = λ p. [];
  functype_results = λ p. [];
  globaltype_content = λ p. p;
  tabletype_element = λ p. p;
  importtype_type = λ p. p;
  exporttype_type = λ p. p;
  list_items = λ p. [];
}

abbrev memory_heap : Heap
memory_heap = (mk Class.memory_type 9 none []).1

-- A memory type, and its view as an extern type.
abbrev viewed : Heap
viewed = (memory_as_extern_type api 0 memory_heap).1

history : History api viewed
history =
    step memory_heap viewed (step [] memory_heap start (new Class.memory_type 9)) (memory_extern 0)

History-Rooted_example : Rooted viewed × (freed viewed ≡ received history)
History-Rooted_example = History-Rooted history

-- The sizes are 2 and 2 ^ 32 pages, which only a memory of the wide kind can have.
abbrev memories : MemoryApi
memories = record {
  new = λ min b max wide. if wide then 1 else 0;
  minimum = λ p. 2;
  maximum = λ p. some (2 ^ 32);
  is64 = λ p. p == 1;
}

kept : MemoryKept memories 2 true (2 ^ 32) true
kept = record { minimum = refl; maximum = refl; is64 = refl }

new_memory_types_lem_example :
    Bounded memories (2 ^ 16) 2 true (2 ^ 32) false [] (new_memory_type memories 2 true (2 ^ 32) [])
    × Bounded memories
        (2 ^ 48)
        2
        true
        (2 ^ 32)
        true
        []
        (new_memory_type64 memories 2 true (2 ^ 32) [])
new_memory_types_lem_example =
    new_memory_types_lem memories 2 (2 ^ 32) true [] (λ h. absurd (ground arith)) (λ h. kept)

abbrev val_type : TypeObject
val_type = record { class = Class.val_type; ptr = 3; owner = none; finalizer = true }

abbrev tables : TableApi
tables = record { new = λ kind min max. max; valtype_kind = λ p. 0; limits = λ p. (1, p) }

new_table_type_lem_example :
    (ref : ℕ) × (later : Heap) × (new_table_type tables 0 1 true 8 (val_type ∷ [])
      ≡ (ok ref, later))
    × (table_minimum tables ref later ≡ (ok 1, later))
    × (table_maximum tables ref later ≡ (ok (true, 8), later))
new_table_type_lem_example = new_table_type_lem tables 0 1 8 true (val_type ∷ []) val_type refl refl

abbrev globals : GlobalApi
globals = record {
  new = λ kind m. m;
  valtype_kind = λ p. 0;
  mutability = λ p. p;
  wasm_const = 0;
  wasm_var = 1;
}
