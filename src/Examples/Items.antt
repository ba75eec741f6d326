-- ===== src/Examples/Items.antt =====
-- memory.go and global.go at concrete inputs.
use wasmtime_go.Base.{ℕ, ◌≡◌, refl, [], ◌∷◌, none, some, arith}
use wasmtime_go.Go.Value.{Tag, Payload, CVal, text}
use wasmtime_go.Go.Outcome.{ok, return}
use wasmtime_go.World.{World}
use wasmtime_go.Registry.Laws.{empty-IsValid}
use wasmtime_go.Slab.{allocate}
use wasmtime_go.Registry
use wasmtime_go.Store.{Storelike, context}
use wasmtime_go.Val.{val_externref}
use wasmtime_go.Items.{ItemApi, Made, unsafe_data}
use wasmtime_go.Items.Bytes.{unsafe_data_lem}
use wasmtime_go.Items.Values.{set_and_get_global, set_and_get_global_lem}
use wasmtime_go.Examples.{world, one_entry}

-- The handle of the first Go value that is made an `externref`.
abbrev first : CVal
first = record { kind = Tag.externref; of = Payload.externref (some 1) }

abbrev made : Made ℕ
made = record { error = none; output = 0 }

-- A memory of four bytes, a global and a table whose element hold that handle.
abbrev api : ItemApi
api = record {
  memory_new = λ env ty. return made;
  memory_data_size = λ env mem w. 4;
  memory_size = λ env mem w. 1;
  memory_data = λ env mem w. 9 ∷ 8 ∷ 7 ∷ 6 ∷ [];
  memory_grow = λ env mem delta. return made;
  table_new = λ env ty c. return made;
  table_size = λ env table w. 1;
  table_grow = λ env table delta c. return made;
  table_get = λ env table idx. return (some first);
  table_set = λ env table idx c. return none;
  global_new = λ env ty c. return made;
  global_get = λ env g. return first;
  global_set = λ env g c. return none;
}

unsafe_data_lem_example :
    unsafe_data api (Storelike.store 0) 3 world ≡ (ok (9 ∷ 8 ∷ 7 ∷ 6 ∷ []), world)
unfolding context
unsafe_data_lem_example = unsafe_data_lem api (Storelike.store 0) 3 0 world refl refl

-- The state in which the global holds the handle.
abbrev holding : World
holding = record world { externrefs = one_entry (text "a") }

set_and_get_global_lem_example :
    set_and_get_global api (Storelike.store 0) 2 (text "a") world ≡ (ok (none, text "a"), holding)
unfolding context val_externref Registry.insert allocate
set_and_get_global_lem_example =
    set_and_get_global_lem api (Storelike.store 0) 2 0 (text "a") first world holding holding
      holding empty-IsValid (omega arith) refl refl refl refl refl (λ i v h. h)
