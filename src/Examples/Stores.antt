-- ===== src/Examples/Stores.antt =====
-- store.go at concrete states.
use wasmtime_go.Base.{ℕ, ◌<◌, ◌^◌, ◌≢◌, ◌≡◌, refl, none, some, [], ◌∷◌, arith}
use wasmtime_go.Go.Outcome.{ok}
use wasmtime_go.Kind.{FuncType, i32}
use wasmtime_go.World.{World, FuncNewEntry}
use wasmtime_go.Store.{fresh_data, get_func_new, go_finalize_func_new}
use wasmtime_go.Store.FuncNew.{get_func_new-go_finalize_func_new}
use wasmtime_go.Examples.{world, quiet_data, new_entry, one_entry, one_entry-IsValid, two_entries}

abbrev ty : FuncType
ty = record { params = []; results = i32 ∷ [] }

-- A world with an engine-wide function too.
abbrev both : World
both = record world { engine_new = one_entry (record { callback = 9; results = [] }) }

found_engine :
    get_func_new (some 0) 0 both ≡ (ok (some (record { callback = 9; results = [] })), both)
unfolding get_func_new
found_engine = refl

found_local : get_func_new (some 0) 1 both ≡ (ok (some new_entry), both)
unfolding get_func_new
found_local = refl

get_func_new-go_finalize_func_new_example :
    (t : World) × (go_finalize_func_new 0 both ≡ (ok tt, t))
    × (get_func_new (some 0) 0 t ≡ (ok none, t))
    × ((other : ℕ) (kept : FuncNewEntry)
        → other < 2 ^ 64
        → other ≢ 0
        → get_func_new (some 0) other both ≡ (ok (some kept), both)
        → get_func_new (some 0) other t ≡ (ok (some kept), t))
get_func_new-go_finalize_func_new_example =
    get_func_new-go_finalize_func_new both (some 0) 0 (record { callback = 9; results = [] })
      (one_entry-IsValid _) refl found_engine (omega arith)

-- Two stores.
abbrev two_stores : World
two_stores = record world { stores = two_entries 0 1; store_data = quiet_data ∷ fresh_data 2 ∷ [] }
