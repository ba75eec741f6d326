-- ===== src/Examples/Linkers.antt =====
-- linker.go and `insertFuncWrap` at concrete states.
use wasmtime_go.Base.{ℕ, ◌≡◌, refl, none, some, [], ◌∷◌, arith}
use wasmtime_go.Go.Outcome.{Exec, ok, return}
use wasmtime_go.Kind.{FuncType, i32}
use wasmtime_go.Registry.Laws.{IsValid, empty-IsValid}
use wasmtime_go.World.{World}
use wasmtime_go.Store.{insert_func_new, get_func_new, go_finalize_func_new}
use wasmtime_go.Store.Finds.{entry_of}
use wasmtime_go.Enter.{failed, Ran}
use wasmtime_go.Linker.{LinkerApi, func_new}
use wasmtime_go.Linker.Definitions.{func_new_found, func_new_refused}
use wasmtime_go.Examples.{world}

abbrev ty : FuncType
ty = record { params = []; results = i32 ∷ [] }

abbrev takes : LinkerApi
takes = record { define_func = λ t kind idx w. (ok none, w); define = λ item w. (ok none, w) }

abbrev refuses : LinkerApi
refuses = record {
  define_func = λ t kind idx w. (ok (some 6), (go_finalize_func_new idx w).1);
  define = λ item w. (ok none, w);
}

func_new_found_example :
    (idx : ℕ) × (t : World) × (insert_func_new none ty 4 world ≡ (ok idx, t))
    × (func_new takes ty 4 world ≡ (ok none, t))
    × (get_func_new (some 0) idx t ≡ (ok (some (entry_of ty 4)), t))
func_new_found_example =
    func_new_found takes (λ idx t. none) (λ idx t. t) ty 4 world (some 0) empty-IsValid
      (omega arith) (λ idx t. refl)

func_new_refused_example :
    (u : World) × (func_new refuses ty 4 world ≡ (ok (some (failed 6)), u))
    × ((i : ℕ) → u.engine_new.entries i ≡ world.engine_new.entries i)
    × IsValid u.engine_new
func_new_refused_example =
    func_new_refused refuses ty 4 6 world empty-IsValid (omega arith) (λ idx t. refl)

abbrev starts : Exec World (Ran ℕ)
starts = return (record { trap = none; error = none; output = 3 })
