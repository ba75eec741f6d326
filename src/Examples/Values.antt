-- ===== src/Examples/Values.antt =====
-- val.go and `inferFuncType` at concrete values.
use wasmtime_go.Base.Word.{dec}
use wasmtime_go.Base.{ℕ, ◌≢◌, ◌≡◌, refl, some, map, arith}
use wasmtime_go.Go.Value.{Val, Any, int64, text}
use wasmtime_go.Go.Outcome.{ok}
use wasmtime_go.Registry.Laws.{IsValid, empty-IsValid}
use wasmtime_go.World.{World}
use wasmtime_go.Val.{get, val_externref, go_finalize_externref}
use wasmtime_go.Val.Externref.{
  handle, Reaches, Handles, get-val_externref, get-handle-go_finalize_externref,
}
use wasmtime_go.Infer.{type_to_val_type, infer_func_type}
use wasmtime_go.Infer.Spec.{without_callers, without_last_trap, infer_func_type-map}
use wasmtime_go.Examples.{world, callback, two_entries, two_entries-IsValid}

get-val_externref_example :
    (x : Val) × (t : World) × (val_externref (text "a") world ≡ (ok x, t))
    × (get x t ≡ (ok (text "a"), t))
    × Handles (text "a") x
    × IsValid t.externrefs
get-val_externref_example = get-val_externref world (text "a") empty-IsValid (omega arith)

-- Two Go values behind `externref`, under the envs 1 and 2.
abbrev held : World
held = record world { externrefs = two_entries (text "a") (int64 4) }

get-handle-go_finalize_externref_example :
    (t : World) × (go_finalize_externref 1 held ≡ (ok tt, t))
    × (get (handle 1) t ≡ (ok Any.nil, t))
    × ((other : ℕ) (u : Any)
        → Reaches held other u
        → dec other ≢ dec 1
        → get (handle other) t ≡ (ok u, t))
    × IsValid t.externrefs
get-handle-go_finalize_externref_example =
    get-handle-go_finalize_externref held 1 (text "a") (two_entries-IsValid _ _) refl

infer_func_type-map_example :
    infer_func_type (some callback.signature)
    ≡ ok (record {
      params = map type_to_val_type (without_callers callback.signature.ins);
      results = map type_to_val_type (without_last_trap callback.signature.outs);
    })
infer_func_type-map_example = infer_func_type-map callback.signature
