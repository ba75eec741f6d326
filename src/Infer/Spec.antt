-- ===== src/Infer/Spec.antt =====
-- The type that func.go infers, said without its loops.
use mathlib.Core.Path.{ap₂}
use wasmtime_go.Base.{ℕ, ◌+◌, ◌≡◌, refl, some, List, [], ◌∷◌, map, arith, if◌then◌else◌, length}
use wasmtime_go.Go.Outcome.{ok}
use wasmtime_go.World.{GoType, Signature}
use wasmtime_go.Infer.{
  type_to_val_type, is_caller, is_trap, infer_params, infer_results, infer_func_type,
}

abbrev pub without_callers : List GoType → List GoType
without_callers [] = []
without_callers (t ∷ ts) = if is_caller t then without_callers ts else t ∷ without_callers ts

-- The list without its last item if that is `*Trap`.
abbrev pub without_last_trap : List GoType → List GoType
without_last_trap [] = []
without_last_trap (t ∷ []) = if is_trap t then [] else t ∷ []
without_last_trap (t ∷ u ∷ ts) = t ∷ without_last_trap (u ∷ ts)

infer_params-map : (ts : List GoType) → infer_params ts ≡ map type_to_val_type (without_callers ts)
unfolding infer_params
infer_params-map [] = refl
infer_params-map (t ∷ ts) = ground (arith, infer_params-map ts)

infer_results-map :
    (n i : ℕ) (ts : List GoType)
    → n ≡ i + length ts
    → infer_results n i ts ≡ map type_to_val_type (without_last_trap ts)
unfolding infer_results
infer_results-map n i [] e = refl
infer_results-map n i (t ∷ []) e = ground arith
infer_results-map n i (t ∷ u ∷ ts) e =
    ground (arith, infer_results-map n (i + 1) (u ∷ ts) (omega arith))

-- The inferred type has a parameter for each parameter of the Go function that is no `*Caller`, and
-- a result for each of its results but for a last `*Trap`, each in order with the kind of its type.
pub infer_func_type-map :
    (sig : Signature)
    → infer_func_type (some sig)
      ≡ ok (record {
        params = map type_to_val_type (without_callers sig.ins);
        results = map type_to_val_type (without_last_trap sig.outs);
      })
unfolding infer_func_type
infer_func_type-map sig =
    ap₂ (λ ps rs. ok (record { params = ps; results = rs })) (infer_params-map sig.ins)
      (infer_results-map (length sig.outs) 0 sig.outs (omega arith))
