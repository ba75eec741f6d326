-- ===== src/Call/Arguments.antt =====
-- The arguments of `Func.Call`: which calls are refused, and what the others hand to wasm.
use wasmtime_go.Base.{ℕ, ◌<◌, ◌≤◌, ◌≡◌, refl, true, false, some, List, arith, length, ltb}
use wasmtime_go.Go.Value.{CVal, Any, nil}
use wasmtime_go.Go.Outcome.{Exec, ok}
use wasmtime_go.Kind.{ValKind, FuncType}
use wasmtime_go.World.{World}
use wasmtime_go.Store.{Storelike, context}
use wasmtime_go.Registry.Laws.{IsValid}
use wasmtime_go.Enter.{Ran, message}
use wasmtime_go.Call.{Converted, ready, refused, convert_all, call}
use wasmtime_go.Call.Conversion.{all_usable, ints_fit, Counts, steps_lem}

-- More arguments than parameters give an error: no wasm runs and nothing changes.
pub call_too_many :
    (s : Storelike) (ty : FuncType) (run : List CVal → ℕ → Exec World (Ran (List CVal)))
    (args : List Any) (env : ℕ) (w : World)
    → context s w ≡ (ok env, w)
    → length ty.params < length args
    → call s ty run args w
      ≡ (ok (record { value = nil; error = some (message "too many arguments provided") }), w)
unfolding call
call_too_many s ty run args env w c h =
    let t : ltb (length ty.params) (length args) ≡ true = ground arith in rw c (rw t refl)

-- Arguments that are no nil `*Func` and not `Val{}`, and at most as many as the parameters, never
-- make the conversion panic. It gives a C value for each argument if every `int` stands at a
-- parameter of an integer kind, and otherwise refuses the call. It touches no store, and the table of
-- `externref`s, valid before, stays valid.
pub convert_all_total :
    (params : List ValKind) (args : List Any) (w : World)
    → all_usable args ≡ true
    → length args ≤ length params
    → IsValid w.externrefs
    → (result : Converted (List CVal)) × (u : World) × (convert_all params 0 args w
        ≡ (ok result, u))
      × Counts (ints_fit params 0 args) (length args) result
      × IsValid u.externrefs
      × (u.store_data ≡ w.store_data)
convert_all_total params args w u b h =
    let s = steps_lem params 0 args w u (omega arith) h in
    (s.result, s.after, s.done, s.counts, s.valid, s.same)

refused_lem :
    (params : List ValKind) (args : List Any) (w u : World) (result : Converted (List CVal))
    → ints_fit params 0 args ≡ false
    → Counts (ints_fit params 0 args) (length args) result
    → convert_all params 0 args w ≡ (ok result, u)
    → convert_all params 0 args w ≡ (ok refused, u)
refused_lem params args w u refused f c e = e
refused_lem params args w u (ready cs) f (t, n) e = absurd (ground arith)

-- A call with at most as many arguments as parameters, none of them a nil `*Func` or `Val{}`, in
-- which an `int` stands at a parameter of no integer kind, returns an error: it does not panic, no
-- wasm runs, and no store's data changes. The table of `externref`s must be valid, and a `*Caller`
-- that the call is made through still in use.
pub call_refused :
    (s : Storelike) (ty : FuncType) (run : List CVal → ℕ → Exec World (Ran (List CVal)))
    (args : List Any) (env : ℕ) (w : World)
    → context s w ≡ (ok env, w)
    → all_usable args ≡ true
    → length args ≤ length ty.params
    → IsValid w.externrefs
    → ints_fit ty.params 0 args ≡ false
    → (u : World) × (call s ty run args w ≡ (
      ok (record {
        value = nil;
        error = some (message "integer provided for non-integer argument");
      }),
      u,
    ))
      × (u.store_data ≡ w.store_data)
unfolding call
call_refused s ty run args env w c usable' few h bad =
    let (result, u, done, counts, valid, same) = convert_all_total ty.params args w usable' few h in
    let t : ltb (length ty.params) (length args) ≡ false = ground arith in
    let e = refused_lem ty.params args w u result bad counts done in
    (u, rw c (rw t (rw e refl)), same)
