-- ===== src/Trampoline/Wrap/Replies.antt =====
-- What `goTrampolineWrap` answers to wasm for the ways in which a wrapped Go function can end.
use wasmtime_go.Base.Word.{and1, shr1}
use wasmtime_go.Base.{
  inl, inr, arith, ◌==◌, Bool-cases, Option-cases, ℕ, ◌≡◌, ◌≢◌, refl, ◌∙◌, true, false, Bool,
  Option, none, some, List, [], ◌∷◌, length, get_elem?, set, get_elem?-set_self, lt_of_get_elem?,
}
use wasmtime_go.Go.Value.{CVal, Any, text, int32, int64, float32, float64, func}
use wasmtime_go.Go.Outcome.{Outcome, ok, panic}
use wasmtime_go.Kind.{externref}
use wasmtime_go.World
use wasmtime_go.World.{World, Host, FuncWrapEntry, StoreData, GoType}
use wasmtime_go.Registry.Laws.{IsValid}
use wasmtime_go.Store.{get_func_wrap}
use wasmtime_go.Val.{val_i32, val_i64, val_f32, val_f64, val_funcref}
use wasmtime_go.Val.Access.{named}
use wasmtime_go.Enter.{is_nil}
use wasmtime_go.Infer.{infer_func_type, type_to_val_type}
use wasmtime_go.Infer.Spec.{infer_func_type-map}
use wasmtime_go.Trap.{take_ptr}
use wasmtime_go.Trampoline.{close_caller}
use wasmtime_go.Trampoline.Panicked.{reply_panicked_lem}
use wasmtime_go.Trampoline.Caller.{opened, open_caller_lem, get_data_in_store-opened}
use wasmtime_go.Trampoline.Wrap.{
  trampoline_wrap_body, any_nil, all_fit, reflect_call, write_result, write_results, trap_of,
  write_next, reply_trap, after_reflect_call, go_trampoline_wrap,
}
use wasmtime_go.Trampoline.Wrap.Params.{Passes, wrap_params-Passes}
use wasmtime_go.Trampoline.Wrap.Results.{conform, kinds_written, write_results-conform}

get_func_wrap-opened :
    (env idx : ℕ) (ptr : Option ℕ) (w : World) (o : Option FuncWrapEntry)
    → get_func_wrap ptr idx w ≡ (ok o, w)
    → get_func_wrap ptr idx (opened w env) ≡ (ok o, opened w env)
unfolding get_func_wrap
get_func_wrap-opened env idx none w o h = ground arith
get_func_wrap-opened env idx (some d) w o h = elim (Bool-cases (and1 idx == 0)) [
  | inl even ↦ ground arith
  | inr odd ↦ elim (Option-cases (get_elem? w.store_data d)) [
    | inl missing ↦ ground arith
    | inr (sd, here) ↦ elim (Option-cases (get_elem? sd.func_wrap (shr1 idx))) [
      | inl none_there ↦ ground arith
      | inr (e, at) ↦ ground arith
    ]
  ]
]

-- A `*Trap` that has let go of its C trap.
abbrev spent : World.Trap
spent = record { ptr = none; finalizer = false }

-- Every run ends with the deferred write to the `Caller`.
pub go_trampoline_wrap_closes :
    (host : Host) (caller_env env : ℕ) (args : List CVal) (w : World)
    → (v : World) × ((go_trampoline_wrap host caller_env env args w).1
        ≡ close_caller (length w.callers) v)
unfolding go_trampoline_wrap
go_trampoline_wrap_closes host caller_env env args w = (
  (trampoline_wrap_body host (length w.callers) env args (opened w caller_env)).1,
  rw (open_caller_lem caller_env w) refl,
)

module _ (host : Host) (w : World) (caller_env env d : ℕ) (args : List CVal) (entry : FuncWrapEntry)
    (params : List Any) (attached : w.stores.entries caller_env ≡ some d)
    (found : get_func_wrap (some d) env w ≡ (ok (some entry), w))
    (passes : Passes
      (length w.callers)
      (opened w caller_env)
      entry.callback.signature.ins
      args
      params)
    (real : any_nil params ≡ false)
    (fit : all_fit host entry.callback.signature.ins params ≡ true) where
  -- The Go function, with the parameters it is passed, ends in this way and leaves this state.
  abbrev pub WrapCalls : World → Outcome (List Any) → Type 0
  WrapCalls t outcome =
      host.call_wrap entry.callback.code params (opened w caller_env) ≡ (outcome, t)

  pub go_trampoline_wrap-reply :
      (t : World) (outcome : Outcome (List Any))
      → WrapCalls t outcome
      → let answer = after_reflect_call host (some d) (outcome, t) in
        go_trampoline_wrap host caller_env env args w
        ≡ (answer.0, close_caller (length w.callers) answer.1)
  unfolding go_trampoline_wrap reflect_call
  go_trampoline_wrap-reply t outcome e = rw (open_caller_lem caller_env w) (
      rw (get_data_in_store-opened caller_env w) (
        rw attached (
          rw (get_func_wrap-opened caller_env env (some d) w _ found)
            (rw (wrap_params-Passes passes) (rw real (rw fit (rw e refl)))))))

  -- If wasm calls a function of `WrapFunc` or `Linker.FuncWrap` whose env leads to its entry, in a
  -- store that is in the table, with parameters that are not nil and that reflection takes, none of its
  -- results but the last is of the type `*Trap`, and the Go function returns results of its types, a last
  -- `*Trap` being nil and an interface holding no number of a fixed width, `*Func`, `*Caller` or
  -- `*Trap`, and leaves a valid table of `externref`s, then wasm gets no trap, slots of exactly the
  -- inferred kinds are written, in order, and the stores' data is as the function left it.
  pub go_trampoline_wrap_results :
      (t : World) (rs : List Any)
      → WrapCalls t (ok rs)
      → conform entry.callback.signature.outs rs ≡ true
      → IsValid t.externrefs
      → (slots : List (Option CVal)) × (u : World) × (go_trampoline_wrap host caller_env env args w
          ≡ (ok (record { trap = none; written = slots }), u))
        × (infer_func_type (some (record { ins = []; outs = entry.callback.signature.outs }))
            ≡ ok (record { params = []; results = kinds_written slots }))
        × (u.store_data ≡ t.store_data)
  unfolding after_reflect_call
  go_trampoline_wrap_results t rs e c h =
      let (slots, u, done, kinds, same) =
        write_results-conform (some d) entry.callback.signature.outs rs t c h in
      (
        slots,
        close_caller (length w.callers) u,
        go_trampoline_wrap-reply t (ok rs) e ∙ rw done refl,
        kinds,
        same,
      )

  module _ (t : World) (sd : StoreData) (here : get_elem? t.store_data d ≡ some sd) where
    -- If wasm calls a function of `WrapFunc` or `Linker.FuncWrap` whose env leads to its entry, in
    -- a store that is in the table, with parameters that are not nil and that reflection takes, and
    -- the Go function panics, with anything but nil, then wasm gets a trap and the store keeps the
    -- panic.
    pub go_trampoline_wrap_panicked :
        (v : Any)
        → is_nil v ≡ false
        → WrapCalls t (panic v)
        → (p : ℕ) × (u : World) × (go_trampoline_wrap host caller_env env args w
            ≡ (ok (record { trap = some p; written = [] }), u))
          × (get_elem? u.store_data d ≡ some (record sd { last_panic = v }))
    unfolding after_reflect_call
    go_trampoline_wrap_panicked v is_real e =
        let (p, u, done, panicked) = reply_panicked_lem host d v t sd here in
        (
          p,
          close_caller (length w.callers) u,
          go_trampoline_wrap-reply t (panic v) e ∙ rw is_real (rw done refl),
          panicked.kept,
        )

    -- If wasm calls a function of `WrapFunc` or `Linker.FuncWrap` whose env leads to its entry, in
    -- a store that is in the table, with parameters that are not nil and that reflection takes, and
    -- the Go function returns one `*Trap`, then wasm gets its C trap if it still has one, and the
    -- object has let go of it. If it was returned before, wasm is told that the call succeeded, but
    -- the store keeps a panic.
    pub go_trampoline_wrap_trap :
        (trap : ℕ) (ptr : Option ℕ) (finalizer : Bool)
        → WrapCalls t (ok (Any.trap (some trap) ∷ []))
        → get_elem? t.traps trap ≡ some (record { ptr = ptr; finalizer = finalizer })
        → (u : World) × (go_trampoline_wrap host caller_env env args w
            ≡ (ok (record { trap = ptr; written = [] }), u))
          × (get_elem? u.traps trap ≡ some (record { ptr = none; finalizer = false }))
          × (get_elem? u.store_data d
              ≡ some (record sd {
                last_panic = elim ptr [
                  | none ↦ text "cannot return trap twice"
                  | some p ↦ sd.last_panic
                ];
              }))
    unfolding after_reflect_call write_results write_next trap_of reply_trap take_ptr
    go_trampoline_wrap_trap trap none finalizer e own =
        let u = record t {
          traps = set t.traps trap spent;
          store_data =
              set t.store_data d (record sd { last_panic = text "cannot return trap twice" });
        } in
        (
          close_caller (length w.callers) u,
          go_trampoline_wrap-reply t _ e ∙ rw own (rw here refl),
          get_elem?-set_self t.traps trap spent (lt_of_get_elem? t.traps trap _ own),
          get_elem?-set_self t.store_data d _ (lt_of_get_elem? t.store_data d sd here),
        )
    go_trampoline_wrap_trap trap (some p) finalizer e own =
        let u = record t { traps = set t.traps trap spent } in
        (
          close_caller (length w.callers) u,
          go_trampoline_wrap-reply t _ e ∙ rw own refl,
          get_elem?-set_self t.traps trap spent (lt_of_get_elem? t.traps trap _ own),
          here,
        )

-- The results that the type switch has a case of its own for, but `*Trap`.
abbrev pub has_case : Any → Bool
has_case (int32 n) = true
has_case (int64 n) = true
has_case (float32 n) = true
has_case (float64 n) = true
has_case (func f) = true
has_case _ = false

inferred :
    (n : ℕ)
    → infer_func_type (some (record { ins = []; outs = GoType.other n ∷ [] }))
      ≡ ok (record { params = []; results = externref ∷ [] })
unfolding type_to_val_type
inferred n = infer_func_type-map (record { ins = []; outs = GoType.other n ∷ [] })

slot_of :
    (r : Any) (ptr : Option ℕ) (w : World)
    → has_case r ≡ true
    → (slot : CVal) × (write_results ptr (r ∷ []) w
        ≡ (ok (record { trap = none; written = some slot ∷ [] }), w))
      × (named slot.kind ≢ externref)
unfolding write_results write_next write_result trap_of val_i32 val_i64 val_f32 val_f64 val_funcref
slot_of (int32 n) ptr w h = (_, refl, λ e. absurd (ground arith))
slot_of (int64 n) ptr w h = (_, refl, λ e. absurd (ground arith))
slot_of (float32 n) ptr w h = (_, refl, λ e. absurd (ground arith))
slot_of (float64 n) ptr w h = (_, refl, λ e. absurd (ground arith))
slot_of (func none) ptr w h = (_, refl, λ e. absurd (ground arith))
slot_of (func (some f)) ptr w h = (_, refl, λ e. absurd (ground arith))
slot_of r ptr w h = absurd (ground arith)

-- A wrapped function whose result has a type that func.go does not name, such as an interface, has
-- the kind externref inferred for it. If such a result holds a number or a `*Func`, the loop over the
-- results writes a slot of another kind.
pub write_results_interface :
    (n : ℕ) (r : Any) (ptr : Option ℕ) (w : World)
    → has_case r ≡ true
    → (infer_func_type (some (record { ins = []; outs = GoType.other n ∷ [] }))
        ≡ ok (record { params = []; results = externref ∷ [] }))
      × ((slot : CVal) × (write_results ptr (r ∷ []) w
            ≡ (ok (record { trap = none; written = some slot ∷ [] }), w))
          × (named slot.kind ≢ externref))
write_results_interface n r ptr w h = (inferred n, slot_of r ptr w h)
