-- ===== src/Call/Identity.antt =====
-- A call of the wasm function that returns its argument.
use wasmtime_go.Base.{
  ℕ, ◌+◌, ◌%◌, ◌^◌, ◌<◌, ◌≡◌, refl, ap, ◌∙◌, true, Option, none, some, List, [], ◌∷◌, arith, length,
  get_elem?, ◌==◌, if◌then◌else◌,
}
use wasmtime_go.Go.Value.{
  CVal, Any, nil, int, int32, int64, float32, float64, func, trap, caller, vals, text, other,
}
use wasmtime_go.Go.Outcome.{Exec, ok, return}
use wasmtime_go.Kind.{ValKind, FuncType, i32, i64, f32, f64, funcref, externref}
use wasmtime_go.World.{World, StoreData}
use wasmtime_go.Store.{Storelike, context}
use wasmtime_go.Registry.Laws.{IsValid}
use wasmtime_go.Val.{mk_val, val_externref, get}
use wasmtime_go.Val.Externref.{Bears, val_externref-Bears}
use wasmtime_go.Enter.Propagation.{enter_wasm_untrapped}
use wasmtime_go.Store.Finds.{get_data_in_store_store}
use wasmtime_go.Enter.{Ran, is_nil}
use wasmtime_go.Call.{ready, convert, convert_all, collect, finish_call, call}

-- What a call of the identity on this kind is to return for this argument, for the arguments that
-- stand for a value of the kind. An `int` is wrapped to the kind's width.
abbrev pub returned : ValKind → Any → Option Any
returned i32 (int n) = some (int32 (n % 2 ^ 32))
returned i64 (int n) = some (int64 n)
returned i32 (int32 n) = some (int32 n)
returned i64 (int64 n) = some (int64 n)
returned f32 (float32 n) = some (float32 n)
returned f64 (float64 n) = some (float64 n)
returned funcref (func (some f)) = if f.store_id == 0 then none else some (func (some f))
returned externref nil = some nil
returned externref (trap t) = some (trap t)
returned externref (caller c) = some (caller c)
returned externref (vals vs) = some (vals vs)
returned externref (text s) = some (text s)
returned externref (other m n) = some (other m n)
returned _ _ = none

-- The wasm function.
abbrev pub identity : List CVal → ℕ → Exec World (Ran (List CVal))
identity params n = return (record { trap = none; error = none; output = params })

-- The argument as a C value.
record Converts (k : ValKind) (v r : Any) (w : World) : Type 0 where
  made : CVal
  after : World
  done : convert (k ∷ []) 0 v w ≡ (ok (ready made), after)
  gives : get (mk_val made) after ≡ (ok r, after)
  stores : after.stores ≡ w.stores
  same : after.store_data ≡ w.store_data

Converts-pure :
    (k : ValKind) (v r : Any) (w : World) (c : CVal)
    → convert (k ∷ []) 0 v w ≡ (ok (ready c), w)
    → get (mk_val c) w ≡ (ok r, w)
    → Converts k v r w
Converts-pure k v r w c e g = record {
  made = c;
  after = w;
  done = e;
  gives = g;
  stores = refl;
  same = refl;
}

Converts-externref :
    (v r : Any) (w : World)
    → v ≡ r
    → Bears v w
    → ((c : CVal) (u : World)
        → val_externref v w ≡ (ok (mk_val c), u)
        → convert (externref ∷ []) 0 v w ≡ (ok (ready c), u))
    → Converts externref v r w
Converts-externref v r w p x step = record {
  made = x.made;
  after = x.after;
  done = step x.made x.after x.done;
  gives = x.gives ∙ ap (λ a. (ok a, x.after)) p;
  stores = x.stores;
  same = x.same;
}

converts_lem :
    (k : ValKind) (v r : Any) (w : World)
    → returned k v ≡ some r
    → IsValid w.externrefs
    → length w.externrefs.slab.list + 1 < 2 ^ 64
    → Converts k v r w
unfolding convert get
converts_lem i32 (int n) r w e h small = Converts-pure _ _ _ w _ refl (ground arith)
converts_lem i64 (int n) r w e h small = Converts-pure _ _ _ w _ refl (ground arith)
converts_lem i32 (int32 n) r w e h small = Converts-pure _ _ _ w _ refl (ground arith)
converts_lem i64 (int64 n) r w e h small = Converts-pure _ _ _ w _ refl (ground arith)
converts_lem f32 (float32 n) r w e h small = Converts-pure _ _ _ w _ refl (ground arith)
converts_lem f64 (float64 n) r w e h small = Converts-pure _ _ _ w _ refl (ground arith)
converts_lem funcref (func (some f)) r w e h small = Converts-pure _ _ _ w _ refl (ground arith)
converts_lem externref nil r w e h small =
    Converts-externref nil r w (ground arith) (val_externref-Bears _ w h small) (λ c u d. rw d refl)
converts_lem externref (trap t) r w e h small =
    Converts-externref (trap t) r w (ground arith) (val_externref-Bears _ w h small)
      (λ c u d. rw d refl)
converts_lem externref (caller t) r w e h small =
    Converts-externref (caller t) r w (ground arith) (val_externref-Bears _ w h small)
      (λ c u d. rw d refl)
converts_lem externref (vals t) r w e h small =
    Converts-externref (vals t) r w (ground arith) (val_externref-Bears _ w h small)
      (λ c u d. rw d refl)
converts_lem externref (text t) r w e h small =
    Converts-externref (text t) r w (ground arith) (val_externref-Bears _ w h small)
      (λ c u d. rw d refl)
converts_lem externref (other m n) r w e h small =
    Converts-externref (other m n) r w (ground arith) (val_externref-Bears _ w h small)
      (λ c u d. rw d refl)
converts_lem k v r w e h small = absurd (ground arith)

-- A call of the identity on a kind returns the argument, if the argument stands for a value of the
-- kind: a Go number or a function that is not nil; an `int` for an integer kind, which is cut to
-- the kind's width; and, for `externref`, nil, a `*Trap`, a `*Caller`, a `[]Val`, a string, or a
-- value of a type that func.go does not name. The call is made through a store that is in the table
-- and holds no panic, with a valid table of `externref`s that has room below 2 ^ 64.
pub call-identity :
    (env d : ℕ) (k : ValKind) (v r : Any) (w : World) (sd : StoreData)
    → returned k v ≡ some r
    → w.stores.entries env ≡ some d
    → get_elem? w.store_data d ≡ some sd
    → is_nil sd.last_panic ≡ true
    → IsValid w.externrefs
    → length w.externrefs.slab.list + 1 < 2 ^ 64
    → let ty : FuncType = record { params = k ∷ []; results = k ∷ [] } in
      (u : World) × (call (Storelike.store env) ty identity (v ∷ []) w
        ≡ (ok (record { value = r; error = none }), u))
unfolding call convert_all finish_call collect context
call-identity env d k v r w sd e attached here quiet h small =
    let x = converts_lem k v r w e h small in
    let here' : get_elem? x.after.store_data d ≡ some sd = ap (λ l. get_elem? l d) x.same ∙ here in
    let attached' : x.after.stores.entries env ≡ some d =
      ap (λ s. s.entries env) x.stores ∙ attached in
    let done =
      enter_wasm_untrapped (Storelike.store env) (identity (x.made ∷ []) 1) x.after x.after d
        (record { trap = none; error = none; output = x.made ∷ [] }) sd
        (get_data_in_store_store env d x.after attached') refl here' quiet refl in
    (x.after, rw x.done (rw done (rw x.gives refl)))
