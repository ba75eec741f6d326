-- ===== src/Items/Values.antt =====
-- Go values that a global or a table of wasm keeps.
use wasmtime_go.Base.{ℕ, ◌+◌, ◌^◌, ◌<◌, ◌≡◌, refl, sym, ap, ◌∙◌, Option, none, some, length}
use wasmtime_go.Go.Value.{CVal, Val, Any}
use wasmtime_go.Go.Outcome.{Outcome, Exec, ok, return, ◌>>=◌}
use wasmtime_go.Registry.Laws.{IsValid}
use wasmtime_go.World.{World}
use wasmtime_go.Enter.{GoError}
use wasmtime_go.Store.{Storelike, context}
use wasmtime_go.Val.{mk_val, val_externref, get}
use wasmtime_go.Val.Externref.{Keeps, val_externref_lasts}
use wasmtime_go.Items.{ItemApi, global_set, global_get, table_set, table_get}

-- A Go value that is put in a global, and then read.
abbrev pub set_and_get_global : ItemApi → Storelike → ℕ → Any → Exec World (Option GoError × Any)
set_and_get_global api s g v = do
  x ← val_externref v
  err ← global_set api s g x
  y ← global_get api s g
  seen ← get y
  return (err, seen)

-- The C value of a Go value gives it back as long as the table of `externref`s keeps it.
kept_get :
    (w t u : World) (v : Any) (c : CVal)
    → IsValid w.externrefs
    → length w.externrefs.slab.list + 1 < 2 ^ 64
    → val_externref v w ≡ (ok (mk_val c), t)
    → Keeps t u
    → get (mk_val c) u ≡ (ok v, u)
kept_get w t u v c h small made keeps =
    let (c', t', made', gives) = val_externref_lasts v w h small in
    let made_one : (Outcome Val × World) = (ok (mk_val c), t) in
    let same : (ok (mk_val c'), t') ≡ made_one = sym made' ∙ made in
    let after : t' ≡ t = cc in
    let value : mk_val c' ≡ mk_val c = cc in
    ap (λ x. get x u) (sym value) ∙ gives u (rw after keeps)

-- A Go value that is made an `externref` and set in a global is what `Get` returns for the value of
-- the global, and there is no error, if wasmtime sets the global without an error and then reads the
-- same C value from it, the Go values behind `externref`s are kept, and the store or caller is not
-- closed in between. The table of `externref`s must be valid, with room below 2 ^ 64.
pub set_and_get_global_lem :
    (api : ItemApi) (s : Storelike) (g env : ℕ) (v : Any) (c : CVal) (w t u z : World)
    → IsValid w.externrefs
    → length w.externrefs.slab.list + 1 < 2 ^ 64
    → val_externref v w ≡ (ok (mk_val c), t)
    → context s t ≡ (ok env, t)
    → api.global_set env g c t ≡ (ok none, u)
    → context s u ≡ (ok env, u)
    → api.global_get env g u ≡ (ok c, z)
    → Keeps t z
    → set_and_get_global api s g v w ≡ (ok (none, v), z)
unfolding global_set global_get
set_and_get_global_lem api s g env v c w t u z h small made alive set alive' read keeps =
    rw (made, alive, set, alive', read, kept_get w t z v c h small made keeps) refl

-- A Go value that is put in an element of a table, and then read.
abbrev pub set_and_get_element :
    ItemApi → Storelike → ℕ → ℕ → Any → Exec World (Option GoError × Option GoError × Any)
set_and_get_element api s table idx v = do
  x ← val_externref v
  err ← table_set api s table idx x
  found ← table_get api s table idx
  seen ← get found.value
  return (err, found.error, seen)

-- A Go value that is made an `externref` and set in a table is what `Get` returns for the element,
-- and there is no error, if wasmtime sets the element without an error and then reads the same C
-- value from it, the Go values behind `externref`s are kept, and the store or caller is not closed in
-- between. The table of `externref`s must be valid, with room below 2 ^ 64.
pub set_and_get_element_lem :
    (api : ItemApi) (s : Storelike) (table idx env : ℕ) (v : Any) (c : CVal) (w t u z : World)
    → IsValid w.externrefs
    → length w.externrefs.slab.list + 1 < 2 ^ 64
    → val_externref v w ≡ (ok (mk_val c), t)
    → context s t ≡ (ok env, t)
    → api.table_set env table idx c t ≡ (ok none, u)
    → context s u ≡ (ok env, u)
    → api.table_get env table idx u ≡ (ok (some c), z)
    → Keeps t z
    → set_and_get_element api s table idx v w ≡ (ok (none, none, v), z)
unfolding table_set table_get
set_and_get_element_lem api s table idx env v c w t u z h small made alive set alive' read keeps =
    rw (made, alive, set, alive', read, kept_get w t z v c h small made keeps) refl
