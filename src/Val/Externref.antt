-- ===== src/Val/Externref.antt =====
-- Go values behind `externref`: making, reading and finalizing them.
use wasmtime_go.Base.{ℕ, ◌+◌, ◌^◌, ◌<◌, ◌≡◌, ◌≢◌, refl, sym, ap, ◌∙◌, none, some, arith, length}
use wasmtime_go.Base.Word.{inc, dec, dec-inc}
use wasmtime_go.Go.Value.{Tag, Payload, CVal, Val, Any, nil}
use wasmtime_go.Go.Outcome.{ok}
use wasmtime_go.Registry.{Registry}
use wasmtime_go.Registry.Laws.{
  IsValid, insert-Inserts, Inserts-keeps, remove-Removes, Removes-keeps,
}
use wasmtime_go.World.{World}
use wasmtime_go.Val.{mk_val, make, store_externref, val_externref, get, go_finalize_externref}

-- The C value of an `externref` to the object with this env.
abbrev pub handle : ℕ → Val
handle env = make Tag.externref (Payload.externref (some env))

-- What wasm can reach under an env.
abbrev pub Reaches : World → ℕ → Any → Type 0
Reaches w env v = w.externrefs.entries (dec env) ≡ some v

Reaches-get : (w : World) (env : ℕ) (v : Any) → Reaches w env v → get (handle env) w ≡ (ok v, w)
unfolding get
Reaches-get w env v h = ground arith

missing_get :
    (w : World) (env : ℕ) → w.externrefs.entries (dec env) ≡ none → get (handle env) w ≡ (ok nil, w)
unfolding get
missing_get w env h = ground arith

store_externref_lem :
    (w : World) (v : Any)
    → IsValid w.externrefs
    → length w.externrefs.slab.list + 1 < 2 ^ 64
    → (env : ℕ) × (t : World) × (store_externref v w ≡ (ok (handle env), t))
      × (env ≢ 0)
      × Reaches t env v
      × IsValid t.externrefs
unfolding store_externref
store_externref_lem w v h small =
    let (k, r, done, i) = insert-Inserts w.externrefs v h in
    let k_small : k < 2 ^ 64 = omega (arith, i.bounded) in
    (
      inc k,
      record w { externrefs = r },
      rw done,
      omega (arith, i.bounded),
      ap r.entries (dec-inc k k_small) ∙ i.read k ∙ ground arith,
      i.valid,
    )

-- What `ValExternref` returns for a Go value: the null `externref` for nil, and otherwise a handle
-- whose pointer is not null.
abbrev pub Handles : Any → Val → Type 0
Handles nil x = x ≡ make Tag.externref Payload.zeroed
Handles v x = (env : ℕ) × (x ≡ handle env) × (env ≢ 0)

-- A Go value that is made an `externref` is what `Get` returns for the result. The null `externref`
-- stands for nil, and any other value gets a pointer that is not null. The table must be valid, with
-- room below 2 ^ 64, and it stays valid.
pub get-val_externref :
    (w : World) (v : Any)
    → IsValid w.externrefs
    → length w.externrefs.slab.list + 1 < 2 ^ 64
    → (x : Val) × (t : World) × (val_externref v w ≡ (ok x, t))
      × (get x t ≡ (ok v, t))
      × Handles v x
      × IsValid t.externrefs
unfolding val_externref
get-val_externref w nil h small =
    (make Tag.externref Payload.zeroed, w, refl, unfold get in refl, refl, h)
get-val_externref w v h small =
    let (env, t, done, ne, reaches, valid) = store_externref_lem w v h small in
    (handle env, t, done, Reaches-get t env v reaches, (env, refl, ne), valid)

val_externref_keeps :
    (w : World) (u v : Any) (env : ℕ)
    → IsValid w.externrefs
    → Reaches w env v
    → Reaches (val_externref u w).1 env v
unfolding val_externref store_externref
val_externref_keeps w nil v env h r = r
val_externref_keeps w u v env h r =
    let (k, t, done, i) = insert-Inserts w.externrefs u h in rw done (Inserts-keeps (dec env) v i r)

-- Making another `externref` does not change what `Get` returns for a handle whose value is in the
-- table, if the table is valid.
pub get-handle-val_externref :
    (w : World) (u v : Any) (env : ℕ)
    → IsValid w.externrefs
    → Reaches w env v
    → let t = (val_externref u w).1 in get (handle env) t ≡ (ok v, t)
get-handle-val_externref w u v env h r =
    Reaches-get (val_externref u w).1 env v (val_externref_keeps w u v env h r)

-- Finalizing an `externref` whose value is in the table, which must be valid, does not panic, keeps
-- the table valid, lets go of the value, so that `Get` returns nil for its handle, and does not
-- change what it returns for any other handle whose value is in the table.
pub get-handle-go_finalize_externref :
    (w : World) (env : ℕ) (v : Any)
    → IsValid w.externrefs
    → Reaches w env v
    → (t : World) × (go_finalize_externref env w ≡ (ok tt, t))
      × (get (handle env) t ≡ (ok nil, t))
      × ((other : ℕ) (u : Any)
          → Reaches w other u
          → dec other ≢ dec env
          → get (handle other) t ≡ (ok u, t))
      × IsValid t.externrefs
unfolding go_finalize_externref
get-handle-go_finalize_externref w env v h r =
    let (e, done, removed) = remove-Removes w.externrefs (dec env) v h r in
    let t = record w { externrefs = e } in
    (
      t,
      rw done,
      missing_get t env (removed.read (dec env) ∙ ground arith),
      λ other u r' ne. Reaches-get t other u (Removes-keeps (dec other) u removed ne r'),
      removed.valid,
    )

-- `ValExternref` makes a value of the kind externref and touches no more than its table.
pub val_externref_makes :
    (v : Any) (w : World)
    → IsValid w.externrefs
    → (of : Payload) × (u : World) × (val_externref v w ≡ (ok (make Tag.externref of), u))
      × IsValid u.externrefs
      × (u.store_data ≡ w.store_data)
unfolding val_externref store_externref
val_externref_makes nil w h = (Payload.zeroed, w, refl, h, refl)
val_externref_makes v w h =
    let (k, t, done, i) = insert-Inserts w.externrefs v h in
    (Payload.externref (some (inc k)), record w { externrefs = t }, rw done refl, i.valid, refl)

-- The parts of the state that `ValExternref` does not touch.
val_externref_same :
    (v : Any) (w u : World) (x : Val)
    → IsValid w.externrefs
    → val_externref v w ≡ (ok x, u)
    → (u.stores ≡ w.stores) × (u.store_data ≡ w.store_data)
unfolding val_externref store_externref
val_externref_same nil w u x h e =
    let p : w ≡ u = ap (λ q. q.1) e in (ap (λ q. q.stores) (sym p), ap (λ q. q.store_data) (sym p))
val_externref_same v w u x h e =
    let (k, t, done, i) = insert-Inserts w.externrefs v h in
    let p : record w { externrefs = t } ≡ u = ap (λ q. q.1) (rw done at e) in
    (ap (λ q. q.stores) (sym p), ap (λ q. q.store_data) (sym p))

-- The C value that `ValExternref` makes.
pub record Bears (v : Any) (w : World) : Type 0 where
  pub made : CVal
  pub after : World
  pub done : val_externref v w ≡ (ok (mk_val made), after)
  pub gives : get (mk_val made) after ≡ (ok v, after)
  pub stores : after.stores ≡ w.stores
  pub same : after.store_data ≡ w.store_data

-- A value that `Handles` describes is never `Val{}`.
Handles-raw : (v : Any) (x : Val) → Handles v x → (c : CVal) × (x ≡ mk_val c)
Handles-raw nil x h = (_, h)
Handles-raw v x (env, e, ne) = (_, e)

pub val_externref-Bears :
    (v : Any) (w : World)
    → IsValid w.externrefs
    → length w.externrefs.slab.list + 1 < 2 ^ 64
    → Bears v w
val_externref-Bears v w h small =
    let (x, u, done, gives, handles, valid) = get-val_externref w v h small in
    let (c, raw) = Handles-raw v x handles in
    let (stores, same) = val_externref_same v w u x h done in
    record {
      made = c;
      after = u;
      done = done ∙ ap (λ y. (ok y, u)) raw;
      gives = ap (λ y. get y u) (sym raw) ∙ gives;
      stores = stores;
      same = same;
    }

-- The state after `ValExternref`, which differs in the table of `externref`s at most.
pub val_externref_world :
    (v : Any) (w : World)
    → IsValid w.externrefs
    → (t : ((r : Registry Any) × IsValid r)) × ((val_externref v w).1
        ≡ record w { externrefs = t.0 })
unfolding val_externref store_externref
val_externref_world nil w h = ((w.externrefs, h), refl)
val_externref_world v w h =
    let (k, t, done, i) = insert-Inserts w.externrefs v h in ((t, i.valid), rw done refl)

-- A state in which every Go value behind an `externref` is still the same.
abbrev pub Keeps : World → World → Type 0
Keeps t u = (i : ℕ) (v : Any) → t.externrefs.entries i ≡ some v → u.externrefs.entries i ≡ some v

pub val_externref_lasts :
    (v : Any) (w : World)
    → IsValid w.externrefs
    → length w.externrefs.slab.list + 1 < 2 ^ 64
    → (c : CVal) × (t : World) × (val_externref v w ≡ (ok (mk_val c), t))
      × ((u : World) → Keeps t u → get (mk_val c) u ≡ (ok v, u))
unfolding val_externref
val_externref_lasts nil w h small = (_, w, refl, λ u keeps. unfold get in refl)
val_externref_lasts v w h small =
    let (env, t, done, ne, reaches, valid) = store_externref_lem w v h small in
    (_, t, done, λ u keeps. Reaches-get u env v (keeps (dec env) v reaches))
