-- ===== src/Linker/Definitions.antt =====
-- Functions that a linker defines, where wasmtime takes the definition and where it does not.
use wasmtime_go.Base.{ℕ, ◌^◌, ◌<◌, ◌≡◌, refl, ◌∙◌, Option, none, some, length, arith}
use wasmtime_go.Base.Word.{shl1}
use wasmtime_go.Go.Outcome.{ok}
use wasmtime_go.Kind.{FuncType}
use wasmtime_go.Registry.Laws.{IsValid, insert-Inserts, remove-Removes}
use wasmtime_go.World.{World}
use wasmtime_go.Store.{insert_func_new, get_func_new, go_finalize_func_new}
use wasmtime_go.Store.Index.{engine_index}
use wasmtime_go.Store.Finds.{entry_of, if_even}
use wasmtime_go.Store.FuncNew.{get-insert_func_new_engine}
use wasmtime_go.Enter.{failed}
use wasmtime_go.Linker.{LinkerApi, error_of, func_new}

-- `FuncNew` hands wasmtime an env that leads to the function, through any store and through none, in
-- the state in which it calls wasmtime. Whatever wasmtime answers to that env, `FuncNew` returns its
-- error, if there is one, and leaves the state that wasmtime leaves. The table must be valid, with fewer
-- than 2 ^ 62 slots.
pub func_new_found :
    (api : LinkerApi) (answer : ℕ → World → Option ℕ) (later : ℕ → World → World) (ty : FuncType)
    (f : ℕ) (w : World) (ptr : Option ℕ)
    → IsValid w.engine_new
    → length w.engine_new.slab.list < 2 ^ 62
    → ((idx : ℕ) (t : World) → api.define_func ty 0 idx t ≡ (ok (answer idx t), later idx t))
    → (idx : ℕ) × (t : World) × (insert_func_new none ty f w ≡ (ok idx, t))
      × (func_new api ty f w ≡ (ok (error_of (answer idx t)), later idx t))
      × (get_func_new ptr idx t ≡ (ok (some (entry_of ty f)), t))
unfolding func_new
func_new_found api answer later ty f w ptr v small answers =
    let (idx, t, done, even, found) = get-insert_func_new_engine w ty f ptr v small in
    (idx, t, done, rw done (rw (answers idx t) refl), found)

-- An insertion into the engine's table, and the finalization of what was inserted.
record Undone (w : World) (ty : FuncType) (f : ℕ) : Type 0 where
  idx : ℕ
  inserted : World
  after : World
  inserts : insert_func_new none ty f w ≡ (ok idx, inserted)
  finalizes : go_finalize_func_new idx inserted ≡ (ok tt, after)
  entries : (i : ℕ) → after.engine_new.entries i ≡ w.engine_new.entries i
  valid : IsValid after.engine_new

Undone-insert_func_new :
    (w : World) (ty : FuncType) (f : ℕ)
    → IsValid w.engine_new
    → length w.engine_new.slab.list < 2 ^ 62
    → Undone w ty f
unfolding insert_func_new go_finalize_func_new
Undone-insert_func_new w ty f v small =
    let e = entry_of ty f in
    let (k, r, done, i) = insert-Inserts w.engine_new e v in
    let (even, back) = engine_index k (omega (arith, i.bounded)) in
    let here : r.entries k ≡ some e = i.read k ∙ ground arith in
    let (s, undone, removed) = remove-Removes r k e i.valid here in
    let t = record w { engine_new = r } in
    record {
      idx = shl1 k;
      inserted = t;
      after = record w { engine_new = s };
      inserts = rw done refl;
      finalizes = if_even (shl1 k) _ _ t even ∙ rw back (rw undone refl);
      entries = λ j. ground (arith, removed.read j, i.read j, i.fresh);
      valid = removed.valid;
    }

-- If wasmtime refuses the definition, for which it finalizes the env and gives an error, `FuncNew`
-- returns this error, and the table of functions of the engine holds exactly what it held before,
-- under every key, and is valid. The table must be valid before, with fewer than 2 ^ 62 slots.
pub func_new_refused :
    (api : LinkerApi) (ty : FuncType) (f e : ℕ) (w : World)
    → IsValid w.engine_new
    → length w.engine_new.slab.list < 2 ^ 62
    → ((idx : ℕ) (t : World)
        → api.define_func ty 0 idx t ≡ (ok (some e), (go_finalize_func_new idx t).1))
    → (u : World) × (func_new api ty f w ≡ (ok (some (failed e)), u))
      × ((i : ℕ) → u.engine_new.entries i ≡ w.engine_new.entries i)
      × IsValid u.engine_new
unfolding func_new
func_new_refused api ty f e w v small refuses =
    let x = Undone-insert_func_new w ty f v small in
    (
      x.after,
      rw x.inserts (rw (refuses x.idx x.inserted) (rw x.finalizes refl)),
      x.entries,
      x.valid,
    )
