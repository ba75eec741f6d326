-- ===== src/Store/FuncNew.antt =====
-- The functions that `insertFuncNew` keeps, and what `getFuncNew` finds.
use wasmtime_go.Base.{
  ℕ, ◌^◌, ◌<◌, ◌≡◌, ◌≢◌, refl, sym, ap, ◌∙◌, inl, inr, Option, none, some, arith, length, get_elem?,
  get_elem?-set_self, get_elem?-append_length, lt_of_get_elem?, Option-cases,
}
use wasmtime_go.Base.Word.{shl1, shr1, and1, or1}
use wasmtime_go.Go.Value.{text}
use wasmtime_go.Go.Outcome.{ok, panic}
use wasmtime_go.Kind.{FuncType}
use wasmtime_go.Registry.Laws.{
  IsValid, insert-Inserts, Inserts-keeps, remove-Removes, Removes-keeps,
}
use wasmtime_go.World.{World, StoreData, FuncNewEntry}
use wasmtime_go.Store.{insert_func_new, get_func_new, go_finalize_func_new}
use wasmtime_go.Store.Index.{engine_index, local_index}
use wasmtime_go.Store.Finds.{
  entry_of, with_func_new, with_data, insert_func_new_local, insert_func_new_missing, Finds-get,
  get-Finds, Finds-with_func_new, Finds-engine_new, get_func_new_even, even_shr1-ne, ok_some,
  if_even,
}

-- A function given to a store whose data is there is found in it under the index that the insertion
-- returns, which is odd, if fewer than 2 ^ 62 functions were given to the store before.
pub get-insert_func_new_local :
    (w : World) (d : ℕ) (sd : StoreData) (ty : FuncType) (callback : ℕ)
    → get_elem? w.store_data d ≡ some sd
    → length sd.func_new < 2 ^ 62
    → (idx : ℕ) × (t : World) × (insert_func_new (some d) ty callback w ≡ (ok idx, t))
      × (and1 idx ≡ 1)
      × (get_func_new (some d) idx t ≡ (ok (some (entry_of ty callback)), t))
get-insert_func_new_local w d sd ty callback h small =
    let (odd, back) = local_index (length sd.func_new) small in
    let e = entry_of ty callback in
    let new_sd = with_func_new sd e in
    let t = with_data w d new_sd in
    let idx = or1 (shl1 (length sd.func_new)) in
    let stored = get_elem?-set_self w.store_data d new_sd (lt_of_get_elem? w.store_data d sd h) in
    let last = get_elem?-append_length sd.func_new e in
    (
      idx,
      t,
      insert_func_new_local w d sd ty callback h,
      odd,
      Finds-get t (some d) idx e
          (inr (odd, (d, new_sd, refl, stored, ap (get_elem? new_sd.func_new) back ∙ last))),
    )

-- A function given to no store is found under the index that the insertion returns, which is even,
-- through any store and through none, if the table is valid and its slab has at most 2 ^ 62 - 1
-- slots.
pub get-insert_func_new_engine :
    (w : World) (ty : FuncType) (callback : ℕ) (ptr : Option ℕ)
    → IsValid w.engine_new
    → length w.engine_new.slab.list < 2 ^ 62
    → (idx : ℕ) × (t : World) × (insert_func_new none ty callback w ≡ (ok idx, t))
      × (and1 idx ≡ 0)
      × (get_func_new ptr idx t ≡ (ok (some (entry_of ty callback)), t))
unfolding insert_func_new
get-insert_func_new_engine w ty callback ptr v small =
    let e = entry_of ty callback in
    let (k, r, done, i) = insert-Inserts w.engine_new e v in
    let (even, back) = engine_index k (omega (arith, i.bounded)) in
    let t = record w { engine_new = r } in
    (
      shl1 k,
      t,
      rw done,
      even,
      Finds-get t ptr (shl1 k) e (inl (even, ap r.entries back ∙ i.read k ∙ ground arith)),
    )

-- An insertion, into a store or not, keeps every function that was found before under its index,
-- if the engine-wide table is valid.
pub get_func_new-insert_func_new :
    (w : World) (into ptr : Option ℕ) (ty : FuncType) (callback idx : ℕ) (e : FuncNewEntry)
    → IsValid w.engine_new
    → get_func_new ptr idx w ≡ (ok (some e), w)
    → let t = (insert_func_new into ty callback w).1 in get_func_new ptr idx t ≡ (ok (some e), t)
unfolding insert_func_new
get_func_new-insert_func_new w none ptr ty callback idx e v h =
    let (k, r, done, i) = insert-Inserts w.engine_new (entry_of ty callback) v in
    let t = record w { engine_new = r } in
    rw done (
      Finds-get t ptr idx e (
        Finds-engine_new w r ptr idx e (λ _. Inserts-keeps (shr1 idx) e i)
          (get-Finds w ptr idx e h)))
get_func_new-insert_func_new w (some d) ptr ty callback idx e v h =
    elim (Option-cases (get_elem? w.store_data d)) [
      | inl missing ↦ rw (insert_func_new_missing w d ty callback missing) h
      | inr (sd, here) ↦
          let t = with_data w d (with_func_new sd (entry_of ty callback)) in
          rw (insert_func_new_local w d sd ty callback here) (
            Finds-get t ptr idx e (
              Finds-with_func_new w d sd (entry_of ty callback) ptr idx e here
                (get-Finds w ptr idx e h)))
    ]

-- Finalizing a function of the engine that is found under its index, which is even, does not panic,
-- empties this index, and keeps every function that is found under another index, for any store. The
-- table must be valid, and the indices below 2 ^ 64.
pub get_func_new-go_finalize_func_new :
    (w : World) (ptr : Option ℕ) (idx : ℕ) (e : FuncNewEntry)
    → IsValid w.engine_new
    → and1 idx ≡ 0
    → get_func_new ptr idx w ≡ (ok (some e), w)
    → idx < 2 ^ 64
    → (t : World) × (go_finalize_func_new idx w ≡ (ok tt, t))
      × (get_func_new ptr idx t ≡ (ok none, t))
      × ((other : ℕ) (kept : FuncNewEntry)
          → other < 2 ^ 64
          → other ≢ idx
          → get_func_new ptr other w ≡ (ok (some kept), w)
          → get_func_new ptr other t ≡ (ok (some kept), t))
unfolding go_finalize_func_new
get_func_new-go_finalize_func_new w ptr idx e v even h small =
    let here : w.engine_new.entries (shr1 idx) ≡ some e =
      ok_some (sym (get_func_new_even w ptr idx even) ∙ h) in
    let (r, done, removed) = remove-Removes w.engine_new (shr1 idx) e v here in
    let t = record w { engine_new = r } in
    let gone : r.entries (shr1 idx) ≡ none = ground (arith, removed.read (shr1 idx)) in
    (
      t,
      if_even idx _ _ w even ∙ (rw done),
      get_func_new_even t ptr idx even ∙ ap (λ o. (ok o, t)) gone,
      λ other kept small' ne h'. Finds-get t ptr other kept (
          Finds-engine_new w r ptr other kept
            (λ even' at.
              Removes-keeps (shr1 other) kept removed
                (even_shr1-ne idx other even even' small small' ne) at)
            (get-Finds w ptr other kept h')),
    )

-- Finalizing an index of a store panics and changes nothing.
pub go_finalize_func_new_local :
    (w : World) (idx : ℕ)
    → and1 idx ≡ 1
    → go_finalize_func_new idx w ≡ (panic (text "shouldn't finalize a store-local index"), w)
unfolding go_finalize_func_new
go_finalize_func_new_local w idx odd = ground arith
