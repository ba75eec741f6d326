-- ===== src/Store/FuncWrap.antt =====
-- The functions that `insertFuncWrap` keeps, and what `getFuncWrap` finds.
use wasmtime_go.Base.{
  ℕ, ◌^◌, ◌<◌, ◌≡◌, refl, ap, ◌∙◌, Option, none, some, [], ◌∷◌, ◌++◌, arith, length, get_elem?, set,
  get_elem?-set_self, get_elem?-append_length, lt_of_get_elem?,
}
use wasmtime_go.Base.Word.{shl1, shr1, and1, or1}
use wasmtime_go.Go.Outcome.{ok}
use wasmtime_go.Registry.Laws.{IsValid, insert-Inserts}
use wasmtime_go.World.{World, StoreData, FuncWrapEntry, Callback}
use wasmtime_go.Store.{insert_func_wrap, get_func_wrap}
use wasmtime_go.Store.Index.{engine_index, local_index}

abbrev pub wrapped : Callback → FuncWrapEntry
wrapped f = record { callback = f }

-- The state after the insertion into a store.
abbrev pub with_func_wrap : World → ℕ → StoreData → Callback → World
with_func_wrap w d sd f = record w {
  store_data = set w.store_data d (record sd { func_wrap = sd.func_wrap ++ wrapped f ∷ [] });
}

pub insert_func_wrap_local :
    (w : World) (d : ℕ) (sd : StoreData) (f : Callback)
    → get_elem? w.store_data d ≡ some sd
    → insert_func_wrap (some d) f w
      ≡ (ok (or1 (shl1 (length sd.func_wrap))), with_func_wrap w d sd f)
unfolding insert_func_wrap
insert_func_wrap_local w d sd f h = ground arith

get_func_wrap_odd :
    (w : World) (d idx : ℕ) (sd : StoreData) (e : FuncWrapEntry)
    → and1 idx ≡ 1
    → get_elem? w.store_data d ≡ some sd
    → get_elem? sd.func_wrap (shr1 idx) ≡ some e
    → get_func_wrap (some d) idx w ≡ (ok (some e), w)
unfolding get_func_wrap
get_func_wrap_odd w d idx sd e odd here at = ground arith

get_func_wrap_even :
    (w : World) (ptr : Option ℕ) (idx : ℕ) (o : Option FuncWrapEntry)
    → and1 idx ≡ 0
    → w.engine_wrap.entries (shr1 idx) ≡ o
    → get_func_wrap ptr idx w ≡ (ok o, w)
unfolding get_func_wrap
get_func_wrap_even w ptr idx o even at = ground arith

-- A Go function given to a store whose data is there, with fewer than 2 ^ 62 before it, is found in
-- it under the index that the insertion returns, which is odd.
pub get-insert_func_wrap_local :
    (w : World) (d : ℕ) (sd : StoreData) (f : Callback)
    → get_elem? w.store_data d ≡ some sd
    → length sd.func_wrap < 2 ^ 62
    → (idx : ℕ) × (t : World) × (insert_func_wrap (some d) f w ≡ (ok idx, t))
      × (and1 idx ≡ 1)
      × (get_func_wrap (some d) idx t ≡ (ok (some (wrapped f)), t))
get-insert_func_wrap_local w d sd f h small =
    let (odd, back) = local_index (length sd.func_wrap) small in
    let new_sd : StoreData = record sd { func_wrap = sd.func_wrap ++ wrapped f ∷ [] } in
    let t = with_func_wrap w d sd f in
    let stored = get_elem?-set_self w.store_data d new_sd (lt_of_get_elem? w.store_data d sd h) in
    let last = get_elem?-append_length sd.func_wrap (wrapped f) in
    let idx = or1 (shl1 (length sd.func_wrap)) in
    (
      idx,
      t,
      insert_func_wrap_local w d sd f h,
      odd,
      get_func_wrap_odd t d idx new_sd (wrapped f) odd stored
          (ap (get_elem? new_sd.func_wrap) back ∙ last),
    )

-- A Go function given to no store is found under an even index, through any store and through none,
-- if the table is valid and its slab has fewer than 2 ^ 62 slots.
pub get-insert_func_wrap_engine :
    (w : World) (f : Callback) (ptr : Option ℕ)
    → IsValid w.engine_wrap
    → length w.engine_wrap.slab.list < 2 ^ 62
    → (idx : ℕ) × (t : World) × (insert_func_wrap none f w ≡ (ok idx, t))
      × (and1 idx ≡ 0)
      × (get_func_wrap ptr idx t ≡ (ok (some (wrapped f)), t))
unfolding insert_func_wrap
get-insert_func_wrap_engine w f ptr v small =
    let (k, r, done, i) = insert-Inserts w.engine_wrap (wrapped f) v in
    let (even, back) = engine_index k (omega (arith, i.bounded)) in
    let t = record w { engine_wrap = r } in
    (
      shl1 k,
      t,
      rw done refl,
      even,
      get_func_wrap_even t ptr (shl1 k) (some (wrapped f)) even
          (ap r.entries back ∙ i.read k ∙ ground arith),
    )
