-- ===== src/Store/Finds.antt =====
-- Where an index of `getFuncNew` leads, as a relation on the state, and what keeps it.
use wasmtime_go.Base.{
  ℕ, ◌^◌, ◌<◌, ◌≡◌, ◌≢◌, refl, sym, ap, ◌∙◌, ◌⊎◌, inl, inr, Option, none, some, [], ◌∷◌, ◌++◌,
  arith, ◌==◌, if◌then◌else◌, length, get_elem?, set, get_elem?-set_self, get_elem?-set_ne,
  get_elem?-append_left, lt_of_get_elem?, Option-cases, ℕ_discrete,
}
use wasmtime_go.Base.Word.{shl1, shr1, and1, or1}
use wasmtime_go.Go.Outcome.{Outcome, Exec, ok}
use wasmtime_go.Kind.{FuncType}
use wasmtime_go.Registry.{Registry}
use wasmtime_go.World.{World, StoreData, FuncNewEntry}
use wasmtime_go.Store.{Storelike, context, get_data_in_store, insert_func_new, get_func_new}

abbrev pub entry_of : FuncType → ℕ → FuncNewEntry
entry_of ty callback = record { callback = callback; results = ty.results }

-- The store data with one more function.
abbrev pub with_func_new : StoreData → FuncNewEntry → StoreData
with_func_new sd e = record sd { func_new = sd.func_new ++ e ∷ [] }

abbrev pub with_data : World → ℕ → StoreData → World
with_data w d sd = record w { store_data = set w.store_data d sd }

pub insert_func_new_local :
    (w : World) (d : ℕ) (sd : StoreData) (ty : FuncType) (callback : ℕ)
    → get_elem? w.store_data d ≡ some sd
    → insert_func_new (some d) ty callback w ≡ (
      ok (or1 (shl1 (length sd.func_new))),
      with_data w d (with_func_new sd (entry_of ty callback)),
    )
unfolding insert_func_new
insert_func_new_local w d sd ty callback h = ground arith

pub insert_func_new_missing :
    (w : World) (d : ℕ) (ty : FuncType) (callback : ℕ)
    → get_elem? w.store_data d ≡ none
    → (insert_func_new (some d) ty callback w).1 ≡ w
unfolding insert_func_new
insert_func_new_missing w d ty callback h = ground arith

-- Where an index leads: to the engine-wide table, or to the functions of one store.
abbrev pub Finds : World → Option ℕ → ℕ → FuncNewEntry → Type 0
Finds w ptr idx e =
    ((and1 idx ≡ 0) × (w.engine_new.entries (shr1 idx) ≡ some e))
    ⊎ ((and1 idx ≡ 1)
        × ((d : ℕ) × (sd : StoreData) × (ptr ≡ some d)
            × (get_elem? w.store_data d ≡ some sd)
            × (get_elem? sd.func_new (shr1 idx) ≡ some e)))

pub Finds-get :
    (w : World) (ptr : Option ℕ) (idx : ℕ) (e : FuncNewEntry)
    → Finds w ptr idx e
    → get_func_new ptr idx w ≡ (ok (some e), w)
unfolding get_func_new
Finds-get w ptr idx e (inl (even, at)) = ground arith
Finds-get w ptr idx e (inr (odd, (d, sd, is, here, at))) = ground arith

pub get-Finds :
    (w : World) (ptr : Option ℕ) (idx : ℕ) (e : FuncNewEntry)
    → get_func_new ptr idx w ≡ (ok (some e), w)
    → Finds w ptr idx e
unfolding get_func_new
get-Finds w none idx e h = inl (ground arith)
get-Finds w (some d) idx e h = elim (ℕ_discrete (and1 idx) 0) [
  | yes even ↦ inl (ground arith)
  | no odd ↦ elim (Option-cases (get_elem? w.store_data d)) [
    | inl missing ↦ absurd (ground arith)
    | inr (sd, here) ↦ inr (omega arith, (d, sd, refl, here, ground arith))
  ]
]

pub Finds-with_func_new :
    (w : World) (d : ℕ) (sd : StoreData) (new : FuncNewEntry) (ptr : Option ℕ) (idx : ℕ)
    (e : FuncNewEntry)
    → get_elem? w.store_data d ≡ some sd
    → Finds w ptr idx e
    → Finds (with_data w d (with_func_new sd new)) ptr idx e
Finds-with_func_new w d sd new ptr idx e h (inl f) = inl f
Finds-with_func_new w d sd new ptr idx e h (inr (odd, (c, sc, is, here, at))) =
    elim (ℕ_discrete d c) [
      | yes same ↦
          let within = lt_of_get_elem? w.store_data d sd h in
          let first : get_elem? sd.func_new (shr1 idx) ≡ some e = cc in
          let first_within = lt_of_get_elem? sd.func_new (shr1 idx) e first in
          let new_sd = with_func_new sd new in
          let stored = get_elem?-set_self w.store_data d new_sd within in
          let kept = get_elem?-append_left sd.func_new (new ∷ []) (shr1 idx) first_within in
          inr (
            odd,
            (
              c,
              new_sd,
              is,
              ap (get_elem? (set w.store_data d new_sd)) (sym same) ∙ stored,
              kept ∙ first,
            ),
          )
      | no other ↦ inr (odd, (c, sc, is, get_elem?-set_ne w.store_data d c _ other ∙ here, at))
    ]

pub get_func_new_even :
    (w : World) (ptr : Option ℕ) (idx : ℕ)
    → and1 idx ≡ 0
    → get_func_new ptr idx w ≡ (ok (w.engine_new.entries (shr1 idx)), w)
unfolding get_func_new
get_func_new_even w ptr idx even = ground arith

pub even_shr1-ne :
    (i j : ℕ) → and1 i ≡ 0 → and1 j ≡ 0 → i < 2 ^ 64 → j < 2 ^ 64 → j ≢ i → shr1 j ≢ shr1 i
even_shr1-ne i j even even' small small' ne e = ground arith

pub ok_some :
    {o : Option FuncNewEntry} {e : FuncNewEntry} {v w : World}
    → ◌≡◌ {A = Outcome (Option FuncNewEntry) × World} (ok o, v) (ok (some e), w)
    → o ≡ some e
ok_some h = cc

pub if_even :
    {A : Type 0} (idx : ℕ) (m n : Exec World A) (w : World)
    → and1 idx ≡ 0
    → (if and1 idx == 0 then m else n) w ≡ m w
if_even idx m n w even = ground arith

-- The engine-wide table may change as long as it keeps the entry.
pub Finds-engine_new :
    (w : World) (r : Registry FuncNewEntry) (ptr : Option ℕ) (idx : ℕ) (e : FuncNewEntry)
    → (and1 idx ≡ 0 → w.engine_new.entries (shr1 idx) ≡ some e → r.entries (shr1 idx) ≡ some e)
    → Finds w ptr idx e
    → Finds (record w { engine_new = r }) ptr idx e
Finds-engine_new w r ptr idx e keeps (inl (even, at)) = inl (even, keeps even at)
Finds-engine_new w r ptr idx e keeps (inr f) = inr f

-- A store leads to its own data.
pub get_data_in_store_store :
    (env d : ℕ) (w : World)
    → w.stores.entries env ≡ some d
    → get_data_in_store (Storelike.store env) w ≡ (ok (some d), w)
unfolding get_data_in_store context
get_data_in_store_store env d w h = rw h refl
