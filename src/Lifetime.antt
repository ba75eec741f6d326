-- ===== src/Lifetime.antt =====
-- Any history of the operations of store.go and val.go on the shared state, as a relation.
pub mod Invariant
use wasmtime_go.Base.{
  ℕ, ◌+◌, ◌<◌, ◌≤◌, ◌≡◌, refl, ap, sym, ◌∙◌, Option, none, some, [], ◌∷◌, ◌++◌, arith, length,
  length-append, length-set, set, get_elem?, Option-cases, inl, inr,
}
use wasmtime_go.Base.Word.{and1, shr1, dec}
use wasmtime_go.Go.Value.{Any}
use wasmtime_go.Go.Outcome.{ok}
use wasmtime_go.Kind.{FuncType}
use wasmtime_go.Registry.Laws.{
  IsValid, empty-IsValid, insert-Inserts, remove-Removes, Removes-keeps,
}
use wasmtime_go.World.{World, Callback, StoreData, FuncNewEntry, FuncWrapEntry, initial}
use wasmtime_go.Store.{
  fresh_data, new_store, go_finalize_store, insert_func_new, insert_func_wrap, go_finalize_func_new,
  go_finalize_func_wrap,
}
use wasmtime_go.Val.{val_externref, go_finalize_externref}

-- One operation. Finalizers run for what is in its table, as wasmtime runs them once. `elsewhere` is
-- any other code: it leaves the tables, and writes to the objects but never takes one away.
pub data Step (w : World) : World → Type 0 where
  makes_store : (engine : ℕ) → Step w (new_store engine w).1
  drops_store : (env d : ℕ) → w.stores.entries env ≡ some d → Step w (go_finalize_store env w).1
  inserts_new : (ptr : Option ℕ) (ty : FuncType) (f : ℕ) → Step w (insert_func_new ptr ty f w).1
  inserts_wrap : (ptr : Option ℕ) (f : Callback) → Step w (insert_func_wrap ptr f w).1
  drops_new :
      (idx : ℕ) (e : FuncNewEntry)
      → and1 idx ≡ 0
      → w.engine_new.entries (shr1 idx) ≡ some e
      → Step w (go_finalize_func_new idx w).1
  drops_wrap :
      (idx : ℕ) (e : FuncWrapEntry)
      → and1 idx ≡ 0
      → w.engine_wrap.entries (shr1 idx) ≡ some e
      → Step w (go_finalize_func_wrap idx w).1
  makes_externref : (v : Any) → Step w (val_externref v w).1
  drops_externref :
      (env : ℕ) (v : Any)
      → w.externrefs.entries (dec env) ≡ some v
      → Step w (go_finalize_externref env w).1
  elsewhere :
      (t : World)
      → t.stores ≡ w.stores
      → t.engine_new ≡ w.engine_new
      → t.engine_wrap ≡ w.engine_wrap
      → t.externrefs ≡ w.externrefs
      → length w.store_data ≤ length t.store_data
      → Step w t

pub data History : World → Type 0 where
  start : History initial
  step : (w t : World) → History w → Step w t → History t

-- The four tables are valid; every store leads to an object; and no two stores lead to the same.
pub record IsWellFormed (w : World) : Type 0 where
  pub stores : IsValid w.stores
  pub engine_new : IsValid w.engine_new
  pub engine_wrap : IsValid w.engine_wrap
  pub externrefs : IsValid w.externrefs
  pub within : (env d : ℕ) → w.stores.entries env ≡ some d → d < length w.store_data
  pub apart : (a b d : ℕ) → w.stores.entries a ≡ some d → w.stores.entries b ≡ some d → a ≡ b
