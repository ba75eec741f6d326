-- ===== src/Lifetime/Invariant.antt =====
-- The invariant of the shared state, for each operation and for any history of them.
use wasmtime_go.Base.{
  ℕ, ◌≤◌, ◌≡◌, refl, ap, sym, ◌∙◌, Option, none, some, [], ◌∷◌, arith, length, length-append,
  length-set, get_elem?, Option-cases, inl, inr,
}
use mathlib.Core.Path.{subst}
use wasmtime_go.Base.Word.{and1, shr1, dec}
use wasmtime_go.Go.Value.{Any}
use wasmtime_go.Kind.{FuncType}
use wasmtime_go.Registry.Laws.{IsValid, empty-IsValid, insert-Inserts, remove-Removes}
use wasmtime_go.World.{World, Callback, FuncNewEntry, FuncWrapEntry, initial}
use wasmtime_go.Store.{
  fresh_data, new_store, go_finalize_store, insert_func_new, insert_func_wrap, go_finalize_func_new,
  go_finalize_func_wrap,
}
use wasmtime_go.Store.Finds.{if_even}
use wasmtime_go.Val.{val_externref, go_finalize_externref}
use wasmtime_go.Val.Externref.{val_externref_world}
use wasmtime_go.Lifetime.{
  Step, makes_store, drops_store, inserts_new, inserts_wrap, drops_new, drops_wrap, makes_externref,
  drops_externref, elsewhere, History, start, step, IsWellFormed,
}

initial-IsWellFormed : IsWellFormed initial
initial-IsWellFormed = record {
  stores = empty-IsValid;
  engine_new = empty-IsValid;
  engine_wrap = empty-IsValid;
  externrefs = empty-IsValid;
  within = λ env d e. absurd (ground arith);
  apart = λ a b d e f. absurd (ground arith);
}

makes_store-IsWellFormed :
    (engine : ℕ) (w : World) → IsWellFormed w → IsWellFormed (new_store engine w).1
unfolding new_store
makes_store-IsWellFormed engine w h =
    let (k, r, done, i) = insert-Inserts w.stores (length w.store_data) h.stores in
    rw done (record {
      stores = i.valid;
      engine_new = h.engine_new;
      engine_wrap = h.engine_wrap;
      externrefs = h.externrefs;
      within = λ env d e.
          ground (
            arith,
            i.read env,
            h.within env d,
            length-append w.store_data (fresh_data engine ∷ []),
          );
      apart = λ a b d e f.
          ground (arith, i.read a, i.read b, h.within a d, h.within b d, h.apart a b d);
    })

drops_store-IsWellFormed :
    (env d : ℕ) (w : World)
    → w.stores.entries env ≡ some d
    → IsWellFormed w
    → IsWellFormed (go_finalize_store env w).1
unfolding go_finalize_store
drops_store-IsWellFormed env d w e h =
    let (r, done, removed) = remove-Removes w.stores env d h.stores e in
    rw done (record {
      stores = removed.valid;
      engine_new = h.engine_new;
      engine_wrap = h.engine_wrap;
      externrefs = h.externrefs;
      within = λ a c f. ground (arith, removed.read a, h.within a c);
      apart = λ a b c f g. ground (arith, removed.read a, removed.read b, h.apart a b c);
    })

-- A step that leaves the stores, and the tables valid.
same_stores :
    (w t : World)
    → t.stores ≡ w.stores
    → length w.store_data ≤ length t.store_data
    → IsValid t.engine_new
    → IsValid t.engine_wrap
    → IsValid t.externrefs
    → IsWellFormed w
    → IsWellFormed t
same_stores w t same longer new wrap externs h = record {
  stores = subst IsValid (sym same) h.stores;
  engine_new = new;
  engine_wrap = wrap;
  externrefs = externs;
  within =
      λ env d e. omega (arith, longer, h.within env d (ap (λ s. s.entries env) (sym same) ∙ e));
  apart = λ a b d e f.
      h.apart a b d (ap (λ s. s.entries a) (sym same) ∙ e) (ap (λ s. s.entries b) (sym same) ∙ f);
}

inserts_new-IsWellFormed :
    (ptr : Option ℕ) (ty : FuncType) (f : ℕ) (w : World)
    → IsWellFormed w
    → IsWellFormed (insert_func_new ptr ty f w).1
unfolding insert_func_new
inserts_new-IsWellFormed none ty f w h =
    let (k, r, done, i) =
      insert-Inserts w.engine_new (record { callback = f; results = ty.results }) h.engine_new in
    rw done (
      same_stores w (record w { engine_new = r }) refl (omega arith) i.valid h.engine_wrap
        h.externrefs h)
inserts_new-IsWellFormed (some d) ty f w h = elim (Option-cases (get_elem? w.store_data d)) [
  | inl missing ↦ rw missing h
  | inr (sd, here) ↦ rw here (
      same_stores w _ refl (omega (arith, length-set w.store_data d _)) h.engine_new h.engine_wrap
        h.externrefs h)
]

inserts_wrap-IsWellFormed :
    (ptr : Option ℕ) (f : Callback) (w : World)
    → IsWellFormed w
    → IsWellFormed (insert_func_wrap ptr f w).1
unfolding insert_func_wrap
inserts_wrap-IsWellFormed none f w h =
    let (k, r, done, i) = insert-Inserts w.engine_wrap (record { callback = f }) h.engine_wrap in
    rw done (
      same_stores w (record w { engine_wrap = r }) refl (omega arith) h.engine_new i.valid
        h.externrefs h)
inserts_wrap-IsWellFormed (some d) f w h = elim (Option-cases (get_elem? w.store_data d)) [
  | inl missing ↦ rw missing h
  | inr (sd, here) ↦ rw here (
      same_stores w _ refl (omega (arith, length-set w.store_data d _)) h.engine_new h.engine_wrap
        h.externrefs h)
]

drops_new-IsWellFormed :
    (idx : ℕ) (e : FuncNewEntry) (w : World)
    → and1 idx ≡ 0
    → w.engine_new.entries (shr1 idx) ≡ some e
    → IsWellFormed w
    → IsWellFormed (go_finalize_func_new idx w).1
unfolding go_finalize_func_new
drops_new-IsWellFormed idx e w even here h =
    let (r, done, removed) = remove-Removes w.engine_new (shr1 idx) e h.engine_new here in
    rw (if_even idx _ _ w even) (
      rw done (
        same_stores w (record w { engine_new = r }) refl (omega arith) removed.valid h.engine_wrap
          h.externrefs h))

drops_wrap-IsWellFormed :
    (idx : ℕ) (e : FuncWrapEntry) (w : World)
    → and1 idx ≡ 0
    → w.engine_wrap.entries (shr1 idx) ≡ some e
    → IsWellFormed w
    → IsWellFormed (go_finalize_func_wrap idx w).1
unfolding go_finalize_func_wrap
drops_wrap-IsWellFormed idx e w even here h =
    let (r, done, removed) = remove-Removes w.engine_wrap (shr1 idx) e h.engine_wrap here in
    rw (if_even idx _ _ w even) (
      rw done (
        same_stores w (record w { engine_wrap = r }) refl (omega arith) h.engine_new removed.valid
          h.externrefs h))

drops_externref-IsWellFormed :
    (env : ℕ) (v : Any) (w : World)
    → w.externrefs.entries (dec env) ≡ some v
    → IsWellFormed w
    → IsWellFormed (go_finalize_externref env w).1
unfolding go_finalize_externref
drops_externref-IsWellFormed env v w here h =
    let (r, done, removed) = remove-Removes w.externrefs (dec env) v h.externrefs here in
    rw done (
      same_stores w (record w { externrefs = r }) refl (omega arith) h.engine_new h.engine_wrap
        removed.valid h)

makes_externref-IsWellFormed :
    (v : Any) (w : World) → IsWellFormed w → IsWellFormed (val_externref v w).1
makes_externref-IsWellFormed v w h =
    let (t, done) = val_externref_world v w h.externrefs in
    rw done (
      same_stores w (record w { externrefs = t.0 }) refl (omega arith) h.engine_new h.engine_wrap
        t.1 h)

Step-IsWellFormed : (w t : World) → Step w t → IsWellFormed w → IsWellFormed t
Step-IsWellFormed w _ (makes_store engine) h = makes_store-IsWellFormed engine w h
Step-IsWellFormed w _ (drops_store env d e) h = drops_store-IsWellFormed env d w e h
Step-IsWellFormed w _ (inserts_new ptr ty f) h = inserts_new-IsWellFormed ptr ty f w h
Step-IsWellFormed w _ (inserts_wrap ptr f) h = inserts_wrap-IsWellFormed ptr f w h
Step-IsWellFormed w _ (drops_new idx e even here) h = drops_new-IsWellFormed idx e w even here h
Step-IsWellFormed w _ (drops_wrap idx e even here) h = drops_wrap-IsWellFormed idx e w even here h
Step-IsWellFormed w _ (makes_externref v) h = makes_externref-IsWellFormed v w h
Step-IsWellFormed w _ (drops_externref env v here) h = drops_externref-IsWellFormed env v w here h
Step-IsWellFormed w t (elsewhere _ s n p x longer) h =
    same_stores w t s longer (subst IsValid (sym n) h.engine_new)
      (subst IsValid (sym p) h.engine_wrap) (subst IsValid (sym x) h.externrefs) h

-- In every state that the operations on stores, host functions and `externref`s can reach, with other
-- code in between that leaves the four tables and takes no object away, and finalizers run only for
-- what is in their table, the four tables are valid, every store leads to an object, and no two
-- stores lead to the same one.
pub History-IsWellFormed : {w : World} → History w → IsWellFormed w
History-IsWellFormed start = initial-IsWellFormed
History-IsWellFormed (step w t h s) = Step-IsWellFormed w t s (History-IsWellFormed h)
