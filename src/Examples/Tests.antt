-- ===== src/Examples/Tests.antt =====
-- Short runs of the model, among them the run of slab_test.go.
use wasmtime_go.Base.{ℕ, ◌≡◌, refl, some, [], ◌∷◌}
use wasmtime_go.Go.Value.{text}
use wasmtime_go.Go.Outcome.{Exec, ok, panic, return, ◌>>=◌, ◌>>◌}
use wasmtime_go.Kind.{i32, i64, externref, unknown, to_string}
use wasmtime_go.Registry.{insert, remove}
use wasmtime_go.World.{World, initial}
use wasmtime_go.Slab.{Slab, empty, allocate, deallocate}
use wasmtime_go.Val.{val_i32, val_externref, get, get_i64}
use wasmtime_go.Store.{new_store, go_finalize_store}
use wasmtime_go.Infer.{infer_func_type, type_to_val_type}
use wasmtime_go.Examples.{callback, world}

-- slab_test.go
abbrev slab_run : Exec Slab (ℕ × ℕ × ℕ × ℕ)
slab_run = do
  a ← allocate
  b ← allocate
  _ ← (λ s. deallocate s 0)
  c ← allocate
  d ← allocate
  return (a, b, c, d)

slab_run_slots : (slab_run empty).0 ≡ ok (0, 1, 0, 2)
unfolding allocate deallocate
slab_run_slots = refl

-- Three stores, of which the first is finalized before the third: it takes the first env again.
abbrev store_run : Exec World (ℕ × ℕ × ℕ)
store_run = do
  a ← new_store 0
  b ← new_store 0
  go_finalize_store a
  c ← new_store 0
  return (a, b, c)

store_run_envs : (store_run initial).0 ≡ ok (0, 1, 0)
unfolding new_store go_finalize_store allocate deallocate insert remove
store_run_envs = refl

externref_run : ((val_externref (text "a") >>= get) world).0 ≡ ok (text "a")
unfolding val_externref get insert allocate
externref_run = refl

wrong_accessor : (get_i64 (val_i32 3) world).0 ≡ panic (text "not an i64")
unfolding get_i64 val_i32
wrong_accessor = refl

callback_type :
    infer_func_type (some callback.signature)
    ≡ ok (record { params = i32 ∷ []; results = i64 ∷ externref ∷ [] })
unfolding infer_func_type type_to_val_type
callback_type = refl

unknown_kind : to_string (unknown 0) ≡ panic (text "unknown kind")
unfolding to_string
unknown_kind = refl
