-- ===== src/Registry.antt =====
-- The pattern of the global tables `gStoreMap`, `gEngineFuncNew`, `gEngineFuncWrap` (store.go) and
-- `gExternrefMap` (val.go): a map from small integers, whose free keys a slab hands out. Each table
-- has a lock that is held for the whole of an operation, so here an operation is one step; Locked takes
-- it apart.
pub mod Laws
pub mod Client
pub mod Locked
use wasmtime_go.Base.{ℕ, Option, none, some, ◌==◌, if◌then◌else◌}
use wasmtime_go.Go.Outcome.{Exec, return, modify, ◌>>=◌, ◌>>◌, zoom}
use wasmtime_go.Slab
use wasmtime_go.Slab.{Slab}

pub record Registry (V : Type 0) : Type 0 where
  pub slab : Slab
  pub entries : ℕ → Option V

module _ {V : Type 0} where
  -- m[k] = v, and delete(m, k)
  abbrev pub update : ℕ → Option V → (ℕ → Option V) → ℕ → Option V
  update k v m i = if i == k then v else m i

  abbrev pub in_slab : {A : Type 0} → Exec Slab A → Exec (Registry V) A
  in_slab = zoom (λ r. r.slab) (λ s r. record r { slab = s })

  abbrev pub write : ℕ → Option V → Exec (Registry V) (Unit {0})
  write k v = modify (λ r. record r { entries = update k v r.entries })

  unfoldable pub insert : V → Exec (Registry V) ℕ
  insert v = do idx ← in_slab Slab.allocate; write idx (some v); return idx

  unfoldable pub remove : ℕ → Exec (Registry V) (Unit {0})
  remove idx = do write idx none; in_slab (λ s. Slab.deallocate s idx)

abbrev pub empty : {V : Type 0} → Registry V
empty = record { slab = Slab.empty; entries = λ i. none }
