-- ===== src/Extern/Exports.antt =====
-- The loop of `Instance.Exports` ends after the last export.
use wasmtime_go.Base.{
  zero, suc, ℕ, ◌+◌, ◌<◌, ◌≡◌, ◌∙◌, refl, ap, Option, none, some, List, [], ◌∷◌, length, get_elem?,
  arith,
}
use wasmtime_go.Go.Outcome.{ok}
use wasmtime_go.World.{World}
use wasmtime_go.Store.{Storelike, context}
use wasmtime_go.Extern.{CExtern, exports_from, instance_exports}

module _ (s : Storelike) (w : World) (env : ℕ) (alive : context s w ≡ (ok env, w))
    (nth : ℕ → ℕ → Option CExtern) where
  exports_from-rest :
      (items : List CExtern) (fuel i : ℕ)
      → ((j : ℕ) → nth env (i + j) ≡ get_elem? items j)
      → length items < fuel
      → exports_from s nth fuel i w ≡ (ok (some items), w)
  unfolding exports_from
  exports_from-rest items zero i h enough = absurd (omega arith)
  exports_from-rest [] (suc fuel) i h enough =
      let end : nth env i ≡ none = ap (nth env) (omega arith) ∙ h 0 in rw (alive, end) refl
  exports_from-rest (item ∷ items) (suc fuel) i h enough =
      let here : nth env i ≡ some item = ap (nth env) (omega arith) ∙ h 0 in
      let rest =
        exports_from-rest items fuel (i + 1) (λ j. ap (nth env) (omega arith) ∙ h (suc j))
          (omega arith) in
      rw (alive, here, rest) refl

  -- Through a store or a caller that is not closed, where wasmtime gives an instance's exports by their
  -- index, and none at an index past them, the loop of Exports ends, within one more turn than there
  -- are exports, and returns all of them in order. Nothing changes.
  pub instance_exports_all :
      (items : List CExtern) (fuel : ℕ)
      → ((i : ℕ) → nth env i ≡ get_elem? items i)
      → length items < fuel
      → instance_exports s nth fuel w ≡ (ok (some items), w)
  unfolding instance_exports
  instance_exports_all items fuel h enough =
      exports_from-rest items fuel 0 (λ j. ap (nth env) (omega arith) ∙ h j) enough
