-- ===== src/Registry/Locked/Rest.antt =====
-- What a goroutine has left to do of an operation under the lock of a global table.
use wasmtime_go.Base.{
  ℕ, ◌≡◌, refl, sym, ap, ◌∙◌, ◌≢◌, ◌⊎◌, inl, inr, ℕ_discrete, Bool, true, false, Option, none, some,
  arith,
}
use wasmtime_go.Go.Outcome.{Outcome, ok, panic, return, ◌>>=◌, ◌>>◌}
use wasmtime_go.Registry
use wasmtime_go.Registry.{Registry, update}
use wasmtime_go.Slab
use wasmtime_go.Registry.Locked.{
  Unlocking, deferred, last, Op, Answer, Pc, insert, remove, lookup, key, nothing, atomic, keep_key,
  give_back, advance, move,
}

module _ {V : Type 0} where
  abbrev pub is_inside : Pc V → Bool
  is_inside Pc.outside = false
  is_inside (Pc.waiting op) = false
  is_inside pc = true

  -- What is left of an operation, in one step.
  abbrev pub rest_of : Pc V → Registry V → Option (Op V × (Outcome (Answer V) × Registry V))
  rest_of Pc.outside r = none
  rest_of (Pc.waiting op) r = none
  rest_of (Pc.entered op) r = some (op, atomic op r)
  rest_of (Pc.allocated u v k) r =
      some (insert u v, (ok (key k), record r { entries = update k (some v) r.entries }))
  rest_of (Pc.deleted k) r =
      some (remove k, (Registry.in_slab (λ s. Slab.deallocate s k) >> return nothing) r)
  rest_of (Pc.leaving op o) r = some (op, (o, r))
  rest_of (Pc.stuck v x) r = some (insert last v, (panic x, r))

  rest_of-keep_key :
      (u : Unlocking) (v : V) (r : Registry V) (q : Outcome ℕ × Slab.Slab)
      → rest_of (keep_key u v r q).0 (keep_key u v r q).1
        ≡ some (
          insert u v,
          ((λ s. (q.0, record s { slab = q.1 }))
                >>= (λ k. Registry.write k (some v) >> return k)
                >>= (λ k. return (key k)))
              r,
        )
  rest_of-keep_key u v r (ok k, s) = refl
  rest_of-keep_key deferred v r (panic x, s) = refl
  rest_of-keep_key last v r (panic x, s) = refl

  rest_of-give_back :
      (k : ℕ) (r : Registry V) (q : Outcome (Unit {0}) × Slab.Slab)
      → rest_of (give_back k r q).0 (give_back k r q).1
        ≡ some (remove k, ((λ s. (q.0, record s { slab = q.1 })) >> return nothing) r)
  rest_of-give_back k r (ok u, s) = refl
  rest_of-give_back k r (panic x, s) = refl

  pub rest_of-advance :
      (pc : Pc V) (r : Registry V) → rest_of (advance pc r).0 (advance pc r).1 ≡ rest_of pc r
  unfolding advance atomic Registry.insert Registry.remove
  rest_of-advance Pc.outside r = refl
  rest_of-advance (Pc.waiting op) r = refl
  rest_of-advance (Pc.entered (insert u v)) r = rest_of-keep_key u v r (Slab.allocate r.slab)
  rest_of-advance (Pc.entered (remove k)) r = refl
  rest_of-advance (Pc.entered (lookup k)) r = refl
  rest_of-advance (Pc.allocated u v k) r = refl
  rest_of-advance (Pc.deleted k) r = rest_of-give_back k r (Slab.deallocate r.slab k)
  rest_of-advance (Pc.leaving op o) r = refl
  rest_of-advance (Pc.stuck v x) r = refl

  is_inside-keep_key :
      (u : Unlocking) (v : V) (r : Registry V) (q : Outcome ℕ × Slab.Slab)
      → is_inside (keep_key u v r q).0 ≡ true
  is_inside-keep_key u v r (ok k, s) = refl
  is_inside-keep_key deferred v r (panic x, s) = refl
  is_inside-keep_key last v r (panic x, s) = refl

  is_inside-give_back :
      (k : ℕ) (r : Registry V) (q : Outcome (Unit {0}) × Slab.Slab)
      → is_inside (give_back k r q).0 ≡ true
  is_inside-give_back k r (ok u, s) = refl
  is_inside-give_back k r (panic x, s) = refl

  pub is_inside-advance : (pc : Pc V) (r : Registry V) → is_inside (advance pc r).0 ≡ is_inside pc
  unfolding advance
  is_inside-advance Pc.outside r = refl
  is_inside-advance (Pc.waiting op) r = refl
  is_inside-advance (Pc.entered (insert u v)) r = is_inside-keep_key u v r (Slab.allocate r.slab)
  is_inside-advance (Pc.entered (remove k)) r = refl
  is_inside-advance (Pc.entered (lookup k)) r = refl
  is_inside-advance (Pc.allocated u v k) r = refl
  is_inside-advance (Pc.deleted k) r = is_inside-give_back k r (Slab.deallocate r.slab k)
  is_inside-advance (Pc.leaving op o) r = refl
  is_inside-advance (Pc.stuck v x) r = refl

  pub move_self : (i : ℕ) (pc : Pc V) (at : ℕ → Pc V) → move i pc at i ≡ pc
  move_self i pc at = ground arith

  pub move_other : (i j : ℕ) (pc : Pc V) (at : ℕ → Pc V) → j ≢ i → move i pc at j ≡ at j
  move_other i j pc at ne = ground arith

  pub inside_moved :
      (i j : ℕ) (pc : Pc V) (at : ℕ → Pc V)
      → is_inside (move i pc at j) ≡ true
      → ((j ≡ i) × (is_inside pc ≡ true)) ⊎ ((j ≢ i) × (is_inside (at j) ≡ true))
  inside_moved i j pc at h = elim (ℕ_discrete j i) [
    | yes e ↦ inl (e, sym (ap is_inside (ap (move i pc at) e ∙ move_self i pc at)) ∙ h)
    | no ne ↦ inr (ne, sym (ap is_inside (move_other i j pc at ne)) ∙ h)
  ]

  pub advance_outside : (pc : Pc V) (r : Registry V) → is_inside pc ≡ false → (advance pc r).1 ≡ r
  unfolding advance
  advance_outside Pc.outside r h = refl
  advance_outside (Pc.waiting op) r h = refl
  advance_outside pc r h = absurd (ground arith)
