-- ===== src/Enter/Propagation.antt =====
-- What `enterWasm` gives back after wasm has run: a panic of the embedder before a trap, and a trap
-- before an error.
use wasmtime_go.Base.{
  ℕ, ◌≡◌, refl, ap, ◌∙◌, true, false, length, get_elem?-append_length, Option, none, some,
  get_elem?, set, get_elem?-append_left, [], ◌∷◌, ◌++◌, get_elem?-set_self, lt_of_get_elem?,
}
use wasmtime_go.Go.Value.{nil}
use wasmtime_go.Go.Outcome.{Exec, ok, panic}
use wasmtime_go.World
use wasmtime_go.World.{World, StoreData}
use wasmtime_go.Store.{Storelike, get_data_in_store}
use wasmtime_go.Enter.{trapped, Ran, is_nil, wrap_trap, choose_error, propagate, enter_wasm}

-- No C trap and no `*Trap`, or a `*Trap` object that holds the C trap and will free it.
abbrev pub Owned : World → Option ℕ → Option ℕ → Type 0
Owned u none none = Unit {0}
Owned u (some p) (some t) = get_elem? u.traps t ≡ some (record { ptr = some p; finalizer = true })
Owned u _ _ = ⊥

-- A step of `enterWasm` that makes an object for the trap, and leaves the stores alone.
wrap_trap_returns :
    (p : Option ℕ) (w : World)
    → (r : Option ℕ) × (u : World) × (wrap_trap p w ≡ (ok r, u))
      × (u.store_data ≡ w.store_data)
      × Owned u p r
unfolding wrap_trap
wrap_trap_returns none w = (none, w, refl, refl, tt)
wrap_trap_returns (some ptr) w =
    (some (length w.traps), _, refl, refl, get_elem?-append_length w.traps _)

wrap_trap-none : (w : World) → wrap_trap none w ≡ (ok none, w)
unfolding wrap_trap
wrap_trap-none w = refl

wrap_trap-some :
    (p : ℕ) (w : World)
    → wrap_trap (some p) w ≡ (
      ok (some (length w.traps)),
      record w { traps = w.traps ++ record { ptr = some p; finalizer = true } ∷ [] },
    )
unfolding wrap_trap
wrap_trap-some p w = refl

module _ {A : Type 0} (d : ℕ) (wrapped : Option ℕ) (ran : Ran A) (u : World) (sd : StoreData)
    (here : get_elem? u.store_data d ≡ some sd) where
  propagate_panicked :
      is_nil sd.last_panic ≡ false
      → propagate (some d) wrapped ran u ≡ (
        panic sd.last_panic,
        record u { store_data = set u.store_data d (record sd { last_panic = nil }) },
      )
  unfolding propagate
  propagate_panicked h = rw here (rw h refl)

  propagate_quiet :
      is_nil sd.last_panic ≡ true
      → propagate (some d) wrapped ran u ≡ (ok (choose_error wrapped ran.error, ran.output), u)
  unfolding propagate
  propagate_quiet h = rw here (rw h refl)

module _ {A : Type 0} (s : Storelike) (wasm : Exec World (Ran A)) (w t : World) (d : ℕ)
    (ran : Ran A) (sd : StoreData) (attached : get_data_in_store s w ≡ (ok (some d), w))
    (runs : wasm w ≡ (ok ran, t)) (here : get_elem? t.store_data d ≡ some sd) where
  enter_wasm-propagate :
      (r : Option ℕ) (u : World)
      → wrap_trap ran.trap t ≡ (ok r, u)
      → enter_wasm s wasm w ≡ propagate (some d) r ran u
  unfolding enter_wasm
  enter_wasm-propagate r u e = rw attached (rw runs (rw e refl))

  -- If a host function has left a panic with the store by the time wasm is done, `enterWasm` panics
  -- with it, whatever wasm returned, and the store holds no panic afterwards.
  pub enter_wasm_panicked :
      is_nil sd.last_panic ≡ false
      → (u : World) × (enter_wasm s wasm w ≡ (panic sd.last_panic, u))
        × (get_elem? u.store_data d ≡ some (record sd { last_panic = nil }))
  enter_wasm_panicked panicked =
      let (r, u, wraps, same, _) = wrap_trap_returns ran.trap t in
      let here' : get_elem? u.store_data d ≡ some sd = ap (λ l. get_elem? l d) same ∙ here in
      (
        record u { store_data = set u.store_data d (record sd { last_panic = nil }) },
        enter_wasm-propagate r u wraps ∙ propagate_panicked d r ran u sd here' panicked,
        get_elem?-set_self u.store_data d _ (lt_of_get_elem? u.store_data d sd here'),
      )

  -- If wasm ran, in a store that is in the table, and left no panic with it, `enterWasm` returns
  -- what wasm wrote, with a new `*Trap` as the error if wasm trapped, and otherwise with the error
  -- of wasm, if any; the stores' data is as wasm left it.
  pub enter_wasm_returns :
      is_nil sd.last_panic ≡ true
      → (r : Option ℕ) × (u : World) × (enter_wasm s wasm w
          ≡ (ok (choose_error r ran.error, ran.output), u))
        × Owned u ran.trap r
        × (u.store_data ≡ t.store_data)
  enter_wasm_returns quiet =
      let (r, u, wraps, same, owned) = wrap_trap_returns ran.trap t in
      let here' : get_elem? u.store_data d ≡ some sd = ap (λ l. get_elem? l d) same ∙ here in
      (r, u, enter_wasm-propagate r u wraps ∙ propagate_quiet d r ran u sd here' quiet, owned, same)

  -- If wasm trapped and left no panic, the error is a `*Trap` that was not there before, so the
  -- objects that were stay as they were.
  pub enter_wasm_trapped :
      is_nil sd.last_panic ≡ true
      → (p : ℕ) → ran.trap ≡ some p
      → (old : ℕ) (v : World.Trap) → get_elem? t.traps old ≡ some v
      → (r : ℕ) × (u : World) × (enter_wasm s wasm w ≡ (ok (some (trapped r), ran.output), u))
        × (get_elem? u.traps r ≡ some (record { ptr = some p; finalizer = true }))
        × (get_elem? u.traps old ≡ some v)
  enter_wasm_trapped quiet p trap_p old v before =
      let made : World.Trap = record { ptr = some p; finalizer = true } in
      let u = record t { traps = t.traps ++ made ∷ [] } in
      (
        length t.traps,
        u,
        enter_wasm-propagate (some (length t.traps)) u (rw trap_p (wrap_trap-some p t))
            ∙ propagate_quiet d (some (length t.traps)) ran u sd here quiet,
        get_elem?-append_length t.traps made,
        get_elem?-append_left t.traps (made ∷ []) old (lt_of_get_elem? t.traps old v before)
            ∙ before,
      )

  -- If wasm did not trap and left no panic, nothing changes.
  pub enter_wasm_untrapped :
      is_nil sd.last_panic ≡ true
      → ran.trap ≡ none
      → enter_wasm s wasm w ≡ (ok (choose_error none ran.error, ran.output), t)
  enter_wasm_untrapped quiet no_trap =
      enter_wasm-propagate none t (rw no_trap (wrap_trap-none t))
      ∙ propagate_quiet d none ran t sd here quiet
