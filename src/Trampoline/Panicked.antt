-- ===== src/Trampoline/Panicked.antt =====
-- What a trampoline answers when the callback panicked: the panic stays with the store, and wasm
-- gets a trap of its own.
use wasmtime_go.Base.{
  ℕ, ◌≡◌, refl, true, false, some, [], ◌∷◌, ◌++◌, length, get_elem?, set, get_elem?-set_self,
  get_elem?-append_length, lt_of_get_elem?,
}
use wasmtime_go.Go.Value.{Any}
use wasmtime_go.Go.Outcome.{ok}
use wasmtime_go.World
use wasmtime_go.World.{World, Host, StoreData}
use wasmtime_go.Trap.{new_trap, release_ptr}
use wasmtime_go.Trampoline.{reply_panicked}

-- The store keeps the panic, and C gets a trap that no Go object will free.
pub record Panicked (v : Any) (t : World) (d : ℕ) (sd : StoreData) (p : ℕ) (u : World)
    : Type 0 where
  pub kept : get_elem? u.store_data d ≡ some (record sd { last_panic = v })
  pub callers : u.callers ≡ t.callers
  pub given_away :
      get_elem? u.traps (length t.traps) ≡ some (record { ptr = some p; finalizer = false })

pub reply_panicked_lem :
    (host : Host) (d : ℕ) (v : Any) (t : World) (sd : StoreData)
    → get_elem? t.store_data d ≡ some sd
    → (p : ℕ) × (u : World) × (reply_panicked host (some d) v t
        ≡ (ok (record { trap = some p; written = [] }), u))
      × Panicked v t d sd p u
unfolding reply_panicked new_trap release_ptr
reply_panicked_lem host d v t sd here =
    let t' = record t { store_data = set t.store_data d (record sd { last_panic = v }) } in
    let p = host.trap_new "go panicked" t' in
    let made : World.Trap = record { ptr = some p; finalizer = true } in
    let kept : World.Trap = record { ptr = some p; finalizer = false } in
    let n = length t.traps in
    (
      p,
      record t' { traps = set (t.traps ++ made ∷ []) n kept },
      rw here (rw (get_elem?-append_length t.traps made) refl),
      record {
        kept = get_elem?-set_self t.store_data d _ (lt_of_get_elem? t.store_data d sd here);
        callers = refl;
        given_away =
            get_elem?-set_self (t.traps ++ made ∷ []) n kept (
              lt_of_get_elem? (t.traps ++ made ∷ []) n made (get_elem?-append_length t.traps made));
      },
    )
