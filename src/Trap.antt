-- ===== src/Trap.antt =====
-- trap.go: `Trap` objects. A `*Trap` is the index of its object in `World.traps`.
use wasmtime_go.Base.{
  ℕ, String, true, false, Option, none, some, [], ◌∷◌, ◌++◌, length, get_elem?, set,
}
use wasmtime_go.Go.Outcome.{Exec, return, gets, modify, or_nil, ◌>>=◌, ◌>>◌}
use wasmtime_go.World
use wasmtime_go.World.{World, Host}

-- mkTrap: a new object that owns the C trap
unfoldable pub mk_trap : ℕ → Exec World ℕ
mk_trap ptr w =
    return (length w.traps)
      (record w { traps = w.traps ++ record { ptr = some ptr; finalizer = true } ∷ [] })

-- NewTrap
unfoldable pub new_trap : Host → String → Exec World ℕ
unfolding mk_trap
new_trap host message = do ptr ← gets (host.trap_new message); mk_trap ptr

-- `*trap`, and a write to it
abbrev pub load_trap : ℕ → Exec World World.Trap
load_trap t = do objects ← gets (λ w. w.traps); or_nil (get_elem? objects t)

abbrev pub write_trap : ℕ → World.Trap → Exec World (Unit {0})
write_trap t v = modify (λ w. record w { traps = set w.traps t v })

-- runtime.SetFinalizer(trap, nil); ret := trap._ptr; trap._ptr = nil; return ret
unfoldable pub take_ptr : ℕ → Exec World (Option ℕ)
take_ptr t = do
  v ← load_trap t
  write_trap t (record { ptr = none; finalizer = false })
  return v.ptr

-- runtime.SetFinalizer(trap, nil); return trap.ptr()
unfoldable pub release_ptr : ℕ → Exec World (Option ℕ)
release_ptr t = do v ← load_trap t; write_trap t (record v { finalizer = false }); return v.ptr
