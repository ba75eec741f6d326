-- ===== src/Examples/Externs.antt =====
-- extern.go at a concrete item, and a lookup by a `Caller` that has ended.
use wasmtime_go.Base.{◌≡◌, refl, none, some, [], ◌∷◌}
use wasmtime_go.Go.Outcome.{ok}
use wasmtime_go.World.{World}
use wasmtime_go.Extern.{memory_as_extern, get_export}
use wasmtime_go.Examples.{world}

abbrev ended : World
ended = record world { callers = none ∷ [] }

lookup_after_end : get_export (λ env. some (memory_as_extern 4)) 0 ended ≡ (ok none, ended)
unfolding get_export
lookup_after_end = refl
