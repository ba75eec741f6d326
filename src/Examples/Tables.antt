-- ===== src/Examples/Tables.antt =====
-- A global table at a concrete sequence of calls.
use wasmtime_go.Base.{ℕ, ◌≡◌, refl, List, [], ◌∷◌}
use wasmtime_go.Go.Outcome.{ok}
use wasmtime_go.Registry
use wasmtime_go.Registry.Client.{Op, insert, remove, lookup, run, replay, is_proper}
use wasmtime_go.Registry.Client.Refinement.{run-replay}

-- The key of the first insertion is freed, and given to the third one.
abbrev calls : List (Op ℕ)
calls = insert 7 ∷ insert 8 ∷ remove 0 ∷ insert 9 ∷ lookup 1 ∷ lookup 2 ∷ []

run-replay_example : (run [] calls Registry.empty).0 ≡ ok (replay [] calls)
unfolding is_proper
run-replay_example = run-replay calls refl
