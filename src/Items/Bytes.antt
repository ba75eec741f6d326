-- ===== src/Items/Bytes.antt =====
-- The bytes of a memory that Go reads.
use wasmtime_go.Base.{ℕ, ◌^◌, ◌≡◌, refl, length, leb, Bool-cases, inl, inr, if◌then◌else◌}
use wasmtime_go.Go.Value.{text}
use wasmtime_go.Go.Outcome.{ok, panic}
use wasmtime_go.World.{World}
use wasmtime_go.Store.{Storelike, context}
use wasmtime_go.Bytes.Exact.{take_all}
use wasmtime_go.Items.{ItemApi, unsafe_data}

-- Through a store or a caller that is not closed, where wasmtime's size of a memory is the number of
-- its bytes, UnsafeData returns all of the bytes if there are fewer than 2 ^ 32, and panics otherwise,
-- so also for a memory of 65536 pages, the largest that wasm allows. Nothing changes either way.
pub unsafe_data_lem :
    (api : ItemApi) (s : Storelike) (mem env : ℕ) (w : World)
    → context s w ≡ (ok env, w)
    → api.memory_data_size env mem w ≡ length (api.memory_data env mem w)
    → unsafe_data api s mem w ≡ (
        if leb (2 ^ 32) (length (api.memory_data env mem w))
        then (panic (text "memory is too big"), w)
        else (ok (api.memory_data env mem w), w))
unfolding unsafe_data
unsafe_data_lem api s mem env w alive sized =
    let bytes = api.memory_data env mem w in
    elim (Bool-cases (leb (2 ^ 32) (length bytes))) [
      | inl big ↦ rw (alive, sized, big) refl
      | inr small ↦ rw (alive, sized, small, alive, take_all bytes) refl
    ]
