-- ===== src/Examples/Goroutines.antt =====
-- Two goroutines that insert in the same table: the second one waits for the lock of the first.
use wasmtime_go.Base.{ℕ, ◌≡◌, refl, true, none, some, [], ◌∷◌}
use wasmtime_go.Slab.{allocate}
use wasmtime_go.Slab.Bounded.{empty-Bounded}
use wasmtime_go.Registry
use wasmtime_go.Registry.{Registry}
use wasmtime_go.Registry.Locked.{
  deferred, last, Op, Pc, Machine, Step, History, insert, key, calls, locks, runs, unlocks, start,
  step, advance, move, resting,
}
use wasmtime_go.Registry.Locked.Rest.{is_inside}
use wasmtime_go.Registry.Locked.Linear.{Runs, History-is_linear}
use wasmtime_go.Registry.Locked.Release.{ran, History-unlocks}
use wasmtime_go.Go.Outcome.{ok}

abbrev table : Registry ℕ
table = Registry.empty

abbrev calling : ℕ → Op ℕ → Machine ℕ → Machine ℕ
calling i op m = record m { at = move i (Pc.waiting op) m.at }

abbrev locking : ℕ → Op ℕ → Machine ℕ → Machine ℕ
locking i op m = record m { holder = some i; at = move i (Pc.entered op) m.at }

-- The first goroutine is behind Lock, and the second one waits.
abbrev one_inside : Machine ℕ
one_inside =
    locking 0 (insert last 7)
      (calling 1 (insert deferred 8) (calling 0 (insert last 7) (resting table)))

abbrev one_inside-History : History table one_inside
one_inside-History =
    step _ _
      (step _ _ (step _ _ start (calls 0 (insert last 7) refl)) (calls 1 (insert deferred 8) refl))
      (locks 0 (insert last 7) refl refl)

History-unlocks_example :
    (n : Machine ℕ) × History table n
    × Step (ran 0 (ran 0 one_inside)) n
    × (n.holder ≡ none)
    × (n.at 0 ≡ Pc.outside)
History-unlocks_example = History-unlocks table one_inside 0 empty-Bounded one_inside-History refl

-- The first goroutine has ended its call, under the key 0.
abbrev one_ended : Machine ℕ
one_ended = record (ran 0 (ran 0 one_inside)) {
  holder = none;
  at = move 0 Pc.outside (ran 0 (ran 0 one_inside)).at;
  ended = record { goroutine = 0; op = insert last 7; outcome = ok (key 0) } ∷ [];
}

abbrev one_ended-History : History table one_ended
unfolding advance allocate
one_ended-History =
    step _ _ (step _ _ (step _ _ one_inside-History (runs 0)) (runs 0))
      (unlocks 0 (insert last 7) (ok (key 0)) refl)

History-is_linear_example :
    ((i j : ℕ) → is_inside (one_ended.at i) ≡ true → is_inside (one_ended.at j) ≡ true → i ≡ j)
    × (one_ended.holder ≡ none → Runs table one_ended.ended one_ended.table)
History-is_linear_example = History-is_linear table one_ended one_ended-History
