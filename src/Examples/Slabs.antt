-- ===== src/Examples/Slabs.antt =====
-- slab.go at concrete histories.
use wasmtime_go.Base.{ℕ, ◌≡◌, refl, false, [], ◌∷◌, length, contains, Distinct}
use wasmtime_go.Go.Outcome.{ok}
use wasmtime_go.Slab.{Slab, allocate, deallocate}
use wasmtime_go.Slab.History.{History, start, allocates, frees, allocate_fresh, length-list-peak}

abbrev two : Slab
two = record { list = 1 ∷ 2 ∷ []; next = 2 }

two_held : History two (1 ∷ 0 ∷ []) 2
unfolding allocate
two_held = allocates 1 (allocates 0 start refl) refl

-- slab_test.go: the freed slot 0 is the next that is handed out.
abbrev one_freed : Slab
one_freed = record { list = 2 ∷ 2 ∷ []; next = 0 }

one_held : History one_freed (1 ∷ []) 2
unfolding deallocate
one_held = frees 0 two_held refl refl

allocate_fresh_example :
    (i : ℕ) × (t : Slab) × (allocate one_freed ≡ (ok i, t)) × (contains (1 ∷ []) i ≡ false)
allocate_fresh_example = allocate_fresh one_held

length-list-peak_example : Distinct (1 ∷ []) × (length one_freed.list ≡ 2)
length-list-peak_example = length-list-peak one_held
