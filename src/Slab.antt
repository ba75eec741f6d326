-- ===== src/Slab.antt =====
-- slab.go: an allocator of small integers whose free list is threaded through `list`.
pub mod Chain
pub mod Spec
pub mod History
pub mod Bounded
use wasmtime_go.Base.{
  ℕ, ◌+◌, Option, none, some, List, [], ◌∷◌, ◌++◌, length, get_elem?, set, ltb, ◌==◌, if◌then◌else◌,
}
use wasmtime_go.Go.Value.{runtime_error, index_out_of_range}
use wasmtime_go.Go.Outcome.{Outcome, ok, panic}

pub record Slab : Type 0 where
  pub list : List ℕ
  pub next : ℕ

-- The zero value, `var gStoreSlab slab`.
abbrev pub empty : Slab
empty = record { list = []; next = 0 }

-- if s.next == len(s.list) { s.list = append(s.list, s.next+1) }
extend : Slab → Slab
extend s = if s.next == length s.list then record s { list = s.list ++ (s.next + 1) ∷ [] } else s

-- ret := s.next; s.next = s.list[ret]; return ret
take_next : Slab → Option ℕ → Outcome ℕ × Slab
take_next s none = (panic (runtime_error index_out_of_range), s)
take_next s (some q) = (ok s.next, record s { next = q })

unfoldable pub allocate : Slab → Outcome ℕ × Slab
unfolding extend take_next
allocate s = let t = extend s in take_next t (get_elem? t.list t.next)

-- s.list[slot] = s.next; s.next = slot
unfoldable pub deallocate : Slab → ℕ → Outcome (Unit {0}) × Slab
deallocate s slot =
    if ltb slot (length s.list)
    then (ok tt, record { list = set s.list slot s.next; next = slot })
    else (panic (runtime_error index_out_of_range), s)
