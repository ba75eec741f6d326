-- ===== src/Registry/Client.antt =====
-- What a client of a global table sees over any sequence of calls: the keys that the slab recycles
-- cannot be told from keys that are never used again.
pub mod Agreement
pub mod Refinement
use wasmtime_go.Base.{
  ℕ, Bool, true, false, ◌&&◌, Option, none, some, List, [], ◌∷◌, ◌++◌, get_elem?, set, is_some,
}
use wasmtime_go.Go.Outcome.{Exec, return, gets, or_nil, ◌>>=◌, ◌>>◌}
use wasmtime_go.Registry
use wasmtime_go.Registry.{Registry}

-- A call; what was inserted is named by the number of insertions before it.
pub data Op (V : Type 0) : Type 0 where
  insert : V → Op V
  remove lookup : ℕ → Op V

-- The keys that the client was given so far, and the answer to a lookup.
pub record Told (V : Type 0) : Type 0 where
  pub keys : List ℕ
  pub answer : Option V

module _ {V : Type 0} where
  abbrev pub told : List ℕ → Option V → Told V
  told keys answer = record { keys = keys; answer = answer }

  -- One call on a table.
  pub apply : List ℕ → Op V → Exec (Registry V) (Told V)
  apply keys (insert v) = do k ← Registry.insert v; return (told (keys ++ k ∷ []) none)
  apply keys (remove n) = do
    k ← or_nil (get_elem? keys n)
    Registry.remove k
    return (told keys none)
  apply keys (lookup n) = do
    k ← or_nil (get_elem? keys n)
    answer ← gets (λ r. r.entries k)
    return (told keys answer)

  pub run : List ℕ → List (Op V) → Exec (Registry V) (List (Option V))
  run keys [] = return []
  run keys (op ∷ ops) = do t ← apply keys op; rest ← run t.keys ops; return (t.answer ∷ rest)

  abbrev pub value_of : Option (Option V) → Option V
  value_of none = none
  value_of (some v) = v

  abbrev pub value_at : List (Option V) → ℕ → Option V
  value_at values n = value_of (get_elem? values n)

  -- The same calls where every insertion has a place of its own for ever.
  pub replay : List (Option V) → List (Op V) → List (Option V)
  replay values [] = []
  replay values (insert v ∷ ops) = none ∷ replay (values ++ some v ∷ []) ops
  replay values (remove n ∷ ops) = none ∷ replay (set values n none) ops
  replay values (lookup n ∷ ops) = value_at values n ∷ replay values ops

  -- The client removes and looks up only what it has inserted and not removed.
  unfoldable pub is_proper : List (Option V) → List (Op V) → Bool
  is_proper values [] = true
  is_proper values (insert v ∷ ops) = is_proper (values ++ some v ∷ []) ops
  is_proper values (remove n ∷ ops) =
      let rest = is_proper (set values n none) ops in is_some (value_at values n) && rest
  is_proper values (lookup n ∷ ops) =
      let rest = is_proper values ops in is_some (value_at values n) && rest
