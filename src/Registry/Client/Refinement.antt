-- ===== src/Registry/Client/Refinement.antt =====
-- A global table refines a table in which every insertion has a place of its own.
use wasmtime_go.Base.{
  ℕ, ◌≡◌, refl, ap, true, Option, none, some, List, [], ◌∷◌, ◌++◌, arith, get_elem?, set,
}
use wasmtime_go.Go.Outcome.{ok}
use wasmtime_go.Registry
use wasmtime_go.Registry.{Registry}
use wasmtime_go.Registry.Laws.{insert-Inserts, remove-Removes, empty-IsValid}
use wasmtime_go.Registry.Client.{
  Op, Told, told, insert, remove, lookup, apply, run, replay, value_of, value_at, is_proper,
}
use wasmtime_go.Registry.Client.Agreement.{Agrees, inserted-Agrees, removed-Agrees, value_at-cases}

module _ {V : Type 0} where
  run-nil : (keys : List ℕ) (r : Registry V) → (run keys [] r).0 ≡ ok []
  unfolding run
  run-nil keys r = refl

  run-cons :
      (keys : List ℕ) (op : Op V) (ops : List (Op V)) (r u : Registry V) (t : Told V)
      (rest : List (Option V))
      → apply keys op r ≡ (ok t, u)
      → (run t.keys ops u).0 ≡ ok rest
      → (run keys (op ∷ ops) r).0 ≡ ok (t.answer ∷ rest)
  unfolding run
  run-cons keys op ops r u t rest e h = rw (e, h) refl

  apply-lookup :
      (keys : List ℕ) (values : List (Option V)) (r : Registry V) (n k : ℕ) (v : V)
      → get_elem? values n ≡ some (some v)
      → get_elem? keys n ≡ some k
      → r.entries k ≡ some v
      → apply keys (lookup n) r ≡ (ok (told keys (value_at values n)), r)
  unfolding apply
  apply-lookup keys values r n k v at key entry = rw (ap value_of at, key, entry) refl

  run-Agrees :
      (ops : List (Op V)) (keys : List ℕ) (values : List (Option V)) (r : Registry V)
      → Agrees keys values r
      → is_proper values ops ≡ true
      → (run keys ops r).0 ≡ ok (replay values ops)
  unfolding apply replay is_proper
  run-Agrees [] keys values r a h = run-nil keys r
  run-Agrees (insert v ∷ ops) keys values r a h =
      let (k, t, e, i) = insert-Inserts r v a.valid in
      run-cons keys (insert v) ops r t (told (keys ++ k ∷ []) none) _ (rw e refl)
        (run-Agrees ops (keys ++ k ∷ []) (values ++ some v ∷ []) t (inserted-Agrees a i) h)
  run-Agrees (remove n ∷ ops) keys values r a h =
      let (v, at) = value_at-cases values n (ground arith) in
      let (k, key, entry) = a.finds n v at in
      let (t, e, d) = remove-Removes r k v a.valid entry in
      run-cons keys (remove n) ops r t (told keys none) _ (rw (key, e) refl)
        (run-Agrees ops keys (set values n none) t (removed-Agrees n a d at key) (ground arith))
  run-Agrees (lookup n ∷ ops) keys values r a h =
      let (v, at) = value_at-cases values n (ground arith) in
      let (k, key, entry) = a.finds n v at in
      run-cons keys (lookup n) ops r r (told keys (value_at values n)) _
        (apply-lookup keys values r n k v at key entry)
        (run-Agrees ops keys values r a (ground arith))

  -- For any calls of a client that removes and looks up only what it has inserted and not removed, a
  -- table that starts empty does not panic, and gives the answers of a table in which every insertion
  -- has a place of its own for ever: that the slab hands out a freed key again is not seen.
  pub run-replay :
      (ops : List (Op V))
      → is_proper [] ops ≡ true
      → (run [] ops Registry.empty).0 ≡ ok (replay [] ops)
  run-replay ops h =
      run-Agrees ops [] [] Registry.empty
        (record {
          valid = empty-IsValid;
          sized = refl;
          finds = λ n v e. absurd (ground arith);
          apart = λ n m k v w hn hm kn km. absurd (ground arith);
        })
        h
