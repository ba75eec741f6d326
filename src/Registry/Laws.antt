-- ===== src/Registry/Laws.antt =====
-- A table keeps a value exactly under the keys that its slab has handed out.
use wasmtime_go.Base.{
  ◌≤◌, ◌≢◌, length, ℕ, ◌≡◌, refl, sym, ap, ◌∙◌, true, false, [], Option, none, some, arith, ◌==◌,
  if◌then◌else◌, is_some,
}
use wasmtime_go.Go.Outcome.{ok}
use wasmtime_go.Slab.{allocate, deallocate}
use wasmtime_go.Slab.Chain.{stop}
use wasmtime_go.Slab.Spec.{
  Pool, pool, take, give, in_use, Represents, allocate-take, deallocate-give, in_use-take,
  in_use-give, take_bounded,
}
use wasmtime_go.Registry.{Registry, insert, update, remove, empty}

none_of_unused {ℓ} : {A : Type ℓ} {o : Option A} → is_some o ≡ false → o ≡ none
none_of_unused h = ground arith

module _ {V : Type 0} where
  pub record Holds (r : Registry V) (p : Pool) : Type 0 where
    pub represents : Represents r.slab p
    pub keys : (i : ℕ) → is_some (r.entries i) ≡ in_use p i

  pub record IsValid (r : Registry V) : Type 0 where
    pub pool : Pool
    pub holds : Holds r pool

  -- What `insert` does: a key that held nothing holds the value, and no other key changes.
  pub record Inserts (r : Registry V) (v : V) (k : ℕ) (t : Registry V) : Type 0 where
    pub fresh : r.entries k ≡ none
    pub bounded : k ≤ length r.slab.list
    pub read : (i : ℕ) → t.entries i ≡ (if i == k then some v else r.entries i)
    pub valid : IsValid t

  pub insert-Inserts :
      (r : Registry V) (v : V)
      → IsValid r
      → (k : ℕ) × (t : Registry V) × (insert v r ≡ (ok k, t)) × Inserts r v k t
  unfolding insert
  insert-Inserts r v h =
      let p = h.pool in
      let represents = h.holds.represents in
      let (result, after) = allocate-take r.slab p represents in
      let k = (take p).0 in
      let s = (allocate r.slab).1 in
      let e : allocate r.slab ≡ (ok k, s) = λ j. (result j, s) in
      let t : Registry V = record { slab = s; entries = update k (some v) r.entries } in
      let used = in_use-take r.slab p k represents in
      (
        k,
        t,
        rw e,
        record {
          bounded = take_bounded r.slab p represents;
          fresh = none_of_unused (h.holds.keys k ∙ used.0);
          read = λ i. refl;
          valid = record {
            pool = (take p).1;
            holds = record {
              represents = after;
              keys = λ i. ground (arith, h.holds.keys i, (in_use-take r.slab p i represents).1);
            };
          };
        },
      )

  pub record Removes (r : Registry V) (k : ℕ) (t : Registry V) : Type 0 where
    pub read : (i : ℕ) → t.entries i ≡ (if i == k then none else r.entries i)
    pub valid : IsValid t

  pub remove-Removes :
      (r : Registry V) (k : ℕ) (v : V)
      → IsValid r
      → r.entries k ≡ some v
      → (t : Registry V) × (remove k r ≡ (ok tt, t)) × Removes r k t
  unfolding remove
  remove-Removes r k v h e =
      let p = h.pool in
      let used : in_use p k ≡ true = sym (h.holds.keys k) ∙ ap is_some e in
      let (result, after) = deallocate-give r.slab p k h.holds.represents used in
      let s = (deallocate r.slab k).1 in
      let freed : deallocate r.slab k ≡ (ok tt, s) = λ j. (result j, s) in
      (
        record { slab = s; entries = update k none r.entries },
        rw freed,
        record {
          read = λ i. refl;
          valid = record {
            pool = give k p;
            holds = record {
              represents = after;
              keys = λ i. ground (arith, h.holds.keys i, in_use-give p k i used);
            };
          };
        },
      )

  pub empty-IsValid : IsValid (empty {V = V})
  empty-IsValid = record {
    pool = pool 0 [];
    holds = record {
      represents = record { sized = refl; chain = stop refl };
      keys = λ i. ground arith;
    };
  }

  -- An insertion keeps what other keys hold, and a removal what the keys that are left hold.
  pub Inserts-keeps :
      {r t : Registry V} {new : V} {k : ℕ} (j : ℕ) (v : V)
      → Inserts r new k t
      → r.entries j ≡ some v
      → t.entries j ≡ some v
  Inserts-keeps j v i h = ground (arith, i.read j, i.fresh)

  pub Removes-keeps :
      {r t : Registry V} {k : ℕ} (j : ℕ) (v : V)
      → Removes r k t
      → j ≢ k
      → r.entries j ≡ some v
      → t.entries j ≡ some v
  Removes-keeps j v d ne h = ground (arith, d.read j)
