-- ===== src/Registry/Locked/Bounds.antt =====
-- No goroutine is stuck behind the lock of a global table whose slab is within bounds.
use wasmtime_go.Base.{ℕ, ◌≡◌, refl, Bool, true, false, arith}
use wasmtime_go.Go.Outcome.{Outcome, ok, panic}
use wasmtime_go.Registry.{Registry}
use wasmtime_go.Slab
use wasmtime_go.Slab.Bounded.{Bounded, allocate-Bounded, deallocate-Bounded}
use wasmtime_go.Registry.Locked.{
  Pc, Machine, Step, History, insert, remove, lookup, calls, locks, runs, unlocks, start, step,
  give_back, advance, move,
}

module _ {V : Type 0} where
  abbrev pub is_stuck : Pc V → Bool
  is_stuck (Pc.stuck v x) = true
  is_stuck pc = false

  -- What a step of a goroutine that is not stuck leaves.
  abbrev pub Sound : Pc V × Registry V → Type 0
  Sound (pc, r) = (is_stuck pc ≡ false) × Bounded r.slab

  give_back-Sound :
      (k : ℕ) (r : Registry V) (q : Outcome (Unit {0}) × Slab.Slab)
      → Bounded q.1
      → Sound (give_back k r q)
  give_back-Sound k r (ok u, s) b = (refl, b)
  give_back-Sound k r (panic x, s) b = (refl, b)

  advance-Sound :
      (pc : Pc V) (r : Registry V) → is_stuck pc ≡ false → Bounded r.slab → Sound (advance pc r)
  unfolding advance
  advance-Sound Pc.outside r h b = (refl, b)
  advance-Sound (Pc.waiting op) r h b = (refl, b)
  advance-Sound (Pc.entered (insert u v)) r h b =
      let (k, s, done, after) = allocate-Bounded r.slab b in rw done (refl, after)
  advance-Sound (Pc.entered (remove k)) r h b = (refl, b)
  advance-Sound (Pc.entered (lookup k)) r h b = (refl, b)
  advance-Sound (Pc.allocated u v k) r h b = (refl, b)
  advance-Sound (Pc.deleted k) r h b =
      give_back-Sound k r (Slab.deallocate r.slab k) (deallocate-Bounded r.slab k b)
  advance-Sound (Pc.leaving op o) r h b = (refl, b)
  advance-Sound (Pc.stuck v x) r h b = absurd (ground arith)

  pub record Free (m : Machine V) : Type 0 where
    pub none_stuck : (i : ℕ) → is_stuck (m.at i) ≡ false
    pub bounded : Bounded m.table.slab

  moved :
      (i j : ℕ) (pc : Pc V) (at : ℕ → Pc V)
      → is_stuck pc ≡ false
      → is_stuck (at j) ≡ false
      → is_stuck (move i pc at j) ≡ false
  moved i j pc at h k = ground arith

  Step-Free : (m n : Machine V) → Step m n → Free m → Free n
  Step-Free m _ (calls i op out) f = record {
    none_stuck = λ j. moved i j (Pc.waiting op) m.at refl (f.none_stuck j);
    bounded = f.bounded;
  }
  Step-Free m _ (locks i op at idle) f = record {
    none_stuck = λ j. moved i j (Pc.entered op) m.at refl (f.none_stuck j);
    bounded = f.bounded;
  }
  Step-Free m _ (runs i) f =
      let (free, b) = advance-Sound (m.at i) m.table (f.none_stuck i) f.bounded in
      record { none_stuck = λ j. moved i j _ m.at free (f.none_stuck j); bounded = b }
  Step-Free m _ (unlocks i op o at) f = record {
    none_stuck = λ j. moved i j Pc.outside m.at refl (f.none_stuck j);
    bounded = f.bounded;
  }

  pub History-Free : (r : Registry V) (m : Machine V) → Bounded r.slab → History r m → Free m
  History-Free r _ b start = record { none_stuck = λ i. refl; bounded = b }
  History-Free r _ b (step m n before s) = Step-Free m n s (History-Free r m b before)
