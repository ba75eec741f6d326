-- ===== src/Registry/Locked/Release.antt =====
-- A goroutine that holds the lock of a global table gets to Unlock.
use mathlib.Core.Path.{subst}
use wasmtime_go.Base.{ℕ, ◌≡◌, refl, sym, ap, ◌∙◌, true, false, none, some, arith}
use wasmtime_go.Go.Outcome.{Outcome, ok, panic}
use wasmtime_go.Registry.{Registry}
use wasmtime_go.Slab
use wasmtime_go.Registry.Locked.{
  Op, Answer, Pc, Machine, Step, History, key, keep_key, insert, remove, lookup, runs, unlocks,
  step, give_back, advance, move,
}
use wasmtime_go.Registry.Locked.Rest.{is_inside, move_self, rest_of}
use wasmtime_go.Slab.Bounded.{Bounded, allocate-Bounded}
use wasmtime_go.Registry.Locked.Bounds.{is_stuck, History-Free}
use wasmtime_go.Registry.Locked.Linear.{Guarded, History-Guarded}

module _ {V : Type 0} where
  abbrev pub IsLeaving : Pc V → Type 0
  IsLeaving pc = (op : Op V) × (o : Outcome (Answer V)) × (pc ≡ Pc.leaving op o)

  abbrev twice : Pc V → Registry V → Pc V
  twice pc r = let (q, t) = advance pc r in (advance q t).0

  give_back-IsLeaving :
      (k : ℕ) (r : Registry V) (q : Outcome (Unit {0}) × Slab.Slab)
      → IsLeaving (advance (give_back k r q).0 (give_back k r q).1).0
  unfolding advance
  give_back-IsLeaving k r (ok u, s) = (_, _, refl)
  give_back-IsLeaving k r (panic x, s) = (_, _, refl)

  give_back-at_once :
      (k : ℕ) (r : Registry V) (q : Outcome (Unit {0}) × Slab.Slab) → IsLeaving (give_back k r q).0
  give_back-at_once k r (ok u, s) = (_, _, refl)
  give_back-at_once k r (panic x, s) = (_, _, refl)

  is_inside-rest_of :
      {x : Op V × (Outcome (Answer V) × Registry V)} (pc : Pc V) (r : Registry V)
      → rest_of pc r ≡ some x
      → is_inside pc ≡ true
  is_inside-rest_of Pc.outside r h = absurd (ground arith)
  is_inside-rest_of (Pc.waiting op) r h = absurd (ground arith)
  is_inside-rest_of pc r h = ground arith

  twice-IsLeaving :
      (pc : Pc V) (r : Registry V)
      → is_inside pc ≡ true
      → is_stuck pc ≡ false
      → Bounded r.slab
      → IsLeaving (twice pc r)
  unfolding advance
  twice-IsLeaving (Pc.entered (insert u v)) r h f b =
      let (k, s, done, after) = allocate-Bounded r.slab b in
      subst (λ q. IsLeaving (advance (keep_key u v r q).0 (keep_key u v r q).1).0) (sym done)
        (insert u v, ok (key k), refl)
  twice-IsLeaving (Pc.entered (remove k)) r h f b =
      give_back-at_once k (record r { entries = _ }) (Slab.deallocate r.slab k)
  twice-IsLeaving (Pc.entered (lookup k)) r h f b = (_, _, refl)
  twice-IsLeaving (Pc.allocated u v k) r h f b = (_, _, refl)
  twice-IsLeaving (Pc.deleted k) r h f b = give_back-IsLeaving k r (Slab.deallocate r.slab k)
  twice-IsLeaving (Pc.leaving op o) r h f b = (op, o, refl)
  twice-IsLeaving pc r h f b = absurd (ground arith)

abbrev pub ran : {V : Type 0} → ℕ → Machine V → Machine V
ran i m = record m {
  table = (advance (m.at i) m.table).1;
  at = move i (advance (m.at i) m.table).0 m.at;
}

module _ {V : Type 0} (r : Registry V) where
  holder_inside :
      (m : Machine V) (i : ℕ) → Guarded r m → m.holder ≡ some i → is_inside (m.at i) ≡ true
  holder_inside m i g h =
      let (s, op, past, rest) = g.busy i h in is_inside-rest_of (m.at i) m.table rest

  -- If a table starts with a slab whose free list stays within its bounds, as an empty one does, then in
  -- every machine that goroutines reach, the goroutine that holds the lock can go on alone: after two
  -- more statements at most it is at Unlock, whether its call panics or not, and then the lock is free
  -- and the goroutine is in no operation.
  pub History-unlocks :
      (m : Machine V) (i : ℕ)
      → Bounded r.slab
      → History r m
      → m.holder ≡ some i
      → (n : Machine V) × History r n
        × Step (ran i (ran i m)) n
        × (n.holder ≡ none)
        × (n.at i ≡ Pc.outside)
  History-unlocks m i within past held =
      let free = History-Free r m within past in
      let first = step m (ran i m) past (runs i) in
      let second = step (ran i m) (ran i (ran i m)) first (runs i) in
      let inside = holder_inside m i (History-Guarded r m past) held in
      let (op, o, at) = twice-IsLeaving (m.at i) m.table inside (free.none_stuck i) free.bounded in
      let leaving : (ran i (ran i m)).at i ≡ Pc.leaving op o =
        move_self i _ (ran i m).at
        ∙ ap (λ pc. (advance pc (ran i m).table).0) (move_self i _ m.at)
        ∙ at in
      let last = unlocks i op o leaving in
      (_, step _ _ second last, last, refl, move_self i Pc.outside (ran i (ran i m)).at)
