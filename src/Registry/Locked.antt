-- ===== src/Registry/Locked.antt =====
-- The lock of a global table, and the goroutines that call its operations at the same time. The code
-- between Lock and Unlock takes its steps one by one, as in val.go (`gExternrefLock`) and store.go.
-- Unlock is deferred, so it runs after a panic too, but NewStore calls it last instead.
-- `gEngineFuncLock` guards two tables, of which this is one.
pub mod Rest
pub mod Linear
pub mod Bounds
pub mod Release
use wasmtime_go.Base.{ℕ, ◌≡◌, Option, none, some, List, [], ◌∷◌, ◌==◌, if◌then◌else◌}
use wasmtime_go.Go.Value.{Any}
use wasmtime_go.Go.Outcome.{Outcome, ok, panic, Exec, return, gets, ◌>>=◌, ◌>>◌}
use wasmtime_go.Registry
use wasmtime_go.Registry.{Registry, update}
use wasmtime_go.Slab

-- How an insertion calls Unlock: NewStore calls it last, and the others defer it.
pub data Unlocking : Type 0 where
  deferred last : Unlocking

-- What a goroutine calls, with its arguments.
pub data Op (V : Type 0) : Type 0 where
  insert : Unlocking → V → Op V
  remove lookup : ℕ → Op V

pub data Answer (V : Type 0) : Type 0 where
  key : ℕ → Answer V
  nothing : Answer V
  found : Option V → Answer V

-- Where a goroutine is: in no operation, at Lock, behind it, between the two statements of an operation,
-- at Unlock, with what the call ends with, or past a panic that no Unlock follows.
pub data Pc (V : Type 0) : Type 0 where
  outside : Pc V
  waiting entered : Op V → Pc V
  allocated : Unlocking → V → ℕ → Pc V
  deleted : ℕ → Pc V
  leaving : Op V → Outcome (Answer V) → Pc V
  stuck : V → Any → Pc V

-- A call that has ended.
pub record Call (V : Type 0) : Type 0 where
  pub goroutine : ℕ
  pub op : Op V
  pub outcome : Outcome (Answer V)

-- The lock, as the goroutine that holds it, the table, where each goroutine is, and the calls that
-- ended, the last one first.
pub record Machine (V : Type 0) : Type 0 where
  pub holder : Option ℕ
  pub table : Registry V
  pub at : ℕ → Pc V
  pub ended : List (Call V)

module _ {V : Type 0} where
  -- The operations of Registry, each as one step.
  unfoldable pub atomic : Op V → Exec (Registry V) (Answer V)
  atomic (insert u v) = do k ← Registry.insert v; return (key k)
  atomic (remove k) = do Registry.remove k; return nothing
  atomic (lookup k) = gets (λ r. found (r.entries k))

  -- index := slab.allocate()
  abbrev pub panicked : Unlocking → V → Any → Pc V
  panicked deferred v x = Pc.leaving (insert deferred v) (panic x)
  panicked last v x = Pc.stuck v x

  abbrev pub keep_key : Unlocking → V → Registry V → Outcome ℕ × Slab.Slab → Pc V × Registry V
  keep_key u v r (ok k, s) = (Pc.allocated u v k, record r { slab = s })
  keep_key u v r (panic x, s) = (panicked u v x, record r { slab = s })

  -- slab.deallocate(idx)
  abbrev pub give_back : ℕ → Registry V → Outcome (Unit {0}) × Slab.Slab → Pc V × Registry V
  give_back k r (ok u, s) = (Pc.leaving (remove k) (ok nothing), record r { slab = s })
  give_back k r (panic x, s) = (Pc.leaving (remove k) (panic x), record r { slab = s })

  -- The next statement of a goroutine that is behind Lock.
  unfoldable pub advance : Pc V → Registry V → Pc V × Registry V
  advance (Pc.entered (insert u v)) r = keep_key u v r (Slab.allocate r.slab)
  advance (Pc.allocated u v k) r =
      (Pc.leaving (insert u v) (ok (key k)), record r { entries = update k (some v) r.entries })
  advance (Pc.entered (remove k)) r = (Pc.deleted k, record r { entries = update k none r.entries })
  advance (Pc.deleted k) r = give_back k r (Slab.deallocate r.slab k)
  advance (Pc.entered (lookup k)) r = (Pc.leaving (lookup k) (ok (found (r.entries k))), r)
  advance pc r = (pc, r)

  abbrev pub move : ℕ → Pc V → (ℕ → Pc V) → ℕ → Pc V
  move i pc at j = if j == i then pc else at j

-- One step of some goroutine. Lock waits while another goroutine holds the lock.
pub data Step {V : Type 0} (m : Machine V) : Machine V → Type 0 where
  calls :
      (i : ℕ) (op : Op V)
      → m.at i ≡ Pc.outside
      → Step m (record m { at = move i (Pc.waiting op) m.at })
  locks :
      (i : ℕ) (op : Op V)
      → m.at i ≡ Pc.waiting op
      → m.holder ≡ none
      → Step m (record m { holder = some i; at = move i (Pc.entered op) m.at })
  runs :
      (i : ℕ)
      → Step m (record m {
        table = (advance (m.at i) m.table).1;
        at = move i (advance (m.at i) m.table).0 m.at;
      })
  unlocks :
      (i : ℕ) (op : Op V) (o : Outcome (Answer V))
      → m.at i ≡ Pc.leaving op o
      → Step m (record m {
        holder = none;
        at = move i Pc.outside m.at;
        ended = record { goroutine = i; op = op; outcome = o } ∷ m.ended;
      })

-- No goroutine is in an operation, and none has ended one.
abbrev pub resting : {V : Type 0} → Registry V → Machine V
resting r = record { holder = none; table = r; at = λ i. Pc.outside; ended = [] }

pub data History {V : Type 0} (r : Registry V) : Machine V → Type 0 where
  start : History r (resting r)
  step : (m n : Machine V) → History r m → Step m n → History r n
