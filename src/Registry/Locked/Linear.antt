-- ===== src/Registry/Locked/Linear.antt =====
-- Operations of goroutines under the lock of a global table are as good as atomic.
use wasmtime_go.Base.{
  ℕ, ◌≡◌, sym, ap, ◌∙◌, ◌≢◌, inl, inr, ℕ_discrete, true, Option, none, some, List, [], ◌∷◌, arith,
}
use mathlib.Core.Path.{subst}
use wasmtime_go.Go.Outcome.{Outcome}
use wasmtime_go.Registry.{Registry}
use wasmtime_go.Registry.Locked.{
  Op, Answer, Pc, Call, Machine, Step, History, calls, locks, runs, unlocks, start, step, atomic,
  advance, move,
}
use wasmtime_go.Registry.Locked.Rest.{
  is_inside, rest_of, rest_of-advance, is_inside-advance, move_self, move_other, inside_moved,
  advance_outside,
}

-- The calls that ended, as atomic operations one after another from a table on.
pub data Runs {V : Type 0} (r : Registry V) : List (Call V) → Registry V → Type 0 where
  none_yet : Runs r [] r
  then_call :
      (past : List (Call V)) (s t : Registry V) (i : ℕ) (op : Op V) (o : Outcome (Answer V))
      → Runs r past s
      → atomic op s ≡ (o, t)
      → Runs r (record { goroutine = i; op = op; outcome = o } ∷ past) t

-- What holds between any two steps: only the goroutine that holds the lock is behind Lock, and what is
-- left of its operation makes it the next atomic one.
pub record Guarded {V : Type 0} (r : Registry V) (m : Machine V) : Type 0 where
  pub alone : (i : ℕ) → is_inside (m.at i) ≡ true → m.holder ≡ some i
  pub free : m.holder ≡ none → Runs r m.ended m.table
  pub busy :
      (i : ℕ)
      → m.holder ≡ some i
      → (s : Registry V) × (op : Op V) × Runs r m.ended s
        × (rest_of (m.at i) m.table ≡ some (op, atomic op s))

some_not_none {ℓ} : {A : Type ℓ} {a : A} → some a ≢ none
some_not_none e = absurd (ground arith)

other_holder : {i j : ℕ} → some j ≡ some i → j ≡ i
other_holder e = ground arith

ended_as :
    {V : Type 0} (op op' : Op V) (s : Registry V) (x : Outcome (Answer V) × Registry V)
    → ◌≡◌ {A = Option (Op V × (Outcome (Answer V) × Registry V))}
        (some (op, x))
        (some (op', atomic op' s))
    → atomic op s ≡ x
ended_as {V} op op' s x e =
    let p : op ≡ op' = cc in let q : x ≡ atomic op' s = cc in ap (λ y. atomic y s) p ∙ sym q

module _ {V : Type 0} (r : Registry V) where
  -- The table does not change if the goroutine that goes on is not behind Lock.
  still :
      (m : Machine V) (i : ℕ)
      → Guarded r m
      → m.holder ≢ some i
      → (advance (m.at i) m.table).1 ≡ m.table
  still m i g ne = advance_outside (m.at i) m.table (ground (arith, g.alone i))

  calls-Guarded :
      (m : Machine V) (i : ℕ) (op : Op V)
      → m.at i ≡ Pc.outside
      → Guarded r m
      → Guarded r (record m { at = move i (Pc.waiting op) m.at })
  calls-Guarded m i op out g = record {
    alone = λ j h. elim (inside_moved i j (Pc.waiting op) m.at h) [
      | inl (e, inside) ↦ absurd (ground arith)
      | inr (ne, inside) ↦ g.alone j inside
    ];
    free = g.free;
    busy = λ j h.
        let (s, o, past, rest) = g.busy j h in
        let ne : j ≢ i = λ e.
          absurd (some_not_none (sym rest ∙ ap (λ pc. rest_of pc m.table) (ap m.at e ∙ out))) in
        (s, o, past, ap (λ pc. rest_of pc m.table) (move_other i j _ m.at ne) ∙ rest);
  }

  locks-Guarded :
      (m : Machine V) (i : ℕ) (op : Op V)
      → m.at i ≡ Pc.waiting op
      → m.holder ≡ none
      → Guarded r m
      → Guarded r (record m { holder = some i; at = move i (Pc.entered op) m.at })
  locks-Guarded m i op out idle g = record {
    alone = λ j h. elim (inside_moved i j (Pc.entered op) m.at h) [
      | inl (e, inside) ↦ ap some (sym e)
      | inr (ne, inside) ↦ absurd (some_not_none (sym (g.alone j inside) ∙ idle))
    ];
    free = λ h. absurd (ground arith);
    busy = λ j h.
        let e : i ≡ j = ground arith in
        let here = ap (move i (Pc.entered op) m.at) (sym e) ∙ move_self i (Pc.entered op) m.at in
        (m.table, op, g.free idle, ap (λ pc. rest_of pc m.table) here);
  }

  runs-Guarded :
      (m : Machine V) (i : ℕ)
      → Guarded r m
      → Guarded r (record m {
        table = (advance (m.at i) m.table).1;
        at = move i (advance (m.at i) m.table).0 m.at;
      })
  runs-Guarded m i g =
      let pc = (advance (m.at i) m.table).0 in
      let table = (advance (m.at i) m.table).1 in
      record {
        alone = λ j h. elim (inside_moved i j pc m.at h) [
          | inl (e, inside) ↦
              g.alone i (sym (is_inside-advance (m.at i) m.table) ∙ inside) ∙ ap some (sym e)
          | inr (ne, inside) ↦ g.alone j inside
        ];
        free = λ h.
            subst (Runs r m.ended) (sym (still m i g (λ e. some_not_none (sym e ∙ h)))) (g.free h);
        busy = λ j h.
            let (s, o, past, rest) = g.busy j h in
            (
              s,
              o,
              past,
              elim (ℕ_discrete j i) [
                | yes e ↦
                    ap (λ x. rest_of x table) (ap (move i pc m.at) e ∙ move_self i pc m.at)
                    ∙ rest_of-advance (m.at i) m.table
                    ∙ ap (λ k. rest_of (m.at k) m.table) (sym e)
                    ∙ rest
                | no ne ↦
                    ap (λ x. rest_of x table) (move_other i j pc m.at ne)
                    ∙ ap (rest_of (m.at j)) (still m i g (λ e. ne (other_holder (sym h ∙ e))))
                    ∙ rest
              ],
            );
      }

  unlocks-Guarded :
      (m : Machine V) (i : ℕ) (op : Op V) (o : Outcome (Answer V))
      → m.at i ≡ Pc.leaving op o
      → Guarded r m
      → Guarded r (record m {
        holder = none;
        at = move i Pc.outside m.at;
        ended = record { goroutine = i; op = op; outcome = o } ∷ m.ended;
      })
  unlocks-Guarded m i op o at g =
      let held : m.holder ≡ some i = g.alone i (ap is_inside at) in
      let (s, op', past, rest) = g.busy i held in
      let same = sym (ap (λ pc. rest_of pc m.table) at) ∙ rest in
      record {
        alone = λ j h. elim (inside_moved i j Pc.outside m.at h) [
          | inl (e, inside) ↦ absurd (ground arith)
          | inr (ne, inside) ↦ absurd (ground (arith, g.alone j inside))
        ];
        free = λ h. then_call m.ended s m.table i op o past (ended_as op op' s (o, m.table) same);
        busy = λ j h. absurd (ground arith);
      }

  Step-Guarded : (m n : Machine V) → Step m n → Guarded r m → Guarded r n
  Step-Guarded m _ (calls i op out) g = calls-Guarded m i op out g
  Step-Guarded m _ (locks i op at idle) g = locks-Guarded m i op at idle g
  Step-Guarded m _ (runs i) g = runs-Guarded m i g
  Step-Guarded m _ (unlocks i op o at) g = unlocks-Guarded m i op o at g

  pub History-Guarded : (m : Machine V) → History r m → Guarded r m
  History-Guarded _ start = record {
    alone = λ i h. absurd (ground arith);
    free = λ h. none_yet;
    busy = λ i h. absurd (ground arith);
  }
  History-Guarded _ (step m n before s) = Step-Guarded m n s (History-Guarded m before)

  -- In every machine that goroutines reach from a table that none of them uses, whatever the order of
  -- their steps, at most one of them is between Lock and Unlock. If the lock is free, the table, and
  -- what each call ended with, panics included, are those of the calls made as atomic operations, one
  -- after another in the order of Unlock.
  pub History-is_linear :
      (m : Machine V)
      → History r m
      → ((i j : ℕ) → is_inside (m.at i) ≡ true → is_inside (m.at j) ≡ true → i ≡ j)
        × (m.holder ≡ none → Runs r m.ended m.table)
  History-is_linear m h =
      let g = History-Guarded m h in
      (λ i j hi hj. other_holder (sym (g.alone i hi) ∙ g.alone j hj), g.free)
