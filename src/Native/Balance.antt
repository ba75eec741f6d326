-- ===== src/Native/Balance.antt =====
-- The steps that operations are made of, and what they do to the balance of C objects and owners.
use wasmtime_go.Base.{ℕ, ◌≡◌, refl, true, false, Option, some, List, [], ◌∷◌, get_elem?, set, arith}
use wasmtime_go.Native.{Class, Object, Event, State, Request, mk_object}
use wasmtime_go.Native.Trace.{one, held, count-remove, live, usable}
use wasmtime_go.Native.Owned.{
  holds, is_shaped, owners-append, owners-set, holds_le_owners, are_shaped-append, are_shaped-set,
  Balanced,
}

abbrev pub log_event : Event → State → State
log_event e s = record s { log = e ∷ s.log }

abbrev pub put : ℕ → Option Object → State → State
put ref x s = record s { objects = set s.objects ref x }

-- An object that has its finalizer, and deletes the C object at `p`.
pub record OwnerAt (s : State) (ref p : ℕ) (o : Object) : Type 0 where
  pub at : get_elem? s.objects ref ≡ some (some o)
  pub points : o.ptr ≡ some p
  pub deletes : o.finalizer ≡ true

pub OwnerAt-log :
    {s : State} {ref p : ℕ} {o : Object}
    → OwnerAt s ref p o
    → (log : List Event) → OwnerAt (record s { log = log }) ref p o
OwnerAt-log a log = record { at = a.at; points = a.points; deletes = a.deletes }

-- Its C object is live, if nothing is owed.
pub OwnerAt-held :
    {s : State} {ref p : ℕ} {o : Object} {credits : List ℕ}
    → Balanced [] credits s
    → OwnerAt s ref p o
    → held p (live s.log) ≡ true
OwnerAt-held {s} {ref} {p} {o} b a =
    let own : holds p (some o) ≡ 1 = rw (a.points, a.deletes) (ground arith) in
    ground (arith, holds_le_owners p s.objects ref (some o) a.at, b.balance p)

module _ {debts credits : List ℕ} {s : State} where
  pub created-Balanced :
      (class : Class) (p : ℕ)
      → Balanced debts credits s
      → held p (live s.log) ≡ false
      → Balanced debts (p ∷ credits) (log_event (Event.created class p) s)
  created-Balanced class p b h = record {
    safe = ground (arith, b.safe);
    distinct = λ q. ground (arith, b.distinct q);
    balance = λ q. omega (arith, b.balance q);
    shaped = b.shaped;
  }

  pub mk_object-Balanced :
      (class : Class) (p : ℕ)
      → Balanced debts (p ∷ credits) s
      → Balanced debts credits (mk_object class p s).1
  unfolding mk_object
  mk_object-Balanced class p b = record {
    safe = b.safe;
    distinct = b.distinct;
    balance = λ q. omega (arith, b.balance q, owners-append q s.objects _);
    shaped = are_shaped-append s.objects _ refl b.shaped;
  }

  -- A call that takes the C object over, or deletes it, while its owner still points to it.
  pub consumed-Balanced :
      (class : Class) (p : ℕ)
      → Balanced debts credits s
      → held p (live s.log) ≡ true
      → Balanced (p ∷ debts) credits (log_event (Event.consumed class (some p)) s)
  consumed-Balanced class p b h = record {
    safe = ground (arith, b.safe);
    distinct = λ q. omega (arith, b.distinct q, count-remove q p (live s.log));
    balance = λ q. ground (arith, b.balance q, count-remove q p (live s.log));
    shaped = b.shaped;
  }

  pub called-Balanced :
      (class : Class) (p : Option ℕ) (request : Request)
      → Balanced debts credits s
      → usable class p (live s.log) ≡ true
      → Balanced debts credits (log_event (Event.called class p request) s)
  called-Balanced class p request b h = record {
    safe = ground (arith, b.safe);
    distinct = b.distinct;
    balance = b.balance;
    shaped = b.shaped;
  }

  -- The same, once its owner has let go of it.
  pub released-Balanced :
      (class : Class) (p : ℕ)
      → Balanced debts (p ∷ credits) s
      → held p (live s.log) ≡ true
      → Balanced debts credits (log_event (Event.consumed class (some p)) s)
  released-Balanced class p b h = record {
    safe = ground (arith, b.safe);
    distinct = λ q. omega (arith, b.distinct q, count-remove q p (live s.log));
    balance = λ q. ground (arith, b.balance q, count-remove q p (live s.log));
    shaped = b.shaped;
  }

  pub deleted-Balanced :
      (class : Class) (p : ℕ)
      → Balanced debts (p ∷ credits) s
      → held p (live s.log) ≡ true
      → Balanced debts credits (log_event (Event.deleted class (some p)) s)
  deleted-Balanced class p b h = record {
    safe = ground (arith, b.safe);
    distinct = λ q. omega (arith, b.distinct q, count-remove q p (live s.log));
    balance = λ q. ground (arith, b.balance q, count-remove q p (live s.log));
    shaped = b.shaped;
  }

module _ {s : State} (ref : ℕ) (x : Option Object) (free : (q : ℕ) → holds q x ≡ 0)
    (good : is_shaped x ≡ true) where
  -- An owner lets go of its C object: before wasmtime takes it over, and after.
  pub put-credit :
      {debts credits : List ℕ} (p : ℕ) (o : Object)
      → OwnerAt s ref p o
      → Balanced debts credits s
      → Balanced debts (p ∷ credits) (put ref x s)
  put-credit p o a b = record {
    safe = b.safe;
    distinct = b.distinct;
    balance = λ q.
        let own : holds q (some o) ≡ one q p = rw (a.points, a.deletes) refl in
        omega (arith, b.balance q, owners-set q s.objects ref (some o) x a.at, free q, own);
    shaped = are_shaped-set s.objects ref x good b.shaped;
  }

  pub put-debt :
      {debts credits : List ℕ} (p : ℕ) (o : Object)
      → OwnerAt s ref p o
      → Balanced (p ∷ debts) credits s
      → Balanced debts credits (put ref x s)
  put-debt p o a b = record {
    safe = b.safe;
    distinct = b.distinct;
    balance = λ q.
        let own : holds q (some o) ≡ one q p = rw (a.points, a.deletes) refl in
        omega (arith, b.balance q, owners-set q s.objects ref (some o) x a.at, free q, own);
    shaped = are_shaped-set s.objects ref x good b.shaped;
  }

  -- An object that owns nothing.
  pub put_idle :
      {debts credits : List ℕ} (o : Object)
      → get_elem? s.objects ref ≡ some (some o)
      → o.finalizer ≡ false
      → Balanced debts credits s
      → Balanced debts credits (put ref x s)
  put_idle o at idle b = record {
    safe = b.safe;
    distinct = b.distinct;
    balance = λ q.
        let own : holds q (some o) ≡ 0 = rw idle refl in
        omega (arith, b.balance q, owners-set q s.objects ref (some o) x at, free q, own);
    shaped = are_shaped-set s.objects ref x good b.shaped;
  }
