-- ===== src/Native/Operations.antt =====
-- Which operations keep the C objects and their owners in balance.
use wasmtime_go.Base.{
  ℕ, ◌≡◌, ◌∙◌, refl, sym, ap, Bool, true, false, not, ◌||◌, Option, none, some, List, ◌⊎◌, inl, inr,
  ◌==◌, get_elem?, arith, Bool-cases, if◌then◌else◌,
}
use wasmtime_go.Go.Value.{runtime_error, nil_dereference}
use wasmtime_go.Go.Outcome.{Outcome, Exec, ok, panic, and_then, return, ◌>>=◌, ◌>>◌}
use wasmtime_go.Native.{
  Class, Object, Event, State, Wasmtime, Request, code, find, if_class, load, mk_object, call,
  collect, create, construct, mk_error, checked, error_if, ptr,
}
use wasmtime_go.Native.Trace.{held, live, may_be_nil}
use wasmtime_go.Native.Owned.{is_argument, is_shaped_by, is_shaped-get_elem?, Balanced, Owned}
use wasmtime_go.Native.Balance.{
  OwnerAt, OwnerAt-held, created-Balanced, mk_object-Balanced, called-Balanced, deleted-Balanced,
  put-credit, put_idle,
}

-- The memory allocator puts a new object at no address that a live one has.
abbrev pub Fresh : Wasmtime → Type 0
Fresh api = (log : List Event) → held (api.address log) (live log) ≡ false

abbrev class_of : ℕ → Class
class_of n =
    if n == 0
    then Class.config
    else if n == 1
    then Class.engine
    else if n == 2
    then Class.store
    else if n == 3
    then Class.linker
    else if n == 4
    then Class.module'
    else if n == 5
    then Class.wasi_config
    else Class.error

class_of-code : (c : Class) → class_of (code c) ≡ c
class_of-code Class.config = refl
class_of-code Class.engine = refl
class_of-code Class.store = refl
class_of-code Class.linker = refl
class_of-code Class.module' = refl
class_of-code Class.wasi_config = refl
class_of-code Class.error = refl

pub record Loaded (class : Class) (ref : ℕ) (s : State) : Type 0 where
  pub object : Object
  pub at : get_elem? s.objects ref ≡ some (some object)
  pub of_class : object.class ≡ class
  pub loads : load class ref s ≡ (ok object, s)

if_class-cases :
    (class : Class) (o : Object)
    → (if_class class o ≡ none) ⊎ ((o.class ≡ class) × (if_class class o ≡ some o))
if_class-cases class o = elim (Bool-cases (code o.class == code class)) [
  | inl same ↦
      let equal : code o.class ≡ code class = ground arith in
      inr (sym (class_of-code o.class) ∙ ap class_of equal ∙ class_of-code class, rw same refl)
  | inr other ↦ inl (rw other refl)
]

find-cases :
    (class : Class) (x : Option (Option Object))
    → (find class x ≡ none)
      ⊎ ((o : Object) × (x ≡ some (some o)) × (o.class ≡ class) × (find class x ≡ some o))
find-cases class none = inl refl
find-cases class (some none) = inl refl
find-cases class (some (some o)) = elim (if_class-cases class o) [
  | inl e ↦ inl e
  | inr (same, e) ↦ inr (o, refl, same, e)
]

-- A reference of a type loads the object, or is nil.
pub load-cases :
    (class : Class) (ref : ℕ) (s : State)
    → (load class ref s ≡ (panic (runtime_error nil_dereference), s)) ⊎ Loaded class ref s
load-cases class ref s = elim (find-cases class (get_elem? s.objects ref)) [
  | inl missing ↦ inl (rw missing refl)
  | inr (o, at, same, found) ↦
      inr (record { object = o; at = at; of_class = same; loads = rw found refl })
]

shaped-cases :
    (class : Class) (on : Bool) (ptr : Option ℕ)
    → is_shaped_by class on ptr ≡ true
    → ((p : ℕ) × (ptr ≡ some p) × (on ≡ true))
      ⊎ ((ptr ≡ none) × (on ≡ false) × (is_argument class ≡ true))
shaped-cases class true none h = absurd (ground arith)
shaped-cases class true (some p) h = inl (p, refl, refl)
shaped-cases class false none h = inr (refl, refl, h)
shaped-cases class false (some p) h = absurd (ground arith)

-- An object that is loaded owns its C object, or is a configuration that was used up.
pub Loaded-cases :
    {class : Class} {ref : ℕ} {s : State} {debts credits : List ℕ}
    → Balanced debts credits s
    → (l : Loaded class ref s)
    → ((p : ℕ) × OwnerAt s ref p l.object)
      ⊎ ((l.object.ptr ≡ none) × (l.object.finalizer ≡ false) × (is_argument class ≡ true))
Loaded-cases {class} {ref} {s} b l =
    let shaped = is_shaped-get_elem? s.objects ref _ b.shaped l.at in
    elim (shaped-cases l.object.class l.object.finalizer l.object.ptr shaped) [
      | inl (p, points, deletes) ↦ inl (p, record { at = l.at; points = points; deletes = deletes })
      | inr (missing, off, argument) ↦
          inr (missing, off, ap is_argument (sym l.of_class) ∙ argument)
    ]

abbrev pub Preserves : {A : Type 0} → Exec State A → Type 0
Preserves m = (s : State) → Owned s → Owned (m s).1

and_then-Owned :
    {A B : Type 0} (r : Outcome A) (s : State) (f : A → Exec State B)
    → Owned s
    → ((a : A) → Preserves (f a))
    → Owned (and_then (r, s) f).1
and_then-Owned (ok a) s f h k = k a s h
and_then-Owned (panic v) s f h k = h

pub bind-Preserves :
    {A B : Type 0} (m : Exec State A) (f : A → Exec State B)
    → Preserves m
    → ((a : A) → Preserves (f a))
    → Preserves (m >>= f)
bind-Preserves m f h k s owned = and_then-Owned (m s).0 (m s).1 f (h s owned) k

pub return-Preserves : {A : Type 0} (a : A) → Preserves (return a)
return-Preserves a s h = h

-- An operation that starts by loading an object is one to prove where there is an object.
pub load-Preserves :
    {A : Type 0} (class : Class) (ref : ℕ) (f : Object → Exec State A)
    → ((s : State) → Owned s → (l : Loaded class ref s) → Owned (f l.object s).1)
    → Preserves (load class ref >>= f)
load-Preserves class ref f k s h = elim (load-cases class ref s) [
  | inl missing ↦ rw missing h
  | inr l ↦ rw l.loads (k s h l)
]

-- A method of an object that is no configuration, or does not test its pointer.
pub call-Preserves :
    (class : Class) (ref : ℕ) (request : Request)
    → not (is_argument class) || may_be_nil class ≡ true
    → Preserves (call class ref request)
unfolding call ptr
call-Preserves class ref request may s h = elim (load-cases class ref s) [
  | inl missing ↦ rw missing h
  | inr l ↦ rw l.loads (elim (Loaded-cases h l) [
    | inl (p, a) ↦ rw a.points (called-Balanced class (some p) request h (OwnerAt-held h a))
    | inr (missing, off, argument) ↦
        rw missing (called-Balanced class none request h (ground arith))
  ])
]

pub collect-Preserves : (class : Class) (ref : ℕ) → Preserves (collect class ref)
unfolding collect
collect-Preserves class ref s h = elim (load-cases class ref s) [
  | inl missing ↦ rw missing h
  | inr l ↦ rw l.loads (elim (Loaded-cases h l) [
    | inl (p, a) ↦
        rw (a.points, a.deletes)
          (deleted-Balanced l.object.class p (put-credit ref none (λ q. refl) refl p l.object a h)
            (OwnerAt-held h a))
    | inr (missing, off, argument) ↦ rw off (put_idle ref none (λ q. refl) refl l.object l.at off h)
  ])
]

module _ (api : Wasmtime) (fresh : Fresh api) where
  pub construct-Preserves : (class : Class) → Preserves (construct api class)
  unfolding construct create
  construct-Preserves class s h =
      mk_object-Balanced class _ (created-Balanced class _ h (fresh s.log))

  error_if-Preserves : (b : Bool) → Preserves (error_if api b)
  unfolding mk_error construct create mk_object
  error_if-Preserves false s h = h
  error_if-Preserves true s h = construct-Preserves Class.error s h

  pub checked-Preserves : Preserves (checked api)
  unfolding checked
  checked-Preserves s h = error_if-Preserves (api.fails s.log) s h

  -- A method that reports an error, and what follows a call that may fail.
  pub call-checked-Preserves :
      (class : Class) (ref : ℕ) (request : Request)
      → not (is_argument class) || may_be_nil class ≡ true
      → Preserves (call class ref request >> checked api)
  call-checked-Preserves class ref request may =
      bind-Preserves _ _ (call-Preserves class ref request may) (λ _. checked-Preserves)

  pub failing-Preserves :
      {A : Type 0} (f : ℕ → Exec State A)
      → ((e : ℕ) → Preserves (f e))
      → Preserves (mk_error api >>= f)
  unfolding mk_error
  failing-Preserves f k = bind-Preserves _ _ (construct-Preserves Class.error) k
