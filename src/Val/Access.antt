-- ===== src/Val/Access.antt =====
-- Reading a wasm value back, by its kind.
use wasmtime_go.Base.{
  ℕ, String, Bool-cases, inl, inr, ◌≡◌, refl, Bool, true, false, Option, none, some, arith, ◌==◌,
  if◌then◌else◌,
}
use wasmtime_go.Go.Value.{CFunc, Tag, Payload, Any, int32, int64, float32, float64, func, text}
use wasmtime_go.Go.Outcome.{Outcome, Exec, ok, panic, return, and_then}
use wasmtime_go.Kind.{ValKind, i32, i64, f32, f64, externref, funcref, same_kind}
use wasmtime_go.World.{World}
use wasmtime_go.Val.{
  checked, read_externref, i32_get, i64_get, f32_get, f64_get, funcref_get, externref_get, make,
  kind, get, get_i32, get_i64, get_f32, get_f64, get_funcref, get_externref,
}

-- The member that was written last is the one that the tag names, or none was written.
abbrev pub fits : Tag → Payload → Bool
fits (Tag.other n) p = false
fits t Payload.zeroed = true
fits Tag.i32 (Payload.i32 n) = true
fits Tag.i64 (Payload.i64 n) = true
fits Tag.f32 (Payload.f32 n) = true
fits Tag.f64 (Payload.f64 n) = true
fits Tag.funcref (Payload.funcref f) = true
fits Tag.externref (Payload.externref p) = true
fits _ _ = false

-- The kind that a tag names.
abbrev pub named : Tag → ValKind
named Tag.i32 = i32
named Tag.i64 = i64
named Tag.f32 = f32
named Tag.f64 = f64
named Tag.funcref = funcref
named Tag.externref = externref
named (Tag.other n) = ValKind.unknown n

-- Whether Go has a kind for the tag.
abbrev pub known : Tag → Bool
known (Tag.other n) = false
known _ = true

pub kind-make :
    (tag : Tag) (of : Payload) (w : World)
    → known tag ≡ true
    → kind (make tag of) w ≡ (ok (named tag), w)
unfolding kind
kind-make Tag.i32 of w h = refl
kind-make (Tag.other n) of w h = absurd (ground arith)
kind-make tag of w h = refl

-- The dynamic Go type that goes with a kind; any Go value may be an `externref`.
abbrev pub typed : ValKind → Any → Bool
typed i32 (int32 n) = true
typed i64 (int64 n) = true
typed f32 (float32 n) = true
typed f64 (float64 n) = true
typed funcref (func f) = true
typed externref a = true
typed _ _ = false

-- A value whose union holds the member that its tag names has the kind of its tag, and `Get`
-- returns a Go value of the type that goes with this kind. Neither panics, and nothing changes.
pub get-typed :
    (tag : Tag) (of : Payload) (w : World)
    → fits tag of ≡ true
    → (a : Any) × (kind (make tag of) w ≡ (ok (named tag), w))
      × (get (make tag of) w ≡ (ok a, w))
      × (typed (named tag) a ≡ true)
unfolding get
get-typed Tag.i32 Payload.zeroed w h = (int32 0, refl, refl, refl)
get-typed Tag.i32 (Payload.i32 n) w h = (int32 n, refl, refl, refl)
get-typed Tag.i64 Payload.zeroed w h = (int64 0, refl, refl, refl)
get-typed Tag.i64 (Payload.i64 n) w h = (int64 n, refl, refl, refl)
get-typed Tag.f32 Payload.zeroed w h = (float32 0, refl, refl, refl)
get-typed Tag.f32 (Payload.f32 n) w h = (float32 n, refl, refl, refl)
get-typed Tag.f64 Payload.zeroed w h = (float64 0, refl, refl, refl)
get-typed Tag.f64 (Payload.f64 n) w h = (float64 n, refl, refl, refl)
get-typed Tag.funcref Payload.zeroed w h = (func none, refl, refl, refl)
get-typed Tag.funcref (Payload.funcref f) w h = (func _, refl, refl, refl)
get-typed Tag.externref Payload.zeroed w h = (Any.nil, refl, refl, refl)
get-typed Tag.externref (Payload.externref none) w h = (Any.nil, refl, refl, refl)
get-typed Tag.externref (Payload.externref (some env)) w h = (_, refl, refl, refl)
get-typed tag of w h = absurd (ground arith)

-- What an accessor does: it returns and changes nothing, or it panics and changes nothing.
abbrev pub Exactly : {A : Type 0} → Bool → String → Outcome A × World → World → Type 0
Exactly {A} true complaint r w = (a : A) × (r ≡ (ok a, w))
Exactly false complaint r w = r ≡ (panic (text complaint), w)

Exactly-and_then :
    {A B : Type 0} (exact : Bool) (complaint : String) (r : Outcome A × World) (w : World)
    → Exactly exact complaint r w
    → (f : A → Exec World B) → ((a : A) → (b : B) × (f a w ≡ (ok b, w)))
    → Exactly exact complaint (and_then r f) w
Exactly-and_then true complaint r w (a, e) f returns = let (b, done) = returns a in (b, rw e done)
Exactly-and_then false complaint r w e f returns = rw e refl

read_externref_returns : (p : Option ℕ) (w : World) → (a : Any) × (read_externref p w ≡ (ok a, w))
read_externref_returns none w = (Any.nil, refl)
read_externref_returns (some env) w = (_, refl)

checked_exact :
    {A : Type 0} (want : ValKind) (complaint : String) (read : Payload → Option A) (tag : Tag)
    (of : Payload) (w : World)
    → fits tag of ≡ true
    → (same_kind (named tag) want ≡ true → (a : A) × (read of ≡ some a))
    → Exactly (same_kind (named tag) want) complaint (checked want complaint read (make tag of) w) w
checked_exact want complaint read tag of w h reads =
    let (_, named_kind, _, _) = get-typed tag of w h in
    elim (Bool-cases (same_kind (named tag) want)) [
      | inl same ↦ let (a, e) = reads same in rw same (a, rw named_kind (rw same (rw e refl)))
      | inr differ ↦ rw differ (rw named_kind (rw differ refl))
    ]

reads_i32 :
    (tag : Tag) (of : Payload)
    → fits tag of ≡ true
    → same_kind (named tag) i32 ≡ true
    → (a : ℕ) × (i32_get of ≡ some a)
unfolding same_kind i32_get
reads_i32 Tag.i32 Payload.zeroed h k = (0, refl)
reads_i32 Tag.i32 (Payload.i32 n) h k = (n, refl)
reads_i32 tag of h k = absurd (ground arith)

reads_i64 :
    (tag : Tag) (of : Payload)
    → fits tag of ≡ true
    → same_kind (named tag) i64 ≡ true
    → (a : ℕ) × (i64_get of ≡ some a)
unfolding same_kind i64_get
reads_i64 Tag.i64 Payload.zeroed h k = (0, refl)
reads_i64 Tag.i64 (Payload.i64 n) h k = (n, refl)
reads_i64 tag of h k = absurd (ground arith)

reads_f32 :
    (tag : Tag) (of : Payload)
    → fits tag of ≡ true
    → same_kind (named tag) f32 ≡ true
    → (a : ℕ) × (f32_get of ≡ some a)
unfolding same_kind f32_get
reads_f32 Tag.f32 Payload.zeroed h k = (0, refl)
reads_f32 Tag.f32 (Payload.f32 n) h k = (n, refl)
reads_f32 tag of h k = absurd (ground arith)

reads_f64 :
    (tag : Tag) (of : Payload)
    → fits tag of ≡ true
    → same_kind (named tag) f64 ≡ true
    → (a : ℕ) × (f64_get of ≡ some a)
unfolding same_kind f64_get
reads_f64 Tag.f64 Payload.zeroed h k = (0, refl)
reads_f64 Tag.f64 (Payload.f64 n) h k = (n, refl)
reads_f64 tag of h k = absurd (ground arith)

reads_funcref :
    (tag : Tag) (of : Payload)
    → fits tag of ≡ true
    → same_kind (named tag) funcref ≡ true
    → (a : CFunc) × (funcref_get of ≡ some a)
unfolding same_kind funcref_get
reads_funcref Tag.funcref Payload.zeroed h k = (_, refl)
reads_funcref Tag.funcref (Payload.funcref f) h k = (f, refl)
reads_funcref tag of h k = absurd (ground arith)

reads_externref :
    (tag : Tag) (of : Payload)
    → fits tag of ≡ true
    → same_kind (named tag) externref ≡ true
    → (a : Option ℕ) × (externref_get of ≡ some a)
unfolding same_kind externref_get
reads_externref Tag.externref Payload.zeroed h k = (none, refl)
reads_externref Tag.externref (Payload.externref p) h k = (p, refl)
reads_externref tag of h k = absurd (ground arith)

-- An accessor of a value whose union fits its tag returns, with nothing changed, exactly if the value has
-- the accessor's kind, and otherwise panics with its message: `I32`, `I64`, `F32`, `F64`, and the
-- reads of the union in `Funcref` and `Externref`.
pub accessors_exact :
    (tag : Tag) (of : Payload) (w : World)
    → fits tag of ≡ true
    → let v = make tag of in
      let is = same_kind (named tag) in
      Exactly (is i32) "not an i32" (get_i32 v w) w
      × Exactly (is i64) "not an i64" (get_i64 v w) w
      × Exactly (is f32) "not an f32" (get_f32 v w) w
      × Exactly (is f64) "not an f64" (get_f64 v w) w
      × Exactly (is funcref) "not a funcref" (get_funcref v w) w
      × Exactly (is externref) "not an externref" (get_externref v w) w
unfolding get_i32 get_i64 get_f32 get_f64 get_funcref get_externref
accessors_exact tag of w h =
    let is = same_kind (named tag) in
    (
      checked_exact i32 "not an i32" i32_get tag of w h (reads_i32 tag of h),
      checked_exact i64 "not an i64" i64_get tag of w h (reads_i64 tag of h),
      checked_exact f32 "not an f32" f32_get tag of w h (reads_f32 tag of h),
      checked_exact f64 "not an f64" f64_get tag of w h (reads_f64 tag of h),
      Exactly-and_then (is funcref) "not a funcref" _ w
          (checked_exact funcref "not a funcref" funcref_get tag of w h (reads_funcref tag of h))
          (λ f. return (if f.store_id == 0 then none else some f)) (λ f. (_, refl)),
      Exactly-and_then (is externref) "not an externref" _ w
          (checked_exact externref "not an externref" externref_get tag of w h
            (reads_externref tag of h))
          read_externref (λ p. read_externref_returns p w),
    )
