-- ===== src/Val.antt =====
-- val.go: wasm values, and the table of Go values that wasm holds as `externref`. A read or a write
-- of a union's member is the accessor of shims.h.
pub mod Access
pub mod Externref
use wasmtime_go.Base.{ℕ, String, not, Option, none, some, ◌==◌, if◌then◌else◌}
use wasmtime_go.Base.Word.{inc, dec}
use wasmtime_go.Go.Value.{
  CFunc, Tag, Payload, CVal, Val, Any, nil, int32, int64, float32, float64, func, text,
}
use wasmtime_go.Go.Outcome.{Exec, return, throw, gets, or_nil, or_unspecified, ◌>>=◌, zoom}
use wasmtime_go.Kind.{ValKind, i32, i64, f32, f64, externref, funcref, unknown, same_kind}
use wasmtime_go.Registry
use wasmtime_go.Registry.{Registry}
use wasmtime_go.World.{World}

abbrev pub in_externrefs : {A : Type 0} → Exec (Registry Any) A → Exec World A
in_externrefs = zoom (λ w. w.externrefs) (λ r w. record w { externrefs = r })

abbrev pub make : Tag → Payload → Val
make kind of = record { raw = some (record { kind = kind; of = of }) }

-- ValI32, ValI64, ValF32, ValF64
unfoldable pub val_i32 : ℕ → Val
val_i32 n = make Tag.i32 (Payload.i32 n)

unfoldable pub val_i64 : ℕ → Val
val_i64 n = make Tag.i64 (Payload.i64 n)

unfoldable pub val_f32 : ℕ → Val
val_f32 n = make Tag.f32 (Payload.f32 n)

unfoldable pub val_f64 : ℕ → Val
val_f64 n = make Tag.f64 (Payload.f64 n)

-- ValFuncref; the union stays zeroed for a nil `*Func`
unfoldable pub val_funcref : Option CFunc → Val
val_funcref none = make Tag.funcref Payload.zeroed
val_funcref (some f) = make Tag.funcref (Payload.funcref f)

store_externref : Any → Exec World Val
store_externref v = do
  index ← in_externrefs (Registry.insert v)
  return (make Tag.externref (Payload.externref (some (inc index))))

-- ValExternref
unfoldable pub val_externref : Any → Exec World Val
unfolding store_externref
val_externref nil = return (make Tag.externref Payload.zeroed)
val_externref v = store_externref v

-- goFinalizeExternref
unfoldable pub go_finalize_externref : ℕ → Exec World (Unit {0})
go_finalize_externref env = in_externrefs (Registry.remove (dec env))

-- mkVal and takeVal: a `Val` with a copy of a C value
abbrev pub mk_val : CVal → Val
mk_val c = record { raw = some c }

kind_of_tag : Tag → Exec World ValKind
kind_of_tag Tag.i32 = return i32
kind_of_tag Tag.i64 = return i64
kind_of_tag Tag.f32 = return f32
kind_of_tag Tag.f64 = return f64
kind_of_tag Tag.funcref = return funcref
kind_of_tag Tag.externref = return externref
kind_of_tag (Tag.other n) = throw (text "failed to get kind of `Val`")

-- Kind
unfoldable pub kind : Val → Exec World ValKind
unfolding kind_of_tag
kind v = do c ← or_nil v.raw; kind_of_tag c.kind

-- go_wasmtime_val_i32_get and so on
i32_get : Payload → Option ℕ
i32_get Payload.zeroed = some 0
i32_get (Payload.i32 n) = some n
i32_get _ = none

i64_get : Payload → Option ℕ
i64_get Payload.zeroed = some 0
i64_get (Payload.i64 n) = some n
i64_get _ = none

f32_get : Payload → Option ℕ
f32_get Payload.zeroed = some 0
f32_get (Payload.f32 n) = some n
f32_get _ = none

f64_get : Payload → Option ℕ
f64_get Payload.zeroed = some 0
f64_get (Payload.f64 n) = some n
f64_get _ = none

funcref_get : Payload → Option CFunc
funcref_get Payload.zeroed = some (record { store_id = 0; index = 0 })
funcref_get (Payload.funcref f) = some f
funcref_get _ = none

externref_get : Payload → Option (Option ℕ)
externref_get Payload.zeroed = some none
externref_get (Payload.externref p) = some p
externref_get _ = none

-- if v.Kind() != want { panic(complaint) }, and then the read of the union
abbrev checked : {A : Type 0} → ValKind → String → (Payload → Option A) → Val → Exec World A
checked want complaint get v = do
  k ← kind v
  if not (same_kind k want)
      then throw (text complaint)
      else do c ← or_nil v.raw; or_unspecified (get c.of)

-- I32, I64, F32, F64
unfoldable pub get_i32 : Val → Exec World ℕ
unfolding kind i32_get same_kind
get_i32 = checked i32 "not an i32" i32_get

unfoldable pub get_i64 : Val → Exec World ℕ
unfolding kind i64_get same_kind
get_i64 = checked i64 "not an i64" i64_get

unfoldable pub get_f32 : Val → Exec World ℕ
unfolding kind f32_get same_kind
get_f32 = checked f32 "not an f32" f32_get

unfoldable pub get_f64 : Val → Exec World ℕ
unfolding kind f64_get same_kind
get_f64 = checked f64 "not an f64" f64_get

-- Funcref; a store id of 0 is the null `funcref`
unfoldable pub get_funcref : Val → Exec World (Option CFunc)
unfolding kind funcref_get same_kind
get_funcref v = do
  f ← checked funcref "not a funcref" funcref_get v
  return (if f.store_id == 0 then none else some f)

abbrev or_nil_any : Option Any → Any
or_nil_any none = nil
or_nil_any (some v) = v

-- gExternrefMap[int(uintptr(data))-1]; a missing key reads as nil
abbrev read_externref : Option ℕ → Exec World Any
read_externref none = return nil
read_externref (some env) = gets (λ w. or_nil_any (w.externrefs.entries (dec env)))

-- Externref
unfoldable pub get_externref : Val → Exec World Any
unfolding kind externref_get same_kind
get_externref v = do ptr ← checked externref "not an externref" externref_get v; read_externref ptr

get_at : ValKind → Val → Exec World Any
get_at i32 v = do n ← get_i32 v; return (int32 n)
get_at i64 v = do n ← get_i64 v; return (int64 n)
get_at f32 v = do n ← get_f32 v; return (float32 n)
get_at f64 v = do n ← get_f64 v; return (float64 n)
get_at funcref v = do f ← get_funcref v; return (func f)
get_at externref v = get_externref v
get_at (unknown n) v = throw (text "failed to get value of `Val`")

-- Get
unfoldable pub get : Val → Exec World Any
unfolding kind get_at get_i32 get_i64 get_f32 get_f64 get_funcref get_externref
get v = do k ← kind v; get_at k v
