-- ===== src/Call/Numbers.antt =====
-- Numbers on their way through `Func.Call`: as Go values and as C values.
use wasmtime_go.Base.{
  ℕ, ◌+◌, ◌≡◌, refl, ap, true, Option, none, some, List, [], ◌∷◌, arith, length, map,
}
use wasmtime_go.Go.Value.{Tag, Payload, CVal, Val, Any, nil, int32, int64, float32, float64, vals}
use wasmtime_go.Go.Outcome.{ok}
use wasmtime_go.Kind.{ValKind, FuncType}
use wasmtime_go.World.{World}
use wasmtime_go.Val.{mk_val, get}
use wasmtime_go.Trampoline.New.Kinds.{all_known, kinds_of}
use wasmtime_go.Call.{ready, c_val, convert, convert_all, collect}

-- A number of wasm: as a Go value, as a C value, and its kind.
pub data Number : Type 0 where
  i32 i64 f32 f64 : ℕ → Number

abbrev pub any_of : Number → Any
any_of (Number.i32 n) = int32 n
any_of (Number.i64 n) = int64 n
any_of (Number.f32 n) = float32 n
any_of (Number.f64 n) = float64 n

abbrev pub c_of : Number → CVal
c_of (Number.i32 n) = c_val Tag.i32 (Payload.i32 n)
c_of (Number.i64 n) = c_val Tag.i64 (Payload.i64 n)
c_of (Number.f32 n) = c_val Tag.f32 (Payload.f32 n)
c_of (Number.f64 n) = c_val Tag.f64 (Payload.f64 n)

abbrev pub kind_of : Number → ValKind
kind_of (Number.i32 n) = ValKind.i32
kind_of (Number.i64 n) = ValKind.i64
kind_of (Number.f32 n) = ValKind.f32
kind_of (Number.f64 n) = ValKind.f64

abbrev pub vals_of : List Number → List Val
vals_of xs = map mk_val (map c_of xs)

abbrev pub type_of : List Number → List Number → FuncType
type_of xs ys = record { params = map kind_of xs; results = map kind_of ys }

-- What Call hands out for these results: nothing, the number, or a list.
abbrev pub packed : List Number → Any
packed [] = nil
packed (y ∷ []) = any_of y
packed (y ∷ z ∷ ys) = vals (vals_of (y ∷ z ∷ ys))

-- A slot of the results that is not written keeps its zeros.
abbrev pub slot : Option CVal → CVal
slot none = c_val Tag.i32 Payload.zeroed
slot (some c) = c

pub slot-some : (cs : List CVal) → map slot (map some cs) ≡ cs
slot-some [] = refl
slot-some (c ∷ cs) = ap (λ ds. c ∷ ds) (slot-some cs)

pub all_known-c_of : (xs : List Number) → all_known (map c_of xs) ≡ true
all_known-c_of [] = refl
all_known-c_of (Number.i32 n ∷ xs) = all_known-c_of xs
all_known-c_of (Number.i64 n ∷ xs) = all_known-c_of xs
all_known-c_of (Number.f32 n ∷ xs) = all_known-c_of xs
all_known-c_of (Number.f64 n ∷ xs) = all_known-c_of xs

pub kinds_of-c_of : (xs : List Number) → kinds_of (map c_of xs) ≡ map kind_of xs
kinds_of-c_of [] = refl
kinds_of-c_of (Number.i32 n ∷ xs) = ap (λ ks. ValKind.i32 ∷ ks) (kinds_of-c_of xs)
kinds_of-c_of (Number.i64 n ∷ xs) = ap (λ ks. ValKind.i64 ∷ ks) (kinds_of-c_of xs)
kinds_of-c_of (Number.f32 n ∷ xs) = ap (λ ks. ValKind.f32 ∷ ks) (kinds_of-c_of xs)
kinds_of-c_of (Number.f64 n ∷ xs) = ap (λ ks. ValKind.f64 ∷ ks) (kinds_of-c_of xs)

pub length-any_of : (xs : List Number) → length (map any_of xs) ≡ length (map kind_of xs)
length-any_of [] = refl
length-any_of (x ∷ xs) = omega (arith, length-any_of xs)

convert-any_of :
    (params : List ValKind) (i : ℕ) (x : Number) (w : World)
    → convert params i (any_of x) w ≡ (ok (ready (c_of x)), w)
unfolding convert
convert-any_of params i (Number.i32 n) w = refl
convert-any_of params i (Number.i64 n) w = refl
convert-any_of params i (Number.f32 n) w = refl
convert-any_of params i (Number.f64 n) w = refl

pub convert_all-any_of :
    (params : List ValKind) (i : ℕ) (xs : List Number) (w : World)
    → convert_all params i (map any_of xs) w ≡ (ok (ready (map c_of xs)), w)
unfolding convert_all
convert_all-any_of params i [] w = refl
convert_all-any_of params i (x ∷ xs) w =
    rw (convert-any_of params i x w) (rw (convert_all-any_of params (i + 1) xs w) refl)

pub get-c_of : (y : Number) (w : World) → get (mk_val (c_of y)) w ≡ (ok (any_of y), w)
unfolding get
get-c_of (Number.i32 n) w = refl
get-c_of (Number.i64 n) w = refl
get-c_of (Number.f32 n) w = refl
get-c_of (Number.f64 n) w = refl

pub collect-c_of : (ys : List Number) (w : World) → collect (map c_of ys) w ≡ (ok (packed ys), w)
unfolding collect
collect-c_of [] w = refl
collect-c_of (y ∷ []) w = get-c_of y w
collect-c_of (y ∷ z ∷ ys) w = refl
