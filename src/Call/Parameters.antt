-- ===== src/Call/Parameters.antt =====
-- Numbers as the parameters and the results of a Go function that `WrapFunc` is given.
use mathlib.Core.Path.{ap₂}
use wasmtime_go.Base.{ℕ, ◌≡◌, refl, ap, ◌∙◌, true, false, Option, none, some, List, [], ◌∷◌, map}
use wasmtime_go.Go.Value.{Any}
use wasmtime_go.Go.Outcome.{ok}
use wasmtime_go.World.{World, Host, GoType, Callback}
use wasmtime_go.Val.{val_i32, val_i64, val_f32, val_f64}
use wasmtime_go.Infer.{type_to_val_type, infer_func_type}
use wasmtime_go.Infer.Spec.{without_callers, without_last_trap, infer_func_type-map}
use wasmtime_go.Trampoline.Wrap.{
  any_nil, all_fit, after_reflect_call, write_result, trap_of, write_results,
}
use wasmtime_go.Trampoline.Wrap.Params.{Passes, done, the_caller, value}
use wasmtime_go.Call.Numbers.{Number, any_of, c_of, kind_of, type_of, get-c_of}

abbrev pub go_type : Number → GoType
go_type (Number.i32 n) = GoType.int32
go_type (Number.i64 n) = GoType.int64
go_type (Number.f32 n) = GoType.float32
go_type (Number.f64 n) = GoType.float64

-- A parameter of the Go function: none is the `*Caller`.
abbrev pub param_type : Option Number → GoType
param_type none = GoType.caller
param_type (some x) = go_type x

abbrev pub param : ℕ → Option Number → Any
param c none = Any.caller c
param c (some x) = any_of x

abbrev pub numbers : List (Option Number) → List Number
numbers [] = []
numbers (none ∷ ps) = numbers ps
numbers (some x ∷ ps) = x ∷ numbers ps

abbrev pub function : List (Option Number) → List Number → ℕ → Callback
function ps ys code = record {
  signature = record { ins = map param_type ps; outs = map go_type ys };
  code = code;
}

kind-go_type : (x : Number) → type_to_val_type (go_type x) ≡ kind_of x
unfolding type_to_val_type
kind-go_type (Number.i32 n) = refl
kind-go_type (Number.i64 n) = refl
kind-go_type (Number.f32 n) = refl
kind-go_type (Number.f64 n) = refl

without_callers-param :
    (ps : List (Option Number)) → without_callers (map param_type ps) ≡ map go_type (numbers ps)
without_callers-param [] = refl
without_callers-param (none ∷ ps) = without_callers-param ps
without_callers-param (some (Number.i32 n) ∷ ps) =
    ap (λ ts. GoType.int32 ∷ ts) (without_callers-param ps)
without_callers-param (some (Number.i64 n) ∷ ps) =
    ap (λ ts. GoType.int64 ∷ ts) (without_callers-param ps)
without_callers-param (some (Number.f32 n) ∷ ps) =
    ap (λ ts. GoType.float32 ∷ ts) (without_callers-param ps)
without_callers-param (some (Number.f64 n) ∷ ps) =
    ap (λ ts. GoType.float64 ∷ ts) (without_callers-param ps)

without_last_trap-go_type : (ys : List Number) → without_last_trap (map go_type ys) ≡ map go_type ys
without_last_trap-go_type [] = refl
without_last_trap-go_type (Number.i32 n ∷ []) = refl
without_last_trap-go_type (Number.i64 n ∷ []) = refl
without_last_trap-go_type (Number.f32 n ∷ []) = refl
without_last_trap-go_type (Number.f64 n ∷ []) = refl
without_last_trap-go_type (y ∷ z ∷ ys) =
    ap (λ ts. go_type y ∷ ts) (without_last_trap-go_type (z ∷ ys))

kinds-go_type : (xs : List Number) → map type_to_val_type (map go_type xs) ≡ map kind_of xs
kinds-go_type [] = refl
kinds-go_type (x ∷ xs) = ap₂ (λ k ks. k ∷ ks) (kind-go_type x) (kinds-go_type xs)

pub infer-function :
    (ps : List (Option Number)) (ys : List Number) (code : ℕ)
    → infer_func_type (some (function ps ys code).signature) ≡ ok (type_of (numbers ps) ys)
infer-function ps ys code =
    infer_func_type-map (function ps ys code).signature
    ∙ ap₂ (λ as' bs. ok (record { params = as'; results = bs }))
        (ap (map type_to_val_type) (without_callers-param ps) ∙ kinds-go_type (numbers ps))
        (ap (map type_to_val_type) (without_last_trap-go_type ys) ∙ kinds-go_type ys)

pub Passes-param :
    (c : ℕ) (w : World) (ps : List (Option Number))
    → Passes c w (map param_type ps) (map c_of (numbers ps)) (map (param c) ps)
Passes-param c w [] = done
Passes-param c w (none ∷ ps) = the_caller (Passes-param c w ps)
Passes-param c w (some (Number.i32 n) ∷ ps) =
    value _ _ _ refl (get-c_of (Number.i32 n) w) (Passes-param c w ps)
Passes-param c w (some (Number.i64 n) ∷ ps) =
    value _ _ _ refl (get-c_of (Number.i64 n) w) (Passes-param c w ps)
Passes-param c w (some (Number.f32 n) ∷ ps) =
    value _ _ _ refl (get-c_of (Number.f32 n) w) (Passes-param c w ps)
Passes-param c w (some (Number.f64 n) ∷ ps) =
    value _ _ _ refl (get-c_of (Number.f64 n) w) (Passes-param c w ps)

pub any_nil-param : (c : ℕ) (ps : List (Option Number)) → any_nil (map (param c) ps) ≡ false
any_nil-param c [] = refl
any_nil-param c (none ∷ ps) = any_nil-param c ps
any_nil-param c (some (Number.i32 n) ∷ ps) = any_nil-param c ps
any_nil-param c (some (Number.i64 n) ∷ ps) = any_nil-param c ps
any_nil-param c (some (Number.f32 n) ∷ ps) = any_nil-param c ps
any_nil-param c (some (Number.f64 n) ∷ ps) = any_nil-param c ps

pub all_fit-param :
    (host : Host) (c : ℕ) (ps : List (Option Number))
    → all_fit host (map param_type ps) (map (param c) ps) ≡ true
all_fit-param host c [] = refl
all_fit-param host c (none ∷ ps) = all_fit-param host c ps
all_fit-param host c (some (Number.i32 n) ∷ ps) = all_fit-param host c ps
all_fit-param host c (some (Number.i64 n) ∷ ps) = all_fit-param host c ps
all_fit-param host c (some (Number.f32 n) ∷ ps) = all_fit-param host c ps
all_fit-param host c (some (Number.f64 n) ∷ ps) = all_fit-param host c ps

write_results-any_of :
    (ptr : Option ℕ) (ys : List Number) (w : World)
    → write_results ptr (map any_of ys) w
      ≡ (ok (record { trap = none; written = map some (map c_of ys) }), w)
unfolding write_results write_result trap_of val_i32 val_i64 val_f32 val_f64
write_results-any_of ptr [] w = refl
write_results-any_of ptr (Number.i32 n ∷ ys) w = rw (write_results-any_of ptr ys w) refl
write_results-any_of ptr (Number.i64 n ∷ ys) w = rw (write_results-any_of ptr ys w) refl
write_results-any_of ptr (Number.f32 n ∷ ys) w = rw (write_results-any_of ptr ys w) refl
write_results-any_of ptr (Number.f64 n ∷ ys) w = rw (write_results-any_of ptr ys w) refl

pub after_reflect_call-any_of :
    (host : Host) (ptr : Option ℕ) (ys : List Number) (w : World)
    → after_reflect_call host ptr (ok (map any_of ys), w)
      ≡ (ok (record { trap = none; written = map some (map c_of ys) }), w)
unfolding after_reflect_call
after_reflect_call-any_of host ptr ys w = write_results-any_of ptr ys w
