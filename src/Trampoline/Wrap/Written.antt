-- ===== src/Trampoline/Wrap/Written.antt =====
-- What the type switch of `goTrampolineWrap` writes for one result of a Go function.
use wasmtime_go.Base.{◌≡◌, refl, Bool, true, false, none, some, arith}
use wasmtime_go.Go.Value.{
  CVal, Tag, Any, nil, int, int32, int64, float32, float64, func, caller, val, vals, text, other,
}
use wasmtime_go.Go.Outcome.{ok}
use wasmtime_go.Kind.{externref}
use wasmtime_go.World.{World, GoType}
use wasmtime_go.Registry.Laws.{IsValid}
use wasmtime_go.Val.{val_i32, val_i64, val_f32, val_f64, val_funcref, val_externref}
use wasmtime_go.Val.Access.{named}
use wasmtime_go.Val.Externref.{val_externref_makes}
use wasmtime_go.Infer.{type_to_val_type}
use wasmtime_go.Trampoline.Wrap.{write_result, trap_of}

-- A value whose case in the type switch is the one that its static type was inferred by.
abbrev pub conforms : GoType → Any → Bool
conforms GoType.int32 (int32 n) = true
conforms GoType.int64 (int64 n) = true
conforms GoType.float32 (float32 n) = true
conforms GoType.float64 (float64 n) = true
conforms GoType.func (func f) = true
conforms GoType.caller (caller c) = true
conforms (GoType.other n) nil = true
conforms (GoType.other n) (int m) = true
conforms (GoType.other n) (val v) = true
conforms (GoType.other n) (vals vs) = true
conforms (GoType.other n) (text s) = true
conforms (GoType.other n) (other m k) = true
conforms _ _ = false

-- What the type switch does with one result.
pub record Written (t : GoType) (r : Any) (w : World) : Type 0 where
  pub slot : CVal
  pub after : World
  pub no_trap : trap_of r ≡ none
  pub done : write_result r w ≡ (ok (some slot), after)
  pub kind : named slot.kind ≡ type_to_val_type t
  pub valid : IsValid after.externrefs
  pub same : after.store_data ≡ w.store_data

Written-externref :
    (t : GoType) (r : Any) (w : World)
    → IsValid w.externrefs
    → trap_of r ≡ none
    → externref ≡ type_to_val_type t
    → ((x : CVal) (u : World)
        → val_externref r w ≡ (ok (record { raw = some x }), u)
        → write_result r w ≡ (ok (some x), u))
    → Written t r w
Written-externref t r w h n k step =
    let (of, u, done, valid, same) = val_externref_makes r w h in
    record {
      slot = record { kind = Tag.externref; of = of };
      after = u;
      no_trap = n;
      done = step _ u done;
      kind = k;
      valid = valid;
      same = same;
    }

-- A result whose case of the type switch copies a number or a function.
abbrev Plain : (t : GoType) (r : Any) (w : World) → CVal → Type 0
Plain t r w c =
    (trap_of r ≡ none) × (write_result r w ≡ (ok (some c), w)) × (named c.kind ≡ type_to_val_type t)

Written-Plain :
    (t : GoType) (r : Any) (w : World) (c : CVal)
    → IsValid w.externrefs
    → Plain t r w c
    → Written t r w
Written-Plain t r w c h (n, done, k) = record {
  slot = c;
  after = w;
  no_trap = n;
  done = done;
  kind = k;
  valid = h;
  same = refl;
}

pub write_result-Written :
    (t : GoType) (r : Any) (w : World) → conforms t r ≡ true → IsValid w.externrefs → Written t r w
unfolding write_result trap_of val_i32 val_i64 val_f32 val_f64 val_funcref type_to_val_type
write_result-Written GoType.int32 (int32 n) w c h = Written-Plain _ _ w _ h (refl, refl, refl)
write_result-Written GoType.int64 (int64 n) w c h = Written-Plain _ _ w _ h (refl, refl, refl)
write_result-Written GoType.float32 (float32 n) w c h = Written-Plain _ _ w _ h (refl, refl, refl)
write_result-Written GoType.float64 (float64 n) w c h = Written-Plain _ _ w _ h (refl, refl, refl)
write_result-Written GoType.func (func none) w c h = Written-Plain _ _ w _ h (refl, refl, refl)
write_result-Written GoType.func (func (some f)) w c h = Written-Plain _ _ w _ h (refl, refl, refl)
write_result-Written GoType.caller (caller k) w c h =
    Written-externref GoType.caller (caller k) w h refl refl (λ x u e. rw e refl)
write_result-Written (GoType.other n) nil w c h =
    Written-externref _ nil w h refl refl (λ x u e. rw e refl)
write_result-Written (GoType.other n) (int m) w c h =
    Written-externref _ (int m) w h refl refl (λ x u e. rw e refl)
write_result-Written (GoType.other n) (val v) w c h =
    Written-externref _ (val v) w h refl refl (λ x u e. rw e refl)
write_result-Written (GoType.other n) (vals vs) w c h =
    Written-externref _ (vals vs) w h refl refl (λ x u e. rw e refl)
write_result-Written (GoType.other n) (text s) w c h =
    Written-externref _ (text s) w h refl refl (λ x u e. rw e refl)
write_result-Written (GoType.other n) (other m k) w c h =
    Written-externref _ (other m k) w h refl refl (λ x u e. rw e refl)
write_result-Written t r w c h = absurd (ground arith)
