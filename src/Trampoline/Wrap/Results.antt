-- ===== src/Trampoline/Wrap/Results.antt =====
-- The results of a wrapped Go function against the type that was inferred for it.
use mathlib.Core.Path.{ap₂}
use wasmtime_go.Base.{
  ℕ, ◌≡◌, refl, ap, sym, ◌∙◌, Bool, true, false, ◌&&◌, Option, none, some, List, [], ◌∷◌, map,
  arith,
}
use wasmtime_go.Go.Value.{CVal, Any, trap}
use wasmtime_go.Go.Outcome.{Exec, ok}
use wasmtime_go.Kind.{ValKind}
use wasmtime_go.World.{World, GoType}
use wasmtime_go.Registry.Laws.{IsValid}
use wasmtime_go.Val.Access.{named}
use wasmtime_go.Infer.{type_to_val_type, is_trap, infer_func_type}
use wasmtime_go.Infer.Spec.{without_last_trap, infer_func_type-map}
use wasmtime_go.Trampoline.{Reply}
use wasmtime_go.Trampoline.Wrap.{write_result, write_next, write_results, trap_of}
use wasmtime_go.Trampoline.Wrap.Written.{conforms, Written, write_result-Written}

-- The results of a call that did not trap: a last `*Trap` is nil, and no other result is of this type.
abbrev pub conform : List GoType → List Any → Bool
conform [] [] = true
conform (GoType.trap ∷ []) (trap none ∷ []) = true
conform (t ∷ ts) (r ∷ rs) = conforms t r && conform ts rs
conform _ _ = false

-- The kinds of the slots that are written.
abbrev pub kinds_written : List (Option CVal) → List ValKind
kinds_written [] = []
kinds_written (none ∷ slots) = kinds_written slots
kinds_written (some c ∷ slots) = named c.kind ∷ kinds_written slots

-- What the loop does with results that conform to the types of the Go function.
record Loop (ptr : Option ℕ) (outs : List GoType) (rs : List Any) (w : World) : Type 0 where
  slots : List (Option CVal)
  after : World
  done : write_results ptr rs w ≡ (ok (record { trap = none; written = slots }), after)
  kinds : kinds_written slots ≡ map type_to_val_type (without_last_trap outs)
  same : after.store_data ≡ w.store_data

without_last_trap-cons :
    (t : GoType) (ts : List GoType)
    → is_trap t ≡ false
    → without_last_trap (t ∷ ts) ≡ t ∷ without_last_trap ts
without_last_trap-cons t [] h = rw h refl
without_last_trap-cons t (u ∷ ts) h = refl

conforms-is_trap : (t : GoType) (r : Any) → conforms t r ≡ true → is_trap t ≡ false
conforms-is_trap GoType.trap r h = absurd (ground arith)
conforms-is_trap t r h = refl

write_next-some :
    (ptr : Option ℕ) (r : Any) (later : Exec World Reply) (w u v : World) (slot : CVal)
    (slots : List (Option CVal))
    → trap_of r ≡ none
    → write_result r w ≡ (ok (some slot), u)
    → later u ≡ (ok (record { trap = none; written = slots }), v)
    → write_next ptr r later w ≡ (ok (record { trap = none; written = some slot ∷ slots }), v)
unfolding write_next
write_next-some ptr r later w u v slot slots n one rest = rw (n, write_next) (rw one (rw rest refl))

Loop-join :
    (ptr : Option ℕ) (t : GoType) (ts : List GoType) (r : Any) (rs : List Any) (w : World)
    → conforms t r ≡ true
    → (one : Written t r w) → Loop ptr ts rs one.after
    → Loop ptr (t ∷ ts) (r ∷ rs) w
Loop-join ptr t ts r rs w fits one rest = record {
  slots = some one.slot ∷ rest.slots;
  after = rest.after;
  done =
      unfold write_results in
      write_next-some ptr r (write_results ptr rs) w one.after rest.after one.slot rest.slots
        one.no_trap one.done rest.done;
  kinds =
      ap₂ (λ k ks. k ∷ ks) one.kind rest.kinds
      ∙ sym (ap (map type_to_val_type) (without_last_trap-cons t ts (conforms-is_trap t r fits)));
  same = rest.same ∙ one.same;
}

Loop-step :
    (ptr : Option ℕ) (t : GoType) (ts : List GoType) (r : Any) (rs : List Any) (w : World)
    → (conforms t r && conform ts rs) ≡ true
    → IsValid w.externrefs
    → ((u : World) → conform ts rs ≡ true → IsValid u.externrefs → Loop ptr ts rs u)
    → Loop ptr (t ∷ ts) (r ∷ rs) w
Loop-step ptr t ts r rs w c h later =
    let fits : conforms t r ≡ true = ground arith in
    let one = write_result-Written t r w fits h in
    Loop-join ptr t ts r rs w fits one (later one.after (ground arith) one.valid)

loop_lem :
    (ptr : Option ℕ) (outs : List GoType) (rs : List Any) (w : World)
    → conform outs rs ≡ true
    → IsValid w.externrefs
    → Loop ptr outs rs w
unfolding write_results write_next trap_of
loop_lem ptr [] [] w c h = record { slots = []; after = w; done = refl; kinds = refl; same = refl }
loop_lem ptr [] (r ∷ rs) w c h = absurd (ground arith)
loop_lem ptr (GoType.trap ∷ []) (trap none ∷ []) w c h = record {
  slots = none ∷ [];
  after = w;
  done = refl;
  kinds = refl;
  same = refl;
}
loop_lem ptr (t ∷ ts) [] w c h = absurd (ground arith)
loop_lem ptr (t ∷ ts) (r ∷ rs) w c h =
    Loop-step ptr t ts r rs w c h (λ u c' h'. loop_lem ptr ts rs u c' h')

-- If the results that a wrapped function returns have the types that its kinds were inferred by, and
-- its last `*Trap` is nil, then the loop over them returns no trap, writes slots of exactly the
-- inferred kinds, in order, and leaves the data of every store as it was.
pub write_results-conform :
    (ptr : Option ℕ) (outs : List GoType) (rs : List Any) (w : World)
    → conform outs rs ≡ true
    → IsValid w.externrefs
    → (slots : List (Option CVal)) × (u : World) × (write_results ptr rs w
        ≡ (ok (record { trap = none; written = slots }), u))
      × (infer_func_type (some (record { ins = []; outs = outs }))
          ≡ ok (record { params = []; results = kinds_written slots }))
      × (u.store_data ≡ w.store_data)
write_results-conform ptr outs rs w c h =
    let l = loop_lem ptr outs rs w c h in
    (
      l.slots,
      l.after,
      l.done,
      infer_func_type-map (record { ins = []; outs = outs })
          ∙ ap (λ ks. ok (record { params = []; results = ks })) (sym l.kinds),
      l.same,
    )
