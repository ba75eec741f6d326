-- ===== src/Trampoline/Wrap/Params.antt =====
-- The parameters that `goTrampolineWrap` hands to a Go function.
use wasmtime_go.Base.{ℕ, ◌≡◌, refl, false, List, [], ◌∷◌}
use wasmtime_go.Go.Value.{CVal, Any}
use wasmtime_go.Go.Outcome.{ok}
use wasmtime_go.World.{World, GoType}
use wasmtime_go.Val.{mk_val, get}
use wasmtime_go.Infer.{is_caller}
use wasmtime_go.Trampoline.Wrap.{wrap_params}

-- What a Go function with parameters of these types is passed for these C values: the caller for
-- each parameter of the type `*Caller`, and for each other one the Go value of the next C value.
pub data Passes (c : ℕ) (w : World) : List GoType → List CVal → List Any → Type 0 where
  done : Passes c w [] [] []
  the_caller :
      {ts : List GoType} {args : List CVal} {ps : List Any}
      → Passes c w ts args ps
      → Passes c w (GoType.caller ∷ ts) args (Any.caller c ∷ ps)
  value :
      (t : GoType) (a : CVal) (v : Any) {ts : List GoType} {args : List CVal} {ps : List Any}
      → is_caller t ≡ false
      → get (mk_val a) w ≡ (ok v, w)
      → Passes c w ts args ps
      → Passes c w (t ∷ ts) (a ∷ args) (v ∷ ps)

pub wrap_params-Passes :
    {c : ℕ} {w : World} {ts : List GoType} {args : List CVal} {ps : List Any}
    → Passes c w ts args ps
    → wrap_params c ts args w ≡ (ok ps, w)
unfolding wrap_params
wrap_params-Passes done = refl
wrap_params-Passes (the_caller p) = rw (wrap_params-Passes p) refl
wrap_params-Passes (value t a v other read p) =
    rw (other, wrap_params) (rw read (rw (wrap_params-Passes p) refl))
