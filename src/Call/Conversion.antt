-- ===== src/Call/Conversion.antt =====
-- The conversion of the arguments of `Func.Call`, one by one.
use mathlib.Core.Path.{subst}
use wasmtime_go.Base.{
  ℕ, suc, ◌+◌, ◌<◌, ◌≤◌, ◌≡◌, refl, ap, sym, ◌∙◌, Bool, true, false, ◌&&◌, Option, none, some, List,
  [], ◌∷◌, arith, length, get_elem?, get_elem?_of_lt, is_some, Option-cases, inl, inr,
}
use wasmtime_go.Go.Value.{
  CVal, Any, nil, int, int32, int64, float32, float64, func, trap, caller, val, vals, text,
  runtime_error, other,
}
use wasmtime_go.Go.Outcome.{ok}
use wasmtime_go.Kind.{ValKind, i32, i64, f32, f64, funcref, externref, unknown}
use wasmtime_go.World.{World}
use wasmtime_go.Registry.Laws.{IsValid}
use wasmtime_go.Val.{val_externref, mk_val}
use wasmtime_go.Val.Externref.{val_externref_makes}
use wasmtime_go.Call.{Converted, ready, refused, convert_int, convert, convert_all}

-- An argument that is not a nil `*Func` and not `Val{}`.
abbrev pub usable : Any → Bool
usable (func none) = false
usable (val v) = is_some v.raw
usable _ = true

abbrev pub all_usable : List Any → Bool
all_usable [] = true
all_usable (a ∷ as') = usable a && all_usable as'

abbrev pub takes_int : Option ValKind → Bool
takes_int (some i32) = true
takes_int (some i64) = true
takes_int _ = false

-- Whether an argument, with the kind of its parameter, is no `int` or stands at an integer.
abbrev pub int_fits : Option ValKind → Any → Bool
int_fits k (int n) = takes_int k
int_fits k _ = true

abbrev pub ints_fit : List ValKind → ℕ → List Any → Bool
ints_fit params i [] = true
ints_fit params i (a ∷ as') = int_fits (get_elem? params i) a && ints_fit params (i + 1) as'

abbrev pub is_ready : {A : Type 0} → Converted A → Bool
is_ready (ready a) = true
is_ready refused = false

-- What the conversion of one argument does.
record Step (params : List ValKind) (i : ℕ) (a : Any) (w : World) : Type 0 where
  result : Converted CVal
  after : World
  done : convert params i a w ≡ (ok result, after)
  judged : is_ready result ≡ int_fits (get_elem? params i) a
  valid : IsValid after.externrefs
  same : after.store_data ≡ w.store_data

Step-pure :
    (params : List ValKind) (i : ℕ) (a : Any) (w : World) (c : CVal)
    → IsValid w.externrefs
    → convert params i a w ≡ (ok (ready c), w)
    → true ≡ int_fits (get_elem? params i) a
    → Step params i a w
Step-pure params i a w c h e j = record {
  result = ready c;
  after = w;
  done = e;
  judged = j;
  valid = h;
  same = refl;
}

Step-externref :
    (params : List ValKind) (i : ℕ) (a : Any) (w : World)
    → IsValid w.externrefs
    → true ≡ int_fits (get_elem? params i) a
    → ((c : CVal) (u : World)
        → val_externref a w ≡ (ok (mk_val c), u)
        → convert params i a w ≡ (ok (ready c), u))
    → Step params i a w
Step-externref params i a w h j step =
    let (of, u, done, valid, same) = val_externref_makes a w h in
    record {
      result = ready _;
      after = u;
      done = step _ u done;
      judged = j;
      valid = valid;
      same = same;
    }

convert_int_judged : (n : ℕ) (k : ValKind) → is_ready (convert_int n k) ≡ takes_int (some k)
unfolding convert_int
convert_int_judged n i32 = refl
convert_int_judged n i64 = refl
convert_int_judged n f32 = refl
convert_int_judged n f64 = refl
convert_int_judged n funcref = refl
convert_int_judged n externref = refl
convert_int_judged n (unknown m) = refl

step_lem :
    (params : List ValKind) (i : ℕ) (a : Any) (w : World)
    → usable a ≡ true
    → i < length params
    → IsValid w.externrefs
    → Step params i a w
unfolding convert
step_lem params i (int n) w u b h =
    let (k, at) = get_elem?_of_lt params i b in
    record {
      result = convert_int n k;
      after = w;
      done = rw at refl;
      judged = convert_int_judged n k ∙ ap takes_int (sym at);
      valid = h;
      same = refl;
    }
step_lem params i (int32 n) w u b h = Step-pure _ _ _ w _ h refl refl
step_lem params i (int64 n) w u b h = Step-pure _ _ _ w _ h refl refl
step_lem params i (float32 n) w u b h = Step-pure _ _ _ w _ h refl refl
step_lem params i (float64 n) w u b h = Step-pure _ _ _ w _ h refl refl
step_lem params i (func (some f)) w u b h = Step-pure _ _ _ w _ h refl refl
step_lem params i (func none) w u b h = absurd (ground arith)
step_lem params i (val v) w u b h = elim (Option-cases v.raw) [
  | inl gone ↦ absurd (ground arith)
  | inr (c, at) ↦ Step-pure _ _ _ w c h (rw at refl) refl
]
step_lem params i nil w u b h = Step-externref _ _ nil w h refl (λ c t e. rw e refl)
step_lem params i (trap x) w u b h = Step-externref _ _ (trap x) w h refl (λ c t e. rw e refl)
step_lem params i (caller x) w u b h = Step-externref _ _ (caller x) w h refl (λ c t e. rw e refl)
step_lem params i (vals x) w u b h = Step-externref _ _ (vals x) w h refl (λ c t e. rw e refl)
step_lem params i (text x) w u b h = Step-externref _ _ (text x) w h refl (λ c t e. rw e refl)
step_lem params i (runtime_error x) w u b h =
    Step-externref _ _ (runtime_error x) w h refl (λ c t e. rw e refl)
step_lem params i (other x y) w u b h = Step-externref _ _ (other x y) w h refl (λ c t e. rw e refl)

abbrev prepend : CVal → Converted (List CVal) → Converted (List CVal)
prepend c (ready cs) = ready (c ∷ cs)
prepend c refused = refused

-- The C values are one for each argument.
abbrev pub Counts : Bool → ℕ → Converted (List CVal) → Type 0
Counts b n (ready cs) = (b ≡ true) × (length cs ≡ n)
Counts b n refused = b ≡ false

pub record Steps (params : List ValKind) (i : ℕ) (args : List Any) (w : World) : Type 0 where
  pub result : Converted (List CVal)
  pub after : World
  pub done : convert_all params i args w ≡ (ok result, after)
  pub counts : Counts (ints_fit params i args) (length args) result
  pub valid : IsValid after.externrefs
  pub same : after.store_data ≡ w.store_data

Counts-cons :
    (c : CVal) (b : Bool) (n : ℕ) (later : Converted (List CVal))
    → Counts b n later
    → Counts b (suc n) (prepend c later)
Counts-cons c b n (ready cs) (h, l) = (h, omega (arith, l))
Counts-cons c b n refused h = h

steps_ready :
    (params : List ValKind) (i : ℕ) (a : Any) (as' : List Any) (w u t : World) (c : CVal)
    (later : Converted (List CVal))
    → convert params i a w ≡ (ok (ready c), u)
    → convert_all params (i + 1) as' u ≡ (ok later, t)
    → convert_all params i (a ∷ as') w ≡ (ok (prepend c later), t)
unfolding convert_all
steps_ready params i a as' w u t c (ready cs) e later = rw e (rw later refl)
steps_ready params i a as' w u t c refused e later = rw e (rw later refl)

steps_refused :
    (params : List ValKind) (i : ℕ) (a : Any) (as' : List Any) (w u : World)
    → convert params i a w ≡ (ok refused, u)
    → convert_all params i (a ∷ as') w ≡ (ok refused, u)
unfolding convert_all
steps_refused params i a as' w u e = rw e refl

Steps-join :
    (params : List ValKind) (i : ℕ) (a : Any) (as' : List Any) (w u : World)
    (first : Converted CVal)
    → convert params i a w ≡ (ok first, u)
    → is_ready first ≡ int_fits (get_elem? params i) a
    → IsValid u.externrefs
    → u.store_data ≡ w.store_data
    → Steps params (i + 1) as' u
    → Steps params i (a ∷ as') w
Steps-join params i a as' w u refused e j h same rest = record {
  result = refused;
  after = u;
  done = steps_refused params i a as' w u e;
  counts = ap (λ b. b && ints_fit params (i + 1) as') (sym j);
  valid = h;
  same = same;
}
Steps-join params i a as' w u (ready c) e j h same rest = record {
  result = prepend c rest.result;
  after = rest.after;
  done = steps_ready params i a as' w u rest.after c rest.result e rest.done;
  counts =
      subst
        (λ b. Counts (b && ints_fit params (i + 1) as') (suc (length as')) (prepend c rest.result))
        j (Counts-cons c _ _ rest.result rest.counts);
  valid = rest.valid;
  same = rest.same ∙ same;
}

pub steps_lem :
    (params : List ValKind) (i : ℕ) (args : List Any) (w : World)
    → all_usable args ≡ true
    → i + length args ≤ length params
    → IsValid w.externrefs
    → Steps params i args w
unfolding convert_all
steps_lem params i [] w u b h = record {
  result = ready [];
  after = w;
  done = refl;
  counts = (refl, refl);
  valid = h;
  same = refl;
}
steps_lem params i (a ∷ as') w u b h =
    let one = step_lem params i a w (ground arith) (omega arith) h in
    Steps-join params i a as' w one.after one.result one.done one.judged one.valid one.same
      (steps_lem params (i + 1) as' one.after (ground arith) (omega arith) one.valid)
