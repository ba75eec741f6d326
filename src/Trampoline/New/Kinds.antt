-- ===== src/Trampoline/New/Kinds.antt =====
-- The check that `goTrampolineNew` makes of the results of a callback.
use wasmtime_go.Base.{
  ◌≡◌, ◌≢◌, refl, inl, inr, Bool, true, false, ◌&&◌, none, some, List, [], ◌∷◌, map, arith, length,
  Bool-cases, ◌==◌,
}
use wasmtime_go.Go.Value.{CVal, text}
use wasmtime_go.Go.Outcome.{ok, panic}
use wasmtime_go.Kind.{ValKind, same_kind, same_kind_iff}
use wasmtime_go.World.{World}
use wasmtime_go.Val.{mk_val}
use wasmtime_go.Val.Access.{named, known, kind-make}
use wasmtime_go.Trampoline.New.{check_kinds, check_results, copy_results}

-- Go has a kind for each of the values.
abbrev pub all_known : List CVal → Bool
all_known [] = true
all_known (c ∷ cs) = known c.kind && all_known cs

abbrev pub kinds_of : List CVal → List ValKind
kinds_of = map (λ c. named c.kind)

check_kinds-kinds_of :
    (cs : List CVal) (w : World)
    → all_known cs ≡ true
    → check_kinds (map mk_val cs) (kinds_of cs) w ≡ (ok tt, w)
unfolding check_kinds
check_kinds-kinds_of [] w h = refl
check_kinds-kinds_of (c ∷ cs) w h = rw (kind-make c.kind c.of w (ground arith)) (
    rw ((same_kind_iff (named c.kind) (named c.kind)).1 refl)
      (check_kinds-kinds_of cs w (ground arith)))

check_kinds_wrong :
    (cs : List CVal) (ks : List ValKind) (w : World)
    → all_known cs ≡ true
    → length cs ≡ length ks
    → kinds_of cs ≢ ks
    → check_kinds (map mk_val cs) ks w ≡ (panic (text "callback produced wrong type of result"), w)
unfolding check_kinds
check_kinds_wrong [] [] w h e ne = absurd (ne refl)
check_kinds_wrong [] (k ∷ ks) w h e ne = absurd (omega arith)
check_kinds_wrong (c ∷ cs) [] w h e ne = absurd (omega arith)
check_kinds_wrong (c ∷ cs) (k ∷ ks) w h e ne = elim (Bool-cases (same_kind (named c.kind) k)) [
  | inl same ↦
      let first = (same_kind_iff (named c.kind) k).0 same in
      rw (kind-make c.kind c.of w (ground arith))
        (rw same (check_kinds_wrong cs ks w (ground arith) (omega arith) (λ rest. ne (cc))))
  | inr differ ↦ rw (kind-make c.kind c.of w (ground arith)) (rw differ refl)
]

length-map-mk_val : (cs : List CVal) → length (map mk_val cs) ≡ length cs
length-map-mk_val [] = refl
length-map-mk_val (c ∷ cs) = omega (arith, length-map-mk_val cs)

length-kinds_of : (cs : List CVal) → length (kinds_of cs) ≡ length cs
length-kinds_of [] = refl
length-kinds_of (c ∷ cs) = omega (arith, length-kinds_of cs)

pub check_results_right :
    (cs : List CVal) (w : World)
    → all_known cs ≡ true
    → check_results (kinds_of cs) (map mk_val cs) none w ≡ (ok tt, w)
unfolding check_results
check_results_right cs w h =
    let counts : (length (map mk_val cs) == length (kinds_of cs)) ≡ true =
      ground (arith, length-map-mk_val cs, length-kinds_of cs) in
    rw counts (check_kinds-kinds_of cs w h)

pub check_results_wrong_kinds :
    (cs : List CVal) (ks : List ValKind) (w : World)
    → all_known cs ≡ true
    → length cs ≡ length ks
    → kinds_of cs ≢ ks
    → check_results ks (map mk_val cs) none w
      ≡ (panic (text "callback produced wrong type of result"), w)
unfolding check_results
check_results_wrong_kinds cs ks w h e ne =
    let counts : (length (map mk_val cs) == length ks) ≡ true =
      ground (arith, length-map-mk_val cs) in
    rw counts (check_kinds_wrong cs ks w h e ne)

pub check_results_wrong_count :
    (cs : List CVal) (ks : List ValKind) (w : World)
    → length cs ≢ length ks
    → check_results ks (map mk_val cs) none w
      ≡ (panic (text "callback didn't produce the correct number of results"), w)
unfolding check_results
check_results_wrong_count cs ks w ne =
    let counts : (length (map mk_val cs) == length ks) ≡ false =
      ground (arith, length-map-mk_val cs) in
    rw counts refl

pub copy_results-mk_val :
    (cs : List CVal) (w : World) → copy_results (map mk_val cs) w ≡ (ok (map some cs), w)
unfolding copy_results
copy_results-mk_val [] w = refl
copy_results-mk_val (c ∷ cs) w = rw (copy_results-mk_val cs w) refl
