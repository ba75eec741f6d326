-- ===== src/Types/Operations.antt =====
-- What each operation on type objects does to the relation of objects and owners.
use mathlib.Core.Path.{subst}
use wasmtime_go.Base.{
  ℕ, ◌≡◌, refl, sym, inl, inr, Option, none, some, List, [], ◌∷◌, length, get_elem?,
  get_elem?-append_length, Option-cases,
}
use wasmtime_go.Go.Value.{runtime_error, nil_dereference}
use wasmtime_go.Go.Outcome.{Outcome, ok, panic, and_then, return}
use wasmtime_go.Types.{
  Class, TypeObject, Heap, TypeApi, mk, ptr_of, owner_or, owner_of, view, view_if, attach_if,
  convert_type_list, mk_items, params, results, imports, exports,
}
use wasmtime_go.Types.Owners.{
  Root, Rooted, Keeps, Keeps-refl, Keeps-trans, Root-Extends, made, mk-Keeps, owner_or-Root,
}

module _ (heap : Heap) (ref : ℕ) where
  pub ptr_of_lem :
      (o : TypeObject) → get_elem? heap ref ≡ some o → ptr_of ref heap ≡ (ok o.ptr, heap)
  unfolding ptr_of
  ptr_of_lem o at = rw at refl

  ptr_of_missing :
      get_elem? heap ref ≡ none → ptr_of ref heap ≡ (panic (runtime_error nil_dereference), heap)
  unfolding ptr_of
  ptr_of_missing missing = rw missing refl

  owner_of_lem :
      (o : TypeObject)
      → get_elem? heap ref ≡ some o
      → owner_of ref heap ≡ (ok (owner_or ref o.owner), heap)
  unfolding owner_of
  owner_of_lem o at = rw at refl

  owner_of_missing :
      get_elem? heap ref ≡ none → owner_of ref heap ≡ (panic (runtime_error nil_dereference), heap)
  unfolding owner_of
  owner_of_missing missing = rw missing refl

module _ (heap : Heap) (ref : ℕ) (h : Rooted heap) where
  -- A new object with the owner that the object at `ref` has.
  attach-Keeps :
      (class : Class) (ptr : ℕ) (o : TypeObject)
      → get_elem? heap ref ≡ some o
      → Keeps heap [] (mk class ptr (some (owner_or ref o.owner)) heap).1
  attach-Keeps class ptr o at =
      mk-Keeps class ptr (some (owner_or ref o.owner)) heap
        (owner_or-Root heap ref o o.owner refl at (h ref o at)) h

  pub view-Keeps :
      (inner : ℕ → ℕ) (class : Class) → Keeps heap [] (view inner (mk class) ref heap).1
  unfolding view
  view-Keeps inner class = elim (Option-cases (get_elem? heap ref)) [
    | inl missing ↦ rw (ptr_of_missing heap ref missing) (Keeps-refl heap h)
    | inr (o, at) ↦
        rw (ptr_of_lem heap ref o at)
          (rw (owner_of_lem heap ref o at) (attach-Keeps class (inner o.ptr) o at))
  ]

  pub view_if-Keeps :
      (inner : ℕ → Option ℕ) (class : Class) → Keeps heap [] (view_if inner (mk class) ref heap).1
  unfolding view_if attach_if mk
  view_if-Keeps inner class = elim (Option-cases (get_elem? heap ref)) [
    | inl missing ↦ rw (ptr_of_missing heap ref missing) (Keeps-refl heap h)
    | inr (o, at) ↦ elim (Option-cases (inner o.ptr)) [
      | inl nothing ↦ rw (ptr_of_lem heap ref o at) (rw nothing (Keeps-refl heap h))
      | inr (q, is) ↦
          rw (ptr_of_lem heap ref o at)
            (rw is (rw (owner_of_lem heap ref o at) (attach-Keeps class q o at)))
    ]
  ]

-- A result that is only passed on.
after_return :
    {A B : Type 0} (f : A → B) (p : Outcome A × Heap) → (and_then p (λ a. return (f a))).1 ≡ p.1
after_return f (ok a, heap) = refl
after_return f (panic v, heap) = refl

convert_type_list-Keeps :
    (api : TypeApi) (ref : ℕ) (ptrs : List ℕ) (heap : Heap)
    → Rooted heap
    → Keeps heap [] (convert_type_list api ref ptrs heap).1
unfolding convert_type_list mk
convert_type_list-Keeps api ref [] heap h = Keeps-refl heap h
convert_type_list-Keeps api ref (p ∷ ps) heap h = elim (Option-cases (get_elem? heap ref)) [
  | inl missing ↦ rw (owner_of_missing heap ref missing) (Keeps-refl heap h)
  | inr (o, at) ↦
      let one = attach-Keeps heap ref h Class.val_type p o at in
      let next = (mk Class.val_type p (some (owner_or ref o.owner)) heap).1 in
      rw (owner_of_lem heap ref o at) (
        Keeps-trans heap next _ [] [] one (
          subst (Keeps next [])
            (sym (after_return (λ rest. length heap ∷ rest) (convert_type_list api ref ps next)))
            (convert_type_list-Keeps api ref ps next one.rooted)))
]

mk_items-Keeps :
    (class : Class) (list : ℕ) (ptrs : List ℕ) (heap : Heap)
    → Root heap list
    → Rooted heap
    → Keeps heap [] (mk_items (mk class) list ptrs heap).1
unfolding mk_items mk
mk_items-Keeps class list [] heap r h = Keeps-refl heap h
mk_items-Keeps class list (p ∷ ps) heap r h =
    let one = mk-Keeps class p (some list) heap r h in
    let next = (mk class p (some list) heap).1 in
    Keeps-trans heap next _ [] [] one (
      subst (Keeps next [])
        (sym (after_return (λ rest. length heap ∷ rest) (mk_items (mk class) list ps next)))
        (mk_items-Keeps class list ps next (Root-Extends heap next list one.extends r) one.rooted))

pub params-Keeps :
    (api : TypeApi) (ref : ℕ) (heap : Heap) → Rooted heap → Keeps heap [] (params api ref heap).1
unfolding params
params-Keeps api ref heap h = elim (Option-cases (get_elem? heap ref)) [
  | inl missing ↦ rw (ptr_of_missing heap ref missing) (Keeps-refl heap h)
  | inr (o, at) ↦
      rw (ptr_of_lem heap ref o at)
        (convert_type_list-Keeps api ref (api.functype_params o.ptr) heap h)
]

pub results-Keeps :
    (api : TypeApi) (ref : ℕ) (heap : Heap) → Rooted heap → Keeps heap [] (results api ref heap).1
unfolding results
results-Keeps api ref heap h = elim (Option-cases (get_elem? heap ref)) [
  | inl missing ↦ rw (ptr_of_missing heap ref missing) (Keeps-refl heap h)
  | inr (o, at) ↦
      rw (ptr_of_lem heap ref o at)
        (convert_type_list-Keeps api ref (api.functype_results o.ptr) heap h)
]

-- A list that owns its vector, and the objects for its items.
list-Keeps :
    (class item : Class) (vec : ℕ) (ptrs : List ℕ) (heap : Heap)
    → Rooted heap
    → let next = (mk class vec none heap).1 in
      Keeps heap (vec ∷ []) (mk_items (mk item) (length heap) ptrs next).1
unfolding mk
list-Keeps class item vec ptrs heap h =
    let one = mk-Keeps class vec none heap tt h in
    let next = (mk class vec none heap).1 in
    let root : Root next (length heap) =
      (made class vec none, get_elem?-append_length heap (made class vec none), refl, refl) in
    Keeps-trans heap next _ (vec ∷ []) [] one
      (mk_items-Keeps item (length heap) ptrs next root one.rooted)

pub imports-Keeps :
    (api : TypeApi) (vec : ℕ) (heap : Heap)
    → Rooted heap
    → Keeps heap (vec ∷ []) (imports api vec heap).1
unfolding imports mk
imports-Keeps api vec heap h =
    list-Keeps Class.import_list Class.import_type vec (api.list_items vec) heap h

pub exports-Keeps :
    (api : TypeApi) (vec : ℕ) (heap : Heap)
    → Rooted heap
    → Keeps heap (vec ∷ []) (exports api vec heap).1
unfolding exports mk
exports-Keeps api vec heap h =
    list-Keeps Class.export_list Class.export_type vec (api.list_items vec) heap h
