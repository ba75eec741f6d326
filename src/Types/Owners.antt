-- ===== src/Types/Owners.antt =====
-- Who frees the C object of a Go type object, and what keeps it alive.
use mathlib.Core.Path.{subst}
use mathlib.Core.List.{append_assoc, append-nil}
use wasmtime_go.Base.{
  ℕ, ◌≡◌, refl, ◌∙◌, ◌⊎◌, inl, inr, true, false, List, if◌then◌else◌, sym, ap, Option, none, some,
  [], ◌∷◌, ◌++◌, get_elem?, get_elem?-append_left, get_elem?-append_one, lt_of_get_elem?, arith,
}
use wasmtime_go.Types.{Class, TypeObject, Heap, owns, mk, owner_or}

-- An object with no owner, whose finalizer frees its C object.
abbrev pub Root : Heap → ℕ → Type 0
Root heap r =
    (o : TypeObject) × (get_elem? heap r ≡ some o) × (o.owner ≡ none) × (o.finalizer ≡ true)

-- The object frees its C object, or it frees nothing and refers to the object that does.
abbrev pub Sound : Heap → TypeObject → Type 0
Sound heap o =
    ((o.owner ≡ none) × (o.finalizer ≡ true))
    ⊎ ((r : ℕ) × (o.owner ≡ some r) × Root heap r × (o.finalizer ≡ false))

abbrev pub Rooted : Heap → Type 0
Rooted heap = (i : ℕ) (o : TypeObject) → get_elem? heap i ≡ some o → Sound heap o

-- A heap that holds all that another one holds.
abbrev pub Extends : Heap → Heap → Type 0
Extends heap later =
    (i : ℕ) (o : TypeObject) → get_elem? heap i ≡ some o → get_elem? later i ≡ some o

pub Root-Extends : (heap later : Heap) (r : ℕ) → Extends heap later → Root heap r → Root later r
Root-Extends heap later r e (o, at, no_owner, frees) = (o, e r o at, no_owner, frees)

Sound-Extends :
    (heap later : Heap) (o : TypeObject) → Extends heap later → Sound heap o → Sound later o
Sound-Extends heap later o e (inl s) = inl s
Sound-Extends heap later o e (inr (r, is, root, f)) =
    inr (r, is, Root-Extends heap later r e root, f)

append-Extends : (heap : Heap) (o : TypeObject) → Extends heap (heap ++ o ∷ [])
append-Extends heap o i p at =
    get_elem?-append_left heap (o ∷ []) i (lt_of_get_elem? heap i p at) ∙ at

-- An owner that a new object may have: none, or one that owns its C object.
abbrev pub Proper : Heap → Option ℕ → Type 0
Proper heap none = Unit {0}
Proper heap (some r) = Root heap r

-- The C objects that the finalizers of these Go objects free.
abbrev pub freed : Heap → List ℕ
freed [] = []
freed (o ∷ os) = (if o.finalizer then o.ptr ∷ [] else []) ++ freed os

freed-append : (a b : Heap) → freed (a ++ b) ≡ freed a ++ freed b
freed-append [] b = refl
freed-append (o ∷ os) b =
    let one = if o.finalizer then o.ptr ∷ [] else [] in
    ap (λ xs. one ++ xs) (freed-append os b) ∙ sym (append_assoc one (freed os) (freed b))

-- What an operation leaves: the objects that were there stay as they were, all are sound, and the
-- finalizers free these C objects more.
pub record Keeps (heap : Heap) (more : List ℕ) (later : Heap) : Type 0 where
  pub extends : Extends heap later
  pub rooted : Rooted later
  pub frees : freed later ≡ freed heap ++ more

pub Keeps-refl : (heap : Heap) → Rooted heap → Keeps heap [] heap
Keeps-refl heap h = record {
  extends = λ i o at. at;
  rooted = h;
  frees = sym (append-nil (freed heap));
}

pub Keeps-trans :
    (a b c : Heap) (xs ys : List ℕ) → Keeps a xs b → Keeps b ys c → Keeps a (xs ++ ys) c
Keeps-trans a b c xs ys x y = record {
  extends = λ i o at. y.extends i o (x.extends i o at);
  rooted = y.rooted;
  frees = y.frees ∙ ap (λ zs. zs ++ ys) x.frees ∙ append_assoc (freed a) xs ys;
}

-- The object that `mk` makes.
abbrev pub made : Class → ℕ → Option ℕ → TypeObject
made class ptr owner = record { class = class; ptr = ptr; owner = owner; finalizer = owns owner }

made-Sound :
    (class : Class) (ptr : ℕ) (owner : Option ℕ) (heap : Heap)
    → Proper heap owner
    → Sound heap (made class ptr owner)
made-Sound class ptr none heap p = inl (refl, refl)
made-Sound class ptr (some r) heap p = inr (r, refl, p, refl)

append-Keeps :
    (heap : Heap) (x : TypeObject)
    → Sound heap x
    → Rooted heap
    → Keeps heap (freed (x ∷ [])) (heap ++ x ∷ [])
append-Keeps heap x s h =
    let e = append-Extends heap x in
    record {
      extends = e;
      rooted = λ i o at. elim (get_elem?-append_one heap x o i at) [
        | inl before ↦ Sound-Extends heap _ o e (h i o before)
        | inr is ↦ subst (Sound (heap ++ x ∷ [])) is (Sound-Extends heap _ x e s)
      ];
      frees = freed-append heap (x ∷ []);
    }

mk_frees :
    (class : Class) (ptr : ℕ) (owner : Option ℕ) (heap : Heap)
    → Keeps heap (freed (made class ptr owner ∷ [])) (heap ++ made class ptr owner ∷ [])
    → Keeps heap (if owns owner then ptr ∷ [] else []) (heap ++ made class ptr owner ∷ [])
mk_frees class ptr none heap k = k
mk_frees class ptr (some r) heap k = k

pub mk-Keeps :
    (class : Class) (ptr : ℕ) (owner : Option ℕ) (heap : Heap)
    → Proper heap owner
    → Rooted heap
    → Keeps heap (if owns owner then ptr ∷ [] else []) (mk class ptr owner heap).1
unfolding mk
mk-Keeps class ptr owner heap p h =
    mk_frees class ptr owner heap (append-Keeps heap _ (made-Sound class ptr owner heap p) h)

-- The owner that `owner` finds owns its C object.
pub owner_or-Root :
    (heap : Heap) (ref : ℕ) (o : TypeObject) (owner : Option ℕ)
    → o.owner ≡ owner
    → get_elem? heap ref ≡ some o
    → Sound heap o
    → Root heap (owner_or ref owner)
owner_or-Root heap ref o none is at (inl (no_owner, frees)) = (o, at, no_owner, frees)
owner_or-Root heap ref o none is at (inr (r, other, root, f)) = absurd (ground arith)
owner_or-Root heap ref o (some q) is at (inl (no_owner, frees)) = absurd (ground arith)
owner_or-Root heap ref o (some q) is at (inr (r, other, root, f)) =
    subst (Root heap) (ground arith) root
