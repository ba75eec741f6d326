-- ===== src/Slab/Chain.antt =====
-- The free list of slab.go: from `next` the links in `list` lead through distinct free slots to
-- the end of `list`.
use wasmtime_go.Base.{
  ℕ, ◌<◌, ◌≡◌, refl, ◌∙◌, true, false, some, List, [], ◌∷◌, arith, length, get_elem?, set, contains,
  length-set, get_elem?-set_ne, lt_of_get_elem?,
}

pub data Chain (list : List ℕ) : ℕ → List ℕ → Type 0 where
  stop : {p : ℕ} → p ≡ length list → Chain list p []
  link :
      {p q : ℕ} {free : List ℕ}
      → get_elem? list p ≡ some q
      → contains free p ≡ false
      → Chain list q free
      → Chain list p (p ∷ free)

pub next-nil : {list : List ℕ} {p : ℕ} → Chain list p [] → p ≡ length list
next-nil (stop e) = e

-- What a chain through at least one slot begins with.
pub record Begins (list : List ℕ) (p x : ℕ) (free : List ℕ) : Type 0 where
  pub at : p ≡ x
  pub after : ℕ
  pub linked : get_elem? list x ≡ some after
  pub apart : contains free x ≡ false
  pub rest : Chain list after free

pub Chain-cons :
    {list : List ℕ} {p x : ℕ} {free : List ℕ} → Chain list p (x ∷ free) → Begins list p x free
Chain-cons (link {q} e out c) = record { at = refl; after = q; linked = e; apart = out; rest = c }

-- Free slots lie within the list.
pub lt_of_contains :
    {list : List ℕ} {p : ℕ} {free : List ℕ} (i : ℕ)
    → Chain list p free
    → contains free i ≡ true
    → i < length list
lt_of_contains i (stop e) h = cc
lt_of_contains {list} i (link {p} {q} e out c) h =
    ground (arith, lt_of_get_elem? list p q e, lt_of_contains i c)

-- A write to a slot that is not free leaves the chain.
pub Chain-set :
    {list : List ℕ} {p : ℕ} {free : List ℕ} (slot v : ℕ)
    → Chain list p free
    → contains free slot ≡ false
    → Chain (set list slot v) p free
Chain-set {list} slot v (stop e) h = stop (omega (arith, length-set list slot v))
Chain-set {list} slot v (link {p} {q} e out c) h =
    link (get_elem?-set_ne list slot p v (ground arith) ∙ e) out (Chain-set slot v c (ground arith))
