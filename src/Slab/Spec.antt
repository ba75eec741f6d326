-- ===== src/Slab/Spec.antt =====
-- What slab.go promises: a stack of free slots below a bound, the last one freed on top.
use wasmtime_go.Base.{
  ℕ, ◌+◌, ◌<◌, ◌≤◌, ◌≡◌, refl, ◌∙◌, Bool, true, false, not, ◌&&◌, ◌||◌, List, [], ◌∷◌, ◌++◌, ap,
  some, get_elem?, get_elem?-append_length, arith, ltb, ◌==◌, length, set, contains, length-append,
  length-set, get_elem?-set_self, lt_of_get_elem?,
}
use wasmtime_go.Go.Outcome.{ok}
use wasmtime_go.Slab.{Slab, allocate, deallocate}
use wasmtime_go.Slab.Chain.{Chain, stop, link, next-nil, Chain-cons, Chain-set}

pub record Pool : Type 0 where
  pub size : ℕ
  pub free : List ℕ

abbrev pub pool : ℕ → List ℕ → Pool
pool size free = record { size = size; free = free }

abbrev pub take_from : ℕ → List ℕ → ℕ × Pool
take_from size [] = (size, pool (size + 1) [])
take_from size (x ∷ rest) = (x, pool size rest)

-- The slot that is handed out, and the pool after it.
abbrev pub take : Pool → ℕ × Pool
take p = take_from p.size p.free

abbrev pub give : ℕ → Pool → Pool
give slot p = record p { free = slot ∷ p.free }

abbrev pub in_use : Pool → ℕ → Bool
in_use p i = ltb i p.size && not (contains p.free i)

pub record Represents (s : Slab) (p : Pool) : Type 0 where
  pub sized : length s.list ≡ p.size
  pub chain : Chain s.list s.next p.free

-- `allocate` with no free slot, and with one.
pub allocate_grow :
    (s : Slab)
    → s.next ≡ length s.list
    → allocate s ≡ (ok s.next, record { list = s.list ++ (s.next + 1) ∷ []; next = s.next + 1 })
unfolding allocate
allocate_grow s e = ground (arith, get_elem?-append_length s.list (s.next + 1))

pub allocate_reuse :
    (s : Slab) (q : ℕ)
    → get_elem? s.list s.next ≡ some q
    → allocate s ≡ (ok s.next, record s { next = q })
unfolding allocate
allocate_reuse s q e = ground (arith, lt_of_get_elem? s.list s.next q)

allocate-take_from :
    (s : Slab) (size : ℕ) (free : List ℕ)
    → Represents s (pool size free)
    → ((allocate s).0 ≡ ok (take_from size free).0)
      × Represents (allocate s).1 (take_from size free).1
allocate-take_from s size [] r =
    let e = next-nil r.chain in
    rw (allocate_grow s e) (
      ap ok (e ∙ r.sized),
      record {
        sized = omega (arith, length-append s.list ((s.next + 1) ∷ []), r.sized);
        chain = stop (omega (arith, length-append s.list ((s.next + 1) ∷ []), e));
      },
    )
allocate-take_from s size (x ∷ rest) r =
    let b = Chain-cons r.chain in
    rw (allocate_reuse s b.after (ap (get_elem? s.list) b.at ∙ b.linked))
      (ap ok b.at, record { sized = r.sized; chain = b.rest })

pub allocate-take :
    (s : Slab) (p : Pool)
    → Represents s p
    → ((allocate s).0 ≡ ok (take p).0) × Represents (allocate s).1 (take p).1
allocate-take s p r = allocate-take_from s p.size p.free r

deallocate_within :
    (s : Slab) (slot : ℕ)
    → slot < length s.list
    → deallocate s slot ≡ (ok tt, record { list = set s.list slot s.next; next = slot })
unfolding deallocate
deallocate_within s slot h = ground arith

pub deallocate-give :
    (s : Slab) (p : Pool) (slot : ℕ)
    → Represents s p
    → in_use p slot ≡ true
    → ((deallocate s slot).0 ≡ ok tt) × Represents (deallocate s slot).1 (give slot p)
deallocate-give s p slot r h =
    let within : slot < length s.list = ground (arith, r.sized) in
    let used : contains p.free slot ≡ false = ground arith in
    rw (deallocate_within s slot within) (
      refl,
      record {
        sized = length-set s.list slot s.next ∙ r.sized;
        chain =
            link (get_elem?-set_self s.list slot s.next within) used
              (Chain-set slot s.next r.chain used);
      },
    )

in_use-take_from :
    (s : Slab) (size : ℕ) (free : List ℕ) (i : ℕ)
    → Represents s (pool size free)
    → (in_use (pool size free) (take_from size free).0 ≡ false)
      × (in_use (take_from size free).1 i
          ≡ ((i == (take_from size free).0) || in_use (pool size free) i))
in_use-take_from s size [] i r = ground arith
in_use-take_from s size (x ∷ rest) i r =
    let b = Chain-cons r.chain in
    ground (arith, lt_of_get_elem? s.list x b.after b.linked, b.apart, r.sized)

-- A slot that is handed out was not in use, and is the only one whose state changes.
pub in_use-take :
    (s : Slab) (p : Pool) (i : ℕ)
    → Represents s p
    → (in_use p (take p).0 ≡ false) × (in_use (take p).1 i ≡ ((i == (take p).0) || in_use p i))
in_use-take s p i r = in_use-take_from s p.size p.free i r

-- A slot that is given back is no longer in use, and is the only one whose state changes.
pub in_use-give :
    (p : Pool) (slot i : ℕ)
    → in_use p slot ≡ true
    → in_use (give slot p) i ≡ (in_use p i && not (i == slot))
in_use-give p slot i h = ground arith

take_from_bounded :
    (s : Slab) (size : ℕ) (free : List ℕ)
    → Represents s (pool size free)
    → (take_from size free).0 ≤ length s.list
take_from_bounded s size [] r = omega (arith, r.sized)
take_from_bounded s size (x ∷ rest) r =
    let b = Chain-cons r.chain in omega (arith, lt_of_get_elem? s.list x b.after b.linked)

pub take_bounded : (s : Slab) (p : Pool) → Represents s p → (take p).0 ≤ length s.list
take_bounded s p r = take_from_bounded s p.size p.free r
