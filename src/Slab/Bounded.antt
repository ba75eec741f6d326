-- ===== src/Slab/Bounded.antt =====
-- A slab whose indices are within bounds never panics in `allocate`, whatever its client does.
use wasmtime_go.Base.{
  ℕ, ◌+◌, ◌≤◌, ◌<◌, ◌≡◌, ap, sym, ◌∙◌, some, [], ◌∷◌, ◌++◌, length, get_elem?, set, ltb, arith, inl,
  inr, ℕ_discrete, Bool-cases, length-append, length-set, get_elem?-append_one, get_elem?-set_self,
  get_elem?-set_ne, get_elem?_of_lt,
}
use wasmtime_go.Go.Outcome.{ok}
use wasmtime_go.Slab.{Slab, empty, allocate, deallocate}
use wasmtime_go.Slab.Spec.{allocate_grow, allocate_reuse}

pub record Bounded (s : Slab) : Type 0 where
  pub next : s.next ≤ length s.list
  pub links : (i q : ℕ) → get_elem? s.list i ≡ some q → q ≤ length s.list

pub empty-Bounded : Bounded empty
empty-Bounded = record { next = omega arith; links = λ i q h. absurd (ground arith) }

pub allocate-Bounded :
    (s : Slab) → Bounded s → (k : ℕ) × (t : Slab) × (allocate s ≡ (ok k, t)) × Bounded t
allocate-Bounded s b = elim (ℕ_discrete s.next (length s.list)) [
  | yes e ↦
      let longer = length-append s.list ((s.next + 1) ∷ []) in
      (
        s.next,
        record { list = s.list ++ (s.next + 1) ∷ []; next = s.next + 1 },
        allocate_grow s e,
        record {
          next = omega (arith, longer, e);
          links = λ i q h. elim (get_elem?-append_one s.list (s.next + 1) q i h) [
            | inl before ↦ omega (arith, longer, b.links i q before)
            | inr is ↦ omega (arith, longer, is, e)
          ];
        },
      )
  | no ne ↦
      let (q, at) = get_elem?_of_lt s.list s.next (omega (arith, b.next, ne)) in
      (
        s.next,
        record s { next = q },
        allocate_reuse s q at,
        record { next = b.links s.next q at; links = b.links },
      )
]

pub deallocate-Bounded : (s : Slab) (slot : ℕ) → Bounded s → Bounded (deallocate s slot).1
unfolding deallocate
deallocate-Bounded s slot b = elim (Bool-cases (ltb slot (length s.list))) [
  | inl within ↦
      let same = length-set s.list slot s.next in
      let below : slot < length s.list = ground arith in
      rw within (record {
        next = omega (arith, same, below);
        links = λ i q h. elim (ℕ_discrete slot i) [
          | yes e ↦
              let here = ap (get_elem? (set s.list slot s.next)) e in
              let at = get_elem?-set_self s.list slot s.next below in
              ground (arith, same, b.next, sym at ∙ here ∙ h)
          | no ne ↦
              let before = sym (get_elem?-set_ne s.list slot i s.next ne) ∙ h in
              omega (arith, same, b.links i q before)
        ];
      })
  | inr past ↦ rw past b
]
