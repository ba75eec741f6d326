-- ===== src/Registry/Client/Agreement.antt =====
-- How the keys that a client was told agree with a table in which every insertion has its own place.
use wasmtime_go.Base.{
  zero, suc, ℕ, ◌<◌, ◌≡◌, ◌≢◌, ◌∙◌, refl, sym, ap, true, Option, none, some, List, [], ◌∷◌, ◌++◌,
  ◌⊎◌, inl, inr, arith, length, length-append, length-set, get_elem?, get_elem?-append_left,
  get_elem?-append_length, get_elem?-set_self, get_elem?-set_ne, lt_of_get_elem?, set, is_some,
  Bool-cases, ◌==◌,
}
use wasmtime_go.Registry.{Registry}
use wasmtime_go.Registry.Laws.{IsValid, Inserts, Removes, Inserts-keeps, Removes-keeps}
use wasmtime_go.Registry.Client.{value_at}

get_elem?-append_cases :
    {A : Type 0} (xs : List A) (x a : A) (i : ℕ)
    → get_elem? (xs ++ x ∷ []) i ≡ some a
    → ((get_elem? xs i ≡ some a) × (i < length xs)) ⊎ ((i ≡ length xs) × (x ≡ a))
get_elem?-append_cases [] x a zero h = inr (refl, ground arith)
get_elem?-append_cases [] x a (suc i) h = absurd (ground arith)
get_elem?-append_cases (y ∷ ys) x a zero h = inl (h, omega arith)
get_elem?-append_cases (y ∷ ys) x a (suc i) h = elim (get_elem?-append_cases ys x a i h) [
  | inl (at, bound) ↦ inl (at, omega arith)
  | inr (last, same) ↦ inr (ap suc last, same)
]

module _ {V : Type 0} where
  -- What was inserted and not removed is found under its key, which no other such value has.
  pub record Agrees (keys : List ℕ) (values : List (Option V)) (r : Registry V) : Type 0 where
    pub valid : IsValid r
    pub sized : length keys ≡ length values
    pub finds :
        (n : ℕ) (v : V)
        → get_elem? values n ≡ some (some v)
        → (k : ℕ) × (get_elem? keys n ≡ some k) × (r.entries k ≡ some v)
    pub apart :
        (n m k : ℕ) (v w : V)
        → get_elem? values n ≡ some (some v)
        → get_elem? values m ≡ some (some w)
        → get_elem? keys n ≡ some k
        → get_elem? keys m ≡ some k
        → n ≡ m

  module _ {keys : List ℕ} {values : List (Option V)} {r t : Registry V} {v : V} {k : ℕ}
      (a : Agrees keys values r) (i : Inserts r v k t) where
    inserted-finds :
        (n : ℕ) (w : V)
        → get_elem? (values ++ some v ∷ []) n ≡ some (some w)
        → (j : ℕ) × (get_elem? (keys ++ k ∷ []) n ≡ some j) × (t.entries j ≡ some w)
    inserted-finds n w h = elim (get_elem?-append_cases values (some v) (some w) n h) [
      | inl (at, bound) ↦
          let (j, key, entry) = a.finds n w at in
          let within : n < length keys = omega (arith, a.sized) in
          (j, get_elem?-append_left keys (k ∷ []) n within ∙ key, Inserts-keeps j w i entry)
      | inr (last, same) ↦ (
        k,
        ap (get_elem? (keys ++ k ∷ [])) (last ∙ sym a.sized) ∙ get_elem?-append_length keys k,
        ground (arith, i.read k, same),
      )
    ]

    -- A value from before the insertion is not under the new key.
    old_key :
        (n : ℕ) (w : V)
        → get_elem? values n ≡ some (some w)
        → n < length values
        → get_elem? (keys ++ k ∷ []) n ≢ some k
    old_key n w at bound key =
        let (j, old, entry) = a.finds n w at in
        let within : n < length keys = omega (arith, a.sized) in
        let left = get_elem?-append_left keys (k ∷ []) n within in
        absurd (ground (arith, i.fresh, entry, old, key, left))

    inserted-apart :
        (n m j : ℕ) (x y : V)
        → get_elem? (values ++ some v ∷ []) n ≡ some (some x)
        → get_elem? (values ++ some v ∷ []) m ≡ some (some y)
        → get_elem? (keys ++ k ∷ []) n ≡ some j
        → get_elem? (keys ++ k ∷ []) m ≡ some j
        → n ≡ m
    inserted-apart n m j x y hn hm kn km =
        let in_keys : get_elem? (keys ++ k ∷ []) (length values) ≡ some k =
          ap (get_elem? (keys ++ k ∷ [])) (sym a.sized) ∙ get_elem?-append_length keys k in
        elim (get_elem?-append_cases values (some v) (some x) n hn) [
          | inl (at, bound) ↦ elim (get_elem?-append_cases values (some v) (some y) m hm) [
            | inl (at', bound') ↦
                let left = get_elem?-append_left keys (k ∷ []) n (omega (arith, a.sized)) in
                let right = get_elem?-append_left keys (k ∷ []) m (omega (arith, a.sized)) in
                a.apart n m j x y at at' (sym left ∙ kn) (sym right ∙ km)
            | inr (last, same) ↦
                let here = ap (get_elem? (keys ++ k ∷ [])) last ∙ in_keys in
                absurd (old_key n x at bound (kn ∙ sym km ∙ here))
          ]
          | inr (last, same) ↦ elim (get_elem?-append_cases values (some v) (some y) m hm) [
            | inl (at', bound') ↦
                let here = ap (get_elem? (keys ++ k ∷ [])) last ∙ in_keys in
                absurd (old_key m y at' bound' (km ∙ sym kn ∙ here))
            | inr (last', same') ↦ last ∙ sym last'
          ]
        ]

    pub inserted-Agrees : Agrees (keys ++ k ∷ []) (values ++ some v ∷ []) t
    inserted-Agrees = record {
      valid = i.valid;
      sized =
          omega (arith, a.sized, length-append keys (k ∷ []), length-append values (some v ∷ []));
      finds = inserted-finds;
      apart = inserted-apart;
    }

  -- What is left of a list of values where one is removed.
  still :
      (values : List (Option V)) (n m : ℕ) (w : V)
      → get_elem? (set values n none) m ≡ some (some w)
      → (m ≢ n) × (get_elem? values m ≡ some (some w))
  still values n m w h = elim (Bool-cases (m == n)) [
    | inl e ↦
        let same : m ≡ n = ground arith in
        let here : get_elem? (set values n none) n ≡ some (some w) =
          ap (get_elem? (set values n none)) (sym same) ∙ h in
        let bound : n < length values =
          omega (arith, lt_of_get_elem? _ n _ here, length-set values n none) in
        absurd (ground (arith, here, get_elem?-set_self values n none bound))
    | inr e ↦
        let other : m ≢ n = λ same. ground arith in
        (other, sym (get_elem?-set_ne values n m none (λ same. other (sym same))) ∙ h)
  ]

  module _ {keys : List ℕ} {values : List (Option V)} {r t : Registry V} {v : V} (n : ℕ) {k : ℕ}
      (a : Agrees keys values r) (d : Removes r k t) (at : get_elem? values n ≡ some (some v))
      (key : get_elem? keys n ≡ some k) where
    removed-finds :
        (m : ℕ) (w : V)
        → get_elem? (set values n none) m ≡ some (some w)
        → (j : ℕ) × (get_elem? keys m ≡ some j) × (t.entries j ≡ some w)
    removed-finds m w h =
        let (other, left) = still values n m w h in
        let (j, held, entry) = a.finds m w left in
        let differ : j ≢ k = λ same. other (a.apart m n k w v left at (held ∙ ap some same) key) in
        (j, held, Removes-keeps j w d differ entry)

    pub removed-Agrees : Agrees keys (set values n none) t
    removed-Agrees = record {
      valid = d.valid;
      sized = a.sized ∙ sym (length-set values n none);
      finds = removed-finds;
      apart = λ x y j w z hx hy kx ky.
          a.apart x y j w z (still values n x w hx).1 (still values n y z hy).1 kx ky;
    }

  pub value_at-cases :
      (values : List (Option V)) (n : ℕ)
      → is_some (value_at values n) ≡ true
      → (v : V) × (get_elem? values n ≡ some (some v))
  value_at-cases [] n h = absurd (ground arith)
  value_at-cases (none ∷ xs) zero h = absurd (ground arith)
  value_at-cases (some v ∷ xs) zero h = (v, refl)
  value_at-cases (x ∷ xs) (suc n) h = value_at-cases xs n h
