-- ===== src/Slab/History.antt =====
-- What a client of slab.go sees over a history of calls in which it frees only slots that it holds:
-- the slots it holds, and the most that it has held at once.
use wasmtime_go.Base.{
  ℕ, suc, ◌+◌, ◌≡◌, refl, sym, ap, ◌∙◌, true, false, not, ◌&&◌, ◌||◌, List, [], ◌∷◌, arith, leb,
  ◌==◌, if◌then◌else◌, length, contains, remove, Distinct, contains-remove, remove-Distinct,
  length-remove,
}
use mathlib.Core.Path.{ap₂, subst}
use wasmtime_go.Go.Outcome.{ok}
use wasmtime_go.Slab.{Slab, empty, allocate, deallocate}
use wasmtime_go.Slab.Chain.{stop}
use wasmtime_go.Slab.Spec.{
  Pool, pool, take, take_from, give, in_use, Represents, allocate-take, deallocate-give,
  in_use-take, in_use-give,
}

abbrev pub larger : ℕ → ℕ → ℕ
larger a b = if leb a b then b else a

pub data History : Slab → List ℕ → ℕ → Type 0 where
  start : History empty [] 0
  allocates :
      (i : ℕ) {s t : Slab} {held : List ℕ} {peak : ℕ}
      → History s held peak
      → allocate s ≡ (ok i, t)
      → History t (i ∷ held) (larger peak (length held + 1))
  frees :
      (i : ℕ) {s t : Slab} {held : List ℕ} {peak : ℕ}
      → History s held peak
      → contains held i ≡ true
      → deallocate s i ≡ (ok tt, t)
      → History t (remove i held) peak

record Agrees (s : Slab) (held : List ℕ) (peak : ℕ) (p : Pool) : Type 0 where
  represents : Represents s p
  distinct : Distinct held
  holds : (i : ℕ) → contains held i ≡ in_use p i
  counts : length held + length p.free ≡ p.size
  sized : p.size ≡ peak

take_from-counts :
    (size n : ℕ) (free : List ℕ)
    → n + length free ≡ size
    → (suc n + length (take_from size free).1.free ≡ (take_from size free).1.size)
      × ((take_from size free).1.size ≡ larger size (n + 1))
take_from-counts size n [] h = ground arith
take_from-counts size n (x ∷ rest) h = ground arith

allocates-Agrees :
    (i : ℕ) {s t : Slab} {held : List ℕ} {peak : ℕ} {p : Pool}
    → allocate s ≡ (ok i, t)
    → Agrees s held peak p
    → Agrees t (i ∷ held) (larger peak (length held + 1)) (take p).1
allocates-Agrees i {s} {t} {held} {peak} {p} e a =
    let (result, after) = allocate-take s p a.represents in
    let got : (take p).0 ≡ i = cc (result, ap (λ x. x.0) e) in
    let numbers = take_from-counts p.size (length held) p.free a.counts in
    record {
      represents = subst (λ u. Represents u (take p).1) (ap (λ x. x.1) e) after;
      distinct =
          (a.holds i ∙ ap (in_use p) (sym got) ∙ (in_use-take s p i a.represents).0, a.distinct);
      holds = λ j.
          ap₂ (λ x b. (j == x) || b) (sym got) (a.holds j) ∙ sym (in_use-take s p j a.represents).1;
      counts = numbers.0;
      sized = numbers.1 ∙ ap (λ n. larger n (length held + 1)) a.sized;
    }

frees-Agrees :
    (i : ℕ) {s t : Slab} {held : List ℕ} {peak : ℕ} {p : Pool}
    → contains held i ≡ true
    → deallocate s i ≡ (ok tt, t)
    → Agrees s held peak p
    → Agrees t (remove i held) peak (give i p)
frees-Agrees i {s} {t} {held} {peak} {p} h e a =
    let used : in_use p i ≡ true = sym (a.holds i) ∙ h in
    let (_, after) = deallocate-give s p i a.represents used in
    record {
      represents = subst (λ u. Represents u (give i p)) (ap (λ x. x.1) e) after;
      distinct = remove-Distinct i held a.distinct;
      holds = λ j.
          contains-remove i j held a.distinct
          ∙ ap (λ b. b && not (j == i)) (a.holds j)
          ∙ sym (in_use-give p i j used);
      counts = omega (arith, length-remove i held h, a.counts);
      sized = a.sized;
    }

History-Agrees :
    {s : Slab} {held : List ℕ} {peak : ℕ} → History s held peak → (p : Pool) × Agrees s held peak p
History-Agrees start = (
  pool 0 [],
  record {
    represents = record { sized = refl; chain = stop refl };
    distinct = tt;
    holds = λ i. ground arith;
    counts = refl;
    sized = refl;
  },
)
History-Agrees (allocates i h e) =
    let (p, a) = History-Agrees h in ((take p).1, allocates-Agrees i e a)
History-Agrees (frees i h held e) =
    let (p, a) = History-Agrees h in (give i p, frees-Agrees i held e a)

module _ {s : Slab} {held : List ℕ} {peak : ℕ} (h : History s held peak) where
  -- After any history in which the client frees only slots that it holds, `allocate` does not
  -- panic, and returns a slot that the client does not hold.
  pub allocate_fresh : (i : ℕ) × (t : Slab) × (allocate s ≡ (ok i, t)) × (contains held i ≡ false)
  allocate_fresh =
      let (p, a) = History-Agrees h in
      let (result, _) = allocate-take s p a.represents in
      let i = (take p).0 in
      (
        i,
        (allocate s).1,
        λ k. (result k, (allocate s).1),
        a.holds i ∙ (in_use-take s p i a.represents).0,
      )

  -- After any history in which the client frees only slots that it holds, `deallocate` does not
  -- panic at a slot that the client holds, and the next `allocate` returns this very slot.
  pub allocate-deallocate :
      (i : ℕ)
      → contains held i ≡ true
      → (t u : Slab) × (deallocate s i ≡ (ok tt, t)) × (allocate t ≡ (ok i, u))
  allocate-deallocate i held_i =
      let (p, a) = History-Agrees h in
      let (freed, after) = deallocate-give s p i a.represents (sym (a.holds i) ∙ held_i) in
      let t = (deallocate s i).1 in
      let (result, _) = allocate-take t (give i p) after in
      (t, (allocate t).1, λ k. (freed k, t), λ k. (result k, (allocate t).1))

  -- After any history in which the client frees only slots that it holds, no slot is held twice,
  -- and the list is as long as the largest number of slots that the client has ever held at once:
  -- the slab grows only when every slot is held.
  pub length-list-peak : Distinct held × (length s.list ≡ peak)
  length-list-peak = let (p, a) = History-Agrees h in (a.distinct, a.represents.sized ∙ a.sized)
