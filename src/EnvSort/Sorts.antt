-- ===== src/EnvSort/Sorts.antt =====
-- The main loop of the topological sort (pkg/utils/sort.go), from its start to its end.
use risingwave_operator.Prelude.{
  ℕ, zero, suc, ◌≤◌, ◌<◌, ◌≡◌, ◌∙◌, refl, ap, none, List, [], ◌∷◌, ◌++◌, ◌==◌, ==_iff, Bool-cases,
  Option-cases, inl, inr, subst, arith, All,
}
use risingwave_operator.EnvSort.{
  Edge, Heap, Degrees, children, in_degree, relax, first_sources, sort_loop, sorted_order,
}
use risingwave_operator.EnvSort.Counts.{
  occ, pending, in_degree-pending, left, left-snoc, first_sources-occ,
}
use risingwave_operator.EnvSort.Steps.{AreBelow, IsSorting, popped_new, step-IsSorting}

occ-first : (x : ℕ) (q : List ℕ) → 1 ≤ occ x (x ∷ q)
unfolding occ
occ-first x q = ground arith

left-empty : (n : ℕ) → left n [] ≡ n
unfolding left occ
left-empty zero = refl
left-empty (suc n) = omega (arith, left-empty n)

module _ (heap : Heap) (edges : List Edge) (n : ℕ) (below : AreBelow n edges) where
  -- The loop has ended with nothing left to take.
  pub record HasEnded (order : List ℕ) : Type 0 where
    pub degrees : Degrees
    pub invariant : IsSorting edges n degrees [] order

  full : (d : Degrees) (q order : List ℕ) → IsSorting edges n d q order → left n order ≤ 0 → q ≡ []
  full d [] order s h = refl
  full d (x ∷ q) order s h =
      let k = occ-first x q in
      let (l, z) = s.ended x (omega (arith, k)) in
      absurd (omega (arith, left-snoc n x order l (omega (arith, k, s.once x)), h))

  drained : (q : List ℕ) → heap.pop q ≡ none → q ≡ []
  drained [] e = refl
  drained (x ∷ q) e = absurd (heap.pop_some x q e)

  sort_loop-HasEnded :
      (fuel : ℕ) (d : Degrees) (q order : List ℕ)
      → IsSorting edges n d q order
      → left n order ≤ fuel
      → HasEnded (sort_loop heap edges fuel d q order)
  unfolding sort_loop
  sort_loop-HasEnded zero d q order s h =
      let e = full d q order s h in
      record { degrees = d; invariant = subst (λ t. IsSorting edges n d t order) e s }
  sort_loop-HasEnded (suc fuel) d q order s h = elim (Option-cases (heap.pop q)) [
    | inl e ↦ rw e (record {
      degrees = d;
      invariant = subst (λ t. IsSorting edges n d t order) (drained q e) s;
    })
    | inr ((x, rest), e) ↦
        let (new, l, z) = popped_new edges n heap below d q order rest x s e in
        rw e (
          sort_loop-HasEnded fuel (relax d rest (children x edges)).0
            (relax d rest (children x edges)).1 (order ++ x ∷ [])
            (step-IsSorting edges n heap below d q order rest x s e)
            (omega (arith, left-snoc n x order l new, h)))
  ]

  start : IsSorting edges n (in_degree edges) (first_sources (in_degree edges) n) []
  unfolding occ
  start =
      let d = in_degree edges in
      let f = λ (v : ℕ). first_sources-occ d n v in
      record {
        once = λ v. ground (arith, f v);
        degree = λ v. in_degree-pending v edges;
        ended = λ v h. (ground (arith, f v, h), ground (arith, f v, h));
        ready = λ v l z. ground (arith, f v, l, z);
        sorted = tt;
        count = omega (arith, left-empty n);
      }

  pub sorted_order-HasEnded : HasEnded (sorted_order heap edges n)
  unfolding sorted_order
  sorted_order-HasEnded =
      sort_loop-HasEnded n (in_degree edges) (first_sources (in_degree edges) n) [] start
        (omega (arith, left-empty n))

  empty_stays : (k : ℕ) (d : Degrees) (order : List ℕ) → sort_loop heap edges k d [] order ≡ order
  unfolding sort_loop
  empty_stays zero d order = refl
  empty_stays (suc k) d order = rw heap.pop_none refl

  sort_loop-more :
      (fuel m : ℕ) (d : Degrees) (q order : List ℕ)
      → IsSorting edges n d q order
      → left n order ≤ fuel
      → fuel ≤ m
      → sort_loop heap edges m d q order ≡ sort_loop heap edges fuel d q order
  unfolding sort_loop
  sort_loop-more zero m d q order s h l =
      let e = full d q order s h in
      ap (λ t. sort_loop heap edges m d t order) e ∙ empty_stays m d order
  sort_loop-more (suc fuel) zero d q order s h l = absurd (omega (arith, l))
  sort_loop-more (suc fuel) (suc m) d q order s h l = elim (Option-cases (heap.pop q)) [
    | inl e ↦ rw e refl
    | inr ((x, rest), e) ↦
        let (new, b, z) = popped_new edges n heap below d q order rest x s e in
        rw e (
          sort_loop-more fuel m (relax d rest (children x edges)).0
            (relax d rest (children x edges)).1 (order ++ x ∷ [])
            (step-IsSorting edges n heap below d q order rest x s e)
            (omega (arith, left-snoc n x order b new, h)) (omega (arith, l)))
  ]

  -- The main loop ends within n rounds, whatever edges there are between the n vertices, cycles included:
  -- with more fuel it gives the same order, for every heap.
  pub sort_loop-ends :
      (m : ℕ)
      → n ≤ m
      → sort_loop heap edges m (in_degree edges) (first_sources (in_degree edges) n) []
        ≡ sorted_order heap edges n
  unfolding sorted_order
  sort_loop-ends m l =
      sort_loop-more n m (in_degree edges) (first_sources (in_degree edges) n) [] start
        (omega (arith, left-empty n)) l

-- No edge from outside the order, if everything of lower rank is in it.
abbrev pub Ranked : (ℕ → ℕ) → List Edge → Type 0
Ranked rank = All (λ e. rank e.0 < rank e.1)

pending-none :
    (rank : ℕ → ℕ) (n k v : ℕ) (order : List ℕ) (edges : List Edge)
    → rank v < suc k
    → ((a : ℕ) → a < n → rank a < k → 1 ≤ occ a order)
    → AreBelow n edges
    → Ranked rank edges
    → pending v order edges ≡ 0
unfolding pending
pending-none rank n k v order [] h ih below ranked = refl
pending-none rank n k v order ((a, b) ∷ edges) h ih ((l, _), below) (r, ranked) =
    let rest = pending-none rank n k v order edges h ih below ranked in
    elim (Bool-cases (b == v)) [
      | inl e ↦
          let s : b ≡ v = (==_iff b v).0 e in
          let t : rank b ≡ rank v = ap rank s in
          let o : 1 ≤ occ a order = ih a l (omega (arith, t, r, h)) in ground (arith, rest, o)
      | inr e ↦ ground (arith, rest, e)
    ]

module _ (heap : Heap) (edges : List Edge) (n : ℕ) (below : AreBelow n edges) (rank : ℕ → ℕ)
    (ranked : Ranked rank edges) where
  pub placed :
      (order : List ℕ)
      → HasEnded heap edges n below order
      → (k v : ℕ) → v < n
      → rank v < k
      → 1 ≤ occ v order
  unfolding occ
  placed order s zero v l h = absurd (omega (arith, h))
  placed order s (suc k) v l h =
      let p =
        pending-none rank n k v order edges h (λ a m r. placed order s k a m r) below ranked in
      omega (arith, s.invariant.ready v l (s.invariant.degree v ∙ p))
