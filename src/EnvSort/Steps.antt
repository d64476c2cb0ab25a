-- ===== src/EnvSort/Steps.antt =====
-- One round of the main loop of the topological sort (pkg/utils/sort.go).
use mathlib.Core.List.{append-nil, append_assoc}
use risingwave_operator.Prelude.{
  ℕ, ◌+◌, ◌-◌, ◌≤◌, ◌<◌, ◌≡◌, ◌∙◌, refl, sym, some, List, [], ◌∷◌, ◌++◌, length, length-append, ltb,
  ◌==◌, ==_iff, Bool-cases, inl, inr, ◌⊎◌, subst, arith, All, sum_of, sum_of-perm,
}
use risingwave_operator.EnvSort.{Edge, Heap, Degrees, children, relax}
use risingwave_operator.EnvSort.Counts.{
  is_vertex, occ, occ-snoc, relax-degree, pushed, relax-sources, pending, pending-snoc, left,
  left-snoc,
}

-- Every vertex of an order comes when all its edges are settled by those before it.
abbrev pub Sorted : List Edge → List ℕ → List ℕ → Type 0
Sorted edges done [] = Unit {0}
Sorted edges done (x ∷ xs) = (pending x done edges ≡ 0) × Sorted edges (done ++ x ∷ []) xs

Sorted-snoc :
    (edges : List Edge) (done xs : List ℕ) (x : ℕ)
    → Sorted edges done xs
    → pending x (done ++ xs) edges ≡ 0
    → Sorted edges done (xs ++ x ∷ [])
Sorted-snoc edges done [] x s p = (subst (λ l. pending x l edges ≡ 0) (append-nil done) p, tt)
Sorted-snoc edges done (y ∷ xs) x (a, s) p = (
  a,
  Sorted-snoc edges (done ++ y ∷ []) xs x s
      (subst (λ l. pending x l edges ≡ 0) (sym (append_assoc done (y ∷ []) xs)) p),
)

-- All ends of the edges are below n.
abbrev pub AreBelow : ℕ → List Edge → Type 0
AreBelow n = All (λ e. (e.0 < n) × (e.1 < n))

children-below :
    (n x v : ℕ) (edges : List Edge) → AreBelow n edges → 1 ≤ occ v (children x edges) → v < n
unfolding occ children
children-below n x v [] b h = absurd (omega arith)
children-below n x v ((a, c) ∷ edges) ((_, l), b) h = elim (Bool-cases (a == x)) [
  | inl e ↦ elim (Bool-cases (c == v)) [
    | inl f ↦ let s : c ≡ v = (==_iff c v).0 f in omega (arith, s, l)
    | inr f ↦
        let k : 1 ≤ occ v (children x edges) = ground (arith, h, e, f) in
        children-below n x v edges b k
  ]
  | inr e ↦
      let k : 1 ≤ occ v (children x edges) = ground (arith, h, e) in children-below n x v edges b k
]

occ-sum : (v : ℕ) (xs : List ℕ) → occ v xs ≡ sum_of (is_vertex v) xs
unfolding occ sum_of
occ-sum v [] = refl
occ-sum v (x ∷ xs) = omega (arith, occ-sum v xs)

popped-occ :
    (heap : Heap) (q rest : List ℕ) (x v : ℕ)
    → heap.pop q ≡ some (x, rest)
    → occ v q ≡ is_vertex v x + occ v rest
unfolding occ
popped-occ heap q rest x v h =
    occ-sum v q ∙ sum_of-perm (is_vertex v) (heap.pop_perm q rest x h) ∙ sym (occ-sum v (x ∷ rest))

module _ (edges : List Edge) (n : ℕ) where
  pub record IsSorting (d : Degrees) (q order : List ℕ) : Type 0 where
    pub once : (v : ℕ) → occ v order + occ v q ≤ 1
    pub degree : (v : ℕ) → d v ≡ pending v order edges
    pub ended : (v : ℕ) → 1 ≤ occ v order + occ v q → (v < n) × (d v ≡ 0)
    pub ready : (v : ℕ) → v < n → d v ≡ 0 → 1 ≤ occ v order + occ v q
    pub sorted : Sorted edges [] order
    pub count : length order + left n order ≡ n

  -- The numbers of one vertex in a round: o and q count it in the order and in the queue before, i is 1
  -- for the vertex that is popped, t counts it among the children.
  module _ (o q r i t d : ℕ) (popped : q ≡ i + r) (settled : 1 ≤ o + q → d ≡ 0) where
    round_once : o + q ≤ 1 → (o + i) + (r + pushed d t) ≤ 1
    round_once h = elim (Bool-cases (ltb 0 (o + q))) [
      | inl e ↦ let z : d ≡ 0 = settled (ground (arith, e)) in ground (arith, z, h, popped)
      | inr e ↦ ground (arith, e, popped)
    ]

    round_settled : 1 ≤ (o + i) + (r + pushed d t) → d - t ≡ 0
    round_settled h = elim (Bool-cases (ltb 0 (o + q))) [
      | inl e ↦ let z : d ≡ 0 = settled (ground (arith, e)) in omega (arith, z)
      | inr e ↦ ground (arith, e, h, popped)
    ]

    -- A vertex in the queue or the order was there before or is a child.
    round_origin : 1 ≤ (o + i) + (r + pushed d t) → (1 ≤ o + q) ⊎ (1 ≤ t)
    round_origin h = elim (Bool-cases (ltb 0 (o + q))) [
      | inl e ↦ inl (ground (arith, e))
      | inr e ↦ inr (ground (arith, e, h, popped))
    ]

    round_ready : (d ≡ 0 → 1 ≤ o + q) → d - t ≡ 0 → 1 ≤ (o + i) + (r + pushed d t)
    round_ready h z = elim (Bool-cases (ltb 0 d)) [
      | inl e ↦ ground (arith, e, z)
      | inr e ↦ let k : 1 ≤ o + q = h (ground (arith, e)) in ground (arith, k, popped)
    ]

  module _ (heap : Heap) (below : AreBelow n edges) (d : Degrees) (q order rest : List ℕ) (x : ℕ)
      (s : IsSorting d q order) (p : heap.pop q ≡ some (x, rest)) where
    is_vertex_self : is_vertex x x ≡ 1
    is_vertex_self = ground arith

    pub popped_new : (occ x order ≡ 0) × (x < n) × (d x ≡ 0)
    popped_new =
        let e = popped-occ heap q rest x x p in
        let one : 1 ≤ occ x order + occ x q = omega (arith, e, is_vertex_self) in
        let (l, z) = s.ended x one in (omega (arith, e, is_vertex_self, s.once x), l, z)

    step_ended :
        (v : ℕ)
        → 1 ≤ occ v (order ++ x ∷ []) + occ v (relax d rest (children x edges)).1
        → (v < n) × ((relax d rest (children x edges)).0 v ≡ 0)
    step_ended v h =
        let cs = children x edges in
        let e = popped-occ heap q rest x v p in
        let settled = λ (k : 1 ≤ occ v order + occ v q). (s.ended v k).1 in
        let k : 1 ≤ (occ v order + is_vertex v x) + (occ v rest + pushed (d v) (occ v cs)) =
          omega (arith, h, occ-snoc v x order, relax-sources v cs d rest) in
        let origin =
          round_origin (occ v order) (occ v q) (occ v rest) (is_vertex v x) (occ v cs) (d v) e
            settled k in
        let l : v < n = elim origin [
          | inl a ↦ (s.ended v a).0
          | inr b ↦ children-below n x v edges below b
        ] in
        (
          l,
          relax-degree v cs d rest
              ∙ round_settled (occ v order) (occ v q) (occ v rest) (is_vertex v x) (occ v cs) (d v)
                  e settled k,
        )

    pub step-IsSorting :
        IsSorting
          (relax d rest (children x edges)).0
          (relax d rest (children x edges)).1
          (order ++ x ∷ [])
    step-IsSorting =
        let cs = children x edges in
        let (new, l, z) = popped_new in
        let e = λ (v : ℕ). popped-occ heap q rest x v p in
        let settled = λ (v : ℕ) (h : 1 ≤ occ v order + occ v q). (s.ended v h).1 in
        let sources = λ (v : ℕ). relax-sources v cs d rest in
        let o = λ (v : ℕ). occ-snoc v x order in
        record {
          once = λ v.
              rw (o v, sources v)
                (round_once (occ v order) (occ v q) (occ v rest) (is_vertex v x) (occ v cs) (d v)
                  (e v) (settled v) (s.once v));
          degree = λ v.
              relax-degree v cs d rest
              ∙ omega (arith, s.degree v, pending-snoc v x order edges new);
          ended = step_ended;
          ready = λ v m h.
              rw (o v, sources v)
                (round_ready (occ v order) (occ v q) (occ v rest) (is_vertex v x) (occ v cs) (d v)
                  (e v) (settled v) (s.ready v m) (sym (relax-degree v cs d rest) ∙ h));
          sorted = Sorted-snoc edges [] order x s.sorted (sym (s.degree x) ∙ z);
          count = omega (arith, length-append order (x ∷ []), left-snoc n x order l new, s.count);
        }
