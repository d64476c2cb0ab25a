-- ===== src/EnvSort/Counts.antt =====
-- Lemmas on counting vertices and edges (pkg/utils/sort.go).
use risingwave_operator.Prelude.{
  ℕ, zero, suc, ◌+◌, ◌-◌, ◌≤◌, ◌<◌, ◌≡◌, refl, ap, ◌&&◌, List, [], ◌∷◌, ◌++◌, ltb, leb, ◌==◌,
  ==_iff, if◌then◌else◌, Bool-cases, inl, inr, arith,
}
use risingwave_operator.EnvSort.{
  Edge, Degrees, children, in_degree, decrement, relax, first_sources,
}

-- How often a vertex occurs.
abbrev pub is_vertex : ℕ → ℕ → ℕ
is_vertex v u = if u == v then 1 else 0

unfoldable pub occ : ℕ → List ℕ → ℕ
occ v [] = 0
occ v (u ∷ us) = is_vertex v u + occ v us

pub occ-append : (v : ℕ) (xs ys : List ℕ) → occ v (xs ++ ys) ≡ occ v xs + occ v ys
unfolding occ
occ-append v [] ys = omega arith
occ-append v (x ∷ xs) ys = omega (arith, occ-append v xs ys)

pub occ-snoc : (v x : ℕ) (xs : List ℕ) → occ v (xs ++ x ∷ []) ≡ occ v xs + is_vertex v x
unfolding occ
occ-snoc v x xs = omega (arith, occ-append v xs (x ∷ []))

-- Relaxing takes a vertex's degree down once for each time that it is a child.
pub relax-degree :
    (v : ℕ) (cs : List ℕ) (d : Degrees) (q : List ℕ) → (relax d q cs).0 v ≡ d v - occ v cs
unfolding relax occ decrement
relax-degree v [] d q = omega arith
relax-degree v (c ∷ cs) d q =
    ground
      (arith, relax-degree v cs (decrement d c) (if d c == 1 then q ++ c ∷ [] else q), ==_iff v c)

-- It pushes exactly the vertices that it takes down to 0.
abbrev pub pushed : ℕ → ℕ → ℕ
pushed degree taken = if ltb 0 degree && leb degree taken then 1 else 0

push-occ :
    (v c : ℕ) (d : Degrees) (q : List ℕ)
    → occ v (if d c == 1 then q ++ c ∷ [] else q)
      ≡ occ v q + (if d c == 1 then is_vertex v c else 0)
push-occ v c d q = elim (Bool-cases (d c == 1)) [
  | inl e ↦ rw e (occ-snoc v c q)
  | inr e ↦ rw e (omega arith)
]

pub relax-sources :
    (v : ℕ) (cs : List ℕ) (d : Degrees) (q : List ℕ)
    → occ v (relax d q cs).1 ≡ occ v q + pushed (d v) (occ v cs)
unfolding relax occ decrement
relax-sources v [] d q = ground arith
relax-sources v (c ∷ cs) d q =
    let ih = relax-sources v cs (decrement d c) (if d c == 1 then q ++ c ∷ [] else q) in
    let p = push-occ v c d q in
    elim (Bool-cases (v == c)) [
      | inl e ↦
          let s : v ≡ c = (==_iff v c).0 e in
          let t : d v ≡ d c = ap d s in ground (arith, ih, p, s, t)
      | inr e ↦ ground (arith, ih, p, e)
    ]

-- The edges into a vertex from vertices that are not in the order.
unfoldable pub pending : ℕ → List ℕ → List Edge → ℕ
unfolding occ
pending v order [] = 0
pending v order ((a, b) ∷ edges) =
    (if b == v && occ a order == 0 then 1 else 0) + pending v order edges

pub in_degree-pending : (v : ℕ) (edges : List Edge) → in_degree edges v ≡ pending v [] edges
unfolding in_degree pending
in_degree-pending v [] = refl
in_degree-pending v ((a, b) ∷ edges) = ground (arith, in_degree-pending v edges)

-- Taking a vertex into the order settles its edges.
pub pending-snoc :
    (v x : ℕ) (order : List ℕ) (edges : List Edge)
    → occ x order ≡ 0
    → pending v order edges ≡ pending v (order ++ x ∷ []) edges + occ v (children x edges)
unfolding pending children occ
pending-snoc v x order [] h = refl
pending-snoc v x order ((a, b) ∷ edges) h =
    let ih = pending-snoc v x order edges h in
    let p = occ-snoc a x order in
    elim (Bool-cases (a == x)) [
      | inl e ↦
          let s : a ≡ x = (==_iff a x).0 e in
          let t : occ a order ≡ 0 = rw s h in ground (arith, ih, p, s, t)
      | inr e ↦ ground (arith, ih, p, e)
    ]

-- The vertices below n that are not in the order yet.
unfoldable pub left : ℕ → List ℕ → ℕ
unfolding occ
left zero order = 0
left (suc n) order = (if occ n order == 0 then 1 else 0) + left n order

pub left-snoc_other : (n x : ℕ) (order : List ℕ) → n ≤ x → left n (order ++ x ∷ []) ≡ left n order
unfolding left
left-snoc_other zero x order h = refl
left-snoc_other (suc n) x order h =
    ground (arith, occ-snoc n x order, left-snoc_other n x order (omega arith))

pub left-snoc :
    (n x : ℕ) (order : List ℕ)
    → x < n
    → occ x order ≡ 0
    → left n (order ++ x ∷ []) + 1 ≡ left n order
unfolding left
left-snoc zero x order l h = absurd (omega arith)
left-snoc (suc n) x order l h = elim (Bool-cases (n == x)) [
  | inl e ↦
      let s : n ≡ x = (==_iff n x).0 e in
      let t : occ n order ≡ 0 = rw s h in
      ground (arith, occ-snoc n x order, left-snoc_other n x order (omega (arith, s)), t)
  | inr e ↦
      let m : x < n = ground (arith, e) in
      ground (arith, occ-snoc n x order, left-snoc n x order m h)
]

pub first_sources-occ :
    (d : Degrees) (n v : ℕ) → occ v (first_sources d n) ≡ (if ltb v n && d v == 0 then 1 else 0)
unfolding first_sources occ
first_sources-occ d zero v = ground arith
first_sources-occ d (suc n) v =
    let ih = first_sources-occ d n v in
    let p = occ-snoc v n (first_sources d n) in
    elim (Bool-cases (n == v)) [
      | inl e ↦
          let s : n ≡ v = (==_iff n v).0 e in
          let t : d n ≡ d v = ap d s in ground (arith, ih, p, s, t)
      | inr e ↦ ground (arith, ih, p, e)
    ]
