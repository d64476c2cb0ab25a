-- ===== src/EnvSort/Edges.antt =====
-- Lemmas on the edges that the loops of the topological sort build (pkg/utils/sort.go).
use risingwave_operator.Prelude.{
  ℕ, zero, suc, ◌+◌, ◌-◌, ◌≤◌, ◌<◌, ◌≡◌, ◌∙◌, sym, ap, Bool, true, false, List, [], ◌∷◌, ◌++◌, ltb,
  ◌==◌, ==_iff, Bool-cases, inl, inr, subst, arith, All, All-append,
}
use risingwave_operator.EnvSort.{Edge, pair_edges, row_edges, all_edges}
use risingwave_operator.EnvSort.Counts.{occ, pending}

module _ {ℓ} (P : Edge → Type ℓ) (dep : ℕ → ℕ → Bool) (n : ℕ)
    (holds : (i j : ℕ) → i < n → j < n → dep i j ≡ true → P (j, i)) where
  pair-All : (i j : ℕ) → i < n → j < n → All P (pair_edges dep i j)
  pair-All i j l m = elim (Bool-cases (dep i j)) [
    | inl e ↦ rw e (holds i j l m e, tt)
    | inr e ↦ elim (Bool-cases (dep j i)) [
      | inl f ↦ rw (e, f) (holds j i m l f, tt)
      | inr f ↦ rw (e, f) tt
    ]
  ]

  row-All : (i j r : ℕ) → i < n → j + r ≤ n → All P (row_edges dep i j r)
  unfolding row_edges
  row-All i j zero l h = tt
  row-All i j (suc r) l h =
      All-append P (pair_edges dep i j) (row_edges dep i (suc j) r)
        (pair-All i j l (omega (arith, h))) (row-All i (suc j) r l (omega (arith, h)))

  -- Every edge comes from a dependency between vertices below n.
  pub edges-All : (i r : ℕ) → i + r ≤ n → All P (all_edges dep i r)
  unfolding all_edges
  edges-All i zero h = tt
  edges-All i (suc r) h =
      All-append P (row_edges dep i i (suc r)) (all_edges dep (suc i) r)
        (row-All i i (suc r) (omega (arith, h)) h) (edges-All (suc i) r (omega (arith, h)))

pending-append :
    (v : ℕ) (order : List ℕ) (xs ys : List Edge)
    → pending v order (xs ++ ys) ≡ pending v order xs + pending v order ys
unfolding pending
pending-append v order [] ys = omega arith
pending-append v order ((a, b) ∷ xs) ys = omega (arith, pending-append v order xs ys)

module _ (dep : ℕ → ℕ → Bool) (order : List ℕ) where
  pair-forth :
      (i j : ℕ) → dep i j ≡ true → pending i order (pair_edges dep i j) ≡ 0 → 1 ≤ occ j order
  unfolding pending
  pair-forth i j d p = let q : pending i order ((j, i) ∷ []) ≡ 0 = (rw d at p) in ground (arith, q)

  pair-back :
      (i j : ℕ)
      → dep j i ≡ true
      → dep i j ≡ false
      → pending j order (pair_edges dep i j) ≡ 0
      → 1 ≤ occ i order
  unfolding pending
  pair-back i j d n p =
      let q : pending j order ((i, j) ∷ []) ≡ 0 = (rw (n, d) at p) in ground (arith, q)

  -- A row holds the edge of each pair in it: an earlier vertex that depends on a later one, and a later
  -- vertex that depends on an earlier one, if not both do.
  row-forth :
      (i t j r : ℕ)
      → dep i t ≡ true
      → j ≤ t
      → t < j + r
      → pending i order (row_edges dep i j r) ≡ 0
      → 1 ≤ occ t order
  unfolding row_edges
  row-forth i t j zero d l m p = absurd (omega (arith, l, m))
  row-forth i t j (suc r) d l m p =
      let s = pending-append i order (pair_edges dep i j) (row_edges dep i (suc j) r) in
      elim (Bool-cases (j == t)) [
        | inl e ↦
            let f : j ≡ t = (==_iff j t).0 e in
            subst (λ a. 1 ≤ occ a order) f (pair-forth i j (ap (dep i) f ∙ d) (omega (arith, s, p)))
        | inr e ↦
            row-forth i t (suc j) r d (ground (arith, l, e)) (omega (arith, m))
              (omega (arith, s, p))
      ]

  row-back :
      (i t j r : ℕ)
      → dep t i ≡ true
      → dep i t ≡ false
      → j ≤ t
      → t < j + r
      → pending t order (row_edges dep i j r) ≡ 0
      → 1 ≤ occ i order
  unfolding row_edges
  row-back i t j zero d n l m p = absurd (omega (arith, l, m))
  row-back i t j (suc r) d n l m p =
      let s = pending-append t order (pair_edges dep i j) (row_edges dep i (suc j) r) in
      elim (Bool-cases (j == t)) [
        | inl e ↦
            let f : j ≡ t = (==_iff j t).0 e in
            let g : pending t order (pair_edges dep i j) ≡ 0 = omega (arith, s, p) in
            let q : pending j order (pair_edges dep i j) ≡ 0 =
              subst (λ a. pending a order (pair_edges dep i j) ≡ 0) (sym f) g in
            pair-back i j (ap (λ a. dep a i) f ∙ d) (ap (dep i) f ∙ n) q
        | inr e ↦
            row-back i t (suc j) r d n (ground (arith, l, e)) (omega (arith, m))
              (omega (arith, s, p))
      ]

  row-of :
      (v i r a m : ℕ)
      → i ≤ a
      → a < i + r
      → a + m ≡ i + r
      → pending v order (all_edges dep i r) ≡ 0
      → pending v order (row_edges dep a a m) ≡ 0
  unfolding all_edges
  row-of v i zero a m l h e p = absurd (omega (arith, l, h))
  row-of v i (suc r) a m l h e p =
      let s = pending-append v order (row_edges dep i i (suc r)) (all_edges dep (suc i) r) in
      elim (Bool-cases (i == a)) [
        | inl f ↦
            let g : i ≡ a = (==_iff i a).0 f in
            let k : suc r ≡ m = omega (arith, g, e) in
            let z : pending v order (row_edges dep i i (suc r)) ≡ 0 = omega (arith, s, p) in
            subst (λ b. pending v order (row_edges dep b b m) ≡ 0) g
              (subst (λ c. pending v order (row_edges dep i i c) ≡ 0) k z)
        | inr f ↦
            row-of v (suc i) r a m (ground (arith, l, f)) (omega (arith, h)) (omega (arith, e))
              (omega (arith, s, p))
      ]

  -- If no edge into a vertex is pending, then everything that it depends on is in the order.
  pub depends-occ :
      (n i j : ℕ)
      → i < n
      → j < n
      → dep i j ≡ true
      → dep j i ≡ false
      → pending i order (all_edges dep 0 n) ≡ 0
      → 1 ≤ occ j order
  depends-occ n i j l m d e p = elim (Bool-cases (ltb j i)) [
    | inl b ↦
        let k : j < i = ground (arith, b) in
        row-back j i j (n - j) d e (omega (arith, k)) (omega (arith, l, m))
          (row-of i 0 n j (n - j) (omega arith) (omega (arith, m)) (omega (arith, m)) p)
    | inr b ↦
        let k : i ≤ j = ground (arith, b) in
        row-forth i j i (n - i) d k (omega (arith, l, m))
          (row-of i 0 n i (n - i) (omega arith) (omega (arith, l)) (omega (arith, l)) p)
  ]
