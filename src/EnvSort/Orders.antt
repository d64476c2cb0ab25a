-- ===== src/EnvSort/Orders.antt =====
-- The order of the variables (pkg/utils/sort.go, TopologicalSort).
use risingwave_operator.Prelude.{
  ℕ, zero, suc, ◌≤◌, ◌<◌, ◌≡◌, refl, Bool, true, false, ◌&&◌, List, [], ◌∷◌, ◌++◌, length, ltb,
  ◌==◌, if◌then◌else◌, Bool-cases, inl, inr, arith,
}
use risingwave_operator.EnvSort.{EnvVar, Heap, all_edges, sorted_order, index_depends_on}
use risingwave_operator.EnvSort.Counts.{occ, pending, left}
use risingwave_operator.EnvSort.Edges.{edges-All, depends-occ}
use risingwave_operator.EnvSort.Steps.{Sorted, AreBelow}
use risingwave_operator.EnvSort.Sorts.{HasEnded, sorted_order-HasEnded, Ranked, placed}

-- Each vertex below n stands once in the order.
unfoldable pub has_each_once : List ℕ → ℕ → Bool
unfolding occ
has_each_once order zero = true
has_each_once order (suc v) = occ v order == 1 && has_each_once order v

module _ (dep : ℕ → ℕ → Bool) where
  -- Each vertex below n that x depends on is among those done.
  unfoldable pub has_settled : List ℕ → ℕ → ℕ → Bool
  unfolding occ
  has_settled done x zero = true
  has_settled done x (suc j) =
      (if dep x j then ltb 0 (occ j done) else true) && has_settled done x j

  -- Each vertex of an order comes after all that it depends on.
  unfoldable pub is_ordered : ℕ → List ℕ → List ℕ → Bool
  unfolding has_settled
  is_ordered n done [] = true
  is_ordered n done (x ∷ xs) = has_settled done x n && is_ordered n (done ++ x ∷ []) xs

  module _ (n : ℕ) (one_way : (i j : ℕ) → i < n → j < n → dep i j ≡ true → dep j i ≡ false) where
    settled :
        (done : List ℕ) (x m : ℕ)
        → x < n
        → m ≤ n
        → pending x done (all_edges dep 0 n) ≡ 0
        → has_settled done x m ≡ true
    unfolding has_settled
    settled done x zero l h p = refl
    settled done x (suc j) l h p =
        let rest = settled done x j l (omega (arith, h)) p in
        elim (Bool-cases (dep x j)) [
          | inl d ↦
              let k : 1 ≤ occ j done = depends-occ dep done n x j l h d (one_way x j l h d) p in
              ground (arith, k, rest, d)
          | inr d ↦ ground (arith, rest, d)
        ]

    ordered :
        (done order : List ℕ)
        → ((v : ℕ) → 1 ≤ occ v order → v < n)
        → Sorted (all_edges dep 0 n) done order
        → is_ordered n done order ≡ true
    unfolding is_ordered occ
    ordered done [] below s = refl
    ordered done (x ∷ xs) below (p, s) =
        let a = settled done x n (below x (ground arith)) (omega arith) p in
        let b = ordered (done ++ x ∷ []) xs (λ v h. below v (ground (arith, h))) s in
        ground (arith, a, b)

once : (order : List ℕ) (n : ℕ) → ((v : ℕ) → v < n → occ v order ≡ 1) → has_each_once order n ≡ true
unfolding has_each_once
once order zero h = refl
once order (suc v) h =
    let rest = once order v (λ w l. h w (omega (arith, l))) in
    ground (arith, rest, h v (omega arith))

left-none : (order : List ℕ) (n : ℕ) → ((v : ℕ) → v < n → occ v order ≡ 1) → left n order ≡ 0
unfolding left
left-none order zero h = refl
left-none order (suc v) h =
    let rest = left-none order v (λ w l. h w (omega (arith, l))) in
    ground (arith, rest, h v (omega arith))

module _ (heap : Heap) (dep : ℕ → ℕ → Bool) (n : ℕ) (rank : ℕ → ℕ)
    (ranked : (i j : ℕ) → i < n → j < n → dep i j ≡ true → rank j < rank i) where
  one_way : (i j : ℕ) → i < n → j < n → dep i j ≡ true → dep j i ≡ false
  one_way i j l m d = elim (Bool-cases (dep j i)) [
    | inl e ↦ absurd (omega (arith, ranked i j l m d, ranked j i m l e))
    | inr e ↦ e
  ]

  below : AreBelow n (all_edges dep 0 n)
  below = edges-All (λ e. (e.0 < n) × (e.1 < n)) dep n (λ i j l m d. (m, l)) 0 n (omega arith)

  edges-Ranked : Ranked rank (all_edges dep 0 n)
  edges-Ranked = edges-All (λ e. rank e.0 < rank e.1) dep n ranked 0 n (omega arith)

  module _ (order : List ℕ) (s : HasEnded heap (all_edges dep 0 n) n below order) where
    placed_once : (v : ℕ) → v < n → occ v order ≡ 1
    placed_once v l =
        let k =
          placed heap (all_edges dep 0 n) n below rank edges-Ranked order s (suc (rank v)) v l
            (omega arith) in
        omega (arith, k, s.invariant.once v)

    order-is_ordered : is_ordered dep n [] order ≡ true
    order-is_ordered =
        ordered dep n one_way [] order (λ v h. (s.invariant.ended v (omega (arith, h))).0)
          s.invariant.sorted

    order-length : length order ≡ n
    order-length = omega (arith, left-none order n placed_once, s.invariant.count)

  pub sorted_order-orders :
      (length (sorted_order heap (all_edges dep 0 n) n) ≡ n)
      × (has_each_once (sorted_order heap (all_edges dep 0 n) n) n ≡ true)
      × (is_ordered dep n [] (sorted_order heap (all_edges dep 0 n) n) ≡ true)
  sorted_order-orders =
      let order = sorted_order heap (all_edges dep 0 n) n in
      let s = sorted_order-HasEnded heap (all_edges dep 0 n) n below in
      (order-length order s, once order n (placed_once order s), order-is_ordered order s)

-- The order of the variables that the sort computes.
abbrev pub index_order : Heap → List EnvVar → List ℕ
index_order heap e = sorted_order heap (all_edges (index_depends_on e) 0 (length e)) (length e)
