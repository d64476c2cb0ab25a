-- ===== src/EnvSort/Samples.antt =====
-- Runs of the topological sort at concrete variables.
use mathlib.Core.List.{Perm}
use mathlib.Core.List.Perm
use risingwave_operator.Prelude.{
  ℕ, zero, suc, ◌≡◌, ◌≢◌, refl, ap, false, Option, none, some, List, [], ◌∷◌, Bytes, codes, map,
  arith, subst,
}
use risingwave_operator.EnvSort.{
  EnvVar, Edge, Heap, in_degree, first_sources, sort_loop, sorted_order, variable_at, depends_on,
  topological_sort,
}
use risingwave_operator.EnvSort.Sorts.{sort_loop-ends}

abbrev pop_first : List ℕ → Option (ℕ × List ℕ)
pop_first [] = none
pop_first (x ∷ q) = some (x, q)

abbrev taken : Option (ℕ × List ℕ) → List ℕ
taken none = []
taken (some (v, q)) = v ∷ q

pop_first-Perm : (q rest : List ℕ) (v : ℕ) → pop_first q ≡ some (v, rest) → Perm q (v ∷ rest)
pop_first-Perm [] rest v e = absurd (cc e)
pop_first-Perm (x ∷ q) rest v e = subst (λ t. Perm (x ∷ q) t) (ap taken e) (Perm.refl (x ∷ q))

pop_first-some : (v : ℕ) (q : List ℕ) → pop_first (v ∷ q) ≢ none
pop_first-some v q e = absurd (cc e)

abbrev queue : Heap
queue = record {
  pop = pop_first;
  pop_perm = pop_first-Perm;
  pop_some = pop_first-some;
  pop_none = refl;
}

abbrev variable_of : Bytes → Bytes → EnvVar
variable_of n v = record { name = n; value = v }

abbrev host_port : List EnvVar
host_port =
    variable_of (codes "URL") (codes "$(HOST):$(PORT)")
    ∷ variable_of (codes "HOST") (codes "db")
    ∷ variable_of (codes "PORT") (codes "4")
    ∷ []

last_first : topological_sort queue host_port ≡ map (variable_at host_port) (1 ∷ 2 ∷ 0 ∷ [])
unfolding topological_sort
last_first = refl

-- A variable that refers to itself is lost, and another one stands there twice.
self_lost :
    topological_sort queue
      (variable_of (codes "A") (codes "$(A)") ∷ variable_of (codes "B") (codes "x") ∷ [])
    ≡ variable_of (codes "B") (codes "x") ∷ variable_of (codes "B") (codes "x") ∷ []
unfolding topological_sort
self_lost = refl

-- An escaped reference hides a real one behind it.
escape_hides :
    depends_on (variable_of (codes "A") (codes "$$(B) $(B)")) (variable_of (codes "B") (codes "x"))
    ≡ false
unfolding depends_on
escape_hides = refl

abbrev two_variables : List EnvVar
two_variables = variable_of (codes "A") (codes "$(B)") ∷ variable_of (codes "B") (codes "x") ∷ []

abbrev two_rank : ℕ → ℕ
two_rank zero = 1
two_rank (suc i) = 0

-- The first two of three vertices stand in a cycle.
abbrev cycle_edges : List Edge
cycle_edges = (0, 1) ∷ (1, 0) ∷ (2, 1) ∷ []

sort_loop-ends_example :
    sort_loop queue cycle_edges 7
      (in_degree cycle_edges)
      (first_sources (in_degree cycle_edges) 3)
      []
    ≡ sorted_order queue cycle_edges 3
sort_loop-ends_example =
    sort_loop-ends queue cycle_edges 3
      ((omega arith, omega arith), ((omega arith, omega arith), ((omega arith, omega arith), tt))) 7
      (omega arith)
