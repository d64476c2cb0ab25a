-- ===== src/EnvSort.antt =====
-- pkg/utils/sort.go: the topological sort of environment variables. A vertex is the index of a variable.
-- The pushes and pops of container/heap are an interface.
pub mod Counts
pub mod Steps
pub mod Sorts
pub mod Edges
pub mod References
pub mod Orders
pub mod Samples
use mathlib.Core.List.{Perm}
use risingwave_operator.Prelude.{
  ℕ, zero, suc, ◌+◌, ◌-◌, ◌≡◌, ◌≢◌, Bool, true, false, ◌&&◌, not, Option, none, some, List, [], ◌∷◌,
  ◌++◌, Bytes, codes, length, drop, get_elem?, or_default, ◌==◌, map, if◌then◌else◌,
}
use risingwave_operator.UserWebhook.Checks.{has_prefix}

-- corev1.EnvVar
pub record EnvVar : Type 0 where
  pub name : Bytes
  pub value : Bytes

abbrev next_index : Option ℕ → Option ℕ
next_index none = none
next_index (some i) = some (suc i)

-- strings.Index
unfoldable pub index_in : Bytes → Bytes → Option ℕ
unfolding has_prefix
index_in [] needle = if has_prefix [] needle then some 0 else none
index_in (c ∷ s) needle =
    let rest = next_index (index_in s needle) in if has_prefix (c ∷ s) needle then some 0 else rest

-- The dollar signs right before an index.
unfoldable pub dollars_before : Bytes → ℕ → ℕ
dollars_before s zero = 0
dollars_before s (suc i) =
    let rest = dollars_before s i in if or_default (get_elem? s i) 0 == b'$' then suc rest else 0

abbrev pub is_even : ℕ → Bool
is_even zero = true
is_even (suc n) = not (is_even n)

-- An index is found, and the reference there is not escaped.
abbrev pub unescaped_at : Bytes → Option ℕ → Bool
unescaped_at value none = false
unescaped_at value (some idx) = is_even (dollars_before value idx)

-- The first reference to b in a is there and not escaped.
unfoldable pub depends_on : EnvVar → EnvVar → Bool
unfolding index_in dollars_before
depends_on a b = unescaped_at a.value (index_in a.value (codes "$(" ++ (b.name ++ codes ")")))

-- An edge from a vertex to one that depends on it.
abbrev pub Edge : Type 0
Edge = ℕ × ℕ

-- One round of the inner loop: `dep i j` says that i depends on j.
abbrev pub pair_edges : (ℕ → ℕ → Bool) → ℕ → ℕ → List Edge
pair_edges dep i j = if dep i j then (j, i) ∷ [] else if dep j i then (i, j) ∷ [] else []

-- The inner loop from j, with the number of rounds left.
unfoldable pub row_edges : (ℕ → ℕ → Bool) → ℕ → ℕ → ℕ → List Edge
row_edges dep i j zero = []
row_edges dep i j (suc r) = pair_edges dep i j ++ row_edges dep i (suc j) r

-- The outer loop from i, with the number of rounds left.
unfoldable pub all_edges : (ℕ → ℕ → Bool) → ℕ → ℕ → List Edge
unfolding row_edges
all_edges dep i zero = []
all_edges dep i (suc r) = row_edges dep i i (suc r) ++ all_edges dep (suc i) r

-- graph[v], in the order of the appends.
unfoldable pub children : ℕ → List Edge → List ℕ
children v [] = []
children v ((a, b) ∷ edges) = let rest = children v edges in if a == v then b ∷ rest else rest

-- inDegree[v] as the first loops leave it.
unfoldable pub in_degree : List Edge → ℕ → ℕ
in_degree [] v = 0
in_degree ((a, b) ∷ edges) v = (if b == v then 1 else 0) + in_degree edges v

-- container/heap: Pop takes out one of the items (that of the least name), and Push is an append, since
-- the order in the queue is the heap's own.
pub record Heap : Type 0 where
  pub pop : List ℕ → Option (ℕ × List ℕ)
  pub pop_perm : (q rest : List ℕ) (v : ℕ) → pop q ≡ some (v, rest) → Perm q (v ∷ rest)
  pub pop_some : (v : ℕ) (q : List ℕ) → pop (v ∷ q) ≢ none
  pub pop_none : pop [] ≡ none

-- The map inDegree.
abbrev pub Degrees : Type 0
Degrees = ℕ → ℕ

unfoldable pub decrement : Degrees → ℕ → Degrees
decrement degrees c v = if v == c then degrees v - 1 else degrees v

-- The loop over the children. A degree that is 0 already stays below the test for ever; here it stays 0
-- and the test asks for the degree before.
unfoldable pub relax : Degrees → List ℕ → List ℕ → Degrees × List ℕ
unfolding decrement
relax degrees sources [] = (degrees, sources)
relax degrees sources (c ∷ cs) =
    relax (decrement degrees c) (if degrees c == 1 then sources ++ c ∷ [] else sources) cs

-- The vertices below n without an incoming edge. (The code ranges over a map, in any order.)
unfoldable pub first_sources : Degrees → ℕ → List ℕ
first_sources degrees zero = []
first_sources degrees (suc n) =
    let rest = first_sources degrees n in if degrees n == 0 then rest ++ n ∷ [] else rest

-- The loop ends where the heap is empty.
abbrev pub next_round : Option (ℕ × List ℕ) → List ℕ → (ℕ → List ℕ → List ℕ) → List ℕ
next_round none order round = order
next_round (some (v, rest)) order round = round v rest

module _ (heap : Heap) (edges : List Edge) where
  -- The main loop, on fuel.
  unfoldable pub sort_loop : ℕ → Degrees → List ℕ → List ℕ → List ℕ
  unfolding relax children
  sort_loop zero degrees sources order = order
  sort_loop (suc fuel) degrees sources order = next_round (heap.pop sources) order λ v rest.
      let (degrees', sources') = relax degrees rest (children v edges) in
      sort_loop fuel degrees' sources' (order ++ v ∷ [])

-- The order of the vertices below n: every round takes out another vertex, so n rounds are enough.
unfoldable pub sorted_order : Heap → List Edge → ℕ → List ℕ
unfolding sort_loop in_degree first_sources
sorted_order heap edges n =
    sort_loop heap edges n (in_degree edges) (first_sources (in_degree edges) n) []

abbrev pub variable_at : List EnvVar → ℕ → EnvVar
variable_at e i = or_default (get_elem? e i) (record { name = []; value = [] })

abbrev pub index_depends_on : List EnvVar → ℕ → ℕ → Bool
index_depends_on e i j = depends_on (variable_at e i) (variable_at e j)

-- The variables are written back to the places of the order; the places behind it keep theirs.
unfoldable pub topological_sort : Heap → List EnvVar → List EnvVar
unfolding sorted_order all_edges depends_on
topological_sort heap e =
    let order = sorted_order heap (all_edges (index_depends_on e) 0 (length e)) (length e) in
    map (variable_at e) order ++ drop (length order) e
