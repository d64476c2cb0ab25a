-- ===== src/ScaleView/Helper.antt =====
-- pkg/scaleview/scale_view_helper.go: reading and writing the replicas of a component's node groups.
-- Where the source panics (an unknown component), the outer `none` is the panic. A pointer into a group
-- is the group's place in its list.
pub mod Writes
use risingwave_operator.Prelude.{
  ℕ, zero, suc, ℤ, eqb_ℤ, Bool, true, false, Option, none, some, List, [], ◌∷◌, map, String, str_eq,
  if◌then◌else◌,
}
use risingwave_operator.ScaleView.{Lock}

-- RisingWaveNodeGroup: the fields that scale views read and write.
pub record NodeGroup : Type 0 where
  pub name : String
  pub replicas : ℤ

-- RisingWave: `.spec.components`, its node groups, and `.status.scaleViews`.
pub record RisingWave : Type 0 where
  pub uid : String
  pub meta : List NodeGroup
  pub frontend : List NodeGroup
  pub compactor : List NodeGroup
  pub compute : List NodeGroup
  pub scale_views : List Lock

-- The node groups of a component; `none` is the panic.
unfoldable pub node_groups : RisingWave → String → Option (List NodeGroup)
node_groups risingwave component =
    if str_eq component "meta"
    then some risingwave.meta
    else if str_eq component "frontend"
    then some risingwave.frontend
    else if str_eq component "compactor"
    then some risingwave.compactor
    else if str_eq component "compute"
    then some risingwave.compute
    else none

unfoldable pub with_node_groups : RisingWave → String → List NodeGroup → RisingWave
with_node_groups risingwave component groups =
    if str_eq component "meta"
    then record risingwave { meta = groups }
    else if str_eq component "frontend"
    then record risingwave { frontend = groups }
    else if str_eq component "compactor"
    then record risingwave { compactor = groups }
    else if str_eq component "compute"
    then record risingwave { compute = groups }
    else risingwave

-- findNodeGroup from a given index: the first group of the name.
unfoldable pub find_node_group : List NodeGroup → String → ℕ → Option (NodeGroup × ℕ)
find_node_group [] target i = none
find_node_group (g ∷ groups) target i =
    let rest = find_node_group groups target (suc i) in
    if str_eq g.name target then some (g, i) else rest

-- The rest of a function, if the component's groups do not panic.
abbrev pub unless_panic {ℓ κ} : {A : Type ℓ} {B : Type κ} → (A → B) → Option A → Option B
unless_panic f none = none
unless_panic f (some a) = some (f a)

-- getReplicasPtr, findReplicaPtrGroup and findReplicaPtrFromNodeGroups
unfoldable pub get_replicas_ptr : RisingWave → String → String → Option (Option (NodeGroup × ℕ))
unfolding node_groups find_node_group
get_replicas_ptr risingwave component group =
    unless_panic (λ groups. find_node_group groups group 0) (node_groups risingwave component)

unfoldable pub list_component_groups : RisingWave → String → Option (List String)
unfolding node_groups
list_component_groups risingwave component =
    unless_panic (map λ g. g.name) (node_groups risingwave component)

abbrev index_of : Option (NodeGroup × ℕ) → ℕ × Bool
index_of none = (0, false)
index_of (some (g, i)) = (i, true)

unfoldable pub get_group_index : RisingWave → String → String → Option (ℕ × Bool)
unfolding get_replicas_ptr
get_group_index risingwave component group =
    unless_panic index_of (get_replicas_ptr risingwave component group)

-- The replicas, or not found.
abbrev pub replicas_of : Option (NodeGroup × ℕ) → Option ℤ
replicas_of none = none
replicas_of (some (g, i)) = some g.replicas

unfoldable pub read_replicas : RisingWave → String → String → Option (Option ℤ)
unfolding get_replicas_ptr
read_replicas risingwave component group =
    unless_panic replicas_of (get_replicas_ptr risingwave component group)

-- `*ptr = replicas` of the group at an index.
unfoldable pub write_at : List NodeGroup → ℕ → ℤ → List NodeGroup
write_at [] i r = []
write_at (g ∷ groups) zero r = record g { replicas = r } ∷ groups
write_at (g ∷ groups) (suc i) r = g ∷ write_at groups i r

unfoldable pub write_found :
    RisingWave → String → List NodeGroup → Option (NodeGroup × ℕ) → ℤ → RisingWave × Bool
unfolding with_node_groups write_at
write_found risingwave component groups none r = (risingwave, false)
write_found risingwave component groups (some (g, i)) r =
    if eqb_ℤ g.replicas r
    then (risingwave, false)
    else (with_node_groups risingwave component (write_at groups i r), true)

unfoldable pub write_replicas : RisingWave → String → String → ℤ → Option (RisingWave × Bool)
unfolding node_groups find_node_group write_found
write_replicas risingwave component group replicas =
    unless_panic
      (λ groups. write_found risingwave component groups (find_node_group groups group 0) replicas)
      (node_groups risingwave component)
