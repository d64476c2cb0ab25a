-- ===== src/ScaleView/Split.antt =====
-- pkg/object/scaleview/split.go: dividing the replicas of a scale view among its groups.
-- Go's `int` is read as an unbounded integer; `int32` wraps around.
use Prim.Native.String.{compare}
use text.Mathlib.Text.{is_lt}
pub mod Shares
pub mod Plan
pub mod Grants
mod Levels
pub mod Total
pub mod Samples
use risingwave_operator.Prelude.{
  ℕ, ◌%◌, ◌/◌, suc, ℤ, pos, negsuc, sub_ℕ, ◌+ℤ◌, ◌-ℤ◌, ◌*ℤ◌, ltb_ℤ, leb_ℤ, eqb_ℤ, int32, max_int32,
  Bool, not, Option, none, some, or_default, List, [], ◌∷◌, ◌++◌, map, length, String, str_eq, ◌==◌,
  if◌then◌else◌, sort_by,
}
use risingwave_operator.Lo.{Lo}
use risingwave_operator.ScaleView.{ScalePolicy, ScaleView}

-- Go's `/` and `% n == 0` by a length, which truncate towards zero.
quot : ℤ → ℕ → ℤ
quot (pos a) n = pos (a / n)
quot (negsuc a) n = sub_ℕ 0 (suc a / n)

divides : ℕ → ℤ → Bool
divides n (pos a) = a % n == 0
divides n (negsuc a) = suc a % n == 0

unfoldable pub split : ℤ → ℕ → ℤ
unfolding quot divides
split total n = if divides n total then quot total n else quot total n +ℤ pos 1

unfoldable pub canonize_scale_policy : ScalePolicy → ScalePolicy
canonize_scale_policy p = record p {
  max_replicas = some (or_default p.max_replicas (pos max_int32));
}

-- `*g.MaxReplicas`. It is read of canonized policies only, where the pointer is never nil.
unfoldable pub limit : ScalePolicy → ℤ
limit p = or_default p.max_replicas (pos max_int32)

-- The maps by group and by priority.
abbrev pub Replicas : Type 0
Replicas = List (String × ℤ)

abbrev pub Groups : Type 0
Groups = List (ℤ × List ScalePolicy)

-- replicas[group] = v
pub put : String → ℤ → Replicas → Replicas
put k v [] = (k, v) ∷ []
put k v ((j, w) ∷ m) = if str_eq j k then (k, v) ∷ m else (j, w) ∷ put k v m

-- replicas[group], which is zero if the key is missing
unfoldable pub get : Replicas → String → ℤ
get [] k = pos 0
get ((j, w) ∷ m) k = if str_eq j k then w else get m k

-- One round of the grouping loop.
pub add_policy : ScalePolicy → Groups → Groups
unfolding canonize_scale_policy
add_policy p [] = (p.priority, canonize_scale_policy p ∷ []) ∷ []
add_policy p ((k, gs) ∷ m) =
    if eqb_ℤ k p.priority
    then (k, gs ++ canonize_scale_policy p ∷ []) ∷ m
    else (k, gs) ∷ add_policy p m

pub group_policies : List ScalePolicy → Groups → Groups
unfolding add_policy
group_policies [] m = m
group_policies (p ∷ ps) m = group_policies ps (add_policy p m)

-- The order of the groups of one priority: by (maxReplicas, group).
pub less : ScalePolicy → ScalePolicy → Bool
unfolding limit
less a b =
    if not (eqb_ℤ (limit a) (limit b))
    then ltb_ℤ (limit a) (limit b)
    else is_lt (compare a.group b.group)

pub sort_groups : Groups → Groups
unfolding sort_by less
sort_groups = map λ e. (e.0, sort_by less e.1)

pub groups_of : Groups → ℤ → List ScalePolicy
groups_of [] k = []
groups_of ((j, gs) ∷ m) k = if eqb_ℤ j k then gs else groups_of m k

-- What one group takes, when `n` groups of its priority are not served yet.
pub share : ℤ → ℕ → ℤ → ℤ
unfolding split ◌*ℤ◌
share max_value n total_left =
    if leb_ℤ (max_value *ℤ pos n) total_left then max_value else split total_left n

-- The inner loop: the replicas that are left, and the map.
pub fill_groups : List ScalePolicy → ℤ → Replicas → ℤ × Replicas
unfolding share limit put
fill_groups [] total_left m = (total_left, m)
fill_groups (g ∷ gs) total_left m =
    let taken = share (limit g) (length (g ∷ gs)) total_left in
    fill_groups gs (total_left -ℤ taken) (put g.group (int32 taken) m)

pub zero_groups : List ScalePolicy → Replicas → Replicas
unfolding put
zero_groups [] m = m
zero_groups (g ∷ gs) m = zero_groups gs (put g.group (pos 0) m)

-- One priority, whose groups get nothing when no replicas are left.
pub fill_priority : List ScalePolicy → ℤ → Replicas → ℤ × Replicas
unfolding fill_groups zero_groups
fill_priority gs total_left m =
    if leb_ℤ total_left (pos 0) then (total_left, zero_groups gs m) else fill_groups gs total_left m

-- The outer loop.
pub fill_priorities : Groups → List ℤ → ℤ → Replicas → Replicas
unfolding fill_priority groups_of
fill_priorities groups [] total_left m = m
fill_priorities groups (k ∷ ks) total_left m =
    let (rest, m') = fill_priority (groups_of groups k) total_left m in
    fill_priorities groups ks rest m'

-- The final check's sum, in int32.
pub sum32 : ℤ → Replicas → ℤ
sum32 acc [] = acc
sum32 acc ((k, v) ∷ m) = sum32 (int32 (acc +ℤ v)) m

-- Higher priorities first.
pub above : ℤ → ℤ → Bool
above a b = ltb_ℤ b a

pub priorities : Lo → Groups → List ℤ
unfolding sort_by above
priorities lo groups = sort_by above (lo.keys ℤ (List ScalePolicy) groups)

-- The final check; `none` is the panic "algorithm has bug".
pub checked : ℤ → Replicas → Option Replicas
unfolding sum32
checked wanted replicas =
    if not (eqb_ℤ (sum32 (pos 0) replicas) wanted) then none else some replicas

unfoldable pub split_replicas : Lo → ScaleView → Option Replicas
unfolding group_policies sort_groups priorities fill_priorities checked int32 ◌+ℤ◌ ◌-ℤ◌
split_replicas lo sv =
    let wanted = or_default sv.spec.replicas (pos 0) in
    let groups = sort_groups (group_policies sv.spec.scale_policy []) in
    checked wanted (fill_priorities groups (priorities lo groups) wanted [])
