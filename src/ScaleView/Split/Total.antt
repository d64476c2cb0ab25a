-- ===== src/ScaleView/Split/Total.antt =====
-- The whole division, its last check included (pkg/object/scaleview/split.go).
use mathlib.Core.List.{Mem-prop, Nodup, flatten, Perm}
use mathlib.Core.List.Perm
use native.Mathlib.Nat.{ℕ_set}
use native.Mathlib.Bridge.{le_prop}
use risingwave_operator.Prelude.{
  ℕ, ◌+◌, ◌-◌, ◌≤◌, ◌≡◌, refl, ap, ◌∙◌, ℤ, pos, pos_part, neg_part, max_int32, eqb_ℤ, eqb_ℤ_refl,
  some, none, ◌<◌, false, or_default, List, [], ◌∷◌, map, All, All-perm, All-append_inv, arith,
  IsOrdered, sort_by-perm, sum_of, sum_of-perm,
}
use risingwave_operator.Lo.{Lo, IsDocumented}
use risingwave_operator.ScaleView.{ScalePolicy, ScaleView}
use risingwave_operator.ScaleView.Split.{
  Replicas, Groups, canonize_scale_policy, limit, group_policies, sort_groups, groups_of,
  priorities, above, fill_priorities, sum32, checked, split_replicas,
}
use risingwave_operator.ScaleView.Split.Shares.{cap, HasCap, caps, Rises}
use risingwave_operator.ScaleView.Split.Plan.{
  plan, put_all-nil, fill_priorities-plan, names, total, sum32-total,
}
use risingwave_operator.ScaleView.Split.Grants.{
  Grants-plan, group_names, names-Grants, IsGrant-Grants, Served, Served-Grants, total-plan,
  left_after-caps,
}
use risingwave_operator.ScaleView.Split.Levels.{groups_of-IsOrdered, levels-perm}

-- The replicas that the scale view asks for.
abbrev pub wanted : ScaleView → ℤ
wanted sv = or_default sv.spec.replicas (pos 0)

-- Distinct groups and no negative numbers.
pub record IsRegular (sv : ScaleView) : Type 0 where
  pub distinct : Nodup (group_names sv.spec.scale_policy)
  pub limits : All HasCap sv.spec.scale_policy
  pub not_negative : neg_part (wanted sv) ≡ 0
  pub is_int32 : pos_part (wanted sv) ≤ max_int32

abbrev pub IsCovered : ScaleView → Type 0
IsCovered sv = pos_part (wanted sv) ≤ caps sv.spec.scale_policy

-- Canonizing sets the nil limit and changes nothing else.
limit-canonize : (p : ScalePolicy) → limit (canonize_scale_policy p) ≡ limit p
unfolding limit canonize_scale_policy
limit-canonize p = ground arith

group_names-canonize :
    (ps : List ScalePolicy) → group_names (map canonize_scale_policy ps) ≡ group_names ps
unfolding canonize_scale_policy
group_names-canonize [] = refl
group_names-canonize (p ∷ ps) = ap (λ l. p.group ∷ l) (group_names-canonize ps)

caps-canonize : (ps : List ScalePolicy) → caps (map canonize_scale_policy ps) ≡ caps ps
unfolding sum_of cap
caps-canonize [] = refl
caps-canonize (p ∷ ps) = omega (arith, ap pos_part (limit-canonize p), caps-canonize ps)

HasCap-canonize :
    (ps : List ScalePolicy) → All HasCap ps → All HasCap (map canonize_scale_policy ps)
HasCap-canonize [] h = tt
HasCap-canonize (p ∷ ps) (a, h) = (ap neg_part (limit-canonize p) ∙ a, HasCap-canonize ps h)

All-flatten_inv {ℓ κ μ} :
    {A : Type ℓ} {B : Type κ} (P : B → Type μ) (f : A → List B) (ks : List A)
    → All P (flatten (map f ks))
    → All (λ k. All P (f k)) ks
unfolding flatten
All-flatten_inv P f [] h = tt
All-flatten_inv P f (k ∷ ks) h =
    let (a, b) = All-append_inv P (f k) (flatten (map f ks)) h in (a, All-flatten_inv P f ks b)

levels-IsOrdered :
    (m : Groups) (ks : List ℤ) → All (IsOrdered Rises) (map (groups_of (sort_groups m)) ks)
levels-IsOrdered m [] = tt
levels-IsOrdered m (k ∷ ks) = (groups_of-IsOrdered m k, levels-IsOrdered m ks)

split_replicas_lem :
    (lo : Lo) (sv : ScaleView)
    → let groups = sort_groups (group_policies sv.spec.scale_policy []) in
      split_replicas lo sv
      ≡ checked (wanted sv) (fill_priorities groups (priorities lo groups) (wanted sv) [])
unfolding split_replicas
split_replicas_lem lo sv = refl

checked_exact : (w : ℕ) (es : Replicas) → sum32 (pos 0) es ≡ pos w → checked (pos w) es ≡ some es
checked_exact w es h = unfold checked in rw (h, eqb_ℤ_refl (pos w))

checked_short :
    (w t : ℕ) (es : Replicas) → sum32 (pos 0) es ≡ pos t → t < w → checked (pos w) es ≡ none
checked_short w t es h l =
    let e : eqb_ℤ (pos t) (pos w) ≡ false = ground arith in unfold checked in rw (h, e)

module _ (lo : Lo) (laws : IsDocumented lo) (sv : ScaleView) (ok : IsRegular sv) where
  groups : Groups
  groups = sort_groups (group_policies sv.spec.scale_policy [])

  levels : List (List ScalePolicy)
  levels = map (groups_of groups) (priorities lo groups)

  want : ℕ
  want = pos_part (wanted sv)

  -- The map that the division returns.
  pub division : Replicas
  division = plan levels want

  served-perm : Perm (flatten levels) (map canonize_scale_policy sv.spec.scale_policy)
  unfolding groups levels priorities
  served-perm =
      levels-perm sv.spec.scale_policy (priorities lo groups)
        (Perm.trans (sort_by-perm above _) (laws.keys_perm ℤ (List ScalePolicy) groups))

  levels-HasCap : All HasCap (flatten levels)
  levels-HasCap =
      All-perm HasCap (λ p. ℕ_set _ _) _ _ (Perm.symm served-perm)
        (HasCap-canonize sv.spec.scale_policy ok.limits)

  levels-Nodup : Nodup (group_names (flatten levels))
  levels-Nodup =
      Perm.nodup (Perm.symm (Perm.map (λ g. g.group) served-perm))
        (rw (group_names-canonize sv.spec.scale_policy) ok.distinct)

  names-Nodup : Nodup (names division)
  unfolding division
  names-Nodup =
      rw (names-Grants (flatten levels) (plan levels want) (Grants-plan levels want)) levels-Nodup

  -- What is granted, and what the limits do not cover, add up to what is asked for.
  total-division : total division + (want - caps sv.spec.scale_policy) ≡ want
  unfolding division want levels groups
  total-division = omega (
    arith,
    total-plan levels want,
    left_after-caps levels want (levels-IsOrdered _ (priorities lo groups)),
    sum_of-perm cap served-perm,
    caps-canonize sv.spec.scale_policy,
  )

  wanted-pos : wanted sv ≡ pos want
  unfolding want
  wanted-pos = ground (arith, ok.not_negative)

  want_fits : want ≤ max_int32
  unfolding want
  want_fits = ok.is_int32

  fill-division : fill_priorities groups (priorities lo groups) (pos want) [] ≡ division
  unfolding division levels
  fill-division =
      fill_priorities-plan groups (priorities lo groups) want []
        (All-flatten_inv HasCap (groups_of groups) (priorities lo groups) levels-HasCap) want_fits
      ∙ put_all-nil division names-Nodup

  sum32-division : sum32 (pos 0) division ≡ pos (total division)
  unfolding division
  sum32-division =
      sum32-total division 0 (IsGrant-Grants (flatten levels) division (Grants-plan levels want))
        (omega (arith, total-division, want_fits))
      ∙ ap pos (omega arith)

  checks : split_replicas lo sv ≡ checked (pos want) division
  unfolding groups
  checks = split_replicas_lem lo sv ∙ rw (wanted-pos, fill-division)

  splits : IsCovered sv → split_replicas lo sv ≡ some division
  unfolding want
  splits c =
      checks ∙ checked_exact want division (sum32-division ∙ ap pos (omega (arith, total-division)))

  panics : ¬ IsCovered sv → split_replicas lo sv ≡ none
  unfolding want
  panics c =
      checks
      ∙ checked_short want (total division) division sum32-division (omega (arith, total-division))

  names-perm : Perm (names division) (group_names sv.spec.scale_policy)
  unfolding division
  names-perm =
      rw
        (
          names-Grants (flatten levels) division (Grants-plan levels want),
          ← group_names-canonize sv.spec.scale_policy,
        )
        (Perm.map (λ g. g.group) served-perm)

Served-prop : (m : Replicas) (g : ScalePolicy) → IsProp (Served m g)
Served-prop m g = λ x y i. record {
  listed = Mem-prop x.listed y.listed i;
  not_negative = ℕ_set _ _ x.not_negative y.not_negative i;
  within_limit = le_prop x.within_limit y.within_limit i;
}

Served-canonize :
    (m : Replicas) (ps : List ScalePolicy)
    → All (Served m) (map canonize_scale_policy ps)
    → All (Served m) ps
unfolding cap canonize_scale_policy
Served-canonize m [] h = tt
Served-canonize m (p ∷ ps) (a, h) = (
  record {
    listed = a.listed;
    not_negative = a.not_negative;
    within_limit = omega (arith, a.within_limit, ap pos_part (limit-canonize p));
  },
  Served-canonize m ps h,
)

-- Let the groups of a scale view be distinct, no limit be negative, and the replicas that it asks for
-- be an int32 that is not negative and is covered by the limits together. Then the division does not
-- panic: it returns a map whose keys are exactly the groups of the scale view, whose values add up to
-- the replicas asked for, and which gives each group a number between zero and its limit.
pub split_replicas-serves :
    (lo : Lo) (sv : ScaleView)
    → IsDocumented lo
    → IsRegular sv
    → IsCovered sv
    → (m : Replicas) × (split_replicas lo sv ≡ some m)
      × Perm (names m) (group_names sv.spec.scale_policy)
      × (total m ≡ pos_part (wanted sv))
      × All (Served m) sv.spec.scale_policy
unfolding division want
split_replicas-serves lo sv laws ok c = (
  division lo laws sv ok,
  splits lo laws sv ok c,
  names-perm lo laws sv ok,
  omega (arith, total-division lo laws sv ok),
  Served-canonize _ sv.spec.scale_policy (
      All-perm (Served _) (Served-prop _) _ _ (served-perm lo laws sv ok)
        (Served-Grants _ _ (levels-Nodup lo laws sv ok) (Grants-plan (levels lo laws sv ok) _))),
)

-- If the groups of a scale view are distinct, no limit is negative, and the replicas that it asks for
-- are an int32 that is not negative and that the limits together do not cover, then the division panics.
pub split_replicas-panics :
    (lo : Lo) (sv : ScaleView)
    → IsDocumented lo
    → IsRegular sv
    → ¬ IsCovered sv
    → split_replicas lo sv ≡ none
split_replicas-panics lo sv laws ok c = panics lo laws sv ok c
