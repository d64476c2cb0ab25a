-- ===== src/ScaleView/Webhook/Admits.antt =====
-- Admitted scale views and updates (pkg/webhook/risingwave_scale_view_validating_webhook.go).
use mathlib.Core.List.{Perm}
use mathlib.Core.List.Perm as Perms
use risingwave_operator.Prelude.{
  ℕ, ℤ, pos, negsuc, pos_part, neg_part, ◌+ℤ◌, eqb_ℤ, eqb_ℤ→eq, int32, max_int32, ◌≡◌, ◌∙◌, refl,
  sym, ap, subst, inl, inr, Bool, true, false, not, some, or_default, List, [], ◌∷◌, String, str_eq,
  str_eq_iff, is_empty, append-empty, if◌then◌else◌, sort_by-perm, All, sum_of, ◌+◌, ◌≤◌, ◌^◌,
  arith, Option-cases,
}
use risingwave_operator.Lo.{Lo, IsDocumented}
use risingwave_operator.ScaleView.{ScalePolicy, ScaleView}
use risingwave_operator.ScaleView.Split.{limit, split_replicas, Replicas}
use risingwave_operator.ScaleView.Split.Shares.{cap, HasCap, caps}
use risingwave_operator.ScaleView.Split.Grants.{group_names}
use risingwave_operator.ScaleView.Split.Total.{IsRegular, IsCovered, split_replicas-serves}
use risingwave_operator.ScaleView.Webhook.{
  ViewError, name_required, uid_required, policy_required, limited, check, max_from,
  get_scale_view_max_constraints, validate_object, validate_update, update_errors, lists_equal,
  sort_strings, group_list, before, same_target,
}

-- Wrapping an integer above -2^31 around never makes it larger.
wrap-falls :
    (z : ℤ)
    → neg_part z ≤ 2 ^ 31
    → (pos_part (int32 z) ≤ pos_part z) × (neg_part (int32 z) ≤ 2 ^ 31)
unfolding int32
wrap-falls (pos n) h = (ground arith, ground arith)
wrap-falls (negsuc n) h = (ground (arith, h), ground (arith, h))

add-falls :
    (a v : ℤ)
    → neg_part v ≡ 0
    → neg_part a ≤ 2 ^ 31
    → (pos_part (a +ℤ v) ≤ pos_part a + pos_part v) × (neg_part (a +ℤ v) ≤ 2 ^ 31)
unfolding ◌+ℤ◌
add-falls a v h k = (ground (arith, h, k), ground (arith, h, k))

-- The sum of the limits in int32 is at most their sum.
max_from-caps :
    (n : ℕ) (acc : ℤ) (ps : List ScalePolicy)
    → pos_part acc ≤ n
    → neg_part acc ≤ 2 ^ 31
    → All HasCap ps
    → max_from acc ps ≡ pos max_int32
    → max_int32 ≤ n + caps ps
unfolding max_from sum_of cap limit
max_from-caps n acc [] h k c e =
    let p : pos_part acc ≡ max_int32 = ap pos_part e in omega (arith, h, p)
max_from-caps n acc (p ∷ ps) h k (c, cs) e = elim (Option-cases p.max_replicas) [
  | inl m ↦ let l : cap p ≡ max_int32 = rw m refl in omega (arith, l)
  | inr (v, m) ↦
      let l : cap p ≡ pos_part v = rw m refl in
      let z : neg_part v ≡ 0 = ap (λ o. neg_part (or_default o (pos max_int32))) (sym m) ∙ c in
      let acc' = acc +ℤ v in
      let (a, b) = add-falls acc v z k in
      let (u, w) = wrap-falls acc' b in
      let e' : max_from (int32 acc') ps ≡ pos max_int32 = (rw m at e) in
      let ih : max_int32 ≤ (n + cap p) + caps ps =
        max_from-caps (n + cap p) (int32 acc') ps (omega (arith, a, u, l, h)) w cs e' in
      omega (arith, ih)
]

check-passes : (b : Bool) (e : ViewError) → check (not b) e ≡ [] → b ≡ true
check-passes true e h = refl
check-passes false e h = cc

validate_object-max :
    (sv : ScaleView)
    → validate_object sv ≡ []
    → eqb_ℤ (max_from (pos 0) sv.spec.scale_policy) (pos max_int32) ≡ true
unfolding validate_object get_scale_view_max_constraints
validate_object-max sv h =
    let (a, r₁) = append-empty (check (str_eq sv.spec.target_ref.name "") name_required) _ h in
    let (b, r₂) = append-empty (check (str_eq sv.spec.target_ref.uid "") uid_required) _ r₁ in
    let (c, d) = append-empty (check (is_empty sv.spec.scale_policy) policy_required) _ r₂ in
    check-passes (eqb_ℤ (max_from (pos 0) sv.spec.scale_policy) (pos max_int32)) limited d

validate_object-IsCovered : (sv : ScaleView) → validate_object sv ≡ [] → IsRegular sv → IsCovered sv
validate_object-IsCovered sv h ok =
    let m =
      eqb_ℤ→eq (max_from (pos 0) sv.spec.scale_policy) (pos max_int32) (validate_object-max sv h) in
    let k : max_int32 ≤ 0 + caps sv.spec.scale_policy =
      max_from-caps 0 (pos 0) sv.spec.scale_policy (omega arith) (omega arith) ok.limits m in
    let i = ok.is_int32 in omega (arith, k, i)

-- If the webhook finds no error in a scale view that has distinct groups and no negative limit, and the
-- replicas that it asks for are an int32 that is not negative, then their division does not panic.
pub validate_object-splits :
    (lo : Lo) (sv : ScaleView)
    → IsDocumented lo
    → IsRegular sv
    → validate_object sv ≡ []
    → (m : Replicas) × (split_replicas lo sv ≡ some m)
validate_object-splits lo sv laws ok h =
    let (m, e, n, t, s) = split_replicas-serves lo sv laws ok (validate_object-IsCovered sv h ok) in
    (m, e)

lists_equal→eq : (ss ts : List String) → lists_equal ss ts ≡ true → ss ≡ ts
lists_equal→eq [] [] h = refl
lists_equal→eq [] (t ∷ ts) h = cc
lists_equal→eq (s ∷ ss) [] h = cc
lists_equal→eq (s ∷ ss) (t ∷ ts) h =
    let a : s ≡ t = (str_eq_iff s t).0 (ground (arith, h)) in
    let b : ss ≡ ts = lists_equal→eq ss ts (ground (arith, h)) in cc

validate_update-errors :
    (lo : Lo) (u v : ScaleView)
    → validate_update lo u v ≡ []
    → (validate_object v ≡ []) × (update_errors lo u v ≡ [])
unfolding validate_update
validate_update-errors lo u v h = cases (validate_object v) h
  where
    cases :
        (r : List ViewError)
        → ◌≡◌ {A = List ViewError} (if is_empty r then update_errors lo u v else r) []
        → (r ≡ []) × (update_errors lo u v ≡ [])
    cases [] k = (refl, k)
    cases (e ∷ es) k = cc

update_errors-parts :
    (lo : Lo) (u v : ScaleView)
    → update_errors lo u v ≡ []
    → (same_target u.spec.target_ref v.spec.target_ref ≡ true)
      × (lists_equal (sort_strings (group_list lo u)) (sort_strings (group_list lo v)) ≡ true)
unfolding update_errors
update_errors-parts lo u v e =
    let (a, r) = append-empty _ _ e in (check-passes _ _ a, check-passes _ _ (append-empty _ _ r).1)

-- An update without errors keeps the names of the target and of its component, and the groups up to
-- their order, and the new scale view is valid by itself.
pub validate_update-keeps :
    (lo : Lo) (u v : ScaleView)
    → IsDocumented lo
    → validate_update lo u v ≡ []
    → (validate_object v ≡ [])
      × (u.spec.target_ref.name ≡ v.spec.target_ref.name)
      × (u.spec.target_ref.component ≡ v.spec.target_ref.component)
      × Perm (group_names u.spec.scale_policy) (group_names v.spec.scale_policy)
validate_update-keeps lo u v laws h =
    let (valid, e) = validate_update-errors lo u v h in
    let (t, c) = update_errors-parts lo u v e in
    let us = group_list lo u in
    let vs = group_list lo v in
    let same : sort_strings us ≡ sort_strings vs =
      lists_equal→eq (sort_strings us) (sort_strings vs) c in
    let p : Perm us vs =
      Perms.trans (Perms.symm (sort_by-perm before us))
        (subst (λ l. Perm l vs) (sym same) (sort_by-perm before vs)) in
    let mu : us ≡ group_names u.spec.scale_policy =
      laws.map_lem ScalePolicy String u.spec.scale_policy (λ q. q.group) in
    let mv : vs ≡ group_names v.spec.scale_policy =
      laws.map_lem ScalePolicy String v.spec.scale_policy (λ q. q.group) in
    (
      valid,
      (str_eq_iff u.spec.target_ref.name v.spec.target_ref.name).0 (ground (arith, t)),
      (str_eq_iff u.spec.target_ref.component v.spec.target_ref.component).0 (ground (arith, t)),
      subst (λ l. Perm l (group_names v.spec.scale_policy)) mu (subst (λ l. Perm us l) mv p),
    )
