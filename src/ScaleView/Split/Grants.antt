-- ===== src/ScaleView/Split/Grants.antt =====
-- Lemmas on the grants of the plan (pkg/object/scaleview/split.go).
use mathlib.Core.List.{Mem, Nodup, Nodup-cons, mem-cons, flatten}
use mathlib.Core.Logic.Or
use risingwave_operator.Prelude.{
  ℕ, suc, ◌+◌, ◌-◌, ◌≤◌, ◌≡◌, ◌≢◌, refl, sym, ◌∙◌, ℤ, pos_part, neg_part, List, [], ◌∷◌, ◌++◌, map,
  length, All, arith, String, str_eq, str_eq_iff, str_eq_refl, sum_of, sum_of-append, IsOrdered,
  false, true,
}
use risingwave_operator.ScaleView.{ScalePolicy}
use risingwave_operator.ScaleView.Split.{Replicas, get}
use risingwave_operator.ScaleView.Split.Shares.{
  cap, portion, portion_bounds, left, left-caps, caps, Rises,
}
use risingwave_operator.ScaleView.Split.Plan.{assign, plan, left_after, names, total, IsGrant}

-- The grants `es` are those of the groups `gs`, in order, within the limits.
pub Grants : List ScalePolicy → Replicas → Type 0
Grants [] [] = Unit
Grants [] (e ∷ es) = ⊥
Grants (g ∷ gs) [] = ⊥
Grants (g ∷ gs) (e ∷ es) =
    (e.0 ≡ g.group) × (neg_part e.1 ≡ 0) × (pos_part e.1 ≤ cap g) × Grants gs es

Grants-assign : (gs : List ScalePolicy) (t : ℕ) → Grants gs (assign gs t)
unfolding Grants assign
Grants-assign [] t = tt
Grants-assign (g ∷ gs) t = (
  refl,
  refl,
  (portion_bounds (cap g) (length gs) t).0,
  Grants-assign gs (t - portion (cap g) (length (g ∷ gs)) t),
)

Grants-append :
    (gs hs : List ScalePolicy) (es fs : Replicas)
    → Grants gs es
    → Grants hs fs
    → Grants (gs ++ hs) (es ++ fs)
unfolding Grants
Grants-append [] hs [] fs h k = k
Grants-append [] hs (e ∷ es) fs h k = elim h [ ]
Grants-append (g ∷ gs) hs [] fs h k = elim h [ ]
Grants-append (g ∷ gs) hs (e ∷ es) fs (a, b, c, h) k = (a, b, c, Grants-append gs hs es fs h k)

pub Grants-plan : (ls : List (List ScalePolicy)) (t : ℕ) → Grants (flatten ls) (plan ls t)
unfolding plan flatten
Grants-plan [] t = unfold Grants in tt
Grants-plan (gs ∷ ls) t =
    Grants-append gs (flatten ls) (assign gs t) (plan ls (left gs t)) (Grants-assign gs t)
      (Grants-plan ls (left gs t))

abbrev pub group_names : List ScalePolicy → List String
group_names = map λ g. g.group

pub names-Grants :
    (gs : List ScalePolicy) (es : Replicas) → Grants gs es → names es ≡ group_names gs
unfolding Grants
names-Grants [] [] h = refl
names-Grants [] (e ∷ es) h = elim h [ ]
names-Grants (g ∷ gs) [] h = elim h [ ]
names-Grants (g ∷ gs) (e ∷ es) (a, b, c, h) = cc (a, names-Grants gs es h)

pub IsGrant-Grants : (gs : List ScalePolicy) (es : Replicas) → Grants gs es → All IsGrant es
unfolding Grants
IsGrant-Grants [] [] h = tt
IsGrant-Grants [] (e ∷ es) h = elim h [ ]
IsGrant-Grants (g ∷ gs) [] h = elim h [ ]
IsGrant-Grants (g ∷ gs) (e ∷ es) (a, b, c, h) = (b, IsGrant-Grants gs es h)

-- The map gives the group a number of replicas within its limit.
pub record Served (m : Replicas) (g : ScalePolicy) : Type 0 where
  pub listed : Mem g.group (names m)
  pub not_negative : neg_part (get m g.group) ≡ 0
  pub within_limit : pos_part (get m g.group) ≤ cap g

Served-cons :
    (m : Replicas) (k : String) (v : ℤ) (g : ScalePolicy)
    → k ≢ g.group
    → Served m g
    → Served ((k, v) ∷ m) g
unfolding get
Served-cons m k v g h s =
    let e : str_eq k g.group ≡ false = ground (arith, str_eq_iff k g.group) in
    record {
      listed = mem-cons.1 (Or.inr s.listed);
      not_negative = rw e s.not_negative;
      within_limit = rw e s.within_limit;
    }

others : (k : String) (gs : List ScalePolicy) → ¬ Mem k (group_names gs) → All (λ g. k ≢ g.group) gs
others k [] h = tt
others k (g ∷ gs) h = (λ e. h (mem-cons.1 (Or.inl e)), others k gs (λ m. h (mem-cons.1 (Or.inr m))))

All-both :
    (m : Replicas) (k : String) (v : ℤ) (gs : List ScalePolicy)
    → All (λ g. k ≢ g.group) gs
    → All (Served m) gs
    → All (Served ((k, v) ∷ m)) gs
All-both m k v [] h s = tt
All-both m k v (g ∷ gs) (a, h) (b, s) = (Served-cons m k v g a b, All-both m k v gs h s)

pub Served-Grants :
    (gs : List ScalePolicy) (es : Replicas)
    → Nodup (group_names gs)
    → Grants gs es
    → All (Served es) gs
unfolding Grants
Served-Grants [] es d h = tt
Served-Grants (g ∷ gs) [] d h = elim h [ ]
Served-Grants (g ∷ gs) ((k, v) ∷ es) d (a, b, c, h) =
    let hit : str_eq k g.group ≡ true = rw a (str_eq_refl g.group) in
    (
      record {
        listed = mem-cons.1 (Or.inl (sym a));
        not_negative = unfold get in rw hit b;
        within_limit = unfold get in rw hit c;
      },
      All-both es k v gs (others k gs (rw a (Nodup-cons.0 d).0))
          (Served-Grants gs es (Nodup-cons.0 d).1 h),
    )

total-assign : (gs : List ScalePolicy) (t : ℕ) → total (assign gs t) + left gs t ≡ t
unfolding assign left sum_of
total-assign [] t = omega arith
total-assign (g ∷ gs) t = omega (
  arith,
  portion_bounds (cap g) (length gs) t,
  total-assign gs (t - portion (cap g) (suc (length gs)) t),
)

pub total-plan : (ls : List (List ScalePolicy)) (t : ℕ) → total (plan ls t) + left_after ls t ≡ t
unfolding plan left_after sum_of
total-plan [] t = omega arith
total-plan (gs ∷ ls) t =
    rw (sum_of-append _ (assign gs t) (plan ls (left gs t)))
      (omega (arith, total-assign gs t, total-plan ls (left gs t)))

-- With every level by rising limits, what is left is what the limits do not cover.
pub left_after-caps :
    (ls : List (List ScalePolicy)) (t : ℕ)
    → All (IsOrdered Rises) ls
    → left_after ls t ≡ t - caps (flatten ls)
unfolding left_after flatten sum_of
left_after-caps [] t h = omega arith
left_after-caps (gs ∷ ls) t (a, h) =
    rw (sum_of-append cap gs (flatten ls), left-caps gs t a)
      (left_after-caps ls (t - caps gs) h ∙ omega arith)
