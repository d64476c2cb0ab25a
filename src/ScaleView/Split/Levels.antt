-- ===== src/ScaleView/Split/Levels.antt =====
-- Lemmas on the grouping by priority (pkg/object/scaleview/split.go).
use mathlib.Core.List.{
  Mem, Nodup, Nodup-cons, Nodup-nil, mem-cons, not-mem-nil, append_assoc, append-nil, perm_middle,
  perm_append_comm, flatten, Perm, Permᴰ, Perm-prop,
}
use mathlib.Core.List.Perm
use mathlib.Core.Logic.{∥∥₁_elim}
use mathlib.Core.Logic.Or
use mathlib.Core.HLevel.{⊥_prop}
use risingwave_operator.Prelude.{
  ◌≡◌, ◌≢◌, refl, sym, ap, subst, inl, inr, ℤ, eqb_ℤ, eqb_ℤ→eq, eqb_ℤ_refl, List, [], ◌∷◌, ◌++◌,
  map, All, arith, Bool-cases, IsOrdered, sort_by-perm, sort_by-IsOrdered, false, true,
}
use risingwave_operator.ScaleView.{ScalePolicy}
use risingwave_operator.ScaleView.Split.{
  Groups, canonize_scale_policy, add_policy, group_policies, less, sort_groups, groups_of,
}
use risingwave_operator.ScaleView.Split.Shares.{cap, Rises}

items : Groups → List ScalePolicy
items [] = []
items ((k, gs) ∷ m) = gs ++ items m

add_policy-perm :
    (p : ScalePolicy) (m : Groups)
    → Perm (items (add_policy p m)) (canonize_scale_policy p ∷ items m)
unfolding items add_policy
add_policy-perm p [] = Perm.refl _
add_policy-perm p ((k, gs) ∷ m) = elim (Bool-cases (eqb_ℤ k p.priority)) [
  | inl e ↦ rw (e, append_assoc) (perm_middle gs (items m))
  | inr e ↦ rw e (Perm.trans (Perm.append_left gs (add_policy-perm p m)) (perm_middle gs (items m)))
]

group_policies-perm :
    (ps : List ScalePolicy) (m : Groups)
    → Perm (items (group_policies ps m)) (map canonize_scale_policy ps ++ items m)
unfolding group_policies
group_policies-perm [] m = Perm.refl _
group_policies-perm (p ∷ ps) m =
    Perm.trans (group_policies-perm ps (add_policy p m))
      (Perm.trans (Perm.append_left _ (add_policy-perm p m)) (perm_middle _ (items m)))

sort_groups-perm : (m : Groups) → Perm (items (sort_groups m)) (items m)
unfolding items sort_groups
sort_groups-perm [] = Perm.refl _
sort_groups-perm ((k, gs) ∷ m) = Perm.append (sort_by-perm less gs) (sort_groups-perm m)

abbrev pub keys_of : Groups → List ℤ
keys_of = map λ e. e.0

add_policy-not_mem :
    (p : ScalePolicy) (k : ℤ) (m : Groups)
    → k ≢ p.priority
    → ¬ Mem k (keys_of m)
    → ¬ Mem k (keys_of (add_policy p m))
unfolding add_policy
add_policy-not_mem p k [] h n = λ x. Or.elim ⊥_prop (mem-cons.0 x) h not-mem-nil
add_policy-not_mem p k ((j, gs) ∷ m) h n = elim (Bool-cases (eqb_ℤ j p.priority)) [
  | inl e ↦ rw e n
  | inr e ↦ rw e λ x.
      Or.elim ⊥_prop (mem-cons.0 x) (λ q. n (mem-cons.1 (Or.inl q)))
        (add_policy-not_mem p k m h (λ y. n (mem-cons.1 (Or.inr y))))
]

add_policy-Nodup :
    (p : ScalePolicy) (m : Groups) → Nodup (keys_of m) → Nodup (keys_of (add_policy p m))
unfolding add_policy
add_policy-Nodup p [] h = Nodup-cons.1 (not-mem-nil, h)
add_policy-Nodup p ((j, gs) ∷ m) h = elim (Bool-cases (eqb_ℤ j p.priority)) [
  | inl e ↦ rw e h
  | inr e ↦ rw e (
      Nodup-cons.1 (
        add_policy-not_mem p j m (λ q. ground (arith, eqb_ℤ_refl j, q)) (Nodup-cons.0 h).0,
        add_policy-Nodup p m (Nodup-cons.0 h).1,
      ))
]

group_policies-Nodup :
    (ps : List ScalePolicy) (m : Groups) → Nodup (keys_of m) → Nodup (keys_of (group_policies ps m))
unfolding group_policies
group_policies-Nodup [] m h = h
group_policies-Nodup (p ∷ ps) m h =
    group_policies-Nodup ps (add_policy p m) (add_policy-Nodup p m h)

sort_groups-keys : (m : Groups) → keys_of (sort_groups m) ≡ keys_of m
unfolding sort_groups
sort_groups-keys [] = refl
sort_groups-keys ((k, gs) ∷ m) = ap (λ ks. k ∷ ks) (sort_groups-keys m)

-- Reading the map at all its keys gives all its items.
not_mem-ne : (k : ℤ) (ks : List ℤ) → ¬ Mem k ks → All (λ j. k ≢ j) ks
not_mem-ne k [] h = tt
not_mem-ne k (j ∷ ks) h =
    (λ e. h (mem-cons.1 (Or.inl e)), not_mem-ne k ks (λ m. h (mem-cons.1 (Or.inr m))))

skip_key :
    (k : ℤ) (gs : List ScalePolicy) (m : Groups) (ks : List ℤ)
    → All (λ j. k ≢ j) ks
    → map (groups_of ((k, gs) ∷ m)) ks ≡ map (groups_of m) ks
unfolding groups_of
skip_key k gs m [] h = refl
skip_key k gs m (j ∷ ks) (a, h) =
    let miss : eqb_ℤ k j ≡ false = ground (arith, eqb_ℤ→eq k j) in
    rw miss (ap (λ r. groups_of m j ∷ r) (skip_key k gs m ks h))

items_by_key : (m : Groups) → Nodup (keys_of m) → flatten (map (groups_of m) (keys_of m)) ≡ items m
unfolding flatten items
items_by_key [] h = refl
items_by_key ((k, gs) ∷ m) h =
    let d = Nodup-cons.0 h in
    rw (skip_key k gs m (keys_of m) (not_mem-ne k (keys_of m) d.0), items_by_key m d.1)
      (unfold groups_of in rw (eqb_ℤ_refl k))

swap_front {ℓ} : {B : Type ℓ} (xs ys r : List B) → Perm (xs ++ (ys ++ r)) (ys ++ (xs ++ r))
swap_front xs ys r =
    rw (← append_assoc xs ys r, ← append_assoc ys xs r)
      (Perm.append_right r (perm_append_comm xs ys))

module _ {ℓ κ} {A : Type ℓ} {B : Type κ} (f : A → List B) where
  flatten-permᴰ : (xs ys : List A) → Permᴰ xs ys → Perm (flatten (map f xs)) (flatten (map f ys))
  unfolding flatten
  flatten-permᴰ xs ys Permᴰ.nil = Perm.refl _
  flatten-permᴰ xs ys (Permᴰ.cons {a = a} {l₁ = l} {l₂ = k} e p) =
      subst (λ b. Perm (f a ++ flatten (map f l)) (f b ++ flatten (map f k))) e
        (Perm.append_left (f a) (flatten-permᴰ l k p))
  flatten-permᴰ xs ys (Permᴰ.swap {a = a} {b = b} {l = l} e e') =
      rw (← e, ← e') (swap_front (f a) (f b) (flatten (map f l)))
  flatten-permᴰ xs ys (Permᴰ.trans {l₂ = l} p q) =
      Perm.trans (flatten-permᴰ xs l p) (flatten-permᴰ l ys q)

  pub flatten-perm : {xs ys : List A} → Perm xs ys → Perm (flatten (map f xs)) (flatten (map f ys))
  flatten-perm {xs} {ys} p = ∥∥₁_elim p Perm-prop (flatten-permᴰ xs ys)

Rises-trans : (a b c : ScalePolicy) → Rises a b → Rises b c → Rises a c
Rises-trans a b c h k = omega arith

less-Rises : (a b : ScalePolicy) → less a b ≡ true → Rises a b
unfolding less cap
less-Rises a b h = ground arith

not_less-Rises : (a b : ScalePolicy) → less a b ≡ false → Rises b a
unfolding less cap
not_less-Rises a b h = ground arith

-- Every level is served by rising limits.
pub groups_of-IsOrdered : (m : Groups) (k : ℤ) → IsOrdered Rises (groups_of (sort_groups m) k)
unfolding groups_of sort_groups
groups_of-IsOrdered [] k = tt
groups_of-IsOrdered ((j, gs) ∷ m) k = elim (Bool-cases (eqb_ℤ j k)) [
  | inl e ↦ rw e (sort_by-IsOrdered Rises less Rises-trans less-Rises not_less-Rises gs)
  | inr e ↦ rw e (groups_of-IsOrdered m k)
]

-- The levels of a scale view, in any order of the keys, hold exactly its policies, canonized.
pub levels-perm :
    (ps : List ScalePolicy) (ks : List ℤ)
    → Perm ks (keys_of (sort_groups (group_policies ps [])))
    → Perm
        (flatten (map (groups_of (sort_groups (group_policies ps []))) ks))
        (map canonize_scale_policy ps)
unfolding items
levels-perm ps ks h =
    let m : Groups = sort_groups (group_policies ps []) in
    let d : Nodup (keys_of m) =
      subst Nodup (sym (sort_groups-keys (group_policies ps [])))
        (group_policies-Nodup ps [] Nodup-nil) in
    Perm.trans (flatten-perm (groups_of m) h) (
      rw (items_by_key m d) (
        Perm.trans (sort_groups-perm (group_policies ps [])) (
          subst (λ l. Perm (items (group_policies ps [])) l) (append-nil _)
            (group_policies-perm ps []))))
