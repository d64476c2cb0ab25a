-- ===== src/ScaleView/Locks/Exclusive.antt =====
-- Exclusive lock records (pkg/object/scale_view_lock_manager.go).
use mathlib.Core.List.{Permᴰ, Perm}
use mathlib.Core.Logic.{∥∥₁_elim}
use mathlib.Core.Bool.{Bool-set}
use risingwave_operator.Prelude.{
  ◌∙◌, ℕ, zero, suc, ◌+◌, ◌≡◌, refl, ap, subst, inl, inr, Bool, true, false, ◌||◌, none, some, List,
  [], ◌∷◌, map, All, String, str_eq, exists_test, arith, Bool-cases, IsOrdered, get_elem?,
}
use risingwave_operator.ScaleView.{ScaleView, GroupLock, Lock}
use risingwave_operator.ScaleView.Locks.{is_lock_of, find_from, set_lock, get_scale_view_lock_index}
use risingwave_operator.ScaleView.Locks.Checks.{Compatible, overlaps, locks_group}

-- Any two locks belong to different scale views, and hold no group of a component in common.
abbrev pub IsExclusive : List Lock → Type 0
IsExclusive = IsOrdered Compatible

abbrev pub locked_names : List GroupLock → List String
locked_names = map λ g. g.name

-- Overlapping is a matter of the groups' names only.
names_overlap : List String → List String → Bool
names_overlap xs ys = exists_test (λ g. exists_test (λ h. str_eq h g) xs) ys

locks_group-names :
    (xs : List GroupLock) (n : String)
    → locks_group xs n ≡ exists_test (λ h. str_eq h n) (locked_names xs)
locks_group-names [] n = refl
locks_group-names (x ∷ xs) n = ap (λ b. str_eq x.name n || b) (locks_group-names xs n)

or_swap : (a b c : Bool) → (a || (b || c)) ≡ (b || (a || c))
or_swap true true c = refl
or_swap true false c = refl
or_swap false b c = refl

-- Whether some item passes a test does not depend on the order.
exists_test-permᴰ :
    (p : String → Bool) (xs ys : List String) → Permᴰ xs ys → exists_test p xs ≡ exists_test p ys
exists_test-permᴰ p xs ys Permᴰ.nil = refl
exists_test-permᴰ p xs ys (Permᴰ.cons {l₁ = l} {l₂ = k} e q) = cc (e, exists_test-permᴰ p l k q)
exists_test-permᴰ p xs ys (Permᴰ.swap {a = a} {b = b} {l = l} e e') =
    or_swap (p a) (p b) (exists_test p l) ∙ cc (e, e')
exists_test-permᴰ p xs ys (Permᴰ.trans {l₂ = l} q r) =
    exists_test-permᴰ p xs l q ∙ exists_test-permᴰ p l ys r

exists_test-perm :
    (p : String → Bool) {xs ys : List String} → Perm xs ys → exists_test p xs ≡ exists_test p ys
exists_test-perm p {xs} {ys} q = ∥∥₁_elim q (Bool-set _ _) (exists_test-permᴰ p xs ys)

names_overlap-left :
    {xs ys : List String}
    → Perm xs ys
    → (zs : List String) → names_overlap xs zs ≡ names_overlap ys zs
unfolding names_overlap
names_overlap-left q [] = refl
names_overlap-left q (z ∷ zs) = cc (exists_test-perm (λ h. str_eq h z) q, names_overlap-left q zs)

names_overlap-right :
    (zs : List String) {xs ys : List String}
    → Perm xs ys
    → names_overlap zs xs ≡ names_overlap zs ys
unfolding names_overlap
names_overlap-right zs q = exists_test-perm (λ g. exists_test (λ h. str_eq h g) zs) q

overlaps-names :
    (xs ys : List GroupLock) → overlaps xs ys ≡ names_overlap (locked_names xs) (locked_names ys)
unfolding names_overlap
overlaps-names xs [] = refl
overlaps-names xs (y ∷ ys) = cc (locks_group-names xs y.name, overlaps-names xs ys)

-- `b` may take the place of `a`: only the generation, the replicas and the order of the groups differ.
pub record Replaces (a b : Lock) : Type 0 where
  pub name : b.name ≡ a.name
  pub component : b.component ≡ a.component
  pub groups : Perm (locked_names b.group_locks) (locked_names a.group_locks)

Compatible-right : (s a b : Lock) → Replaces a b → Compatible s a → Compatible s b
Compatible-right s a b r c = record {
  names = rw r.name c.names;
  groups =
      rw
        (
          r.component,
          overlaps-names s.group_locks b.group_locks,
          names_overlap-right (locked_names s.group_locks) r.groups,
          ← overlaps-names s.group_locks a.group_locks,
        )
        c.groups;
}

Compatible-left : (s a b : Lock) → Replaces a b → Compatible a s → Compatible b s
Compatible-left s a b r c = record {
  names = rw r.name c.names;
  groups =
      rw
        (
          r.component,
          overlaps-names b.group_locks s.group_locks,
          names_overlap-left r.groups (locked_names s.group_locks),
          ← overlaps-names a.group_locks s.group_locks,
        )
        c.groups;
}

All-set_lock :
    (s a b : Lock) (i : ℕ) (locks : List Lock)
    → Replaces a b
    → get_elem? locks i ≡ some a
    → All (Compatible s) locks
    → All (Compatible s) (set_lock i b locks)
unfolding set_lock
All-set_lock s a b i [] r e h = tt
All-set_lock s a b zero (x ∷ locks) r e (c, h) =
    (Compatible-right s a b r (subst (Compatible s) (cc) c), h)
All-set_lock s a b (suc i) (x ∷ locks) r e (c, h) = (c, All-set_lock s a b i locks r e h)

All-left :
    (a b : Lock) (locks : List Lock)
    → Replaces a b
    → All (Compatible a) locks
    → All (Compatible b) locks
All-left a b [] r h = tt
All-left a b (s ∷ locks) r (c, h) = (Compatible-left s a b r c, All-left a b locks r h)

pub set_lock-IsExclusive :
    (a b : Lock) (i : ℕ) (locks : List Lock)
    → Replaces a b
    → get_elem? locks i ≡ some a
    → IsExclusive locks
    → IsExclusive (set_lock i b locks)
unfolding set_lock
set_lock-IsExclusive a b i [] r e h = tt
set_lock-IsExclusive a b zero (x ∷ locks) r e (c, h) =
    (All-left a b locks r (subst (λ y. All (Compatible y) locks) (cc) c), h)
set_lock-IsExclusive a b (suc i) (x ∷ locks) r e (c, h) =
    (All-set_lock x a b i locks r e c, set_lock-IsExclusive a b i locks r e h)

-- The lock that is found stands at its index and belongs to the scale view.
find_from-at :
    (sv : ScaleView) (i : ℕ) (locks : List Lock) (k : ℕ) (l : Lock)
    → find_from sv i locks ≡ some (k, l)
    → (j : ℕ) × (k ≡ i + j) × (get_elem? locks j ≡ some l) × (is_lock_of sv l ≡ true)
unfolding find_from
find_from-at sv i [] k l h = cc
find_from-at sv i (s ∷ locks) k l h = elim (Bool-cases (is_lock_of sv s)) [
  | inl e ↦ (0, ground (arith, e), ground (arith, e), ground (arith, e))
  | inr e ↦
      let (j, a, b, c) = find_from-at sv (suc i) locks k l (ground (arith, e)) in
      (suc j, omega (arith, a), b, c)
]

pub index_at :
    (sv : ScaleView) (locks : List Lock) (k : ℕ) (l : Lock)
    → get_scale_view_lock_index sv locks ≡ some (k, l)
    → (get_elem? locks k ≡ some l) × (is_lock_of sv l ≡ true)
unfolding get_scale_view_lock_index
index_at sv locks k l h =
    let (j, a, b, c) = find_from-at sv 0 locks k l h in
    let e : k ≡ j = omega (arith, a) in (rw e b, c)

-- No lock of the scale view is found where no lock has its name.
pub index_none :
    (sv : ScaleView) (locks : List Lock)
    → All (λ s. is_lock_of sv s ≡ false) locks
    → (i : ℕ) → find_from sv i locks ≡ none
unfolding find_from
index_none sv [] h i = refl
index_none sv (s ∷ locks) (a, h) i = rw a (index_none sv locks h (suc i))
