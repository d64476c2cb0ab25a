-- ===== src/Prelude/Sorting.antt =====
-- `sort.Slice` and `sort.Strings`: the items in an order in which no later one is less than an
-- earlier one, by insertion.
use Prim.Native.Nat.{ℕ, zero, suc}
use mathlib.Core.Path.{◌≡◌}
use mathlib.Core.Bool.{Bool, true, false}
use mathlib.Core.List.{List, [], ◌∷◌, ◌++◌, Perm}
use mathlib.Core.List.Perm
use risingwave_operator.Prelude.Tests.{if◌then◌else◌, Bool-cases}
use risingwave_operator.Prelude.Lists.{All, All-imp, All-append, take, drop}
use mathlib.Core.Logic.{inl, inr}

module _ {ℓ} {A : Type ℓ} (less : A → A → Bool) where
  pub insert_by : A → List A → List A
  insert_by x [] = x ∷ []
  insert_by x (y ∷ ys) = if less x y then x ∷ y ∷ ys else y ∷ insert_by x ys

  unfoldable pub sort_by : List A → List A
  unfolding insert_by
  sort_by [] = []
  sort_by (x ∷ xs) = insert_by x (sort_by xs)

  insert_by-perm : (x : A) (xs : List A) → Perm (insert_by x xs) (x ∷ xs)
  unfolding insert_by
  insert_by-perm x [] = Perm.refl _
  insert_by-perm x (y ∷ ys) = elim (Bool-cases (less x y)) [
    | inl e ↦ rw e (Perm.refl _)
    | inr e ↦ rw e (Perm.trans (Perm.cons y (insert_by-perm x ys)) (Perm.swap x y ys))
  ]

  pub sort_by-perm : (xs : List A) → Perm (sort_by xs) xs
  unfolding sort_by
  sort_by-perm [] = Perm.refl _
  sort_by-perm (x ∷ xs) = Perm.trans (insert_by-perm x (sort_by xs)) (Perm.cons x (sort_by-perm xs))

module _ {ℓ κ} {A : Type ℓ} (R : A → A → Type κ) where
  -- Every item is related to all that stand behind it.
  abbrev pub IsOrdered : List A → Type κ
  IsOrdered [] = Unit
  IsOrdered (x ∷ xs) = All (R x) xs × IsOrdered xs

  pub IsOrdered-snoc :
      (xs : List A) (y : A) → IsOrdered xs → All (λ x. R x y) xs → IsOrdered (xs ++ y ∷ [])
  IsOrdered-snoc [] y h k = (tt, tt)
  IsOrdered-snoc (x ∷ xs) y (a, h) (b, k) =
      (All-append (R x) xs (y ∷ []) a (b, tt), IsOrdered-snoc xs y h k)

  All-take-drop {μ} :
      (P : A → Type μ) (i : ℕ) (xs : List A) → All P xs → All P (take i xs ++ drop (suc i) xs)
  All-take-drop P zero [] h = tt
  All-take-drop P zero (x ∷ xs) h = h.1
  All-take-drop P (suc i) [] h = tt
  All-take-drop P (suc i) (x ∷ xs) (a, h) = (a, All-take-drop P i xs h)

  -- An item may be taken out.
  pub IsOrdered-take-drop :
      (i : ℕ) (xs : List A) → IsOrdered xs → IsOrdered (take i xs ++ drop (suc i) xs)
  IsOrdered-take-drop zero [] h = tt
  IsOrdered-take-drop zero (x ∷ xs) h = h.1
  IsOrdered-take-drop (suc i) [] h = tt
  IsOrdered-take-drop (suc i) (x ∷ xs) (a, h) =
      (All-take-drop (R x) i xs a, IsOrdered-take-drop i xs h)

module _ {ℓ κ} {A : Type ℓ} (R : A → A → Type κ) (less : A → A → Bool)
    (trans : (a b c : A) → R a b → R b c → R a c) (if_less : (a b : A) → less a b ≡ true → R a b)
    (if_not_less : (a b : A) → less a b ≡ false → R b a) where
  insert_by-All : (b x : A) (xs : List A) → R b x → All (R b) xs → All (R b) (insert_by less x xs)
  unfolding insert_by
  insert_by-All b x [] r h = (r, tt)
  insert_by-All b x (y ∷ ys) r (s, h) = elim (Bool-cases (less x y)) [
    | inl e ↦ rw e (r, (s, h))
    | inr e ↦ rw e (s, insert_by-All b x ys r h)
  ]

  insert_by-IsOrdered : (x : A) (xs : List A) → IsOrdered R xs → IsOrdered R (insert_by less x xs)
  unfolding insert_by
  insert_by-IsOrdered x [] h = (tt, tt)
  insert_by-IsOrdered x (y ∷ ys) (a, h) = elim (Bool-cases (less x y)) [
    | inl e ↦ rw e ((if_less x y e, All-imp (λ z. trans x y z (if_less x y e)) ys a), (a, h))
    | inr e ↦ rw e (insert_by-All y x ys (if_not_less x y e) a, insert_by-IsOrdered x ys h)
  ]

  -- Sorting orders by every preorder that the test decides.
  pub sort_by-IsOrdered : (xs : List A) → IsOrdered R (sort_by less xs)
  unfolding sort_by
  sort_by-IsOrdered [] = tt
  sort_by-IsOrdered (x ∷ xs) = insert_by-IsOrdered x (sort_by less xs) (sort_by-IsOrdered xs)
