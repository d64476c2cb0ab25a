-- ===== src/Prelude/Members.antt =====
-- Permutations: sums of numbers and universal properties do not depend on the order.
use Prim.Native.Nat.{ℕ, ◌+◌}
use mathlib.Core.Path.{◌≡◌, refl, ap, subst}
use mathlib.Core.Logic.{∥∥₁_elim}
use mathlib.Core.List.{List, [], ◌∷◌, ◌++◌, Permᴰ, Perm}
use native.Mathlib.Nat.{ℕ_set}
use native.Mathlib.Omega.{arith}
use risingwave_operator.Prelude.Lists.{All}

module _ {ℓ} {A : Type ℓ} (f : A → ℕ) where
  -- The sum of a measure over a list.
  unfoldable pub sum_of : List A → ℕ
  sum_of [] = 0
  sum_of (x ∷ xs) = f x + sum_of xs

  pub sum_of-append : (xs ys : List A) → sum_of (xs ++ ys) ≡ sum_of xs + sum_of ys
  unfolding sum_of
  sum_of-append [] ys = omega arith
  sum_of-append (x ∷ xs) ys = omega (arith, sum_of-append xs ys)

  sum_of-permᴰ : (xs ys : List A) → Permᴰ xs ys → sum_of xs ≡ sum_of ys
  unfolding sum_of
  sum_of-permᴰ xs ys Permᴰ.nil = refl
  sum_of-permᴰ xs ys (Permᴰ.cons {l₁ = l} {l₂ = k} e p) = omega (arith, ap f e, sum_of-permᴰ l k p)
  sum_of-permᴰ xs ys (Permᴰ.swap e e') = omega (arith, ap f e, ap f e')
  sum_of-permᴰ xs ys (Permᴰ.trans {l₂ = l} p q) =
      omega (arith, sum_of-permᴰ xs l p, sum_of-permᴰ l ys q)

  pub sum_of-perm : {xs ys : List A} → Perm xs ys → sum_of xs ≡ sum_of ys
  sum_of-perm {xs} {ys} p = ∥∥₁_elim p (ℕ_set _ _) (sum_of-permᴰ xs ys)

module _ {ℓ κ} {A : Type ℓ} (P : A → Type κ) (prop : (a : A) → IsProp (P a)) where
  All-prop : (xs : List A) → IsProp (All P xs)
  All-prop [] = λ x y. refl
  All-prop (x ∷ xs) = λ h k i. (prop x h.0 k.0 i, All-prop xs h.1 k.1 i)

  All-permᴰ : (xs ys : List A) → Permᴰ xs ys → All P xs → All P ys
  All-permᴰ xs ys Permᴰ.nil h = tt
  All-permᴰ xs ys (Permᴰ.cons {l₁ = l} {l₂ = k} e p) (a, h) = (subst P e a, All-permᴰ l k p h)
  All-permᴰ xs ys (Permᴰ.swap e e') (a, (b, h)) = (subst P e' b, (subst P e a, h))
  All-permᴰ xs ys (Permᴰ.trans {l₂ = l} p q) h = All-permᴰ l ys q (All-permᴰ xs l p h)

  pub All-perm : (xs ys : List A) → Perm xs ys → All P xs → All P ys
  All-perm xs ys p h = ∥∥₁_elim p (All-prop ys) (λ q. All-permᴰ xs ys q h)
