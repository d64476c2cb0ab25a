-- ===== src/Lo/Plain.antt =====
-- Plain functions for the interface of samber/lo.
use mathlib.Core.List.Perm
use risingwave_operator.Prelude.{ℕ, suc, ◌≡◌, refl, List, [], ◌∷◌, map, str_eq, exists_test, ap}
use risingwave_operator.Lo.{Lo, IsDocumented}

abbrev map_from : (A B : Type 0) → ℕ → List A → (A → ℕ → B) → List B
map_from A B i [] f = []
map_from A B i (x ∷ xs) f = f x i ∷ map_from A B (suc i) xs f

abbrev pub plain_lo : Lo
plain_lo = record {
  map = λ A B xs f. map_from A B 0 xs f;
  contains = λ xs x. exists_test (λ y. str_eq y x) xs;
  keys = λ K V m. map (λ e. e.0) m;
}

map_from_lem :
    (A B : Type 0) (i : ℕ) (xs : List A) (f : A → B) → map_from A B i xs (λ a _. f a) ≡ map f xs
map_from_lem A B i [] f = refl
map_from_lem A B i (x ∷ xs) f = ap (λ ys. f x ∷ ys) (map_from_lem A B (suc i) xs f)

pub plain_lo-IsDocumented : IsDocumented plain_lo
plain_lo-IsDocumented = record {
  map_lem = λ A B xs f. map_from_lem A B 0 xs f;
  contains_lem = λ xs x. refl;
  keys_perm = λ K V m. Perm.refl _;
}
