-- ===== src/Lo.antt =====
-- The functions of github.com/samber/lo that the modelled code calls, as an interface, with what
-- their documentation promises. A Go map is an association list with distinct keys.
pub mod Plain
use mathlib.Core.List.{Perm}
use risingwave_operator.Prelude.{
  ℕ, zero, ◌≡◌, Bool, true, false, ◌||◌, List, [], ◌∷◌, map, String, str_eq, exists_test, keep,
  Option,
}

pub record Lo : Type 1 where
  -- lo.Map: the callback gets the item and its index.
  pub map : (A B : Type 0) → List A → (A → ℕ → B) → List B
  pub contains : List String → String → Bool
  -- lo.Keys: the keys of a map, in no particular order.
  pub keys : (K V : Type 0) → List (K × V) → List K

pub record IsDocumented (lo : Lo) : Type 1 where
  pub map_lem : (A B : Type 0) (xs : List A) (f : A → B) → lo.map A B xs (λ a _. f a) ≡ map f xs
  pub contains_lem :
      (xs : List String) (x : String) → lo.contains xs x ≡ exists_test (λ y. str_eq y x) xs
  pub keys_perm : (K V : Type 0) (m : List (K × V)) → Perm (lo.keys K V m) (map (λ e. e.0) m)
