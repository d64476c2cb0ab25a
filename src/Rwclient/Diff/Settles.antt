-- ===== src/Rwclient/Diff/Settles.antt =====
-- The sets of privileges of a difference (pkg/rwclient/privilege_diff.go).
use mathlib.Core.List.{Perm}
use risingwave_operator.Prelude.{
  ℕ, ◌+◌, ◌==◌, ◌≡◌, ◌∙◌, refl, sym, ap, inl, inr, ◌↔◌, Bool, true, false, ◌&&◌, ◌||◌, not, List,
  [], ◌∷◌, ◌++◌, Bytes, codes, bytes_eq, bytes_eq→eq, bytes_eq_refl, keep, if◌then◌else◌,
  Bool-cases, arith, sum_of, sum_of-perm,
}
use risingwave_operator.Rwclient.{DatabasePrivilege}
use risingwave_operator.Rwclient.Sql.{quote_identifier}
use risingwave_operator.Rwclient.Diff.{
  DatabasePrivilegeSnapshot, is_in, set_of, IsOrder, missing, statement, calculate_database_diff,
}

-- Membership in a text list, counted, does not depend on the order.
abbrev one : Bytes → Bytes → ℕ
one p y = if bytes_eq y p then 1 else 0

is_in-count : (p : Bytes) (l : List Bytes) → is_in p l ≡ not (sum_of (one p) l == 0)
unfolding sum_of
is_in-count p [] = refl
is_in-count p (y ∷ l) = elim (Bool-cases (bytes_eq y p)) [
  | inl e ↦ let z : (1 + sum_of (one p) l == 0) ≡ false = ground arith in rw (e, z) refl
  | inr e ↦
      let z : 0 + sum_of (one p) l ≡ sum_of (one p) l = omega arith in rw (e, z) (is_in-count p l)
]

is_in-perm : (p : Bytes) (l k : List Bytes) → Perm l k → is_in p l ≡ is_in p k
is_in-perm p l k h =
    is_in-count p l ∙ ap (λ n. not (n == 0)) (sum_of-perm (one p) h) ∙ sym (is_in-count p k)

-- A text equal to another is in the same sets.
is_in-of_eq : (p q : Bytes) (l : List Bytes) → bytes_eq q p ≡ true → is_in q l ≡ is_in p l
is_in-of_eq p q l e = ap (λ t. is_in t l) (bytes_eq→eq q p e)

is_in-set_of : (p : Bytes) (l : List Bytes) → is_in p (set_of l) ≡ is_in p l
unfolding set_of
is_in-set_of p [] = refl
is_in-set_of p (q ∷ l) =
    let ih = is_in-set_of p l in
    elim (Bool-cases (is_in q (set_of l))) [
      | inl e ↦ rw e (elim (Bool-cases (bytes_eq q p)) [
        | inl s ↦
            let same : is_in q (set_of l) ≡ is_in p (set_of l) = is_in-of_eq p q (set_of l) s in
            ground (arith, e, s, same, ih)
        | inr s ↦ rw s ih
      ])
      | inr e ↦ rw e (ap (λ b. bytes_eq q p || b) ih)
    ]

is_in-keep :
    (f : Bytes → Bool) (p : Bytes) (l : List Bytes) → is_in p (keep f l) ≡ (is_in p l && f p)
is_in-keep f p [] = refl
is_in-keep f p (q ∷ l) = kept (f q) refl (is_in-keep f p l)
  where
    kept :
        (b : Bool)
        → f q ≡ b
        → is_in p (keep f l) ≡ (is_in p l && f p)
        → is_in p (elim b [ true ↦ q ∷ keep f l | false ↦ keep f l ]) ≡ (is_in p (q ∷ l) && f p)
    kept true e ih = elim (Bool-cases (bytes_eq q p)) [
      | inl s ↦ let n : f p ≡ true = ap f (sym (bytes_eq→eq q p s)) ∙ e in rw (s, n) refl
      | inr s ↦ rw s ih
    ]
    kept false e ih = elim (Bool-cases (bytes_eq q p)) [
      | inl s ↦
          let n : f p ≡ false = ap f (sym (bytes_eq→eq q p s)) ∙ e in rw (s, ih, n) (ground arith)
      | inr s ↦ rw s ih
    ]

-- The collected texts are those that one list has and the other has not.
pub is_in-missing :
    (order : List Bytes → List Bytes) (p : Bytes) (wanted present : List Bytes)
    → IsOrder order
    → is_in p (missing order wanted present) ≡ (is_in p wanted && not (is_in p present))
unfolding missing
is_in-missing order p wanted present h =
    is_in-keep (λ q. not (is_in q (set_of present))) p (order (set_of wanted))
    ∙ rw
        (
          is_in-perm p (order (set_of wanted)) (set_of wanted) (h (set_of wanted)),
          is_in-set_of p wanted,
          is_in-set_of p present,
        )
        refl

-- Two lists with the same members.
abbrev pub Same : List Bytes → List Bytes → Type 0
Same l k = (p : Bytes) → is_in p l ≡ is_in p k

empty-of_none : (l : List Bytes) → ((p : Bytes) → is_in p l ≡ false) → l ≡ []
empty-of_none [] h = refl
empty-of_none (q ∷ l) h =
    let e : bytes_eq q q ≡ true = bytes_eq_refl q in
    let k : (bytes_eq q q || is_in q l) ≡ false = h q in
    let bad : ⊥ = ground (arith, e, k) in elim bad [ ]

statement-empty :
    (verb target direction user_name : Bytes) (l : List Bytes)
    → statement verb target direction user_name l ≡ []
    → l ≡ []
statement-empty verb target direction user_name [] h = refl
statement-empty verb target direction user_name (p ∷ ps) h = cc

none-missing :
    (order : List Bytes → List Bytes) (wanted present : List Bytes)
    → IsOrder order
    → Same wanted present
    → missing order wanted present ≡ []
none-missing order wanted present h same =
    empty-of_none (missing order wanted present)
      (λ p. is_in-missing order p wanted present h ∙ rw (same p) (table (is_in p present)))
  where
    table : (b : Bool) → (b && not b) ≡ false
    table true = refl
    table false = refl

Same-of_none_missing :
    (order : List Bytes → List Bytes) (wanted present : List Bytes)
    → IsOrder order
    → missing order wanted present ≡ []
    → missing order present wanted ≡ []
    → Same wanted present
Same-of_none_missing order wanted present h e k p =
    table (is_in p wanted) (is_in p present)
      (sym (is_in-missing order p wanted present h) ∙ ap (is_in p) e)
      (sym (is_in-missing order p present wanted h) ∙ ap (is_in p) k)
  where
    table : (a b : Bool) → (a && not b) ≡ false → (b && not a) ≡ false → a ≡ b
    table true true u v = refl
    table true false u v = cc
    table false true u v = cc
    table false false u v = refl

-- In whatever order the maps are visited, the difference for a database has no statement exactly if
-- the desired and the actual privileges are the same set.
pub calculate_database_diff-empty_iff :
    (order : List Bytes → List Bytes) (user_name : Bytes) (actual : DatabasePrivilegeSnapshot)
    (desired : DatabasePrivilege)
    → IsOrder order
    → (((calculate_database_diff order user_name actual desired).to_grant ≡ [])
        × ((calculate_database_diff order user_name actual desired).to_revoke ≡ []))
      ↔ Same desired.privileges actual.privileges
unfolding calculate_database_diff
calculate_database_diff-empty_iff order user_name actual desired h =
    let target = codes "ON DATABASE " ++ quote_identifier desired.name in
    (
      λ e.
          Same-of_none_missing order desired.privileges actual.privileges h
            (statement-empty (codes "GRANT ") target (codes " TO ") user_name _ e.0)
            (statement-empty (codes "REVOKE ") target (codes " FROM ") user_name _ e.1),
      λ s. (
        rw (none-missing order desired.privileges actual.privileges h s) refl,
        rw (none-missing order actual.privileges desired.privileges h (λ p. sym (s p))) refl,
      ),
    )
