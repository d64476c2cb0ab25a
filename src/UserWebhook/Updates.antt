-- ===== src/UserWebhook/Updates.antt =====
-- Admitted updates and histories of them (pkg/webhook/risingwave_user_validating_webhook.go).
use risingwave_operator.Prelude.{
  ◌≡◌, ◌∙◌, refl, ap, Bool, true, false, ◌&&◌, not, List, [], ◌∷◌, Option, none, some, Bytes, codes,
  bytes_eq, bytes_eq→eq, is_empty, is_none, append-empty, exists_test, if◌then◌else◌, arith,
}
use risingwave_operator.Rwclient.Sql.{get_user_name}
use risingwave_operator.UserWebhook.{
  RisingWaveReference, UserObject, Lookup, FieldError, get_auth_type,
}
use risingwave_operator.UserWebhook.Checks.{
  changed, changed_name, xor, password_config_equal, update_errors, validate_object,
  validate_update,
}
use risingwave_operator.UserWebhook.Grants.{check-passes}

-- The API server names every object, and defaults the authentication type.
abbrev pub HasIdentity : UserObject → Type 0
HasIdentity obj =
    (is_empty (get_user_name obj.user) ≡ false) × (is_empty (get_auth_type obj) ≡ false)

-- The name of the referenced RisingWave, if there is one.
abbrev pub reference_name : Option RisingWaveReference → Option Bytes
reference_name none = none
reference_name (some ref) = some ref.name

-- Same user name, same RisingWave, same authentication type.
abbrev pub Keeps : UserObject → UserObject → Type 0
Keeps u v =
    (get_user_name u.user ≡ get_user_name v.user)
    × ((reference_name u.risingwave_ref ≡ reference_name v.risingwave_ref)
        × (get_auth_type u ≡ get_auth_type v))

changed-eq : (a b : Bytes) → changed a b ≡ false → is_empty a ≡ false → is_empty b ≡ false → a ≡ b
changed-eq a b h p q = bytes_eq→eq a b (ground (arith, h, p, q))

reference_name-eq :
    (a b : Option RisingWaveReference)
    → xor (is_none a) (is_none b) ≡ false
    → changed_name a b ≡ false
    → reference_name a ≡ reference_name b
reference_name-eq none none h k = refl
reference_name-eq none (some b) h k = cc
reference_name-eq (some a) none h k = cc
reference_name-eq (some a) (some b) h k = ap some (bytes_eq→eq a.name b.name (ground (arith, k)))

-- The update carries the annotation that allows another password.
abbrev pub may_rotate : UserObject → Bool
may_rotate obj =
    exists_test (λ k. bytes_eq k (codes "risingwave.risingwavelabs.com/rotate-password"))
      obj.annotations

-- The conditions that an update without errors meets.
abbrev Passes : UserObject → UserObject → Type 0
Passes u v =
    (xor (is_none u.risingwave_ref) (is_none v.risingwave_ref) ≡ false)
    × ((changed_name u.risingwave_ref v.risingwave_ref ≡ false)
        × ((changed (get_user_name u.user) (get_user_name v.user) ≡ false)
            × (((not (may_rotate v) && not (password_config_equal u.password v.password)) ≡ false)
                × (changed (get_auth_type u) (get_auth_type v) ≡ false))))

update_errors-Passes : (u v : UserObject) → update_errors u v ≡ [] → Passes u v
unfolding update_errors
update_errors-Passes u v e =
    let (a, r₁) = append-empty _ _ e in
    let (b, r₂) = append-empty _ _ r₁ in
    let (c, r₃) = append-empty _ _ r₂ in
    let (d, r₄) = append-empty _ _ r₃ in
    let (f, g) = append-empty _ _ r₄ in
    (
      check-passes _ _ _ a,
      (check-passes _ _ _ b, (check-passes _ _ _ d, (check-passes _ _ _ f, check-passes _ _ _ g))),
    )

update_errors-Keeps :
    (u v : UserObject) → update_errors u v ≡ [] → HasIdentity u → HasIdentity v → Keeps u v
update_errors-Keeps u v e (un, ua) (vn, va) =
    let (a, (b, (d, (f, g)))) = update_errors-Passes u v e in
    (changed-eq _ _ d un vn, (reference_name-eq _ _ a b, changed-eq _ _ g ua va))

-- An update is checked against its predecessor only if the new object is valid by itself.
validate_update-update_errors :
    (lookup : Bytes → Bytes → Lookup) (u v : UserObject)
    → (validate_update lookup u v).1 ≡ []
    → ((validate_object lookup v).1 ≡ []) × (update_errors u v ≡ [])
unfolding validate_update
validate_update-update_errors lookup u v h = cases (validate_object lookup v) h
  where
    cases :
        (r : List Bytes × List FieldError)
        → (if◌then◌else◌ {A = List Bytes × List FieldError}
            (is_empty r.1)
            (r.0, update_errors u v)
            (r.0, r.1)).1
          ≡ []
        → (r.1 ≡ []) × (update_errors u v ≡ [])
    cases (w, []) k = (refl, k)
    cases (w, e ∷ es) k = cc

-- A history of updates that the webhook admits, the cluster answering each lookup as it will.
pub data Admitted : UserObject → UserObject → Type 0 where
  here : {u : UserObject} → Admitted u u
  then_update :
      {u v w : UserObject} (lookup : Bytes → Bytes → Lookup)
      → (validate_update lookup u v).1 ≡ []
      → HasIdentity v
      → Admitted v w
      → Admitted u w

-- If names and authentication types are set, then no history of admitted updates changes the name of
-- the user in the database, the name in its reference to a RisingWave, or its authentication type. (The
-- namespace in that reference and a reference to a connection may change.)
pub Admitted-Keeps : {u v : UserObject} → HasIdentity u → Admitted u v → Keeps u v
Admitted-Keeps h here = (refl, (refl, refl))
Admitted-Keeps {u} h (then_update {v = v} lookup e k p) =
    let (a, (b, c)) = update_errors-Keeps u v (validate_update-update_errors lookup u v e).1 h k in
    let (d, (f, g)) = Admitted-Keeps k p in (a ∙ d, (b ∙ f, c ∙ g))

-- An admitted update is valid by itself, and without the annotation its password configuration equals
-- the old one by the webhook's comparison.
pub validate_update-admits :
    (lookup : Bytes → Bytes → Lookup) (u v : UserObject)
    → (validate_update lookup u v).1 ≡ []
    → ((validate_object lookup v).1 ≡ [])
      × (may_rotate v ≡ false → password_config_equal u.password v.password ≡ true)
validate_update-admits lookup u v h =
    let (valid, e) = validate_update-update_errors lookup u v h in
    let (a, (b, (d, (f, g)))) = update_errors-Passes u v e in
    (valid, unguarded (may_rotate v) (password_config_equal u.password v.password) f)
  where
    unguarded : (a b : Bool) → (not a && not b) ≡ false → a ≡ false → b ≡ true
    unguarded true b h e = cc
    unguarded false true h e = refl
    unguarded false false h e = cc
