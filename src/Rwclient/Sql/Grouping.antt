-- ===== src/Rwclient/Sql/Grouping.antt =====
-- pkg/rwclient/sql_builder.go: the statements of BuildGrantStatementsByDatabase beside those of
-- BuildGrantStatements.
use mathlib.Core.List.{append_assoc}
use risingwave_operator.Prelude.{
  ◌≡◌, ◌∙◌, refl, sym, ap, Bool, true, false, List, [], ◌∷◌, ◌++◌, Option, none, some, Bytes,
  if◌then◌else◌,
}
use risingwave_operator.Rwclient.{
  GrantSpec, DatabasePrivilege, NestedSchemaPrivilege, NestedPrivilege,
}
use risingwave_operator.Rwclient.Sql.Grants.{
  Kind, concat_map, build_nested, build_grant_nested_privilege, group_nested,
  DatabaseGroupedStatements, build_schema_privileges_hierarchical,
  build_schema_privileges_hierarchical_grouped, build_database_privileges_hierarchical,
  build_database_privileges_hierarchical_grouped, build_grant_statements,
  build_grant_statements_by_database,
}

-- The statements of groups, one group after the other.
abbrev pub ungroup : List DatabaseGroupedStatements → List Bytes
ungroup [] = []
ungroup (g ∷ gs) = g.statements ++ ungroup gs

ungroup-append :
    (gs hs : List DatabaseGroupedStatements) → ungroup (gs ++ hs) ≡ ungroup gs ++ ungroup hs
ungroup-append [] hs = refl
ungroup-append (g ∷ gs) hs =
    ap (λ t. g.statements ++ t) (ungroup-append gs hs)
    ∙ sym (append_assoc g.statements (ungroup gs) (ungroup hs))

-- Two lists put together, and two loops, agree when their parts do.
both :
    (gs hs : List DatabaseGroupedStatements) {ss ts : List Bytes}
    → ungroup gs ≡ ss
    → ungroup hs ≡ ts
    → ungroup (gs ++ hs) ≡ ss ++ ts
both gs hs p q = rw (ungroup-append gs hs, p, q) refl

ungroup-concat_map :
    {A : Type 0} (f : A → List DatabaseGroupedStatements) (g : A → List Bytes)
    → ((x : A) → ungroup (f x) ≡ g x)
    → (xs : List A) → ungroup (concat_map f xs) ≡ concat_map g xs
unfolding concat_map
ungroup-concat_map f g h [] = refl
ungroup-concat_map f g h (x ∷ xs) = both (f x) (concat_map f xs) (h x) (ungroup-concat_map f g h xs)

ungroup-group_nested :
    (kind : Kind) (user_name database schema : Bytes) (privs : List NestedPrivilege)
    → ungroup (group_nested kind user_name database schema privs)
      ≡ build_nested kind user_name database schema privs
unfolding group_nested build_nested
ungroup-group_nested kind user_name database schema [] = refl
ungroup-group_nested kind user_name database schema (priv ∷ privs) =
    ap (λ t. build_grant_nested_privilege kind user_name database schema priv ∷ t)
      (ungroup-group_nested kind user_name database schema privs)

ungroup-optional :
    (b : Bool) (database s : Bytes)
    → ungroup (if b then [] else record { database = database; statements = s ∷ [] } ∷ [])
      ≡ (if b then [] else s ∷ [])
ungroup-optional true database s = refl
ungroup-optional false database s = refl

ungroup-schema :
    (user_name database : Bytes) (priv : NestedSchemaPrivilege)
    → ungroup (build_schema_privileges_hierarchical_grouped user_name database priv)
      ≡ build_schema_privileges_hierarchical user_name database priv
unfolding build_schema_privileges_hierarchical_grouped build_schema_privileges_hierarchical
ungroup-schema user_name database priv =
    simp (ungroup-append, ungroup-group_nested, ungroup-optional)

ungroup-database :
    (user_name : Bytes) (priv : DatabasePrivilege)
    → ungroup (build_database_privileges_hierarchical_grouped user_name priv)
      ≡ build_database_privileges_hierarchical user_name priv
unfolding build_database_privileges_hierarchical_grouped build_database_privileges_hierarchical
ungroup-database user_name priv = simp (
  ungroup-append,
  ungroup-optional,
  ungroup-concat_map (build_schema_privileges_hierarchical_grouped user_name priv.name)
      (build_schema_privileges_hierarchical user_name priv.name)
      (ungroup-schema user_name priv.name) priv.schemas,
)

-- For every user name and grants, the groups of BuildGrantStatementsByDatabase hold, one after the
-- other, exactly the statements of BuildGrantStatements in their order.
pub ungroup-build_grant_statements_by_database :
    (user_name : Bytes) (grants : Option GrantSpec)
    → ungroup (build_grant_statements_by_database user_name grants)
      ≡ build_grant_statements user_name grants
unfolding build_grant_statements_by_database build_grant_statements
ungroup-build_grant_statements_by_database user_name none = refl
ungroup-build_grant_statements_by_database user_name (some grants) =
    ungroup-concat_map (build_database_privileges_hierarchical_grouped user_name)
      (build_database_privileges_hierarchical user_name) (ungroup-database user_name)
      grants.databases
