-- ===== src/Rwclient/Sql/Samples.antt =====
-- The statements at examples, with names that try to leave their quotes.
use risingwave_operator.Prelude.{
  ◌≡◌, refl, true, false, [], ◌∷◌, ◌++◌, map, none, some, Bytes, codes, bytes_eq,
}
use risingwave_operator.Rwclient.{User, GrantSpec, NestedSchemaPrivilege, NestedPrivilege}
use risingwave_operator.Rwclient.Sql.{get_user_name, build_create_user_sql}
use risingwave_operator.Rwclient.Sql.Grants.{
  table, normalize_privilege, build_grant_nested_privilege, build_grant_statements,
  build_grant_statements_by_database,
}
use risingwave_operator.Rwclient.Sql.Lexer.{word, ident, sym as symbol, tokens}
use risingwave_operator.Rwclient.Sql.Quoting.{identifier_token}
use risingwave_operator.Rwclient.Sql.Users.{words, password_tokens, tokens-build_create_user_sql}
use risingwave_operator.Rwclient.Sql.Tokens.{
  privilege_tokens, option_tokens, keyword_tokens, tokens-build_grant_nested_privilege,
}
use risingwave_operator.Rwclient.Sql.Grouping.{ungroup, ungroup-build_grant_statements_by_database}

abbrev odd_name : Bytes
odd_name = codes "a\"; DROP USER b; --"

abbrev odd_password : Bytes
odd_password = codes "p'; --"

abbrev ann : User
ann = record {
  object_name = odd_name;
  spec_name = [];
  permissions = codes "LOGIN" ∷ [];
  grants = none;
}

tokens-build_create_user_sql_example :
    tokens (build_create_user_sql ann odd_password)
    ≡ some (
        words "CREATE"
        ∷ words "USER"
        ∷ ident (get_user_name ann)
        ∷ (password_tokens odd_password ++ map word ann.permissions))
tokens-build_create_user_sql_example =
    tokens-build_create_user_sql ann odd_password ((refl, (refl, (refl, (refl, (refl, tt))))), tt)

abbrev orders : NestedPrivilege
orders = record {
  name = codes "orders";
  privileges = codes "SELECT" ∷ [];
  with_grant_option = true;
}

tokens-build_grant_nested_privilege_example :
    tokens (build_grant_nested_privilege table odd_name (codes "dev") (codes "public") orders)
    ≡ some (
        words "GRANT"
        ∷ (privilege_tokens orders.privileges
            ++ words "ON"
              ∷ (keyword_tokens table
                  ++ identifier_token (codes "dev")
                    ∷ symbol b'.'
                    ∷ identifier_token (codes "public")
                    ∷ symbol b'.'
                    ∷ ident orders.name
                    ∷ words "TO"
                    ∷ ident odd_name
                    ∷ option_tokens orders.with_grant_option)))
unfolding normalize_privilege
tokens-build_grant_nested_privilege_example =
    tokens-build_grant_nested_privilege table odd_name (codes "dev") (codes "public") orders
      orders_named ((refl, (refl, (refl, (refl, (refl, (refl, tt)))))), tt)
  where
    orders_named : bytes_eq orders.name (codes "*") ≡ false
    orders_named = unfold bytes_eq in refl

abbrev public_schema : NestedSchemaPrivilege
public_schema = record {
  name = codes "public";
  privileges = codes "USAGE" ∷ [];
  with_grant_option = false;
  tables = orders ∷ [];
  views = [];
  materialized_views = [];
  sources = [];
  sinks = [];
  connections = [];
  secrets = [];
  functions = orders ∷ [];
}

abbrev dev_grants : GrantSpec
dev_grants = record {
  databases =
      record {
        name = codes "dev";
        privileges = codes "CONNECT" ∷ [];
        with_grant_option = false;
        schemas = public_schema ∷ [];
      }
      ∷ [];
}

ungroup-build_grant_statements_by_database_example :
    ungroup (build_grant_statements_by_database odd_name (some dev_grants))
    ≡ build_grant_statements odd_name (some dev_grants)
ungroup-build_grant_statements_by_database_example =
    ungroup-build_grant_statements_by_database odd_name (some dev_grants)
