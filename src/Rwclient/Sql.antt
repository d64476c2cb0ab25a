-- ===== src/Rwclient/Sql.antt =====
-- pkg/rwclient/sql_builder.go: quoting, and the statements about users.
pub mod Lexer
pub mod Quoting
pub mod Grants
pub mod Users
pub mod Tokens
pub mod Grouping
pub mod Samples
use risingwave_operator.Prelude.{
  ℕ, Bool, true, false, List, [], ◌∷◌, ◌++◌, map, Option, none, some, Bytes, codes, bytes_eq,
  is_empty, ◌==◌, if◌then◌else◌,
}
use risingwave_operator.Rwclient.{User}

-- strings.ReplaceAll(s, q, qq)
unfoldable pub double : ℕ → Bytes → Bytes
double q [] = []
double q (c ∷ s) = let rest = double q s in if c == q then q ∷ q ∷ rest else c ∷ rest

abbrev pub quote_mark : ℕ
quote_mark = b'"'

abbrev pub apostrophe : ℕ
apostrophe = b'\''

unfoldable pub quote_user : Bytes → Bytes
unfolding double
quote_user name = quote_mark ∷ (double quote_mark name ++ quote_mark ∷ [])

unfoldable pub quote_identifier : Bytes → Bytes
unfolding double bytes_eq
quote_identifier name =
    if bytes_eq name (codes "*")
    then name
    else quote_mark ∷ (double quote_mark name ++ quote_mark ∷ [])

unfoldable pub escape_string_literal : Bytes → Bytes
unfolding double
escape_string_literal s = double apostrophe s

unfoldable pub get_user_name : User → Bytes
get_user_name user = if is_empty user.spec_name then user.object_name else user.spec_name

-- The loop that appends the permissions, each behind a space.
pub write_permissions : List Bytes → Bytes
write_permissions [] = []
write_permissions (perm ∷ perms) = codes " " ++ (perm ++ write_permissions perms)

pub write_password : Bytes → Bytes
unfolding escape_string_literal
write_password password =
    if is_empty password
    then []
    else codes " WITH PASSWORD '" ++ (escape_string_literal password ++ codes "'")

unfoldable pub build_create_user_sql : User → Bytes → Bytes
unfolding quote_user get_user_name write_password write_permissions
build_create_user_sql user password =
    codes "CREATE USER "
    ++ (quote_user (get_user_name user)
        ++ (write_password password ++ write_permissions user.permissions))

unfoldable pub build_alter_user_password_sql : Bytes → Bytes → Bytes
unfolding quote_user escape_string_literal
build_alter_user_password_sql user_name password =
    codes "ALTER USER "
    ++ (quote_user user_name
        ++ (codes " WITH PASSWORD '" ++ (escape_string_literal password ++ codes "'")))

unfoldable pub build_drop_user_sql : Bytes → Bytes
unfolding quote_user
build_drop_user_sql user_name = codes "DROP USER IF EXISTS " ++ quote_user user_name

-- The OAuth and the LDAP configuration do not enter the statement.
unfoldable pub build_create_user_with_oauth_sql : Bytes → Bytes
unfolding quote_user
build_create_user_with_oauth_sql user_name =
    codes "CREATE USER " ++ (quote_user user_name ++ codes " WITH CREATE_USER_ONLY")

-- A placeholder in the source, too.
unfoldable pub build_alter_user_oauth_sql : Bytes → List Bytes
build_alter_user_oauth_sql user_name = []

unfoldable pub build_create_user_with_ldap_sql : Bytes → Bytes
unfolding quote_user
build_create_user_with_ldap_sql user_name =
    codes "CREATE USER " ++ (quote_user user_name ++ codes " WITH CREATE_USER_ONLY")

-- The empty text stands for no statement.
unfoldable pub build_alter_user_permissions_sql : Bytes → List Bytes → Bytes
unfolding quote_user write_permissions
build_alter_user_permissions_sql user_name [] = []
build_alter_user_permissions_sql user_name (perm ∷ perms) =
    codes "ALTER USER " ++ (quote_user user_name ++ write_permissions (perm ∷ perms))
