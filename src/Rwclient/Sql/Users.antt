-- ===== src/Rwclient/Sql/Users.antt =====
-- The statements about users, token by token (pkg/rwclient/sql_builder.go).
use risingwave_operator.Prelude.{
  String, ◌≡◌, ◌∙◌, refl, sym, ap, List, [], ◌∷◌, ◌++◌, map, some, Bytes, codes, if◌then◌else◌, All,
  is_empty,
}
use mathlib.Core.List.{append_assoc, append-nil}
use risingwave_operator.Rwclient.{User}
use risingwave_operator.Rwclient.Sql.{
  quote_user, escape_string_literal, get_user_name, write_permissions, write_password,
  build_create_user_sql, build_alter_user_password_sql, build_drop_user_sql,
}
use risingwave_operator.Rwclient.Sql.Lexer.{Token, word, ident, str, idle, prepend, lex, tokens}
use risingwave_operator.Rwclient.Sql.Quoting.{
  Starts, no_quote, no_apostrophe, no_word, IsWord, lex-words, lex-word, lex-space, lex-quote_user,
  lex-literal, lex_nil, prepend-prepend, prepend_nil,
}

abbrev pub words : String → Token
words w = word (codes w)

-- The tokens of the password clause, which an empty password leaves out.
pub password_tokens : Bytes → List Token
password_tokens password =
    if is_empty password then [] else words "WITH" ∷ words "PASSWORD" ∷ str password ∷ []

-- A literal behind the words WITH PASSWORD, at the end of the statement or before a space.
lex-with_password :
    (password rest : Bytes)
    → Starts no_apostrophe rest
    → lex idle (codes " WITH PASSWORD '" ++ (escape_string_literal password ++ (codes "'" ++ rest)))
      ≡ prepend (words "WITH" ∷ words "PASSWORD" ∷ str password ∷ []) (lex idle rest)
unfolding escape_string_literal
lex-with_password password rest h =
    lex-space _
    ∙ lex-words (codes "WITH" ∷ codes "PASSWORD" ∷ []) _ refl
    ∙ ap (prepend (words "WITH" ∷ words "PASSWORD" ∷ [])) (lex-literal password rest h)
    ∙ prepend-prepend (words "WITH" ∷ words "PASSWORD" ∷ []) (str password ∷ []) (lex idle rest)

-- For every user name and password, ALTER USER ... WITH PASSWORD is read as exactly these six tokens:
-- the name is one identifier and the password one literal, with their own characters.
pub tokens-build_alter_user_password_sql :
    (user_name password : Bytes)
    → tokens (build_alter_user_password_sql user_name password)
      ≡ some (
          words "ALTER"
          ∷ words "USER"
          ∷ ident user_name
          ∷ words "WITH"
          ∷ words "PASSWORD"
          ∷ str password
          ∷ [])
unfolding build_alter_user_password_sql
tokens-build_alter_user_password_sql user_name password =
    lex-words (codes "ALTER" ∷ codes "USER" ∷ []) _ refl
    ∙ ap (prepend (words "ALTER" ∷ words "USER" ∷ [])) (
        lex-quote_user user_name _ refl
        ∙ ap (prepend (ident user_name ∷ [])) (
            lex-with_password password [] tt
            ∙ ap (prepend (words "WITH" ∷ words "PASSWORD" ∷ str password ∷ [])) lex_nil))

-- For every user name, DROP USER names exactly that user.
pub tokens-build_drop_user_sql :
    (user_name : Bytes)
    → tokens (build_drop_user_sql user_name)
      ≡ some (words "DROP" ∷ words "USER" ∷ words "IF" ∷ words "EXISTS" ∷ ident user_name ∷ [])
unfolding build_drop_user_sql
tokens-build_drop_user_sql user_name =
    lex-words (codes "DROP" ∷ codes "USER" ∷ codes "IF" ∷ codes "EXISTS" ∷ []) _ refl
    ∙ ap (prepend (words "DROP" ∷ words "USER" ∷ words "IF" ∷ words "EXISTS" ∷ [])) (
        ap (lex idle) (sym (append-nil (quote_user user_name)))
        ∙ lex-quote_user user_name [] tt
        ∙ ap (prepend (ident user_name ∷ [])) lex_nil)

lex-write_permissions :
    (perms : List Bytes)
    → All IsWord perms
    → lex idle (write_permissions perms) ≡ some (map word perms)
unfolding write_permissions
lex-write_permissions [] h = lex_nil
lex-write_permissions (perm ∷ perms) (a, h) =
    lex-space _
    ∙ lex-word perm (write_permissions perms) a (next_starts perms)
    ∙ ap (prepend (word perm ∷ [])) (lex-write_permissions perms h)
  where
    next_starts : (ps : List Bytes) → Starts no_word (write_permissions ps)
    next_starts [] = tt
    next_starts (p ∷ ps) = refl

Starts-no_quote : (perms : List Bytes) → Starts no_quote (write_permissions perms)
unfolding write_permissions
Starts-no_quote [] = tt
Starts-no_quote (p ∷ ps) = refl

Starts-no_apostrophe : (perms : List Bytes) → Starts no_apostrophe (write_permissions perms)
unfolding write_permissions
Starts-no_apostrophe [] = tt
Starts-no_apostrophe (p ∷ ps) = refl

Starts-password :
    (password rest : Bytes)
    → Starts no_quote rest
    → Starts no_quote (write_password password ++ rest)
unfolding write_password
Starts-password [] rest h = h
Starts-password (c ∷ p) rest h = refl

lex-write_password :
    (password rest : Bytes)
    → Starts no_apostrophe rest
    → lex idle (write_password password ++ rest)
      ≡ prepend (password_tokens password) (lex idle rest)
unfolding write_password password_tokens
lex-write_password [] rest h = sym (prepend_nil (lex idle rest))
lex-write_password (c ∷ p) rest h =
    rw (append_assoc (escape_string_literal (c ∷ p)) (codes "'") rest)
      (lex-with_password (c ∷ p) rest h)

-- If the permissions are words, CREATE USER is read as the name in one identifier, which is the name of
-- the specification or else that of the object, then the password in one literal, if it is not empty,
-- then the permissions.
pub tokens-build_create_user_sql :
    (user : User) (password : Bytes)
    → All IsWord user.permissions
    → tokens (build_create_user_sql user password)
      ≡ some (
          words "CREATE"
          ∷ words "USER"
          ∷ ident (get_user_name user)
          ∷ (password_tokens password ++ map word user.permissions))
unfolding build_create_user_sql
tokens-build_create_user_sql user password h =
    let ps = user.permissions in
    lex-words (codes "CREATE" ∷ codes "USER" ∷ []) _ refl
    ∙ ap (prepend (words "CREATE" ∷ words "USER" ∷ [])) (
        lex-quote_user (get_user_name user) _ (Starts-password password _ (Starts-no_quote ps))
        ∙ ap (prepend (ident (get_user_name user) ∷ [])) (
            lex-write_password password (write_permissions ps) (Starts-no_apostrophe ps)
            ∙ ap (prepend (password_tokens password)) (lex-write_permissions ps h)))
