-- ===== src/Rwclient/Sql/Tokens.antt =====
-- The GRANT and REVOKE statements, token by token (pkg/rwclient/sql_builder.go).
use mathlib.Core.List.{append_assoc}
use risingwave_operator.Prelude.{
  ◌≡◌, ◌∙◌, refl, ap, Bool, true, false, List, [], ◌∷◌, ◌++◌, map, Option, none, some, Bytes, codes,
  bytes_eq, All, if◌then◌else◌,
}
use risingwave_operator.Rwclient.{NestedPrivilege}
use risingwave_operator.Rwclient.Sql.{quote_user, quote_identifier}
use risingwave_operator.Rwclient.Sql.Grants.{
  build_grant_option, normalize_privilege, join_comma, normalize_privileges, Kind, table, view,
  materialized_view, source, sink, connection, secret, function, keyword,
  build_grant_nested_privilege,
}
use risingwave_operator.Rwclient.Sql.Lexer.{
  Token, word, ident, sym as symbol, idle, prepend, lex, tokens,
}
use risingwave_operator.Rwclient.Sql.Quoting.{
  Starts, no_quote, IsWord, lex-words, lex-word, lex-space, lex-quote_user, lex-quote_identifier,
  identifier_token, lex-comma, lex-dot, lex_nil, prepend-prepend,
}
use risingwave_operator.Rwclient.Sql.Users.{words}

-- A privilege that is one word, "ALL PRIVILEGES" taken as "ALL".
abbrev pub IsPrivilege : Bytes → Type 0
IsPrivilege p = IsWord (normalize_privilege p)

abbrev pub privilege_tokens : List Bytes → List Token
privilege_tokens [] = words "USAGE" ∷ []
privilege_tokens (p ∷ []) = word (normalize_privilege p) ∷ []
privilege_tokens (p ∷ q ∷ ps) =
    word (normalize_privilege p) ∷ symbol b',' ∷ privilege_tokens (q ∷ ps)

abbrev pub option_tokens : Bool → List Token
option_tokens with_grant =
    if with_grant then words "WITH" ∷ words "GRANT" ∷ words "OPTION" ∷ [] else []

lex-join_comma :
    (p : Bytes) (ps : List Bytes) (rest : Bytes)
    → All IsPrivilege (p ∷ ps)
    → lex idle (join_comma (map normalize_privilege (p ∷ ps)) ++ b' ' ∷ rest)
      ≡ prepend (privilege_tokens (p ∷ ps)) (lex idle rest)
unfolding join_comma
lex-join_comma p [] rest (a, h) =
    lex-word (normalize_privilege p) (b' ' ∷ rest) a refl
    ∙ ap (prepend (word (normalize_privilege p) ∷ [])) (lex-space rest)
lex-join_comma p (q ∷ ps) rest (a, h) =
    let n = normalize_privilege p in
    let more = join_comma (map normalize_privilege (q ∷ ps)) in
    rw (append_assoc n (codes ", " ++ more) (b' ' ∷ rest)) (
      lex-word n _ a refl
      ∙ ap (prepend (word n ∷ []))
          (lex-comma _ ∙ ap (prepend (symbol b',' ∷ [])) (lex-space _ ∙ lex-join_comma q ps rest h))
      ∙ ap (prepend (word n ∷ []))
          (prepend-prepend (symbol b',' ∷ []) (privilege_tokens (q ∷ ps)) (lex idle rest))
      ∙ prepend-prepend (word n ∷ []) (symbol b',' ∷ privilege_tokens (q ∷ ps)) (lex idle rest))

lex-normalize_privileges :
    (ps : List Bytes) (rest : Bytes)
    → All IsPrivilege ps
    → lex idle (normalize_privileges ps ++ b' ' ∷ rest)
      ≡ prepend (privilege_tokens ps) (lex idle rest)
unfolding normalize_privileges
lex-normalize_privileges [] rest h = lex-words (codes "USAGE" ∷ []) rest refl
lex-normalize_privileges (p ∷ ps) rest h = lex-join_comma p ps rest h

-- The end of a statement: TO or FROM, the user, the grant option.
lex-build_grant_option : (b : Bool) → lex idle (build_grant_option b) ≡ some (option_tokens b)
unfolding build_grant_option
lex-build_grant_option true =
    lex-space (codes "WITH GRANT OPTION")
    ∙ lex-words (codes "WITH" ∷ codes "GRANT" ∷ []) (codes "OPTION") refl
    ∙ ap (prepend (words "WITH" ∷ words "GRANT" ∷ []))
        (lex-word (codes "OPTION") [] (tt_word) tt ∙ ap (prepend (words "OPTION" ∷ [])) lex_nil)
  where
    tt_word : IsWord (codes "OPTION")
    tt_word = (refl, (refl, (refl, (refl, (refl, (refl, tt))))))
lex-build_grant_option false = lex_nil

lex-to_user :
    (user_name : Bytes) (b : Bool)
    → lex idle (codes " TO " ++ (quote_user user_name ++ build_grant_option b))
      ≡ some (words "TO" ∷ ident user_name ∷ option_tokens b)
lex-to_user user_name b =
    lex-space _
    ∙ lex-words (codes "TO" ∷ []) _ refl
    ∙ ap (prepend (words "TO" ∷ [])) (
        lex-quote_user user_name _ (starts b)
        ∙ ap (prepend (ident user_name ∷ [])) (lex-build_grant_option b))
  where
    starts : (b : Bool) → Starts no_quote (build_grant_option b)
    starts true = unfold build_grant_option in refl
    starts false = unfold build_grant_option in tt

abbrev pub keyword_tokens : Kind → List Token
keyword_tokens table = words "TABLE" ∷ []
keyword_tokens view = words "VIEW" ∷ []
keyword_tokens materialized_view = words "MATERIALIZED" ∷ words "VIEW" ∷ []
keyword_tokens source = words "SOURCE" ∷ []
keyword_tokens sink = words "SINK" ∷ []
keyword_tokens connection = words "CONNECTION" ∷ []
keyword_tokens secret = words "SECRET" ∷ []
keyword_tokens function = words "FUNCTION" ∷ []

lex-keyword :
    (kind : Kind) (rest : Bytes)
    → lex idle (keyword kind ++ b' ' ∷ rest) ≡ prepend (keyword_tokens kind) (lex idle rest)
lex-keyword table rest = lex-words (codes "TABLE" ∷ []) rest refl
lex-keyword view rest = lex-words (codes "VIEW" ∷ []) rest refl
lex-keyword materialized_view rest = lex-words (codes "MATERIALIZED" ∷ codes "VIEW" ∷ []) rest refl
lex-keyword source rest = lex-words (codes "SOURCE" ∷ []) rest refl
lex-keyword sink rest = lex-words (codes "SINK" ∷ []) rest refl
lex-keyword connection rest = lex-words (codes "CONNECTION" ∷ []) rest refl
lex-keyword secret rest = lex-words (codes "SECRET" ∷ []) rest refl
lex-keyword function rest = lex-words (codes "FUNCTION" ∷ []) rest refl

-- Database, schema and object, with dots.
lex-qualified :
    (database schema name rest : Bytes)
    → Starts no_quote rest
    → lex idle (
        quote_identifier database
        ++ (codes "."
            ++ (quote_identifier schema ++ (codes "." ++ (quote_identifier name ++ rest)))))
      ≡ prepend
          (identifier_token database
            ∷ symbol b'.'
            ∷ identifier_token schema
            ∷ symbol b'.'
            ∷ identifier_token name
            ∷ [])
          (lex idle rest)
lex-qualified database schema name rest h =
    let dot = symbol b'.' in
    lex-quote_identifier database _ refl
    ∙ ap (prepend (identifier_token database ∷ [])) (
        lex-dot _
        ∙ ap (prepend (dot ∷ [])) (
            lex-quote_identifier schema _ refl
            ∙ ap (prepend (identifier_token schema ∷ []))
                (lex-dot _ ∙ ap (prepend (dot ∷ [])) (lex-quote_identifier name rest h))))
    ∙ collapse (lex idle rest)
  where
    collapse :
        (r : Option (List Token))
        → prepend (identifier_token database ∷ []) (
            prepend (symbol b'.' ∷ []) (
              prepend
                (identifier_token schema ∷ [])
                (prepend (symbol b'.' ∷ []) (prepend (identifier_token name ∷ []) r))))
          ≡ prepend
              (identifier_token database
                ∷ symbol b'.'
                ∷ identifier_token schema
                ∷ symbol b'.'
                ∷ identifier_token name
                ∷ [])
              r
    collapse none = refl
    collapse (some ts) = refl

pub identifier_token-ident :
    (name : Bytes) → bytes_eq name (codes "*") ≡ false → identifier_token name ≡ ident name
unfolding identifier_token
identifier_token-ident name e = rw e refl

-- If the object's name is not "*" and each privilege is one word, ALL PRIVILEGES taken as ALL, then the
-- GRANT on an object of any of the eight kinds is read as: the privileges between commas, or USAGE if
-- there are none; the kind; the database, the schema and the object between dots; the user; and the
-- grant option where it is asked for. The user and the object are single quoted identifiers, and so are
-- the database and the schema, except that one named "*" is a bare star.
pub tokens-build_grant_nested_privilege :
    (kind : Kind) (user_name database schema : Bytes) (priv : NestedPrivilege)
    → bytes_eq priv.name (codes "*") ≡ false
    → All IsPrivilege priv.privileges
    → tokens (build_grant_nested_privilege kind user_name database schema priv)
      ≡ some (
          words "GRANT"
          ∷ (privilege_tokens priv.privileges
              ++ words "ON"
                ∷ (keyword_tokens kind
                    ++ identifier_token database
                      ∷ symbol b'.'
                      ∷ identifier_token schema
                      ∷ symbol b'.'
                      ∷ ident priv.name
                      ∷ words "TO"
                      ∷ ident user_name
                      ∷ option_tokens priv.with_grant_option)))
unfolding build_grant_nested_privilege
tokens-build_grant_nested_privilege kind user_name database schema priv e h = rw e (
    lex-words (codes "GRANT" ∷ []) _ refl
    ∙ ap (prepend (words "GRANT" ∷ [])) (
        lex-normalize_privileges priv.privileges _ h
        ∙ ap (prepend (privilege_tokens priv.privileges)) (
            lex-words (codes "ON" ∷ []) _ refl
            ∙ ap (prepend (words "ON" ∷ [])) (
                lex-keyword kind _
                ∙ ap (prepend (keyword_tokens kind)) (
                    lex-qualified database schema priv.name _ refl
                    ∙ ap
                        (prepend (
                          identifier_token database
                          ∷ symbol b'.'
                          ∷ identifier_token schema
                          ∷ symbol b'.'
                          ∷ identifier_token priv.name
                          ∷ []))
                        (lex-to_user user_name priv.with_grant_option)
                    ∙ ap
                        (λ t. some (
                          identifier_token database
                          ∷ symbol b'.'
                          ∷ identifier_token schema
                          ∷ symbol b'.'
                          ∷ t
                          ∷ words "TO"
                          ∷ ident user_name
                          ∷ option_tokens priv.with_grant_option))
                        (identifier_token-ident priv.name e))))))
