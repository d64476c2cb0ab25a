-- ===== src/Rwclient/Acl.antt =====
-- pkg/rwclient/acl_parser.go: the access control lists of RisingWave's catalog.
pub mod Trip
pub mod Samples
use risingwave_operator.Prelude.{
  split, ℕ, ◌+◌, ◌/◌, ◌%◌, Bool, true, false, ◌&&◌, ◌||◌, List, [], ◌∷◌, Option, none, some, Bytes,
  codes, bytes_eq, ltb, ◌==◌, is_empty, if◌then◌else◌,
}

pub record PrivilegeGrant : Type 0 where
  pub privilege : Bytes
  pub with_grant_option : Bool

pub record UserPrivileges : Type 0 where
  pub user : Bytes
  pub privileges : List PrivilegeGrant

-- strings.Trim(s, "{}")
abbrev pub is_brace : ℕ → Bool
is_brace c = c == b'{' || c == b'}'

unfoldable pub trim_left : Bytes → Bytes
trim_left [] = []
trim_left (c ∷ s) = let rest = trim_left s in if is_brace c then rest else c ∷ s

unfoldable pub trim_right : Bytes → Bytes
trim_right [] = []
trim_right (c ∷ s) = let rest = trim_right s in if is_empty rest && is_brace c then [] else c ∷ rest

unfoldable pub trim : Bytes → Bytes
unfolding trim_left trim_right
trim s = trim_right (trim_left s)

-- Go's string(b) of a byte b: the UTF-8 encoding of the code point b.
abbrev pub string_of_byte : ℕ → Bytes
string_of_byte b = if ltb b 128 then b ∷ [] else (192 + b / 64) ∷ (128 + b % 64) ∷ []

-- The loop over the privileges: a star behind a character is its grant option.
unfoldable pub parse_privileges : Bytes → List PrivilegeGrant
parse_privileges [] = []
parse_privileges (c ∷ []) = record { privilege = string_of_byte c; with_grant_option = false } ∷ []
parse_privileges (c ∷ d ∷ s) =
    let skipped = parse_privileges s in
    let kept = parse_privileges (d ∷ s) in
    if d == b'*'
    then record { privilege = string_of_byte c; with_grant_option = true } ∷ skipped
    else record { privilege = string_of_byte c; with_grant_option = false } ∷ kept

-- An entry that has not two parts at "=", or not two at "/", is passed over.
unfoldable pub parse_granted : Bytes → List Bytes → Option UserPrivileges
unfolding parse_privileges
parse_granted grantee [] = none
parse_granted grantee (privs ∷ []) = none
parse_granted grantee (privs ∷ grantor ∷ []) =
    some (record { user = grantee; privileges = parse_privileges privs })
parse_granted grantee (privs ∷ grantor ∷ x ∷ xs) = none

unfoldable pub parse_parts : List Bytes → Option UserPrivileges
unfolding parse_granted split
parse_parts [] = none
parse_parts (grantee ∷ []) = none
parse_parts (grantee ∷ remaining ∷ []) = parse_granted grantee (split b'/' remaining)
parse_parts (grantee ∷ remaining ∷ x ∷ xs) = none

abbrev pub with_parsed : Option UserPrivileges → List UserPrivileges → List UserPrivileges
with_parsed none results = results
with_parsed (some up) results = up ∷ results

unfoldable pub parse_entries : List Bytes → List UserPrivileges
unfolding parse_parts split
parse_entries [] = []
parse_entries (entry ∷ entries) =
    with_parsed (parse_parts (split b'=' entry)) (parse_entries entries)

unfoldable pub parse_acl : Bytes → List UserPrivileges
unfolding trim split parse_entries
parse_acl acl_str =
    let trimmed = trim acl_str in
    if is_empty trimmed then [] else parse_entries (split b',' trimmed)

unfoldable pub map_char_to_table_privilege : Bytes → Bytes
map_char_to_table_privilege char =
    if bytes_eq char (codes "r")
    then codes "SELECT"
    else if bytes_eq char (codes "a")
    then codes "INSERT"
    else if bytes_eq char (codes "w")
    then codes "UPDATE"
    else if bytes_eq char (codes "d")
    then codes "DELETE"
    else if bytes_eq char (codes "D")
    then codes "TRUNCATE"
    else if bytes_eq char (codes "x")
    then codes "REFERENCES"
    else if bytes_eq char (codes "t")
    then codes "TRIGGER"
    else []

unfoldable pub map_char_to_database_privilege : Bytes → Bytes
map_char_to_database_privilege char =
    if bytes_eq char (codes "c")
    then codes "CONNECT"
    else if bytes_eq char (codes "C")
    then codes "CREATE"
    else []

unfoldable pub map_char_to_schema_privilege : Bytes → Bytes
map_char_to_schema_privilege char =
    if bytes_eq char (codes "U")
    then codes "USAGE"
    else if bytes_eq char (codes "C")
    then codes "CREATE"
    else []
