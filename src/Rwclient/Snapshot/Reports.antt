-- ===== src/Rwclient/Snapshot/Reports.antt =====
-- Reading the objects' access control lists (pkg/rwclient/privilege_snapshot.go).
use risingwave_operator.Prelude.{
  ◌≡◌, ◌∙◌, refl, ap, inl, inr, Bool, true, false, ◌&&◌, ◌||◌, not, Option, some, List, [], ◌∷◌,
  ◌++◌, map, Bytes, bytes_eq, bytes_eq→eq, is_empty, codes, All, if◌then◌else◌, exists_test,
  Bool-cases, arith,
}
use risingwave_operator.Rwclient.Acl.{PrivilegeGrant, UserPrivileges, map_char_to_table_privilege}
use risingwave_operator.Rwclient.Acl.Trip.{
  Entry, format_acl, user_privileges, are_plain, parse_acl-format_acl,
}
use risingwave_operator.Rwclient.Diff.{ObjectPrivilege, is_in}
use risingwave_operator.Rwclient.Snapshot.{
  Row, collect, object_of, of_user, read_rows, object_row, fetch_object_privs,
}

-- A privilege on an object is reported.
abbrev pub reports : Bytes → Bytes → List ObjectPrivilege → Bool
reports name x = exists_test (λ o. bytes_eq o.name name && is_in x o.privileges)

-- The privileges on objects and their characters in access control lists.
abbrev pub letters : List (Bytes × Bytes)
letters =
    (codes "SELECT", codes "r")
    ∷ (codes "INSERT", codes "a")
    ∷ (codes "UPDATE", codes "w")
    ∷ (codes "DELETE", codes "d")
    ∷ (codes "TRUNCATE", codes "D")
    ∷ (codes "REFERENCES", codes "x")
    ∷ (codes "TRIGGER", codes "t")
    ∷ []

abbrev pub is_letter_of : Bytes → Bytes → List (Bytes × Bytes) → Bool
is_letter_of x c [] = false
is_letter_of x c ((name, letter) ∷ rest) =
    bytes_eq name x && bytes_eq c letter || is_letter_of x c rest

-- An entry's privileges hold the character of the given privilege.
abbrev pub holds : Bytes → List PrivilegeGrant → Bool
holds x = exists_test (λ p. is_letter_of x p.privilege letters)

-- An entry's privileges hold one that the table turns into the given name.
abbrev lists : Bytes → List PrivilegeGrant → Bool
lists x = exists_test (λ p.
    not (is_empty (map_char_to_table_privilege p.privilege))
    && bytes_eq (map_char_to_table_privilege p.privilege) x)

abbrev pub gives : Bytes → Bytes → List UserPrivileges → Bool
gives user_name x = exists_test (λ up. bytes_eq up.user user_name && holds x up.privileges)

-- The catalog's rows: an object and the entries of its list.
abbrev pub catalog : List (Bytes × List Entry) → List (Option Row)
catalog = map (λ e. some (record { name = e.0; acl = some (format_acl e.1) }))

abbrev pub grants_in : Bytes → Bytes → Bytes → List (Bytes × List Entry) → Bool
grants_in user_name name x =
    exists_test (λ e. bytes_eq e.0 name && gives user_name x (map user_privileges e.1))

abbrev pub all_plain : List (Bytes × List Entry) → Bool
all_plain [] = true
all_plain (e ∷ es) = are_plain e.1 && all_plain es

exists_test-append {ℓ} :
    {A : Type ℓ} (p : A → Bool) (xs ys : List A)
    → exists_test p (xs ++ ys) ≡ (exists_test p xs || exists_test p ys)
exists_test-append p [] ys = refl
exists_test-append p (x ∷ xs) ys = let ih = exists_test-append p xs ys in ground (arith, ih)

is_in-collect :
    (x : Bytes) (ps : List PrivilegeGrant)
    → is_in x (collect map_char_to_table_privilege ps).0 ≡ lists x ps
unfolding collect
is_in-collect x [] = refl
is_in-collect x (p ∷ ps) = elim (Bool-cases (is_empty (map_char_to_table_privilege p.privilege))) [
  | inl e ↦ rw e (is_in-collect x ps)
  | inr e ↦
      rw e
        (ap (λ b. bytes_eq (map_char_to_table_privilege p.privilege) x || b) (is_in-collect x ps))
]

-- The name of a character, or nothing.
abbrev pick : Bytes → List (Bytes × Bytes) → Bytes
pick c [] = []
pick c ((name, letter) ∷ rest) = if bytes_eq c letter then name else pick c rest

-- Names that are not empty, and letters that differ.
abbrev AreDistinct : List (Bytes × Bytes) → Type 0
AreDistinct [] = Unit {0}
AreDistinct ((name, letter) ∷ rest) =
    (is_empty name ≡ false) × All (λ e. bytes_eq letter e.1 ≡ false) rest × AreDistinct rest

other-letter :
    (x c : Bytes) (ls : List (Bytes × Bytes))
    → All (λ e. bytes_eq c e.1 ≡ false) ls
    → is_letter_of x c ls ≡ false
other-letter x c [] h = refl
other-letter x c ((name, letter) ∷ ls) (a, h) =
    let ih = other-letter x c ls h in ground (arith, a, ih)

pick-letter :
    (x c : Bytes) (ls : List (Bytes × Bytes))
    → AreDistinct ls
    → (not (is_empty (pick c ls)) && bytes_eq (pick c ls) x) ≡ is_letter_of x c ls
pick-letter x c [] h = refl
pick-letter x c ((name, letter) ∷ ls) (k, f, d) = elim (Bool-cases (bytes_eq c letter)) [
  | inl e ↦
      let o : is_letter_of x c ls ≡ false =
        rw (bytes_eq→eq c letter e) (other-letter x letter ls f) in
      rw (e, k, o) (ground arith)
  | inr e ↦ let ih = pick-letter x c ls d in rw e (ground (arith, ih))
]

letters-distinct : AreDistinct letters
unfolding bytes_eq
letters-distinct = (
  refl,
  (refl, (refl, (refl, (refl, (refl, (refl, tt)))))),
  (
    refl,
    (refl, (refl, (refl, (refl, (refl, tt))))),
    (
      refl,
      (refl, (refl, (refl, (refl, tt)))),
      (
        refl,
        (refl, (refl, (refl, tt))),
        (refl, (refl, (refl, tt)), (refl, (refl, tt), (refl, tt, tt))),
      ),
    ),
  ),
)

map_char-letter :
    (x c : Bytes)
    → (not (is_empty (map_char_to_table_privilege c)) && bytes_eq (map_char_to_table_privilege c) x)
      ≡ is_letter_of x c letters
unfolding map_char_to_table_privilege
map_char-letter x c = pick-letter x c letters letters-distinct

lists-holds : (x : Bytes) (ps : List PrivilegeGrant) → lists x ps ≡ holds x ps
lists-holds x [] = refl
lists-holds x (p ∷ ps) = cc (map_char-letter x p.privilege, lists-holds x ps)

reports-object_of :
    (n name x : Bytes) (c : List Bytes × Bool)
    → reports name x (object_of n c) ≡ (bytes_eq n name && is_in x c.0)
reports-object_of n name x ([], b) = ground arith
reports-object_of n name x (p ∷ ps, b) = ground arith

reports-of_user :
    (user_name n name x : Bytes) (ups : List UserPrivileges)
    → reports name x (of_user (object_of n) map_char_to_table_privilege user_name ups)
      ≡ (bytes_eq n name && gives user_name x ups)
unfolding of_user
reports-of_user user_name n name x [] = ground arith
reports-of_user user_name n name x (up ∷ ups) =
    let ih = reports-of_user user_name n name x ups in
    let c = collect map_char_to_table_privilege up.privileges in
    elim (Bool-cases (bytes_eq up.user user_name)) [
      | inl e ↦ rw e (
          exists_test-append _ (object_of n c) _
          ∙ rw
              (
                reports-object_of n name x c,
                is_in-collect x up.privileges,
                lists-holds x up.privileges,
                ih,
              )
              (table (bytes_eq n name) (holds x up.privileges) (gives user_name x ups)))
      | inr e ↦ rw e ih
    ]
  where
    table : (a b c : Bool) → ((a && b) || (a && c)) ≡ (a && (b || c))
    table true b c = refl
    table false b c = refl

reports-read_rows :
    (user_name name x : Bytes) (es : List (Bytes × List Entry))
    → all_plain es ≡ true
    → (l : List ObjectPrivilege) × (read_rows (object_row user_name) (catalog es) ≡ some l)
      × (reports name x l ≡ grants_in user_name name x es)
unfolding read_rows object_row
reports-read_rows user_name name x [] h = ([], refl, refl)
reports-read_rows user_name name x ((n, entries) ∷ es) h =
    let (l, e, k) = reports-read_rows user_name name x es (ground (arith, h)) in
    let parsed = parse_acl-format_acl entries (ground (arith, h)) in
    let row =
      of_user (object_of n) map_char_to_table_privilege user_name (map user_privileges entries) in
    (
      row ++ l,
      rw (parsed, e) refl,
      exists_test-append _ row l
          ∙ rw (reports-of_user user_name n name x (map user_privileges entries), k) refl,
    )

-- If the catalog answers rows whose lists are written from entries with no delimiter in a grantee or
-- grantor, and with privileges that are ASCII characters other than delimiters and the star, then
-- fetching succeeds, and a privilege on an object is reported exactly if an entry of the user in a list
-- of that object has the character of that privilege in PostgreSQL: r of SELECT, a of INSERT, w of
-- UPDATE, d of DELETE, D of TRUNCATE, x of REFERENCES, t of TRIGGER.
pub fetch_object_privs-reports :
    (user_name name x : Bytes) (es : List (Bytes × List Entry))
    → all_plain es ≡ true
    → (l : List ObjectPrivilege) × (fetch_object_privs (some (catalog es)) user_name ≡ some l)
      × (reports name x l ≡ grants_in user_name name x es)
unfolding fetch_object_privs
fetch_object_privs-reports user_name name x es h = reports-read_rows user_name name x es h
