-- ===== src/Rwclient/Acl/Trip.antt =====
-- Writing access control lists, for pkg/rwclient/acl_parser.go.
use risingwave_operator.Prelude.{
  split, join, avoids, avoids-append, avoids-imp, all_avoid, split-join, ℕ, ◌≡◌, ◌∙◌, refl, ap,
  Bool, true, false, ◌&&◌, ◌||◌, not, List, [], ◌∷◌, ◌++◌, map, some, Bytes, ltb, ◌==◌, is_empty,
  if◌then◌else◌, arith,
}
use risingwave_operator.Rwclient.Acl.{
  PrivilegeGrant, UserPrivileges, is_brace, trim_left, trim_right, trim, parse_privileges,
  parse_granted, parse_parts, parse_entries, parse_acl,
}

-- An entry of a list: its privileges are characters, each with its grant option.
pub record Entry : Type 0 where
  pub grantee : Bytes
  pub privileges : List (ℕ × Bool)
  pub grantor : Bytes

abbrev pub format_privileges : List (ℕ × Bool) → Bytes
format_privileges [] = []
format_privileges ((c, b) ∷ ps) =
    let rest = format_privileges ps in if b then c ∷ b'*' ∷ rest else c ∷ rest

abbrev pub format_entry : Entry → Bytes
format_entry e =
    join b'=' (e.grantee ∷ join b'/' (format_privileges e.privileges ∷ e.grantor ∷ []) ∷ [])

abbrev pub format_acl : List Entry → Bytes
format_acl es = b'{' ∷ (join b',' (map format_entry es) ++ b'}' ∷ [])

-- What the parser makes of an entry.
abbrev pub granted : ℕ × Bool → PrivilegeGrant
granted (c, b) = record { privilege = c ∷ []; with_grant_option = b }

abbrev pub user_privileges : Entry → UserPrivileges
user_privileges e = record { user = e.grantee; privileges = map granted e.privileges }

abbrev pub is_delimiter : ℕ → Bool
is_delimiter c = is_brace c || (c == b',' || (c == b'=' || c == b'/'))

abbrev pub is_plain_privilege : ℕ × Bool → Bool
is_plain_privilege (c, b) = ltb c 128 && (not (is_delimiter c) && not (c == b'*'))

abbrev pub all_plain : List (ℕ × Bool) → Bool
all_plain [] = true
all_plain (p ∷ ps) = is_plain_privilege p && all_plain ps

abbrev pub is_plain_entry : Entry → Bool
is_plain_entry e =
    avoids is_delimiter e.grantee && (all_plain e.privileges && avoids is_delimiter e.grantor)

abbrev pub are_plain : List Entry → Bool
are_plain [] = true
are_plain (e ∷ es) = is_plain_entry e && are_plain es

trim_left-open : (s : Bytes) → trim_left (b'{' ∷ s) ≡ trim_left s
unfolding trim_left
trim_left-open s = refl

trim_left-stop : (c : ℕ) (s : Bytes) → is_brace c ≡ false → trim_left (c ∷ s) ≡ c ∷ s
unfolding trim_left
trim_left-stop c s e = rw e refl

trim_right-close : (s : Bytes) → avoids is_brace s ≡ true → trim_right (s ++ b'}' ∷ []) ≡ s
unfolding trim_right
trim_right-close [] h = refl
trim_right-close (c ∷ s) h =
    let e : is_brace c ≡ false = ground (arith, h) in
    rw (trim_right-close s (ground (arith, h)), e) (keep (is_empty s))
  where
    keep : (b : Bool) → (if b && false then [] else c ∷ s) ≡ c ∷ s
    keep true = refl
    keep false = refl

trim-braces : (s : Bytes) → avoids is_brace s ≡ true → trim (b'{' ∷ (s ++ b'}' ∷ [])) ≡ s
unfolding trim
trim-braces [] h = unfold trim_left trim_right in refl
trim-braces (c ∷ s) h =
    ap trim_right (
      trim_left-open (c ∷ (s ++ b'}' ∷ [])) ∙ trim_left-stop c (s ++ b'}' ∷ []) (ground (arith, h)))
    ∙ trim_right-close (c ∷ s) h

-- Tests that the delimiters and the plain privileges decide.
abbrev is_comma : ℕ → Bool
is_comma c = c == b','

abbrev is_equals : ℕ → Bool
is_equals c = c == b'='

abbrev is_slash : ℕ → Bool
is_slash c = c == b'/'

plain-avoids :
    (p : ℕ → Bool)
    → ((c : ℕ) → is_delimiter c ≡ false → p c ≡ false)
    → p b'*' ≡ false
    → (ps : List (ℕ × Bool)) → all_plain ps ≡ true
    → avoids p (format_privileges ps) ≡ true
plain-avoids p h star [] k = refl
plain-avoids p h star ((c, true) ∷ ps) k =
    let ih : avoids p (format_privileges ps) ≡ true =
      plain-avoids p h star ps (ground (arith, k)) in
    let e : p c ≡ false = h c (ground (arith, k)) in rw (e, star, ih) refl
plain-avoids p h star ((c, false) ∷ ps) k =
    let ih : avoids p (format_privileges ps) ≡ true =
      plain-avoids p h star ps (ground (arith, k)) in
    let e : p c ≡ false = h c (ground (arith, k)) in rw (e, ih) refl

parse_privileges-format :
    (ps : List (ℕ × Bool))
    → all_plain ps ≡ true
    → parse_privileges (format_privileges ps) ≡ map granted ps
unfolding parse_privileges
parse_privileges-format [] h = refl
parse_privileges-format ((c, true) ∷ ps) h =
    let e : ltb c 128 ≡ true = ground (arith, h) in
    rw (e, parse_privileges-format ps (ground (arith, h))) refl
parse_privileges-format ((c, false) ∷ []) h =
    let e : ltb c 128 ≡ true = ground (arith, h) in rw e refl
parse_privileges-format ((c, false) ∷ (d, true) ∷ ps) h =
    let e : ltb c 128 ≡ true = ground (arith, h) in
    let s : (d == b'*') ≡ false = ground (arith, h) in
    let ih = parse_privileges-format ((d, true) ∷ ps) (ground (arith, h)) in rw (e, s, ih) refl
parse_privileges-format ((c, false) ∷ (d, false) ∷ ps) h =
    let e : ltb c 128 ≡ true = ground (arith, h) in
    let s : (d == b'*') ≡ false = ground (arith, h) in
    let ih = parse_privileges-format ((d, false) ∷ ps) (ground (arith, h)) in rw (e, s, ih) refl

parse_parts-format :
    (e : Entry)
    → is_plain_entry e ≡ true
    → parse_parts (split b'=' (format_entry e)) ≡ some (user_privileges e)
unfolding parse_parts parse_granted
parse_parts-format e h =
    let privs = format_privileges e.privileges in
    let remaining = join b'/' (privs ∷ e.grantor ∷ []) in
    let plain : all_plain e.privileges ≡ true = ground (arith, h) in
    let gl : avoids is_delimiter e.grantee ≡ true = ground (arith, h) in
    let rl : avoids is_delimiter e.grantor ≡ true = ground (arith, h) in
    let a : avoids is_equals e.grantee ≡ true =
      avoids-imp is_equals is_delimiter (λ c k. ground (arith, k)) e.grantee gl in
    let b : avoids is_equals privs ≡ true =
      plain-avoids is_equals (λ c k. ground (arith, k)) refl e.privileges plain in
    let c : avoids is_equals e.grantor ≡ true =
      avoids-imp is_equals is_delimiter (λ c k. ground (arith, k)) e.grantor rl in
    let d : avoids is_slash privs ≡ true =
      plain-avoids is_slash (λ c k. ground (arith, k)) refl e.privileges plain in
    let g : avoids is_slash e.grantor ≡ true =
      avoids-imp is_slash is_delimiter (λ c k. ground (arith, k)) e.grantor rl in
    let r : avoids is_equals remaining ≡ true =
      avoids-append is_equals privs (b'/' ∷ e.grantor) b c in
    ap parse_parts (split-join b'=' e.grantee (remaining ∷ []) (rw (a, r) refl))
    ∙ (ap (parse_granted e.grantee) (split-join b'/' privs (e.grantor ∷ []) (rw (d, g) refl)))
    ∙ (ap (λ ps. some (record { user = e.grantee; privileges = ps }))
        (parse_privileges-format e.privileges plain))

parse_entries-format :
    (es : List Entry)
    → are_plain es ≡ true
    → parse_entries (map format_entry es) ≡ map user_privileges es
unfolding parse_entries
parse_entries-format [] h = refl
parse_entries-format (e ∷ es) h =
    rw (parse_parts-format e (ground (arith, h)), parse_entries-format es (ground (arith, h))) refl

-- A test that no delimiter but those inside an entry passes holds of a whole entry, and of a list.
entry-avoids :
    (p : ℕ → Bool)
    → ((c : ℕ) → is_delimiter c ≡ false → p c ≡ false)
    → p b'*' ≡ false
    → p b'=' ≡ false
    → p b'/' ≡ false
    → (e : Entry) → is_plain_entry e ≡ true
    → avoids p (format_entry e) ≡ true
entry-avoids p k s q l e h =
    let privs = format_privileges e.privileges in
    let a : avoids p e.grantee ≡ true = avoids-imp p is_delimiter k e.grantee (ground (arith, h)) in
    let b : avoids p privs ≡ true = plain-avoids p k s e.privileges (ground (arith, h)) in
    let c : avoids p e.grantor ≡ true = avoids-imp p is_delimiter k e.grantor (ground (arith, h)) in
    let inner : avoids p (privs ++ b'/' ∷ e.grantor) ≡ true =
      avoids-append p privs (b'/' ∷ e.grantor) b (rw (l, c) refl) in
    avoids-append p e.grantee (b'=' ∷ (privs ++ b'/' ∷ e.grantor)) a (rw (q, inner) refl)

entries-all_avoid :
    (es : List Entry) → are_plain es ≡ true → all_avoid is_comma (map format_entry es) ≡ true
entries-all_avoid [] h = refl
entries-all_avoid (e ∷ es) h =
    let a : avoids is_comma (format_entry e) ≡ true =
      entry-avoids is_comma (λ c k. ground (arith, k)) refl refl refl e (ground (arith, h)) in
    let b : all_avoid is_comma (map format_entry es) ≡ true =
      entries-all_avoid es (ground (arith, h)) in
    rw (a, b) refl

join-avoids_brace :
    (es : List Entry)
    → are_plain es ≡ true
    → avoids is_brace (join b',' (map format_entry es)) ≡ true
join-avoids_brace [] h = refl
join-avoids_brace (e ∷ []) h =
    entry-avoids is_brace (λ c k. ground (arith, k)) refl refl refl e (ground (arith, h))
join-avoids_brace (e ∷ f ∷ es) h =
    avoids-append is_brace (format_entry e) (b',' ∷ join b',' (map format_entry (f ∷ es)))
      (entry-avoids is_brace (λ c k. ground (arith, k)) refl refl refl e (ground (arith, h)))
      (join-avoids_brace (f ∷ es) (ground (arith, h)))

append-not_empty : (s t : Bytes) (c : ℕ) → is_empty (s ++ c ∷ t) ≡ false
append-not_empty [] t c = refl
append-not_empty (d ∷ s) t c = refl

join-not_empty :
    (e : Entry) (es : List Entry) → is_empty (join b',' (map format_entry (e ∷ es))) ≡ false
join-not_empty e [] = append-not_empty e.grantee _ b'='
join-not_empty e (f ∷ es) = append-not_empty (format_entry e) _ b','

-- If no grantee, privilege or grantor holds a delimiter, and the privileges are ASCII characters other
-- than the star, then ParseACL reads the written list of entries back: each entry's grantee, and its
-- privileges in their order with their grant options.
pub parse_acl-format_acl :
    (es : List Entry) → are_plain es ≡ true → parse_acl (format_acl es) ≡ map user_privileges es
unfolding parse_acl
parse_acl-format_acl [] h = unfold trim trim_left trim_right in refl
parse_acl-format_acl (e ∷ es) h =
    rw
      (
        trim-braces (join b',' (map format_entry (e ∷ es))) (join-avoids_brace (e ∷ es) h),
        join-not_empty e es,
      )
      (ap parse_entries
          (split-join b',' (format_entry e) (map format_entry es) (entries-all_avoid (e ∷ es) h))
        ∙ parse_entries-format (e ∷ es) h)
