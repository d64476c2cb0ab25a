-- ===== src/Rwclient/Acl/Samples.antt =====
-- A run of the parser, and its round trip at an example.
use risingwave_operator.Prelude.{◌≡◌, refl, true, false, List, [], ◌∷◌, map, codes}
use risingwave_operator.Rwclient.Acl.{parse_acl}
use risingwave_operator.Rwclient.Acl.Trip.{Entry, format_acl, user_privileges, parse_acl-format_acl}

abbrev two_entries : List Entry
two_entries =
    record {
      grantee = codes "ann";
      privileges = (b'r', true) ∷ (b'a', false) ∷ [];
      grantor = codes "root";
    }
    ∷ record { grantee = []; privileges = (b'U', false) ∷ []; grantor = codes "root" }
    ∷ []

written : format_acl two_entries ≡ codes "{ann=r*a/root,=U/root}"
written = refl

parse_acl-format_acl_example : parse_acl (format_acl two_entries) ≡ map user_privileges two_entries
parse_acl-format_acl_example = parse_acl-format_acl two_entries refl
