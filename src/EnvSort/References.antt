-- ===== src/EnvSort/References.antt =====
-- References to variables in texts (pkg/utils/sort.go, DependsOn).
use risingwave_operator.Prelude.{
  ℕ, ◌≡◌, ◌∙◌, ap, refl, true, false, some, [], ◌∷◌, ◌++◌, Bytes, codes, length, get_elem?,
  or_default, ◌==◌, All, arith,
}
use risingwave_operator.UserWebhook.Checks.{has_prefix}
use risingwave_operator.EnvSort.{
  EnvVar, index_in, dollars_before, is_even, unescaped_at, depends_on,
}

-- No dollar sign in a text.
abbrev pub IsPlain : Bytes → Type 0
IsPlain = All (λ c. (c == b'$') ≡ false)

-- The value holds $(NAME) with the name of the other, and no dollar sign before it.
abbrev pub Refers : EnvVar → EnvVar → Type 0
Refers a b =
    (pre : Bytes) × (post : Bytes) × (a.value
      ≡ pre ++ ((codes "$(" ++ (b.name ++ codes ")")) ++ post))
    × IsPlain pre

has_prefix-append : (p post : Bytes) → has_prefix (p ++ post) p ≡ true
unfolding has_prefix
has_prefix-append [] post = refl
has_prefix-append (c ∷ p) post = let ih = has_prefix-append p post in ground (arith, ih)

index_in-plain :
    (pre n post : Bytes)
    → IsPlain pre
    → index_in (pre ++ ((b'$' ∷ n) ++ post)) (b'$' ∷ n) ≡ some (length pre)
unfolding index_in has_prefix
index_in-plain [] n post h = rw (has_prefix-append n post) refl
index_in-plain (c ∷ pre) n post (a, h) = rw (a, index_in-plain pre n post h) refl

last-plain :
    (c : ℕ) (pre rest : Bytes)
    → IsPlain (c ∷ pre)
    → (or_default (get_elem? ((c ∷ pre) ++ rest) (length pre)) 0 == b'$') ≡ false
last-plain c [] rest (a, h) = a
last-plain c (d ∷ pre) rest (a, h) = last-plain d pre rest h

dollars_before-plain :
    (pre rest : Bytes) → IsPlain pre → dollars_before (pre ++ rest) (length pre) ≡ 0
unfolding dollars_before
dollars_before-plain [] rest h = refl
dollars_before-plain (c ∷ pre) rest h = rw (last-plain c pre rest h) refl

depends_on-plain :
    (a b : EnvVar) (pre post : Bytes)
    → IsPlain pre
    → depends_on (record a { value = pre ++ ((codes "$(" ++ (b.name ++ codes ")")) ++ post) }) b
      ≡ true
unfolding depends_on
depends_on-plain a b pre post h =
    let needle = codes "$(" ++ (b.name ++ codes ")") in
    let k : index_in (pre ++ (needle ++ post)) needle ≡ some (length pre) =
      index_in-plain pre (b'(' ∷ (b.name ++ codes ")")) post h in
    ap (unescaped_at (pre ++ (needle ++ post))) k
    ∙ ap is_even (dollars_before-plain pre (needle ++ post) h)

pub Refers-depends_on : (a b : EnvVar) → Refers a b → depends_on a b ≡ true
Refers-depends_on a b (pre, post, e, h) =
    ap (λ v. depends_on (record a { value = v }) b) e ∙ depends_on-plain a b pre post h
