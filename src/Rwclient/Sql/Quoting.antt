-- ===== src/Rwclient/Sql/Quoting.antt =====
-- Lemmas on the tokens of quoted texts (pkg/rwclient/sql_builder.go).
use mathlib.Core.List.{append_assoc, append-nil}
use risingwave_operator.Prelude.{
  ℕ, ◌≡◌, ◌∙◌, refl, sym, ap, inl, inr, Bool, true, false, ◌&&◌, not, List, [], ◌∷◌, ◌++◌, Option,
  none, some, Bytes, codes, ◌==◌, if◌then◌else◌, arith, Bool-cases, ==_iff, All, bytes_eq,
  bytes_eq→eq, map, is_empty,
}
use risingwave_operator.Rwclient.Sql.{double, quote_mark, apostrophe, quote_user, quote_identifier}
use risingwave_operator.Rwclient.Sql.Lexer.{
  Token, word, ident, str, sym as symbol, Mode, idle, in_word, in_ident, ident_end, in_str, str_end,
  is_word_char, begin, next, prepend, lex,
}

-- The first character of a text passes a test that the empty text passes too.
abbrev pub Starts : (ℕ → Bool) → Bytes → Type 0
Starts p [] = Unit
Starts p (c ∷ s) = p c ≡ true

pub prepend-prepend :
    (ts us : List Token) (r : Option (List Token))
    → prepend ts (prepend us r) ≡ prepend (ts ++ us) r
prepend-prepend ts us none = refl
prepend-prepend ts us (some vs) = ap some (sym (append_assoc ts us vs))

pub prepend_nil : (r : Option (List Token)) → prepend [] r ≡ r
prepend_nil none = refl
prepend_nil (some ts) = refl

-- One character.
step : (m : Mode) (c : ℕ) (s : Bytes) → lex m (c ∷ s) ≡ prepend (next m c).0 (lex (next m c).1 s)
unfolding lex
step m c s = refl

-- A character that only moves to another mode, and one that ends a token and begins another.
shift :
    (m m' : Mode) (c : ℕ) (s : Bytes)
    → ◌≡◌ {A = List Token × Mode} (next m c) ([], m')
    → lex m (c ∷ s) ≡ lex m' s
shift m m' c s e = step m c s ∙ rw e (prepend_nil (lex m' s))

cut :
    (m : Mode) (t : Token) (c : ℕ) (s : Bytes)
    → ◌≡◌ {A = List Token × Mode} (next m c) (t ∷ (begin c).0, (begin c).1)
    → lex m (c ∷ s) ≡ prepend (t ∷ []) (lex idle (c ∷ s))
cut m t c s e =
    step m c s
    ∙ rw (e, step idle c s)
        (sym (prepend-prepend (t ∷ []) (begin c).0 (lex (begin c).1 s))
          ∙ ap (λ n. prepend (t ∷ []) (prepend n.0 (lex n.1 s))) (sym (begin_idle c)))
  where
    begin_idle : (c : ℕ) → next idle c ≡ begin c
    begin_idle c = unfold next in refl

module _ (q : ℕ) (inside ending : Bytes → Mode)
    (closes : (s : Bytes) → ◌≡◌ {A = List Token × Mode} (next (inside s) q) ([], ending s))
    (reopens : (s : Bytes)
      → ◌≡◌ {A = List Token × Mode} (next (ending s) q) ([], inside (s ++ q ∷ [])))
    (reads : (s : Bytes) (c : ℕ)
      → (c == q) ≡ false
      → ◌≡◌ {A = List Token × Mode} (next (inside s) c) ([], inside (s ++ c ∷ []))) where
  -- A text with its quotes doubled is read back whole.
  lex-double :
      (name s rest : Bytes)
      → lex (inside s) (double q name ++ q ∷ rest) ≡ lex (ending (s ++ name)) rest
  unfolding double
  lex-double [] s rest =
      shift (inside s) (ending s) q rest (closes s)
      ∙ ap (λ t. lex (ending t) rest) (sym (append-nil s))
  lex-double (c ∷ name) s rest = elim (Bool-cases (c == q)) [
    | inl e ↦
        let same : q ≡ c = sym ((==_iff c q).0 e) in
        rw e (
          shift (inside s) (ending s) q _ (closes s)
          ∙ shift (ending s) (inside (s ++ q ∷ [])) q _ (reopens s)
          ∙ lex-double name (s ++ q ∷ []) rest
          ∙ ap (λ t. lex (ending t) rest)
              (append_assoc s (q ∷ []) name ∙ ap (λ d. s ++ d ∷ name) same))
    | inr e ↦ rw e (
        shift (inside s) (inside (s ++ c ∷ [])) c _ (reads s c e)
        ∙ lex-double name (s ++ c ∷ []) rest
        ∙ ap (λ t. lex (ending t) rest) (append_assoc s (c ∷ []) name))
  ]

abbrev pub no_quote : ℕ → Bool
no_quote c = not (c == quote_mark)

abbrev pub no_apostrophe : ℕ → Bool
no_apostrophe c = not (c == apostrophe)

-- A quoted identifier is one token, whatever the name, before anything but another quote.
pub lex-quoted :
    (name rest : Bytes)
    → Starts no_quote rest
    → lex idle (quote_mark ∷ (double quote_mark name ++ quote_mark ∷ rest))
      ≡ prepend (ident name ∷ []) (lex idle rest)
unfolding next begin
lex-quoted name rest h =
    shift idle (in_ident []) quote_mark _ refl
    ∙ lex-double quote_mark in_ident ident_end (λ s. refl) (λ s. refl) (λ s c e. rw e) name [] rest
    ∙ ends rest h
  where
    ends :
        (r : Bytes)
        → Starts no_quote r
        → lex (ident_end name) r ≡ prepend (ident name ∷ []) (lex idle r)
    ends [] k = unfold lex in refl
    ends (c ∷ r) k =
        cut (ident_end name) (ident name) c r
          (let e : (c == quote_mark) ≡ false = ground (arith, k) in rw e)

-- So is a string literal, up to the apostrophe that ends it.
pub lex-literal :
    (s rest : Bytes)
    → Starts no_apostrophe rest
    → lex idle (apostrophe ∷ (double apostrophe s ++ apostrophe ∷ rest))
      ≡ prepend (str s ∷ []) (lex idle rest)
unfolding next begin
lex-literal s rest h =
    shift idle (in_str []) apostrophe _ refl
    ∙ lex-double apostrophe in_str str_end (λ t. refl) (λ t. refl) (λ t c e. rw e) s [] rest
    ∙ ends rest h
  where
    ends :
        (r : Bytes) → Starts no_apostrophe r → lex (str_end s) r ≡ prepend (str s ∷ []) (lex idle r)
    ends [] k = unfold lex in refl
    ends (c ∷ r) k =
        cut (str_end s) (str s) c r (let e : (c == apostrophe) ≡ false = ground (arith, k) in rw e)

-- A word: letters, digits and underscores, not none of them.
abbrev pub AllWord : Bytes → Type 0
AllWord = All λ c. is_word_char c ≡ true

abbrev pub IsWord : Bytes → Type 0
IsWord [] = ⊥
IsWord (c ∷ w) = AllWord (c ∷ w)

abbrev pub no_word : ℕ → Bool
no_word c = not (is_word_char c)

lex-in_word :
    (v w rest : Bytes)
    → AllWord w
    → Starts no_word rest
    → lex (in_word v) (w ++ rest) ≡ prepend (word (v ++ w) ∷ []) (lex idle rest)
unfolding next
lex-in_word v [] [] h k = unfold lex in ap (λ t. some (word t ∷ [])) (sym (append-nil v))
lex-in_word v [] (c ∷ rest) h k =
    cut (in_word v) (word v) c rest (let e : is_word_char c ≡ false = ground (arith, k) in rw e)
    ∙ ap (λ t. prepend (word t ∷ []) (lex idle (c ∷ rest))) (sym (append-nil v))
lex-in_word v (c ∷ w) rest (a, h) k =
    shift (in_word v) (in_word (v ++ c ∷ [])) c (w ++ rest) (rw a)
    ∙ lex-in_word (v ++ c ∷ []) w rest h k
    ∙ ap (λ t. prepend (word t ∷ []) (lex idle rest)) (append_assoc v (c ∷ []) w)

begin_word :
    (c : ℕ)
    → is_word_char c ≡ true
    → ◌≡◌ {A = List Token × Mode} (next idle c) ([], in_word (c ∷ []))
unfolding next begin
begin_word c h = ground (arith, h)

-- A word is one token, before anything that cannot go on with it.
pub lex-word :
    (w rest : Bytes)
    → IsWord w
    → Starts no_word rest
    → lex idle (w ++ rest) ≡ prepend (word w ∷ []) (lex idle rest)
lex-word [] rest h k = elim h [ ]
lex-word (c ∷ w) rest (a, h) k =
    shift idle (in_word (c ∷ [])) c (w ++ rest) (begin_word c a) ∙ lex-in_word (c ∷ []) w rest h k

pub lex-space : (s : Bytes) → lex idle (b' ' ∷ s) ≡ lex idle s
unfolding next begin
lex-space s = shift idle idle b' ' s refl

-- Words, each with a space behind it.
abbrev pub spaced : List Bytes → Bytes
spaced [] = []
spaced (w ∷ ws) = w ++ b' ' ∷ spaced ws

abbrev all_word_chars : Bytes → Bool
all_word_chars [] = true
all_word_chars (c ∷ w) = is_word_char c && all_word_chars w

abbrev pub are_words : List Bytes → Bool
are_words [] = true
are_words (w ∷ ws) = (not (is_empty w) && all_word_chars w) && are_words ws

all_word_chars-AllWord : (w : Bytes) → all_word_chars w ≡ true → AllWord w
all_word_chars-AllWord [] h = tt
all_word_chars-AllWord (c ∷ w) h = (ground (arith, h), all_word_chars-AllWord w (ground (arith, h)))

IsWord-of_test : (w : Bytes) → (not (is_empty w) && all_word_chars w) ≡ true → IsWord w
IsWord-of_test [] h = cc
IsWord-of_test (c ∷ w) h = all_word_chars-AllWord (c ∷ w) h

pub lex-words :
    (ws : List Bytes) (rest : Bytes)
    → are_words ws ≡ true
    → lex idle (spaced ws ++ rest) ≡ prepend (map word ws) (lex idle rest)
lex-words [] rest h = sym (prepend_nil (lex idle rest))
lex-words (w ∷ ws) rest h = rw (append_assoc w (b' ' ∷ spaced ws) rest) (
    lex-word w (b' ' ∷ (spaced ws ++ rest)) (IsWord-of_test w (ground (arith, h))) refl
    ∙ ap (prepend (word w ∷ []))
        (lex-space (spaced ws ++ rest) ∙ lex-words ws rest (ground (arith, h)))
    ∙ prepend-prepend (word w ∷ []) (map word ws) (lex idle rest))

pub lex-quote_user :
    (name rest : Bytes)
    → Starts no_quote rest
    → lex idle (quote_user name ++ rest) ≡ prepend (ident name ∷ []) (lex idle rest)
unfolding quote_user
lex-quote_user name rest h =
    rw (append_assoc (double quote_mark name) (quote_mark ∷ []) rest) (lex-quoted name rest h)

-- The token of an identifier: `*` is passed on as it is.
unfoldable pub identifier_token : Bytes → Token
identifier_token name = if bytes_eq name (codes "*") then symbol b'*' else ident name

star : (name : Bytes) → bytes_eq name (codes "*") ≡ true → name ≡ codes "*"
star name h = bytes_eq→eq name (codes "*") h

lex-star : (rest : Bytes) → lex idle (b'*' ∷ rest) ≡ prepend (symbol b'*' ∷ []) (lex idle rest)
unfolding next begin
lex-star rest = step idle b'*' rest

pub lex-quote_identifier :
    (name rest : Bytes)
    → Starts no_quote rest
    → lex idle (quote_identifier name ++ rest)
      ≡ prepend (identifier_token name ∷ []) (lex idle rest)
lex-quote_identifier name rest h = elim (Bool-cases (bytes_eq name (codes "*"))) [
  | inl e ↦ unfold quote_identifier identifier_token in rw e (rw (star name e) (lex-star rest))
  | inr e ↦
      unfold quote_identifier identifier_token in
      rw (e, append_assoc (double quote_mark name) (quote_mark ∷ []) rest) (lex-quoted name rest h)
]

pub lex-comma : (rest : Bytes) → lex idle (b',' ∷ rest) ≡ prepend (symbol b',' ∷ []) (lex idle rest)
unfolding next begin
lex-comma rest = step idle b',' rest

pub lex-dot : (rest : Bytes) → lex idle (b'.' ∷ rest) ≡ prepend (symbol b'.' ∷ []) (lex idle rest)
unfolding next begin
lex-dot rest = step idle b'.' rest

pub lex_nil : lex idle [] ≡ some []
unfolding lex
lex_nil = refl
