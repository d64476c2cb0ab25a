-- ===== src/Rwclient/Sql/Lexer.antt =====
-- How PostgreSQL, and so RisingWave, splits a statement into tokens: words, quoted identifiers,
-- string literals and single symbols. Inside quotes a doubled quote stands for one. This is an
-- independent reading of the texts that the program builds.
use risingwave_operator.Prelude.{
  ℕ, Bool, ◌&&◌, ◌||◌, List, [], ◌∷◌, ◌++◌, Option, none, some, Bytes, leb, ◌==◌, if◌then◌else◌,
}
use risingwave_operator.Rwclient.Sql.{quote_mark, apostrophe}

pub data Token : Type 0 where
  word ident str : Bytes → Token
  sym : ℕ → Token

-- `ident_end` and `str_end` have read a quote that may be the first of two.
pub data Mode : Type 0 where
  idle : Mode
  in_word in_ident ident_end in_str str_end : Bytes → Mode

abbrev pub is_word_char : ℕ → Bool
is_word_char c =
    (leb b'A' c && leb c b'Z')
    || ((leb b'a' c && leb c b'z') || ((leb b'0' c && leb c b'9') || c == b'_'))

unfoldable pub begin : ℕ → List Token × Mode
begin c =
    if c == quote_mark
    then ([], in_ident [])
    else if c == apostrophe
    then ([], in_str [])
    else if c == b' '
    then ([], idle)
    else if is_word_char c
    then ([], in_word (c ∷ []))
    else (sym c ∷ [], idle)

unfoldable pub next : Mode → ℕ → List Token × Mode
next idle c = begin c
next (in_word w) c =
    if is_word_char c then ([], in_word (w ++ c ∷ [])) else (word w ∷ (begin c).0, (begin c).1)
next (in_ident s) c = if c == quote_mark then ([], ident_end s) else ([], in_ident (s ++ c ∷ []))
next (ident_end s) c =
    if c == quote_mark then ([], in_ident (s ++ c ∷ [])) else (ident s ∷ (begin c).0, (begin c).1)
next (in_str s) c = if c == apostrophe then ([], str_end s) else ([], in_str (s ++ c ∷ []))
next (str_end s) c =
    if c == apostrophe then ([], in_str (s ++ c ∷ [])) else (str s ∷ (begin c).0, (begin c).1)

-- An open quote at the end is an error.
abbrev finish : Mode → Option (List Token)
finish idle = some []
finish (in_word w) = some (word w ∷ [])
finish (in_ident s) = none
finish (ident_end s) = some (ident s ∷ [])
finish (in_str s) = none
finish (str_end s) = some (str s ∷ [])

-- Tokens in front of the tokens of the rest.
abbrev pub prepend : List Token → Option (List Token) → Option (List Token)
prepend ts none = none
prepend ts (some us) = some (ts ++ us)

unfoldable pub lex : Mode → Bytes → Option (List Token)
lex m [] = finish m
lex m (c ∷ s) = let (ts, m') = next m c in prepend ts (lex m' s)

abbrev pub tokens : Bytes → Option (List Token)
tokens = lex idle
