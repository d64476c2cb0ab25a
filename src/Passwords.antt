-- ===== src/Passwords.antt =====
-- pkg/utils/password.go: random passwords. The source of randomness, rand.Int of crypto/rand, is an
-- interface.
pub mod Classes
pub mod Strength
pub mod Samples
use risingwave_operator.Prelude.{
  ℕ, zero, suc, ◌+◌, ◌-◌, ◌<◌, ◌≡◌, ℤ, pos, negsuc, Option, none, some, or_default, List, [], ◌∷◌,
  ◌++◌, Bytes, codes, length, get_elem?, ltb, if◌then◌else◌,
}

-- randInt: a number below the given one, or an error.
pub record Source (R : Type 0) : Type 0 where
  pub draw : R → ℕ → Option ℕ × R
  pub below : (r : R) (max k : ℕ) → (draw r max).0 ≡ some k → k < max

abbrev pub lowercase_letters : Bytes
lowercase_letters = codes "abcdefghijklmnopqrstuvwxyz"

abbrev pub uppercase_letters : Bytes
uppercase_letters = codes "ABCDEFGHIJKLMNOPQRSTUVWXYZ"

abbrev pub digits : Bytes
digits = codes "0123456789"

abbrev pub special_chars : Bytes
special_chars = codes "!@#$%^&*()_+-=[]{}|;:,.<>?"

abbrev pub all_chars : Bytes
all_chars = lowercase_letters ++ (uppercase_letters ++ (digits ++ special_chars))

-- The length that is used instead of one below 8, DefaultPasswordLength.
unfoldable pub password_length : ℤ → ℕ
password_length (pos n) = if ltb n 8 then 16 else n
password_length (negsuc n) = 16

-- `data[i] = c`
unfoldable pub set_byte : ℕ → ℕ → Bytes → Bytes
set_byte i c [] = []
set_byte zero c (d ∷ s) = c ∷ s
set_byte (suc i) c (d ∷ s) = d ∷ set_byte i c s

abbrev pub byte_at : Bytes → ℕ → ℕ
byte_at s i = or_default (get_elem? s i) 0

-- `data[i], data[j] = data[j], data[i]`
unfoldable pub swap_bytes : ℕ → ℕ → Bytes → Bytes
unfolding set_byte
swap_bytes i j s = set_byte j (byte_at s i) (set_byte i (byte_at s j) s)

module _ {R : Type 0} (source : Source R) where
  abbrev pub drawn : Bytes → Bytes → Option ℕ × R → Bytes × R
  drawn chars password (none, r) = (password, r)
  drawn chars password (some idx, r) = (password ++ byte_at chars idx ∷ [], r)

  -- A character of a set is appended, if the source gives one.
  unfoldable pub add_char : Bytes → Bytes × R → Bytes × R
  add_char chars p = drawn chars p.0 (source.draw p.1 (length chars))

  -- The loop that fills up, with the number of its rounds.
  unfoldable pub fill : ℕ → Bytes × R → Bytes × R
  unfolding add_char
  fill zero p = p
  fill (suc rounds) p = fill rounds (add_char all_chars p)

  abbrev pub shuffled : ℕ → Bytes → Option ℕ × R → Bytes × R
  shuffled i s (none, r) = (s, r)
  shuffled i s (some j, r) = (swap_bytes i j s, r)

  -- shuffleBytes: the rounds from an index down to 1.
  unfoldable pub shuffle_from : ℕ → Bytes × R → Bytes × R
  unfolding swap_bytes
  shuffle_from zero p = p
  shuffle_from (suc i) p = shuffle_from i (shuffled (suc i) p.0 (source.draw p.1 (suc i + 1)))

  -- One character of each class.
  unfoldable pub first_chars : R → Bytes × R
  unfolding add_char
  first_chars r =
      add_char special_chars
        (add_char digits (add_char uppercase_letters (add_char lowercase_letters ([], r))))

  unfoldable pub generate_random_password : ℤ → R → Bytes × R
  unfolding first_chars fill shuffle_from password_length
  generate_random_password n r =
      let first = first_chars r in
      let filled = fill (password_length n - length first.0) first in
      shuffle_from (length filled.0 - 1) filled
