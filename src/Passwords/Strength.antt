-- ===== src/Passwords/Strength.antt =====
-- The length and the classes of characters of a password (pkg/utils/password.go).
use risingwave_operator.Prelude.{
  ℕ, zero, suc, ◌+◌, ◌-◌, ◌≤◌, ◌<◌, ◌≡◌, ◌≢◌, ◌∙◌, refl, ap, ℤ, pos, negsuc, Bool, true, not, none,
  [], ◌∷◌, ◌++◌, Bytes, length, length-append, arith,
}
use risingwave_operator.Passwords.{
  Source, lowercase_letters, uppercase_letters, digits, special_chars, all_chars, password_length,
  byte_at, add_char, fill, first_chars, generate_random_password,
}
use risingwave_operator.Passwords.Classes.{
  is_of, mark, count, is_of-byte_at, is_of-left, is_of-right, shuffle_from-count, add_char-adds,
  add_char-count, count-nil,
}

abbrev pub is_bad : Bytes → ℕ → Bool
is_bad all c = not (is_of all c)

-- What adding a character of a set does to a text, where `all` has all characters.
record Added (all chars a b : Bytes) : Type 0 where
  longer : length b ≡ length a + 1
  more : (p : ℕ → Bool) → count p a ≤ count p b
  has : 1 ≤ count (is_of chars) b
  good : count (is_bad all) b ≡ count (is_bad all) a

mark-true : (p : ℕ → Bool) (c : ℕ) → p c ≡ true → mark p c ≡ 1
mark-true p c h = rw h refl

mark-bad : (all : Bytes) (c : ℕ) → is_of all c ≡ true → mark (is_bad all) c ≡ 0
mark-bad all c h = rw h refl

module _ {R : Type 0} (source : Source R)
    (reliable : (r : R) (max : ℕ) → 0 < max → (source.draw r max).0 ≢ none) where
  module _ (all : Bytes) where
    add_char-Added :
        (chars : Bytes) (q : Bytes × R)
        → 0 < length chars
        → ((c : ℕ) → is_of chars c ≡ true → is_of all c ≡ true)
        → Added all chars q.0 (add_char source chars q).0
    add_char-Added chars q z sub =
        let (k, l, e) = add_char-adds source reliable chars q z in
        let n = λ (p : ℕ → Bool). add_char-count source reliable p chars q k e in
        let i = is_of-byte_at chars k l in
        record {
          longer = ap length e ∙ length-append q.0 (byte_at chars k ∷ []);
          more = λ p. omega (arith, n p);
          has = omega (arith, n (is_of chars), mark-true (is_of chars) (byte_at chars k) i);
          good =
              omega
                (arith, n (is_bad all), mark-bad all (byte_at chars k) (sub (byte_at chars k) i));
        }

  fill-grows :
      (n : ℕ) (q : Bytes × R)
      → (length (fill source n q).0 ≡ length q.0 + n)
        × ((p : ℕ → Bool) → count p q.0 ≤ count p (fill source n q).0)
        × (count (is_bad all_chars) (fill source n q).0 ≡ count (is_bad all_chars) q.0)
  unfolding fill
  fill-grows zero q = (omega arith, λ p. omega arith, refl)
  fill-grows (suc n) q =
      let t = add_char source all_chars q in
      let a = add_char-Added all_chars all_chars q (omega arith) (λ c h. h) in
      let (l, m, g) = fill-grows n t in
      (omega (arith, l, a.longer), λ p. omega (arith, m p, a.more p), g ∙ a.good)

  -- The four first characters.
  abbrev FirstChars : Bytes → Type 0
  FirstChars s =
      (length s ≡ 4)
      × (1 ≤ count (is_of lowercase_letters) s)
      × (1 ≤ count (is_of uppercase_letters) s)
      × (1 ≤ count (is_of digits) s)
      × (1 ≤ count (is_of special_chars) s)
      × (count (is_bad all_chars) s ≡ 0)

  first_chars-classes : (r : R) → FirstChars (first_chars source r).0
  unfolding first_chars
  first_chars-classes r =
      let l = lowercase_letters in
      let u = uppercase_letters in
      let d = digits in
      let s = special_chars in
      let q1 = add_char source l ([], r) in
      let q2 = add_char source u q1 in
      let q3 = add_char source d q2 in
      let a =
        add_char-Added all_chars l ([], r) (omega arith)
          (λ c h. is_of-left l (u ++ (d ++ s)) c h) in
      let b =
        add_char-Added all_chars u q1 (omega arith)
          (λ c h. is_of-right l (u ++ (d ++ s)) c (is_of-left u (d ++ s) c h)) in
      let e =
        add_char-Added all_chars d q2 (omega arith) (λ c h.
          is_of-right l (u ++ (d ++ s)) c (is_of-right u (d ++ s) c (is_of-left d s c h))) in
      let f =
        add_char-Added all_chars s q3 (omega arith) (λ c h.
          is_of-right l (u ++ (d ++ s)) c (is_of-right u (d ++ s) c (is_of-right d s c h))) in
      (
        omega (arith, a.longer, b.longer, e.longer, f.longer),
        omega (arith, a.has, b.more (is_of l), e.more (is_of l), f.more (is_of l)),
        omega (arith, b.has, e.more (is_of u), f.more (is_of u)),
        omega (arith, e.has, f.more (is_of d)),
        f.has,
        f.good ∙ (e.good ∙ (b.good ∙ (a.good ∙ count-nil (is_bad all_chars)))),
      )

  password_length-enough : (n : ℤ) → 8 ≤ password_length n
  unfolding password_length
  password_length-enough (pos n) = ground arith
  password_length-enough (negsuc n) = omega arith

  -- If the source never fails, a password has as many characters as are asked for, or 16 where fewer than
  -- 8 are asked for, at least one of them is a lower case letter, one an upper case letter, one a digit
  -- and one a special character, and none is anything else.
  pub generate_random_password-classes :
      (n : ℤ) (r : R)
      → let s = (generate_random_password source n r).0 in
        (length s ≡ password_length n)
        × (1 ≤ count (is_of lowercase_letters) s)
        × (1 ≤ count (is_of uppercase_letters) s)
        × (1 ≤ count (is_of digits) s)
        × (1 ≤ count (is_of special_chars) s)
        × (count (is_bad all_chars) s ≡ 0)
  unfolding generate_random_password
  generate_random_password-classes n r =
      let first = first_chars source r in
      let rounds = password_length n - length first.0 in
      let filled = fill source rounds first in
      let (l, lo, up, di, sp, g) = first_chars-classes r in
      let (fl, fm, fg) = fill-grows rounds first in
      let e = password_length-enough n in
      let k : suc (length filled.0 - 1) ≤ length filled.0 = omega (arith, e, l, fl) in
      let s =
        λ (p : ℕ → Bool). shuffle_from-count source p (length filled.0 - 1) filled.0 filled.1 k in
      (
        (s (is_bad all_chars)).1 ∙ omega (arith, e, l, fl),
        omega (arith, (s (is_of lowercase_letters)).0, fm (is_of lowercase_letters), lo),
        omega (arith, (s (is_of uppercase_letters)).0, fm (is_of uppercase_letters), up),
        omega (arith, (s (is_of digits)).0, fm (is_of digits), di),
        omega (arith, (s (is_of special_chars)).0, fm (is_of special_chars), sp),
        (s (is_bad all_chars)).0 ∙ (fg ∙ g),
      )
