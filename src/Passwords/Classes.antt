-- ===== src/Passwords/Classes.antt =====
-- Counting the characters of a password (pkg/utils/password.go).
use risingwave_operator.Prelude.{
  ℕ, zero, suc, ◌+◌, ◌≤◌, ◌<◌, ◌≡◌, ◌≢◌, ◌∙◌, refl, ap, Bool, true, Bool-cases, inl, inr, none,
  Option-cases, [], ◌∷◌, ◌++◌, Bytes, length, ◌==◌, if◌then◌else◌, sum_of, sum_of-append,
  exists_test, arith,
}
use risingwave_operator.Passwords.{Source, set_byte, byte_at, swap_bytes, add_char, shuffle_from}

-- Whether a character is one of a set.
unfoldable pub is_of : Bytes → ℕ → Bool
is_of chars c = exists_test (λ d. c == d) chars

abbrev pub mark : (ℕ → Bool) → ℕ → ℕ
mark p c = if p c then 1 else 0

-- How many characters of a text pass a test.
abbrev pub count : (ℕ → Bool) → Bytes → ℕ
count p = sum_of (mark p)

module _ (p : ℕ → Bool) where
  count-set_byte :
      (i c : ℕ) (s : Bytes)
      → i < length s
      → count p (set_byte i c s) + mark p (byte_at s i) ≡ count p s + mark p c
  unfolding set_byte sum_of
  count-set_byte i c [] l = absurd (omega arith)
  count-set_byte zero c (d ∷ s) l = omega arith
  count-set_byte (suc i) c (d ∷ s) l = omega (arith, count-set_byte i c s (omega arith))

length-set_byte : (i c : ℕ) (s : Bytes) → length (set_byte i c s) ≡ length s
unfolding set_byte
length-set_byte i c [] = refl
length-set_byte zero c (d ∷ s) = refl
length-set_byte (suc i) c (d ∷ s) = ap suc (length-set_byte i c s)

byte_at-set_byte :
    (i j c : ℕ) (s : Bytes)
    → i < length s
    → byte_at (set_byte i c s) j ≡ (if i == j then c else byte_at s j)
unfolding set_byte
byte_at-set_byte i j c [] l = absurd (omega arith)
byte_at-set_byte zero zero c (d ∷ s) l = refl
byte_at-set_byte zero (suc j) c (d ∷ s) l = ground arith
byte_at-set_byte (suc i) zero c (d ∷ s) l = ground arith
byte_at-set_byte (suc i) (suc j) c (d ∷ s) l =
    ground (arith, byte_at-set_byte i j c s (omega arith))

-- A swap keeps every count.
count-swap_bytes :
    (p : ℕ → Bool) (i j : ℕ) (s : Bytes)
    → i < length s
    → j < length s
    → count p (swap_bytes i j s) ≡ count p s
unfolding swap_bytes
count-swap_bytes p i j s l m =
    let a = count-set_byte p i (byte_at s j) s l in
    let t = set_byte i (byte_at s j) s in
    let k : j < length t = omega (arith, m, length-set_byte i (byte_at s j) s) in
    let b = count-set_byte p j (byte_at s i) t k in
    let e : byte_at t j ≡ byte_at s j = ground (arith, byte_at-set_byte i j (byte_at s j) s l) in
    let c : mark p (byte_at t j) ≡ mark p (byte_at s j) = ap (mark p) e in omega (arith, a, b, c)

length-swap_bytes : (i j : ℕ) (s : Bytes) → length (swap_bytes i j s) ≡ length s
unfolding swap_bytes
length-swap_bytes i j s =
    length-set_byte j (byte_at s i) (set_byte i (byte_at s j) s) ∙ length-set_byte i (byte_at s j) s

pub is_of-byte_at :
    (chars : Bytes) (k : ℕ) → k < length chars → is_of chars (byte_at chars k) ≡ true
unfolding is_of
is_of-byte_at [] k l = absurd (omega arith)
is_of-byte_at (c ∷ chars) zero l = ground arith
is_of-byte_at (c ∷ chars) (suc k) l = ground (arith, is_of-byte_at chars k (omega arith))

pub is_of-left : (xs ys : Bytes) (c : ℕ) → is_of xs c ≡ true → is_of (xs ++ ys) c ≡ true
unfolding is_of
is_of-left [] ys c h = cc h
is_of-left (x ∷ xs) ys c h = elim (Bool-cases (c == x)) [
  | inl e ↦ ground (arith, e)
  | inr e ↦ let k : is_of xs c ≡ true = ground (arith, h, e) in ground (arith, is_of-left xs ys c k)
]

pub is_of-right : (xs ys : Bytes) (c : ℕ) → is_of ys c ≡ true → is_of (xs ++ ys) c ≡ true
unfolding is_of
is_of-right [] ys c h = h
is_of-right (x ∷ xs) ys c h = ground (arith, is_of-right xs ys c h)

module _ {R : Type 0} (source : Source R) where
  module _ (p : ℕ → Bool) where
    -- Shuffling keeps every count, whatever the source gives.
    pub shuffle_from-count :
        (i : ℕ) (s : Bytes) (r : R)
        → suc i ≤ length s
        → (count p (shuffle_from source i (s, r)).0 ≡ count p s)
          × (length (shuffle_from source i (s, r)).0 ≡ length s)
    unfolding shuffle_from
    shuffle_from-count zero s r l = (refl, refl)
    shuffle_from-count (suc i) s r l =
        let d = source.draw r (suc i + 1) in
        elim (Option-cases d.0) [
          | inl e ↦ rw (e, shuffle_from) (shuffle_from-count i s d.1 (omega (arith, l)))
          | inr (j, e) ↦
              let b = source.below r (suc i + 1) j e in
              let m = length-swap_bytes (suc i) j s in
              let (c, k) =
                shuffle_from-count i (swap_bytes (suc i) j s) d.1 (omega (arith, l, m)) in
              let q = count-swap_bytes p (suc i) j s (omega (arith, l)) (omega (arith, l, b)) in
              rw (e, shuffle_from) (c ∙ q, k ∙ m)
        ]

  module _ (reliable : (r : R) (max : ℕ) → 0 < max → (source.draw r max).0 ≢ none) where
    -- The character that is appended.
    pub add_char-adds :
        (chars : Bytes) (q : Bytes × R)
        → 0 < length chars
        → (k : ℕ) × (k < length chars) × ((add_char source chars q).0 ≡ q.0 ++ byte_at chars k ∷ [])
    unfolding add_char
    add_char-adds chars q h = elim (Option-cases (source.draw q.1 (length chars)).0) [
      | inl e ↦ absurd (reliable q.1 (length chars) h e)
      | inr (k, e) ↦ (k, source.below q.1 (length chars) k e, rw e refl)
    ]

    -- Its effect on a count, and on the length.
    pub add_char-count :
        (p : ℕ → Bool) (chars : Bytes) (q : Bytes × R) (k : ℕ)
        → (add_char source chars q).0 ≡ q.0 ++ byte_at chars k ∷ []
        → count p (add_char source chars q).0 ≡ count p q.0 + mark p (byte_at chars k)
    unfolding sum_of
    add_char-count p chars q k e =
        ap (count p) e ∙ sum_of-append (mark p) q.0 (byte_at chars k ∷ []) ∙ omega arith

pub count-nil : (p : ℕ → Bool) → count p [] ≡ 0
unfolding sum_of
count-nil p = refl
