-- ===== src/Passwords/Samples.antt =====
-- A password from a source that counts.
use risingwave_operator.Prelude.{
  ℕ, zero, suc, ◌+◌, ◌%◌, ◌≤◌, ◌<◌, ◌≡◌, ◌≢◌, refl, pos, Option, none, some, codes, length, arith,
}
use risingwave_operator.Passwords.{
  Source, lowercase_letters, uppercase_letters, digits, special_chars, all_chars, password_length,
  generate_random_password,
}
use risingwave_operator.Passwords.Classes.{is_of, count}
use risingwave_operator.Passwords.Strength.{is_bad, generate_random_password-classes}

abbrev draw_next : ℕ → ℕ → Option ℕ × ℕ
draw_next r zero = (none, r)
draw_next r (suc m) = (some (r % suc m), r + 1)

draw_next-below : (r max k : ℕ) → (draw_next r max).0 ≡ some k → k < max
draw_next-below r zero k h = cc h
draw_next-below r (suc m) k h = let e : r % suc m ≡ k = cc h in grind (arith, e)

draw_next-reliable : (r max : ℕ) → 0 < max → (draw_next r max).0 ≢ none
draw_next-reliable r zero h e = absurd (omega (arith, h))
draw_next-reliable r (suc m) h e = cc e

abbrev counting : Source ℕ
counting = record { draw = draw_next; below = draw_next-below }

counted : (generate_random_password counting (pos 3) 0).0 ≡ codes "B$mhljnpfokige2a"
unfolding generate_random_password
counted = refl

generate_random_password-classes_example :
    (length (generate_random_password counting (pos 3) 0).0 ≡ password_length (pos 3))
    × (1 ≤ count (is_of lowercase_letters) (generate_random_password counting (pos 3) 0).0)
    × (1 ≤ count (is_of uppercase_letters) (generate_random_password counting (pos 3) 0).0)
    × (1 ≤ count (is_of digits) (generate_random_password counting (pos 3) 0).0)
    × (1 ≤ count (is_of special_chars) (generate_random_password counting (pos 3) 0).0)
    × (count (is_bad all_chars) (generate_random_password counting (pos 3) 0).0 ≡ 0)
generate_random_password-classes_example =
    generate_random_password-classes counting draw_next-reliable (pos 3) 0
