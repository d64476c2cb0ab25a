-- ===== src/Prelude/Splits.antt =====
-- Splitting texts at a separator of one byte, and joining them again.
use Prim.Native.Nat.{ℕ}
use mathlib.Core.Path.{◌≡◌, ◌∙◌, refl, ap}
use mathlib.Core.Bool.{Bool, true, false, ◌&&◌, not}
use mathlib.Core.List.{List, [], ◌∷◌, ◌++◌}
use native.Mathlib.Omega.{arith}
use risingwave_operator.Prelude.Tests.{◌==◌, ==_iff, if◌then◌else◌}
use risingwave_operator.Prelude.Text.{Bytes}

-- strings.Split(s, q) at a separator of one byte: never the empty list.
abbrev push : ℕ → List Bytes → List Bytes
push c [] = (c ∷ []) ∷ []
push c (x ∷ xs) = (c ∷ x) ∷ xs

unfoldable pub split : ℕ → Bytes → List Bytes
split q [] = [] ∷ []
split q (c ∷ s) = let rest = split q s in if c == q then [] ∷ rest else push c rest

-- Texts with a separator between them.
abbrev pub join : ℕ → List Bytes → Bytes
join q [] = []
join q (x ∷ []) = x
join q (x ∷ y ∷ xs) = x ++ q ∷ join q (y ∷ xs)

-- A text without the bytes that a test finds.
abbrev pub avoids : (ℕ → Bool) → Bytes → Bool
avoids p [] = true
avoids p (c ∷ s) = not (p c) && avoids p s

pub avoids-append :
    (p : ℕ → Bool) (s t : Bytes) → avoids p s ≡ true → avoids p t ≡ true → avoids p (s ++ t) ≡ true
avoids-append p [] t h k = k
avoids-append p (c ∷ s) t h k =
    let ih : avoids p (s ++ t) ≡ true = avoids-append p s t (ground (arith, h)) k in
    ground (arith, h, ih)

pub avoids-imp :
    (p r : ℕ → Bool)
    → ((c : ℕ) → r c ≡ false → p c ≡ false)
    → (s : Bytes) → avoids r s ≡ true
    → avoids p s ≡ true
avoids-imp p r h [] k = refl
avoids-imp p r h (c ∷ s) k =
    let ih : avoids p s ≡ true = avoids-imp p r h s (ground (arith, k)) in
    let e : p c ≡ false = h c (ground (arith, k)) in rw (e, ih) refl

pub split-whole : (q : ℕ) (x : Bytes) → avoids (λ c. c == q) x ≡ true → split q x ≡ x ∷ []
unfolding split
split-whole q [] h = refl
split-whole q (c ∷ x) h =
    let e : (c == q) ≡ false = ground (arith, h) in rw (e, split-whole q x (ground (arith, h))) refl

pub split-append :
    (q : ℕ) (x s : Bytes) → avoids (λ c. c == q) x ≡ true → split q (x ++ q ∷ s) ≡ x ∷ split q s
unfolding split
split-append q [] s h = let e : (q == q) ≡ true = (==_iff q q).1 refl in rw e refl
split-append q (c ∷ x) s h =
    let e : (c == q) ≡ false = ground (arith, h) in
    rw (e, split-append q x s (ground (arith, h))) refl

abbrev pub all_avoid : (ℕ → Bool) → List Bytes → Bool
all_avoid p [] = true
all_avoid p (x ∷ xs) = avoids p x && all_avoid p xs

pub split-join :
    (q : ℕ) (x : Bytes) (xs : List Bytes)
    → all_avoid (λ c. c == q) (x ∷ xs) ≡ true
    → split q (join q (x ∷ xs)) ≡ x ∷ xs
split-join q x [] h = split-whole q x (ground (arith, h))
split-join q x (y ∷ xs) h =
    split-append q x (join q (y ∷ xs)) (ground (arith, h))
    ∙ ap (λ t. x ∷ t) (split-join q y xs (ground (arith, h)))

pub join-avoids :
    (p : ℕ → Bool) (q : ℕ) (xs : List Bytes)
    → p q ≡ false
    → all_avoid p xs ≡ true
    → avoids p (join q xs) ≡ true
join-avoids p q [] e h = refl
join-avoids p q (x ∷ []) e h = ground (arith, h)
join-avoids p q (x ∷ y ∷ xs) e h =
    let rest : avoids p (join q (y ∷ xs)) ≡ true = join-avoids p q (y ∷ xs) e (ground (arith, h)) in
    avoids-append p x (q ∷ join q (y ∷ xs)) (ground (arith, h)) (rw e rest)
