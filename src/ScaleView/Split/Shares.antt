-- ===== src/ScaleView/Split/Shares.antt =====
-- Lemmas on the shares of one priority (pkg/object/scaleview/split.go).
use native.Mathlib.Nat.{
  div-add-mod', div-mul-le_self, div-le_self, lt-div-mul-add, lt_of_mul-lt-mul_right,
  mul-le-mul_right, le-mul_of_pos_right,
}
use risingwave_operator.Prelude.{
  ℕ, suc, ◌+◌, ◌-◌, ◌*◌, ◌/◌, ◌%◌, ◌≤◌, ◌<◌, ◌≡◌, refl, inl, inr, pos, pos_part, neg_part, ◌+ℤ◌,
  ◌*ℤ◌, List, [], ◌∷◌, length, All, arith, leb, ◌==◌, if◌then◌else◌, sum_of, IsOrdered, ◌≢◌,
  Bool-cases,
}
use risingwave_operator.ScaleView.{ScalePolicy}
use risingwave_operator.ScaleView.Split.{limit, share, split}

-- The limit of a group that is not negative.
unfoldable pub cap : ScalePolicy → ℕ
cap p = pos_part (limit p)

abbrev pub HasCap : ScalePolicy → Type 0
HasCap p = neg_part (limit p) ≡ 0

pub limit-cap : (p : ScalePolicy) → HasCap p → limit p ≡ pos (cap p)
unfolding cap
limit-cap p h = ground arith

-- The total over `n`, rounded up.
pub ceil : ℕ → ℕ → ℕ
ceil t n = if t % n == 0 then t / n else t / n + 1

pub portion : ℕ → ℕ → ℕ → ℕ
portion c n t = if leb (c * n) t then c else ceil t n

split-ceil : (t n : ℕ) → split (pos t) n ≡ pos (ceil t n)
unfolding split ceil ◌+ℤ◌
split-ceil t n = ground arith

pub share-portion : (c n t : ℕ) → share (pos c) n (pos t) ≡ pos (portion c n t)
unfolding share portion ◌*ℤ◌
share-portion c n t = ground (arith, split-ceil t n)

-- Rounding up covers the total, and no smaller share does.
pub ceil_enough : (t n : ℕ) → t ≤ ceil t (suc n) * suc n
unfolding ceil
ceil_enough t n = elim (Bool-cases (t % suc n == 0)) [
  | inl e ↦ rw e (grind (arith, div-add-mod' t (suc n)))
  | inr e ↦ rw e (omega (arith, lt-div-mul-add {a = t} {b = suc n} (omega arith)))
]

quot_lt : (t n c : ℕ) → t < c * suc n → t / suc n < c
quot_lt t n c h = lt_of_mul-lt-mul_right (suc n) (omega (arith, div-mul-le_self t (suc n)))

ceil_least : (t n c : ℕ) → t < c * suc n → ceil t (suc n) ≤ c
unfolding ceil
ceil_least t n c h = ground (arith, quot_lt t n c)

quot_lt_self : (t n : ℕ) → t % suc n ≢ 0 → t / suc n < t
quot_lt_self t n h =
    omega (arith, div-add-mod' t (suc n), le-mul_of_pos_right {m = suc n} (t / suc n) (omega arith))

ceil_le : (t n : ℕ) → ceil t (suc n) ≤ t
unfolding ceil
ceil_le t n = ground (arith, quot_lt_self t n, div-le_self t (suc n))

-- A portion is within the group's limit and within what is left.
pub portion_bounds : (c n t : ℕ) → (portion c (suc n) t ≤ c) × (portion c (suc n) t ≤ t)
unfolding portion
portion_bounds c n t =
    ground (arith, ceil_least t n c, ceil_le t n, le-mul_of_pos_right {m = suc n} c (omega arith))

-- If the groups cannot all take `c`, the portion covers an even share of what is left.
pub portion_covers : (c n t : ℕ) → t < c * suc n → t ≤ portion c (suc n) t * suc n
unfolding portion
portion_covers c n t h = ground (arith, ceil_enough t n)

pub portion_full : (c n t : ℕ) → c * suc n ≤ t → portion c (suc n) t ≡ c
unfolding portion
portion_full c n t h = ground arith

pub portion-zero : (c n : ℕ) → portion c (suc n) 0 ≡ 0
portion-zero c n = omega (arith, (portion_bounds c n 0).1)

-- What is left after the groups, and the total of their limits.
unfoldable pub left : List ScalePolicy → ℕ → ℕ
left [] t = t
left (g ∷ gs) t = left gs (t - portion (cap g) (length (g ∷ gs)) t)

abbrev pub caps : List ScalePolicy → ℕ
caps = sum_of cap

-- Limits do not fall along the list.
abbrev pub Rises : ScalePolicy → ScalePolicy → Type 0
Rises a b = cap a ≤ cap b

caps_at_least : (c : ℕ) (gs : List ScalePolicy) → All (λ g. c ≤ cap g) gs → c * length gs ≤ caps gs
unfolding sum_of
caps_at_least c [] h = omega arith
caps_at_least c (g ∷ gs) (hg, h) = omega (arith, caps_at_least c gs h)

pub left_none : (gs : List ScalePolicy) → left gs 0 ≡ 0
unfolding left
left_none [] = refl
left_none (g ∷ gs) = rw (portion-zero (cap g) (length gs)) (left_none gs)

-- One group, when the others' limits add up to `rest`, at least `c` each.
left_step :
    (c n t rest : ℕ)
    → c * n ≤ rest
    → (l : ℕ) → l ≡ t - portion c (suc n) t - rest
    → l ≡ t - (c + rest)
left_step c n t rest h l e = elim (Bool-cases (leb (c * suc n) t)) [
  | inl full ↦ omega (arith, portion_full c n t (ground arith))
  | inr short ↦ omega (
    arith,
    portion_covers c n t (ground arith),
    portion_bounds c n t,
    mul-le-mul_right n (portion_bounds c n t).0,
  )
]

-- Serving groups by rising limits, the replicas run out exactly when the limits add up to them.
pub left-caps : (gs : List ScalePolicy) (t : ℕ) → IsOrdered Rises gs → left gs t ≡ t - caps gs
unfolding left sum_of
left-caps [] t h = omega arith
left-caps (g ∷ gs) t (a, h) =
    left_step (cap g) (length gs) t (caps gs) (caps_at_least (cap g) gs a) (left gs _)
      (left-caps gs _ h)
