-- ===== src/ScaleView/Split/Plan.antt =====
-- The map that the loops build, as a list of grants in the order in which they are made.
use mathlib.Core.List.{
  Mem, Nodup, Nodup-cons, mem-cons, mem-append_left, append_assoc, append-nil, map-append,
  perm_middle,
}
use mathlib.Core.List.Perm
use mathlib.Core.Logic.Or
use risingwave_operator.Prelude.{
  ℕ, zero, suc, ◌+◌, ◌-◌, ◌≤◌, ◌≡◌, refl, sym, ap, ◌∙◌, inl, inr, ℤ, pos, pos_part, neg_part, ◌+ℤ◌,
  ◌-ℤ◌, int32-pos, max_int32, List, [], ◌∷◌, ◌++◌, map, length, All, arith, String, str_eq,
  str_eq_iff, sum_of, Bool-cases, leb, false,
}
use risingwave_operator.ScaleView.{ScalePolicy}
use risingwave_operator.ScaleView.Split.{
  Replicas, Groups, put, fill_groups, zero_groups, fill_priority, groups_of, fill_priorities, sum32,
}
use risingwave_operator.ScaleView.Split.Shares.{
  cap, HasCap, limit-cap, left_none, portion, portion-zero, portion_bounds, share-portion, left,
}

unfoldable pub assign : List ScalePolicy → ℕ → Replicas
assign [] t = []
assign (g ∷ gs) t =
    let k = portion (cap g) (length (g ∷ gs)) t in (g.group, pos k) ∷ assign gs (t - k)

pub put_all : Replicas → Replicas → Replicas
put_all [] m = m
put_all ((k, v) ∷ es) m = put_all es (put k v m)

put_all-append : (xs ys m : Replicas) → put_all (xs ++ ys) m ≡ put_all ys (put_all xs m)
unfolding put_all
put_all-append [] ys m = refl
put_all-append ((k, v) ∷ xs) ys m = put_all-append xs ys (put k v m)

-- The grants of all priorities, the highest first, and what is left after them.
unfoldable pub plan : List (List ScalePolicy) → ℕ → Replicas
plan [] t = []
plan (gs ∷ ls) t = assign gs t ++ plan ls (left gs t)

unfoldable pub left_after : List (List ScalePolicy) → ℕ → ℕ
left_after [] t = t
left_after (gs ∷ ls) t = left_after ls (left gs t)

left-le : (gs : List ScalePolicy) (t : ℕ) → left gs t ≤ t
unfolding left
left-le [] t = omega arith
left-le (g ∷ gs) t = omega (arith, left-le gs (t - portion (cap g) (length (g ∷ gs)) t))

sub_pos : (t k : ℕ) → k ≤ t → pos t -ℤ pos k ≡ pos (t - k)
unfolding ◌-ℤ◌
sub_pos t k h = ground arith

fill_groups-assign :
    (gs : List ScalePolicy) (t : ℕ) (m : Replicas)
    → All HasCap gs
    → t ≤ max_int32
    → ◌≡◌ {A = ℤ × Replicas} (fill_groups gs (pos t) m) (pos (left gs t), put_all (assign gs t) m)
unfolding fill_groups assign left put_all
fill_groups-assign [] t m h b = refl
fill_groups-assign (g ∷ gs) t m (hg, h) b =
    let n : ℕ = length gs in
    let k : ℕ = portion (cap g) (suc n) t in
    rw
      (
        limit-cap g hg,
        share-portion (cap g) (suc n) t,
        sub_pos t k (portion_bounds (cap g) n t).1,
        int32-pos k (omega (arith, portion_bounds (cap g) n t)),
      )
      (fill_groups-assign gs (t - k) (put g.group (pos k) m) h (omega arith))

zero_groups-assign :
    (gs : List ScalePolicy) (m : Replicas) → zero_groups gs m ≡ put_all (assign gs 0) m
unfolding zero_groups assign put_all
zero_groups-assign [] m = refl
zero_groups-assign (g ∷ gs) m =
    rw (portion-zero (cap g) (length gs)) (zero_groups-assign gs (put g.group (pos 0) m))

fill_priority-assign :
    (gs : List ScalePolicy) (t : ℕ) (m : Replicas)
    → All HasCap gs
    → t ≤ max_int32
    → ◌≡◌ {A = ℤ × Replicas} (fill_priority gs (pos t) m) (pos (left gs t), put_all (assign gs t) m)
unfolding fill_priority
fill_priority-assign gs zero m h b = rw (zero_groups-assign gs m, left_none gs)
fill_priority-assign gs (suc t) m h b =
    let e : leb (suc t + 0) 0 ≡ false = ground arith in rw e (fill_groups-assign gs (suc t) m h b)

pub fill_priorities-plan :
    (groups : Groups) (ks : List ℤ) (t : ℕ) (m : Replicas)
    → All (λ k. All HasCap (groups_of groups k)) ks
    → t ≤ max_int32
    → fill_priorities groups ks (pos t) m ≡ put_all (plan (map (groups_of groups) ks) t) m
unfolding fill_priorities plan put_all
fill_priorities-plan groups [] t m h b = refl
fill_priorities-plan groups (k ∷ ks) t m (hk, h) b =
    let gs : List ScalePolicy = groups_of groups k in
    rw
      (
        fill_priority-assign gs t m hk b,
        put_all-append (assign gs t) (plan (map (groups_of groups) ks) (left gs t)) m,
      )
      (fill_priorities-plan groups ks (left gs t) (put_all (assign gs t) m) h
        (omega (arith, left-le gs t)))

abbrev pub names : Replicas → List String
names = map λ e. e.0

put_fresh : (k : String) (v : ℤ) (m : Replicas) → ¬ Mem k (names m) → put k v m ≡ m ++ (k, v) ∷ []
unfolding put
put_fresh k v [] h = refl
put_fresh k v ((j, w) ∷ m) h = elim (Bool-cases (str_eq j k)) [
  | inl e ↦ absurd (h (mem-cons.1 (Or.inl (sym ((str_eq_iff j k).0 e)))))
  | inr e ↦
      rw e (ap (λ (r : Replicas). (j, w) ∷ r) (put_fresh k v m (λ x. h (mem-cons.1 (Or.inr x)))))
]

-- Grants to distinct groups build the map that lists them.
put_all_fresh : (es m : Replicas) → Nodup (names m ++ names es) → put_all es m ≡ m ++ es
unfolding put_all
put_all_fresh [] m h = sym (append-nil m)
put_all_fresh ((k, v) ∷ es) m h =
    rw
      (put_fresh k v m (λ x.
        (Nodup-cons.0 (Perm.nodup (perm_middle (names m) (names es)) h)).0
          (mem-append_left (names es) x)))
      (put_all_fresh es (m ++ (k, v) ∷ []) (rw (map-append, append_assoc) h) ∙ append_assoc m _ es)

pub put_all-nil : (es : Replicas) → Nodup (names es) → put_all es [] ≡ es
put_all-nil es h = put_all_fresh es [] h

-- The total of the values.
abbrev pub total : Replicas → ℕ
total = sum_of λ e. pos_part e.1

abbrev pub IsGrant : String × ℤ → Type 0
IsGrant e = neg_part e.1 ≡ 0

add_pos : (a b : ℕ) → pos a +ℤ pos b ≡ pos (a + b)
unfolding ◌+ℤ◌
add_pos a b = ground arith

-- In int32 the sum is exact, if it fits.
pub sum32-total :
    (es : Replicas) (acc : ℕ)
    → All IsGrant es
    → acc + total es ≤ max_int32
    → sum32 (pos acc) es ≡ pos (acc + total es)
unfolding sum32 sum_of
sum32-total [] acc h b = ap pos (omega arith)
sum32-total ((k, pos v) ∷ es) acc (_, h) b =
    rw (add_pos acc v, int32-pos (acc + v) (omega arith))
      (sum32-total es (acc + v) h (omega arith) ∙ ap pos (omega arith))
sum32-total ((k, ℤ.negsuc v) ∷ es) acc (e, h) b = absurd (omega arith)
