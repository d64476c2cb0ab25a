-- ===== src/ScaleView/Locks/Update.antt =====
-- Updating a lock, and sequences of calls (pkg/object/scale_view_lock_manager.go).
use mathlib.Core.List.{Perm}
use risingwave_operator.Prelude.{
  ℕ, zero, suc, ◌+◌, ◌≡◌, ◌∙◌, refl, ap, subst, inl, inr, eqb_ℤ, eqb_ℤ→eq, eqb_ℤ_refl, Bool, true,
  false, Option, none, some, List, [], ◌∷◌, map, arith, Bool-cases, get_elem?, length,
  IsOrdered-take-drop,
}
use risingwave_operator.Lo.{Lo, IsDocumented}
use risingwave_operator.ScaleView.{ScalePolicy, ScaleView, Lock}
use risingwave_operator.ScaleView.Split.{Replicas, split_replicas}
use risingwave_operator.ScaleView.Split.Grants.{group_names}
use risingwave_operator.ScaleView.Locks.{
  Outcome, ok, err, panic, is_lock_of, find_from, new_lock, get_scale_view_lock_index,
  get_scale_view_lock, set_lock, refreshed, grabbed, update_divided, update_lock, grab_or_update_at,
  grab_or_update_scale_view_lock_for, release_at, release_lock_for,
}
use risingwave_operator.ScaleView.Locks.Checks.{group_locks_for-map, lock_group_of}
use risingwave_operator.ScaleView.Locks.Exclusive.{
  IsExclusive, Replaces, locked_names, set_lock-IsExclusive, index_at,
}
use risingwave_operator.ScaleView.Locks.Grab.{grab-IsExclusive, grab-ok, grab-index}

-- The groups of the scale view are those that its lock, if there is one, holds already, in any order.
-- (The validating webhook refuses other changes of the groups.)
abbrev pub KeepsGroups : ScaleView → List Lock → Type 0
KeepsGroups sv locks =
    (l : Lock)
    → get_scale_view_lock sv locks ≡ some l
    → Perm (group_names sv.spec.scale_policy) (locked_names l.group_locks)

grabbed-ok :
    (r : Outcome (List Lock)) (after : List Lock) (b : Bool)
    → grabbed r ≡ ok (after, b)
    → r ≡ ok after
unfolding grabbed
grabbed-ok (ok locks) after b h = cc
grabbed-ok (err e) after b h = cc
grabbed-ok panic after b h = cc

pub locked_names-map :
    (m : Replicas) (ps : List ScalePolicy)
    → locked_names (map (lock_group_of m) ps) ≡ group_names ps
locked_names-map m [] = refl
locked_names-map m (p ∷ ps) = ap (λ r. p.group ∷ r) (locked_names-map m ps)

module _ (lo : Lo) (laws : IsDocumented lo) (sv : ScaleView) (locks : List Lock) where
  refreshed-Replaces :
      (l : Lock) (m : Replicas)
      → Perm (group_names sv.spec.scale_policy) (locked_names l.group_locks)
      → Replaces l (refreshed lo sv l m)
  unfolding refreshed
  refreshed-Replaces l m h = record {
    name = refl;
    component = refl;
    groups = rw (group_locks_for-map lo laws sv m, locked_names-map m sv.spec.scale_policy) h;
  }

  divided-IsExclusive :
      (i : ℕ) (l : Lock) (d : Option Replicas) (after : List Lock) (b : Bool)
      → Perm (group_names sv.spec.scale_policy) (locked_names l.group_locks)
      → get_elem? locks i ≡ some l
      → IsExclusive locks
      → update_divided lo sv locks i l d ≡ ok (after, b)
      → IsExclusive after
  unfolding update_divided
  divided-IsExclusive i l none after b n e x h = cc
  divided-IsExclusive i l (some m) after b n e x h =
      subst IsExclusive (cc)
        (set_lock-IsExclusive l (refreshed lo sv l m) i locks (refreshed-Replaces l m n) e x)

  update_same :
      (i : ℕ) (l : Lock) (after : List Lock) (b : Bool)
      → eqb_ℤ l.generation sv.generation ≡ true
      → update_lock lo sv locks i l ≡ ok (after, b)
      → locks ≡ after
  unfolding update_lock
  update_same i l after b s h = ground (arith, s)

  update_other :
      (i : ℕ) (l : Lock)
      → eqb_ℤ l.generation sv.generation ≡ false
      → update_divided lo sv locks i l (split_replicas lo sv) ≡ update_lock lo sv locks i l
  unfolding update_lock
  update_other i l s = rw s

  update-IsExclusive :
      (i : ℕ) (l : Lock) (after : List Lock) (b : Bool)
      → Perm (group_names sv.spec.scale_policy) (locked_names l.group_locks)
      → get_elem? locks i ≡ some l
      → IsExclusive locks
      → update_lock lo sv locks i l ≡ ok (after, b)
      → IsExclusive after
  update-IsExclusive i l after b n e x h = elim (Bool-cases (eqb_ℤ l.generation sv.generation)) [
    | inl s ↦ subst IsExclusive (update_same i l after b s h) x
    | inr s ↦ divided-IsExclusive i l _ after b n e x (update_other i l s ∙ h)
  ]

  at-IsExclusive :
      (r : Option (ℕ × Lock)) (after : List Lock) (b : Bool)
      → get_scale_view_lock_index sv locks ≡ r
      → KeepsGroups sv locks
      → IsExclusive locks
      → grab_or_update_at lo sv locks r ≡ ok (after, b)
      → IsExclusive after
  unfolding grab_or_update_at
  at-IsExclusive none after b i k x h =
      grab-IsExclusive lo sv locks after laws x (grabbed-ok _ after b h)
  at-IsExclusive (some (i, l)) after b j k x h =
      update-IsExclusive i l after b (k l (unfold get_scale_view_lock in rw j))
        (index_at sv locks i l j).0 x h

-- Grabbing or updating a lock keeps the lock records exclusive, if the scale view has the groups that
-- its lock holds already, in any order.
pub grab_or_update-IsExclusive :
    (lo : Lo) (sv : ScaleView) (locks after : List Lock) (updated : Bool)
    → IsDocumented lo
    → KeepsGroups sv locks
    → IsExclusive locks
    → grab_or_update_scale_view_lock_for lo sv locks ≡ ok (after, updated)
    → IsExclusive after
grab_or_update-IsExclusive lo sv locks after updated laws k x h =
    at-IsExclusive lo laws sv locks (get_scale_view_lock_index sv locks) after updated refl k x
      (unfold grab_or_update_scale_view_lock_for in h)

released-IsExclusive :
    (locks : List Lock) (r : Option (ℕ × Lock))
    → IsExclusive locks
    → IsExclusive (release_at locks r).0
unfolding release_at
released-IsExclusive locks none x = x
released-IsExclusive locks (some (i, l)) x = IsOrdered-take-drop _ i locks x

pub release-IsExclusive :
    (sv : ScaleView) (locks : List Lock)
    → IsExclusive locks
    → IsExclusive (release_lock_for sv locks).0
unfolding release_lock_for
release-IsExclusive sv locks x = released-IsExclusive locks (get_scale_view_lock_index sv locks) x

-- The calls of the controllers, of any scale views in any order. A call that fails changes nothing.
pub data Step (lo : Lo) : List Lock → List Lock → Type 0 where
  grabs :
      {locks after : List Lock} (sv : ScaleView) (updated : Bool)
      → KeepsGroups sv locks
      → grab_or_update_scale_view_lock_for lo sv locks ≡ ok (after, updated)
      → Step lo locks after
  releases :
      {locks after : List Lock} (sv : ScaleView)
      → after ≡ (release_lock_for sv locks).0
      → Step lo locks after

pub data Reach (lo : Lo) (start : List Lock) : List Lock → Type 0 where
  here : Reach lo start start
  next :
      {locks after : List Lock} → Reach lo start locks → Step lo locks after → Reach lo start after

Step-IsExclusive :
    (lo : Lo) (laws : IsDocumented lo) {locks after : List Lock}
    → Step lo locks after
    → IsExclusive locks
    → IsExclusive after
Step-IsExclusive lo laws (grabs {locks = l} {after = a} sv b k h) x =
    grab_or_update-IsExclusive lo sv l a b laws k x h
Step-IsExclusive lo laws (releases {locks = l} sv e) x = rw e (release-IsExclusive sv l x)

-- From any exclusive lock records, such as none, every sequence of calls that grab, update and release
-- locks, of any scale views, leads to exclusive lock records, provided that a scale view whose lock is
-- updated has the groups that this lock holds, in any order.
pub Reach-IsExclusive :
    (lo : Lo) {start locks : List Lock}
    → IsDocumented lo
    → IsExclusive start
    → Reach lo start locks
    → IsExclusive locks
Reach-IsExclusive lo laws x here = x
Reach-IsExclusive lo laws x (next r s) = Step-IsExclusive lo laws s (Reach-IsExclusive lo laws x r)

-- The lock that was found is found again, after another lock of the scale view is written over it.
find_from-set_lock :
    (sv : ScaleView) (r : Lock) (k : ℕ) (locks : List Lock) (i n : ℕ) (l : Lock)
    → is_lock_of sv r ≡ true
    → n ≡ k + i
    → find_from sv k locks ≡ some (n, l)
    → find_from sv k (set_lock i r locks) ≡ some (n, r)
unfolding find_from set_lock
find_from-set_lock sv r k [] i n l o e h = cc
find_from-set_lock sv r k (s ∷ locks) zero n l o e h = rw o (ap (λ j. some (j, r)) (omega arith))
find_from-set_lock sv r k (s ∷ locks) (suc i) n l o e h = elim (Bool-cases (is_lock_of sv s)) [
  | inl m ↦ absurd (ground (arith, m))
  | inr m ↦ rw m (find_from-set_lock sv r (suc k) locks i n l o (omega arith) (ground (arith, m)))
]

module _ (lo : Lo) (laws : IsDocumented lo) (sv : ScaleView) where
  -- The scale view has a lock of its own generation.
  pub record IsCurrent (locks : List Lock) : Type 0 where
    pub index : ℕ
    pub lock : Lock
    pub found : get_scale_view_lock_index sv locks ≡ some (index, lock)
    pub current : lock.generation ≡ sv.generation

  module _ (locks : List Lock) where
    refreshed-own :
        (l : Lock) (m : Replicas)
        → is_lock_of sv l ≡ true
        → is_lock_of sv (refreshed lo sv l m) ≡ true
    unfolding refreshed is_lock_of
    refreshed-own l m h = h

    divided-IsCurrent :
        (i : ℕ) (l : Lock) (d : Option Replicas) (after : List Lock) (b : Bool)
        → get_scale_view_lock_index sv locks ≡ some (i, l)
        → update_divided lo sv locks i l d ≡ ok (after, b)
        → IsCurrent after
    unfolding update_divided get_scale_view_lock_index
    divided-IsCurrent i l none after b j h = absurd (cc)
    divided-IsCurrent i l (some m) after b j h =
        let r = refreshed lo sv l m in
        subst IsCurrent (cc) (record {
          index = i;
          lock = r;
          found =
              find_from-set_lock sv r 0 locks i i l (refreshed-own l m (index_at sv locks i l j).1)
                (omega arith) j;
          current = unfold refreshed in refl;
        })

    at-IsCurrent :
        (r : Option (ℕ × Lock)) (after : List Lock) (b : Bool)
        → get_scale_view_lock_index sv locks ≡ r
        → grab_or_update_at lo sv locks r ≡ ok (after, b)
        → IsCurrent after
    unfolding grab_or_update_at
    at-IsCurrent none after b i h =
        let (m, d, c, e) = grab-ok lo sv locks after (grabbed-ok _ after b h) in
        record {
          index = length locks;
          lock = new_lock lo sv m;
          found = rw e (grab-index lo sv locks m laws c);
          current = unfold new_lock in refl;
        }
    at-IsCurrent (some (i, l)) after b j h = elim (Bool-cases (eqb_ℤ l.generation sv.generation)) [
      | inl s ↦
          subst IsCurrent (update_same lo laws sv locks i l after b s h)
            (record { index = i; lock = l; found = j; current = eqb_ℤ→eq _ _ s })
      | inr s ↦ divided-IsCurrent i l _ after b j (update_other lo laws sv locks i l s ∙ h)
    ]

current-unchanged :
    (lo : Lo) (sv : ScaleView) (locks : List Lock) (i : ℕ) (l : Lock)
    → get_scale_view_lock_index sv locks ≡ some (i, l)
    → l.generation ≡ sv.generation
    → grab_or_update_scale_view_lock_for lo sv locks ≡ ok (locks, false)
unfolding grab_or_update_scale_view_lock_for
current-unchanged lo sv locks i l f c =
    rw (f, grab_or_update_at, update_lock, c, eqb_ℤ_refl sv.generation)

-- When grabbing or updating a lock succeeds, the scale view then has a lock of its own generation, and
-- a second call for the same scale view changes nothing and reports that nothing was updated.
pub grab_or_update-settles :
    (lo : Lo) (sv : ScaleView) (locks after : List Lock) (updated : Bool)
    → IsDocumented lo
    → grab_or_update_scale_view_lock_for lo sv locks ≡ ok (after, updated)
    → (l : Lock) × (get_scale_view_lock sv after ≡ some l)
      × (l.generation ≡ sv.generation)
      × (grab_or_update_scale_view_lock_for lo sv after ≡ ok (after, false))
grab_or_update-settles lo sv locks after updated laws h =
    let c =
      at-IsCurrent lo laws sv locks (get_scale_view_lock_index sv locks) after updated refl
        (unfold grab_or_update_scale_view_lock_for in h) in
    (
      c.lock,
      (unfold get_scale_view_lock in rw c.found),
      c.current,
      current-unchanged lo sv after c.index c.lock c.found c.current,
    )
