-- ===== src/RwManager/Conditions.antt =====
-- The conditions in memory as a map from types to conditions (pkg/object/risingwave_manager.go).
use risingwave_operator.Prelude.{
  ℕ, ◌≡◌, ◌∙◌, refl, sym, ap, Bool, false, Option, none, some, or_default, List, [], ◌∷◌, String,
  str_eq, str_eq_iff, if◌then◌else◌, Bool-cases, inl, inr, All, arith, equal, equal_sound,
}
use risingwave_operator.ScaleView.{Lock}
use risingwave_operator.RwManager.{
  InstanceStatus, Condition, Instance, Manager, find_condition, get_condition, without_condition,
  stamped, put_condition, update_status, update_condition, remove_condition,
  sync_observed_generation, keep_lock, instance_status_eq, new_risingwave_manager,
  update_remote_risingwave_status,
}

-- No condition of the type.
abbrev pub IsFree : String → List Condition → Type 0
IsFree kind = All (λ c. str_eq c.kind kind ≡ false)

-- Each type at most once.
abbrev pub IsMap : List Condition → Type 0
IsMap [] = Unit {0}
IsMap (c ∷ conditions) = IsFree c.kind conditions × IsMap conditions

find-put :
    (kind : String) (new : Condition) (conditions : List Condition)
    → find_condition kind (put_condition new conditions)
      ≡ (if str_eq new.kind kind then some new else find_condition kind conditions)
unfolding find_condition put_condition
find-put kind new [] = refl
find-put kind new (c ∷ conditions) = ground (
  arith,
  str_eq_iff new.kind kind,
  str_eq_iff c.kind new.kind,
  str_eq_iff c.kind kind,
  find-put kind new conditions,
)

find-IsFree :
    (kind : String) (conditions : List Condition)
    → IsFree kind conditions
    → find_condition kind conditions ≡ none
unfolding find_condition
find-IsFree kind [] h = refl
find-IsFree kind (c ∷ conditions) (a, h) = rw a (find-IsFree kind conditions h)

find-without :
    (kind other : String) (conditions : List Condition)
    → IsMap conditions
    → find_condition other (without_condition kind conditions)
      ≡ (if str_eq kind other then none else find_condition other conditions)
unfolding find_condition without_condition
find-without kind other [] m = ground arith
find-without kind other (c ∷ conditions) (f, m) = ground (
  arith,
  str_eq_iff kind other,
  str_eq_iff c.kind kind,
  str_eq_iff c.kind other,
  find-IsFree c.kind conditions f,
  find-without kind other conditions m,
)

put-IsFree :
    (kind : String) (new : Condition) (conditions : List Condition)
    → str_eq new.kind kind ≡ false
    → IsFree kind conditions
    → IsFree kind (put_condition new conditions)
unfolding put_condition
put-IsFree kind new [] n h = (n, tt)
put-IsFree kind new (c ∷ conditions) n (a, h) = elim (Bool-cases (str_eq c.kind new.kind)) [
  | inl e ↦ rw e (n, h)
  | inr e ↦ rw e (a, put-IsFree kind new conditions n h)
]

put-IsMap :
    (new : Condition) (conditions : List Condition)
    → IsMap conditions
    → IsMap (put_condition new conditions)
unfolding put_condition
put-IsMap new [] h = (tt, tt)
put-IsMap new (c ∷ conditions) (a, h) = elim (Bool-cases (str_eq c.kind new.kind)) [
  | inl e ↦ rw e (rw (← (str_eq_iff c.kind new.kind).0 e) a, h)
  | inr e ↦
      let n : str_eq new.kind c.kind ≡ false =
        ground (arith, str_eq_iff c.kind new.kind, str_eq_iff new.kind c.kind) in
      rw e (put-IsFree c.kind new conditions n a, put-IsMap new conditions h)
]

without-IsFree :
    (kind free : String) (conditions : List Condition)
    → IsFree free conditions
    → IsFree free (without_condition kind conditions)
unfolding without_condition
without-IsFree kind free [] h = tt
without-IsFree kind free (c ∷ conditions) (a, h) = elim (Bool-cases (str_eq c.kind kind)) [
  | inl e ↦ rw e h
  | inr e ↦ rw e (a, without-IsFree kind free conditions h)
]

without-IsMap :
    (kind : String) (conditions : List Condition)
    → IsMap conditions
    → IsMap (without_condition kind conditions)
unfolding without_condition
without-IsMap kind [] h = tt
without-IsMap kind (c ∷ conditions) (a, h) = elim (Bool-cases (str_eq c.kind kind)) [
  | inl e ↦ rw e h
  | inr e ↦ rw e (without-IsFree kind c.kind conditions a, without-IsMap kind conditions h)
]

stamped-kind :
    (now : ℕ) (observed : Option Condition) (condition : Condition)
    → (stamped now observed condition).kind ≡ condition.kind
unfolding stamped
stamped-kind now none condition = refl
stamped-kind now (some observed) condition =
    elim (Bool-cases (str_eq observed.status condition.status)) [
      | inl e ↦ rw e refl
      | inr e ↦ rw e refl
    ]

-- The object that was read has the condition with this status.
abbrev pub had_status : Option Condition → String → Bool
had_status none status = false
had_status (some c) status = str_eq c.status status

-- The condition with the time that is due.
abbrev pub timed : Bool → ℕ → Condition → Condition
timed had now condition = record condition {
  last_transition_time = if had then condition.last_transition_time else some now;
}

stamped-timed :
    (now : ℕ) (observed : Option Condition) (condition : Condition)
    → stamped now observed condition ≡ timed (had_status observed condition.status) now condition
unfolding stamped
stamped-timed now none condition = refl
stamped-timed now (some c) condition = elim (Bool-cases (str_eq c.status condition.status)) [
  | inl e ↦ rw e refl
  | inr e ↦ rw e refl
]

-- After an update of a condition the copy in memory has that condition for its type, with the time of
-- the update, or with the time that it came with if the object that was read has it with the same
-- status, and for every other type what it had.
pub get_condition-update_condition :
    (now : ℕ) (condition : Condition) (mgr : Manager) (kind : String)
    → get_condition (update_condition now condition mgr).mutable_risingwave kind ≡ (
        if str_eq condition.kind kind
        then some (
            timed
              (had_status (get_condition mgr.risingwave condition.kind) condition.status)
              now
              condition)
        else get_condition mgr.mutable_risingwave kind)
unfolding get_condition update_condition update_status
get_condition-update_condition now condition mgr kind =
    let new =
      stamped now (find_condition condition.kind mgr.risingwave.status.conditions) condition in
    find-put kind new mgr.mutable_risingwave.status.conditions
    ∙ ap
        (λ k.
          if str_eq k kind
          then some new
          else find_condition kind mgr.mutable_risingwave.status.conditions)
        (stamped-kind now _ condition)
    ∙ ap
        (λ c.
          if str_eq condition.kind kind
          then some c
          else find_condition kind mgr.mutable_risingwave.status.conditions)
        (stamped-timed now _ condition)

-- If no two conditions in memory have one type, then after removing a condition there is none of its
-- type, and for every other type what there was.
pub get_condition-remove_condition :
    (removed : String) (mgr : Manager) (kind : String)
    → IsMap mgr.mutable_risingwave.status.conditions
    → get_condition (remove_condition removed mgr).mutable_risingwave kind
      ≡ (if str_eq removed kind then none else get_condition mgr.mutable_risingwave kind)
unfolding get_condition remove_condition update_status
get_condition-remove_condition removed mgr kind h =
    find-without removed kind mgr.mutable_risingwave.status.conditions h

-- What the controllers do with a manager. The function that UpdateStatus is given may change the status in
-- any way that keeps the types of the conditions distinct.
pub data Step : Manager → Manager → Type 0 where
  syncs : (mgr : Manager) → Step mgr (sync_observed_generation mgr)
  removes : (mgr : Manager) (kind : String) → Step mgr (remove_condition kind mgr)
  updates :
      (mgr : Manager) (now : ℕ) (condition : Condition)
      → Step mgr (update_condition now condition mgr)
  keeps : (mgr : Manager) (locks : List Lock) → Step mgr (keep_lock locks mgr)
  changes :
      (mgr : Manager) (f : InstanceStatus → InstanceStatus)
      → ((s : InstanceStatus) → IsMap s.conditions → IsMap (f s).conditions)
      → Step mgr (update_status f mgr)

pub data Reach (start : Manager) : Manager → Type 0 where
  here : Reach start start
  next : {t u : Manager} → Reach start t → Step t u → Reach start u

Step-IsMap :
    {t u : Manager}
    → Step t u
    → IsMap t.mutable_risingwave.status.conditions
    → IsMap u.mutable_risingwave.status.conditions
unfolding sync_observed_generation remove_condition update_condition keep_lock update_status
Step-IsMap (syncs mgr) h = h
Step-IsMap (removes mgr kind) h = without-IsMap kind mgr.mutable_risingwave.status.conditions h
Step-IsMap (updates mgr now condition) h = put-IsMap _ mgr.mutable_risingwave.status.conditions h
Step-IsMap (keeps mgr locks) h = h
Step-IsMap (changes mgr f k) h = k mgr.mutable_risingwave.status h

Step-original : {t u : Manager} → Step t u → u.risingwave ≡ t.risingwave
unfolding sync_observed_generation remove_condition update_condition keep_lock update_status
Step-original (syncs mgr) = refl
Step-original (removes mgr kind) = refl
Step-original (updates mgr now condition) = refl
Step-original (keeps mgr locks) = refl
Step-original (changes mgr f k) = refl

reached :
    {s t : Manager}
    → IsMap s.mutable_risingwave.status.conditions
    → Reach s t
    → IsMap t.mutable_risingwave.status.conditions × (t.risingwave ≡ s.risingwave)
reached h here = (h, refl)
reached h (next r st) = let (m, e) = reached h r in (Step-IsMap st m, Step-original st ∙ e)

sent :
    (mgr : Manager)
    → or_default (update_remote_risingwave_status mgr) mgr.risingwave.status
      ≡ mgr.mutable_risingwave.status
unfolding update_remote_risingwave_status
sent mgr = elim (Bool-cases (equal mgr.mutable_risingwave.status mgr.risingwave.status)) [
  | inl e ↦ rw e (sym (equal_sound mgr.mutable_risingwave.status mgr.risingwave.status e))
  | inr e ↦ rw e refl
]

-- Start a manager on an object in which no two conditions have one type. Behind any sequence of its five
-- operations that change the status, where a function given to UpdateStatus keeps the types of conditions
-- distinct, no two conditions in memory have one type, and updating the remote status leaves the API
-- server, if it still has the object's status, with exactly the status in memory.
pub Reach-IsMap :
    (obj : Instance) (available : Bool) (mgr : Manager)
    → IsMap obj.status.conditions
    → Reach (new_risingwave_manager obj available) mgr
    → IsMap mgr.mutable_risingwave.status.conditions
      × (or_default (update_remote_risingwave_status mgr) obj.status
          ≡ mgr.mutable_risingwave.status)
unfolding new_risingwave_manager
Reach-IsMap obj available mgr h r = let (m, e) = reached h r in (m, rw (← e) (sent mgr))
