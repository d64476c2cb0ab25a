-- ===== src/RwWebhook/Updates.antt =====
-- Admitted updates and histories of them (pkg/webhook/risingwave_validating_webhook.go).
use risingwave_operator.Prelude.{
  ◌≡◌, ◌∙◌, subst, refl, Bool, true, false, ◌||◌, not, List, [], ◌∷◌, Option, none, some, equal,
  equal_sound, if◌then◌else◌,
}
use risingwave_operator.Stores.{meta_store_eq, state_store_eq, private_key_eq}
use risingwave_operator.UserWebhook.{FieldError}
use risingwave_operator.RwWebhook.{Object, Patterns, view}
use risingwave_operator.RwWebhook.Checks.{is_bypassed, validate_create}
use risingwave_operator.RwWebhook.Locks.{
  Answer, admitted, refused, crashed, answer, update_answer, admit_create, admit_update,
  then_answer, is_secret_store_change_allowed, is_private_key_set,
}
use risingwave_operator.RwWebhook.Held.{HoldsLocks, check_scale_views-HoldsLocks}

-- What no admitted update changes: the stores, and a private key once it is set.
pub record Keeps (old new : Object) : Type 0 where
  pub meta_store : old.meta_store ≡ new.meta_store
  pub state_store : old.state_store ≡ new.state_store
  pub private_key : is_private_key_set old.private_key ≡ true → old.private_key ≡ new.private_key

answer-admitted : (r : Option (List FieldError)) → answer r ≡ admitted → r ≡ some []
answer-admitted none h = cc
answer-admitted (some []) h = refl
answer-admitted (some (e ∷ es)) h = cc

abbrev Guarded : Bool → List FieldError → Answer → Answer
Guarded b errors rest = if not b then refused errors else rest

Guarded-admitted :
    (b : Bool) (errors : List FieldError) (rest : Answer)
    → Guarded b errors rest ≡ admitted
    → (b ≡ true) × (rest ≡ admitted)
Guarded-admitted true errors rest h = (refl, h)
Guarded-admitted false errors rest h = cc

allowed-keeps :
    (old new : Object)
    → is_secret_store_change_allowed old new ≡ true
    → is_private_key_set old.private_key ≡ true
    → old.private_key ≡ new.private_key
unfolding is_secret_store_change_allowed
allowed-keeps old new h k = equal_sound old.private_key new.private_key (either _ _ h k)
  where
    either : (a b : Bool) → (not a || b) ≡ true → a ≡ true → b ≡ true
    either true b h k = h
    either false b h k = cc

pub update_answer-admitted :
    (old new : Object)
    → update_answer old new ≡ admitted
    → Keeps old new × HoldsLocks (view old) (view new) new.scale_views
unfolding update_answer
update_answer-admitted old new h =
    let (a, h₁) = Guarded-admitted (equal old.meta_store new.meta_store) _ _ h in
    let (b, h₂) = Guarded-admitted (equal old.state_store new.state_store) _ _ h₁ in
    let (c, h₃) = Guarded-admitted (is_secret_store_change_allowed old new) _ _ h₂ in
    (
      record {
        meta_store = equal_sound old.meta_store new.meta_store a;
        state_store = equal_sound old.state_store new.state_store b;
        private_key = allowed-keeps old new c;
      },
      check_scale_views-HoldsLocks (view old) (view new) new.scale_views (answer-admitted _ h₃),
    )

then_answer-admitted : (a b : Answer) → then_answer a b ≡ admitted → (a ≡ admitted) × (b ≡ admitted)
then_answer-admitted admitted b h = (refl, h)
then_answer-admitted (refused errors) b h = cc
then_answer-admitted crashed b h = cc

not_bypassed :
    (b : Bool) (a : Answer) → b ≡ false → (if b then admitted else a) ≡ admitted → a ≡ admitted
not_bypassed true a e h = cc
not_bypassed false a e h = h

module _ (patterns : Patterns) (kruise : Bool) where
  -- An update that the webhook admits without a bypass is valid by itself, keeps the meta store, the
  -- state store and a private key that is set, and in each scale view of the new status either all
  -- locked groups have the replicas of their locks or all have the replicas that they had.
  pub admit_update-holds :
      (old new : Object)
      → is_bypassed new ≡ false
      → admit_update patterns kruise old new ≡ admitted
      → (validate_create patterns kruise new ≡ some [])
        × (Keeps old new × HoldsLocks (view old) (view new) new.scale_views)
  unfolding admit_update admit_create
  admit_update-holds old new b h =
      let e = not_bypassed (is_bypassed new) _ b h in
      let (c, u) =
        then_answer-admitted (admit_create patterns kruise new) (update_answer old new) e in
      (
        answer-admitted (validate_create patterns kruise new)
            (not_bypassed (is_bypassed new) _ b c),
        update_answer-admitted old new u,
      )

  -- A history of updates that the webhook admits without a bypass.
  pub data History : Object → Object → Type 0 where
    here : {u : Object} → History u u
    then_update :
        {u v w : Object}
        → is_bypassed v ≡ false
        → admit_update patterns kruise u v ≡ admitted
        → History v w
        → History u w

  -- No history of updates that are admitted without a bypass changes the meta store, the state store,
  -- or a private key that is set.
  pub History-Keeps : {u v : Object} → History u v → Keeps u v
  History-Keeps here = record { meta_store = refl; state_store = refl; private_key = λ _. refl }
  History-Keeps {u} (then_update {v = v} b h p) =
      let first = (admit_update-holds u v b h).1.0 in
      let rest = History-Keeps p in
      record {
        meta_store = first.meta_store ∙ rest.meta_store;
        state_store = first.state_store ∙ rest.state_store;
        private_key = λ k.
            first.private_key k
            ∙ rest.private_key
                (subst (λ key. is_private_key_set key ≡ true) (first.private_key k) k);
      }
