-- ===== src/ScaleView/Defaulting/Reads.antt =====
-- Reading replicas into a scale view (pkg/webhook/risingwave_scale_view_mutating_webhook.go).
use risingwave_operator.Prelude.{
  ◌+ℤ◌, int32, ltb_ℤ, ℕ, suc, ℤ, pos, ◌≡◌, refl, ap, subst, inl, inr, Bool, true, false, Option,
  none, some, List, [], ◌∷◌, String, str_eq, if◌then◌else◌, Bool-cases,
}
use risingwave_operator.Lo.{Lo}
use risingwave_operator.ScaleView.{ScalePolicy, ScaleView}
use risingwave_operator.ScaleView.Helper.{RisingWave, read_replicas}
use risingwave_operator.ScaleView.Defaulting.{
  Answer, found, DefaultError, defaulted, refused, out_of_range, exceeds, policy_errors, add_read,
  with_errors, read_policies, filled, finish_read, read_with, read_group_replicas_from_risingwave,
  default_policies, select, set_label_selector, set_default,
}

-- The replicas are within the limit, if there is one.
abbrev pub Within : Option ℤ → ℤ → Type 0
Within none r = Unit {0}
Within (some limit) r = ltb_ℤ limit r ≡ false

-- The groups of the policies are found, with replicas within the policies' limits, and the replicas add
-- up, from the first to the last and in int32, from the first number to the last.
abbrev pub SumsUp : RisingWave → String → ℤ → List ScalePolicy → ℤ → Type 0
SumsUp risingwave component total [] sum = sum ≡ total
SumsUp risingwave component total (p ∷ ps) sum =
    (r : ℤ) × (read_replicas risingwave component p.group ≡ some (some r))
    × Within p.max_replicas r
    × SumsUp risingwave component (int32 (total +ℤ r)) ps sum

module _ (risingwave : RisingWave) (component : String) where
  within : (limit : Option ℤ) (r : ℤ) → exceeds limit r ≡ false → Within limit r
  within none r h = tt
  within (some limit) r h = h

  one-read :
      (i : ℕ) (p : ScalePolicy) (r : Option (Option ℤ))
      → policy_errors i p r ≡ some []
      → (n : ℤ) × (r ≡ some (some n)) × Within p.max_replicas n
  one-read i p none h = cc
  one-read i p (some none) h = cc
  one-read i p (some (some n)) h =
      (n, refl, within p.max_replicas n (in_range (exceeds p.max_replicas n) h))
    where
      in_range :
          (b : Bool)
          → ◌≡◌ {A = Option (List DefaultError)}
              (some (if b then out_of_range i n ∷ [] else []))
              (some [])
          → b ≡ false
      in_range true k = cc
      in_range false k = refl

  both-parts :
      (es : Option (List DefaultError)) (rest : Option (ℤ × List DefaultError)) (t : ℤ)
      → with_errors es rest ≡ some (t, [])
      → (es ≡ some []) × (rest ≡ some (t, []))
  both-parts none rest t h = cc
  both-parts (some es) none t h = cc
  both-parts (some []) (some (u, [])) t h = (refl, h)
  both-parts (some []) (some (u, m ∷ ms)) t h = cc
  both-parts (some (e ∷ es)) (some (u, more)) t h = cc

  read_policies-SumsUp :
      (i : ℕ) (total t : ℤ) (ps : List ScalePolicy)
      → read_policies risingwave component i total ps ≡ some (t, [])
      → SumsUp risingwave component total ps t
  unfolding read_policies
  read_policies-SumsUp i total t [] h = cc
  read_policies-SumsUp i total t (p ∷ ps) h =
      let r = read_replicas risingwave component p.group in
      let (a, b) =
        both-parts (policy_errors i p r)
          (read_policies risingwave component (suc i) (add_read total r) ps) t h in
      let (n, e, w) = one-read i p r a in
      let more = read_policies-SumsUp (suc i) (add_read total r) t ps b in
      (n, e, w, subst (λ u. SumsUp risingwave component u ps t) (ap (add_read total) e) more)

-- The scale view points at the RisingWave, its groups are there and within their limits, and its
-- replicas are the sum of theirs.
abbrev pub HasRead : RisingWave → ScaleView → Type 0
HasRead risingwave sv =
    (sv.spec.target_ref.uid ≡ risingwave.uid)
    × (sum : ℤ) × (sv.spec.replicas ≡ some sum)
    × SumsUp risingwave sv.spec.target_ref.component (pos 0) sv.spec.scale_policy sum

module _ (lo : Lo) (risingwave : RisingWave) (obj sv : ScaleView) where
  finish-HasRead :
      (ps : List ScalePolicy) (r : Option (ℤ × List DefaultError))
      → read_policies risingwave obj.spec.target_ref.component 0 (pos 0) ps ≡ r
      → select lo (finish_read risingwave obj ps r) ≡ defaulted sv
      → HasRead risingwave sv
  unfolding set_label_selector
  finish-HasRead ps none e h = cc
  finish-HasRead ps (some (t, [])) e h =
      let a = read_policies-SumsUp risingwave obj.spec.target_ref.component 0 (pos 0) t ps e in
      let same : set_label_selector lo (filled risingwave obj ps t) ≡ sv = cc in
      subst (HasRead risingwave) same (refl, t, refl, a)
  finish-HasRead ps (some (t, x ∷ xs)) e h = cc

  read-HasRead :
      (o : Option (List ScalePolicy))
      → select lo (read_with risingwave obj o) ≡ defaulted sv
      → HasRead risingwave sv
  read-HasRead none h = cc
  read-HasRead (some ps) h = finish-HasRead ps _ refl h

-- If the RisingWave is found and defaulting succeeds, then the scale view has the RisingWave's UID,
-- every group it names is found with replicas within the group's limit, and its replicas are their sum
-- in int32.
pub set_default-HasRead :
    (lo : Lo) (get : String → String → Answer) (risingwave : RisingWave) (obj sv : ScaleView)
    → get obj.namespace obj.spec.target_ref.name ≡ found risingwave
    → set_default lo get obj ≡ defaulted sv
    → HasRead risingwave sv
unfolding set_default read_group_replicas_from_risingwave
set_default-HasRead lo get risingwave obj sv e h =
    elim (Bool-cases (str_eq obj.spec.target_ref.uid "")) [
      | inl u ↦ read-HasRead lo risingwave obj sv (default_policies risingwave obj) (rw (u, e) at h)
      | inr u ↦ let k : refused _ ≡ defaulted sv = (rw u at h) in cc
    ]
