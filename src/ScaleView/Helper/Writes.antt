-- ===== src/ScaleView/Helper/Writes.antt =====
-- Writing the replicas of a group, then reading them.
use risingwave_operator.Prelude.{
  ℕ, suc, ℤ, eqb_ℤ, eqb_ℤ→eq, ◌≡◌, ◌∙◌, refl, sym, ap, inl, inr, Bool, false, Option, none, some,
  List, [], ◌∷◌, String, str_eq, str_eq_iff, if◌then◌else◌, Bool-cases, Option-cases, arith, not,
  subst, ◌+◌,
}
use risingwave_operator.ScaleView.Helper.{
  NodeGroup, RisingWave, node_groups, with_node_groups, find_node_group, get_replicas_ptr,
  replicas_of, read_replicas, write_at, write_found, write_replicas,
}

abbrev lookup : List NodeGroup → String → Option ℤ
lookup groups group = replicas_of (find_node_group groups group 0)

-- The replicas found do not depend on where the count starts.
found-from :
    (groups : List NodeGroup) (group : String) (i j : ℕ)
    → replicas_of (find_node_group groups group i) ≡ replicas_of (find_node_group groups group j)
unfolding find_node_group
found-from [] group i j = refl
found-from (g ∷ groups) group i j = elim (Bool-cases (str_eq g.name group)) [
  | inl e ↦ rw e refl
  | inr e ↦ rw e (found-from groups group (suc i) (suc j))
]

-- The groups with the first group of a name rewritten.
update_group : List NodeGroup → String → ℤ → List NodeGroup
update_group [] group r = []
update_group (g ∷ groups) group r =
    let rest = update_group groups group r in
    if str_eq g.name group then record g { replicas = r } ∷ groups else g ∷ rest

abbrev place : ℕ → Option (NodeGroup × ℕ) → Option (NodeGroup × ℕ)
place k none = none
place k (some (g, i)) = some (g, k + i)

find-shift :
    (groups : List NodeGroup) (group : String) (k i : ℕ)
    → find_node_group groups group (k + i) ≡ place k (find_node_group groups group i)
unfolding find_node_group
find-shift [] group k i = refl
find-shift (g ∷ groups) group k i = elim (Bool-cases (str_eq g.name group)) [
  | inl e ↦ rw e refl
  | inr e ↦
      let s : suc (k + i) ≡ k + suc i = omega arith in rw (e, s) (find-shift groups group k (suc i))
]

abbrev replicas_of_group : Option ℤ → ℤ → Option ℤ
replicas_of_group none r = none
replicas_of_group (some old) r = some r

lookup-update :
    (groups : List NodeGroup) (group : String) (r : ℤ)
    → lookup (update_group groups group r) group ≡ replicas_of_group (lookup groups group) r
unfolding find_node_group update_group
lookup-update [] group r = refl
lookup-update (g ∷ groups) group r = elim (Bool-cases (str_eq g.name group)) [
  | inl e ↦ rw (e, e) refl
  | inr e ↦
      rw (e, e)
        (found-from (update_group groups group r) group 1 0
          ∙ lookup-update groups group r
          ∙ ap (λ o. replicas_of_group o r) (found-from groups group 0 1))
]

lookup-update_other :
    (groups : List NodeGroup) (group other : String) (r : ℤ)
    → str_eq group other ≡ false
    → lookup (update_group groups group r) other ≡ lookup groups other
unfolding find_node_group update_group
lookup-update_other [] group other r h = refl
lookup-update_other (g ∷ groups) group other r h = elim (Bool-cases (str_eq g.name group)) [
  | inl e ↦
      let same : g.name ≡ group = (str_eq_iff g.name group).0 e in
      let n : str_eq g.name other ≡ false = ap (λ t. str_eq t other) same ∙ h in rw (e, n) refl
  | inr e ↦ elim (Bool-cases (str_eq g.name other)) [
    | inl s ↦ rw (e, s) refl
    | inr s ↦
        rw (e, s)
          (found-from (update_group groups group r) other 1 0
            ∙ lookup-update_other groups group other r h
            ∙ found-from groups other 0 1)
  ]
]

write_at-update :
    (groups : List NodeGroup) (group : String) (r : ℤ) (g : NodeGroup) (i : ℕ)
    → find_node_group groups group 0 ≡ some (g, i)
    → write_at groups i r ≡ update_group groups group r
unfolding find_node_group write_at update_group
write_at-update [] group r g i h = cc
write_at-update (d ∷ groups) group r g i h = elim (Bool-cases (str_eq d.name group)) [
  | inl e ↦
      let k : ◌≡◌ {A = Option (NodeGroup × ℕ)} (some (d, 0)) (some (g, i)) = (rw e at h) in
      let z : i ≡ 0 = cc in rw (e, z) refl
  | inr e ↦
      let k : find_node_group groups group 1 ≡ some (g, i) = (rw e at h) in
      elim (Option-cases (find_node_group groups group 0)) [
        | inl n ↦
            let m : place 1 (find_node_group groups group 0) ≡ some (g, i) =
              sym (find-shift groups group 1 0) ∙ k in
            let m' : place 1 none ≡ some (g, i) = (rw n at m) in cc
        | inr ((g', i'), n) ↦
            let m : place 1 (find_node_group groups group 0) ≡ some (g, i) =
              sym (find-shift groups group 1 0) ∙ k in
            let m' : place 1 (some (g', i')) ≡ some (g, i) = (rw n at m) in
            let p : 1 + i' ≡ i = cc in
            let q : i ≡ suc i' = omega (arith, p) in
            rw (e, q) (ap (λ t. d ∷ t) (write_at-update groups group r g' i' n))
      ]
]

node_groups-with :
    (risingwave : RisingWave) (component : String) (old groups : List NodeGroup)
    → node_groups risingwave component ≡ some old
    → node_groups (with_node_groups risingwave component groups) component ≡ some groups
unfolding node_groups with_node_groups
node_groups-with risingwave component old groups h = elim (Bool-cases (str_eq component "meta")) [
  | inl e ↦ rw e refl
  | inr a ↦ elim (Bool-cases (str_eq component "frontend")) [
    | inl e ↦ rw (a, e) refl
    | inr b ↦ elim (Bool-cases (str_eq component "compactor")) [
      | inl e ↦ rw (a, b, e) refl
      | inr c ↦ elim (Bool-cases (str_eq component "compute")) [
        | inl e ↦ rw (a, b, c, e) refl
        | inr d ↦ let k : none ≡ some old = (rw (a, b, c, d) at h) in cc
      ]
    ]
  ]
]

-- Reading through the component's groups.
read-groups :
    (risingwave : RisingWave) (component group : String) (groups : List NodeGroup)
    → node_groups risingwave component ≡ some groups
    → read_replicas risingwave component group ≡ some (lookup groups group)
unfolding read_replicas get_replicas_ptr
read-groups risingwave component group groups h = rw h refl

-- What a write leaves: the new value, what other groups had, and whether it changed something.
abbrev pub Written : RisingWave → String → String → ℤ → ℤ → RisingWave × Bool → Type 0
Written risingwave component group old r w =
    (read_replicas w.0 component group ≡ some (some r))
    × (((other : String)
          → str_eq group other ≡ false
          → read_replicas w.0 component other ≡ read_replicas risingwave component other)
        × (w.1 ≡ not (eqb_ℤ old r)))

write_found-Written :
    (risingwave : RisingWave) (component group : String) (groups : List NodeGroup) (g : NodeGroup)
    (i : ℕ) (r : ℤ)
    → node_groups risingwave component ≡ some groups
    → find_node_group groups group 0 ≡ some (g, i)
    → Written risingwave component group g.replicas r
        (write_found risingwave component groups (some (g, i)) r)
unfolding write_found
write_found-Written risingwave component group groups g i r h k =
    elim (Bool-cases (eqb_ℤ g.replicas r)) [
      | inl e ↦
          let same : g.replicas ≡ r = eqb_ℤ→eq g.replicas r e in
          let here : read_replicas risingwave component group ≡ some (some r) =
            read-groups risingwave component group groups h
            ∙ ap (λ o. some (replicas_of o)) k
            ∙ ap (λ z. some (some z)) same in
          rw e (here, (λ other n. refl, refl))
      | inr e ↦
          let groups' = update_group groups group r in
          let after : node_groups (with_node_groups risingwave component (write_at groups i r))
                component
              ≡ some groups' =
            node_groups-with risingwave component groups (write_at groups i r) h
            ∙ ap some (write_at-update groups group r g i k) in
          let rw' = with_node_groups risingwave component (write_at groups i r) in
          let found : lookup groups group ≡ some g.replicas = ap replicas_of k in
          let here : read_replicas rw' component group ≡ some (some r) =
            read-groups rw' component group groups' after
            ∙ ap some (lookup-update groups group r ∙ ap (λ o. replicas_of_group o r) found) in
          rw e (
            here,
            (
              λ other n.
                  read-groups rw' component other groups' after
                  ∙ ap some (lookup-update_other groups group other r n)
                  ∙ sym (read-groups risingwave component other groups h),
              refl,
            ),
          )
    ]

-- If the component's groups hold a group with some replicas, then a write of that group succeeds, the
-- new replicas are read back, every other group reads as before, and the write reports a change exactly
-- if the replicas differ.
pub write_replicas-read_replicas :
    (risingwave : RisingWave) (component group : String) (old r : ℤ)
    → read_replicas risingwave component group ≡ some (some old)
    → (w : RisingWave × Bool) × (write_replicas risingwave component group r ≡ some w)
      × Written risingwave component group old r w
write_replicas-read_replicas risingwave component group old r h =
    elim (Option-cases (node_groups risingwave component)) [
      | inl e ↦
          let k : none ≡ some (some old) = (unfold read_replicas get_replicas_ptr in (rw e at h)) in
          cc
      | inr (groups, e) ↦
          let l : ◌≡◌ {A = Option (Option ℤ)} (some (lookup groups group)) (some (some old)) =
            sym (read-groups risingwave component group groups e) ∙ h in
          elim (Option-cases (find_node_group groups group 0)) [
            | inl n ↦
                let m : ◌≡◌ {A = Option (Option ℤ)} (some none) (some (some old)) = (rw n at l) in
                cc
            | inr ((g, i), n) ↦
                let m : ◌≡◌ {A = Option (Option ℤ)} (some (some g.replicas)) (some (some old)) =
                  (rw n at l) in
                let same : g.replicas ≡ old = cc in
                (
                  write_found risingwave component groups (some (g, i)) r,
                  written groups g i e n,
                  subst
                      (λ z.
                        Written risingwave component group z r
                          (write_found risingwave component groups (some (g, i)) r))
                      same (write_found-Written risingwave component group groups g i r e n),
                )
          ]
    ]
  where
    written :
        (groups : List NodeGroup) (g : NodeGroup) (i : ℕ)
        → node_groups risingwave component ≡ some groups
        → find_node_group groups group 0 ≡ some (g, i)
        → write_replicas risingwave component group r
          ≡ some (write_found risingwave component groups (some (g, i)) r)
    written groups g i e n =
        unfold write_replicas in
        rw e (ap (λ o. some (write_found risingwave component groups o r)) n)
