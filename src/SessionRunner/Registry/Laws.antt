-- ===== src/SessionRunner/Registry/Laws.antt =====
-- What the registry of a session holds once it is normalised.
use fireviewer_orchestrator.Common.{
  String, Bool, true, some, List, [], ◌∷◌, ◌≡◌, arith, subst, Bool-cases, inl, inr, eq_iff, sym,
}
use fireviewer_orchestrator.Common.Order.{◌==◌, string_ord}
use fireviewer_orchestrator.Common.Dict.{lookup, put, lookup-put}
use fireviewer_orchestrator.Contracts.{ModelSpec, ModelGroupSpec}
use fireviewer_orchestrator.SessionRunner.Registry.{RegistryValue, normalized, group_of, normalize}

module _ (primary : String → ModelSpec → ModelGroupSpec) (validate : ModelGroupSpec → Bool) where
  -- every group stands under its own role and is valid
  unfoldable pub WellFormed : List (String × ModelGroupSpec) → Type 0
  WellFormed d =
      (k : String) (g : ModelGroupSpec)
      → lookup k d ≡ some g
      → ((g.role == k) ≡ true) × (validate g ≡ true)

  put-WellFormed :
      (role : String) (group : ModelGroupSpec) (d : List (String × ModelGroupSpec))
      → (group.role == role) ≡ true
      → validate group ≡ true
      → WellFormed d
      → WellFormed (put role group d)
  unfolding WellFormed
  put-WellFormed role group d r v w k g h = elim (Bool-cases (k == role)) [
    | inl same ↦
        let e : group ≡ g = ground (arith, lookup-put role group d k) in
        let q : k ≡ role = (eq_iff k role).0 same in
        subst (λ t. ((t.role == k) ≡ true) × (validate t ≡ true)) e
          (subst (λ t. (group.role == t) ≡ true) (sym q) r, v)
    | inr other ↦ w k g (ground (arith, lookup-put role group d k))
  ]

  -- A registry that is accepted holds each group under the group's own role, and each group is valid.
  pub normalize-WellFormed :
      (d : List (String × ModelGroupSpec)) (registry : List (String × RegistryValue))
      (e : List (String × ModelGroupSpec))
      → WellFormed d
      → normalize primary validate d registry ≡ normalized e
      → WellFormed e
  unfolding normalize
  normalize-WellFormed d [] e w h = let p : d ≡ e = ground arith in subst WellFormed p w
  normalize-WellFormed d ((role, value) ∷ registry) e w h =
      let group = group_of primary role value in
      elim (Bool-cases (group.role == role)) [
        | inr other ↦ absurd (ground arith)
        | inl r ↦ elim (Bool-cases (validate group)) [
          | inr bad ↦ absurd (ground arith)
          | inl v ↦
              normalize-WellFormed (put role group d) registry e (put-WellFormed role group d r v w)
                (ground arith)
        ]
      ]
