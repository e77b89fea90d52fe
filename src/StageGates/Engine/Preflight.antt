-- ===== src/StageGates/Engine/Preflight.antt =====
-- What `preflight` promises.
use fireviewer_orchestrator.Common.{
  ℕ, ◌≤◌, ◌<◌, Bool, true, false, not, none, some, List, [], ◌∷◌, ◌++◌, ◌≡◌, ◌&&◌, ◌||◌, ◌↔◌, inl,
  inr, refl, sym, ap, ◌∙◌, subst, fun_ext, keep, nonempty, ltb, ltb→lt, arith, Bool-cases, ◌⊎◌,
}
use fireviewer_orchestrator.Common.Order.{Ord}
use fireviewer_orchestrator.Common.Sets.{
  contains, minus, intersection, contains-ordered, contains-minus, contains-append,
  contains-intersection, nonempty-false_iff, nonempty-ordered, ordered-IsSorted, IsSorted,
  ordered-ext, eqb_refl,
}
use fireviewer_orchestrator.Contracts.{CapabilityNames, StageContract, StageRole}
use fireviewer_orchestrator.StageGates.{
  GateDecision, is_block, missing_requirements, is_not_applicable, direct_input,
}
use fireviewer_orchestrator.StageGates.Engine.{preflight}

module _ {Cap : Type 0} ⦃o : Ord Cap⦄ where
  -- Every listed requirement is at hand, and one of the alternatives if there are any.
  pub record Satisfied (contract : StageContract Cap) (capabilities : List Cap) : Type 0 where
    pub every : (c : Cap) → contains c contract.required_all ≡ true → contains c capabilities ≡ true
    pub one_of :
        (contract.required_any ≡ [])
        ⊎ ((c : Cap) × (contains c contract.required_any ≡ true) × (contains c capabilities ≡ true))

  module _ (contract : StageContract Cap) (capabilities : List Cap) where
    -- the alternatives are asked for and none is at hand
    abbrev lacks_any : Bool
    lacks_any =
        nonempty contract.required_any
        && not (nonempty (intersection capabilities contract.required_any))

    contains-missing :
        (c : Cap)
        → contains c (missing_requirements contract capabilities) ≡ (
            (contains c contract.required_all && not (contains c capabilities))
            || (lacks_any && contains c contract.required_any))
    unfolding missing_requirements
    contains-missing c = elim (Bool-cases lacks_any) [
      | inl some_any ↦ rw some_any (
          contains-ordered c (minus contract.required_all capabilities ++ contract.required_any)
          ∙ ground (
            arith,
            contains-append c (minus contract.required_all capabilities) contract.required_any,
            contains-minus c contract.required_all capabilities,
          ))
      | inr none_any ↦ rw none_any (
          contains-ordered c (minus contract.required_all capabilities)
          ∙ ground (arith, contains-minus c contract.required_all capabilities))
    ]

    some_member : (xs : List Cap) → nonempty xs ≡ true → (c : Cap) × (contains c xs ≡ true)
    some_member [] h = absurd (cc)
    some_member (x ∷ xs) h = (x, rw (eqb_refl x))

    Satisfied-of_none_missing :
        nonempty (missing_requirements contract capabilities) ≡ false
        → Satisfied contract capabilities
    Satisfied-of_none_missing h =
        let absent : (c : Cap) → contains c (missing_requirements contract capabilities) ≡ false =
          (nonempty-false_iff (missing_requirements contract capabilities)).0 h in
        record {
          every = λ c r. ground (arith, absent c, contains-missing c);
          one_of = one absent contract.required_any refl (Bool-cases lacks_any);
        }
      where
        one :
            ((c : Cap) → contains c (missing_requirements contract capabilities) ≡ false)
            → (xs : List Cap) → xs ≡ contract.required_any
            → (lacks_any ≡ true) ⊎ (lacks_any ≡ false)
            → (contract.required_any ≡ [])
              ⊎ ((c : Cap) × (contains c contract.required_any ≡ true)
                  × (contains c capabilities ≡ true))
        one absent [] e l = inl (sym e)
        one absent (x ∷ xs) e (inl l) =
            let mem : contains x contract.required_any ≡ true =
              subst (λ t. contains x t ≡ true) e (rw (eqb_refl x)) in
            absurd (ground (arith, absent x, contains-missing x, mem, l))
        one absent (x ∷ xs) e (inr l) =
            let some_any : nonempty contract.required_any ≡ true = sym (ap nonempty e) in
            let (c, m) =
              some_member (intersection capabilities contract.required_any) (ground arith) in
            let s = contains-intersection c capabilities contract.required_any in
            inr (c, ground (arith, m, s), ground (arith, m, s))

    none_missing_of_Satisfied :
        Satisfied contract capabilities
        → nonempty (missing_requirements contract capabilities) ≡ false
    none_missing_of_Satisfied s =
        (nonempty-false_iff (missing_requirements contract capabilities)).1 (λ c. absent c s.one_of)
      where
        enough :
            (d : Cap)
            → contains d contract.required_any ≡ true
            → contains d capabilities ≡ true
            → lacks_any ≡ false
        enough d p q =
            elim (Bool-cases (nonempty (intersection capabilities contract.required_any))) [
              | inl some_common ↦ ground arith
              | inr none_common ↦ absurd (
                  ground (
                    arith,
                    (nonempty-false_iff (intersection capabilities contract.required_any)).0
                        none_common d,
                    contains-intersection d capabilities contract.required_any,
                  ))
            ]

        absent :
            (c : Cap)
            → ((contract.required_any ≡ [])
                ⊎ ((d : Cap) × (contains d contract.required_any ≡ true)
                    × (contains d capabilities ≡ true)))
            → contains c (missing_requirements contract capabilities) ≡ false
        absent c (inl e) =
            let f : contains c contract.required_any ≡ false = ap (contains c) e in
            ground (arith, contains-missing c, s.every c)
        absent c (inr (d, p, q)) = ground (arith, contains-missing c, s.every c, enough d p q)

    -- A capability that the stage asks for and does not get: one that it always requires, or any of
    -- the alternatives of which none is at hand.
    abbrev pub Lacks : Cap → Type 0
    Lacks c =
        ((contains c contract.required_all ≡ true) × (contains c capabilities ≡ false))
        ⊎ ((contains c contract.required_any ≡ true)
            × ((d : Cap)
                → contains d contract.required_any ≡ true
                → contains d capabilities ≡ false))

    none_common_iff :
        (nonempty (intersection capabilities contract.required_any) ≡ false)
        ↔ ((d : Cap) → contains d contract.required_any ≡ true → contains d capabilities ≡ false)
    none_common_iff = (
      λ h d k. ground (
        arith,
        (nonempty-false_iff (intersection capabilities contract.required_any)).0 h d,
        contains-intersection d capabilities contract.required_any,
      ),
      λ h. (nonempty-false_iff (intersection capabilities contract.required_any)).1 λ d.
          elim (Bool-cases (contains d contract.required_any)) [
            | inl asked ↦
                ground
                  (arith, h d asked, contains-intersection d capabilities contract.required_any)
            | inr other ↦ ground (arith, contains-intersection d capabilities contract.required_any)
          ],
    )

    nonempty-contains : (xs : List Cap) (c : Cap) → contains c xs ≡ true → nonempty xs ≡ true
    nonempty-contains [] c h = absurd (ground (arith, h))
    nonempty-contains (x ∷ xs) c h = refl

    missing_iff :
        (c : Cap) → (contains c (missing_requirements contract capabilities) ≡ true) ↔ Lacks c
    missing_iff c = (
      λ h. elim (Bool-cases (contains c contract.required_all && not (contains c capabilities))) [
        | inl always ↦ inl (ground arith, ground arith)
        | inr other ↦ inr (
          ground (arith, contains-missing c),
          none_common_iff.0 (ground (arith, contains-missing c)),
        )
      ],
      λ k. elim k [
        | inl (asked, absent) ↦ ground (arith, contains-missing c)
        | inr (asked, none_at_hand) ↦ ground (
          arith,
          contains-missing c,
          none_common_iff.1 none_at_hand,
          nonempty-contains contract.required_any c asked,
        )
      ],
    )

    missing-IsSorted : IsSorted (missing_requirements contract capabilities)
    unfolding missing_requirements
    missing-IsSorted = ordered-IsSorted _

  -- A stage proceeds exactly when its input is within the limit and its requirements are met.
  pub preflight-proceed_iff :
      (n : CapabilityNames Cap) (contract : StageContract Cap) (capabilities : List Cap)
      (input_items : ℕ)
      → ((preflight n contract capabilities input_items).decision ≡ GateDecision.proceed)
        ↔ ((input_items ≤ contract.max_input_items) × Satisfied contract capabilities)
  unfolding preflight
  preflight-proceed_iff n contract capabilities input_items = (
    λ h. (ground arith, Satisfied-of_none_missing contract capabilities (ground arith)),
    λ h. ground (arith, none_missing_of_Satisfied contract capabilities h.1),
  )

  -- Preflight closes the way to later stages exactly when it fails terminally, and it fails
  -- terminally exactly on too many items or on a requirement that a blocking contract misses
  -- and may not skip.
  pub preflight-terminal_iff :
      (n : CapabilityNames Cap) (contract : StageContract Cap) (capabilities : List Cap)
      (input_items : ℕ)
      → let gate = preflight n contract capabilities input_items in
        ((gate.downstream_possible ≡ false) ↔ (gate.decision ≡ GateDecision.failed_terminal))
        × ((gate.decision ≡ GateDecision.failed_terminal) ↔ (
            (contract.max_input_items < input_items)
            ⊎ ((¬ Satisfied contract capabilities)
                × (is_block contract.failure_policy ≡ true)
                × ((contract.skip_when_not_applicable
                      && is_not_applicable n contract.role capabilities)
                    ≡ false))))
  unfolding preflight
  preflight-terminal_iff n contract capabilities input_items =
      let sat = Satisfied-of_none_missing contract capabilities in
      let none_missing = none_missing_of_Satisfied contract capabilities in
      (
        (ground arith, ground arith),
        (
          λ h. elim (Bool-cases (ltb contract.max_input_items input_items)) [
            | inl over ↦ inl (ltb→lt contract.max_input_items input_items over)
            | inr within ↦ inr (λ s. ground (arith, none_missing s), ground arith, ground arith)
          ],
          λ h. elim (Bool-cases (nonempty (missing_requirements contract capabilities))) [
            | inl some_missing ↦ ground arith
            | inr none_missing ↦ ground (arith, sat none_missing)
          ],
        ),
      )

  -- Within the input limit the record names exactly what is missing: a capability is listed if and
  -- only if the stage always requires it and it is not at hand, or it is one of the alternatives and
  -- none of them is at hand. The listing is strictly ascending.
  pub preflight-missing :
      (n : CapabilityNames Cap) (contract : StageContract Cap) (capabilities : List Cap)
      (input_items : ℕ)
      → input_items ≤ contract.max_input_items
      → let gate = preflight n contract capabilities input_items in
        ((c : Cap) → (contains c gate.missing_capabilities ≡ true) ↔ Lacks contract capabilities c)
        × IsSorted gate.missing_capabilities
  unfolding preflight
  preflight-missing n contract capabilities input_items within = (
    λ c. (
      λ h. (missing_iff contract capabilities c).0 (ground arith),
      λ k.
          let listed = (missing_iff contract capabilities c).1 k in
          ground (
            arith,
            nonempty-contains contract capabilities (missing_requirements contract capabilities) c
                listed,
          ),
    ),
    ground (arith, missing-IsSorted contract capabilities),
  )

  module _ (xs ys : List Cap) (same : (c : Cap) → contains c xs ≡ contains c ys) where
    same_tests : ◌≡◌ {A = Cap → Bool} (λ c. contains c xs) (λ c. contains c ys)
    same_tests = fun_ext same

    minus-ext : (zs : List Cap) → minus zs xs ≡ minus zs ys
    minus-ext zs = ap (λ (f : Cap → Bool). keep (λ x. not (f x)) zs) same_tests

    nonempty-intersection-ext :
        (zs : List Cap) → nonempty (intersection xs zs) ≡ nonempty (intersection ys zs)
    nonempty-intersection-ext zs =
        sym (nonempty-ordered (intersection xs zs))
        ∙ ap nonempty (
            ordered-ext (intersection xs zs) (intersection ys zs) (λ c.
              contains-intersection c xs zs
              ∙ ap (λ b. b && contains c zs) (same c)
              ∙ sym (contains-intersection c ys zs)))
        ∙ nonempty-ordered (intersection ys zs)

    missing_requirements-ext :
        (contract : StageContract Cap)
        → missing_requirements contract xs ≡ missing_requirements contract ys
    unfolding missing_requirements
    missing_requirements-ext contract =
        rw (minus-ext contract.required_all, nonempty-intersection-ext contract.required_any)

    is_not_applicable-ext :
        (n : CapabilityNames Cap) (role : StageRole)
        → is_not_applicable n role xs ≡ is_not_applicable n role ys
    unfolding is_not_applicable
    is_not_applicable-ext n role =
        ap (λ (f : Cap → Bool). elim (direct_input n role) [ none ↦ false | some c ↦ not (f c) ])
          same_tests

  -- The gate reads the set of capabilities, not the order in which they were collected.
  pub preflight-ext :
      (n : CapabilityNames Cap) (contract : StageContract Cap) (xs ys : List Cap) (input_items : ℕ)
      → ((c : Cap) → contains c xs ≡ contains c ys)
      → preflight n contract xs input_items ≡ preflight n contract ys input_items
  unfolding preflight
  preflight-ext n contract xs ys input_items same = rw (
    missing_requirements-ext xs ys same contract,
    is_not_applicable-ext xs ys same n contract.role,
    ordered-ext xs ys same,
  )
