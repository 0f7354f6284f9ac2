-- ===== src/Policy/Decisions.antt =====
-- What a decision of the policy engine says: when it allows, what it records, and when there is none.
use openclaw_nie_guard.Common.{
  ◌≡◌, true≢false, Map, lookup, Option-cases, string_eq, refl, sym, subst, ◌∙◌, ◌↔◌, String, Option,
  none, some, Bool, true, false, not, ◌&&◌, ◌||◌, [], ◌∷◌, map, find, all, includes, ◌⊎◌, inl, inr,
  Bool-cases, ◌==◌, ◌or_else◌, arith,
}
use openclaw_nie_guard.Types.{
  Classification, regulated, classified_adjacent, classification_eq, mode_compatibility,
  operation_to_intent, operation_class_eq, intent_class_eq, ErrorCode,
}
use openclaw_nie_guard.Policy.{
  PolicyEngine, PolicyEvaluationInput, PolicyDecision, PredicateResult, PredicateName, role, scope,
  intent, taint, classification, resolve_role, evaluate, decide, label_is_tainted, is_outward,
  is_empty,
}
use openclaw_nie_guard.Policy.Roles.{
  RoleDefinition, Property, absent, inherited, own, object_prototype, default_role_matrix,
  get_property,
}

-- Every classification has a mode, so the classification predicate never fails.
is_empty-mode_compatibility : (c : Classification) → is_empty (mode_compatibility c) ≡ false
unfolding mode_compatibility
is_empty-mode_compatibility c = ground arith

-- A role permits a request: its operation is in the role, its intent fits its operation, and the
-- session's label lets the intent out.
abbrev pub Permits : RoleDefinition → PolicyEvaluationInput → Type 0
Permits r input =
    (includes r.allowed_operations input.operation_class ≡ true)
    × (includes (operation_to_intent input.operation_class) input.intent_class ≡ true)
    × ((label_is_tainted input.session_label && is_outward input.intent_class) ≡ false)

-- The decision that allows: the profile asked for or the role's, dual control by the role, endpoint attestation by the classification.
abbrev pub IsGrant : RoleDefinition → PolicyEvaluationInput → PolicyDecision → Type 0
IsGrant r input d =
    (d.profile ≡ (input.requested_profile or_else r.default_profile))
    × (d.requires_dual_control ≡ includes r.requires_dual_control input.operation_class)
    × (d.requires_endpoint_attestation
        ≡ (input.classification == regulated || input.classification == classified_adjacent))
    × (d.allowed_fhe_modes ≡ mode_compatibility input.classification)

decide_allowed :
    (r : RoleDefinition) (input : PolicyEvaluationInput) (d : PolicyDecision)
    → decide (some r) input ≡ some d
    → (d.allowed ≡ true → Permits r input × IsGrant r input d)
      × (Permits r input → d.allowed ≡ true)
decide_allowed r input d h = (
  λ a. ground (arith, is_empty-mode_compatibility input.classification),
  λ p. ground (arith, is_empty-mode_compatibility input.classification),
)

decide-none :
    (input : PolicyEvaluationInput) (d : PolicyDecision)
    → decide none input ≡ some d
    → d.allowed ≡ false
decide-none input d h = ground arith

abbrev decide_property : Property RoleDefinition → PolicyEvaluationInput → Option PolicyDecision
decide_property inherited input = none
decide_property absent input = decide none input
decide_property (own r) input = decide (some r) input

evaluate-resolved :
    (engine : PolicyEngine) (input : PolicyEvaluationInput) (p : Property RoleDefinition)
    → resolve_role engine input.role ≡ p
    → evaluate engine input ≡ decide_property p input
unfolding evaluate
evaluate-resolved engine input absent e = rw (e, evaluate)
evaluate-resolved engine input inherited e = rw (e, evaluate)
evaluate-resolved engine input (own r) e = rw (e, evaluate)

pub own-injective : {a b : RoleDefinition} → own a ≡ own b → a ≡ b
own-injective h = cc

-- A decision allows a request exactly if the role's name is a role of the bundle, or of the default matrix, that permits the request. And a decision denies, or its profile, its dual control, its attestation and its modes are those of that role and of the request's classification.
pub evaluate_allowed_iff :
    (engine : PolicyEngine) (input : PolicyEvaluationInput) (d : PolicyDecision)
    → evaluate engine input ≡ some d
    → ((d.allowed ≡ true)
        ↔ ((r : RoleDefinition) × (resolve_role engine input.role ≡ own r) × Permits r input))
      × ((d.allowed ≡ false)
          ⊎ ((r : RoleDefinition) × (resolve_role engine input.role ≡ own r) × IsGrant r input d))
evaluate_allowed_iff engine input d h = go (resolve_role engine input.role) refl
  where
    go :
        (p : Property RoleDefinition)
        → resolve_role engine input.role ≡ p
        → ((d.allowed ≡ true)
            ↔ ((r : RoleDefinition) × (resolve_role engine input.role ≡ own r) × Permits r input))
          × ((d.allowed ≡ false)
              ⊎ ((r : RoleDefinition) × (resolve_role engine input.role ≡ own r)
                  × IsGrant r input d))
    go absent e =
        let none_case : decide none input ≡ some d =
          sym (evaluate-resolved engine input absent e) ∙ h in
        let denies = decide-none input d none_case in
        (((λ a. cc denies), λ (r, e', q). cc), inl denies)
    go inherited e =
        let no_case : none ≡ some d = sym (evaluate-resolved engine input inherited e) ∙ h in cc
    go (own r) e =
        let case_own : decide (some r) input ≡ some d =
          sym (evaluate-resolved engine input (own r) e) ∙ h in
        let (to, from) = decide_allowed r input d case_own in
        (
          (
            (λ a. (r, e, (to a).0)),
            λ (r', e', p). from (subst (λ x. Permits x input) (own-injective (sym e' ∙ e)) p),
          ),
          elim (Bool-cases d.allowed) [
            | inl allows ↦ inr (r, e, (to allows).1)
            | inr denies ↦ inl denies
          ],
        )

-- The role of this name in the bundle, or in the default matrix where no bundle is loaded.
abbrev pub named_role : PolicyEngine → String → Option RoleDefinition
named_role engine name = elim engine.bundle [
  | none ↦ lookup name default_role_matrix
  | some bundle ↦ lookup name bundle.roles
]

-- The names of the members that every object inherits.
abbrev pub IsInherited : String → Type 0
IsInherited name =
    includes
      ("constructor" ∷ "__defineGetter__" ∷ "__defineSetter__" ∷ "hasOwnProperty"
        ∷ "__lookupGetter__" ∷ "__lookupSetter__" ∷ "isPrototypeOf" ∷ "propertyIsEnumerable"
        ∷ "toString" ∷ "valueOf" ∷ "__proto__" ∷ "toLocaleString" ∷ [])
      name
    ≡ true

property_inherited :
    (roles : Map String RoleDefinition) (name : String)
    → (get_property name roles ≡ inherited) ↔ ((lookup name roles ≡ none) × IsInherited name)
unfolding get_property
property_inherited roles name = elim (Option-cases (lookup name roles)) [
  | inr (r, found) ↦
      (λ e. absurd (ground (arith, found, e)), λ (e, _). absurd (ground (arith, found, e)))
  | inl missing ↦ elim (Bool-cases (includes object_prototype name)) [
    | inl known ↦ (λ e. (missing, known), λ h. ground (arith, missing, known))
    | inr other ↦ (
      (λ e. absurd (ground (arith, missing, other, e))),
      λ (_, h). absurd (true≢false (sym h ∙ other)),
    )
  ]
]

role_inherited :
    (engine : PolicyEngine) (name : String)
    → (resolve_role engine name ≡ inherited) ↔ ((named_role engine name ≡ none) × IsInherited name)
unfolding resolve_role
role_inherited engine name = elim (Option-cases engine.bundle) [
  | inl e ↦ rw e (property_inherited default_role_matrix name)
  | inr (bundle, e) ↦ rw e (property_inherited bundle.roles name)
]

throws-inherited :
    (engine : PolicyEngine) (input : PolicyEvaluationInput)
    → (evaluate engine input ≡ none) ↔ (resolve_role engine input.role ≡ inherited)
unfolding evaluate
throws-inherited engine input = ((λ h. ground arith), λ h. ground arith)

-- There is no decision, since the source throws, exactly if neither the bundle, nor the default matrix where no bundle is loaded, has a role of the request's name, and the name is one of the twelve members that every object inherits, such as `constructor`.
pub evaluate_throws_iff :
    (engine : PolicyEngine) (input : PolicyEvaluationInput)
    → (evaluate engine input ≡ none)
      ↔ ((named_role engine input.role ≡ none) × IsInherited input.role)
evaluate_throws_iff engine input =
    let (to, from) = throws-inherited engine input in
    let (inside, back) = role_inherited engine input.role in
    ((λ e. inside (to e)), λ h. from (back h))

abbrev pub bind_code : Option PredicateResult → Option ErrorCode
bind_code none = none
bind_code (some p) = p.code

abbrev pub bind_reason : Option PredicateResult → Option String
bind_reason none = none
bind_reason (some p) = p.reason

-- Each predicate's own condition, which mentions none of the others.
abbrev pub role_resolves : PolicyEngine → PolicyEvaluationInput → Bool
role_resolves engine input = elim (resolve_role engine input.role) [ own r ↦ true | _ ↦ false ]

abbrev pub scope_holds : PolicyEngine → PolicyEvaluationInput → Bool
scope_holds engine input = elim (resolve_role engine input.role) [
  | own r ↦ includes r.allowed_operations input.operation_class
  | _ ↦ false
]

abbrev pub intent_holds : PolicyEvaluationInput → Bool
intent_holds input = includes (operation_to_intent input.operation_class) input.intent_class

abbrev pub taint_holds : PolicyEvaluationInput → Bool
taint_holds input = not (label_is_tainted input.session_label && is_outward input.intent_class)

-- Every decision records all five predicates in evaluation order, each with the result of its own condition whatever the others say; it allows exactly if none failed, and its code and reason are those of the first that failed.
pub evaluate_records_all :
    (engine : PolicyEngine) (input : PolicyEvaluationInput) (d : PolicyDecision)
    → evaluate engine input ≡ some d
    → (map {B = PredicateName × Bool} (λ p. (p.name, p.passed)) d.predicates
        ≡ (role, role_resolves engine input)
          ∷ (scope, scope_holds engine input)
          ∷ (intent, intent_holds input)
          ∷ (taint, taint_holds input)
          ∷ (classification, true)
          ∷ [])
      × (d.allowed ≡ all (λ p. p.passed) d.predicates)
      × (d.deny_reason_code ≡ bind_code (find (λ p. not p.passed) d.predicates))
      × (d.deny_reason ≡ bind_reason (find (λ p. not p.passed) d.predicates))
unfolding evaluate
evaluate_records_all engine input d h =
    ground (arith, is_empty-mode_compatibility input.classification)
