-- ===== src/Policy.antt =====
-- packages/policy-engine: role resolution and the evaluation of the five predicates (engine.ts,
-- types.ts, default-roles.ts). `none` as the result of `evaluate` is the TypeError that the source
-- throws when the role's name is a member that every object inherits.
pub mod Roles
pub mod Decisions
pub mod Taint
use openclaw_nie_guard.Common.{
  String, Option, none, some, Bool, true, false, not, ◌&&◌, ◌||◌, List, [], ◌∷◌, map, any, find,
  includes, ◌==◌, if◌then◌else◌, ◌or_else◌, Map,
}
use openclaw_nie_guard.Types.{
  OperationClass, operation_class_eq, PolicyProfile, strict, IntentClass, intent_class_eq, export,
  escalate, operation_to_intent, Classification, classification_eq, regulated, classified_adjacent,
  FheMode, mode_compatibility, ErrorCode, role_invalid, scope_denied, intent_drift,
  classification_violation, concat, comma_separated, operation_name, intent_name,
  classification_name, origin_name,
}
use openclaw_nie_guard.Lineage.{Label, is_tainted}
use openclaw_nie_guard.Policy.Roles.{
  RoleDefinition, default_role_matrix, Property, absent, inherited, own, get_property,
}

-- The part of a `PolicyBundle` that the engine reads.
pub record PolicyBundle : Type 0 where
  pub roles : Map String RoleDefinition

pub record PolicyEngine : Type 0 where
  pub bundle : Option PolicyBundle

pub load_bundle : PolicyEngine → PolicyBundle → PolicyEngine
load_bundle engine bundle = record { bundle = some bundle }

pub record PolicyEvaluationInput : Type 0 where
  pub subject_id : String
  pub role : String
  pub operation_class : OperationClass
  pub target_class : String
  pub classification : Classification
  pub intent_class : IntentClass
  pub requested_profile : Option PolicyProfile
  pub session_label : Option Label
  pub session_ancestors : Option (List String)

pub data PredicateName : Type 0 where
  role scope intent taint classification : PredicateName

pub record PredicateResult : Type 0 where
  pub name : PredicateName
  pub passed : Bool
  pub reason : Option String
  pub code : Option ErrorCode
  pub ancestors : Option (List String)

pub record PolicyDecision : Type 0 where
  pub allowed : Bool
  pub profile : PolicyProfile
  pub requires_dual_control : Bool
  pub requires_endpoint_attestation : Bool
  pub allowed_fhe_modes : List FheMode
  pub deny_reason_code : Option ErrorCode
  pub deny_reason : Option String
  pub predicates : List PredicateResult

abbrev pass : PredicateName → PredicateResult
pass name = record { name = name; passed = true; reason = none; code = none; ancestors = none }

abbrev fail : PredicateName → String → ErrorCode → PredicateResult
fail name reason code = record {
  name = name;
  passed = false;
  reason = some reason;
  code = some code;
  ancestors = none;
}

unfoldable pub resolve_role : PolicyEngine → String → Property RoleDefinition
resolve_role engine role_name = elim engine.bundle [
  | none ↦ get_property role_name default_role_matrix
  | some bundle ↦ get_property role_name bundle.roles
]

abbrev role_predicate : Option RoleDefinition → PolicyEvaluationInput → PredicateResult
role_predicate none input =
    fail role (concat ("Role \"" ∷ input.role ∷ "\" not defined." ∷ [])) role_invalid
role_predicate (some r) input = pass role

abbrev scope_predicate : Option RoleDefinition → PolicyEvaluationInput → PredicateResult
scope_predicate none input = fail scope "Not evaluated: role did not resolve." scope_denied
scope_predicate (some r) input =
    if not (includes r.allowed_operations input.operation_class)
    then fail scope
        (concat (
          "Role \""
          ∷ input.role
          ∷ "\" cannot perform "
          ∷ operation_name input.operation_class
          ∷ "."
          ∷ []))
        scope_denied
    else pass scope

abbrev intent_predicate : PolicyEvaluationInput → PredicateResult
intent_predicate input =
    if not (includes (operation_to_intent input.operation_class) input.intent_class)
    then fail intent
        (concat (
          "Intent "
          ∷ intent_name input.intent_class
          ∷ " not permitted for "
          ∷ operation_name input.operation_class
          ∷ "."
          ∷ []))
        intent_drift
    else pass intent

abbrev pub label_is_tainted : Option Label → Bool
label_is_tainted none = false
label_is_tainted (some label) = is_tainted label

abbrev origin_names : Option Label → List String
origin_names none = []
origin_names (some label) = map origin_name label.origins

abbrev pub is_outward : IntentClass → Bool
is_outward i = i == export || i == escalate

abbrev taint_predicate : PolicyEvaluationInput → PredicateResult
taint_predicate input =
    let tainted = label_is_tainted input.session_label in
    if tainted && is_outward input.intent_class
    then record {
      name = taint;
      passed = false;
      reason = some (
          concat (
            "Intent "
            ∷ intent_name input.intent_class
            ∷ " is not permitted in a session carrying untrusted context (origins: "
            ∷ comma_separated (origin_names input.session_label)
            ∷ ")."
            ∷ []));
      code = some scope_denied;
      ancestors = some (input.session_ancestors or_else []);
    }
    else record {
      name = taint;
      passed = true;
      reason = none;
      code = none;
      ancestors = if tainted then some (input.session_ancestors or_else []) else none;
    }

abbrev is_empty {ℓ} : {A : Type ℓ} → List A → Bool
is_empty [] = true
is_empty (x ∷ xs) = false

abbrev classification_predicate : PolicyEvaluationInput → PredicateResult
classification_predicate input =
    if is_empty (mode_compatibility input.classification)
    then fail classification
        (concat (
          "Classification "
          ∷ classification_name input.classification
          ∷ " has no valid FHE mode."
          ∷ []))
        classification_violation
    else pass classification

abbrev denied : PredicateResult → List PredicateResult → PolicyDecision
denied first_failure predicates = record {
  allowed = false;
  profile = strict;
  requires_dual_control = false;
  requires_endpoint_attestation = false;
  allowed_fhe_modes = [];
  deny_reason_code = first_failure.code;
  deny_reason = first_failure.reason;
  predicates = predicates;
}

abbrev permitted : RoleDefinition → PolicyEvaluationInput → List PredicateResult → PolicyDecision
permitted resolved input predicates = record {
  allowed = true;
  profile = input.requested_profile or_else resolved.default_profile;
  requires_dual_control = includes resolved.requires_dual_control input.operation_class;
  requires_endpoint_attestation =
      input.classification == regulated || input.classification == classified_adjacent;
  allowed_fhe_modes = mode_compatibility input.classification;
  deny_reason_code = none;
  deny_reason = none;
  predicates = predicates;
}

-- The rest of `evaluate` once the role is resolved. A role that did not resolve fails its predicate,
-- so the last case, in which the source would read fields of `undefined`, is not reached.
abbrev decide : Option RoleDefinition → PolicyEvaluationInput → Option PolicyDecision
decide resolved input =
    let predicates : List PredicateResult =
      role_predicate resolved input
      ∷ scope_predicate resolved input
      ∷ intent_predicate input
      ∷ taint_predicate input
      ∷ classification_predicate input
      ∷ [] in
    elim (find (λ p. not p.passed) predicates) [
      | some first_failure ↦ some (denied first_failure predicates)
      | none ↦ elim resolved [ none ↦ none | some r ↦ some (permitted r input predicates) ]
    ]

unfoldable pub evaluate : PolicyEngine → PolicyEvaluationInput → Option PolicyDecision
evaluate engine input = elim (resolve_role engine input.role) [
  | inherited ↦ none
  | absent ↦ decide none input
  | own r ↦ decide (some r) input
]
