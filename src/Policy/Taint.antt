-- ===== src/Policy/Taint.antt =====
-- The taint predicate of `evaluate`.
use openclaw_nie_guard.Common.{
  ◌≡◌, Option, none, some, Bool, true, false, List, [], get_elem?, if◌then◌else◌, ◌or_else◌, String,
  is_some, arith,
}
use openclaw_nie_guard.Policy.{
  PolicyEngine, PolicyEvaluationInput, PolicyDecision, PredicateResult, PredicateName, taint,
  evaluate, label_is_tainted, is_outward,
}

abbrev pub name_of : Option PredicateResult → Option PredicateName
name_of none = none
name_of (some p) = some p.name

abbrev pub passed_of : Option PredicateResult → Option Bool
passed_of none = none
passed_of (some p) = some p.passed

abbrev pub ancestors_of : Option PredicateResult → Option (List String)
ancestors_of none = none
ancestors_of (some p) = p.ancestors

-- A request with an outward intent, export or escalate, in a tainted session is denied, whatever the
-- role, the bundle and the operation are; and the record of the denial holds the failed taint predicate
-- with the session's untrusted ancestors, also where another predicate failed first.
pub evaluate_tainted :
    (engine : PolicyEngine) (input : PolicyEvaluationInput) (d : PolicyDecision)
    → label_is_tainted input.session_label ≡ true
    → is_outward input.intent_class ≡ true
    → evaluate engine input ≡ some d
    → (d.allowed ≡ false)
      × (is_some d.deny_reason_code ≡ true)
      × (name_of (get_elem? d.predicates 3) ≡ some taint)
      × (passed_of (get_elem? d.predicates 3) ≡ some false)
      × (ancestors_of (get_elem? d.predicates 3) ≡ some (input.session_ancestors or_else []))
unfolding evaluate
evaluate_tainted engine input d tainted outward h = ground arith

-- In a tainted session the record of every decision, also of one that allows, holds the session's
-- untrusted ancestors on the taint predicate; in an untainted session it holds none.
pub evaluate_ancestors :
    (engine : PolicyEngine) (input : PolicyEvaluationInput) (d : PolicyDecision)
    → evaluate engine input ≡ some d
    → ancestors_of (get_elem? d.predicates 3) ≡ (
        if label_is_tainted input.session_label
        then some (input.session_ancestors or_else [])
        else none)
unfolding evaluate
evaluate_ancestors engine input d h = ground arith
