-- ===== src/Tests/Policy.antt =====
-- The policy engine, the adapter and the FHE gate.
use openclaw_nie_guard.Common.{
  ◌≡◌, refl, ◌↔◌, none, some, true, false, [], ◌∷◌, all, lookup, get_elem?, ◌or_else◌, string_eq,
}
use openclaw_nie_guard.Types.{
  file_read, export_data, exec_run, read, export, public, regulated, standard, mode_c,
  mode_compatibility, operation_to_intent,
}
use openclaw_nie_guard.Lineage.{is_tainted, is_untrusted_origin}
use openclaw_nie_guard.Policy.{
  PolicyEngine, PolicyEvaluationInput, PolicyDecision, evaluate, resolve_role,
}
use openclaw_nie_guard.Policy.Roles.{RoleDefinition, own, get_property}
use openclaw_nie_guard.Policy.Decisions.{
  evaluate_allowed_iff, evaluate_throws_iff, named_role, IsInherited, evaluate_records_all, Permits,
}
use openclaw_nie_guard.Policy.Taint.{evaluate_tainted, ancestors_of}
use openclaw_nie_guard.Adapter.{MediatedOperation, forward, method_of, read_resource}
use openclaw_nie_guard.Adapter.Forwarding.{allowed_is_forwarded}
use openclaw_nie_guard.Fhe
use openclaw_nie_guard.Fhe.Modes.{evaluate_mode, mode_of}
use openclaw_nie_guard.Types.{null}
use openclaw_nie_guard.Tests.Fixtures.{user_label, mcp_label, transport}

abbrev engine : PolicyEngine
engine = record { bundle = none }

abbrev read_input : PolicyEvaluationInput
read_input = record {
  subject_id = "alice";
  role = "operator";
  operation_class = file_read;
  target_class = "file";
  classification = public;
  intent_class = read;
  requested_profile = none;
  session_label = some user_label;
  session_ancestors = some [];
}

abbrev tainted_input : PolicyEvaluationInput
tainted_input = record read_input {
  operation_class = export_data;
  intent_class = export;
  session_label = some mcp_label;
  session_ancestors = some ("page" ∷ []);
}

abbrev no_decision : PolicyDecision
no_decision = record {
  allowed = false;
  profile = standard;
  requires_dual_control = false;
  requires_endpoint_attestation = false;
  allowed_fhe_modes = [];
  deny_reason_code = none;
  deny_reason = none;
  predicates = [];
}

abbrev decision_on : PolicyEvaluationInput → PolicyDecision
decision_on input = evaluate engine input or_else no_decision

read_is_decided : evaluate engine read_input ≡ some (decision_on read_input)
unfolding evaluate resolve_role get_property lookup operation_to_intent mode_compatibility
    is_tainted is_untrusted_origin
read_is_decided = refl

tainted_is_decided : evaluate engine tainted_input ≡ some (decision_on tainted_input)
unfolding evaluate resolve_role get_property lookup operation_to_intent mode_compatibility
    is_tainted is_untrusted_origin
tainted_is_decided = refl

evaluate_allowed_iff_example :
    ((decision_on read_input).allowed ≡ true)
    ↔ ((r : RoleDefinition) × (resolve_role engine "operator" ≡ own r) × Permits r read_input)
evaluate_allowed_iff_example =
    (evaluate_allowed_iff engine read_input (decision_on read_input) read_is_decided).0

evaluate_throws_iff_example :
    (evaluate engine (record read_input { role = "constructor" }) ≡ none)
    ↔ ((named_role engine "constructor" ≡ none) × IsInherited "constructor")
evaluate_throws_iff_example =
    evaluate_throws_iff engine (record read_input { role = "constructor" })

evaluate_records_all_example :
    (decision_on tainted_input).allowed ≡ all (λ p. p.passed) (decision_on tainted_input).predicates
evaluate_records_all_example =
    (evaluate_records_all engine tainted_input (decision_on tainted_input) tainted_is_decided).1

evaluate_tainted_example :
    ancestors_of (get_elem? (decision_on tainted_input).predicates 3) ≡ some ("page" ∷ [])
unfolding evaluate resolve_role get_property lookup operation_to_intent mode_compatibility
    is_tainted is_untrusted_origin
evaluate_tainted_example =
    (evaluate_tainted engine tainted_input (decision_on tainted_input) refl refl
      tainted_is_decided).4

abbrev shell : MediatedOperation
shell = record {
  operation_class = exec_run;
  target_id = "node-1";
  target_class = "node";
  payload = null;
  binding_hash = "h";
  correlation_id = "c1";
}

abbrev file_operation : MediatedOperation
file_operation = record shell { operation_class = file_read }

allowed_is_forwarded_example :
    (forward transport file_operation (decision_on read_input).profile).0 ≡ some read_resource
unfolding evaluate resolve_role get_property lookup operation_to_intent mode_compatibility
    is_tainted is_untrusted_origin method_of
allowed_is_forwarded_example =
    allowed_is_forwarded transport engine read_input (decision_on read_input) file_operation refl
      refl read_is_decided refl refl

abbrev release : Fhe.GateInput
release = record {
  elements = [];
  requested_mode = mode_c;
  classification = regulated;
  operation_class = "fhe.release";
  endpoint_attestation_id = some "a1";
  dual_control_receipt_id = none;
}

evaluate_mode_example : mode_of (Fhe.evaluate (λ elements. []) release) ≡ none
unfolding mode_compatibility
evaluate_mode_example = (evaluate_mode (λ elements. []) release).0
