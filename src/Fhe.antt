-- ===== src/Fhe.antt =====
-- packages/fhe-gate/src/{gate,types}.ts: which FHE mode a payload may take. The provider behind the gate
-- is a parameter, as far as the decision asks it: its map of tokens.
pub mod Modes
pub mod Receipts
use openclaw_nie_guard.Common.{
  String, Option, none, some, Bool, true, false, not, ◌&&◌, List, includes, ◌==◌, string_eq,
  if◌then◌else◌, ◌or_else◌, Map,
}
use openclaw_nie_guard.Types.{
  Classification, classification_eq, regulated, classified_adjacent, FheMode, fhe_mode_eq, mode_a,
  mode_b, mode_c, mode_compatibility, ContextElement, ErrorCode, classification_violation,
  endpoint_attestation_failed, dual_control_required, mode_c_unauthorized,
}

-- `ModeDenied`
pub record ModeDenied : Type 0 where
  pub reason_code : ErrorCode
  pub attempted_mode : FheMode
  pub classification : Classification

pub data GateDecision : Type 0 where
  mode_a_selection : List ContextElement → GateDecision
  mode_b_selection : List ContextElement → Map String String → GateDecision
  mode_c_selection : List ContextElement → String → Option String → GateDecision
  denied : ModeDenied → GateDecision

pub record GateInput : Type 0 where
  pub elements : List ContextElement
  pub requested_mode : FheMode
  pub classification : Classification
  pub operation_class : String
  pub endpoint_attestation_id : Option String
  pub dual_control_receipt_id : Option String

-- An id that is there and not empty.
abbrev pub is_given : Option String → Bool
is_given none = false
is_given (some s) = not (s == "")

abbrev pub deny : ErrorCode → GateInput → GateDecision
deny reason_code input = denied (record {
  reason_code = reason_code;
  attempted_mode = input.requested_mode;
  classification = input.classification;
})

abbrev mode_c_decision : GateInput → GateDecision
mode_c_decision input =
    if not (is_given input.endpoint_attestation_id)
    then deny endpoint_attestation_failed input
    else if input.classification == regulated && not (is_given input.dual_control_receipt_id)
    then deny dual_control_required input
    else if input.classification == classified_adjacent
    then deny mode_c_unauthorized input
    else mode_c_selection input.elements (input.endpoint_attestation_id or_else "")
        input.dual_control_receipt_id

module _ (build_token_map : List ContextElement → Map String String) where
  abbrev selected : GateInput → FheMode → GateDecision
  selected input mode_c = mode_c_decision input
  selected input mode_b = mode_b_selection input.elements (build_token_map input.elements)
  selected input mode_a = mode_a_selection input.elements

  unfoldable pub evaluate : GateInput → GateDecision
  evaluate input =
      if not (includes (mode_compatibility input.classification) input.requested_mode)
      then deny classification_violation input
      else selected input input.requested_mode
