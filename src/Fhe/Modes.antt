-- ===== src/Fhe/Modes.antt =====
-- When the gate selects a mode.
use openclaw_nie_guard.Common.{
  ◌≡◌, String, Option, none, some, Bool, not, ◌&&◌, ◌||◌, ◌≢◌, List, [], includes, ◌==◌, string_eq,
  if◌then◌else◌, Map, arith,
}
use openclaw_nie_guard.Types.{
  classification_eq, regulated, FheMode, fhe_mode_eq, mode_a, mode_b, mode_c, mode_compatibility,
  ContextElement, ErrorCode, mode_c_unauthorized,
}
use openclaw_nie_guard.Fhe.{
  GateDecision, GateInput, mode_a_selection, mode_b_selection, mode_c_selection, denied, is_given,
  evaluate,
}

-- Which mode was selected, if one was.
abbrev pub mode_of : GateDecision → Option FheMode
mode_of (mode_a_selection es) = some mode_a
mode_of (mode_b_selection es m) = some mode_b
mode_of (mode_c_selection es a r) = some mode_c
mode_of (denied d) = none

abbrev pub elements_of : GateDecision → List ContextElement
elements_of (mode_a_selection es) = es
elements_of (mode_b_selection es m) = es
elements_of (mode_c_selection es a r) = es
elements_of (denied d) = []

abbrev pub refusal_of : GateDecision → Option ErrorCode
refusal_of (denied d) = some d.reason_code
refusal_of _ = none

-- What releasing plaintext asks for, by classification: an endpoint attestation, and for regulated
-- material a dual-control receipt as well.
abbrev pub release_allowed : GateInput → Bool
release_allowed input =
    is_given input.endpoint_attestation_id
    && (not (input.classification == regulated) || is_given input.dual_control_receipt_id)

-- The gate selects the requested mode, and no other, with all the elements, exactly if the classification
-- is compatible with it and, for mode C, there is an endpoint attestation and for regulated material a
-- dual-control receipt. So the check of classified-adjacent material inside mode C never decides.
pub evaluate_mode :
    (build_token_map : List ContextElement → Map String String) (input : GateInput)
    → let decision = evaluate build_token_map input in
      let fits =
        includes (mode_compatibility input.classification) input.requested_mode
        && (not (input.requested_mode == mode_c) || release_allowed input) in
      (mode_of decision ≡ (if fits then some input.requested_mode else none))
      × (elements_of decision ≡ (if fits then input.elements else []))
      × (refusal_of decision ≢ some mode_c_unauthorized)
unfolding evaluate mode_compatibility
evaluate_mode build_token_map input = (ground arith, ground arith, λ e. ground arith)
