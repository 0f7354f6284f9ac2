-- ===== src/Types/Errors.antt =====
-- errors.ts of packages/shared-types. The codes are a type; `text` is a code that the broker takes
-- over from elsewhere, such as the reason of a revocation or a code of the OpenClaw transport. The last
-- two named codes are those that routes/fhe.ts writes as literals.
use openclaw_nie_guard.Common.{String, Option}

pub data ErrorCode : Type 0 where
  attestation_failed scope_denied role_invalid nonce_replay session_expired session_revoked :
      ErrorCode
  continuity_failed target_mismatch operation_blocked policy_violation : ErrorCode
  openclaw_forward_failed intent_drift context_manifest_invalid classification_violation : ErrorCode
  mcp_server_blocked mcp_response_tainted skill_unsigned skill_blocked policy_bundle_invalid :
      ErrorCode
  dual_control_required dual_control_timeout mode_c_unauthorized endpoint_attestation_failed :
      ErrorCode
  upstream_timeout fhe_service providence_unavailable : ErrorCode
  text : String → ErrorCode

-- What a `throw` carries: an error object with its code, if it has one, and its message; or a value
-- that is no object.
pub data Thrown : Type 0 where
  error : Option ErrorCode → String → Thrown
  not_object : Thrown

pub data Result {ℓ} (A : Type ℓ) : Type ℓ where
  ok : A → Result A
  threw : Thrown → Result A

-- `ErrorCodes`
abbrev pub error_name : ErrorCode → String
error_name attestation_failed = "ERR_ATTESTATION_FAILED"
error_name scope_denied = "ERR_SCOPE_DENIED"
error_name role_invalid = "ERR_ROLE_INVALID"
error_name nonce_replay = "ERR_NONCE_REPLAY"
error_name session_expired = "ERR_SESSION_EXPIRED"
error_name session_revoked = "ERR_SESSION_REVOKED"
error_name continuity_failed = "ERR_CONTINUITY_FAILED"
error_name target_mismatch = "ERR_TARGET_MISMATCH"
error_name operation_blocked = "ERR_OPERATION_BLOCKED"
error_name policy_violation = "ERR_POLICY_VIOLATION"
error_name openclaw_forward_failed = "ERR_OPENCLAW_FORWARD_FAILED"
error_name intent_drift = "ERR_INTENT_DRIFT"
error_name context_manifest_invalid = "ERR_CONTEXT_MANIFEST_INVALID"
error_name classification_violation = "ERR_CLASSIFICATION_VIOLATION"
error_name mcp_server_blocked = "ERR_MCP_SERVER_BLOCKED"
error_name mcp_response_tainted = "ERR_MCP_RESPONSE_TAINTED"
error_name skill_unsigned = "ERR_SKILL_UNSIGNED"
error_name skill_blocked = "ERR_SKILL_BLOCKED"
error_name policy_bundle_invalid = "ERR_POLICY_BUNDLE_INVALID"
error_name dual_control_required = "ERR_DUAL_CONTROL_REQUIRED"
error_name dual_control_timeout = "ERR_DUAL_CONTROL_TIMEOUT"
error_name mode_c_unauthorized = "ERR_MODE_C_UNAUTHORIZED"
error_name endpoint_attestation_failed = "ERR_ENDPOINT_ATTESTATION_FAILED"
error_name upstream_timeout = "ERR_UPSTREAM_TIMEOUT"
error_name fhe_service = "ERR_FHE_SERVICE"
error_name providence_unavailable = "ERR_PROVIDENCE_UNAVAILABLE"
error_name (text code) = code
