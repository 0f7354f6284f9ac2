-- ===== src/Providence/Records.antt =====
-- packages/shared-types/src/providence.ts: what a caller hands to the log, and the record that the log
-- makes of it. A record's `domain` and `kind` are constants, so the type does not carry them.
use openclaw_nie_guard.Common.{
  ℕ, ◌^◌, String, Option, none, some, Bool, true, ◌&&◌, ◌||◌, List, [], ◌∷◌, all, ltb, ◌==◌,
  string_eq,
}
use openclaw_nie_guard.Types.{
  Json, num, str, arr, obj, Items, nil, cons, Members, end, member, strings,
}
use openclaw_nie_guard.Types.{Metadata}
use openclaw_nie_guard.Broker.Audit.{EventType, is_device_fingerprint}

-- `hex64`: 64 lowercase hexadecimal digits, the test of a device fingerprint.
abbrev pub hex64 : String → Bool
hex64 s = is_device_fingerprint s

abbrev pub hex64_or_empty : String → Bool
hex64_or_empty s = hex64 s || s == ""

-- `safeInt`, for a number that is no negative one.
abbrev pub safe_int : ℕ → Bool
safe_int n = ltb n (2 ^ 53)

pub record GuardPayload : Type 0 where
  pub decision_vector : Option (List (String × String))
  pub argument_digest : Option String
  pub ancestor_hashes : Option (List String)
  pub matched_grant_index : Option ℕ

pub record ProvidenceAppendInput : Type 0 where
  pub event_type : EventType
  pub correlation_id : Option String
  pub session_id : Option String
  pub subject_id : Option String
  pub device_fingerprint : Option String
  pub payload_digest : Option String
  pub operation_class : Option String
  pub target_hash : Option String
  pub classification : Option String
  pub reason_code : Option String
  pub payload : Option GuardPayload
  pub metadata : Option Metadata

pub record ProvidenceRecord : Type 0 where
  pub seq : ℕ
  pub timestamp_ms : ℕ
  pub event_type : EventType
  pub correlation_id : String
  pub device_fingerprint : String
  pub session_handle : String
  pub payload_digest : String
  pub subject_id : String
  pub operation_class : String
  pub target_hash : String
  pub classification : String
  pub reason_code : String
  pub payload : Option GuardPayload
  pub metadata : Option Metadata
  pub prev_digest : String

abbrev pub event_name : EventType → String
event_name EventType.admit = "admit"
event_name EventType.deny = "deny"
event_name EventType.invoke = "invoke"
event_name EventType.invoke_refused = "invoke_refused"
event_name EventType.revoke = "revoke"
event_name EventType.continuity_fail = "continuity_fail"
event_name EventType.envelope_rejected = "envelope_rejected"
event_name EventType.replay_fail = "replay_fail"
event_name EventType.scope_fail = "scope_fail"
event_name EventType.target_mismatch = "target_mismatch"
event_name EventType.admin_attempt = "admin_attempt"
event_name EventType.tool_block = "tool_block"
event_name EventType.intent_drift = "intent_drift"
event_name EventType.classification_violation = "classification_violation"
event_name EventType.mcp_block = "mcp_block"
event_name EventType.mcp_tainted = "mcp_tainted"
event_name EventType.skill_unsigned = "skill_unsigned"
event_name EventType.skill_blocked = "skill_blocked"
event_name EventType.policy_bundle_loaded = "policy_bundle_loaded"
event_name EventType.policy_bundle_rejected = "policy_bundle_rejected"
event_name EventType.dual_control_requested = "dual_control_requested"
event_name EventType.dual_control_granted = "dual_control_granted"
event_name EventType.dual_control_denied = "dual_control_denied"
event_name EventType.mode_a_inference = "mode_a_inference"
event_name EventType.mode_c_decryption = "mode_c_decryption"
event_name EventType.profile_escalated = "profile_escalated"
event_name EventType.profile_deescalated = "profile_deescalated"
event_name EventType.endpoint_attestation_fail = "endpoint_attestation_fail"

abbrev given_and : {A : Type 0} → (A → Bool) → Option A → Bool
given_and p none = true
given_and p (some a) = p a

-- The refinements of the schemas, beyond the types.
unfoldable pub payload_fits : GuardPayload → Bool
payload_fits p =
    given_and hex64 p.argument_digest
    && given_and (all hex64) p.ancestor_hashes
    && given_and safe_int p.matched_grant_index

unfoldable pub input_fits : ProvidenceAppendInput → Bool
unfolding payload_fits
input_fits i =
    given_and hex64 i.session_id
    && given_and hex64 i.device_fingerprint
    && given_and hex64 i.payload_digest
    && given_and payload_fits i.payload

unfoldable pub record_fits : ProvidenceRecord → Bool
unfolding payload_fits
record_fits r =
    safe_int r.seq
    && safe_int r.timestamp_ms
    && hex64_or_empty r.device_fingerprint
    && hex64_or_empty r.session_handle
    && hex64_or_empty r.payload_digest
    && given_and payload_fits r.payload
    && hex64 r.prev_digest

abbrev pair_items : List (String × String) → Items
pair_items [] = nil
pair_items ((check, result) ∷ rest) =
    cons (obj (member "check" (str check) (member "result" (str result) end))) (pair_items rest)

abbrev optional : {A : Type 0} → String → (A → Json) → Option A → Members → Members
optional name json none rest = rest
optional name json (some a) rest = member name (json a) rest

-- A payload as an object: its fields that are given.
abbrev pub payload_json : GuardPayload → Json
payload_json p = obj (
    optional "decision_vector" (λ v. arr (pair_items v)) p.decision_vector
      (optional "argument_digest" str p.argument_digest (
        optional "ancestor_hashes" strings p.ancestor_hashes
          (optional "matched_grant_index" num p.matched_grant_index end))))

abbrev members_of : Metadata → Members
members_of [] = end
members_of ((name, value) ∷ rest) = member name value (members_of rest)

abbrev pub metadata_json : Metadata → Json
metadata_json m = obj (members_of m)
