-- ===== src/Broker/Audit.antt =====
-- services/providence.ts, and what a route may rely on of the Providence log behind it: a list of
-- records that grows by one with each append, or an append that throws and a log that refuses from then
-- on. Where the source answers the digest of a record as its event id, the position stands for it. Whether a record can be made durable is a function of its position, which the disk decides.
use Prim.Native.Char.{Char, code}
use openclaw_nie_guard.Common.{
  ℕ, String, Option, none, some, Bool, true, false, not, ◌&&◌, ◌||◌, List, [], ◌∷◌, ◌++◌, ◌==◌,
  string_eq, nat_eq, if◌then◌else◌, ◌or_else◌, leb, length, insert,
}
use openclaw_nie_guard.Types.{
  OperationClass, Classification, ErrorCode, str, Metadata, utf16_length,
}

-- `ProvidenceEventType`
pub data EventType : Type 0 where
  admit deny invoke invoke_refused revoke continuity_fail envelope_rejected : EventType
  replay_fail scope_fail target_mismatch admin_attempt tool_block intent_drift : EventType
  classification_violation mcp_block mcp_tainted skill_unsigned skill_blocked : EventType
  policy_bundle_loaded policy_bundle_rejected : EventType
  dual_control_requested dual_control_granted dual_control_denied : EventType
  mode_a_inference mode_c_decryption profile_escalated profile_deescalated : EventType
  endpoint_attestation_fail : EventType

-- `ProvidenceAppendInput`, less the payload of the MCP Guard, which the broker does not write.
pub record AppendInput : Type 0 where
  pub event_type : EventType
  pub correlation_id : Option String
  pub session_id : Option String
  pub subject_id : Option String
  pub device_fingerprint : Option String
  pub payload_digest : Option String
  pub operation_class : Option OperationClass
  pub target_hash : Option String
  pub classification : Option Classification
  pub reason_code : Option ErrorCode
  pub metadata : Option Metadata

pub record AuditLog : Type 0 where
  pub entries : List AppendInput
  pub refuses : Bool
  pub is_durable : ℕ → Bool

-- `append` of the log, or `none` where it throws. A record is named by its position here, and by its digest
-- in the source: while the log accepts appends, each position has one record and one digest.
unfoldable pub append : AuditLog → AppendInput → AuditLog × Option ℕ
append log input =
    if log.refuses
    then (log, none)
    else if log.is_durable (length log.entries)
    then (record log { entries = log.entries ++ input ∷ [] }, some (length log.entries))
    else (record log { refuses = true }, none)

unfoldable pub is_hex_digit : Char → Bool
is_hex_digit c =
    (leb b'0' (code c) && leb (code c) b'9') || (leb b'a' (code c) && leb (code c) b'f')

unfoldable pub all_chars : (Char → Bool) → String → Bool
all_chars p String.[] = true
all_chars p (String.◌∷◌ c s) = p c && all_chars p s

-- `DEVICE_FINGERPRINT`: 64 lowercase hexadecimal digits
unfoldable pub is_device_fingerprint : String → Bool
unfolding is_hex_digit all_chars
is_device_fingerprint s = utf16_length s == 64 && all_chars is_hex_digit s

-- `{ ...a, ...b }`
spread : Metadata → Metadata → Metadata
spread a [] = a
spread a ((k, v) ∷ b) = spread (insert k v a) b

stamped : Option Metadata → Metadata → Option Metadata
stamped metadata [] = metadata
stamped metadata (x ∷ stamp) = some (spread (metadata or_else []) (x ∷ stamp))

abbrev non_empty : Option String → Bool
non_empty none = false
non_empty (some s) = not (s == "")

-- The input that `write` hands to the log: the transport's stamp in the metadata, and a device
-- identifier that is no fingerprint moved to the metadata as `device_label`.
unfoldable pub written : AppendInput → Metadata → AppendInput
unfolding spread stamped
written input stamp =
    let meta = stamped input.metadata stamp in
    let device = input.device_fingerprint or_else "" in
    if not (non_empty input.device_fingerprint)
    then record input { device_fingerprint = none; metadata = meta }
    else if is_device_fingerprint device
    then record input { device_fingerprint = some device; metadata = meta }
    else record input {
      device_fingerprint = none;
      metadata = some (insert "device_label" (str device) (meta or_else []));
    }

pub record BrokerProvidence : Type 0 where
  pub log : AuditLog
  pub forward_stamp : Metadata

unfoldable pub write : BrokerProvidence → AppendInput → Metadata → BrokerProvidence × Option ℕ
write providence input stamp =
    let (log, position) = append providence.log (written input stamp) in
    (record providence { log = log }, position)

-- `append` and `appendForwarded` of `BrokerProvidence`
unfoldable pub append_plain : BrokerProvidence → AppendInput → BrokerProvidence × Option ℕ
unfolding write
append_plain providence input = write providence input []

unfoldable pub append_forwarded : BrokerProvidence → AppendInput → BrokerProvidence × Option ℕ
unfolding write
append_forwarded providence input = write providence input providence.forward_stamp
