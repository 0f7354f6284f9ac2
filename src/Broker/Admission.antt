-- ===== src/Broker/Admission.antt =====
-- routes/{admit,revoke,cosign}.ts: admission, revocation and the second signature. The calls of the
-- bindings are awaited without a deadline, so the answer `none` stands for bindings that never answer,
-- too. The body of an answer of 200, less its correlation id, stands in `result`, and the id of a record
-- that it names in `event`.
use openclaw_nie_guard.Common.{
  String, Option, none, some, Bool, true, false, not, [], ◌∷◌, if◌then◌else◌,
}
use openclaw_nie_guard.Types.{
  profile_name, ErrorCode, attestation_failed, policy_violation, text, Json, bool, num, str, obj,
  member, end, strings, Metadata, Thrown, error, not_object, ok, threw,
}
use openclaw_nie_guard.Bindings.{
  AdmissionRequest, AttestationResult, RevocationInput, RevocationKind, subject, session, device,
  RevocationResult, TokenVerificationResult,
}
use openclaw_nie_guard.Broker.Audit.{
  append_plain, AppendInput, EventType, deny, admit as admit_event, revoke as revoke_event,
  dual_control_granted, dual_control_denied,
}
use openclaw_nie_guard.Broker.Deadline.{Work}
use openclaw_nie_guard.Broker.Services.{
  NieBindings, BrokerServices, Reply, refusal, Handled, record_then, reply_if,
}

-- Work that is awaited without a deadline: what never settles never answers.
abbrev pub on_settled {ℓ ℓ'} : {A : Type ℓ} {B : Type ℓ'} → Work A → B → (Thrown → B) → (A → B) → B
on_settled work never on_error on_answer = elim work.settles_after [
  | none ↦ never
  | some elapsed ↦ elim work.result [ threw err ↦ on_error err | ok a ↦ on_answer a ]
]

-- A record of a route that holds no more than its reason and metadata.
abbrev pub plain_record : EventType → String → Option ErrorCode → Metadata → AppendInput
plain_record event_type correlation_id code metadata = record {
  event_type = event_type;
  correlation_id = some correlation_id;
  session_id = none;
  subject_id = none;
  device_fingerprint = none;
  payload_digest = none;
  operation_class = none;
  target_hash = none;
  classification = none;
  reason_code = code;
  metadata = some metadata;
}

-- The message of what was thrown. An object that is thrown is an Error here; what is no object has the route's
-- own message.
abbrev pub message_of : Thrown → String
message_of (error code message) = message
message_of not_object = "attestation failed"

-- What the schema made of an admission request.
pub data ParsedAdmission : Type 0 where
  malformed_admission : Json → ParsedAdmission
  parsed_admission : AdmissionRequest → ParsedAdmission

module _ {S : Type 0} (attest : S → AdmissionRequest → S × Work AttestationResult)
    (append_error : String) (correlation_id : String) where
  abbrev pub admission_record : AttestationResult → AppendInput
  admission_record result =
      record (plain_record admit_event correlation_id none (
        ("profile", str (profile_name result.admission.profile))
        ∷ ("attestationFloor", str result.attestation_floor)
        ∷ [])) {
          session_id = some result.admission.session_id;
          subject_id = some result.subject_id;
          device_fingerprint = some result.device_fingerprint;
        }

  abbrev pub admission_reply : AttestationResult → Reply
  admission_reply result = record {
    status = 200;
    code = none;
    message = none;
    result = some (
        obj (
          member "sessionId" (str result.admission.session_id) (
            member "capabilityToken" (str result.admission.capability_token) (
              member "profile" (str (profile_name result.admission.profile)) (
                member "issuedAt" (num result.admission.issued_at)
                  (member "expiresAt" (num result.admission.expires_at) end))))));
    event = none;
  }

  -- The `catch` of the route.
  unfoldable pub admission_failed : BrokerServices S → String → Handled S
  admission_failed s message =
      record_then s
        (plain_record deny correlation_id (some attestation_failed) (("error", str message) ∷ []))
        (refusal 401 attestation_failed message)

  -- The record of the admission is written inside the `try`: where the log throws `append_error`, the
  -- route goes on as for an attestation that failed.
  abbrev pub or_failed : Handled S → Handled S
  or_failed (s, some reply) = (s, some reply)
  or_failed (s, none) = admission_failed s append_error

  unfoldable pub admitting : BrokerServices S → AdmissionRequest → Handled S
  unfolding admission_failed
  admitting s request =
      let (after, work) = attest s.bindings request in
      let s' = record s { bindings = after } in
      on_settled work (s', none) (λ err. admission_failed s' (message_of err))
        (λ result. or_failed (record_then s' (admission_record result) (admission_reply result)))

  unfoldable pub admit : BrokerServices S → ParsedAdmission → Handled S
  unfolding admitting
  admit s (malformed_admission validation) =
      record_then s
        (plain_record deny correlation_id (some attestation_failed)
          (("validation", validation) ∷ []))
        (refusal 400 attestation_failed "Invalid admission request shape.")
  admit s (parsed_admission request) = admitting s request

abbrev kind_name : RevocationKind → String
kind_name subject = "subject"
kind_name session = "session"
kind_name device = "device"

module _ {S : Type 0} (revoke_subject : S → RevocationInput → S × Work RevocationResult)
    (correlation_id : String) where
  -- The reason that the operator gave is the reason code of the record.
  unfoldable pub revoke : BrokerServices S → Option RevocationInput → Handled S
  revoke s none = (s, some (refusal 400 policy_violation "Invalid revoke request."))
  revoke s (some input) =
      let (after, work) = revoke_subject s.bindings input in
      let s' = record s { bindings = after } in
      on_settled work (s', none) (λ err. (s', none))
        (λ result.
          record_then s'
            (plain_record revoke_event correlation_id (some (text input.reason)) (
              ("kind", str (kind_name input.kind))
              ∷ ("id", str input.id)
              ∷ ("channelsNotified", strings result.channels_notified)
              ∷ []))
            (record {
              status = 200;
              code = none;
              message = none;
              result = some (
                  obj (
                    member "acknowledged" (bool result.acknowledged) (
                      member "channelsNotified" (strings result.channels_notified)
                        (member "propagationTimestamp" (num result.propagation_timestamp) end))));
              event = none;
            }))

-- `CosignRequest`
pub record CosignRequest : Type 0 where
  pub target_correlation_id : String
  pub cosign_capability_token : String
  pub cosign_envelope : String
  pub grants : Bool
  pub reason : String

abbrev decision_name : Bool → String
decision_name true = "grant"
decision_name false = "deny"

module _ {S : Type 0} (bindings : NieBindings S) (correlation_id : String) where
  abbrev cosign_record : CosignRequest → TokenVerificationResult → AppendInput
  cosign_record request verification =
      record (plain_record (if request.grants then dual_control_granted else dual_control_denied)
        correlation_id none
        (("targetCorrelationId", str request.target_correlation_id)
          ∷ ("decision", str (decision_name request.grants))
          ∷ ("reason", str request.reason)
          ∷ [])) {
            subject_id = verification.subject_id;
            device_fingerprint = verification.device_fingerprint;
          }

  -- The token's validity is all that is looked at; the envelope of the request is not.
  unfoldable pub cosign_verified :
      BrokerServices S → CosignRequest → TokenVerificationResult → Handled S
  cosign_verified s request verification =
      if not verification.valid
      then record_then s
          (plain_record dual_control_denied correlation_id verification.reason_code
            (("stage", str "cosign-token") ∷ []))
          (record {
            status = 401;
            code = verification.reason_code;
            message = some "Cosign token invalid.";
            result = none;
            event = none;
          })
      else let (providence, position) =
          append_plain s.providence (cosign_record request verification) in
        (
          record s { providence = providence },
          reply_if position (λ at. record {
            status = 200;
            code = none;
            message = none;
            result = some (obj (member "decision" (str (decision_name request.grants)) end));
            event = some at;
          }),
        )

  unfoldable pub cosign : BrokerServices S → Option CosignRequest → Handled S
  unfolding cosign_verified
  cosign s none = (s, some (refusal 400 policy_violation "Invalid cosign request."))
  cosign s (some request) =
      on_settled (bindings.verify_token s.bindings request.cosign_capability_token) (s, none)
        (λ err. (s, none)) (λ verification. cosign_verified s request verification)
