-- ===== src/Broker/Request.antt =====
-- routes/invoke.ts: a request, and the pieces of the records that the pipeline writes. The correlation
-- id, the clock and the time that the transport takes are given with the request.
use openclaw_nie_guard.Common.{
  ◌≡◌, ◌⊎◌, inl, inr, refl, ℕ, String, Option, none, some, Bool, false, not, List, [], ◌∷◌, map,
  ◌==◌, string_eq,
}
use openclaw_nie_guard.Types.{
  OperationClass, operation_class_eq, intent_class_eq, ErrorCode, session_expired,
  continuity_failed, target_mismatch as target_mismatch_code, openclaw_forward_failed, error_name,
  Json, Members, bool, num, str, arr, obj, member, end, items, strings, Metadata,
}
use openclaw_nie_guard.Policy.{
  PredicateResult, PredicateName, role, scope, intent, taint, classification,
}
use openclaw_nie_guard.Adapter.{AdapterError}
use openclaw_nie_guard.Bindings.{TokenVerificationResult}
use openclaw_nie_guard.Broker.Audit.{
  AppendInput, EventType, deny, envelope_rejected, continuity_fail, target_mismatch,
}

-- `InvokeRequest`
pub record InvokeRequest : Type 0 where
  pub capability_token : String
  pub envelope : String
  pub operation_class : OperationClass
  pub target_id : String
  pub target_class : String
  pub intent_hash : String
  pub context_manifest_hash : String
  pub nonce : String
  pub correlation_id : String

-- What the schema made of a body: the flattened error, or the request.
pub data Parsed : Type 0 where
  malformed : Json → Parsed
  parsed : InvokeRequest → Parsed

pub Parsed-cases :
    (p : Parsed)
    → ((flaws : Json) × (p ≡ malformed flaws)) ⊎ ((body : InvokeRequest) × (p ≡ parsed body))
Parsed-cases (malformed flaws) = inl (flaws, refl)
Parsed-cases (parsed body) = inr (body, refl)

-- What comes with a request from outside the broker.
pub record Request : Type 0 where
  pub body : Parsed
  pub cosign_receipt : Option String
  pub correlation_id : String
  pub now : ℕ
  pub transport_takes : Option ℕ

abbrev pub zero_hash : String
zero_hash = "0000000000000000000000000000000000000000000000000000000000000000"

-- A text that is there and not empty, as a condition of the source tests it.
abbrev pub truthy : Option String → Bool
truthy none = false
truthy (some s) = not (s == "")

abbrev pub stage : String → Metadata
stage name = ("stage", str name) ∷ []

abbrev pub late : String → ℕ → Metadata
late name budget_ms = ("stage", str name) ∷ ("budgetMs", num budget_ms) ∷ []

pub data RejectionClass : Type 0 where
  unauthenticated expired other_refusal : RejectionClass

-- `envelopeRejectionClass`; `other_refusal` is its `undefined`
unfoldable pub envelope_rejection_class : Option ErrorCode → RejectionClass
envelope_rejection_class none = unauthenticated
envelope_rejection_class (some session_expired) = expired
envelope_rejection_class (some continuity_failed) = unauthenticated
envelope_rejection_class (some _) = other_refusal

abbrev pub rejected_event : RejectionClass → Option ErrorCode → EventType
rejected_event unauthenticated code = envelope_rejected
rejected_event expired code = envelope_rejected
rejected_event other_refusal (some target_mismatch_code) = target_mismatch
rejected_event other_refusal code = continuity_fail

abbrev pub rejected_metadata : RejectionClass → Metadata
rejected_metadata unauthenticated =
    ("stage", str "envelope") ∷ ("reason_class", str "unauthenticated") ∷ []
rejected_metadata expired = ("stage", str "envelope") ∷ ("reason_class", str "expired") ∷ []
rejected_metadata other_refusal = stage "envelope"

-- A text under a name, left out where it is undefined, as `dropUndefined` of the log does.
abbrev pub given : String → Option String → Metadata → Metadata
given name none rest = rest
given name (some s) rest = (name, str s) ∷ rest

abbrev predicate_name : PredicateName → String
predicate_name role = "role"
predicate_name scope = "scope"
predicate_name intent = "intent"
predicate_name taint = "taint"
predicate_name classification = "classification"

abbrev member_if : {A : Type 0} → String → (A → Json) → Option A → Members → Members
member_if name json none rest = rest
member_if name json (some a) rest = member name (json a) rest

-- A predicate in the metadata of a record, less its members that are undefined.
abbrev predicate_json : PredicateResult → Json
predicate_json p = obj (
    member "name" (str (predicate_name p.name)) (
      member "passed" (bool p.passed) (
        member_if "reason" str p.reason (
          member_if "code" (λ c. str (error_name c)) p.code
            (member_if "ancestors" strings p.ancestors end)))))

abbrev pub predicates_json : List PredicateResult → Json
predicates_json ps = arr (items (map predicate_json ps))

-- The record of a decision about a request whose token was verified.
abbrev pub about :
    Request → TokenVerificationResult → EventType → ErrorCode → Metadata → AppendInput
about request token event_type code metadata = record {
  event_type = event_type;
  correlation_id = some request.correlation_id;
  session_id = token.session_id;
  subject_id = token.subject_id;
  device_fingerprint = token.device_fingerprint;
  payload_digest = none;
  operation_class = none;
  target_hash = none;
  classification = none;
  reason_code = some code;
  metadata = some metadata;
}

-- A record with no session: of a request whose token was not verified.
abbrev pub unattributed : Request → ErrorCode → Metadata → AppendInput
unattributed request code metadata = record {
  event_type = deny;
  correlation_id = some request.correlation_id;
  session_id = none;
  subject_id = none;
  device_fingerprint = none;
  payload_digest = none;
  operation_class = none;
  target_hash = none;
  classification = none;
  reason_code = some code;
  metadata = some metadata;
}

abbrev pub error_code : Option AdapterError → ErrorCode
error_code none = openclaw_forward_failed
error_code (some e) = e.code

abbrev pub error_message : Option AdapterError → Option String
error_message none = none
error_message (some e) = some e.message
