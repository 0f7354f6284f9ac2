-- ===== src/Envelope.antt =====
-- packages/tstl-envelope/src/envelope.ts: building and validating the continuity envelope. `hash` is
-- SHA-256 in hexadecimal. Sealing and opening belong to the bindings: a seal is a function that the
-- bindings give, and the answer of opening is an argument. The schema check of `buildEnvelope` (zod)
-- is not modelled: its inputs are taken to have the lengths that the schema asks for.
pub mod Validation
use text.Mathlib.Text.{starts_with}
use openclaw_nie_guard.Common.{
  ℕ, ◌+◌, ◌*◌, String, Option, none, some, Bool, true, false, not, ◌&&◌, ◌||◌, List, [], ◌∷◌, ◌==◌,
  string_eq, if◌then◌else◌, ltb, is_some,
}
use openclaw_nie_guard.Types.{
  IntentClass, Classification, ErrorCode, session_expired, target_mismatch, scope_denied,
  nonce_replay, continuity_failed, Thrown, error, not_object, Result, ok, threw,
}

pub data Directionality : Type 0 where
  inbound outbound bidirectional : Directionality

-- envelope.ts of packages/shared-types
pub record TstlEnvelope : Type 0 where
  pub device_fingerprint : String
  pub session_id : String
  pub session_nonce_lineage : List String
  pub role_scope_hash : String
  pub operation_type : String
  pub target_hash : String
  pub directionality : Directionality
  pub broker_path_id : String
  pub process_context_fingerprint : Option String
  pub network_path_fingerprint : Option String
  pub context_manifest_hash : String
  pub intent_hash : String
  pub intent_class : IntentClass
  pub classification : Classification
  pub issued_at : ℕ
  pub expires_at : ℕ
  pub counter : ℕ

pub record EnvelopeBuildInput : Type 0 where
  pub device_fingerprint : String
  pub session_id : String
  pub session_nonce_lineage : List String
  pub role_scope : String
  pub operation_type : String
  pub target_id : String
  pub directionality : Directionality
  pub broker_path_id : String
  pub process_context_fingerprint : Option String
  pub network_path_fingerprint : Option String
  pub context_manifest_hash : String
  pub intent_hash : String
  pub intent_class : IntentClass
  pub classification : Classification
  pub ttl_seconds : ℕ
  pub counter : ℕ

pub record EnvelopeValidationResult : Type 0 where
  pub valid : Bool
  pub envelope : Option TstlEnvelope
  pub reason_code : Option ErrorCode

pub record Expected : Type 0 where
  pub target_id : Option String
  pub role_scope : Option String
  pub min_counter : Option ℕ

abbrev pub refused : ErrorCode → EnvelopeValidationResult
refused code = record { valid = false; envelope = none; reason_code = some code }

-- The code of an error from the bindings: its own, or the one that leads its message.
abbrev pub code_is_session_expired : ErrorCode → Bool
code_is_session_expired session_expired = true
code_is_session_expired _ = false

unfoldable pub is_session_expired : Thrown → Bool
is_session_expired not_object = false
is_session_expired (error (some code) message) = code_is_session_expired code
is_session_expired (error none message) = starts_with message "ERR_SESSION_EXPIRED:"

-- `expected.x && test(expected.x)`: an absent text and an empty one are not tested.
abbrev pub given_and : Option String → (String → Bool) → Bool
given_and none test = false
given_and (some s) test = not (s == "") && test s

module _ (hash : String → String) where
  -- The envelope that `buildEnvelope` seals.
  unfoldable pub built : EnvelopeBuildInput → ℕ → TstlEnvelope
  built input now = record {
    device_fingerprint = input.device_fingerprint;
    session_id = input.session_id;
    session_nonce_lineage = input.session_nonce_lineage;
    role_scope_hash = hash input.role_scope;
    operation_type = input.operation_type;
    target_hash = hash input.target_id;
    directionality = input.directionality;
    broker_path_id = input.broker_path_id;
    process_context_fingerprint = input.process_context_fingerprint;
    network_path_fingerprint = input.network_path_fingerprint;
    context_manifest_hash = input.context_manifest_hash;
    intent_hash = input.intent_hash;
    intent_class = input.intent_class;
    classification = input.classification;
    issued_at = now;
    expires_at = now + input.ttl_seconds * 1000;
    counter = input.counter;
  }

  unfoldable pub build_envelope : (TstlEnvelope → String) → EnvelopeBuildInput → ℕ → String
  unfolding built
  build_envelope seal_envelope input now = seal_envelope (built input now)

  abbrev pub below_min : Option ℕ → TstlEnvelope → Bool
  below_min none envelope = false
  below_min (some min_counter) envelope = ltb envelope.counter min_counter

  -- The checks on an envelope that opened, in their order.
  abbrev pub checked : TstlEnvelope → Expected → ℕ → EnvelopeValidationResult
  checked envelope expected now =
      if ltb envelope.expires_at now
      then refused session_expired
      else if given_and expected.target_id (λ t. not (envelope.target_hash == hash t))
      then refused target_mismatch
      else if given_and expected.role_scope (λ r. not (envelope.role_scope_hash == hash r))
      then refused scope_denied
      else if below_min expected.min_counter envelope
      then refused nonce_replay
      else record { valid = true; envelope = some envelope; reason_code = none }

  -- `opened` is what `validateContinuityEnvelope` of the bindings answered or threw.
  unfoldable pub validate_envelope : Result TstlEnvelope → Expected → ℕ → EnvelopeValidationResult
  unfolding is_session_expired
  validate_envelope (ok envelope) expected now = checked envelope expected now
  validate_envelope (threw err) expected now =
      if is_session_expired err then refused session_expired else refused continuity_failed

  unfoldable pub check_target_binding : TstlEnvelope → String → Bool
  check_target_binding envelope target_id = envelope.target_hash == hash target_id

unfoldable pub increment_counter : TstlEnvelope → TstlEnvelope
increment_counter envelope = record envelope { counter = envelope.counter + 1 }
