-- ===== src/Tests/Bindings.antt =====
-- The reference bindings and the continuity envelope.
use openclaw_nie_guard.Common.{
  string_eq, ◌≡◌, ◌≢◌, ◌≤◌, ◌<◌, ◌↔◌, refl, not, String, none, some, true, false, [], ◌∷◌, lookup,
  includes, all, insert, arith, retain,
}
use openclaw_nie_guard.Types.{
  file_read, read, public, Result, ok, target_mismatch, decimal, first_chars, utf16_length,
  operation_class_eq,
}
use openclaw_nie_guard.Bindings.{
  MockState, TokenState, initial, DerivationRequest, RevocationInput, session,
  derive_scoped_capability, verify_token, revoke_subject, consume_nonce, admitted, attest, token_of,
  AdmissionRequest, Fresh,
}
use openclaw_nie_guard.Bindings.Tokens.{
  here, next, attests, consumes, revocation_final, derive_narrows,
}
use openclaw_nie_guard.Bindings.Nonces.{consume_nonce_lem, nonce_once, is_spent}
use openclaw_nie_guard.Envelope.{
  TstlEnvelope, EnvelopeBuildInput, outbound, Expected, validate_envelope, build_envelope, built,
}
use openclaw_nie_guard.Envelope.Validation.{
  validate_envelope_iff, validate_envelope_codes, validate-build_envelope, Fits, Refusal,
}
use openclaw_nie_guard.Tests.Fixtures.{marked, admitted_state, envelope_of}

abbrev derivation : DerivationRequest
derivation = record {
  parent_capability = "token";
  operation_class_subset = file_read ∷ [];
  ttl_seconds = 60;
}

derived_is :
    (derive_scoped_capability marked admitted_state derivation 2000 "u1").1
    ≡ ok (marked "token:2000:u1")
unfolding derive_scoped_capability lookup decimal
derived_is = refl

derive_narrows_example :
    (parent entry : TokenState) × (lookup "token" admitted_state.active_tokens ≡ some parent)
    × (lookup
          (marked "token:2000:u1")
          (derive_scoped_capability marked admitted_state derivation 2000 "u1").0.active_tokens
        ≡ some entry)
    × (all (includes parent.requested_operation_set) entry.requested_operation_set ≡ true)
    × (entry.requested_operation_set ≡ file_read ∷ [])
    × (entry.expires_at ≤ parent.expires_at)
    × (entry.expires_at ≤ 62000)
    × (2000 < entry.expires_at)
    × (entry.session_id ≡ parent.session_id)
    × (entry.subject_id ≡ parent.subject_id)
    × (entry.device_fingerprint ≡ parent.device_fingerprint)
    × (entry.role ≡ parent.role)
derive_narrows_example =
    derive_narrows marked admitted_state derivation 2000 "u1" (marked "token:2000:u1") derived_is

consume_nonce_lem_example :
    (consume_nonce admitted_state "n1" "s1").1.first_use ≡ not (is_spent admitted_state "n1" "s1")
consume_nonce_lem_example = (consume_nonce_lem admitted_state "n1" "s1" "n2" "s1").0

abbrev first_use : MockState
first_use = (consume_nonce admitted_state "n1" "s1").0

abbrev second_use : MockState
second_use = (consume_nonce first_use "n2" "s1").0

nonce_once_example : (consume_nonce second_use "n1" "s1").1.first_use ≡ false
nonce_once_example =
    nonce_once marked admitted_state second_use "n1" "s1" (next here (consumes first_use "n2" "s1"))

abbrev alice : AdmissionRequest
alice = record {
  attestation_package = "package-of-alice";
  requested_role = "operator";
  requested_operation_set = file_read ∷ [];
  device_fingerprint = "d1";
}

abbrev bob : AdmissionRequest
bob = record alice { attestation_package = "other-package-bob"; device_fingerprint = "d2" }

abbrev first_session : Fresh
first_session = record { now = 10; random_session_id = "s1"; random_correlation_id = "r1" }

abbrev second_session : Fresh
second_session = record { now = 20; random_session_id = "s2"; random_correlation_id = "r2" }

abbrev revocation : RevocationInput
revocation = record { kind = session; id = "s1"; reason = "lost" }

abbrev with_alice : MockState
with_alice = (attest marked initial alice first_session).0

abbrev revoked : MockState
revoked = (revoke_subject with_alice revocation 15).0

abbrev with_bob : MockState
with_bob = (attest marked revoked bob second_session).0

abbrev token_of_bob : String
token_of_bob = "#s2:#other-package-b:d2:20"

s1_is_new : lookup "s1" initial.seen_nonces ≡ none
unfolding lookup
s1_is_new = refl

s2_is_new :
    (includes revoked.revoked_sessions "s2" ≡ false) × (lookup "s2" revoked.seen_nonces ≡ none)
unfolding attest token_of revoke_subject lookup insert retain decimal first_chars utf16_length
    admitted
s2_is_new = (refl, refl)

bob_is_valid : (verify_token with_bob token_of_bob 30).valid ≡ true
unfolding attest token_of revoke_subject verify_token lookup insert retain decimal first_chars
    utf16_length admitted
bob_is_valid = refl

revocation_final_example : (verify_token with_bob token_of_bob 30).session_id ≢ some "s1"
revocation_final_example =
    revocation_final marked with_alice with_bob revocation 15
      (next here (attests initial alice first_session refl s1_is_new))
      (next here (attests revoked bob second_session s2_is_new.0 s2_is_new.1)) token_of_bob 30
      bob_is_valid

abbrev for_file : Expected
for_file = record { target_id = some "file-7"; role_scope = some "file.read"; min_counter = none }

validate_envelope_iff_example :
    ((validate_envelope marked (ok (envelope_of "file.read")) for_file 2000).valid ≡ true) ↔ (
      (envelope : TstlEnvelope) × (ok (envelope_of "file.read") ≡ ok envelope)
      × Fits marked envelope for_file 2000)
validate_envelope_iff_example =
    (validate_envelope_iff marked (ok (envelope_of "file.read")) for_file 2000).0

abbrev other_file : Expected
other_file = record for_file { target_id = some "file-8" }

refused_target :
    ((validate_envelope marked (ok (envelope_of "file.read")) other_file 2000).valid ≡ false)
    × ((validate_envelope marked (ok (envelope_of "file.read")) other_file 2000).reason_code
        ≡ some target_mismatch)
unfolding validate_envelope
refused_target = (refl, refl)

abbrev file_input : EnvelopeBuildInput
file_input = record {
  device_fingerprint = "d1";
  session_id = "s1";
  session_nonce_lineage = [];
  role_scope = "file.read";
  operation_type = "file.read";
  target_id = "file-7";
  directionality = outbound;
  broker_path_id = "b1";
  process_context_fingerprint = none;
  network_path_fingerprint = none;
  context_manifest_hash = "m";
  intent_hash = "i";
  intent_class = read;
  classification = public;
  ttl_seconds = 300;
  counter = 4;
}

abbrev seal : TstlEnvelope → String
seal envelope = envelope.operation_type

abbrev opens : String → Result TstlEnvelope
opens text = ok (built marked file_input 1000)

validate-build_envelope_example :
    validate_envelope marked
      (opens (build_envelope marked seal file_input 1000))
      (record { target_id = some "file-7"; role_scope = some "file.read"; min_counter = some 3 })
      5000
    ≡ record { valid = true; envelope = some (built marked file_input 1000); reason_code = none }
validate-build_envelope_example =
    validate-build_envelope marked seal opens file_input 1000 5000 3 refl (ground arith)
      (ground arith)

validate_envelope_codes_example :
    Refusal marked (ok (envelope_of "file.read")) other_file 2000 target_mismatch
validate_envelope_codes_example =
    validate_envelope_codes marked (ok (envelope_of "file.read")) other_file 2000 target_mismatch
      refused_target.0 refused_target.1
