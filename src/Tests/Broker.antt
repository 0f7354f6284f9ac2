-- ===== src/Tests/Broker.antt =====
-- Requests through the whole pipeline.
use openclaw_nie_guard.Common.{
  ◌≡◌, ◌⊎◌, refl, String, none, some, Bool, true, List, [], ◌∷◌, lookup, string_eq,
}
use openclaw_nie_guard.Types.{export_data, file_read, rag, public}
use openclaw_nie_guard.Lineage.{is_untrusted_origin}
use openclaw_nie_guard.Labels
use openclaw_nie_guard.Envelope.{TstlEnvelope}
use openclaw_nie_guard.Bindings.{
  attest, AdmissionRequest, AttestationResult, MockState, TokenVerificationResult, verify_token,
}
use openclaw_nie_guard.Broker.Deadline.{Work, default_deadlines}
use openclaw_nie_guard.Broker.Services.{BrokerServices, Handled, record_then}
use openclaw_nie_guard.Broker.Request.{InvokeRequest}
use openclaw_nie_guard.Broker.Invoke.{invoke}
use openclaw_nie_guard.Broker.Clearance.{Gates, invoke_calls_gated}
use openclaw_nie_guard.Broker.Accounted.{Accounted}
use openclaw_nie_guard.Broker.Recorded.{invoke_recorded}
use openclaw_nie_guard.Broker.Bound.{Bound, invoke-Bound, invoke_tainted}
use openclaw_nie_guard.Broker.Context.{RegisterRequest, register, register_verified, register_in}
use openclaw_nie_guard.Broker.Admission.{admit, parsed_admission}
use openclaw_nie_guard.Broker.Admitted.{admit_recorded, AdmissionAccountedAs}
use openclaw_nie_guard.Broker.Answered.{RegistrationAccounted, register_recorded}
use openclaw_nie_guard.Broker.Registered.{registered_blocks, here, next, registers}
use openclaw_nie_guard.Tests.Fixtures.{
  marked, mcp_label, admitted_state, mock_bindings, transport, services, read_request, request_for,
}

abbrev canonical : TstlEnvelope → String
canonical envelope = envelope.operation_type

abbrev handled : BrokerServices MockState → InvokeRequest → Handled MockState
handled s asked =
    invoke mock_bindings transport default_deadlines marked canonical (request_for asked) s

invoke_calls_gated_example :
    ((handled services read_request).0.transport_calls ≡ [])
    ⊎ Gates mock_bindings transport default_deadlines marked canonical
        (request_for read_request)
        services
        (handled services read_request).0.transport_calls
invoke_calls_gated_example =
    invoke_calls_gated mock_bindings transport default_deadlines marked canonical
      (request_for read_request) services

invoke_recorded_example : Accounted "c1" [] (handled services read_request)
invoke_recorded_example =
    invoke_recorded mock_bindings transport default_deadlines marked canonical
      (request_for read_request) services

invoke-Bound_example :
    ((handled services read_request).0.transport_calls ≡ [])
    ⊎ Bound mock_bindings transport default_deadlines marked canonical
        (request_for read_request)
        services
        read_request
        (handled services read_request).0.transport_calls
invoke-Bound_example =
    invoke-Bound mock_bindings transport default_deadlines marked canonical
      (request_for read_request) services read_request refl

abbrev tainted_services : BrokerServices MockState
tainted_services = record services {
  session_labels =
      (
        "s1",
        record {
          label = mcp_label;
          tainted_at = some 1500;
          tainted_by = none;
          untrusted_ancestors = "page" ∷ [];
        },
      )
      ∷ [];
}

abbrev export_request : InvokeRequest
export_request = record read_request { operation_class = export_data; envelope = "export.data" }

abbrev verified : TokenVerificationResult
verified = record {
  valid = true;
  session_id = some "s1";
  subject_id = some "alice";
  device_fingerprint = some "d1";
  role = some "operator";
  requested_operation_set = some (file_read ∷ export_data ∷ []);
  expires_at = some 900000;
  reason_code = none;
}

is_verified : verify_token admitted_state "token" 2000 ≡ verified
unfolding verify_token lookup
is_verified = refl

invoke_tainted_example : (handled tainted_services export_request).0.transport_calls ≡ []
unfolding Labels.is_tainted Labels.get lookup is_untrusted_origin verify_token
invoke_tainted_example =
    invoke_tainted mock_bindings transport default_deadlines marked canonical
      (request_for export_request) tainted_services export_request verified refl refl refl refl

abbrev page : RegisterRequest
page = record {
  capability_token = "token";
  elements =
      (record {
        element_id = "e1";
        provenance = rag;
        classification = public;
        content_hash = "page";
      })
      ∷ [];
}

-- Ids in the order in which they came.
abbrev at_most : String → String → Bool
at_most a b = true

abbrev first_text : List String → String
first_text [] = ""
first_text (s ∷ ss) = s

abbrev registered : Handled MockState
registered = register mock_bindings marked at_most first_text "c0" 1500 services (some page)

-- A registration of no elements, in the same session after that.
abbrev clean : RegisterRequest
clean = record page { elements = [] }

abbrev registered_again : Handled MockState
registered_again =
    register mock_bindings marked at_most first_text "c1" 1600 registered.0 (some clean)

registered_blocks_example :
    (handled registered_again.0 export_request).0.transport_calls
    ≡ registered_again.0.transport_calls
unfolding verify_token lookup is_untrusted_origin register register_verified register_in record_then
registered_blocks_example =
    registered_blocks mock_bindings marked at_most first_text "c0" 1500 services registered_again.0
      page verified 3 transport default_deadlines canonical (request_for export_request)
      export_request verified refl refl refl refl
      (next here (registers mock_bindings marked at_most first_text "c1" 1600 (some clean))) refl
      refl refl refl

register_recorded_example : RegistrationAccounted "c0" services registered.0 registered.1
register_recorded_example =
    register_recorded mock_bindings marked at_most first_text "c0" 1500 services (some page)

abbrev applicant : AdmissionRequest
applicant = record {
  attestation_package = "package-of-alice";
  requested_role = "operator";
  requested_operation_set = file_read ∷ [];
  device_fingerprint = "d1";
}

abbrev attest_once : MockState → AdmissionRequest → MockState × Work AttestationResult
attest_once s request =
    let (after, result) =
      attest marked s request
        (record { now = 10; random_session_id = "s9"; random_correlation_id = "r9" }) in
    (after, record { settles_after = some 2; result = result })

admit_recorded_example :
    let (after, reply) = admit attest_once "disk" "c2" services (parsed_admission applicant) in
    AdmissionAccountedAs "c2" [] after.providence.log.entries reply
admit_recorded_example =
    admit_recorded attest_once "disk" "c2" services (parsed_admission applicant)
