-- ===== src/Tests/Fixtures.antt =====
-- Inputs that the tests share.
use openclaw_nie_guard.Common.{String, none, some, true, false, [], ◌∷◌, string_eq}
use openclaw_nie_guard.Types.{
  file_read, export_data, read, public, regulated, sensitive, user, rag, mcp_response, concat, ok,
}
use openclaw_nie_guard.Lineage.{Label}
use openclaw_nie_guard.Labels.{Element}
use openclaw_nie_guard.Envelope.{TstlEnvelope, outbound}
use openclaw_nie_guard.Adapter.{OpenClawTransport}
use openclaw_nie_guard.Bindings.{MockState, TokenState, initial, verify_token, consume_nonce}
use openclaw_nie_guard.Broker.Services.{NieBindings, BrokerServices}
use openclaw_nie_guard.Broker.Request.{Request, InvokeRequest, parsed, zero_hash}

-- A hash without collisions.
abbrev pub marked : String → String
marked s = concat ("#" ∷ s ∷ [])

abbrev pub user_label : Label
user_label = record { classification = sensitive; origins = user ∷ [] }

abbrev pub mcp_label : Label
mcp_label = record { classification = regulated; origins = mcp_response ∷ user ∷ [] }

abbrev pub web_element : Element
web_element = record { provenance = rag; classification = public; content_hash = some "page" }

abbrev pub own_element : Element
own_element = record { provenance = user; classification = sensitive; content_hash = some "note" }

abbrev pub token_entry : TokenState
token_entry = record {
  session_id = "s1";
  subject_id = "alice";
  device_fingerprint = "d1";
  role = "operator";
  requested_operation_set = file_read ∷ export_data ∷ [];
  expires_at = 900000;
}

abbrev pub admitted_state : MockState
admitted_state = record initial {
  active_tokens = ("token", token_entry) ∷ [];
  seen_nonces = ("s1", []) ∷ [];
}

abbrev pub envelope_of : String → TstlEnvelope
envelope_of scope = record {
  device_fingerprint = "d1";
  session_id = "s1";
  session_nonce_lineage = [];
  role_scope_hash = marked scope;
  operation_type = scope;
  target_hash = marked "file-7";
  directionality = outbound;
  broker_path_id = "b1";
  process_context_fingerprint = none;
  network_path_fingerprint = none;
  context_manifest_hash = zero_hash;
  intent_hash = "i";
  intent_class = read;
  classification = public;
  issued_at = 1000;
  expires_at = 301000;
  counter = 1;
}

abbrev pub mock_bindings : NieBindings MockState
mock_bindings = record {
  verify_token =
      λ s token. record { settles_after = some 3; result = ok (verify_token s token 2000) };
  consume_nonce = λ s nonce session_id.
      let (after, result) = consume_nonce s nonce session_id in
      (after, record { settles_after = some 1; result = ok result });
  validate_continuity_envelope =
      λ s scope. record { settles_after = some 5; result = ok (envelope_of scope) };
  readable_envelope_digest = λ s envelope. none;
}

abbrev pub transport : OpenClawTransport
transport = record {
  name = "recorder";
  version = none;
  call = λ method op. record { ok = true; forwarded = none; result = none; error = none };
}

abbrev pub services : BrokerServices MockState
services = record {
  bindings = admitted_state;
  policy = record { bundle = none };
  providence = record {
    log = record { entries = []; refuses = false; is_durable = λ n. true };
    forward_stamp = [];
  };
  registered_manifests = [];
  session_labels = [];
  transport_calls = [];
}

abbrev pub read_request : InvokeRequest
read_request = record {
  capability_token = "token";
  envelope = "file.read";
  operation_class = file_read;
  target_id = "file-7";
  target_class = "file";
  intent_hash = "i";
  context_manifest_hash = zero_hash;
  nonce = "n1";
  correlation_id = "c0";
}

abbrev pub request_for : InvokeRequest → Request
request_for asked = record {
  body = parsed asked;
  cosign_receipt = none;
  correlation_id = "c1";
  now = 2000;
  transport_takes = some 40;
}
