-- ===== src/Tests/Gateway.antt =====
-- A gateway that answers every call, and an operation that reads one of its targets.
use openclaw_nie_guard.Common.{
  ◌≡◌, ◌↔◌, refl, none, some, true, false, ◌⊎◌, [], ◌∷◌, is_some, lookup, string_eq,
}
use openclaw_nie_guard.Common.{is_space}
use openclaw_nie_guard.Types.{file_read, null, standard, utf16_length}
use openclaw_nie_guard.Adapter.{MediatedOperation, forward}
use openclaw_nie_guard.Adapter.Forwarding.{goes_through}
use openclaw_nie_guard.Adapter.Gateway.{
  GatewayTarget, GatewayBody, GatewayCall, Fetched, answered, OpenClawGatewayTransportOptions,
  accepts_options, gateway_transport, call_of, read_result,
}
use openclaw_nie_guard.Adapter.Gateway.Answers.{
  is_read, gateway_call, calls_of, gateway_is_called, success_is_read,
}

abbrev options : OpenClawGatewayTransportOptions
options = record {
  url = record {
    protocol = "http:";
    hostname = "127.0.0.1";
    host = "127.0.0.1:18789";
    pathname = "/";
    search = "";
    fragment = "";
    username = "";
    password = "";
  };
  token = "secret";
  version = "2026.1.30";
  targets = ("notes", record { tool = "memory_get"; path = "notes.md" }) ∷ [];
}

options_accepted : accepts_options options ≡ true
unfolding accepts_options utf16_length is_space
options_accepted = refl

abbrev fetch : GatewayCall → Fetched
fetch call = answered 200 (record {
  ok = true;
  error_message = none;
  details = record {
    status = some "ok";
    code = none;
    error = none;
    text = some "hello";
    path = none;
    lines = some 1;
  };
})

abbrev read_notes : MediatedOperation
read_notes = record {
  operation_class = file_read;
  target_id = "notes";
  target_class = "file";
  payload = null;
  binding_hash = "h";
  correlation_id = "c1";
}

gateway_is_called_example :
    let (method, response) = forward (gateway_transport options fetch) read_notes standard in
    (calls_of options fetch method read_notes ≡ gateway_call options fetch read_notes standard)
    × ((response.forwarded ≡ some true)
        ↔ (is_some (gateway_call options fetch read_notes standard) ≡ true))
gateway_is_called_example = gateway_is_called options fetch read_notes standard

success_is_read_example :
    let (method, response) = forward (gateway_transport options fetch) read_notes standard in
    ((response.ok ≡ true) ↔ (
      (target : GatewayTarget) × (body : GatewayBody) × (lookup read_notes.target_id options.targets
        ≡ some target)
      × (goes_through read_notes.operation_class standard ≡ true)
      × (is_read read_notes.operation_class ≡ true)
      × (fetch (call_of options fetch target read_notes) ≡ answered 200 body)
      × (body.ok ≡ true)
      × (body.details.status ≡ some "ok")))
    × ((response.ok ≡ false)
        ⊎ ((target : GatewayTarget) × (body : GatewayBody) × (lookup read_notes.target_id
                options.targets
              ≡ some target)
            × (fetch (call_of options fetch target read_notes) ≡ answered 200 body)
            × (response.result ≡ some (read_result target body.details))))
success_is_read_example = success_is_read options fetch read_notes standard
