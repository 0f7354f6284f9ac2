-- ===== src/Broker/Execute.antt =====
-- routes/invoke.ts, layers 7 to 9 of POST /v1/invoke: the policy, dual control and the adapter. A layer
-- ends the request, or hands it to the next. `canonical` is the canonical text of an envelope (`jcs`).
use openclaw_nie_guard.Common.{
  String, Option, none, some, false, not, ◌&&◌, [], ◌∷◌, ◌++◌, map, string_eq, if◌then◌else◌,
  ◌or_else◌,
}
use openclaw_nie_guard.Types.{
  operation_class_eq, operation_name, intent_class_eq, profile_name, mode_name, classification_name,
  ErrorCode, upstream_timeout, scope_denied, dual_control_required, str, obj, member, end, strings,
  concat, ok,
}
use openclaw_nie_guard.Envelope.{TstlEnvelope}
use openclaw_nie_guard.Policy.{PolicyEvaluationInput, PolicyDecision, evaluate}
use openclaw_nie_guard.Adapter.{
  OpenClawTransport, MediatedOperation, Method, AdapterResponse, forward,
}
use openclaw_nie_guard.Labels
use openclaw_nie_guard.Bindings.{TokenVerificationResult}
use openclaw_nie_guard.Broker.Audit.{
  EventType, deny, invoke as invoke_event, scope_fail, tool_block, dual_control_requested,
}
use openclaw_nie_guard.Broker.Deadline.{on_awaited, Work, with_deadline, Deadlines}
use openclaw_nie_guard.Broker.Services.{
  NieBindings, BrokerServices, refusal, Handled, record_then, record_forwarded_then,
}
use openclaw_nie_guard.Broker.Request.{
  InvokeRequest, Request, truthy, stage, late, given, predicates_json, about, error_code,
  error_message,
}

module _ {S : Type 0} (bindings : NieBindings S) (transport : OpenClawTransport)
    (deadlines : Deadlines) (hash : String → String) (canonical : TstlEnvelope → String)
    (request : Request) where
  -- What is recorded of an answer of the adapter, and what the client is told.
  unfoldable pub answer_layer :
      BrokerServices S
      → InvokeRequest
      → TokenVerificationResult
      → TstlEnvelope
      → PolicyDecision
      → String
      → AdapterResponse
      → Handled S
  answer_layer s body token envelope decision binding_hash r =
      let blocked =
        record (about request token tool_block (error_code r.error)
          (("stage", str "adapter") ∷ given "reason" (error_message r.error) [])) {
            operation_class = some body.operation_class;
          } in
      let told =
        refusal 403 (error_code r.error)
          (error_message r.error or_else "Adapter forward failed.") in
      if not r.ok
      then if (r.forwarded or_else false)
        then record_forwarded_then s blocked (λ _. told)
        else record_then s blocked told
      else record_forwarded_then s
          (record {
            event_type = invoke_event;
            correlation_id = some request.correlation_id;
            session_id = token.session_id;
            subject_id = token.subject_id;
            device_fingerprint = token.device_fingerprint;
            payload_digest = some (hash (canonical envelope));
            operation_class = some body.operation_class;
            target_hash = some envelope.target_hash;
            classification = some envelope.classification;
            reason_code = none;
            metadata = some (
                ("profile", str (profile_name decision.profile))
                ∷ ("allowedFheModes", strings (map mode_name decision.allowed_fhe_modes))
                ∷ ("bindingHash", str binding_hash)
                ∷ ("predicates", predicates_json decision.predicates)
                ∷ []);
          })
          (λ position. record {
            status = 200;
            code = none;
            message = none;
            result = r.result;
            event = some position;
          })

  abbrev binding_of : InvokeRequest → String
  binding_of body = hash (
      concat (
        request.correlation_id
        ∷ ":"
        ∷ body.target_id
        ∷ ":"
        ∷ operation_name body.operation_class
        ∷ []))

  -- What the transport is asked to do.
  abbrev pub mediated_of : InvokeRequest → TstlEnvelope → PolicyDecision → MediatedOperation
  mediated_of body envelope decision = record {
    operation_class = body.operation_class;
    target_id = body.target_id;
    target_class = body.target_class;
    payload = obj (
        member "classification" (str (classification_name envelope.classification))
          (member "profile" (str (profile_name decision.profile)) end));
    binding_hash = binding_of body;
    correlation_id = request.correlation_id;
  }

  -- An answer without a call of the transport is there at once.
  abbrev pub adapter_work : Option Method → AdapterResponse → Work AdapterResponse
  adapter_work none r = record { settles_after = some 0; result = ok r }
  adapter_work (some method) r = record { settles_after = request.transport_takes; result = ok r }

  abbrev pub noted : BrokerServices S → Option Method → MediatedOperation → BrokerServices S
  noted s none op = s
  noted s (some method) op = record s { transport_calls = s.transport_calls ++ (method, op) ∷ [] }

  -- Layer 9: the transport is called, and the answer awaited.
  unfoldable pub adapter_layer :
      BrokerServices S
      → InvokeRequest
      → TokenVerificationResult
      → TstlEnvelope
      → PolicyDecision
      → Handled S
  unfolding answer_layer
  adapter_layer s body token envelope decision =
      let binding_hash = binding_of body in
      let mediated = mediated_of body envelope decision in
      let (called, r) = forward transport mediated decision.profile in
      let s' = noted s called mediated in
      on_awaited (with_deadline deadlines.adapter_forward (adapter_work called r))
        (λ err. (s', none))
        (λ budget_ms.
          record_forwarded_then s'
            (record (about request token tool_block upstream_timeout (late "adapter" budget_ms)) {
              operation_class = some body.operation_class;
            })
            (λ _.
              refusal 403 upstream_timeout "Adapter forward did not complete within its deadline."))
        (λ answer. answer_layer s' body token envelope decision binding_hash answer)

  -- Layer 8: dual control.
  unfoldable pub dual_control_layer :
      BrokerServices S
      → InvokeRequest
      → TokenVerificationResult
      → TstlEnvelope
      → PolicyDecision
      → Handled S
  unfolding adapter_layer
  dual_control_layer s body token envelope decision =
      if decision.requires_dual_control && not (truthy request.cosign_receipt)
      then record_then s
          (record (about request token dual_control_requested dual_control_required
            (stage "dual-control")) { operation_class = some body.operation_class })
          (refusal 202 dual_control_required
            "Operation requires cosign receipt. Obtain via /v1/cosign and retry with X-XSOC-Cosign-Receipt header.")
      else adapter_layer s body token envelope decision

  abbrev pub policy_input :
      BrokerServices S
      → InvokeRequest
      → TokenVerificationResult
      → TstlEnvelope
      → PolicyEvaluationInput
  policy_input s body token envelope = record {
    subject_id = token.subject_id or_else "unknown";
    role = token.role or_else "";
    operation_class = body.operation_class;
    target_class = body.target_class;
    classification = envelope.classification;
    intent_class = envelope.intent_class;
    requested_profile = none;
    session_label = some (Labels.get s.session_labels (token.session_id or_else ""));
    session_ancestors = some (Labels.ancestors s.session_labels (token.session_id or_else ""));
  }

  abbrev pub denied_event : Option ErrorCode → EventType
  denied_event (some scope_denied) = scope_fail
  denied_event _ = deny

  -- Layer 7: the policy. Where the engine throws, so does the handler.
  unfoldable pub policy_layer :
      BrokerServices S → InvokeRequest → TokenVerificationResult → TstlEnvelope → Handled S
  unfolding dual_control_layer
  policy_layer s body token envelope =
      elim (evaluate s.policy (policy_input s body token envelope)) [
        | none ↦ (s, none)
        | some decision ↦
            if not decision.allowed
            then record_then s
                (record {
                  event_type = denied_event decision.deny_reason_code;
                  correlation_id = some request.correlation_id;
                  session_id = token.session_id;
                  subject_id = token.subject_id;
                  device_fingerprint = token.device_fingerprint;
                  payload_digest = none;
                  operation_class = some body.operation_class;
                  target_hash = none;
                  classification = some envelope.classification;
                  reason_code = decision.deny_reason_code;
                  metadata = some (
                      ("stage", str "policy")
                      ∷ given "reason" decision.deny_reason
                          (("predicates", predicates_json decision.predicates) ∷ []));
                })
                (record {
                  status = 403;
                  code = decision.deny_reason_code;
                  message = decision.deny_reason;
                  result = none;
                  event = none;
                })
            else dual_control_layer s body token envelope decision
      ]
