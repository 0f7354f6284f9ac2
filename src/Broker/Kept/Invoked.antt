-- ===== src/Broker/Kept/Invoked.antt =====
-- POST /v1/invoke leaves the labels of the sessions, on every path through its layers.
use openclaw_nie_guard.Common.{
  ◌≡◌, refl, ◌∙◌, String, Option, none, some, Bool, true, false, not, ◌&&◌, ◌||◌, ◌==◌, string_eq,
  includes, ◌or_else◌,
}
use openclaw_nie_guard.Types.{operation_class_eq, operation_to_intent, intent_class_eq, ErrorCode}
use openclaw_nie_guard.Envelope.{TstlEnvelope}
use openclaw_nie_guard.Policy.{PolicyDecision, evaluate}
use openclaw_nie_guard.Adapter.{
  OpenClawTransport, MediatedOperation, Method, AdapterResponse, forward,
}
use openclaw_nie_guard.Bindings.{TokenVerificationResult}
use openclaw_nie_guard.Broker.Deadline.{with_deadline, Deadlines}
use openclaw_nie_guard.Broker.Services.{
  NieBindings, BrokerServices, record_then, record_forwarded_then,
}
use openclaw_nie_guard.Broker.Request.{
  InvokeRequest, Parsed, malformed, parsed, Request, zero_hash, truthy,
}
use openclaw_nie_guard.Broker.Execute.{
  answer_layer, adapter_layer, dual_control_layer, policy_layer, policy_input, mediated_of, noted,
  adapter_work,
}
use openclaw_nie_guard.Broker.Invoke.{
  manifest_layer, intent_layer, envelope_answer, envelope_layer, nonce_layer, token_layer,
  shape_layer, validation, invoke,
}
use openclaw_nie_guard.Broker.Kept.{Keeps, by_if, by_await, by_decision}

module _ {S : Type 0} (bindings : NieBindings S) (transport : OpenClawTransport)
    (deadlines : Deadlines) (hash : String → String) (canonical : TstlEnvelope → String)
    (request : Request) where
  noted-labels :
      (s : BrokerServices S) (called : Option Method) (op : MediatedOperation)
      → (noted bindings transport deadlines hash canonical request s called op).session_labels
        ≡ s.session_labels
  noted-labels s none op = refl
  noted-labels s (some method) op = refl

  answer_layer-Keeps :
      (s : BrokerServices S) (body : InvokeRequest) (token : TokenVerificationResult)
      (envelope : TstlEnvelope) (decision : PolicyDecision) (binding_hash : String)
      (r : AdapterResponse)
      → Keeps s.session_labels (
          answer_layer bindings transport deadlines hash canonical request s body token envelope
            decision binding_hash r)
  unfolding answer_layer record_then record_forwarded_then
  answer_layer-Keeps s body token envelope decision binding_hash r =
      by_if s.session_labels (not r.ok) _ _
        (by_if s.session_labels (r.forwarded or_else false) _ _ refl refl) refl

  adapter_layer-Keeps :
      (s : BrokerServices S) (body : InvokeRequest) (token : TokenVerificationResult)
      (envelope : TstlEnvelope) (decision : PolicyDecision)
      → Keeps s.session_labels (
          adapter_layer bindings transport deadlines hash canonical request s body token envelope
            decision)
  unfolding adapter_layer record_forwarded_then
  adapter_layer-Keeps s body token envelope decision =
      let op =
        mediated_of bindings transport deadlines hash canonical request body envelope decision in
      let (called, r) = forward transport op decision.profile in
      let s' = noted bindings transport deadlines hash canonical request s called op in
      let kept = noted-labels s called op in
      by_await s.session_labels
        (with_deadline deadlines.adapter_forward
          (adapter_work bindings transport deadlines hash canonical request called r))
        _ _
        (answer_layer bindings transport deadlines hash canonical request s' body token envelope
          decision op.binding_hash)
        (λ err. kept) (λ budget_ms. kept)
        (λ answer. answer_layer-Keeps s' body token envelope decision op.binding_hash answer ∙ kept)

  policy_layer-Keeps :
      (s : BrokerServices S) (body : InvokeRequest) (token : TokenVerificationResult)
      (envelope : TstlEnvelope)
      → Keeps s.session_labels
          (policy_layer bindings transport deadlines hash canonical request s body token envelope)
  unfolding policy_layer dual_control_layer record_then
  policy_layer-Keeps s body token envelope =
      by_decision s.session_labels
        (evaluate s.policy
          (policy_input bindings transport deadlines hash canonical request s body token envelope))
        _ s refl
        (λ decision. by_if s.session_labels (not decision.allowed) _ _ refl (
          by_if s.session_labels
            (decision.requires_dual_control && not (truthy request.cosign_receipt)) _ _ refl
            (adapter_layer-Keeps s body token envelope decision)))

  intent_layer-Keeps :
      (s : BrokerServices S) (body : InvokeRequest) (token : TokenVerificationResult)
      (envelope : TstlEnvelope)
      → Keeps s.session_labels
          (intent_layer bindings transport deadlines hash canonical request s body token envelope)
  unfolding intent_layer manifest_layer record_then
  intent_layer-Keeps s body token envelope =
      by_if s.session_labels
        (not (includes (operation_to_intent body.operation_class) envelope.intent_class)) _ _ refl
        (by_if s.session_labels
          (not (envelope.context_manifest_hash == zero_hash)
            && not (includes s.registered_manifests envelope.context_manifest_hash))
          _ _ refl (policy_layer-Keeps s body token envelope))

  envelope_answer-Keeps :
      (s : BrokerServices S) (body : InvokeRequest) (token : TokenVerificationResult)
      (code : Option ErrorCode) (valid : Bool) (envelope : Option TstlEnvelope)
      → Keeps s.session_labels (
          envelope_answer bindings transport deadlines hash canonical request s body token code
            valid envelope)
  unfolding envelope_answer record_then
  envelope_answer-Keeps s body token code true (some envelope) =
      intent_layer-Keeps s body token envelope
  envelope_answer-Keeps s body token code true none = refl
  envelope_answer-Keeps s body token code false envelope = refl

  envelope_layer-Keeps :
      (s : BrokerServices S) (body : InvokeRequest) (token : TokenVerificationResult)
      → Keeps s.session_labels
          (envelope_layer bindings transport deadlines hash canonical request s body token)
  unfolding envelope_layer record_forwarded_then
  envelope_layer-Keeps s body token =
      by_await s.session_labels
        (with_deadline deadlines.envelope_validate
          (validation bindings transport deadlines hash canonical request s body))
        _ _
        (λ check.
          envelope_answer bindings transport deadlines hash canonical request s body token
            check.reason_code check.valid check.envelope)
        (λ err. refl) (λ budget_ms. refl)
        (λ check. envelope_answer-Keeps s body token check.reason_code check.valid check.envelope)

  nonce_layer-Keeps :
      (s : BrokerServices S) (body : InvokeRequest) (token : TokenVerificationResult)
      → Keeps s.session_labels
          (nonce_layer bindings transport deadlines hash canonical request s body token)
  unfolding nonce_layer record_then record_forwarded_then
  nonce_layer-Keeps s body token =
      let (consumed, work) =
        bindings.consume_nonce s.bindings body.nonce (token.session_id or_else "") in
      let s' = record s { bindings = consumed } in
      by_await s.session_labels (with_deadline deadlines.nonce_consume work) _ _ _ (λ err. refl)
        (λ budget_ms. refl)
        (λ nonce_result.
          by_if s.session_labels (not nonce_result.first_use) _ _ refl
            (envelope_layer-Keeps s' body token))

  token_layer-Keeps :
      (s : BrokerServices S) (body : InvokeRequest)
      → Keeps s.session_labels
          (token_layer bindings transport deadlines hash canonical request s body)
  unfolding token_layer record_then record_forwarded_then
  token_layer-Keeps s body =
      by_await s.session_labels
        (with_deadline deadlines.token_verify
          (bindings.verify_token s.bindings body.capability_token))
        _ _ _ (λ err. refl) (λ budget_ms. refl)
        (λ token.
          by_if s.session_labels
            (not token.valid || not (truthy token.session_id) || not (truthy token.role)) _ _ refl
            (nonce_layer-Keeps s body token))

  shape_layer-Keeps :
      (s : BrokerServices S) (shape : Parsed)
      → Keeps s.session_labels
          (shape_layer bindings transport deadlines hash canonical request s shape)
  unfolding record_then
  shape_layer-Keeps s (malformed flaws) = refl
  shape_layer-Keeps s (parsed body) = token_layer-Keeps s body

  pub invoke-Keeps :
      (s : BrokerServices S)
      → Keeps s.session_labels (invoke bindings transport deadlines hash canonical request s)
  unfolding invoke
  invoke-Keeps s = shape_layer-Keeps s request.body
