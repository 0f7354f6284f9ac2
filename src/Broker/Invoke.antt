-- ===== src/Broker/Invoke.antt =====
-- routes/invoke.ts, layers 1 to 6 of POST /v1/invoke: the shape of the request, the token, the nonce, the
-- envelope, the intent and the context manifest.
use openclaw_nie_guard.Common.{
  String, Option, none, some, Bool, true, false, not, ◌&&◌, ◌||◌, [], ◌∷◌, includes, ◌==◌,
  string_eq, if◌then◌else◌, ◌or_else◌,
}
use openclaw_nie_guard.Types.{
  operation_class_eq, operation_name, operation_to_intent, intent_class_eq, intent_name, ErrorCode,
  policy_violation, upstream_timeout, session_expired, nonce_replay, continuity_failed,
  intent_drift as intent_drift_code, context_manifest_invalid, str, concat, ok,
}
use openclaw_nie_guard.Envelope.{
  TstlEnvelope, EnvelopeValidationResult, Expected, validate_envelope,
}
use openclaw_nie_guard.Adapter.{OpenClawTransport}
use openclaw_nie_guard.Bindings.{TokenVerificationResult}
use openclaw_nie_guard.Broker.Audit.{deny, continuity_fail, replay_fail, intent_drift}
use openclaw_nie_guard.Broker.Deadline.{on_awaited, Work, with_deadline, Deadlines}
use openclaw_nie_guard.Broker.Services.{
  NieBindings, BrokerServices, refusal, Handled, record_then, record_forwarded_then,
}
use openclaw_nie_guard.Broker.Request.{
  InvokeRequest, Parsed, malformed, parsed, Request, zero_hash, truthy, stage, late,
  envelope_rejection_class, rejected_event, rejected_metadata, about, unattributed,
}
use openclaw_nie_guard.Broker.Execute.{policy_layer}

module _ {S : Type 0} (bindings : NieBindings S) (transport : OpenClawTransport)
    (deadlines : Deadlines) (hash : String → String) (canonical : TstlEnvelope → String)
    (request : Request) where
  -- Layer 6: the manifest that the envelope names is registered, or is the zero hash.
  unfoldable pub manifest_layer :
      BrokerServices S → InvokeRequest → TokenVerificationResult → TstlEnvelope → Handled S
  unfolding policy_layer
  manifest_layer s body token envelope =
      if not (envelope.context_manifest_hash == zero_hash)
        && not (includes s.registered_manifests envelope.context_manifest_hash)
      then record_then s (about request token deny context_manifest_invalid (stage "manifest"))
          (refusal 403 context_manifest_invalid "Context manifest not registered.")
      else policy_layer bindings transport deadlines hash canonical request s body token envelope

  -- Layer 5: the intent that the envelope declares fits the operation.
  unfoldable pub intent_layer :
      BrokerServices S → InvokeRequest → TokenVerificationResult → TstlEnvelope → Handled S
  unfolding manifest_layer
  intent_layer s body token envelope =
      if not (includes (operation_to_intent body.operation_class) envelope.intent_class)
      then record_then s
          (record (about request token intent_drift intent_drift_code (
            ("declaredIntent", str (intent_name envelope.intent_class))
            ∷ ("operationClass", str (operation_name body.operation_class))
            ∷ [])) { operation_class = some body.operation_class })
          (refusal 403 intent_drift_code (
            concat (
              "Intent "
              ∷ intent_name envelope.intent_class
              ∷ " not permitted for "
              ∷ operation_name body.operation_class
              ∷ "."
              ∷ [])))
      else manifest_layer s body token envelope

  abbrev pub expected : InvokeRequest → Expected
  expected body = record {
    target_id = some body.target_id;
    role_scope = some (operation_name body.operation_class);
    min_counter = none;
  }

  -- `validateEnvelope` catches what the bindings throw, so its own work always returns.
  abbrev pub validation : BrokerServices S → InvokeRequest → Work EnvelopeValidationResult
  validation s body =
      let work = bindings.validate_continuity_envelope s.bindings body.envelope in
      record {
        settles_after = work.settles_after;
        result = ok (validate_envelope hash work.result (expected body) request.now);
      }

  abbrev rejection :
      BrokerServices S → InvokeRequest → TokenVerificationResult → Option ErrorCode → Handled S
  rejection s body token code =
      let class = envelope_rejection_class code in
      record_then s
        (record {
          event_type = rejected_event class code;
          correlation_id = some request.correlation_id;
          session_id = token.session_id;
          subject_id = token.subject_id;
          device_fingerprint = token.device_fingerprint;
          payload_digest = bindings.readable_envelope_digest s.bindings body.envelope;
          operation_class = some body.operation_class;
          target_hash = none;
          classification = none;
          reason_code = code;
          metadata = some (rejected_metadata class);
        })
        (refusal 403 (code or_else continuity_failed) "Envelope validation failed.")

  unfoldable pub envelope_answer :
      BrokerServices S
      → InvokeRequest
      → TokenVerificationResult
      → Option ErrorCode
      → Bool
      → Option TstlEnvelope
      → Handled S
  unfolding intent_layer
  envelope_answer s body token code true (some envelope) = intent_layer s body token envelope
  envelope_answer s body token code true none = rejection s body token code
  envelope_answer s body token code false envelope = rejection s body token code

  -- Layer 4: the envelope.
  unfoldable pub envelope_layer :
      BrokerServices S → InvokeRequest → TokenVerificationResult → Handled S
  unfolding envelope_answer
  envelope_layer s body token =
      on_awaited (with_deadline deadlines.envelope_validate (validation s body)) (λ err. (s, none))
        (λ budget_ms.
          record_forwarded_then s
            (record (about request token continuity_fail upstream_timeout
              (late "envelope" budget_ms)) { operation_class = some body.operation_class })
            (λ _.
              refusal 403 upstream_timeout
                "Envelope validation did not complete within its deadline."))
        (λ check. envelope_answer s body token check.reason_code check.valid check.envelope)

  -- Layer 3: the nonce is used once in its session. The bindings consume it also if the request no
  -- longer waits for their answer.
  unfoldable pub nonce_layer :
      BrokerServices S → InvokeRequest → TokenVerificationResult → Handled S
  unfolding envelope_layer
  nonce_layer s body token =
      let (consumed, work) =
        bindings.consume_nonce s.bindings body.nonce (token.session_id or_else "") in
      let s' = record s { bindings = consumed } in
      on_awaited (with_deadline deadlines.nonce_consume work) (λ err. (s', none))
        (λ budget_ms.
          record_forwarded_then s'
            (about request token deny upstream_timeout (late "nonce" budget_ms))
            (λ _.
              refusal 403 upstream_timeout
                "Nonce consumption did not complete within its deadline."))
        (λ nonce_result.
          if not nonce_result.first_use
          then record_then s' (about request token replay_fail nonce_replay (stage "nonce"))
              (refusal 403 nonce_replay "Nonce already consumed in this session.")
          else envelope_layer s' body token)

  -- Layer 2: the capability token.
  unfoldable pub token_layer : BrokerServices S → InvokeRequest → Handled S
  unfolding nonce_layer
  token_layer s body =
      on_awaited
        (with_deadline deadlines.token_verify
          (bindings.verify_token s.bindings body.capability_token))
        (λ err. (s, none))
        (λ budget_ms.
          record_forwarded_then s
            (unattributed request upstream_timeout (late "token-verify" budget_ms))
            (λ _.
              refusal 403 upstream_timeout
                "Token verification did not complete within its deadline."))
        (λ token.
          if not token.valid || not (truthy token.session_id) || not (truthy token.role)
          then record_then s
              (unattributed request (token.reason_code or_else session_expired)
                (stage "token-verify"))
              (refusal 401 (token.reason_code or_else session_expired) "Capability token invalid.")
          else nonce_layer s body token)

  abbrev pub shape_layer : BrokerServices S → Parsed → Handled S
  shape_layer s (malformed validation) =
      record_then s
        (unattributed request policy_violation
          (("stage", str "shape") ∷ ("validation", validation) ∷ []))
        (refusal 400 policy_violation "Invalid invoke request shape.")
  shape_layer s (parsed body) = token_layer s body

  -- Layer 1: the shape of the request.
  unfoldable pub invoke : BrokerServices S → Handled S
  unfolding token_layer
  invoke s = shape_layer s request.body
