-- ===== src/Broker/Recorded.antt =====
-- POST /v1/invoke: every answer has its record.
use openclaw_nie_guard.Envelope.Validation.{validate_envelope-named}
use openclaw_nie_guard.Broker.Invoke.{validation, expected, shape_layer}
use openclaw_nie_guard.Broker.Accounted.{
  is_invoke, Accounted, record_then-Accounted, record_forwarded_then-Accounted,
}
use openclaw_nie_guard.Common.{
  subst, false≢true, nat_eq, ◌≡◌, refl, sym, ◌∙◌, arith, ℕ, String, Option, none, some, Bool, true,
  false, not, ◌&&◌, ◌||◌, List, includes, ◌==◌, string_eq, if◌then◌else◌, ◌or_else◌, is_some,
}
use openclaw_nie_guard.Types.{
  Thrown, operation_class_eq, operation_to_intent, intent_class_eq, ErrorCode, continuity_failed,
}
use openclaw_nie_guard.Envelope.{TstlEnvelope, EnvelopeValidationResult, validate_envelope}
use openclaw_nie_guard.Policy.{PolicyDecision, evaluate}
use openclaw_nie_guard.Adapter.{
  OpenClawTransport, MediatedOperation, Method, AdapterResponse, forward,
}
use openclaw_nie_guard.Bindings.{TokenVerificationResult}
use openclaw_nie_guard.Broker.Audit.{AppendInput}
use openclaw_nie_guard.Broker.Deadline.{
  settled_in_time, on_awaited, Awaited, settled, rejected, exceeded, with_deadline, Deadlines,
}
use openclaw_nie_guard.Broker.Services.{
  NieBindings, BrokerServices, Reply, Handled, record_then, record_forwarded_then,
}
use openclaw_nie_guard.Broker.Request.{
  InvokeRequest, Parsed, malformed, parsed, Request, zero_hash, truthy, envelope_rejection_class,
  rejected_event,
}
use openclaw_nie_guard.Broker.Execute.{
  answer_layer, adapter_layer, dual_control_layer, policy_layer, policy_input, mediated_of, noted,
  adapter_work, denied_event,
}
use openclaw_nie_guard.Broker.Invoke.{
  manifest_layer, intent_layer, envelope_answer, envelope_layer, nonce_layer, token_layer, invoke,
}

module _ {S : Type 0} (bindings : NieBindings S) (transport : OpenClawTransport)
    (deadlines : Deadlines) (hash : String → String) (canonical : TstlEnvelope → String)
    (request : Request) (before : List AppendInput) where
  abbrev Recorded : Handled S → Type 0
  Recorded handled = Accounted request.correlation_id before handled

  by_if :
      (b : Bool) (x y : Handled S)
      → (b ≡ true → Recorded x)
      → (b ≡ false → Recorded y)
      → Recorded (if b then x else y)
  by_if true x y f g = f refl
  by_if false x y f g = g refl

  by_await :
      {A : Type 0} (w : Awaited A) (f : Thrown → Handled S) (g : ℕ → Handled S) (h : A → Handled S)
      → ((err : Thrown) → Recorded (f err))
      → ((budget_ms : ℕ) → Recorded (g budget_ms))
      → ((a : A) → w ≡ settled a → Recorded (h a))
      → Recorded (on_awaited w f g h)
  by_await (rejected err) f g h on_error on_late on_answer = on_error err
  by_await (exceeded budget_ms) f g h on_error on_late on_answer = on_late budget_ms
  by_await (settled a) f g h on_error on_late on_answer = on_answer a refl

  by_decision :
      {A : Type 0} (o : Option A) (f : A → Handled S) (s : BrokerServices S)
      → Recorded (s, none)
      → ((a : A) → Recorded (f a))
      → Recorded (elim o [ none ↦ (s, none) | some a ↦ f a ])
  by_decision none f s on_throw on_value = on_throw
  by_decision (some a) f s on_throw on_value = on_value a

  denied_event-other :
      (code : Option ErrorCode)
      → is_invoke (denied_event bindings transport deadlines hash canonical request code) ≡ false
  denied_event-other code = ground arith

  -- A handler that throws has added nothing.
  throws : (s : BrokerServices S) → s.providence.log.entries ≡ before → Recorded (s, none)
  unfolding Accounted
  throws s same = same

  noted-entries :
      (s : BrokerServices S) (called : Option Method) (op : MediatedOperation)
      → (noted bindings transport deadlines hash canonical request s called
          op).providence.log.entries
        ≡ s.providence.log.entries
  noted-entries s none op = refl
  noted-entries s (some method) op = refl

  refused :
      (s : BrokerServices S) (input : AppendInput) (reply : Reply)
      → s.providence.log.entries ≡ before
      → input.correlation_id ≡ some request.correlation_id
      → input.reason_code ≡ reply.code
      → is_invoke input.event_type ≡ false
      → (reply.status == 200) ≡ false
      → Recorded (record_then s input reply)
  refused s input reply = record_then-Accounted request.correlation_id before s input reply

  refused_late :
      (s : BrokerServices S) (input : AppendInput) (reply : Reply)
      → s.providence.log.entries ≡ before
      → input.correlation_id ≡ some request.correlation_id
      → input.reason_code ≡ reply.code
      → is_invoke input.event_type ≡ false
      → (reply.status == 200) ≡ false
      → Recorded (record_forwarded_then s input (λ _. reply))
  refused_late s input reply same correlated coded other refusing =
      record_forwarded_then-Accounted request.correlation_id before s input (λ _. reply) same
        correlated (λ _. coded) (λ _. other ∙ sym refusing)
        (λ _ success. ground (arith, refusing, success))

  answer_layer-Recorded :
      (s : BrokerServices S) (body : InvokeRequest) (token : TokenVerificationResult)
      (envelope : TstlEnvelope) (decision : PolicyDecision) (binding_hash : String)
      (r : AdapterResponse)
      → s.providence.log.entries ≡ before
      → Recorded (
          answer_layer bindings transport deadlines hash canonical request s body token envelope
            decision binding_hash r)
  unfolding answer_layer
  answer_layer-Recorded s body token envelope decision binding_hash r same =
      by_if (not r.ok) _ _
        (λ _.
          by_if (r.forwarded or_else false) _ _ (λ _. refused_late s _ _ same refl refl refl refl)
            (λ _. refused s _ _ same refl refl refl refl))
        (λ _.
          record_forwarded_then-Accounted request.correlation_id before s _ _ same refl (λ n. refl)
            (λ n. refl) (λ n _. refl))

  adapter_layer-Recorded :
      (s : BrokerServices S) (body : InvokeRequest) (token : TokenVerificationResult)
      (envelope : TstlEnvelope) (decision : PolicyDecision)
      → s.providence.log.entries ≡ before
      → Recorded (
          adapter_layer bindings transport deadlines hash canonical request s body token envelope
            decision)
  unfolding adapter_layer
  adapter_layer-Recorded s body token envelope decision same =
      let op =
        mediated_of bindings transport deadlines hash canonical request body envelope decision in
      let (called, r) = forward transport op decision.profile in
      let s' = noted bindings transport deadlines hash canonical request s called op in
      let kept = noted-entries s called op ∙ same in
      by_await
        (with_deadline deadlines.adapter_forward
          (adapter_work bindings transport deadlines hash canonical request called r))
        _ _
        (answer_layer bindings transport deadlines hash canonical request s' body token envelope
          decision op.binding_hash)
        (λ err. throws s' kept) (λ budget_ms. refused_late s' _ _ kept refl refl refl refl)
        (λ answer _.
          answer_layer-Recorded s' body token envelope decision op.binding_hash answer kept)

  dual_control_layer-Recorded :
      (s : BrokerServices S) (body : InvokeRequest) (token : TokenVerificationResult)
      (envelope : TstlEnvelope) (decision : PolicyDecision)
      → s.providence.log.entries ≡ before
      → Recorded (
          dual_control_layer bindings transport deadlines hash canonical request s body token
            envelope decision)
  unfolding dual_control_layer
  dual_control_layer-Recorded s body token envelope decision same =
      by_if (decision.requires_dual_control && not (truthy request.cosign_receipt)) _ _
        (λ _. refused s _ _ same refl refl refl refl)
        (λ _. adapter_layer-Recorded s body token envelope decision same)

  policy_layer-Recorded :
      (s : BrokerServices S) (body : InvokeRequest) (token : TokenVerificationResult)
      (envelope : TstlEnvelope)
      → s.providence.log.entries ≡ before
      → Recorded
          (policy_layer bindings transport deadlines hash canonical request s body token envelope)
  unfolding policy_layer
  policy_layer-Recorded s body token envelope same =
      by_decision
        (evaluate s.policy
          (policy_input bindings transport deadlines hash canonical request s body token envelope))
        _ s (throws s same)
        (λ decision.
          by_if (not decision.allowed) _ _
            (λ _. refused s _ _ same refl refl (denied_event-other decision.deny_reason_code) refl)
            (λ _. dual_control_layer-Recorded s body token envelope decision same))

  intent_layer-Recorded :
      (s : BrokerServices S) (body : InvokeRequest) (token : TokenVerificationResult)
      (envelope : TstlEnvelope)
      → s.providence.log.entries ≡ before
      → Recorded
          (intent_layer bindings transport deadlines hash canonical request s body token envelope)
  unfolding intent_layer manifest_layer
  intent_layer-Recorded s body token envelope same =
      by_if (not (includes (operation_to_intent body.operation_class) envelope.intent_class)) _ _
        (λ _. refused s _ _ same refl refl refl refl)
        (λ _.
          by_if
            (not (envelope.context_manifest_hash == zero_hash)
              && not (includes s.registered_manifests envelope.context_manifest_hash))
            _ _ (λ _. refused s _ _ same refl refl refl refl)
            (λ _. policy_layer-Recorded s body token envelope same))

  some_or_else : {A : Type 0} (o : Option A) (d : A) → is_some o ≡ true → o ≡ some (o or_else d)
  some_or_else none d h = absurd (false≢true h)
  some_or_else (some a) d h = refl

  rejected_event-other :
      (code : Option ErrorCode)
      → is_invoke (rejected_event (envelope_rejection_class code) code) ≡ false
  unfolding envelope_rejection_class
  rejected_event-other code = ground arith

  -- An envelope that is refused is refused with a code.
  refusal_named :
      (s : BrokerServices S) (body : InvokeRequest) (check : EnvelopeValidationResult)
      → with_deadline deadlines.envelope_validate
          (validation bindings transport deadlines hash canonical request s body)
        ≡ settled check
      → check.valid && is_some check.envelope ≡ false
      → is_some check.reason_code ≡ true
  refusal_named s body check answered bad =
      let work = bindings.validate_continuity_envelope s.bindings body.envelope in
      let expectation = expected bindings transport deadlines hash canonical request body in
      let is_check =
        settled_in_time deadlines.envelope_validate work.settles_after
          (validate_envelope hash work.result expectation request.now) check answered in
      subst (λ c. c.valid && is_some c.envelope ≡ false → is_some c.reason_code ≡ true) is_check
        (validate_envelope-named hash work.result expectation request.now) bad

  envelope_answer-Recorded :
      (s : BrokerServices S) (body : InvokeRequest) (token : TokenVerificationResult)
      (code : Option ErrorCode) (valid : Bool) (envelope : Option TstlEnvelope)
      → s.providence.log.entries ≡ before
      → (valid && is_some envelope ≡ false → is_some code ≡ true)
      → Recorded (
          envelope_answer bindings transport deadlines hash canonical request s body token code
            valid envelope)
  unfolding envelope_answer
  envelope_answer-Recorded s body token code true (some envelope) same named =
      intent_layer-Recorded s body token envelope same
  envelope_answer-Recorded s body token code true none same named =
      refused s _ _ same refl (some_or_else code continuity_failed (named refl))
        (rejected_event-other code) refl
  envelope_answer-Recorded s body token code false envelope same named =
      refused s _ _ same refl (some_or_else code continuity_failed (named refl))
        (rejected_event-other code) refl

  envelope_layer-Recorded :
      (s : BrokerServices S) (body : InvokeRequest) (token : TokenVerificationResult)
      → s.providence.log.entries ≡ before
      → Recorded (envelope_layer bindings transport deadlines hash canonical request s body token)
  unfolding envelope_layer
  envelope_layer-Recorded s body token same =
      by_await
        (with_deadline deadlines.envelope_validate
          (validation bindings transport deadlines hash canonical request s body))
        _ _
        (λ check.
          envelope_answer bindings transport deadlines hash canonical request s body token
            check.reason_code check.valid check.envelope)
        (λ err. throws s same) (λ budget_ms. refused_late s _ _ same refl refl refl refl)
        (λ check answered.
          envelope_answer-Recorded s body token check.reason_code check.valid check.envelope same
            (refusal_named s body check answered))

  nonce_layer-Recorded :
      (s : BrokerServices S) (body : InvokeRequest) (token : TokenVerificationResult)
      → s.providence.log.entries ≡ before
      → Recorded (nonce_layer bindings transport deadlines hash canonical request s body token)
  unfolding nonce_layer
  nonce_layer-Recorded s body token same =
      let (consumed, work) =
        bindings.consume_nonce s.bindings body.nonce (token.session_id or_else "") in
      let s' = record s { bindings = consumed } in
      by_await (with_deadline deadlines.nonce_consume work) _ _ _ (λ err. throws s' same)
        (λ budget_ms. refused_late s' _ _ same refl refl refl refl)
        (λ nonce_result _.
          by_if (not nonce_result.first_use) _ _ (λ _. refused s' _ _ same refl refl refl refl)
            (λ _. envelope_layer-Recorded s' body token same))

  token_layer-Recorded :
      (s : BrokerServices S) (body : InvokeRequest)
      → s.providence.log.entries ≡ before
      → Recorded (token_layer bindings transport deadlines hash canonical request s body)
  unfolding token_layer
  token_layer-Recorded s body same =
      by_await
        (with_deadline deadlines.token_verify
          (bindings.verify_token s.bindings body.capability_token))
        _ _ _ (λ err. throws s same) (λ budget_ms. refused_late s _ _ same refl refl refl refl)
        (λ token _.
          by_if (not token.valid || not (truthy token.session_id) || not (truthy token.role)) _ _
            (λ _. refused s _ _ same refl refl refl refl)
            (λ _. nonce_layer-Recorded s body token same))

  shape_layer-Recorded :
      (s : BrokerServices S) (shape : Parsed)
      → s.providence.log.entries ≡ before
      → Recorded (shape_layer bindings transport deadlines hash canonical request s shape)
  shape_layer-Recorded s (malformed flaws) same = refused s _ _ same refl refl refl refl
  shape_layer-Recorded s (parsed body) same = token_layer-Recorded s body same

module _ {S : Type 0} (bindings : NieBindings S) (transport : OpenClawTransport)
    (deadlines : Deadlines) (hash : String → String) (canonical : TstlEnvelope → String)
    (request : Request) where
  -- Every answer of the handler comes with exactly one new record at the end of the log, with the
  -- request's correlation id and the answer's code; the record is an `invoke` record exactly if the
  -- status is 200, and the answer then names its position. A handler that throws has added no record.
  pub invoke_recorded :
      (s : BrokerServices S)
      → Accounted request.correlation_id s.providence.log.entries
          (invoke bindings transport deadlines hash canonical request s)
  unfolding invoke
  invoke_recorded s =
      shape_layer-Recorded bindings transport deadlines hash canonical request
        s.providence.log.entries s request.body refl
