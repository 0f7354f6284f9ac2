-- ===== src/Broker/Clearance.antt =====
-- What a request has passed when the transport is called for it.
use openclaw_nie_guard.Adapter.{method_of}
use openclaw_nie_guard.Adapter.Forwarding.{goes_through, forward_lem}
use openclaw_nie_guard.Common.{
  ◌≡◌, refl, ◌⊎◌, inl, inr, Bool-cases, Option-cases, arith, ℕ, String, some, true, not, ◌&&◌, ◌||◌,
  List, [], ◌∷◌, ◌++◌, includes, ◌==◌, string_eq, ◌or_else◌,
}
use openclaw_nie_guard.Types.{operation_class_eq, operation_to_intent, intent_class_eq}
use openclaw_nie_guard.Envelope.{TstlEnvelope, EnvelopeValidationResult}
use openclaw_nie_guard.Policy.{PolicyDecision, evaluate}
use openclaw_nie_guard.Adapter.{
  OpenClawTransport, MediatedOperation, Method, AdapterResponse, forward,
}
use openclaw_nie_guard.Bindings.{TokenVerificationResult, NonceConsumeResult}
use openclaw_nie_guard.Broker.Audit.{AppendInput}
use openclaw_nie_guard.Broker.Deadline.{Awaited-cases, settled, with_deadline, Deadlines}
use openclaw_nie_guard.Broker.Services.{
  NieBindings, BrokerServices, Reply, record_then, record_forwarded_then,
}
use openclaw_nie_guard.Broker.Request.{
  Parsed-cases, InvokeRequest, parsed, Request, zero_hash, truthy, late,
}
use openclaw_nie_guard.Broker.Execute.{
  answer_layer, adapter_layer, dual_control_layer, policy_layer, policy_input, mediated_of, noted,
}
use openclaw_nie_guard.Broker.Invoke.{
  manifest_layer, intent_layer, envelope_answer, envelope_layer, nonce_layer, token_layer, invoke,
  validation,
}

module _ {S : Type 0} (bindings : NieBindings S) (transport : OpenClawTransport)
    (deadlines : Deadlines) (hash : String → String) (canonical : TstlEnvelope → String)
    (request : Request) where
  abbrev Calls : Type 0
  Calls = List (Method × MediatedOperation)

  -- The one call that a cleared request makes.
  abbrev call_of : InvokeRequest → TstlEnvelope → PolicyDecision → Method × MediatedOperation
  call_of body envelope decision = (
    method_of body.operation_class,
    mediated_of bindings transport deadlines hash canonical request body envelope decision,
  )

  -- The gates that a request has passed when the transport was called, from the policy on.
  abbrev PolicyGates :
      BrokerServices S → InvokeRequest → TokenVerificationResult → TstlEnvelope → Calls → Type 0
  PolicyGates s body token envelope calls =
      (decision : PolicyDecision) × (evaluate s.policy
          (policy_input bindings transport deadlines hash canonical request s body token envelope)
        ≡ some decision)
      × (decision.allowed ≡ true)
      × (decision.requires_dual_control ≡ true → truthy request.cosign_receipt ≡ true)
      × (goes_through body.operation_class decision.profile ≡ true)
      × (calls ≡ s.transport_calls ++ call_of body envelope decision ∷ [])

  -- From the envelope on.
  abbrev EnvelopeGates : BrokerServices S → InvokeRequest → TokenVerificationResult → Calls → Type 0
  EnvelopeGates s body token calls =
      (check : EnvelopeValidationResult) × (envelope : TstlEnvelope) × (with_deadline
          deadlines.envelope_validate
          (validation bindings transport deadlines hash canonical request s body)
        ≡ settled check)
      × (check.valid ≡ true)
      × (check.envelope ≡ some envelope)
      × (includes (operation_to_intent body.operation_class) envelope.intent_class ≡ true)
      × ((envelope.context_manifest_hash == zero_hash
            || includes s.registered_manifests envelope.context_manifest_hash)
          ≡ true)
      × PolicyGates s body token envelope calls

  -- From the nonce on; `consumed` is the state in which the bindings are left.
  abbrev NonceGates : BrokerServices S → InvokeRequest → TokenVerificationResult → Calls → Type 0
  NonceGates s body token calls =
      let (consumed, work) =
        bindings.consume_nonce s.bindings body.nonce (token.session_id or_else "") in
      (nonce_result : NonceConsumeResult) × (with_deadline deadlines.nonce_consume work
        ≡ settled nonce_result)
      × (nonce_result.first_use ≡ true)
      × EnvelopeGates (record s { bindings = consumed }) body token calls

  -- All the gates of the pipeline.
  abbrev pub Gates : BrokerServices S → Calls → Type 0
  Gates s calls =
      (body : InvokeRequest) × (token : TokenVerificationResult) × (request.body ≡ parsed body)
      × (with_deadline deadlines.token_verify
            (bindings.verify_token s.bindings body.capability_token)
          ≡ settled token)
      × (token.valid ≡ true)
      × (truthy token.session_id ≡ true)
      × (truthy token.role ≡ true)
      × NonceGates s body token calls

  record_then-calls :
      (s : BrokerServices S) (input : AppendInput) (reply : Reply)
      → (record_then s input reply).0.transport_calls ≡ s.transport_calls
  unfolding record_then
  record_then-calls s input reply = refl

  record_forwarded_then-calls :
      (s : BrokerServices S) (input : AppendInput) (reply : ℕ → Reply)
      → (record_forwarded_then s input reply).0.transport_calls ≡ s.transport_calls
  unfolding record_forwarded_then
  record_forwarded_then-calls s input reply = refl

  -- Reading an answer calls nothing more.
  answer_layer-calls :
      (s : BrokerServices S) (body : InvokeRequest) (token : TokenVerificationResult)
      (envelope : TstlEnvelope) (decision : PolicyDecision) (binding_hash : String)
      (r : AdapterResponse)
      → (answer_layer bindings transport deadlines hash canonical request s body token envelope
          decision binding_hash r).0.transport_calls
        ≡ s.transport_calls
  unfolding answer_layer record_then record_forwarded_then
  answer_layer-calls s body token envelope decision binding_hash r = ground arith

  -- What the transport was called for does not depend on whether the answer came in time.
  adapter_layer-noted :
      (s : BrokerServices S) (body : InvokeRequest) (token : TokenVerificationResult)
      (envelope : TstlEnvelope) (decision : PolicyDecision)
      → let op =
          mediated_of bindings transport deadlines hash canonical request body envelope decision in
        (adapter_layer bindings transport deadlines hash canonical request s body token envelope
          decision).0.transport_calls
        ≡ (noted bindings transport deadlines hash canonical request s
            (forward transport op decision.profile).0
            op).transport_calls
  unfolding adapter_layer record_forwarded_then answer_layer record_then
  adapter_layer-noted s body token envelope decision = ground (arith)

  abbrev Sent : BrokerServices S → InvokeRequest → TstlEnvelope → PolicyDecision → Calls → Type 0
  Sent s body envelope decision calls =
      (goes_through body.operation_class decision.profile ≡ true)
      × (calls ≡ s.transport_calls ++ call_of body envelope decision ∷ [])

  adapter_layer-calls :
      (s : BrokerServices S) (body : InvokeRequest) (token : TokenVerificationResult)
      (envelope : TstlEnvelope) (decision : PolicyDecision)
      → let calls =
          (adapter_layer bindings transport deadlines hash canonical request s body token envelope
            decision).0.transport_calls in
        (calls ≡ s.transport_calls) ⊎ Sent s body envelope decision calls
  adapter_layer-calls s body token envelope decision =
      let op =
        mediated_of bindings transport deadlines hash canonical request body envelope decision in
      let called = (forward_lem transport op decision.profile).0 in
      let sent = adapter_layer-noted s body token envelope decision in
      elim (Bool-cases (goes_through body.operation_class decision.profile)) [
        | inl through ↦ inr (through, ground (arith, called, sent))
        | inr refused ↦ inl (ground (arith, called, sent))
      ]

  policy_layer-calls :
      (s : BrokerServices S) (body : InvokeRequest) (token : TokenVerificationResult)
      (envelope : TstlEnvelope)
      → let calls =
          (policy_layer bindings transport deadlines hash canonical request s body token
            envelope).0.transport_calls in
        (calls ≡ s.transport_calls) ⊎ PolicyGates s body token envelope calls
  unfolding policy_layer dual_control_layer record_then
  policy_layer-calls s body token envelope =
      let input =
        policy_input bindings transport deadlines hash canonical request s body token envelope in
      elim (Option-cases (evaluate s.policy input)) [
        | inl throws ↦ inl (ground (arith, throws))
        | inr (decision, decided) ↦ elim (Bool-cases decision.allowed) [
          | inr denied ↦ inl (ground (arith, decided, denied))
          | inl allowed ↦
              elim (Bool-cases
                (decision.requires_dual_control && not (truthy request.cosign_receipt))) [
                  | inl held ↦ inl (ground (arith, decided, allowed, held))
                  | inr free ↦ elim (adapter_layer-calls s body token envelope decision) [
                    | inl silent ↦ inl (ground (arith, decided, allowed, free, silent))
                    | inr (through, sent) ↦ inr (
                      decision,
                      decided,
                      allowed,
                      (λ asked. ground (arith, free, asked)),
                      through,
                      ground (arith, decided, allowed, free, sent),
                    )
                  ]
                ]
        ]
      ]

  intent_layer-calls :
      (s : BrokerServices S) (body : InvokeRequest) (token : TokenVerificationResult)
      (envelope : TstlEnvelope)
      → let calls =
          (intent_layer bindings transport deadlines hash canonical request s body token
            envelope).0.transport_calls in
        (calls ≡ s.transport_calls)
        ⊎ ((includes (operation_to_intent body.operation_class) envelope.intent_class ≡ true)
            × ((envelope.context_manifest_hash == zero_hash
                  || includes s.registered_manifests envelope.context_manifest_hash)
                ≡ true)
            × PolicyGates s body token envelope calls)
  unfolding intent_layer manifest_layer record_then
  intent_layer-calls s body token envelope =
      elim (Bool-cases
        (includes (operation_to_intent body.operation_class) envelope.intent_class)) [
          | inr drifts ↦ inl (ground (arith, drifts))
          | inl fits ↦
              elim (Bool-cases (
                envelope.context_manifest_hash == zero_hash
                || includes s.registered_manifests envelope.context_manifest_hash)) [
                  | inr unknown ↦ inl (ground (arith, fits, unknown))
                  | inl known ↦ elim (policy_layer-calls s body token envelope) [
                    | inl silent ↦ inl (ground (arith, fits, known, silent))
                    | inr (decision, decided, allowed, receipt, through, sent) ↦ inr (
                      fits,
                      known,
                      (
                        decision,
                        decided,
                        allowed,
                        receipt,
                        through,
                        ground (arith, fits, known, sent),
                      ),
                    )
                  ]
                ]
        ]

  envelope_layer-calls :
      (s : BrokerServices S) (body : InvokeRequest) (token : TokenVerificationResult)
      → let calls =
          (envelope_layer bindings transport deadlines hash canonical request s body
            token).0.transport_calls in
        (calls ≡ s.transport_calls) ⊎ EnvelopeGates s body token calls
  unfolding envelope_layer record_then record_forwarded_then envelope_answer
  envelope_layer-calls s body token =
      elim (Awaited-cases (
        with_deadline deadlines.envelope_validate
          (validation bindings transport deadlines hash canonical request s body))) [
            | inl (err, failed) ↦ inl (ground (arith, failed))
            | inr (inl (budget_ms, late)) ↦ inl (ground (arith, late))
            | inr (inr (check, answered)) ↦ elim (Bool-cases check.valid) [
              | inr refused ↦ inl (ground (arith, answered, refused))
              | inl valid ↦ elim (Option-cases check.envelope) [
                | inl missing ↦ inl (ground (arith, answered, valid, missing))
                | inr (envelope, opened) ↦ elim (intent_layer-calls s body token envelope) [
                  | inl silent ↦ inl (ground (arith, answered, valid, opened, silent))
                  | inr (fits, known, (decision, decided, allowed, receipt, through, sent)) ↦ inr (
                    check,
                    envelope,
                    answered,
                    valid,
                    opened,
                    fits,
                    known,
                    (
                      decision,
                      decided,
                      allowed,
                      receipt,
                      through,
                      ground (arith, answered, valid, opened, sent),
                    ),
                  )
                ]
              ]
            ]
          ]

  nonce_layer-calls :
      (s : BrokerServices S) (body : InvokeRequest) (token : TokenVerificationResult)
      → let calls =
          (nonce_layer bindings transport deadlines hash canonical request s body
            token).0.transport_calls in
        (calls ≡ s.transport_calls) ⊎ NonceGates s body token calls
  unfolding nonce_layer record_then record_forwarded_then
  nonce_layer-calls s body token =
      let (consumed, work) =
        bindings.consume_nonce s.bindings body.nonce (token.session_id or_else "") in
      let s' = record s { bindings = consumed } in
      elim (Awaited-cases (with_deadline deadlines.nonce_consume work)) [
        | inl (err, failed) ↦ inl (ground (arith, failed))
        | inr (inl (budget_ms, late)) ↦ inl (ground (arith, late))
        | inr (inr (nonce_result, answered)) ↦ elim (Bool-cases nonce_result.first_use) [
          | inr replayed ↦ inl (ground (arith, answered, replayed))
          | inl first ↦ elim (envelope_layer-calls s' body token) [
            | inl silent ↦ inl (ground (arith, answered, first, silent))
            | inr
                  (
                    check,
                    envelope,
                    validated,
                    valid,
                    opened,
                    fits,
                    known,
                    (decision, decided, allowed, receipt, through, sent),
                  ) ↦
                inr (
                  nonce_result,
                  answered,
                  first,
                  (
                    check,
                    envelope,
                    validated,
                    valid,
                    opened,
                    fits,
                    known,
                    (
                      decision,
                      decided,
                      allowed,
                      receipt,
                      through,
                      ground (arith, answered, first, sent),
                    ),
                  ),
                )
          ]
        ]
      ]

  -- The transport is called for a request only if the request passed every gate: its shape is right,
  -- its token was found valid in time and carries a session and a role, its nonce was in time and new,
  -- its envelope was accepted in time, the intent fits the operation, the manifest is the zero hash or
  -- registered, the policy allows it, a receipt is there where dual control is required, and the
  -- operation class goes through the adapter. It is then called exactly once, with the operation that
  -- the request names, by the method of that operation's class; otherwise it is not called.
  pub invoke_calls_gated :
      (s : BrokerServices S)
      → let calls =
          (invoke bindings transport deadlines hash canonical request s).0.transport_calls in
        (calls ≡ s.transport_calls) ⊎ Gates s calls
  unfolding invoke token_layer record_then record_forwarded_then
  invoke_calls_gated s = elim (Parsed-cases request.body) [
    | inl (flaws, refused) ↦ inl (ground (arith, refused))
    | inr (body, shaped) ↦
        elim (Awaited-cases (
          with_deadline deadlines.token_verify
            (bindings.verify_token s.bindings body.capability_token))) [
              | inl (err, failed) ↦ inl (ground (arith, shaped, failed))
              | inr (inl (budget_ms, late)) ↦ inl (ground (arith, shaped, late))
              | inr (inr (token, answered)) ↦
                  elim (Bool-cases (token.valid && truthy token.session_id && truthy token.role)) [
                    | inr bad ↦ inl (ground (arith, shaped, answered, bad))
                    | inl good ↦ elim (nonce_layer-calls s body token) [
                      | inl silent ↦ inl (ground (arith, shaped, answered, good, silent))
                      | inr
                            (
                              nonce_result,
                              consumed,
                              first,
                              (
                                check,
                                envelope,
                                validated,
                                valid,
                                opened,
                                fits,
                                known,
                                (decision, decided, allowed, receipt, through, sent),
                              ),
                            ) ↦
                          inr (
                            body,
                            token,
                            shaped,
                            answered,
                            ground (arith, good),
                            ground (arith, good),
                            ground (arith, good),
                            (
                              nonce_result,
                              consumed,
                              first,
                              (
                                check,
                                envelope,
                                validated,
                                valid,
                                opened,
                                fits,
                                known,
                                (
                                  decision,
                                  decided,
                                  allowed,
                                  receipt,
                                  through,
                                  ground (arith, shaped, answered, good, sent),
                                ),
                              ),
                            ),
                          )
                    ]
                  ]
            ]
  ]
