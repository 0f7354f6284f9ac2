-- ===== src/Broker/Bound.antt =====
-- What follows of a call of the transport for the envelope, the session and the taint.
use openclaw_nie_guard.Lineage
use openclaw_nie_guard.Adapter.{method_of}
use openclaw_nie_guard.Envelope.Validation.{ok-injective, validate_envelope_iff, Matches, Fits}
use openclaw_nie_guard.Policy.{is_outward, label_is_tainted}
use openclaw_nie_guard.Policy.Taint.{evaluate_tainted}
use openclaw_nie_guard.Broker.Clearance.{invoke_calls_gated}
use openclaw_nie_guard.Broker.Invoke.{expected}
use openclaw_nie_guard.Common.{
  ◌≢◌, subst, true≢false, false≢true, ◌≤◌, ◌≡◌, refl, sym, ap, ◌∙◌, ◌⊎◌, inl, inr, arith, ℕ, String,
  some, Bool, true, false, ◌||◌, List, [], ◌∷◌, ◌++◌, includes, ◌==◌, string_eq, ◌or_else◌,
}
use openclaw_nie_guard.Types.{
  operator_read, operator_write, tool_invoke, node_invoke, file_read, file_write, export_data,
  exec_run, admin_control, IntentClass, OperationClass, operation_class_eq, operation_name,
  operation_to_intent, intent_class_eq, Result, ok,
}
use openclaw_nie_guard.Envelope.{
  TstlEnvelope, EnvelopeValidationResult, Expected, validate_envelope,
}
use openclaw_nie_guard.Adapter.{OpenClawTransport, MediatedOperation, Method}
use openclaw_nie_guard.Labels
use openclaw_nie_guard.Bindings.{TokenVerificationResult}
use openclaw_nie_guard.Broker.Deadline.{settled_in_time, settled, with_deadline, Deadlines}
use openclaw_nie_guard.Broker.Services.{NieBindings, BrokerServices}
use openclaw_nie_guard.Broker.Request.{InvokeRequest, parsed, Request}
use openclaw_nie_guard.Broker.Execute.{policy_input, mediated_of}
use openclaw_nie_guard.Broker.Invoke.{invoke}

label_tainted :
    (labels : Labels.SessionLabelStore) (session_id : String)
    → Labels.is_tainted labels session_id ≡ label_is_tainted (some (Labels.get labels session_id))
unfolding Labels.is_tainted Lineage.is_tainted
label_tainted labels session_id = refl

operation_name-is_text : (operation : OperationClass) → (operation_name operation == "") ≡ false
operation_name-is_text operator_read = refl
operation_name-is_text operator_write = refl
operation_name-is_text tool_invoke = refl
operation_name-is_text node_invoke = refl
operation_name-is_text file_read = refl
operation_name-is_text file_write = refl
operation_name-is_text export_data = refl
operation_name-is_text exec_run = refl
operation_name-is_text admin_control = refl

operation_name-nonempty : (operation : OperationClass) → operation_name operation ≢ ""
operation_name-nonempty operation e =
    false≢true (sym (operation_name-is_text operation) ∙ ap (λ s. s == "") e)

role-Matches :
    (hash : String → String) (operation : OperationClass) (h : String)
    → Matches hash (some (operation_name operation)) h
    → h ≡ hash (operation_name operation)
role-Matches hash operation h (inl empty) = absurd (operation_name-nonempty operation empty)
role-Matches hash operation h (inr same) = same

some-injective : {a b : TstlEnvelope} → some a ≡ some b → a ≡ b
some-injective h = cc

-- What is accepted is what the bindings opened, and it fits.
accepted-Fits :
    (hash : String → String) (opened : Result TstlEnvelope) (expected : Expected) (now : ℕ)
    (check : EnvelopeValidationResult) (envelope : TstlEnvelope)
    → validate_envelope hash opened expected now ≡ check
    → check.valid ≡ true
    → check.envelope ≡ some envelope
    → (opened ≡ ok envelope) × Fits hash envelope expected now
accepted-Fits hash opened expected now check envelope same valid present =
    let accepts = ap (λ c. c.valid) same ∙ valid in
    let (when, answer) = validate_envelope_iff hash opened expected now in
    let (e, is_ok, fits) = when.0 accepts in
    elim answer [
      | inl refuses ↦ absurd (ground (arith, accepts, refuses))
      | inr (answered, is_answered, kept) ↦
          let same_envelope : answered ≡ envelope =
            some-injective (sym kept ∙ ap (λ c. c.envelope) same ∙ present) in
          let opens = is_answered ∙ ap ok same_envelope in
          (opens, subst (λ x. Fits hash x expected now) (ok-injective (sym is_ok ∙ opens)) fits)
    ]

settled-injective {ℓ} : {A : Type ℓ} {a b : A} → settled a ≡ settled b → a ≡ b
settled-injective h = cc

parsed-injective : {a b : InvokeRequest} → parsed a ≡ parsed b → a ≡ b
parsed-injective h = cc

-- The operations whose every intent leaves the session: those that export, and those that escalate.
abbrev pub only_outward : OperationClass → Bool
only_outward operation = operation == export_data || operation == admin_control

outward_of_only :
    (operation : OperationClass) (declared : IntentClass)
    → only_outward operation ≡ true
    → includes (operation_to_intent operation) declared ≡ true
    → is_outward declared ≡ true
unfolding operation_to_intent
outward_of_only operation declared only fits = ground arith

module _ {S : Type 0} (bindings : NieBindings S) (transport : OpenClawTransport)
    (deadlines : Deadlines) (hash : String → String) (canonical : TstlEnvelope → String)
    (request : Request) where
  -- Where the token's verification answered in time with a session whose label is tainted, a request to
  -- export data or for administrative control does not reach the transport, whatever its envelope, its
  -- role and the policy bundle are.
  pub invoke_tainted :
      (s : BrokerServices S) (body : InvokeRequest) (token : TokenVerificationResult)
      → request.body ≡ parsed body
      → with_deadline deadlines.token_verify
          (bindings.verify_token s.bindings body.capability_token)
        ≡ settled token
      → Labels.is_tainted s.session_labels (token.session_id or_else "") ≡ true
      → only_outward body.operation_class ≡ true
      → (invoke bindings transport deadlines hash canonical request s).0.transport_calls
        ≡ s.transport_calls
  invoke_tainted s body token shaped answered tainted only =
      elim (invoke_calls_gated bindings transport deadlines hash canonical request s) [
        | inl silent ↦ silent
        | inr
              (
                body',
                token',
                shaped',
                answered',
                _,
                _,
                _,
                (_, _, _, (_, envelope, _, _, _, fits, _, (decision, decided, allowed, _, _, _))),
              ) ↦
            let same_body : body ≡ body' = parsed-injective (sym shaped ∙ shaped') in
            let answered'' =
              subst
                (λ b.
                  with_deadline deadlines.token_verify
                    (bindings.verify_token s.bindings b.capability_token)
                  ≡ settled token')
                (sym same_body) answered' in
            let same_token : token ≡ token' = settled-injective (sym answered ∙ answered'') in
            let input =
              policy_input bindings transport deadlines hash canonical request s body' token'
                envelope in
            let tainted' : label_is_tainted input.session_label ≡ true =
              sym (label_tainted s.session_labels (token'.session_id or_else ""))
              ∙ subst (λ t. Labels.is_tainted s.session_labels (t.session_id or_else "") ≡ true)
                  same_token tainted in
            let only' = subst (λ b. only_outward b.operation_class ≡ true) same_body only in
            let denied =
              (evaluate_tainted s.policy input decision tainted'
                (outward_of_only body'.operation_class envelope.intent_class only' fits)
                decided).0 in
            absurd (true≢false (sym allowed ∙ denied))
      ]

  -- A call that is bound to a request by its envelope.
  abbrev pub Bound : BrokerServices S → InvokeRequest → List (Method × MediatedOperation) → Type 0
  Bound s body calls =
      (token : TokenVerificationResult) × (envelope : TstlEnvelope) × (op : MediatedOperation)
      × ((bindings.validate_continuity_envelope
            (bindings.consume_nonce s.bindings body.nonce (token.session_id or_else "")).0
            body.envelope).result
          ≡ ok envelope)
      × (request.now ≤ envelope.expires_at)
      × Matches hash (some body.target_id) envelope.target_hash
      × (envelope.role_scope_hash ≡ hash (operation_name body.operation_class))
      × (calls ≡ s.transport_calls ++ (method_of body.operation_class, op) ∷ [])
      × (op.target_id ≡ body.target_id)
      × (op.operation_class ≡ body.operation_class)
      × (op.correlation_id ≡ request.correlation_id)

  -- A call of the transport has an envelope behind it that the bindings opened, that had not expired,
  -- and that is bound by hash to the target, unless the target is empty, and to the operation class of
  -- the request; the call is for that target and class, with the request's correlation id.
  pub invoke-Bound :
      (s : BrokerServices S) (body : InvokeRequest)
      → request.body ≡ parsed body
      → let calls =
          (invoke bindings transport deadlines hash canonical request s).0.transport_calls in
        (calls ≡ s.transport_calls) ⊎ Bound s body calls
  invoke-Bound s body shaped =
      elim (invoke_calls_gated bindings transport deadlines hash canonical request s) [
        | inl silent ↦ inl silent
        | inr
              (
                body',
                token,
                shaped',
                answered,
                _,
                _,
                _,
                (
                  _,
                  _,
                  _,
                  (
                    check,
                    envelope,
                    validated,
                    valid,
                    opened,
                    fits,
                    _,
                    (decision, decided, allowed, _, _, sent),
                  ),
                ),
              ) ↦
            let same_body : body' ≡ body = parsed-injective (sym shaped' ∙ shaped) in
            let consumed =
              (bindings.consume_nonce s.bindings body'.nonce (token.session_id or_else "")).0 in
            let s' = record s { bindings = consumed } in
            let work = bindings.validate_continuity_envelope consumed body'.envelope in
            let check_is =
              settled_in_time deadlines.envelope_validate work.settles_after
                (validate_envelope hash work.result
                  (expected bindings transport deadlines hash canonical request body') request.now)
                check validated in
            let (is_ok, (fresh, on_target, in_role, _)) =
              accepted-Fits hash work.result
                (expected bindings transport deadlines hash canonical request body') request.now
                check envelope check_is valid opened in
            inr (
              subst
                (λ b.
                  Bound s b
                    (invoke bindings transport deadlines hash canonical request
                      s).0.transport_calls)
                same_body
                (
                  token,
                  envelope,
                  mediated_of bindings transport deadlines hash canonical request body' envelope
                      decision,
                  is_ok,
                  fresh,
                  on_target,
                  role-Matches hash body'.operation_class envelope.role_scope_hash in_role,
                  sent,
                  refl,
                  refl,
                  refl,
                ))
      ]
