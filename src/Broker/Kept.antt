-- ===== src/Broker/Kept.antt =====
-- The labels of the sessions over the handlers of the routes: no route but the registration of context touches them.
pub mod Invoked
use openclaw_nie_guard.Common.{
  ℕ, ◌≡◌, refl, ◌∙◌, inl, inr, String, Option, List, none, some, Bool, true, false, not, ◌&&◌, ◌||◌,
  ◌==◌, string_eq, includes, if◌then◌else◌, ◌or_else◌, Bool-cases, arith, map,
}
use openclaw_nie_guard.Types.{
  Thrown, Result, ok, threw, operation_class_eq, operation_to_intent, intent_class_eq, ErrorCode,
}
use openclaw_nie_guard.Envelope.{TstlEnvelope}
use openclaw_nie_guard.Policy.{PolicyDecision, evaluate}
use openclaw_nie_guard.Adapter.{
  OpenClawTransport, MediatedOperation, Method, AdapterResponse, forward,
}
use openclaw_nie_guard.Labels.{SessionLabelStore}
use openclaw_nie_guard.Labels
use openclaw_nie_guard.Labels.Joins.{is_tainted-join_elements}
use openclaw_nie_guard.Bindings.{
  TokenVerificationResult, AdmissionRequest, AttestationResult, RevocationInput, RevocationResult,
}
use openclaw_nie_guard.Broker.Deadline.{
  Work, on_awaited, Awaited, settled, rejected, exceeded, with_deadline, Deadlines,
}
use openclaw_nie_guard.Broker.Services.{
  NieBindings, BrokerServices, Handled, record_then, record_forwarded_then,
}
use openclaw_nie_guard.Broker.Request.{
  InvokeRequest, Parsed, malformed, parsed, Request, zero_hash, truthy,
}
use openclaw_nie_guard.Broker.Execute.{
  answer_layer, adapter_layer, dual_control_layer, policy_layer, policy_input, mediated_of, noted,
  adapter_work,
}
use openclaw_nie_guard.Broker.Invoke.{
  manifest_layer, intent_layer, envelope_answer, envelope_layer, nonce_layer, token_layer,
  shape_layer, validation, invoke,
}
use openclaw_nie_guard.Broker.Context.{
  RegisterRequest, labelled, register, register_verified, register_in,
}
use openclaw_nie_guard.Broker.Admission.{
  ParsedAdmission, malformed_admission, parsed_admission, on_settled, admit, admitting,
  admission_failed, revoke, CosignRequest, cosign, cosign_verified,
}

-- A handler that leaves these labels.
abbrev pub Keeps : {S : Type 0} → SessionLabelStore → Handled S → Type 0
Keeps labels handled = handled.0.session_labels ≡ labels

module _ {S : Type 0} (labels : SessionLabelStore) where
  pub by_if :
      (b : Bool) (x y : Handled S)
      → Keeps labels x
      → Keeps labels y
      → Keeps labels (if b then x else y)
  by_if true x y f g = f
  by_if false x y f g = g

  pub by_await :
      {A : Type 0} (w : Awaited A) (f : Thrown → Handled S) (g : ℕ → Handled S) (h : A → Handled S)
      → ((err : Thrown) → Keeps labels (f err))
      → ((budget_ms : ℕ) → Keeps labels (g budget_ms))
      → ((a : A) → Keeps labels (h a))
      → Keeps labels (on_awaited w f g h)
  by_await (rejected err) f g h on_error on_late on_answer = on_error err
  by_await (exceeded budget_ms) f g h on_error on_late on_answer = on_late budget_ms
  by_await (settled a) f g h on_error on_late on_answer = on_answer a

  by_settling :
      {A : Type 0} (settles_after : Option ℕ) (result : Result A) (never : Handled S)
      (f : Thrown → Handled S) (h : A → Handled S)
      → Keeps labels never
      → ((err : Thrown) → Keeps labels (f err))
      → ((a : A) → Keeps labels (h a))
      → Keeps labels
          (on_settled (record { settles_after = settles_after; result = result }) never f h)
  by_settling none result never f h on_never on_error on_answer = on_never
  by_settling (some n) (threw err) never f h on_never on_error on_answer = on_error err
  by_settling (some n) (ok a) never f h on_never on_error on_answer = on_answer a

  pub by_decision :
      {A : Type 0} (o : Option A) (f : A → Handled S) (s : BrokerServices S)
      → s.session_labels ≡ labels
      → ((a : A) → Keeps labels (f a))
      → Keeps labels (elim o [ none ↦ (s, none) | some a ↦ f a ])
  by_decision none f s on_throw on_value = on_throw
  by_decision (some a) f s on_throw on_value = on_value a

pub admit-Keeps :
    {S : Type 0} (attest : S → AdmissionRequest → S × Work AttestationResult)
    (append_error correlation_id : String) (s : BrokerServices S) (request : ParsedAdmission)
    → Keeps s.session_labels (admit attest append_error correlation_id s request)
unfolding admit admitting record_then admission_failed
admit-Keeps attest append_error correlation_id s (malformed_admission flaws) = refl
admit-Keeps attest append_error correlation_id s (parsed_admission request) =
    let work = (attest s.bindings request).1 in
    by_settling s.session_labels work.settles_after work.result _ _ _ refl (λ err. refl)
      (λ result. ground arith)

pub revoke-Keeps :
    {S : Type 0} (revoke_subject : S → RevocationInput → S × Work RevocationResult)
    (correlation_id : String) (s : BrokerServices S) (input : Option RevocationInput)
    → Keeps s.session_labels (revoke revoke_subject correlation_id s input)
unfolding revoke record_then
revoke-Keeps revoke_subject correlation_id s none = refl
revoke-Keeps revoke_subject correlation_id s (some input) =
    let work = (revoke_subject s.bindings input).1 in
    by_settling s.session_labels work.settles_after work.result _ _ _ refl (λ err. refl)
      (λ result. refl)

pub cosign-Keeps :
    {S : Type 0} (bindings : NieBindings S) (correlation_id : String) (s : BrokerServices S)
    (request : Option CosignRequest)
    → Keeps s.session_labels (cosign bindings correlation_id s request)
unfolding cosign cosign_verified record_then
cosign-Keeps bindings correlation_id s none = refl
cosign-Keeps bindings correlation_id s (some request) =
    let work = bindings.verify_token s.bindings request.cosign_capability_token in
    by_settling s.session_labels work.settles_after work.result _ _ _ refl (λ err. refl)
      (λ verification. by_if s.session_labels (not verification.valid) _ _ refl refl)

module _ {S : Type 0} (bindings : NieBindings S) (hash : String → String)
    (at_most : String → String → Bool) (stringify : List String → String) (correlation_id : String)
    (now : ℕ) where
  register_verified-is_tainted :
      (s : BrokerServices S) (body : RegisterRequest) (token : TokenVerificationResult)
      (session_id : String)
      → Labels.is_tainted s.session_labels session_id ≡ true
      → Labels.is_tainted
          (register_verified bindings hash at_most stringify correlation_id now s body
            token).0.session_labels
          session_id
        ≡ true
  unfolding register_verified register_in record_then
  register_verified-is_tainted s body token session_id tainted = elim (Bool-cases token.valid) [
    | inr invalid ↦ ground (arith, invalid, tainted)
    | inl valid ↦ elim (Bool-cases (truthy token.session_id)) [
      | inr unnamed ↦ ground (arith, valid, unnamed, tainted)
      | inl named ↦ ground (
        arith,
        valid,
        named,
        tainted,
        is_tainted-join_elements s.session_labels (token.session_id or_else "")
            (map labelled body.elements) (some correlation_id) now session_id,
      )
    ]
  ]

  -- A registration by any session, whatever becomes of it, clears no taint.
  pub register-is_tainted :
      (s : BrokerServices S) (body : Option RegisterRequest) (session_id : String)
      → Labels.is_tainted s.session_labels session_id ≡ true
      → Labels.is_tainted
          (register bindings hash at_most stringify correlation_id now s body).0.session_labels
          session_id
        ≡ true
  unfolding register
  register-is_tainted s none session_id tainted = tainted
  register-is_tainted s (some body) session_id tainted =
      let work = bindings.verify_token s.bindings body.capability_token in
      settle work.settles_after work.result
    where
      settle :
          (settles_after : Option ℕ) (result : Result TokenVerificationResult)
          → Labels.is_tainted
              (on_settled
                (record { settles_after = settles_after; result = result })
                (s, none)
                (λ err. (s, none))
                (λ token.
                  register_verified bindings hash at_most stringify correlation_id now s body
                    token)).0.session_labels
              session_id
            ≡ true
      settle none result = tainted
      settle (some n) (threw err) = tainted
      settle (some n) (ok token) = register_verified-is_tainted s body token session_id tainted
