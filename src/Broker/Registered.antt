-- ===== src/Broker/Registered.antt =====
-- What a registration of context leaves behind, and what it means for the requests that follow.
use openclaw_nie_guard.Common.{
  ℕ, ◌≡◌, String, Option, some, Bool, true, ◌||◌, List, [], ◌∷◌, map, any, includes, ◌==◌,
  string_eq, ◌or_else◌, Bool-cases, inl, inr, arith, includes-append, beq_refl, ap, ◌∙◌, sym, subst,
  eq_iff,
}
use openclaw_nie_guard.Types.{ok}
use openclaw_nie_guard.Envelope.{TstlEnvelope}
use openclaw_nie_guard.Adapter.{OpenClawTransport}
use openclaw_nie_guard.Labels.{join_elements}
use openclaw_nie_guard.Labels.Joins.{is_untrusted, is_tainted-join_elements}
use openclaw_nie_guard.Labels
use openclaw_nie_guard.Bindings.{
  TokenVerificationResult, AdmissionRequest, AttestationResult, RevocationInput, RevocationResult,
}
use openclaw_nie_guard.Broker.Deadline.{Work, settled, with_deadline, Deadlines}
use openclaw_nie_guard.Broker.Services.{NieBindings, BrokerServices, record_then}
use openclaw_nie_guard.Broker.Request.{truthy, Request, InvokeRequest, parsed}
use openclaw_nie_guard.Broker.Invoke.{invoke}
use openclaw_nie_guard.Broker.Bound.{only_outward, invoke_tainted}
use openclaw_nie_guard.Broker.Admission.{ParsedAdmission, admit, revoke, CosignRequest, cosign}
use openclaw_nie_guard.Broker.Kept.{admit-Keeps, revoke-Keeps, cosign-Keeps, register-is_tainted}
use openclaw_nie_guard.Broker.Kept.Invoked.{invoke-Keeps}
use openclaw_nie_guard.Broker.Context.{
  RegisterRequest, labelled, add_manifest, manifest_hash, register, register_verified, register_in,
}

includes-add_manifest :
    (manifests : List String) (h k : String)
    → includes (add_manifest manifests h) k ≡ (includes manifests k || h == k)
includes-add_manifest manifests h k = elim (Bool-cases (includes manifests h)) [
  | inl known ↦ ground (arith, known, eq_iff h k)
  | inr new ↦ ground (arith, new, includes-append manifests (h ∷ []) k, eq_iff h k)
]

module _ {S : Type 0} (bindings : NieBindings S) (hash : String → String)
    (at_most : String → String → Bool) (stringify : List String → String) (correlation_id : String)
    (now : ℕ) where
  -- With a valid token that names a session, whether or not the record can then be written: the labels
  -- are those after joining the elements into that session, exactly the manifest of the elements is
  -- added to those registered, and neither the bindings, the policy nor the calls of the transport
  -- change.
  pub register_lem :
      (s : BrokerServices S) (body : RegisterRequest) (token : TokenVerificationResult)
      (elapsed : ℕ)
      → bindings.verify_token s.bindings body.capability_token
        ≡ record { settles_after = some elapsed; result = ok token }
      → token.valid ≡ true
      → truthy token.session_id ≡ true
      → let s' = (register bindings hash at_most stringify correlation_id now s (some body)).0 in
        (s'.session_labels
          ≡ (join_elements s.session_labels
              (token.session_id or_else "")
              (map labelled body.elements)
              (some correlation_id)
              now).0)
        × ((h : String)
            → includes s'.registered_manifests h ≡ (
                includes s.registered_manifests h
                || manifest_hash bindings hash at_most stringify correlation_id now body.elements
                  == h))
        × (s'.bindings ≡ s.bindings)
        × (s'.policy ≡ s.policy)
        × (s'.transport_calls ≡ s.transport_calls)
  unfolding register register_verified register_in record_then
  register_lem s body token elapsed answered valid named = (
    ground (arith, answered, valid, named),
    λ h. ground (
      arith,
      answered,
      valid,
      named,
      includes-add_manifest s.registered_manifests
          (manifest_hash bindings hash at_most stringify correlation_id now body.elements) h,
    ),
    ground (arith, answered, valid, named),
    ground (arith, answered, valid, named),
    ground (arith, answered, valid, named),
  )

  registered-is_tainted :
      (s : BrokerServices S) (body : RegisterRequest) (token : TokenVerificationResult)
      (elapsed : ℕ)
      → bindings.verify_token s.bindings body.capability_token
        ≡ record { settles_after = some elapsed; result = ok token }
      → token.valid ≡ true
      → truthy token.session_id ≡ true
      → any is_untrusted (map labelled body.elements) ≡ true
      → Labels.is_tainted
          (register bindings hash at_most stringify correlation_id now s
            (some body)).0.session_labels
          (token.session_id or_else "")
        ≡ true
  registered-is_tainted s body token elapsed answered valid named exposed =
      let labels = (register_lem s body token elapsed answered valid named).0 in
      let session = token.session_id or_else "" in
      ap (λ l. Labels.is_tainted l session) labels
      ∙ is_tainted-join_elements s.session_labels session (map labelled body.elements)
          (some correlation_id) now session
      ∙ ground (arith, exposed, beq_refl session)

-- One call of a route: a request to register, to invoke, to be admitted, to revoke or to sign, with any
-- body, at any time, with whatever the bindings and the transport do.
pub data Call {S : Type 0} (s : BrokerServices S) : BrokerServices S → Type 1 where
  registers :
      (bindings : NieBindings S) (hash : String → String) (at_most : String → String → Bool)
      (stringify : List String → String) (correlation_id : String) (now : ℕ)
      (body : Option RegisterRequest)
      → Call s (register bindings hash at_most stringify correlation_id now s body).0
  invokes :
      (bindings : NieBindings S) (transport : OpenClawTransport) (deadlines : Deadlines)
      (hash : String → String) (canonical : TstlEnvelope → String) (request : Request)
      → Call s (invoke bindings transport deadlines hash canonical request s).0
  admits :
      (attest : S → AdmissionRequest → S × Work AttestationResult)
      (append_error correlation_id : String) (request : ParsedAdmission)
      → Call s (admit attest append_error correlation_id s request).0
  revokes :
      (revoke_subject : S → RevocationInput → S × Work RevocationResult) (correlation_id : String)
      (input : Option RevocationInput)
      → Call s (revoke revoke_subject correlation_id s input).0
  cosigns :
      (bindings : NieBindings S) (correlation_id : String) (request : Option CosignRequest)
      → Call s (cosign bindings correlation_id s request).0

pub data Calls {S : Type 0} (s : BrokerServices S) : BrokerServices S → Type 1 where
  here : Calls s s
  next : {t u : BrokerServices S} → Calls s t → Call t u → Calls s u

Tainted : {S : Type 0} → String → BrokerServices S → Type 0
Tainted session_id s = Labels.is_tainted s.session_labels session_id ≡ true

Call-Tainted :
    {S : Type 0} (session_id : String) {s t : BrokerServices S}
    → Call s t
    → Tainted session_id s
    → Tainted session_id t
unfolding Tainted
Call-Tainted session_id {s} (registers bindings hash at_most stringify correlation_id now body) h =
    register-is_tainted bindings hash at_most stringify correlation_id now s body session_id h
Call-Tainted session_id {s} (invokes bindings transport deadlines hash canonical request) h =
    ap (λ l. Labels.is_tainted l session_id)
      (invoke-Keeps bindings transport deadlines hash canonical request s)
    ∙ h
Call-Tainted session_id {s} (admits attest append_error correlation_id request) h =
    ap (λ l. Labels.is_tainted l session_id)
      (admit-Keeps attest append_error correlation_id s request)
    ∙ h
Call-Tainted session_id {s} (revokes revoke_subject correlation_id input) h =
    ap (λ l. Labels.is_tainted l session_id) (revoke-Keeps revoke_subject correlation_id s input)
    ∙ h
Call-Tainted session_id {s} (cosigns bindings correlation_id request) h =
    ap (λ l. Labels.is_tainted l session_id) (cosign-Keeps bindings correlation_id s request) ∙ h

Calls-Tainted :
    {S : Type 0} (session_id : String) {s t : BrokerServices S}
    → Calls s t
    → Tainted session_id s
    → Tainted session_id t
Calls-Tainted session_id here h = h
Calls-Tainted session_id (next before call) h =
    Call-Tainted session_id call (Calls-Tainted session_id before h)

module _ {S : Type 0} (bindings : NieBindings S) (hash : String → String)
    (at_most : String → String → Bool) (stringify : List String → String) (correlation_id : String)
    (now : ℕ) where
  -- Untrusted material that a session registered stays with it: after a registration of an element of an
  -- untrusted origin with a valid token that names a session, also one that could not be recorded, and
  -- after any later calls of the routes, registrations of clean elements and denied requests among them,
  -- no request reaches the transport whose token verifies in time to the same session and that asks to
  -- export data or for administrative control.
  pub registered_blocks :
      (s later : BrokerServices S) (body : RegisterRequest) (token : TokenVerificationResult)
      (elapsed : ℕ) (transport : OpenClawTransport) (deadlines : Deadlines)
      (canonical : TstlEnvelope → String) (request : Request) (asked : InvokeRequest)
      (shown : TokenVerificationResult)
      → bindings.verify_token s.bindings body.capability_token
        ≡ record { settles_after = some elapsed; result = ok token }
      → token.valid ≡ true
      → truthy token.session_id ≡ true
      → any is_untrusted (map labelled body.elements) ≡ true
      → Calls (register bindings hash at_most stringify correlation_id now s (some body)).0 later
      → request.body ≡ parsed asked
      → with_deadline deadlines.token_verify
          (bindings.verify_token later.bindings asked.capability_token)
        ≡ settled shown
      → shown.session_id ≡ token.session_id
      → only_outward asked.operation_class ≡ true
      → (invoke bindings transport deadlines hash canonical request later).0.transport_calls
        ≡ later.transport_calls
  unfolding Tainted
  registered_blocks s later body token elapsed transport deadlines canonical request asked shown
        answered valid named exposed calls shaped settles same only =
      let tainted = Calls-Tainted (token.session_id or_else "") calls (
        registered-is_tainted bindings hash at_most stringify correlation_id now s body token
          elapsed answered valid named exposed) in
      invoke_tainted bindings transport deadlines hash canonical request later asked shown shaped
        settles
        (subst (λ o. Labels.is_tainted later.session_labels (o or_else "") ≡ true) (sym same)
          tainted)
        only
