-- ===== src/Broker/Answered.antt =====
-- POST /v1/context/register: what every answer leaves in the Providence log and in the state of the routes.
use openclaw_nie_guard.Common.{
  ℕ, ◌≡◌, refl, sym, ap, ◌∙◌, subst, ◌⊎◌, inl, inr, String, Option, none, some, Bool, true, false,
  List, [], ◌∷◌, ◌++◌, Bool-cases,
}
use openclaw_nie_guard.Types.{Result, ok, threw}
use openclaw_nie_guard.Bindings.{TokenVerificationResult}
use openclaw_nie_guard.Broker.Audit.{AppendInput, EventType, written, write, append_plain}
use openclaw_nie_guard.Broker.Request.{truthy}
use openclaw_nie_guard.Broker.Services.{NieBindings, BrokerServices, Reply, record_then, reply_if}
use openclaw_nie_guard.Broker.Accounted.{write-cases, written-fields, is_invoke}
use openclaw_nie_guard.Broker.Admission.{on_settled}
use openclaw_nie_guard.Broker.Context.{RegisterRequest, register, register_verified, register_in}

module _ {S : Type 0} (correlation_id : String) (s : BrokerServices S) where
  -- A refusal of 403 leaves the labels and the manifests; an answer of 200 has an `invoke` record.
  abbrev pub RecordedAs : BrokerServices S → Reply → EventType → Type 0
  RecordedAs after reply event_type =
      ((reply.status ≡ 403)
        × (is_invoke event_type ≡ false)
        × (after.session_labels ≡ s.session_labels)
        × (after.registered_manifests ≡ s.registered_manifests))
      ⊎ ((reply.status ≡ 200) × (is_invoke event_type ≡ true))

  abbrev pub RegistrationAccounted : BrokerServices S → Option Reply → Type 0
  RegistrationAccounted after none = after.providence.log.entries ≡ s.providence.log.entries
  RegistrationAccounted after (some reply) =
      (((reply.status ≡ 400) ⊎ (reply.status ≡ 401)) × (after ≡ s))
      ⊎ ((entry : AppendInput) × (after.providence.log.entries
            ≡ s.providence.log.entries ++ entry ∷ [])
          × (entry.correlation_id ≡ some correlation_id)
          × (entry.reason_code ≡ reply.code)
          × RecordedAs after reply entry.event_type)

  -- A reply after a record that was tried on a state with the same log.
  record_then-Accounted :
      (s' : BrokerServices S) (input : AppendInput) (reply : Reply)
      → s'.providence ≡ s.providence
      → input.correlation_id ≡ some correlation_id
      → input.reason_code ≡ reply.code
      → RecordedAs s' reply input.event_type
      → RegistrationAccounted (record_then s' input reply).0 (record_then s' input reply).1
  unfolding record_then append_plain
  record_then-Accounted s' input reply same correlated coded typed =
      let (kind, correlation, reason) = written-fields input [] in
      let before = s.providence.log.entries in
      let entries = ap (λ p. p.log.entries) same in
      let after = record s' { providence = (write s'.providence input []).0 } in
      elim (write-cases correlation_id before s'.providence input []) [
        | inl (none_given, kept) ↦
            subst (λ p. RegistrationAccounted after (reply_if p (λ _. reply))) (sym none_given)
              (kept ∙ entries)
        | inr (position, added) ↦
            subst (λ p. RegistrationAccounted after (reply_if p (λ _. reply))) (sym position)
              (inr (
                written input [],
                added ∙ ap (λ (es : List AppendInput). es ++ written input [] ∷ []) entries,
                correlation ∙ correlated,
                reason ∙ coded,
                subst (RecordedAs after reply) (sym kind) typed,
              ))
      ]

module _ {S : Type 0} (bindings : NieBindings S) (hash : String → String)
    (at_most : String → String → Bool) (stringify : List String → String) (correlation_id : String)
    (now : ℕ) where
  register_verified-Accounted :
      (s : BrokerServices S) (body : RegisterRequest) (token : TokenVerificationResult)
      → let (after, reply) =
          register_verified bindings hash at_most stringify correlation_id now s body token in
        RegistrationAccounted correlation_id s after reply
  unfolding register_verified register_in
  register_verified-Accounted s body token = elim (Bool-cases token.valid) [
    | inr invalid ↦ rw invalid (inl (inr refl, refl))
    | inl valid ↦ elim (Bool-cases (truthy token.session_id)) [
      | inr unnamed ↦
          rw (valid, unnamed)
            (record_then-Accounted correlation_id s s _ _ refl refl refl
              (inl (refl, refl, refl, refl)))
      | inl named ↦
          rw (valid, named)
            (record_then-Accounted correlation_id s _ _ _ refl refl refl (inr (refl, refl)))
    ]
  ]

  -- A registration that is answered is answered with 400 or 401 and nothing has changed, or with 403 or 200 and exactly one new record at the end of the log, with the request's correlation id and the answer's code. The record is an `invoke` record for 200 and another one for 403, which leaves the labels and the manifests as they were. A handler that throws, or waits for the bindings for ever, has added no record.
  pub register_recorded :
      (s : BrokerServices S) (body : Option RegisterRequest)
      → let (after, reply) = register bindings hash at_most stringify correlation_id now s body in
        RegistrationAccounted correlation_id s after reply
  unfolding register
  register_recorded s none = inl (inl refl, refl)
  register_recorded s (some body) =
      let work = bindings.verify_token s.bindings body.capability_token in
      by_work work.settles_after work.result
    where
      by_work :
          (settles_after : Option ℕ) (result : Result TokenVerificationResult)
          → let handled =
              on_settled
                (record { settles_after = settles_after; result = result })
                (s, none)
                (λ err. (s, none))
                (λ token.
                  register_verified bindings hash at_most stringify correlation_id now s body
                    token) in
            RegistrationAccounted correlation_id s handled.0 handled.1
      by_work none result = refl
      by_work (some n) (threw err) = refl
      by_work (some n) (ok token) = register_verified-Accounted s body token
