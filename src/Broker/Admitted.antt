-- ===== src/Broker/Admitted.antt =====
-- POST /v1/admit: every answer has its record.
use openclaw_nie_guard.Common.{
  ℕ, ◌≡◌, refl, sym, ap, ◌∙◌, subst, inl, inr, String, Option, none, some, Bool, true, false, List,
  [], ◌∷◌, ◌++◌, ◌==◌, nat_eq,
}
use openclaw_nie_guard.Types.{Thrown, Result, ok, threw}
use openclaw_nie_guard.Bindings.{AdmissionRequest, AttestationResult}
use openclaw_nie_guard.Broker.Audit.{
  AppendInput, EventType, admit as admit_event, written, write, append_plain,
}
use openclaw_nie_guard.Broker.Deadline.{Work}
use openclaw_nie_guard.Broker.Services.{BrokerServices, Reply, Handled, record_then, reply_if}
use openclaw_nie_guard.Broker.Accounted.{write-cases, written-fields}
use openclaw_nie_guard.Broker.Admission.{
  ParsedAdmission, malformed_admission, parsed_admission, on_settled, admission_failed,
  admission_record, admission_reply, admitting, admit, or_failed,
}

abbrev pub is_admit : EventType → Bool
is_admit admit_event = true
is_admit _ = false

-- An answer with its one record; where the handler throws, or never answers, nothing was added.
abbrev pub AdmissionAccountedAs :
    String → List AppendInput → List AppendInput → Option Reply → Type 0
AdmissionAccountedAs correlation_id before after none = after ≡ before
AdmissionAccountedAs correlation_id before after (some reply) =
    (entry : AppendInput) × (after ≡ before ++ entry ∷ [])
    × (entry.correlation_id ≡ some correlation_id)
    × (entry.reason_code ≡ reply.code)
    × (is_admit entry.event_type ≡ (reply.status == 200))

module _ {S : Type 0} (attest : S → AdmissionRequest → S × Work AttestationResult)
    (append_error : String) (correlation_id : String) (before : List AppendInput) where
  unfoldable AdmissionAccounted : Handled S → Type 0
  AdmissionAccounted (s, reply) =
      AdmissionAccountedAs correlation_id before s.providence.log.entries reply

  record_then-AdmissionAccounted :
      (s : BrokerServices S) (input : AppendInput) (reply : Reply)
      → s.providence.log.entries ≡ before
      → input.correlation_id ≡ some correlation_id
      → input.reason_code ≡ reply.code
      → is_admit input.event_type ≡ (reply.status == 200)
      → AdmissionAccounted (record_then s input reply)
  unfolding AdmissionAccounted record_then append_plain
  record_then-AdmissionAccounted s input reply same correlated coded typed =
      let (kind, correlation, reason) = written-fields input [] in
      let after = (write s.providence input []).0.log.entries in
      elim (write-cases correlation_id before s.providence input []) [
        | inl (none_given, kept) ↦
            subst (λ p. AdmissionAccountedAs correlation_id before after (reply_if p (λ _. reply)))
              (sym none_given) (kept ∙ same)
        | inr (position, added) ↦
            subst (λ p. AdmissionAccountedAs correlation_id before after (reply_if p (λ _. reply)))
              (sym position)
              (
                written input [],
                added ∙ ap (λ entries. entries ++ written input [] ∷ []) same,
                correlation ∙ correlated,
                reason ∙ coded,
                ap is_admit kind ∙ typed,
              )
      ]

  failed-AdmissionAccounted :
      (s : BrokerServices S) (message : String)
      → s.providence.log.entries ≡ before
      → AdmissionAccounted (admission_failed attest append_error correlation_id s message)
  unfolding admission_failed
  failed-AdmissionAccounted s message same =
      record_then-AdmissionAccounted s _ _ same refl refl refl

  or_failed-AdmissionAccounted :
      (handled : Handled S)
      → AdmissionAccounted handled
      → AdmissionAccounted (or_failed attest append_error correlation_id handled)
  unfolding AdmissionAccounted
  or_failed-AdmissionAccounted (s, some reply) h = h
  or_failed-AdmissionAccounted (s, none) h = failed-AdmissionAccounted s append_error h

  thrown-AdmissionAccounted :
      (s : BrokerServices S) → s.providence.log.entries ≡ before → AdmissionAccounted (s, none)
  unfolding AdmissionAccounted
  thrown-AdmissionAccounted s same = same

  by_settled :
      {A : Type 0} (settles_after : Option ℕ) (result : Result A) (never : Handled S)
      (f : Thrown → Handled S) (h : A → Handled S)
      → AdmissionAccounted never
      → ((err : Thrown) → AdmissionAccounted (f err))
      → ((a : A) → AdmissionAccounted (h a))
      → AdmissionAccounted
          (on_settled (record { settles_after = settles_after; result = result }) never f h)
  by_settled none result never f h on_never on_error on_answer = on_never
  by_settled (some n) (threw err) never f h on_never on_error on_answer = on_error err
  by_settled (some n) (ok a) never f h on_never on_error on_answer = on_answer a

  admitting-AdmissionAccounted :
      (s : BrokerServices S) (request : AdmissionRequest)
      → s.providence.log.entries ≡ before
      → AdmissionAccounted (admitting attest append_error correlation_id s request)
  unfolding admitting
  admitting-AdmissionAccounted s request same =
      let (after, work) = attest s.bindings request in
      let s' = record s { bindings = after } in
      by_settled work.settles_after work.result _ _ _ (thrown-AdmissionAccounted s' same)
        (λ err. failed-AdmissionAccounted s' _ same)
        (λ result.
          or_failed-AdmissionAccounted
            (record_then s' (admission_record attest append_error correlation_id result)
              (admission_reply attest append_error correlation_id result))
            (record_then-AdmissionAccounted s' _ _ same refl refl refl))

module _ {S : Type 0} (attest : S → AdmissionRequest → S × Work AttestationResult)
    (append_error : String) (correlation_id : String) where
  -- Every answer of the admission route comes with exactly one new record at the end of the log, with the
  -- request's correlation id and the answer's code, which is an `admit` record exactly if the status is
  -- 200: no capability token is handed out without its record. Without an answer no record was added.
  pub admit_recorded :
      (s : BrokerServices S) (shape : ParsedAdmission)
      → let (after, reply) = admit attest append_error correlation_id s shape in
        AdmissionAccountedAs correlation_id s.providence.log.entries after.providence.log.entries
          reply
  unfolding admit AdmissionAccounted
  admit_recorded s (malformed_admission flaws) =
      record_then-AdmissionAccounted attest append_error correlation_id s.providence.log.entries s _
        _ refl refl refl refl
  admit_recorded s (parsed_admission request) =
      admitting-AdmissionAccounted attest append_error correlation_id s.providence.log.entries s
        request refl
