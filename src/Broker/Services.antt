-- ===== src/Broker/Services.antt =====
-- services/context.ts: what the routes share. The NIE bindings are an interface over their own state
-- `S`, so that the reference bindings and the production ones both fill it.
use openclaw_nie_guard.Common.{ℕ, String, Option, none, some, List}
use openclaw_nie_guard.Types.{ErrorCode, Json}
use openclaw_nie_guard.Envelope.{TstlEnvelope}
use openclaw_nie_guard.Bindings.{TokenVerificationResult, NonceConsumeResult}
use openclaw_nie_guard.Policy.{PolicyEngine}
use openclaw_nie_guard.Adapter.{Method, MediatedOperation}
use openclaw_nie_guard.Labels.{SessionLabelStore}
use openclaw_nie_guard.Broker.Audit.{BrokerProvidence, AppendInput, append_plain, append_forwarded}
use openclaw_nie_guard.Broker.Deadline.{Work}

-- The part of `NieBindings` that the pipeline awaits, each call with the time that it takes.
pub record NieBindings (S : Type 0) : Type 0 where
  pub verify_token : S → String → Work TokenVerificationResult
  pub consume_nonce : S → String → String → S × Work NonceConsumeResult
  pub validate_continuity_envelope : S → String → Work TstlEnvelope
  pub readable_envelope_digest : S → String → Option String

pub record BrokerServices (S : Type 0) : Type 0 where
  pub bindings : S
  pub policy : PolicyEngine
  pub providence : BrokerProvidence
  pub registered_manifests : List String
  pub session_labels : SessionLabelStore
  -- What the transport behind the adapter was called for, oldest first.
  pub transport_calls : List (Method × MediatedOperation)

-- An answer over HTTP. A handler that throws answers nothing of its own: `none` in its place.
pub record Reply : Type 0 where
  pub status : ℕ
  pub code : Option ErrorCode
  pub message : Option String
  pub result : Option Json
  pub event : Option ℕ

abbrev pub refusal : ℕ → ErrorCode → String → Reply
refusal status code message = record {
  status = status;
  code = some code;
  message = some message;
  result = none;
  event = none;
}

abbrev pub Handled : Type 0 → Type 0
Handled S = BrokerServices S × Option Reply

-- Write a record and answer, or throw with the log.
abbrev pub reply_if {ℓ} : {A : Type ℓ} → Option A → (A → Reply) → Option Reply
reply_if none f = none
reply_if (some a) f = some (f a)

module _ {S : Type 0} where
  unfoldable pub record_then : BrokerServices S → AppendInput → Reply → Handled S
  record_then services input reply =
      let (providence, position) = append_plain services.providence input in
      (record services { providence = providence }, reply_if position (λ _. reply))

  unfoldable pub record_forwarded_then : BrokerServices S → AppendInput → (ℕ → Reply) → Handled S
  record_forwarded_then services input reply =
      let (providence, position) = append_forwarded services.providence input in
      (record services { providence = providence }, reply_if position reply)
