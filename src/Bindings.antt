-- ===== src/Bindings.antt =====
-- packages/nie-bindings/src/mock.ts: the reference bindings, with their state passed along. The clock,
-- random ids and UUIDs are arguments; `hash` is SHA-256 in hexadecimal, which Node provides.
-- Sealing and opening an envelope (base64 of JSON) is not modelled: the broker takes the opened
-- envelope as an answer of the bindings.

pub mod Tokens
pub mod Nonces
use Prim.Native.Nat.{min}
use text.Mathlib.Text.{starts_with}
use openclaw_nie_guard.Common.{
  ℕ, ◌+◌, ◌*◌, String, Option, none, some, Bool, true, false, ◌&&◌, ◌||◌, not, List, [], ◌∷◌,
  includes, find, ◌==◌, string_eq, if◌then◌else◌, ltb, leb, Map, lookup, insert, retain,
}
use openclaw_nie_guard.Types.{
  OperationClass, operation_class_eq, operation_name, PolicyProfile, standard, ErrorCode,
  session_revoked, session_expired, nonce_replay, Thrown, error, Result, ok, threw, concat, decimal,
  utf16_length, first_chars,
}

-- interface.ts
pub record TokenVerificationResult : Type 0 where
  pub valid : Bool
  pub session_id : Option String
  pub subject_id : Option String
  pub device_fingerprint : Option String
  pub role : Option String
  pub requested_operation_set : Option (List OperationClass)
  pub expires_at : Option ℕ
  pub reason_code : Option ErrorCode

pub data RevocationKind : Type 0 where
  subject session device : RevocationKind

pub record RevocationInput : Type 0 where
  pub kind : RevocationKind
  pub id : String
  pub reason : String

pub record RevocationResult : Type 0 where
  pub acknowledged : Bool
  pub channels_notified : List String
  pub propagation_timestamp : ℕ

pub record NonceConsumeResult : Type 0 where
  pub first_use : Bool
  pub reason_code : Option ErrorCode

-- capability.ts: what the bindings read of an admission and of a derivation
pub record AdmissionRequest : Type 0 where
  pub attestation_package : String
  pub requested_role : String
  pub requested_operation_set : List OperationClass
  pub device_fingerprint : String

pub record AdmissionResponse : Type 0 where
  pub session_id : String
  pub capability_token : String
  pub profile : PolicyProfile
  pub issued_at : ℕ
  pub expires_at : ℕ
  pub correlation_id : String

pub record AttestationResult : Type 0 where
  pub subject_id : String
  pub device_fingerprint : String
  pub attestation_floor : String
  pub validated_at : ℕ
  pub admission : AdmissionResponse

pub record DerivationRequest : Type 0 where
  pub parent_capability : String
  pub operation_class_subset : List OperationClass
  pub ttl_seconds : ℕ

-- mock.ts
pub record TokenState : Type 0 where
  pub session_id : String
  pub subject_id : String
  pub device_fingerprint : String
  pub role : String
  pub requested_operation_set : List OperationClass
  pub expires_at : ℕ

pub record MockState : Type 0 where
  pub revoked_subjects : List String
  pub revoked_sessions : List String
  pub revoked_devices : List String
  pub seen_nonces : Map String (List String)
  pub active_tokens : Map String TokenState

abbrev pub initial : MockState
initial = record {
  revoked_subjects = [];
  revoked_sessions = [];
  revoked_devices = [];
  seen_nonces = [];
  active_tokens = [];
}

-- `add` of a `Set`
abbrev add : List String → String → List String
add set x = if includes set x then set else x ∷ set

-- What the environment supplies to one call of `attest`.
pub record Fresh : Type 0 where
  pub now : ℕ
  pub random_session_id : String
  pub random_correlation_id : String

-- The state of a derived token.
unfoldable pub child_of : TokenState → DerivationRequest → ℕ → TokenState
child_of parent input expires_at = record parent {
  requested_operation_set = input.operation_class_subset;
  expires_at = expires_at;
}

-- `now + min(ttl * 1000, parent.expiresAt - now)` is the smaller of `now + ttl * 1000` and
-- `parent.expiresAt`, also where the parent has expired and the difference is negative.
abbrev pub child_expiry : TokenState → DerivationRequest → ℕ → ℕ
child_expiry parent input now = min (now + input.ttl_seconds * 1000) parent.expires_at

module _ (hash : String → String) where
  unfoldable pub token_of : Fresh → String → String → String
  token_of fresh subject_id device_fingerprint = hash (
      concat (
        fresh.random_session_id
        ∷ ":"
        ∷ subject_id
        ∷ ":"
        ∷ device_fingerprint
        ∷ ":"
        ∷ decimal fresh.now
        ∷ []))

  -- The state and the answer of an admission whose checks passed.
  unfoldable pub admitted :
      MockState → AdmissionRequest → Fresh → String → MockState × Result AttestationResult
  unfolding token_of
  admitted state request fresh subject_id =
      let expires_at = fresh.now + 15 * 60 * 1000 in
      let capability_token = token_of fresh subject_id request.device_fingerprint in
      (
        record state {
          active_tokens =
              insert capability_token
                (record {
                  session_id = fresh.random_session_id;
                  subject_id = subject_id;
                  device_fingerprint = request.device_fingerprint;
                  role = request.requested_role;
                  requested_operation_set = request.requested_operation_set;
                  expires_at = expires_at;
                })
                state.active_tokens;
          seen_nonces = insert fresh.random_session_id [] state.seen_nonces;
        },
        ok (record {
          subject_id = subject_id;
          device_fingerprint = request.device_fingerprint;
          attestation_floor = "software-min";
          validated_at = fresh.now;
          admission = record {
            session_id = fresh.random_session_id;
            capability_token = capability_token;
            profile = standard;
            issued_at = fresh.now;
            expires_at = expires_at;
            correlation_id = fresh.random_correlation_id;
          };
        }),
      )

  unfoldable pub attest :
      MockState → AdmissionRequest → Fresh → MockState × Result AttestationResult
  attest state request fresh =
      let subject_id = first_chars 16 (hash request.attestation_package) in
      if ltb (utf16_length request.attestation_package) 8
        || starts_with request.attestation_package "browser-pivot-"
      then (state, threw (error none "ERR_ATTESTATION_FAILED: attestation floor not met"))
      else if includes state.revoked_subjects subject_id
          || includes state.revoked_devices request.device_fingerprint
      then (state, threw (error none "ERR_ATTESTATION_FAILED: subject or device revoked"))
      else admitted state request fresh subject_id

  unfoldable pub derive_scoped_capability :
      MockState → DerivationRequest → ℕ → String → MockState × Result String
  derive_scoped_capability state input now random_uuid =
      elim (lookup input.parent_capability state.active_tokens) [
        | none ↦ (state, threw (error none "ERR_SCOPE_DENIED: parent capability not found"))
        | some parent ↦
            if leb (child_expiry parent input now) now
            then (state, threw (error none "ERR_SESSION_EXPIRED: parent already expired"))
            else elim (find (λ op. not (includes parent.requested_operation_set op))
                input.operation_class_subset) [
                  | some op ↦ (
                    state,
                    threw (
                        error none (
                          concat (
                            "ERR_SCOPE_DENIED: child operation "
                            ∷ operation_name op
                            ∷ " not in parent scope"
                            ∷ []))),
                  )
                  | none ↦
                      let child_token = hash (
                        concat
                          (input.parent_capability ∷ ":" ∷ decimal now ∷ ":" ∷ random_uuid ∷ [])) in
                      (
                        record state {
                          active_tokens =
                              insert child_token
                                (child_of parent input (child_expiry parent input now))
                                state.active_tokens;
                        },
                        ok child_token,
                      )
                ]
      ]

abbrev refused : ErrorCode → TokenVerificationResult
refused code = record {
  valid = false;
  session_id = none;
  subject_id = none;
  device_fingerprint = none;
  role = none;
  requested_operation_set = none;
  expires_at = none;
  reason_code = some code;
}

unfoldable pub verify_token : MockState → String → ℕ → TokenVerificationResult
verify_token state token now = elim (lookup token state.active_tokens) [
  | none ↦ refused session_revoked
  | some entry ↦
      if ltb entry.expires_at now
      then refused session_expired
      else if includes state.revoked_sessions entry.session_id
      then refused session_revoked
      else record {
        valid = true;
        session_id = some entry.session_id;
        subject_id = some entry.subject_id;
        device_fingerprint = some entry.device_fingerprint;
        role = some entry.role;
        requested_operation_set = some entry.requested_operation_set;
        expires_at = some entry.expires_at;
        reason_code = none;
      }
]

-- Whether a revocation concerns a token.
abbrev pub concerns : RevocationInput → TokenState → Bool
concerns input entry = elim input.kind [
  | session ↦ entry.session_id == input.id
  | subject ↦ entry.subject_id == input.id
  | device ↦ entry.device_fingerprint == input.id
]

abbrev mark_revoked : MockState → RevocationInput → MockState
mark_revoked state input = elim input.kind [
  | subject ↦ record state { revoked_subjects = add state.revoked_subjects input.id }
  | session ↦ record state { revoked_sessions = add state.revoked_sessions input.id }
  | device ↦ record state { revoked_devices = add state.revoked_devices input.id }
]

unfoldable pub revoke_subject : MockState → RevocationInput → ℕ → MockState × RevocationResult
revoke_subject state input now =
    let marked = mark_revoked state input in
    (
      record marked {
        active_tokens = retain (λ _ entry. not (concerns input entry)) marked.active_tokens;
      },
      record {
        acknowledged = true;
        channels_notified = "local" ∷ "redis-mock" ∷ "event-bus-mock" ∷ [];
        propagation_timestamp = now;
      },
    )

abbrev nonces_of : Option (List String) → List String
nonces_of none = []
nonces_of (some set) = set

unfoldable pub consume_nonce : MockState → String → String → MockState × NonceConsumeResult
consume_nonce state nonce session_id =
    let set = nonces_of (lookup session_id state.seen_nonces) in
    if includes set nonce
    then (state, record { first_use = false; reason_code = some nonce_replay })
    else (
      record state { seen_nonces = insert session_id (nonce ∷ set) state.seen_nonces },
      record { first_use = true; reason_code = none },
    )
