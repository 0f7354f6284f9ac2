-- ===== src/Bindings/Tokens.antt =====
-- Revocation is final and derivation only narrows, over every sequence of calls of the bindings.
use openclaw_nie_guard.Common.{
  ℕ, ◌≤◌, ◌+◌, ◌*◌, ◌≡◌, ◌≢◌, refl, sym, subst, ◌<◌, ◌⊎◌, String, Option, none, some, Bool, true,
  false, not, ◌||◌, List, [], ◌∷◌, includes, find, all, ◌==◌, string_eq, leb, lookup, insert,
  lookup-insert, retain, Bool-cases, Option-cases, inl, inr, arith, eq_iff, beq_refl,
}
use openclaw_nie_guard.Types.{OperationClass, operation_class_eq, ok, first_chars, concat, decimal}
use openclaw_nie_guard.Bindings.{
  MockState, nonces_of, initial, TokenState, AdmissionRequest, Fresh, DerivationRequest,
  RevocationInput, subject, session, device, TokenVerificationResult, add, mark_revoked, attest,
  admitted, derive_scoped_capability, child_of, child_expiry, revoke_subject, concerns,
  consume_nonce, verify_token,
}
use openclaw_nie_guard.Common.{Every, Every-insert, Every-lookup, Every-retain}

-- One call that changes the state. The session id that an admission draws (32 random bytes) has not
-- been drawn before: it is not revoked, and no nonce was seen under it.
pub data Step (hash : String → String) : MockState → MockState → Type 0 where
  attests :
      (s : MockState) (request : AdmissionRequest) (fresh : Fresh)
      → includes s.revoked_sessions fresh.random_session_id ≡ false
      → lookup fresh.random_session_id s.seen_nonces ≡ none
      → Step hash s (attest hash s request fresh).0
  derives :
      (s : MockState) (input : DerivationRequest) (now : ℕ) (uuid : String)
      → Step hash s (derive_scoped_capability hash s input now uuid).0
  revokes :
      (s : MockState) (input : RevocationInput) (now : ℕ)
      → Step hash s (revoke_subject s input now).0
  consumes :
      (s : MockState) (nonce session_id : String) → Step hash s (consume_nonce s nonce session_id).0

pub data Steps (hash : String → String) (s : MockState) : MockState → Type 0 where
  here : Steps hash s s
  next : {t u : MockState} → Steps hash s t → Step hash t u → Steps hash s u

-- No part of a token's identity is revoked.
abbrev IsLive : MockState → TokenState → Type 0
IsLive s entry =
    (includes s.revoked_subjects entry.subject_id ≡ false)
    × (includes s.revoked_sessions entry.session_id ≡ false)
    × (includes s.revoked_devices entry.device_fingerprint ≡ false)

abbrev AllLive : MockState → Type 0
AllLive s = Every (IsLive s) s.active_tokens

-- An admission leaves the state, or admits a subject and a device that are not revoked.
attest_cases :
    (hash : String → String) (s : MockState) (request : AdmissionRequest) (fresh : Fresh)
    → let subject_id = first_chars 16 (hash request.attestation_package) in
      ((attest hash s request fresh).0 ≡ s)
      ⊎ ((includes s.revoked_subjects subject_id ≡ false)
          × (includes s.revoked_devices request.device_fingerprint ≡ false)
          × ((attest hash s request fresh).0 ≡ (admitted hash s request fresh subject_id).0))
unfolding attest
attest_cases hash s request fresh = ground arith

admitted-AllLive :
    (hash : String → String) (s : MockState) (request : AdmissionRequest) (fresh : Fresh)
    (subject_id : String)
    → includes s.revoked_subjects subject_id ≡ false
    → includes s.revoked_sessions fresh.random_session_id ≡ false
    → includes s.revoked_devices request.device_fingerprint ≡ false
    → AllLive s
    → AllLive (admitted hash s request fresh subject_id).0
unfolding admitted
admitted-AllLive hash s request fresh subject_id hu hs hd h =
    Every-insert (IsLive s) _ _ s.active_tokens (hu, hs, hd) h

attest-AllLive :
    (hash : String → String) (s : MockState) (request : AdmissionRequest) (fresh : Fresh)
    → includes s.revoked_sessions fresh.random_session_id ≡ false
    → AllLive s
    → AllLive (attest hash s request fresh).0
attest-AllLive hash s request fresh new h = elim (attest_cases hash s request fresh) [
  | inl same ↦ rw same h
  | inr (hu, hd, e) ↦ rw e (admitted-AllLive hash s request fresh _ hu new hd h)
]

child_of-IsLive :
    (s : MockState) (parent : TokenState) (input : DerivationRequest) (expiry : ℕ)
    → IsLive s parent
    → IsLive s (child_of parent input expiry)
unfolding child_of
child_of-IsLive s parent input expiry h = h

-- A derivation leaves the state, or adds a child of a parent that is in it.
derive_cases :
    (hash : String → String) (s : MockState) (input : DerivationRequest) (now : ℕ) (uuid : String)
    → let child_token =
        hash (concat (input.parent_capability ∷ ":" ∷ decimal now ∷ ":" ∷ uuid ∷ [])) in
      let result = derive_scoped_capability hash s input now uuid in
      (result.0 ≡ s)
      ⊎ ((parent : TokenState) × (lookup input.parent_capability s.active_tokens ≡ some parent)
          × (result.0 ≡ record s {
            active_tokens =
                insert child_token
                  (child_of parent input (child_expiry parent input now))
                  s.active_tokens;
          }))
unfolding derive_scoped_capability
derive_cases hash s input now uuid =
    elim (Option-cases (lookup input.parent_capability s.active_tokens)) [
      | inl missing ↦ inl (ground arith)
      | inr (parent, found) ↦ elim (Bool-cases (leb (child_expiry parent input now) now)) [
        | inl late ↦ inl (ground arith)
        | inr early ↦
            elim (Option-cases (
              find (λ op. not (includes parent.requested_operation_set op))
                input.operation_class_subset)) [
                  | inl none_out ↦ inr (parent, found, ground arith)
                  | inr (op, out) ↦ inl (ground arith)
                ]
      ]
    ]

derive-AllLive :
    (hash : String → String) (s : MockState) (input : DerivationRequest) (now : ℕ) (uuid : String)
    → AllLive s
    → AllLive (derive_scoped_capability hash s input now uuid).0
derive-AllLive hash s input now uuid h = elim (derive_cases hash s input now uuid) [
  | inl same ↦ rw same h
  | inr (parent, found, e) ↦ rw e (
      Every-insert (IsLive s) _ _ s.active_tokens
        (child_of-IsLive s parent input _
          (Every-lookup (IsLive s) _ s.active_tokens parent h found))
        h)
]

includes-add :
    (set : List String) (x y : String) → includes (add set x) y ≡ (x == y || includes set y)
includes-add set x y = elim (Bool-cases (includes set x)) [
  | inl old ↦ elim (Bool-cases (x == y)) [
    | inl same ↦ let e : x ≡ y = (eq_iff x y).0 same in ground (arith, e)
    | inr other ↦ ground arith
  ]
  | inr new ↦ ground arith
]

-- What is kept by a revocation was live before, and is not concerned by it.
kept-IsLive :
    (s : MockState) (input : RevocationInput) (entry : TokenState)
    → not (concerns input entry) ≡ true
    → IsLive s entry
    → IsLive (mark_revoked s input) entry
kept-IsLive s input entry kept (hu, hs, hd) = ground (
  arith,
  includes-add s.revoked_subjects input.id entry.subject_id,
  includes-add s.revoked_sessions input.id entry.session_id,
  includes-add s.revoked_devices input.id entry.device_fingerprint,
  eq_iff input.id entry.subject_id,
  eq_iff entry.subject_id input.id,
  eq_iff input.id entry.session_id,
  eq_iff entry.session_id input.id,
  eq_iff input.id entry.device_fingerprint,
  eq_iff entry.device_fingerprint input.id,
)

active_tokens-mark_revoked :
    (s : MockState) (input : RevocationInput)
    → (mark_revoked s input).active_tokens ≡ s.active_tokens
active_tokens-mark_revoked s input = ground arith

revoke-AllLive :
    (s : MockState) (input : RevocationInput) (now : ℕ)
    → AllLive s
    → AllLive (revoke_subject s input now).0
unfolding revoke_subject
revoke-AllLive s input now h =
    subst
      (λ m.
        Every (IsLive (mark_revoked s input))
          (retain (λ (_ : String) entry. not (concerns input entry)) m))
      (sym (active_tokens-mark_revoked s input))
      (Every-retain (IsLive s) (IsLive (mark_revoked s input)) _ s.active_tokens
        (λ _ entry kept live. kept-IsLive s input entry kept live) h)

consume-AllLive :
    (s : MockState) (nonce session_id : String)
    → AllLive s
    → AllLive (consume_nonce s nonce session_id).0
unfolding consume_nonce
consume-AllLive s nonce session_id h =
    elim (Bool-cases (includes (nonces_of (lookup session_id s.seen_nonces)) nonce)) [
      | inl old ↦ rw old h
      | inr new ↦ rw new h
    ]

Step-AllLive : {hash : String → String} {s t : MockState} → Step hash s t → AllLive s → AllLive t
Step-AllLive {hash} (attests s request fresh new _) h = attest-AllLive hash s request fresh new h
Step-AllLive {hash} (derives s input now uuid) h = derive-AllLive hash s input now uuid h
Step-AllLive (revokes s input now) h = revoke-AllLive s input now h
Step-AllLive (consumes s nonce session_id) h = consume-AllLive s nonce session_id h

Steps-AllLive : {hash : String → String} {s t : MockState} → AllLive s → Steps hash s t → AllLive t
Steps-AllLive h here = h
Steps-AllLive h (next before last) = Step-AllLive last (Steps-AllLive h before)

-- What has been revoked.
abbrev pub is_revoked : MockState → RevocationInput → Bool
is_revoked s input = elim input.kind [
  | subject ↦ includes s.revoked_subjects input.id
  | session ↦ includes s.revoked_sessions input.id
  | device ↦ includes s.revoked_devices input.id
]

Step-is_revoked :
    {hash : String → String} {s t : MockState} (input : RevocationInput)
    → Step hash s t
    → is_revoked s input ≡ true
    → is_revoked t input ≡ true
unfolding attest admitted derive_scoped_capability revoke_subject consume_nonce
Step-is_revoked {hash} input (attests s request fresh new _) h = ground arith
Step-is_revoked {hash} input (derives s input' now uuid) h = ground arith
Step-is_revoked input (revokes s input' now) h = ground (
  arith,
  includes-add s.revoked_subjects input'.id input.id,
  includes-add s.revoked_sessions input'.id input.id,
  includes-add s.revoked_devices input'.id input.id,
)
Step-is_revoked input (consumes s nonce session_id) h = ground arith

Steps-is_revoked :
    {hash : String → String} {s t : MockState} (input : RevocationInput)
    → is_revoked s input ≡ true
    → Steps hash s t
    → is_revoked t input ≡ true
Steps-is_revoked input h here = h
Steps-is_revoked input h (next before last) =
    Step-is_revoked input last (Steps-is_revoked input h before)

revoke-is_revoked :
    (s : MockState) (input : RevocationInput) (now : ℕ)
    → is_revoked (revoke_subject s input now).0 input ≡ true
unfolding revoke_subject
revoke-is_revoked s input now = ground (
  arith,
  includes-add s.revoked_subjects input.id input.id,
  includes-add s.revoked_sessions input.id input.id,
  includes-add s.revoked_devices input.id input.id,
  beq_refl input.id,
)

-- The part of a verified identity that a revocation is about.
abbrev pub identity : RevocationInput → TokenVerificationResult → Option String
identity input result = elim input.kind [
  | subject ↦ result.subject_id
  | session ↦ result.session_id
  | device ↦ result.device_fingerprint
]

live_not_revoked :
    (s : MockState) (input : RevocationInput) (entry : TokenState)
    → is_revoked s input ≡ true
    → IsLive s entry
    → concerns input entry ≡ false
live_not_revoked s input entry revoked live = ground (
  arith,
  eq_iff entry.subject_id input.id,
  eq_iff entry.session_id input.id,
  eq_iff entry.device_fingerprint input.id,
)

verified_not_revoked :
    (s : MockState) (input : RevocationInput) (token : String) (now : ℕ)
    → AllLive s
    → is_revoked s input ≡ true
    → (verify_token s token now).valid ≡ true
    → identity input (verify_token s token now) ≢ some input.id
unfolding verify_token
verified_not_revoked s input token now h revoked valid e =
    elim (Option-cases (lookup token s.active_tokens)) [
      | inl missing ↦ ground arith
      | inr (entry, found) ↦
          let fresh =
            live_not_revoked s input entry revoked
              (Every-lookup (IsLive s) token s.active_tokens entry h found) in
          ground (
            arith,
            fresh,
            eq_iff entry.subject_id input.id,
            eq_iff entry.session_id input.id,
            eq_iff entry.device_fingerprint input.id,
          )
    ]

-- Revocation is final: from the initial state, after any calls, a revocation, and any further calls
-- (admissions and derivations included), no token verifies whose subject, session or device is the one
-- that was revoked.
pub revocation_final :
    (hash : String → String) (s t : MockState) (input : RevocationInput) (now : ℕ)
    → Steps hash initial s
    → Steps hash (revoke_subject s input now).0 t
    → (token : String) (later : ℕ) → (verify_token t token later).valid ≡ true
    → identity input (verify_token t token later) ≢ some input.id
revocation_final hash s t input now before after token later =
    let live = Steps-AllLive (revoke-AllLive s input now (Steps-AllLive tt before)) after in
    verified_not_revoked t input token later live
      (Steps-is_revoked input (revoke-is_revoked s input now) after)

all_of_find :
    (have want : List OperationClass)
    → find (λ op. not (includes have op)) want ≡ none
    → all (includes have) want ≡ true
all_of_find have [] h = refl
all_of_find have (op ∷ ops) h = elim (Bool-cases (includes have op)) [
  | inl inside ↦ rw inside (all_of_find have ops (ground arith))
  | inr outside ↦ ground arith
]

-- When a derivation succeeds, its parent was there, and the state holds under the child's token an entry
-- with the requested operations, all of which are among the parent's; it expires after now, no later
-- than the parent and no later than the lifetime asked for allows; and it carries the parent's session,
-- subject, device and role.
pub derive_narrows :
    (hash : String → String) (s : MockState) (input : DerivationRequest) (now : ℕ) (uuid : String)
    (child : String)
    → (derive_scoped_capability hash s input now uuid).1 ≡ ok child
    → (parent entry : TokenState) × (lookup input.parent_capability s.active_tokens ≡ some parent)
      × (lookup child (derive_scoped_capability hash s input now uuid).0.active_tokens ≡ some entry)
      × (all (includes parent.requested_operation_set) entry.requested_operation_set ≡ true)
      × (entry.requested_operation_set ≡ input.operation_class_subset)
      × (entry.expires_at ≤ parent.expires_at)
      × (entry.expires_at ≤ now + input.ttl_seconds * 1000)
      × (now < entry.expires_at)
      × (entry.session_id ≡ parent.session_id)
      × (entry.subject_id ≡ parent.subject_id)
      × (entry.device_fingerprint ≡ parent.device_fingerprint)
      × (entry.role ≡ parent.role)
unfolding derive_scoped_capability child_of
derive_narrows hash s input now uuid child h =
    elim (Option-cases (lookup input.parent_capability s.active_tokens)) [
      | inl missing ↦ absurd (ground arith)
      | inr (parent, found) ↦ elim (Bool-cases (leb (child_expiry parent input now) now)) [
        | inl late ↦ absurd (ground arith)
        | inr early ↦
            elim (Option-cases (
              find (λ op. not (includes parent.requested_operation_set op))
                input.operation_class_subset)) [
                  | inr (op, out) ↦ absurd (ground arith)
                  | inl inside ↦ (
                    parent,
                    child_of parent input (child_expiry parent input now),
                    found,
                    ground (
                      arith,
                      lookup-insert child child
                          (child_of parent input (child_expiry parent input now)) s.active_tokens,
                      beq_refl child,
                    ),
                    all_of_find parent.requested_operation_set input.operation_class_subset inside,
                    refl,
                    ground arith,
                    ground arith,
                    ground arith,
                    refl,
                    refl,
                    refl,
                    refl,
                  )
                ]
      ]
    ]
