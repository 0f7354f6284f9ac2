-- ===== src/Envelope/Validation.antt =====
-- When an envelope is valid, and that an envelope that was built is.
use openclaw_nie_guard.Common.{
  ℕ, ◌+◌, ◌*◌, ◌≤◌, ◌<◌, ◌≡◌, refl, sym, subst, ◌↔◌, ◌⊎◌, inl, inr, String, Option, none, some,
  true, false, not, ◌&&◌, ◌==◌, string_eq, if◌then◌else◌, ltb, arith, eq_iff, beq_refl, is_some,
  Bool-cases,
}
use openclaw_nie_guard.Types.{
  Result, ok, threw, Thrown, ErrorCode, session_expired, target_mismatch, scope_denied,
  nonce_replay, continuity_failed,
}
use openclaw_nie_guard.Envelope.{
  TstlEnvelope, EnvelopeBuildInput, Expected, given_and, below_min, built, build_envelope, checked,
  validate_envelope, is_session_expired,
}

-- What is expected of an envelope, where it is given and not empty.
abbrev pub Matches : (String → String) → Option String → String → Type 0
Matches hash none h = Unit
Matches hash (some s) h = (s ≡ "") ⊎ (h ≡ hash s)

abbrev pub AtLeast : Option ℕ → ℕ → Type 0
AtLeast none n = Unit
AtLeast (some m) n = m ≤ n

abbrev pub Fits : (String → String) → TstlEnvelope → Expected → ℕ → Type 0
Fits hash envelope expected now =
    (now ≤ envelope.expires_at)
    × Matches hash expected.target_id envelope.target_hash
    × Matches hash expected.role_scope envelope.role_scope_hash
    × AtLeast expected.min_counter envelope.counter

given_and_iff :
    (hash : String → String) (o : Option String) (h : String)
    → (given_and o (λ s. not (h == hash s)) ≡ false) ↔ Matches hash o h
given_and_iff hash none h = (λ _. tt, λ _. refl)
given_and_iff hash (some s) h = (
  λ e. ground (arith, eq_iff s "", eq_iff h (hash s)),
  λ m. ground (arith, eq_iff s "", eq_iff h (hash s)),
)

below_min_iff :
    (hash : String → String) (o : Option ℕ) (envelope : TstlEnvelope)
    → (below_min hash o envelope ≡ false) ↔ AtLeast o envelope.counter
below_min_iff hash none envelope = (λ _. tt, λ _. refl)
below_min_iff hash (some m) envelope = (λ e. ground arith, λ h. ground arith)

pub ok-injective : {a b : TstlEnvelope} → ok a ≡ ok b → a ≡ b
ok-injective h = cc

-- An envelope is accepted exactly if the bindings opened it, it has not expired, the target and the
-- scope that are given and not empty hash to its own, and its counter has not fallen below the one
-- given. And it is not accepted, or what is answered is the opened envelope itself.
pub validate_envelope_iff :
    (hash : String → String) (opened : Result TstlEnvelope) (expected : Expected) (now : ℕ)
    → (((validate_envelope hash opened expected now).valid ≡ true)
        ↔ ((envelope : TstlEnvelope) × (opened ≡ ok envelope) × Fits hash envelope expected now))
      × (((validate_envelope hash opened expected now).valid ≡ false)
          ⊎ ((envelope : TstlEnvelope) × (opened ≡ ok envelope)
              × ((validate_envelope hash opened expected now).envelope ≡ some envelope)))
unfolding validate_envelope
validate_envelope_iff hash (threw err) expected now =
    (((λ h. absurd (ground arith)), λ (envelope, e, _). cc), inl (ground arith))
validate_envelope_iff hash (ok envelope) expected now = ((to, from), answer)
  where
    target :
        (given_and expected.target_id (λ s. not (envelope.target_hash == hash s)) ≡ false)
        ↔ Matches hash expected.target_id envelope.target_hash
    target = given_and_iff hash expected.target_id envelope.target_hash

    scope :
        (given_and expected.role_scope (λ s. not (envelope.role_scope_hash == hash s)) ≡ false)
        ↔ Matches hash expected.role_scope envelope.role_scope_hash
    scope = given_and_iff hash expected.role_scope envelope.role_scope_hash

    counter :
        (below_min hash expected.min_counter envelope ≡ false)
        ↔ AtLeast expected.min_counter envelope.counter
    counter = below_min_iff hash expected.min_counter envelope

    to :
        (checked hash envelope expected now).valid ≡ true
        → (e : TstlEnvelope) × (ok envelope ≡ ok e) × Fits hash e expected now
    to h = (
      envelope,
      refl,
      (ground arith, target.0 (ground arith), scope.0 (ground arith), counter.0 (ground arith)),
    )

    fits_valid : Fits hash envelope expected now → (checked hash envelope expected now).valid ≡ true
    fits_valid (fresh, t, r, c) = ground (arith, target.1 t, scope.1 r, counter.1 c)

    from :
        ((e : TstlEnvelope) × (ok envelope ≡ ok e) × Fits hash e expected now)
        → (checked hash envelope expected now).valid ≡ true
    from (e, same, fits) =
        fits_valid (subst (λ x. Fits hash x expected now) (sym (ok-injective same)) fits)

    answer :
        ((checked hash envelope expected now).valid ≡ false)
        ⊎ ((e : TstlEnvelope) × (ok envelope ≡ ok e)
            × ((checked hash envelope expected now).envelope ≡ some e))
    answer = elim (Bool-cases (checked hash envelope expected now).valid) [
      | inl accepted ↦ inr (envelope, refl, ground arith)
      | inr refused ↦ inl refused
    ]

-- What a refusal with a code says.
abbrev pub Refusal : (String → String) → Result TstlEnvelope → Expected → ℕ → ErrorCode → Type 0
Refusal hash opened expected now code =
    ((err : Thrown) × (opened ≡ threw err)
      × (code ≡ (if is_session_expired err then session_expired else continuity_failed)))
    ⊎ ((envelope : TstlEnvelope) × (opened ≡ ok envelope)
        × (((envelope.expires_at < now) × (code ≡ session_expired))
            ⊎ ((now ≤ envelope.expires_at)
                × ((¬ Matches hash expected.target_id envelope.target_hash
                      × (code ≡ target_mismatch))
                    ⊎ (Matches hash expected.target_id envelope.target_hash
                        × ((¬ Matches hash expected.role_scope envelope.role_scope_hash
                              × (code ≡ scope_denied))
                            ⊎ (Matches hash expected.role_scope envelope.role_scope_hash
                                × ¬ AtLeast expected.min_counter envelope.counter
                                × (code ≡ nonce_replay))))))))

-- A refusal names what failed first: an envelope that did not open is a continuity failure, unless the
-- bindings said that it has expired; one that opened is expired, of another target, of another scope,
-- or below the counter, in this order.
pub validate_envelope_codes :
    (hash : String → String) (opened : Result TstlEnvelope) (expected : Expected) (now : ℕ)
    (code : ErrorCode)
    → (validate_envelope hash opened expected now).valid ≡ false
    → (validate_envelope hash opened expected now).reason_code ≡ some code
    → Refusal hash opened expected now code
unfolding validate_envelope
validate_envelope_codes hash (threw err) expected now code bad e = inl (err, refl, ground arith)
validate_envelope_codes hash (ok envelope) expected now code bad e = inr (
  envelope,
  refl,
  elim (Bool-cases (ltb envelope.expires_at now)) [
    | inl late ↦ inl (ground arith, ground arith)
    | inr fresh ↦ inr (
      ground arith,
      elim (Bool-cases (given_and expected.target_id (λ s. not (envelope.target_hash == hash s)))) [
        | inl other ↦ inl (λ m. ground (arith, target.1 m), ground arith)
        | inr same ↦ inr (target.0 same, scope_case fresh same)
      ],
    )
  ],
)
  where
    target :
        (given_and expected.target_id (λ s. not (envelope.target_hash == hash s)) ≡ false)
        ↔ Matches hash expected.target_id envelope.target_hash
    target = given_and_iff hash expected.target_id envelope.target_hash

    scope :
        (given_and expected.role_scope (λ s. not (envelope.role_scope_hash == hash s)) ≡ false)
        ↔ Matches hash expected.role_scope envelope.role_scope_hash
    scope = given_and_iff hash expected.role_scope envelope.role_scope_hash

    counter :
        (below_min hash expected.min_counter envelope ≡ false)
        ↔ AtLeast expected.min_counter envelope.counter
    counter = below_min_iff hash expected.min_counter envelope

    scope_case :
        ltb envelope.expires_at now ≡ false
        → given_and expected.target_id (λ s. not (envelope.target_hash == hash s)) ≡ false
        → (¬ Matches hash expected.role_scope envelope.role_scope_hash × (code ≡ scope_denied))
          ⊎ (Matches hash expected.role_scope envelope.role_scope_hash
              × ¬ AtLeast expected.min_counter envelope.counter
              × (code ≡ nonce_replay))
    scope_case fresh same =
        elim (Bool-cases
          (given_and expected.role_scope (λ s. not (envelope.role_scope_hash == hash s)))) [
            | inl other ↦ inl (λ m. ground (arith, scope.1 m), ground arith)
            | inr fits ↦ inr (scope.0 fits, λ m. ground (arith, counter.1 m), ground arith)
          ]

-- The round trip: when the bindings open the seal of an envelope as that envelope, an envelope built at one time validates at
-- any time up to its end, for its own target and scope and for a counter that is not above its own, and
-- the envelope that comes back is the one that was built.
pub validate-build_envelope :
    (hash : String → String) (seal_envelope : TstlEnvelope → String)
    (validate_continuity_envelope : String → Result TstlEnvelope)
    → (input : EnvelopeBuildInput) (now later min_counter : ℕ)
    → validate_continuity_envelope (seal_envelope (built hash input now))
      ≡ ok (built hash input now)
    → later ≤ now + input.ttl_seconds * 1000
    → min_counter ≤ input.counter
    → validate_envelope hash
        (validate_continuity_envelope (build_envelope hash seal_envelope input now))
        (record {
          target_id = some input.target_id;
          role_scope = some input.role_scope;
          min_counter = some min_counter;
        })
        later
      ≡ record { valid = true; envelope = some (built hash input now); reason_code = none }
unfolding build_envelope
validate-build_envelope hash seal_envelope opens input now later min_counter law fresh enough =
    rw law (
      unfold validate_envelope built in
      ground (arith, beq_refl (hash input.target_id), beq_refl (hash input.role_scope)))

-- A refusal has a code.
pub validate_envelope-named :
    (hash : String → String) (opened : Result TstlEnvelope) (expected : Expected) (now : ℕ)
    → let check = validate_envelope hash opened expected now in
      check.valid && is_some check.envelope ≡ false → is_some check.reason_code ≡ true
unfolding validate_envelope
validate_envelope-named hash (threw err) expected now h = ground arith
validate_envelope-named hash (ok envelope) expected now h = ground arith
