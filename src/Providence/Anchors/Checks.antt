-- ===== src/Providence/Anchors/Checks.antt =====
-- The bounds of the anchor interval, and which signers the self-test passes.
use openclaw_nie_guard.Common.{
  ℕ, ◌≤◌, ◌≡◌, ◌↔◌, refl, ◌⊎◌, inl, inr, String, Option, none, some, true, false, List, ◌==◌,
  nat_eq, string_eq, arith, Option-cases, Bool-cases, includes, eq_iff,
}
use openclaw_nie_guard.Providence.Encoding.{Bytes, key_id_of}
use openclaw_nie_guard.Providence.Disk.{Attempt, given, throws}
use openclaw_nie_guard.Providence.Anchors.{
  ProvidenceSigner, anchor_interval_seconds, decimal_value, signer_self_test, self_test_message,
  altered,
}

-- The interval is from 1 to 3600 seconds, or it is refused.
pub anchor_interval-Bound :
    (raw : Option String) (n : ℕ) → anchor_interval_seconds raw ≡ some n → (1 ≤ n) × (n ≤ 3600)
unfolding anchor_interval_seconds
anchor_interval-Bound none n e = ground arith
anchor_interval-Bound (some raw) n e = elim (Bool-cases (raw == "")) [
  | inl unset ↦ ground (arith, unset)
  | inr set ↦ elim (Option-cases (decimal_value 0 raw)) [
    | inl none_of ↦ absurd (ground (arith, set, none_of))
    | inr (m, is_m) ↦ ground (arith, set, is_m)
  ]
]

Attempt-cases :
    (t : Attempt Bytes) → ((e : String) × (t ≡ throws e)) ⊎ ((a : Bytes) × (t ≡ given a))
Attempt-cases (throws e) = inl (e, refl)
Attempt-cases (given a) = inr (a, refl)

-- The test passes exactly a signer with an allowed algorithm, the key id of its public key, and a signature over the fixed message that it verifies for that message and not for the message with its first bit changed.
pub signer_self_test_lem :
    (sha256 : Bytes → String) (signer : ProvidenceSigner) (allowed : List String)
    → (signer_self_test sha256 signer (some allowed) ≡ none) ↔ (
        (includes allowed signer.algorithm ≡ true)
        × (signer.key_id ≡ key_id_of sha256 signer.public_key)
        × ((signature : Bytes) × (signer.sign self_test_message ≡ given signature)
            × (signer.verify self_test_message signature ≡ true)
            × (signer.verify (altered self_test_message) signature ≡ false)))
unfolding signer_self_test
signer_self_test_lem sha256 signer allowed = elim (Attempt-cases (signer.sign self_test_message)) [
  | inl (e, bad) ↦ (
    λ passes. absurd (ground (arith, bad, passes)),
    λ (_, _, (s, signed, _, _)). absurd (ground (arith, bad, signed)),
  )
  | inr (s, signed) ↦ (
    λ passes. (
      ground (arith, signed, passes),
      ground (arith, signed, passes, eq_iff signer.key_id (key_id_of sha256 signer.public_key)),
      (s, signed, ground (arith, signed, passes), ground (arith, signed, passes)),
    ),
    λ (is_allowed, id, (s', signed', good, bad)). ground (
      arith,
      signed,
      signed',
      is_allowed,
      (eq_iff signer.key_id (key_id_of sha256 signer.public_key)).1 id,
      good,
      bad,
    ),
  )
]
