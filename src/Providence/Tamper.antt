-- ===== src/Providence/Tamper.antt =====
-- What the head says of the chain: two chains with one head hold the same records, or they show two byte
-- sequences with the same digest.
use openclaw_nie_guard.Common.{
  ℕ, suc, ◌≡◌, ◌≢◌, refl, sym, ap, ap₂, ◌∙◌, ◌⊎◌, inl, inr, String, some, List, [], ◌∷◌, length,
  Option-cases, Bool-cases, arith, ◌==◌, nat_eq, beq_sound,
}
use openclaw_nie_guard.Providence.Records.{ProvidenceRecord}
use openclaw_nie_guard.Providence.Encoding.{Bytes, preimage, record_digest, genesis_digest}
use openclaw_nie_guard.Providence.Encoding.Fields.{SameFields, preimage_injective}
use openclaw_nie_guard.Providence.Chain.{Chained}

Bytes-cases : (xs ys : Bytes) → (xs ≡ ys) ⊎ (xs ≢ ys)
Bytes-cases [] [] = inl refl
Bytes-cases [] (y ∷ ys) = inr (λ e. absurd (ground (arith, e)))
Bytes-cases (x ∷ xs) [] = inr (λ e. absurd (ground (arith, e)))
Bytes-cases (x ∷ xs) (y ∷ ys) = elim (Bool-cases (x == y)) [
  | inr other ↦ inr (λ e. absurd (ground (arith, e, other)))
  | inl same ↦ elim (Bytes-cases xs ys) [
    | inl rest ↦ inl (ap₂ (λ z zs. z ∷ zs) (beq_sound x y same) rest)
    | inr other ↦ inr (λ e. other (ground (arith, e)))
  ]
]

module _ (sha256 : Bytes → String) where
  -- Two different byte sequences with one digest.
  abbrev pub Collision : Type 0
  Collision = (a : Bytes) × (b : Bytes) × (a ≢ b) × (sha256 a ≡ sha256 b)

  abbrev pub AllSame : List ProvidenceRecord → List ProvidenceRecord → Type 0
  AllSame [] [] = Unit
  AllSame (r ∷ rs) (q ∷ qs) = SameFields r q × AllSame rs qs
  AllSame _ _ = ⊥

  digest-cases :
      (r q : ProvidenceRecord) (digest : String)
      → record_digest sha256 r ≡ some digest
      → record_digest sha256 q ≡ some digest
      → SameFields r q ⊎ Collision
  unfolding record_digest
  digest-cases r q digest e e' = elim (Option-cases (preimage r)) [
    | inl none_of ↦ absurd (ground (arith, none_of))
    | inr (a, is_a) ↦ elim (Option-cases (preimage q)) [
      | inl none_of ↦ absurd (ground (arith, none_of))
      | inr (b, is_b) ↦ elim (Bytes-cases a b) [
        | inl same ↦ inl (preimage_injective r q b (is_a ∙ ap some same) is_b)
        | inr other ↦ inr (a, b, other, ground (arith, is_a, is_b))
      ]
    ]
  ]

  -- The same number of records from one position on, that lead to one digest.
  chains-cases :
      (n : ℕ) (before before' : String) (rs qs : List ProvidenceRecord) (final : String)
      → length rs ≡ length qs
      → Chained sha256 n before rs final
      → Chained sha256 n before' qs final
      → ((before ≡ before') × AllSame rs qs) ⊎ Collision
  chains-cases n before before' [] [] final same h k = inl (h ∙ sym k, tt)
  chains-cases n before before' [] (q ∷ qs) final same h k = absurd (omega arith)
  chains-cases n before before' (r ∷ rs) [] final same h k = absurd (omega arith)
  chains-cases n before before' (r ∷ rs) (q ∷ qs) final same (_, link, _, (d, is_d, h))
        (_, link', _, (d', is_d', k)) =
      elim (chains-cases (suc n) d d' rs qs final (omega arith) h k) [
        | inr found ↦ inr found
        | inl (one, rest) ↦ elim (digest-cases r q d is_d (is_d' ∙ ap some (sym one))) [
          | inr found ↦ inr found
          | inl fields ↦ inl (sym link ∙ fields.5 ∙ link', (fields, rest))
        ]
      ]

  -- Two chains from genesis of one length and with one head digest hold records that agree one by one in position, time, every text field, the canonical forms of payload and metadata, and the link; or they exhibit two different byte sequences with the same SHA-256 digest.
  pub head_determines_chain :
      (rs qs : List ProvidenceRecord) (head_digest : String)
      → length rs ≡ length qs
      → Chained sha256 0 genesis_digest rs head_digest
      → Chained sha256 0 genesis_digest qs head_digest
      → AllSame rs qs ⊎ Collision
  head_determines_chain rs qs head_digest same h k =
      elim (chains-cases 0 genesis_digest genesis_digest rs qs head_digest same h k) [
        | inl (_, all) ↦ inl all
        | inr found ↦ inr found
      ]
