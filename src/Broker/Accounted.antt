-- ===== src/Broker/Accounted.antt =====
-- That every answer of POST /v1/invoke is accounted for in the Providence log.
use openclaw_nie_guard.Broker.Audit.{
  written, append, append_plain, append_forwarded, write, BrokerProvidence,
}
use openclaw_nie_guard.Common.{
  subst, nat_eq, ◌≡◌, sym, ap, ◌∙◌, ◌⊎◌, inl, inr, Bool-cases, arith, length, ℕ, String, Option,
  none, some, Bool, true, false, List, [], ◌∷◌, ◌++◌, ◌==◌, string_eq,
}
use openclaw_nie_guard.Types.{operation_class_eq, intent_class_eq, Metadata}
use openclaw_nie_guard.Broker.Audit.{AppendInput, EventType, invoke as invoke_event}
use openclaw_nie_guard.Broker.Services.{
  BrokerServices, Reply, Handled, record_then, record_forwarded_then, reply_if,
}

-- The two fields of a record that join it to an answer, and the others that `write` leaves alone.
pub written-fields :
    (input : AppendInput) (stamp : Metadata)
    → ((written input stamp).event_type ≡ input.event_type)
      × ((written input stamp).correlation_id ≡ input.correlation_id)
      × ((written input stamp).reason_code ≡ input.reason_code)
unfolding written
written-fields input stamp = ground arith

abbrev pub is_invoke : EventType → Bool
is_invoke invoke_event = true
is_invoke _ = false

module _ (correlation_id : String) (before : List AppendInput) where
  -- A record that was added for an answer.
  abbrev pub RecordOf : List AppendInput → Reply → Type 0
  RecordOf after reply =
      (entry : AppendInput) × (after ≡ before ++ entry ∷ [])
      × (entry.correlation_id ≡ some correlation_id)
      × (entry.reason_code ≡ reply.code)
      × (is_invoke entry.event_type ≡ (reply.status == 200))
      × (reply.status ≡ 200 → reply.event ≡ some (length before))

  -- An answer with its one record; where the handler throws, nothing was added.
  abbrev pub AccountedAs : List AppendInput → Option Reply → Type 0
  AccountedAs after none = after ≡ before
  AccountedAs after (some reply) = RecordOf after reply

module _ (correlation_id : String) (before : List AppendInput) where
  -- What `write` does: it throws and adds nothing, or it adds one record and gives its position.
  pub write-cases :
      (providence : BrokerProvidence) (input : AppendInput) (stamp : Metadata)
      → let (after, position) = write providence input stamp in
        ((position ≡ none) × (after.log.entries ≡ providence.log.entries))
        ⊎ ((position ≡ some (length providence.log.entries))
            × (after.log.entries ≡ providence.log.entries ++ written input stamp ∷ []))
  unfolding write append
  write-cases providence input stamp = elim (Bool-cases providence.log.refuses) [
    | inl refuses ↦ inl (ground (arith, refuses))
    | inr accepts ↦ elim (Bool-cases (providence.log.is_durable (length providence.log.entries))) [
      | inl durable ↦ inr (ground (arith, accepts, durable))
      | inr lost ↦ inl (ground (arith, accepts, lost))
    ]
  ]

  -- An answer that is given with the record that a `write` added.
  answered :
      (providence : BrokerProvidence) (input : AppendInput) (stamp : Metadata) (reply : ℕ → Reply)
      → providence.log.entries ≡ before
      → input.correlation_id ≡ some correlation_id
      → ((n : ℕ) → input.reason_code ≡ (reply n).code)
      → ((n : ℕ) → is_invoke input.event_type ≡ ((reply n).status == 200))
      → ((n : ℕ) → (reply n).status ≡ 200 → (reply n).event ≡ some n)
      → let (after, position) = write providence input stamp in
        AccountedAs correlation_id before after.log.entries (reply_if position reply)
  answered providence input stamp reply same correlated coded typed positioned =
      let (kind, correlation, reason) = written-fields input stamp in
      elim (write-cases providence input stamp) [
        | inl (none_given, kept) ↦
            subst
              (λ p.
                AccountedAs correlation_id before (write providence input stamp).0.log.entries
                  (reply_if p reply))
              (sym none_given) (kept ∙ same)
        | inr (position, added) ↦
            subst
              (λ p.
                AccountedAs correlation_id before (write providence input stamp).0.log.entries
                  (reply_if p reply))
              (sym position)
              (
                written input stamp,
                added ∙ ap (λ entries. entries ++ written input stamp ∷ []) same,
                correlation ∙ correlated,
                reason ∙ coded (length providence.log.entries),
                ap is_invoke kind ∙ typed (length providence.log.entries),
                λ success.
                    positioned (length providence.log.entries) success
                    ∙ ap (λ entries. some (length entries)) same,
              )
      ]

module _ {S : Type 0} (correlation_id : String) (before : List AppendInput) where
  unfoldable pub Accounted : Handled S → Type 0
  Accounted (s, reply) = AccountedAs correlation_id before s.providence.log.entries reply

  -- A refusal is accounted for by a record of another type with its code.
  pub record_then-Accounted :
      (s : BrokerServices S) (input : AppendInput) (reply : Reply)
      → s.providence.log.entries ≡ before
      → input.correlation_id ≡ some correlation_id
      → input.reason_code ≡ reply.code
      → is_invoke input.event_type ≡ false
      → (reply.status == 200) ≡ false
      → Accounted (record_then s input reply)
  unfolding Accounted record_then append_plain
  record_then-Accounted s input reply same correlated coded other refused =
      answered correlation_id before s.providence input [] (λ _. reply) same correlated (λ _. coded)
        (λ _. other ∙ sym refused) (λ _ success. ground (arith, refused, success))

  pub record_forwarded_then-Accounted :
      (s : BrokerServices S) (input : AppendInput) (reply : ℕ → Reply)
      → s.providence.log.entries ≡ before
      → input.correlation_id ≡ some correlation_id
      → ((n : ℕ) → input.reason_code ≡ (reply n).code)
      → ((n : ℕ) → is_invoke input.event_type ≡ ((reply n).status == 200))
      → ((n : ℕ) → (reply n).status ≡ 200 → (reply n).event ≡ some n)
      → Accounted (record_forwarded_then s input reply)
  unfolding Accounted record_forwarded_then append_forwarded
  record_forwarded_then-Accounted s input reply same correlated coded typed positioned =
      answered correlation_id before s.providence input s.providence.forward_stamp reply same
        correlated coded typed positioned
