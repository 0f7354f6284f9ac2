-- ===== src/Providence/Refines/Appends.antt =====
-- An append of the writer is an append of the log that the routes rely on.
use openclaw_nie_guard.Common.{
  ℕ, ◌≡◌, refl, sym, ap, ◌∙◌, subst, ◌⊎◌, inl, inr, String, Option, none, some, true, false, List,
  [], ◌∷◌, ◌++◌, length, arith, is_some, ◌≢◌, Option-cases,
}
use openclaw_nie_guard.Broker.Audit.{AppendInput, AuditLog}
use openclaw_nie_guard.Broker.Audit
use openclaw_nie_guard.Providence.Records.{ProvidenceAppendInput, ProvidenceRecord}
use openclaw_nie_guard.Providence.Encoding.{Bytes}
use openclaw_nie_guard.Providence.Disk.{
  Disk, Line, record_line, Write, durable, fails, Replace, append_durably, with_line, replace_head,
}
use openclaw_nie_guard.Providence.Log.{
  ProvidenceLog, Appended, appended, unavailable, rejected, append, record_of, written, advance,
  settled, advanced, next_head,
}
use openclaw_nie_guard.Providence.Log.Opening.{Sound}
use openclaw_nie_guard.Providence.Log.Appending.{append-cases, append-Sound, Ready}
use openclaw_nie_guard.Providence.Reachable.{accepting-Clean}
use openclaw_nie_guard.Providence.Reopened.{written-lines}
use openclaw_nie_guard.Providence.Recovery.{with_line-whole, length-map}
use openclaw_nie_guard.Providence.Refines.{
  input_of, Mirrors, Mirrors-end, Mirrors-length, record_of-Carries, position_of, Refines,
}

-- A record that is written: it is there and the log still accepts, or the log refuses.
abbrev Outcome : ProvidenceLog → ProvidenceRecord → String → ProvidenceLog × Appended → Type 0
Outcome log r digest (log', out) =
    ((out ≡ appended r digest) × (log'.failure ≡ log.failure))
    ⊎ ((e : String) × (out ≡ unavailable e) × (log'.failure ≡ some e))

settled-Outcome :
    (log : ProvidenceLog) (r : ProvidenceRecord) (digest : String) (found : Disk × Option String)
    → Outcome log r digest (settled log r digest found)
unfolding advanced
settled-Outcome log r digest (disk, none) = inl (refl, refl)
settled-Outcome log r digest (disk, some e) = inr (_, refl, refl)

written-Outcome :
    (log : ProvidenceLog) (r : ProvidenceRecord) (digest : String) (write : Write) (io : Replace)
    → Outcome log r digest (written log r digest write io)
      × (is_some (position_of (written log r digest write io).1) ≡ true
          → (written log r digest write io).0.disk.lines
            ≡ (with_line log.disk (record_line r)).lines)
unfolding written advance append_durably
written-Outcome log r digest durable io =
    let disk = append_durably log.disk (record_line r) durable in
    (
      settled-Outcome log r digest (replace_head disk log.head (next_head log digest) io),
      λ _. written-lines log r digest durable io,
    )
written-Outcome log r digest (fails left e) io =
    (inr (_, refl, refl), λ there. absurd (ground (arith, there)))

-- What the abstract append does, by what its disk decides.
audit_refuses :
    (audit : AuditLog) (i : AppendInput)
    → audit.refuses ≡ true
    → Audit.append audit i ≡ (audit, none)
unfolding Audit.append
audit_refuses audit i e = ground (arith, e)

audit_appends :
    (audit : AuditLog) (i : AppendInput)
    → audit.refuses ≡ false
    → audit.is_durable (length audit.entries) ≡ true
    → Audit.append audit i
      ≡ (record audit { entries = audit.entries ++ i ∷ [] }, some (length audit.entries))
unfolding Audit.append
audit_appends audit i e d = ground (arith, e, d)

audit_fails :
    (audit : AuditLog) (i : AppendInput)
    → audit.refuses ≡ false
    → audit.is_durable (length audit.entries) ≡ false
    → Audit.append audit i ≡ (record audit { refuses = true }, none)
unfolding Audit.append
audit_fails audit i e d = ground (arith, e, d)

module _ (sha256 : Bytes → String) where
  append-refusing :
      (log : ProvidenceLog) (input : ProvidenceAppendInput) (now : ℕ) (write : Write) (io : Replace)
      (reason : String)
      → log.failure ≡ some reason
      → append sha256 log input now write io ≡ (log, unavailable reason)
  unfolding append
  append-refusing log input now write io reason e = ground (arith, e)

  abbrev pub Both : AuditLog × Option ℕ → ProvidenceLog × Appended → Type 0
  Both (audit, position) (log, out) = Refines sha256 audit log × (position ≡ position_of out)

  mirrors :
      (audit : AuditLog) (log : ProvidenceLog)
      → Refines sha256 audit log
      → log.failure ≡ none
      → Mirrors audit.entries log.disk.lines
  mirrors audit log h accepts = elim h.mirrored [
    | inl refuses ↦ absurd (ground (arith, refuses, accepts))
    | inr entries ↦ entries
  ]

  written-Both :
      (audit : AuditLog) (log log' : ProvidenceLog) (i : AppendInput) (now : ℕ) (out : Appended)
      (digest : String)
      → Refines sha256 audit log
      → log.failure ≡ none
      → Sound sha256 log'
      → Ready sha256 log (record_of log (input_of i) now) digest
      → Outcome log (record_of log (input_of i) now) digest (log', out)
      → (is_some (position_of out) ≡ true
          → log'.disk.lines
            ≡ (with_line log.disk (record_line (record_of log (input_of i) now))).lines)
      → audit.is_durable (length audit.entries) ≡ is_some (position_of out)
      → Both (Audit.append audit i) (log', out)
  written-Both audit log log' i now out digest h accepts sound ready (inl (returns, goes_on)) lines
        agrees =
      let r = record_of log (input_of i) now in
      let (c, _) = accepting-Clean sha256 log h.is_sound accepts in
      let returned : position_of out ≡ some r.seq = ap position_of returns in
      let there =
        lines (ap is_some returned) ∙ with_line-whole log.disk (record_line r) c.is_whole in
      let open_still : audit.refuses ≡ false = h.refusal ∙ ap is_some accepts in
      let counted : length audit.entries ≡ r.seq =
        Mirrors-length audit.entries log.disk.lines (mirrors audit log h accepts)
        ∙ ap (λ (l : List Line). length l) c.are_lines
        ∙ length-map c.records
        ∙ sym c.at_end
        ∙ sym ready.at_head in
      subst (λ x. Both x (log', out))
        (sym (audit_appends audit i open_still (agrees ∙ ap is_some returned)))
        (
          record {
            is_sound = sound;
            refusal = h.refusal ∙ ap is_some (sym goes_on);
            mirrored = inr (
                subst (Mirrors (audit.entries ++ i ∷ [])) (sym there) (
                  Mirrors-end audit.entries log.disk.lines i (record_line r)
                    (mirrors audit log h accepts) (record_of-Carries log i now)));
          },
          ap some counted ∙ sym returned,
        )
  written-Both audit log log' i now out digest h accepts sound ready (inr (e, throws, refuses))
        lines agrees =
      let none_there : position_of out ≡ none = ap position_of throws in
      let open_still : audit.refuses ≡ false = h.refusal ∙ ap is_some accepts in
      subst (λ x. Both x (log', out))
        (sym (audit_fails audit i open_still (agrees ∙ ap is_some none_there)))
        (
          record {
            is_sound = sound;
            refusal = sym (ap is_some refuses);
            mirrored = inl (ap is_some refuses);
          },
          sym none_there,
        )

  -- The writer of the chain does what the routes rely on. From related states, an append whose input the schema and the encoding take, with any outcome of the disk, leads to related states and the same answer as the append of the abstract log whose disk decides alike: the position of the record, or a throw after which both refuse. Related means that the writer's directory is sound, both refuse or neither, and while they accept the chain file holds the abstract log's entries in order, each as a record with its type, its texts, no payload and its metadata, to which the first record may add the head of an earlier chain.
  pub append-Refines :
      (audit : AuditLog) (log : ProvidenceLog) (i : AppendInput) (now : ℕ) (write : Write)
      (io : Replace)
      → Refines sha256 audit log
      → (append sha256 log (input_of i) now write io).1 ≢ rejected
      → audit.is_durable (length audit.entries)
        ≡ is_some (position_of (append sha256 log (input_of i) now write io).1)
      → Both (Audit.append audit i) (append sha256 log (input_of i) now write io)
  append-Refines audit log i now write io h taken agrees = elim (Option-cases log.failure) [
    | inr (reason, refuses) ↦
        subst (Both (Audit.append audit i))
          (sym (append-refusing log (input_of i) now write io reason refuses))
          (subst (λ x. Both x (log, unavailable reason))
            (sym (audit_refuses audit i (h.refusal ∙ ap is_some refuses))) (h, refl))
    | inl accepts ↦ elim (append-cases sha256 log (input_of i) now write io) [
      | inl (stays, inl not_taken) ↦ absurd (taken not_taken)
      | inl (stays, inr (e, _, refuses)) ↦ absurd (ground (arith, accepts, refuses))
      | inr (_, (digest, ready, writes)) ↦
          let r = record_of log (input_of i) now in
          let (outcome, lines) = written-Outcome log r digest write io in
          let sound = append-Sound sha256 log (input_of i) now write io h.is_sound in
          subst (Both (Audit.append audit i)) (sym writes) (
            written-Both audit log (written log r digest write io).0 i now
              (written log r digest write io).1 digest h accepts
              (subst (λ (x : ProvidenceLog × Appended). Sound sha256 x.0) writes sound) ready
              outcome lines
              (agrees ∙ ap (λ (x : ProvidenceLog × Appended). is_some (position_of x.1)) writes))
    ]
  ]
