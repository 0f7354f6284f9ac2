-- ===== src/Providence/Recovery.antt =====
-- An append that was cut off is there with its head when the directory is opened again, or it is not there, or the
-- chain is refused.
pub mod Reopening
use openclaw_nie_guard.Common.{
  ℕ, suc, ◌+◌, ◌≡◌, refl, sym, ap, ap₂, ◌∙◌, subst, ◌⊎◌, inl, inr, String, Option, none, some, true,
  false, List, [], ◌∷◌, ◌++◌, map, length, Option-cases, arith, ◌==◌, nat_eq, string_eq, beq_refl,
  eq_iff,
}
use openclaw_nie_guard.Types.{Json, utf16_length}
use openclaw_nie_guard.Broker.Audit.{is_device_fingerprint}
use openclaw_nie_guard.Providence.Records.{
  ProvidenceRecord, ProvidenceAppendInput, record_fits, hex64, safe_int,
}
use openclaw_nie_guard.Providence.Encoding.{Bytes, preimage, record_digest, genesis_digest}
use openclaw_nie_guard.Providence.Disk.{
  given, durable, fails, nothing, part, whole, GuardHead, holds, Disk, Line, record_line, Write,
  Replace, open_head, append_durably, with_line, parse_head, checked_head, checked_last, read_line,
  is_chain_id, index_lines,
}
use openclaw_nie_guard.Providence.Log.{
  ProvidenceLog, Appended, open_log, opened, log_of, append, record_of, next_head,
}
use openclaw_nie_guard.Providence.Log.Opening.{Sound, checked_head-last}
use openclaw_nie_guard.Providence.Log.Kept.{open_log-Sound}
use openclaw_nie_guard.Providence.Log.Appending.{
  append-cases, append-Sound, Ready, end-Clean, map_end,
}
use openclaw_nie_guard.Providence.Chain.{Clean, Chained, Chained-last}
use openclaw_nie_guard.Providence.Reachable.{Sound-disk, accepting-Clean}
use openclaw_nie_guard.Providence.Reopened.{open_log-lines, written-lines}

pub length-map : (rs : List ProvidenceRecord) → length (map record_line rs) ≡ length rs
length-map [] = refl
length-map (r ∷ rs) = ap suc (length-map rs)

record_line_injective : (r q : ProvidenceRecord) → record_line r ≡ record_line q → r ≡ q
record_line_injective r q e = ap (λ l. content r l) e
  where
    content : ProvidenceRecord → Line → ProvidenceRecord
    content d (record_line x) = x
    content d _ = d

map_injective : (rs qs : List ProvidenceRecord) → map record_line rs ≡ map record_line qs → rs ≡ qs
map_injective [] [] e = refl
map_injective [] (q ∷ qs) e = absurd (ground (arith, e))
map_injective (r ∷ rs) [] e = absurd (ground (arith, e))
map_injective (r ∷ rs) (q ∷ qs) e =
    let (here, later) : (record_line r ≡ record_line q)
        × (map record_line rs ≡ map record_line qs) =
      ground (arith, e) in
    ap₂ (λ x xs. x ∷ xs) (record_line_injective r q here) (map_injective rs qs later)

append_durably-lines :
    (disk : Disk) (line : Line) (write : Write)
    → ((append_durably disk line write).lines ≡ disk.lines)
      ⊎ ((append_durably disk line write).lines ≡ (with_line disk line).lines)
unfolding append_durably
append_durably-lines disk line durable = inr refl
append_durably-lines disk line (fails nothing e) = inl refl
append_durably-lines disk line (fails part e) = inl refl
append_durably-lines disk line (fails whole e) = inr refl

pub with_line-whole :
    (disk : Disk) (line : Line)
    → disk.is_partial ≡ false
    → (with_line disk line).lines ≡ disk.lines ++ line ∷ []
with_line-whole disk line e = simp e

next_head-seq : (log : ProvidenceLog) (d : String) → (next_head log d).seq ≡ log.head.seq + 1
unfolding next_head
next_head-seq log d = refl

next_head-digest : (log : ProvidenceLog) (d : String) → (next_head log d).head_digest ≡ d
unfolding next_head
next_head-digest log d = refl

module _ (sha256 : Bytes → String) where
  Chained-final :
      (n : ℕ) (before : String) (rs : List ProvidenceRecord) (a b : String)
      → Chained sha256 n before rs a
      → Chained sha256 n before rs b
      → a ≡ b
  Chained-final n before [] a b h k = sym h ∙ k
  Chained-final n before (r ∷ rs) a b (_, _, _, (d, is_d, h)) (_, _, _, (d', is_d', k)) =
      let same : d ≡ d' = ground (arith, is_d, is_d') in
      Chained-final (suc n) d rs a b h (subst (λ x. Chained sha256 (suc n) x rs b) (sym same) k)

  -- The lines of a clean chain determine its head.
  head_of_lines :
      (disk disk' : Disk) (head head' : GuardHead)
      → Clean sha256 disk head
      → Clean sha256 disk' head'
      → disk.lines ≡ disk'.lines
      → (head.seq ≡ head'.seq) × (head.head_digest ≡ head'.head_digest)
  head_of_lines disk disk' head head' c c' e =
      let same = map_injective c.records c'.records (sym c.are_lines ∙ e ∙ c'.are_lines) in
      (
        c.at_end ∙ ap (λ (l : List ProvidenceRecord). length l) same ∙ sym c'.at_end,
        Chained-final 0 genesis_digest c.records head.head_digest head'.head_digest c.chained (
            subst (λ l. Chained sha256 0 genesis_digest l head'.head_digest) (sym same) c'.chained),
      )

  -- Where an append leaves the lines: as they were, or with the line of the record at their end.
  append-lines :
      (log : ProvidenceLog) (input : ProvidenceAppendInput) (now : ℕ) (write : Write) (io : Replace)
      → Clean sha256 log.disk log.head
      → let lines = (append sha256 log input now write io).0.disk.lines in
        (lines ≡ log.disk.lines)
        ⊎ ((digest : String) × Ready sha256 log (record_of log input now) digest
            × (lines ≡ (with_line log.disk (record_line (record_of log input now))).lines))
  append-lines log input now write io c = elim (append-cases sha256 log input now write io) [
    | inl (stays, _) ↦ inl (ap (λ (l : ProvidenceLog). l.disk.lines) stays)
    | inr (_, (digest, ready, writes)) ↦
        let r = record_of log input now in
        let now_there =
          ap (λ (x : ProvidenceLog × Appended). x.0.disk.lines) writes
          ∙ written-lines log r digest write io in
        elim (append_durably-lines log.disk (record_line r) write) [
          | inl same ↦ inl (now_there ∙ same)
          | inr longer ↦ inr (digest, ready, now_there ∙ longer)
        ]
  ]

  -- When an accepting log of a sound directory has run one append, with any outcome of the disk, and the directory is opened again, then the new log refuses, or it holds the old lines and the old head, or it holds the old lines and the line of this append's record, with the head at the next position and at that record's digest. No other state is accepted.
  pub append_then_reopen :
      (log log' : ProvidenceLog) (input : ProvidenceAppendInput) (now : ℕ) (write : Write)
      (io : Replace) (chain_id : String) (legacy_file : Option Json) (write' : Write)
      → Sound sha256 log
      → log.failure ≡ none
      → open_log sha256 chain_id legacy_file (append sha256 log input now write io).0.disk write'
        ≡ some log'
      → log'.failure ≡ none
      → ((log'.disk.lines ≡ log.disk.lines)
          × (log'.head.seq ≡ log.head.seq)
          × (log'.head.head_digest ≡ log.head.head_digest))
        ⊎ ((log'.disk.lines ≡ log.disk.lines ++ record_line (record_of log input now) ∷ [])
            × (log'.head.seq ≡ log.head.seq + 1)
            × (record_digest sha256 (record_of log input now) ≡ some log'.head.head_digest))
  append_then_reopen log log' input now write io chain_id legacy_file write' h accepts made
        accepts' =
      let (c, _) = accepting-Clean sha256 log h accepts in
      let kept = append-Sound sha256 log input now write io h in
      let (c', _) =
        accepting-Clean sha256 log'
          (open_log-Sound sha256 chain_id legacy_file _ write' log' (Sound-disk sha256 _ kept) made)
          accepts' in
      let lines = open_log-lines sha256 chain_id legacy_file _ write' log' made in
      elim (append-lines log input now write io c) [
        | inl same ↦
            let (seq, digest) =
              head_of_lines log'.disk log.disk log'.head log.head c' c (lines ∙ same) in
            inl (lines ∙ same, seq, digest)
        | inr (d, ready, longer) ↦
            let r = record_of log input now in
            let e = end-Clean sha256 log r d c ready in
            let (seq, digest) =
              head_of_lines log'.disk _ log'.head (next_head log d) c' e (lines ∙ longer) in
            inr (
              lines ∙ longer ∙ with_line-whole log.disk (record_line r) c.is_whole,
              seq ∙ next_head-seq log d,
              ready.is_digest ∙ ap some (sym (digest ∙ next_head-digest log d)),
            )
      ]
