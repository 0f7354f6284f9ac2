-- ===== src/Providence/Recovery/Reopening.antt =====
-- The directory of a log that accepts is accepted again, with its head.
use openclaw_nie_guard.Common.{
  ◌+◌, ◌≡◌, refl, sym, ap, ◌∙◌, subst, inl, inr, String, Option, none, some, true, false, List, [],
  map, length, Option-cases, arith, ◌==◌, nat_eq, string_eq, beq_refl, eq_iff,
}
use openclaw_nie_guard.Types.{Json, utf16_length}
use openclaw_nie_guard.Broker.Audit.{is_device_fingerprint}
use openclaw_nie_guard.Providence.Records.{ProvidenceRecord, record_fits, hex64, safe_int}
use openclaw_nie_guard.Providence.Encoding.{Bytes, preimage, record_digest, genesis_digest}
use openclaw_nie_guard.Providence.Disk.{
  given, GuardHead, holds, Disk, Line, record_line, Write, open_head, parse_head, checked_head,
  checked_last, read_line, is_chain_id, index_lines,
}
use openclaw_nie_guard.Providence.Log.{ProvidenceLog, open_log, opened, log_of}
use openclaw_nie_guard.Providence.Log.Opening.{Sound, checked_head-last}
use openclaw_nie_guard.Providence.Log.Appending.{map_end}
use openclaw_nie_guard.Providence.Chain.{Clean, Chained, Chained-last}
use openclaw_nie_guard.Providence.Reachable.{accepting-Clean}
use openclaw_nie_guard.Providence.Recovery.{length-map}

genesis-hex64 : hex64 genesis_digest ≡ true
unfolding is_device_fingerprint utf16_length
genesis-hex64 = refl

parse_head-fit :
    (head : GuardHead)
    → is_chain_id head.chain_id ≡ true
    → safe_int head.seq ≡ true
    → hex64 head.head_digest ≡ true
    → parse_head (holds head) ≡ given head
unfolding parse_head
parse_head-fit head named safe hex = ground (arith, named, safe, hex)

module _ (sha256 : Bytes → String) where
  digest-hex64 :
      ((bytes : Bytes) → hex64 (sha256 bytes) ≡ true)
      → (r : ProvidenceRecord) (digest : String) → record_digest sha256 r ≡ some digest
      → hex64 digest ≡ true
  unfolding record_digest
  digest-hex64 is_sha r digest e = elim (Option-cases (preimage r)) [
    | inl none_of ↦ absurd (ground (arith, none_of))
    | inr (bytes, is_bytes) ↦
        let is_digest : sha256 bytes ≡ digest = ground (arith, is_bytes) in
        subst (λ d. hex64 d ≡ true) is_digest (is_sha bytes)
  ]

  final-hex64 :
      ((bytes : Bytes) → hex64 (sha256 bytes) ≡ true)
      → (rs : List ProvidenceRecord) (final : String) → Chained sha256 0 genesis_digest rs final
      → hex64 final ≡ true
  final-hex64 is_sha rs final h = elim (Chained-last sha256 0 genesis_digest rs final h) [
    | inl e ↦
        subst (λ d. hex64 d ≡ true) (subst (λ l. Chained sha256 0 genesis_digest l final) e h)
          genesis-hex64
    | inr (front, r, _, _, _, is_digest) ↦ digest-hex64 is_sha r final is_digest
  ]

  pub read_line-record :
      (r : ProvidenceRecord) (digest : String)
      → record_fits r ≡ true
      → record_digest sha256 r ≡ some digest
      → read_line sha256 (record_line r) ≡ given (r, digest)
  unfolding read_line
  read_line-record r digest fits e = ground (arith, fits, e)

  checked_last-record :
      (head : GuardHead) (r : ProvidenceRecord)
      → r.seq + 1 ≡ head.seq
      → record_fits r ≡ true
      → record_digest sha256 r ≡ some head.head_digest
      → checked_last sha256 head (record_line r) ≡ given head
  unfolding checked_last
  checked_last-record head r at fits e =
      ground (arith, read_line-record r head.head_digest fits e, beq_refl head.head_digest)

  checked_head-empty :
      (disk : Disk) (head : GuardHead)
      → disk.is_partial ≡ false
      → disk.lines ≡ []
      → head.seq ≡ 0
      → head.head_digest ≡ genesis_digest
      → checked_head sha256 disk head ≡ given head
  unfolding checked_head
  checked_head-empty disk head p l n d =
      let same : (head.head_digest == genesis_digest) ≡ true =
        (eq_iff head.head_digest genesis_digest).1 d in
      ground (arith, p, l, n, same)

  checked_head-Clean :
      (disk : Disk) (head : GuardHead)
      → Clean sha256 disk head
      → checked_head sha256 disk head ≡ given head
  checked_head-Clean disk head c =
      elim (Chained-last sha256 0 genesis_digest c.records head.head_digest c.chained) [
        | inl e ↦
            checked_head-empty disk head c.is_whole (c.are_lines ∙ ap (map record_line) e)
              (c.at_end ∙ ap (λ (l : List ProvidenceRecord). length l) e)
              (sym (subst (λ l. Chained sha256 0 genesis_digest l head.head_digest) e c.chained))
        | inr (front, r, e, at, fits, is_digest) ↦
            let lines = c.are_lines ∙ ap (map record_line) e ∙ map_end front r in
            let at_end : r.seq + 1 ≡ head.seq = omega (arith, at, c.at_end) in
            ground (
              arith,
              checked_head-last sha256 disk head (map record_line front) (record_line r) c.is_whole
                  lines,
              checked_last-record head r at_end fits is_digest,
            )
      ]

  open_head-Clean :
      (disk : Disk) (head : GuardHead) (write : Write)
      → Clean sha256 disk head
      → parse_head (holds head) ≡ given head
      → open_head sha256 head.chain_id disk write ≡ (disk, given head)
  unfolding open_head
  open_head-Clean disk head write c good =
      ground (arith, c.is_head, good, checked_head-Clean disk head c, beq_refl head.chain_id)

  index_lines-Clean :
      (disk : Disk) (head : GuardHead)
      → Clean sha256 disk head
      → index_lines disk head ≡ given (length disk.lines)
  unfolding index_lines
  index_lines-Clean disk head c =
      let counted : length disk.lines ≡ head.seq =
        ap (λ (l : List Line). length l) c.are_lines ∙ length-map c.records ∙ sym c.at_end in
      ground (arith, c.is_whole, counted)

  open_log-Clean :
      (disk : Disk) (head : GuardHead) (legacy_file : Option Json) (write : Write)
      → Clean sha256 disk head
      → parse_head (holds head) ≡ given head
      → is_chain_id head.chain_id ≡ true
      → open_log sha256 head.chain_id legacy_file disk write
        ≡ some (log_of head.chain_id legacy_file (disk, head, given (length disk.lines)))
  unfolding open_log opened
  open_log-Clean disk head legacy_file write c good named =
      simp (named, open_head-Clean disk head write c good, index_lines-Clean disk head c)

  -- SHA-256 answers 64 hexadecimal digits (`is_sha`). If a sound log accepts appends, its chain's name is one the constructor takes, and its position is a safe integer, then opening its directory again under that name succeeds, accepts appends, and has the same head.
  pub reopened :
      (log : ProvidenceLog) (legacy_file : Option Json) (write : Write)
      → ((bytes : Bytes) → hex64 (sha256 bytes) ≡ true)
      → Sound sha256 log
      → log.failure ≡ none
      → is_chain_id log.chain_id ≡ true
      → safe_int log.head.seq ≡ true
      → (log' : ProvidenceLog) × (open_log sha256 log.chain_id legacy_file log.disk write
          ≡ some log')
        × (log'.failure ≡ none)
        × (log'.head ≡ log.head)
  reopened log legacy_file write is_sha h accepts named safe =
      let (c, own) = accepting-Clean sha256 log h accepts in
      let named' : is_chain_id log.head.chain_id ≡ true = rw own named in
      let hex = final-hex64 is_sha c.records log.head.head_digest c.chained in
      let good = parse_head-fit log.head named' safe hex in
      (
        log_of log.head.chain_id legacy_file (log.disk, log.head, given (length log.disk.lines)),
        subst
            (λ name.
              open_log sha256 name legacy_file log.disk write
              ≡ some (
                  log_of log.head.chain_id legacy_file
                    (log.disk, log.head, given (length log.disk.lines))))
            own (open_log-Clean log.disk log.head legacy_file write c good named'),
        refl,
        refl,
      )
