-- ===== src/Providence/Reopened.antt =====
-- What stays of the chain file, and what a log that is opened again makes of an append that threw.
use openclaw_nie_guard.Common.{
  ℕ, ◌≡◌, refl, sym, ap, ◌∙◌, inl, inr, String, Option, none, some, List, [], ◌++◌, append_assoc,
  append-nil, arith,
}
use openclaw_nie_guard.Types.{Json}
use openclaw_nie_guard.Providence.Records.{ProvidenceRecord, ProvidenceAppendInput}
use openclaw_nie_guard.Providence.Encoding.{Bytes}
use openclaw_nie_guard.Providence.Disk.{
  Attempt, given, throws, durable, fails, nothing, part, whole, GuardHead, Disk, Line, record_line,
  Write, Replace, replaced, not_renamed, not_synced, open_head, write_fresh, fresh_head,
  append_durably, replace_head, moved,
}
use openclaw_nie_guard.Providence.Log.{
  ProvidenceLog, Appended, open_log, opened, indexed, log_of, append, written, advance, settled,
  record_of, next_head, refuse_from, advanced,
}
use openclaw_nie_guard.Providence.Log.Appending.{append-cases}
use openclaw_nie_guard.Providence.Anchors.{AnchorScheduler}
use openclaw_nie_guard.Providence.Reachable.{
  Step, Steps, here, next, appends, refuses, starts_anchor, finishes_anchor, restarts,
  start_anchor-log, finish_anchor-log,
}

-- The lines after are those before and some more.
abbrev pub Grown : List Line → List Line → Type 0
Grown before after = (more : List Line) × (after ≡ before ++ more)

same-Grown : (before after : List Line) → after ≡ before → Grown before after
same-Grown before after e = ([], e ∙ sym (append-nil before))

Grown-trans : (a b c : List Line) → Grown a b → Grown b c → Grown a c
Grown-trans a b c (xs, e) (ys, e') = (xs ++ ys, e' ∙ ap (λ l. l ++ ys) e ∙ append_assoc a xs ys)

append_durably-Grown :
    (disk : Disk) (line : Line) (write : Write)
    → Grown disk.lines (append_durably disk line write).lines
unfolding append_durably
append_durably-Grown disk line durable = (_, refl)
append_durably-Grown disk line (fails nothing e) = same-Grown disk.lines disk.lines refl
append_durably-Grown disk line (fails part e) = same-Grown disk.lines disk.lines refl
append_durably-Grown disk line (fails whole e) = (_, refl)

moved-lines :
    (disk : Disk) (head : GuardHead) (io : Replace) → (moved disk head io).0.lines ≡ disk.lines
moved-lines disk head replaced = refl
moved-lines disk head (not_renamed e) = refl
moved-lines disk head (not_synced e) = refl

replace_head-lines :
    (disk : Disk) (expected head : GuardHead) (io : Replace)
    → (replace_head disk expected head io).0.lines ≡ disk.lines
unfolding replace_head
replace_head-lines disk expected head io = ground (arith, moved-lines disk head io)

settled-disk :
    (log : ProvidenceLog) (r : ProvidenceRecord) (digest : String) (disk : Disk)
    (end : Option String)
    → (settled log r digest (disk, end)).0.disk ≡ disk
unfolding advanced
settled-disk log r digest disk none = refl
settled-disk log r digest disk (some e) = refl

advance-lines :
    (log : ProvidenceLog) (r : ProvidenceRecord) (digest : String) (disk : Disk) (io : Replace)
    → (advance log r digest disk io).0.disk.lines ≡ disk.lines
unfolding advance
advance-lines log r digest disk io =
    let found = replace_head disk log.head (next_head log digest) io in
    ap (λ (d : Disk). d.lines) (settled-disk log r digest found.0 found.1)
    ∙ replace_head-lines disk log.head (next_head log digest) io

pub written-lines :
    (log : ProvidenceLog) (r : ProvidenceRecord) (digest : String) (write : Write) (io : Replace)
    → (written log r digest write io).0.disk.lines
      ≡ (append_durably log.disk (record_line r) write).lines
unfolding written
written-lines log r digest durable io =
    advance-lines log r digest (append_durably log.disk (record_line r) durable) io
written-lines log r digest (fails left e) io = refl

write_fresh-lines :
    (disk : Disk) (head : GuardHead) (write : Write)
    → (write_fresh disk head write).0.lines ≡ disk.lines
write_fresh-lines disk head durable = refl
write_fresh-lines disk head (fails nothing e) = refl
write_fresh-lines disk head (fails part e) = refl
write_fresh-lines disk head (fails whole e) = refl

indexed-disk :
    (head : GuardHead) (found : Disk × Attempt GuardHead) → (indexed head found).0 ≡ found.0
indexed-disk head (disk, throws e) = refl
indexed-disk head (disk, given h) = refl

log_of-disk :
    (chain_id : String) (legacy_file : Option Json) (found : Disk × GuardHead × Attempt ℕ)
    → (log_of chain_id legacy_file found).disk ≡ found.0
log_of-disk chain_id legacy_file (disk, head, throws e) = refl
log_of-disk chain_id legacy_file (disk, head, given n) = refl

module _ (sha256 : Bytes → String) where
  open_head-lines :
      (chain_id : String) (disk : Disk) (write : Write)
      → (open_head sha256 chain_id disk write).0.lines ≡ disk.lines
  unfolding open_head
  open_head-lines chain_id disk write =
      ground (arith, write_fresh-lines disk (fresh_head chain_id) write)

  pub open_log-lines :
      (chain_id : String) (legacy_file : Option Json) (disk : Disk) (write : Write)
      (log : ProvidenceLog)
      → open_log sha256 chain_id legacy_file disk write ≡ some log
      → log.disk.lines ≡ disk.lines
  unfolding open_log opened
  open_log-lines chain_id legacy_file disk write log e =
      let found = open_head sha256 chain_id disk write in
      let made : log_of chain_id legacy_file (opened sha256 chain_id disk write) ≡ log =
        ground arith in
      ap (λ (l : ProvidenceLog). l.disk.lines) (sym made)
      ∙ ap (λ (d : Disk). d.lines)
          (log_of-disk chain_id legacy_file (opened sha256 chain_id disk write)
            ∙ indexed-disk (fresh_head chain_id) found)
      ∙ open_head-lines chain_id disk write

  append-Grown :
      (log : ProvidenceLog) (input : ProvidenceAppendInput) (now : ℕ) (write : Write) (io : Replace)
      → Grown log.disk.lines (append sha256 log input now write io).0.disk.lines
  append-Grown log input now write io = elim (append-cases sha256 log input now write io) [
    | inl (stays, _) ↦ same-Grown log.disk.lines _ (ap (λ (l : ProvidenceLog). l.disk.lines) stays)
    | inr (_, (digest, _, writes)) ↦
        let r = record_of log input now in
        let (more, e) = append_durably-Grown log.disk (record_line r) write in
        (
          more,
          ap (λ (x : ProvidenceLog × Appended). x.0.disk.lines) writes
              ∙ written-lines log r digest write io
              ∙ e,
        )
  ]

  refuse_from-disk :
      (log : ProvidenceLog) (reason : String) → (refuse_from log reason).disk ≡ log.disk
  unfolding refuse_from
  refuse_from-disk log reason = refl

  Step-Grown :
      {s t : ProvidenceLog × AnchorScheduler}
      → Step sha256 s t
      → Grown s.0.disk.lines t.0.disk.lines
  Step-Grown (appends log scheduler input now write io) = append-Grown log input now write io
  Step-Grown (refuses log scheduler reason) =
      same-Grown log.disk.lines _ (ap (λ (d : Disk). d.lines) (refuse_from-disk log reason))
  Step-Grown (starts_anchor signer log scheduler now) =
      same-Grown log.disk.lines _ (elim (start_anchor-log sha256 signer log scheduler now) [
        | inl same ↦ ap (λ (l : ProvidenceLog). l.disk.lines) same
        | inr (reason, e) ↦
            ap (λ (l : ProvidenceLog). l.disk.lines) e
            ∙ ap (λ (d : Disk). d.lines) (refuse_from-disk log reason)
      ])
  Step-Grown (finishes_anchor signer log scheduler pending write _) =
      let (files, ends) = finish_anchor-log sha256 signer log scheduler pending write in
      same-Grown log.disk.lines _ (elim ends [
        | inl same ↦ ap (λ (l : ProvidenceLog). l.disk.lines) same
        | inr (reason, e) ↦
            ap (λ (l : ProvidenceLog). l.disk.lines) e
            ∙ ap (λ (d : Disk). d.lines) (refuse_from-disk _ reason)
      ])
  Step-Grown (restarts log log' scheduler chain_id legacy_file write e) =
      same-Grown log.disk.lines _ (open_log-lines chain_id legacy_file log.disk write log' e)

  -- No appends, refusals, anchors or restarts, whatever the disk does, change or remove a line of the chain file: the lines after them are the lines before, followed by others.
  pub lines_only_grow :
      {s t : ProvidenceLog × AnchorScheduler}
      → Steps sha256 s t
      → Grown s.0.disk.lines t.0.disk.lines
  lines_only_grow {s} here = same-Grown s.0.disk.lines s.0.disk.lines refl
  lines_only_grow {s} (next {t} {u} before step) =
      Grown-trans s.0.disk.lines t.0.disk.lines u.0.disk.lines (lines_only_grow before)
        (Step-Grown step)
