-- ===== src/Providence/Reachable.antt =====
-- Every sequence of appends, refusals, anchors and restarts, with any clock, any outcome of the disk and any
-- signer, keeps the directory sound.
use openclaw_nie_guard.Common.{
  ℕ, ◌≡◌, refl, sym, subst, ◌⊎◌, inl, inr, String, Option, none, some, false, List, Bool-cases,
  arith, is_some, ◌||◌,
}
use openclaw_nie_guard.Types.{Json}
use openclaw_nie_guard.Providence.Records.{ProvidenceAppendInput}
use openclaw_nie_guard.Providence.Encoding.{Bytes, hex_pairs}
use openclaw_nie_guard.Providence.Disk.{
  Attempt, given, throws, durable, fails, nothing, part, whole, GuardHead, Disk, AnchorFile, Write,
  Replace, empty_disk,
}
use openclaw_nie_guard.Providence.Log.{ProvidenceLog, open_log, append, refuse_from}
use openclaw_nie_guard.Providence.Log.Opening.{Sound, accepting, refusing}
use openclaw_nie_guard.Providence.Log.Kept.{open_log-Sound}
use openclaw_nie_guard.Providence.Log.Appending.{append-Sound}
use openclaw_nie_guard.Providence.Chain.{Clean, SoundDisk, blank, clean, stuck, Stuck}
use openclaw_nie_guard.Providence.Anchors.{
  ProvidenceSigner, AnchorScheduler, Pending, start_anchor, finish_anchor, end_anchor, begin_anchor,
  started, finished, stored, is_seq,
}

abbrev pub new_scheduler : AnchorScheduler
new_scheduler = record { last_anchored_seq = none; in_flight = none; is_stopped = false }

-- The log with these anchor files.
abbrev pub with_anchors : ProvidenceLog → List AnchorFile → ProvidenceLog
with_anchors log files = record log { disk = record log.disk { anchors = files } }

-- The log is as it was, or refuses from now on.
abbrev pub OrRefuses : ProvidenceLog → ProvidenceLog → Type 0
OrRefuses log log' = (log' ≡ log) ⊎ ((reason : String) × (log' ≡ refuse_from log reason))

started-OrRefuses :
    (log : ProvidenceLog) (scheduler : AnchorScheduler) (begun : Attempt Pending)
    → OrRefuses log (started log scheduler begun).0
started-OrRefuses log scheduler (throws e) = inr (_, refl)
started-OrRefuses log scheduler (given pending) = inl refl

finished-OrRefuses :
    (log : ProvidenceLog) (scheduler : AnchorScheduler) (pending : Pending) (end : Option String)
    → OrRefuses log (finished scheduler pending (log, end)).0
finished-OrRefuses log scheduler pending (some e) = inr (_, refl)
finished-OrRefuses log scheduler pending none = inl refl

module _ (sha256 : Bytes → String) where
  -- Starting an anchor leaves the log, or makes it refuse.
  pub start_anchor-log :
      (signer : ProvidenceSigner) (log : ProvidenceLog) (scheduler : AnchorScheduler) (now : ℕ)
      → OrRefuses log (start_anchor sha256 signer log scheduler now).0
  unfolding start_anchor
  start_anchor-log signer log scheduler now =
      elim (Bool-cases (is_some log.failure || is_seq scheduler.last_anchored_seq log.head.seq)) [
        | inl idle ↦ inl (ground (arith, idle))
        | inr due ↦ rw due (started-OrRefuses log scheduler (begin_anchor sha256 signer log now))
      ]

  -- Ending an export changes the anchor files alone.
  stored-anchors :
      (signer : ProvidenceSigner) (log : ProvidenceLog) (pending : Pending) (write : Write)
      (signed : Attempt Bytes)
      → (files : List AnchorFile) × (end : Option String) × (stored sha256 signer log pending write
            signed
          ≡ (with_anchors log files, end))
  stored-anchors signer log pending write (throws e) = (log.disk.anchors, some e, refl)
  stored-anchors signer log pending durable (given s) = (_, _, refl)
  stored-anchors signer log pending (fails nothing e) (given s) = (log.disk.anchors, some e, refl)
  stored-anchors signer log pending (fails part e) (given s) = (_, _, refl)
  stored-anchors signer log pending (fails whole e) (given s) = (_, _, refl)

  pub finish_anchor-log :
      (signer : ProvidenceSigner) (log : ProvidenceLog) (scheduler : AnchorScheduler)
      (pending : Pending) (write : Write)
      → (files : List AnchorFile) × OrRefuses
          (with_anchors log files)
          (finish_anchor sha256 signer log scheduler pending write).0
  unfolding finish_anchor end_anchor
  finish_anchor-log signer log scheduler pending write =
      let (files, end, e) =
        stored-anchors signer log pending write (signer.sign (hex_pairs pending.message)) in
      (
        files,
        subst (λ found. OrRefuses (with_anchors log files) (finished scheduler pending found).0)
            (sym e) (finished-OrRefuses (with_anchors log files) scheduler pending end),
      )

  pub data Step : ProvidenceLog × AnchorScheduler → ProvidenceLog × AnchorScheduler → Type 0 where
    appends :
        (log : ProvidenceLog) (scheduler : AnchorScheduler) (input : ProvidenceAppendInput)
        (now : ℕ) (write : Write) (io : Replace)
        → Step (log, scheduler) ((append sha256 log input now write io).0, scheduler)
    refuses :
        (log : ProvidenceLog) (scheduler : AnchorScheduler) (reason : String)
        → Step (log, scheduler) (refuse_from log reason, scheduler)
    starts_anchor :
        (signer : ProvidenceSigner) (log : ProvidenceLog) (scheduler : AnchorScheduler) (now : ℕ)
        → Step (log, scheduler) (start_anchor sha256 signer log scheduler now)
    finishes_anchor :
        (signer : ProvidenceSigner) (log : ProvidenceLog) (scheduler : AnchorScheduler)
        (pending : Pending) (write : Write)
        → scheduler.in_flight ≡ some pending
        → Step (log, scheduler) (finish_anchor sha256 signer log scheduler pending write)
    restarts :
        (log log' : ProvidenceLog) (scheduler : AnchorScheduler) (chain_id : String)
        (legacy_file : Option Json) (write : Write)
        → open_log sha256 chain_id legacy_file log.disk write ≡ some log'
        → Step (log, scheduler) (log', new_scheduler)

  pub data Steps (s : ProvidenceLog × AnchorScheduler)
      : ProvidenceLog × AnchorScheduler → Type 0 where
    here : Steps s s
    next : {t u : ProvidenceLog × AnchorScheduler} → Steps s t → Step t u → Steps s u

  -- The invariants say nothing of the anchors.
  with_anchors-Clean :
      (disk : Disk) (head : GuardHead) (files : List AnchorFile)
      → Clean sha256 disk head
      → Clean sha256 (record disk { anchors = files }) head
  with_anchors-Clean disk head files c = record {
    records = c.records;
    are_lines = c.are_lines;
    is_whole = c.is_whole;
    is_head = c.is_head;
    at_end = c.at_end;
    chained = c.chained;
  }

  with_anchors-Stuck :
      (disk : Disk) (files : List AnchorFile)
      → Stuck sha256 disk
      → Stuck sha256 (record disk { anchors = files })
  with_anchors-Stuck disk files h = h

  with_anchors-SoundDisk :
      (disk : Disk) (files : List AnchorFile)
      → SoundDisk sha256 disk
      → SoundDisk sha256 (record disk { anchors = files })
  with_anchors-SoundDisk disk files (blank m l p) = blank m l p
  with_anchors-SoundDisk disk files (clean head c) =
      clean head (with_anchors-Clean disk head files c)
  with_anchors-SoundDisk disk files (stuck h) = stuck (with_anchors-Stuck disk files h)

  with_anchors-Sound :
      (log : ProvidenceLog) (files : List AnchorFile)
      → Sound sha256 log
      → Sound sha256 (record log { disk = record log.disk { anchors = files } })
  with_anchors-Sound log files (accepting a c n i) =
      accepting a (with_anchors-Clean log.disk log.head files c) n i
  with_anchors-Sound log files (refusing e r h) =
      refusing e r (with_anchors-SoundDisk log.disk files h)

  pub Sound-disk : (log : ProvidenceLog) → Sound sha256 log → SoundDisk sha256 log.disk
  Sound-disk log (accepting a c n i) = clean log.head c
  Sound-disk log (refusing e r h) = h

  refuse_from-Sound :
      (log : ProvidenceLog) (reason : String)
      → Sound sha256 log
      → Sound sha256 (refuse_from log reason)
  unfolding refuse_from
  refuse_from-Sound log reason h = refusing _ refl (Sound-disk log h)

  start_anchor-Sound :
      (signer : ProvidenceSigner) (log : ProvidenceLog) (scheduler : AnchorScheduler) (now : ℕ)
      → Sound sha256 log
      → Sound sha256 (start_anchor sha256 signer log scheduler now).0
  start_anchor-Sound signer log scheduler now h = elim (start_anchor-log signer log scheduler now) [
    | inl same ↦ subst (Sound sha256) (sym same) h
    | inr (reason, gives_up) ↦ subst (Sound sha256) (sym gives_up) (refuse_from-Sound log reason h)
  ]

  finish_anchor-Sound :
      (signer : ProvidenceSigner) (log : ProvidenceLog) (scheduler : AnchorScheduler)
      (pending : Pending) (write : Write)
      → Sound sha256 log
      → Sound sha256 (finish_anchor sha256 signer log scheduler pending write).0
  finish_anchor-Sound signer log scheduler pending write h =
      let (files, ends) = finish_anchor-log signer log scheduler pending write in
      let kept = with_anchors-Sound log files h in
      elim ends [
        | inl same ↦ subst (Sound sha256) (sym same) kept
        | inr (reason, gives_up) ↦
            subst (Sound sha256) (sym gives_up) (refuse_from-Sound _ reason kept)
      ]

  Step-Sound :
      {s t : ProvidenceLog × AnchorScheduler} → Step s t → Sound sha256 s.0 → Sound sha256 t.0
  Step-Sound (appends log scheduler input now write io) h =
      append-Sound sha256 log input now write io h
  Step-Sound (refuses log scheduler reason) h = refuse_from-Sound log reason h
  Step-Sound (starts_anchor signer log scheduler now) h =
      start_anchor-Sound signer log scheduler now h
  Step-Sound (finishes_anchor signer log scheduler pending write _) h =
      finish_anchor-Sound signer log scheduler pending write h
  Step-Sound (restarts log log' scheduler chain_id legacy_file write e) h =
      open_log-Sound sha256 chain_id legacy_file log.disk write log' (Sound-disk log h) e

  Steps-Sound :
      {s t : ProvidenceLog × AnchorScheduler} → Steps s t → Sound sha256 s.0 → Sound sha256 t.0
  Steps-Sound here h = h
  Steps-Sound (next before step) h = Step-Sound step (Steps-Sound before h)

  -- A log that was opened on an empty directory, and what any steps made of it.
  pub reachable-Sound :
      (chain_id : String) (legacy_file : Option Json) (write : Write) (start log : ProvidenceLog)
      (scheduler : AnchorScheduler)
      → open_log sha256 chain_id legacy_file empty_disk write ≡ some start
      → Steps (start, new_scheduler) (log, scheduler)
      → Sound sha256 log
  reachable-Sound chain_id legacy_file write start log scheduler e steps =
      Steps-Sound steps
        (open_log-Sound sha256 chain_id legacy_file empty_disk write start (blank refl refl refl) e)

  pub accepting-Clean :
      (log : ProvidenceLog)
      → Sound sha256 log
      → log.failure ≡ none
      → Clean sha256 log.disk log.head × (log.head.chain_id ≡ log.chain_id)
  accepting-Clean log (accepting a c n i) accepts = (c, i)
  accepting-Clean log (refusing e r h) accepts = absurd (ground (arith, accepts, r))

  -- Whatever appends, refusals, anchors and restarts follow the opening of an empty directory, with any outcomes of the disk: while the log accepts appends, the chain file holds whole lines with records from position 0 on, each naming the digest of the one before it, and the head file and the writer hold one head, which names the number of records, the digest of the last, and the log's chain.
  pub accepted_chain :
      (chain_id : String) (legacy_file : Option Json) (write : Write) (start log : ProvidenceLog)
      (scheduler : AnchorScheduler)
      → open_log sha256 chain_id legacy_file empty_disk write ≡ some start
      → Steps (start, new_scheduler) (log, scheduler)
      → log.failure ≡ none
      → Clean sha256 log.disk log.head × (log.head.chain_id ≡ log.chain_id)
  accepted_chain chain_id legacy_file write start log scheduler e steps accepts =
      accepting-Clean log (reachable-Sound chain_id legacy_file write start log scheduler e steps)
        accepts
