-- ===== src/Providence/Anchors/Remembered.antt =====
-- What the scheduler remembers is on disk: the position anchored last, over any steps of the writer and the
-- scheduler.
use openclaw_nie_guard.Common.{
  ℕ, ◌+◌, ◌<◌, ◌≡◌, refl, sym, ap, subst, ◌⊎◌, inl, inr, String, Option, none, some, true, false,
  Bool-cases, arith, is_some, ◌||◌,
}
use openclaw_nie_guard.Providence.Records.{ProvidenceAppendInput}
use openclaw_nie_guard.Providence.Encoding.{Bytes, head_commitment, hex_pairs}
use openclaw_nie_guard.Providence.Disk.{
  Attempt, given, throws, GuardHead, Disk, ProvidenceAnchor, Write, durable, fails, nothing, part,
  whole, Replace, replace_head, append_durably, record_line,
}
use openclaw_nie_guard.Providence.Records.{ProvidenceRecord}
use openclaw_nie_guard.Providence.Log.{
  ProvidenceLog, Appended, append, refuse_from, record_of, next_head, settled, advanced, advance,
  written,
}
use openclaw_nie_guard.Providence.Log.Appending.{append-cases}
use openclaw_nie_guard.Providence.Anchors.{
  ProvidenceSigner, AnchorScheduler, Pending, start_anchor, finish_anchor, end_anchor, begin_anchor,
  started, finished, stored, is_seq, anchor_of,
}
use openclaw_nie_guard.Providence.Anchors.Written.{
  HasFile, file_of, put_file-HasFile, begin_anchor-given, AnchorRun-cases, IsAnchorOf,
}
use openclaw_nie_guard.Providence.Reachable.{
  Step, Steps, here, next, appends, refuses, starts_anchor, finishes_anchor, restarts,
  new_scheduler,
}

-- The head then is the head now, or stands before it.
abbrev Behind : GuardHead → GuardHead → Type 0
Behind h now = (h.seq < now.seq) ⊎ (h ≡ now)

replace_head-anchors :
    (disk : Disk) (head after : GuardHead) (io : Replace)
    → (replace_head disk head after io).0.anchors ≡ disk.anchors
unfolding replace_head
replace_head-anchors disk head after io = ground arith

-- An append that leaves the log accepting moves the head up by one and leaves the anchors.
Appends : ProvidenceLog → ProvidenceLog → Type 0
Appends log after =
    (is_some after.failure ≡ true)
    ⊎ ((after.head.seq ≡ log.head.seq + 1) × (after.disk.anchors ≡ log.disk.anchors))

settled-Appends :
    (log : ProvidenceLog) (r : ProvidenceRecord) (digest : String) (found : Disk × Option String)
    → found.0.anchors ≡ log.disk.anchors
    → Appends log (settled log r digest found).0
unfolding Appends advanced next_head
settled-Appends log r digest (disk, some e) same = inl refl
settled-Appends log r digest (disk, none) same = inr (refl, same)

written-Appends :
    (log : ProvidenceLog) (r : ProvidenceRecord) (digest : String) (write : Write) (io : Replace)
    → Appends log (written log r digest write io).0
unfolding written advance append_durably Appends
written-Appends log r digest durable io =
    let disk = append_durably log.disk (record_line r) durable in
    settled-Appends log r digest (replace_head disk log.head (next_head log digest) io)
      (replace_head-anchors disk log.head (next_head log digest) io)
written-Appends log r digest (fails left e) io = inl refl

module _ (sha256 : Bytes → String) where
  -- An anchor over this head: its position, its digest, its chain and its commitment.
  abbrev pub AnchorOver : GuardHead → ProvidenceAnchor → Type 0
  AnchorOver head anchor =
      (anchor.head_seq ≡ head.seq)
      × (anchor.head_digest ≡ head.head_digest)
      × (anchor.chain_id ≡ head.chain_id)
      × (head_commitment sha256 head.seq head.head_digest head.chain_id ≡ some anchor.commitment)

  -- The anchor in flight is over a head that the log has or had.
  abbrev InFlight : ProvidenceLog → AnchorScheduler → Type 0
  InFlight log scheduler =
      (pending : Pending)
      → scheduler.in_flight ≡ some pending
      → Behind pending.head log.head
        × (head_commitment sha256 pending.head.seq pending.head.head_digest pending.head.chain_id
            ≡ some pending.commitment)

  -- An anchor over a head of this position that the log has or had is on disk.
  abbrev Kept : ProvidenceLog → ℕ → Type 0
  Kept log n =
      (head : GuardHead) × (anchor : ProvidenceAnchor) × (head.seq ≡ n)
      × Behind head log.head
      × AnchorOver head anchor
      × HasFile (file_of anchor) log.disk.anchors

  unfoldable Remembers : ProvidenceLog × AnchorScheduler → Type 0
  Remembers (log, scheduler) =
      (is_some log.failure ≡ true)
      ⊎ (InFlight log scheduler × ((n : ℕ) → scheduler.last_anchored_seq ≡ some n → Kept log n))

  new-Remembers : (log : ProvidenceLog) → Remembers (log, new_scheduler)
  unfolding Remembers
  new-Remembers log =
      inr (λ pending e. absurd (ground (arith, e)), λ n e. absurd (ground (arith, e)))

  up : (h now after : GuardHead) → after.seq ≡ now.seq + 1 → Behind h now → Behind h after
  up h now after e (inl less) = inl (omega (arith, e, less))
  up h now after e (inr same) = inl (omega (arith, e, ap (λ (x : GuardHead). x.seq) same))

  Appends-Remembers :
      (log after : ProvidenceLog) (scheduler : AnchorScheduler)
      → Appends log after
      → Remembers (log, scheduler)
      → is_some log.failure ≡ false
      → Remembers (after, scheduler)
  unfolding Remembers Appends
  Appends-Remembers log after scheduler (inl gone) h accepts = inl gone
  Appends-Remembers log after scheduler (inr (e, same)) (inl gone) accepts =
      absurd (ground (arith, gone, accepts))
  Appends-Remembers log after scheduler (inr (e, same)) (inr (flight, last)) accepts = inr (
    λ pending is_pending.
        let (behind, commits) = flight pending is_pending in
        (up pending.head log.head after.head e behind, commits),
    λ n is_last.
        let (head, anchor, at, behind, over, there) = last n is_last in
        (
          head,
          anchor,
          at,
          up head log.head after.head e behind,
          over,
          subst (HasFile (file_of anchor)) (sym same) there,
        ),
  )

  append-Remembers :
      (log : ProvidenceLog) (scheduler : AnchorScheduler) (input : ProvidenceAppendInput) (now : ℕ)
      (write : Write) (io : Replace)
      → Remembers (log, scheduler)
      → Remembers ((append sha256 log input now write io).0, scheduler)
  append-Remembers log scheduler input now write io h =
      elim (append-cases sha256 log input now write io) [
        | inl (stays, _) ↦ subst (λ l. Remembers (l, scheduler)) (sym stays) h
        | inr (accepts, (digest, _, writes)) ↦
            subst (λ (x : ProvidenceLog × Appended). Remembers (x.0, scheduler)) (sym writes)
              (Appends-Remembers log _ scheduler
                (written-Appends log (record_of log input now) digest write io) h
                (ap is_some accepts))
      ]

  started-Remembers :
      (signer : ProvidenceSigner) (log : ProvidenceLog) (scheduler : AnchorScheduler) (now : ℕ)
      (begun : Attempt Pending)
      → begin_anchor sha256 signer log now ≡ begun
      → Remembers (log, scheduler)
      → Remembers (started log scheduler begun)
  unfolding Remembers refuse_from
  started-Remembers signer log scheduler now (throws e) is_begun h = inl refl
  started-Remembers signer log scheduler now (given pending) is_begun (inl gone) = inl gone
  started-Remembers signer log scheduler now (given pending) is_begun (inr (flight, last)) =
      let (same, _, commits, _) = begin_anchor-given sha256 signer log now pending is_begun in
      inr (
        λ other is_other.
            let e : pending ≡ other = ground (arith, is_other) in
            subst
              (λ (p : Pending).
                Behind p.head log.head
                × (head_commitment sha256 p.head.seq p.head.head_digest p.head.chain_id
                    ≡ some p.commitment))
              e
              (
                inr same,
                subst
                    (λ (x : GuardHead).
                      head_commitment sha256 x.seq x.head_digest x.chain_id
                      ≡ some pending.commitment)
                    (sym same) commits,
              ),
        last,
      )

  start_anchor-Remembers :
      (signer : ProvidenceSigner) (log : ProvidenceLog) (scheduler : AnchorScheduler) (now : ℕ)
      → Remembers (log, scheduler)
      → Remembers (start_anchor sha256 signer log scheduler now)
  unfolding start_anchor
  start_anchor-Remembers signer log scheduler now h =
      elim (Bool-cases (is_some log.failure || is_seq scheduler.last_anchored_seq log.head.seq)) [
        | inl idle ↦ rw idle h
        | inr due ↦
            rw due (
              started-Remembers signer log scheduler now (begin_anchor sha256 signer log now) refl
                h)
      ]

  stored-Remembers :
      (signer : ProvidenceSigner) (log : ProvidenceLog) (scheduler : AnchorScheduler)
      (pending : Pending) (write : Write) (signed : Attempt Bytes)
      → scheduler.in_flight ≡ some pending
      → Remembers (log, scheduler)
      → Remembers (finished scheduler pending (stored sha256 signer log pending write signed))
  unfolding Remembers refuse_from anchor_of
  stored-Remembers signer log scheduler pending write (throws e) is_pending h = inl refl
  stored-Remembers signer log scheduler pending durable (given s) is_pending (inl gone) = inl gone
  stored-Remembers signer log scheduler pending durable (given s) is_pending (inr (flight, last)) =
      let (behind, commits) = flight pending is_pending in
      inr (
        λ other is_other. absurd (ground (arith, is_other)),
        λ n is_last. (
          pending.head,
          anchor_of sha256 signer pending s,
          ground (arith, is_last),
          behind,
          (refl, refl, refl, commits),
          put_file-HasFile _ log.disk.anchors,
        ),
      )
  stored-Remembers signer log scheduler pending (fails nothing e) (given s) is_pending h = inl refl
  stored-Remembers signer log scheduler pending (fails part e) (given s) is_pending h = inl refl
  stored-Remembers signer log scheduler pending (fails whole e) (given s) is_pending h = inl refl

  Step-Remembers :
      {s t : ProvidenceLog × AnchorScheduler} → Step sha256 s t → Remembers s → Remembers t
  unfolding refuse_from Remembers finish_anchor end_anchor
  Step-Remembers (appends log scheduler input now write io) h =
      append-Remembers log scheduler input now write io h
  Step-Remembers (refuses log scheduler reason) h = inl refl
  Step-Remembers (starts_anchor signer log scheduler now) h =
      start_anchor-Remembers signer log scheduler now h
  Step-Remembers (finishes_anchor signer log scheduler pending write is_pending) h =
      stored-Remembers signer log scheduler pending write (signer.sign (hex_pairs pending.message))
        is_pending h
  Step-Remembers (restarts log log' scheduler chain_id legacy_file write e) h = new-Remembers log'

  Steps-Remembers :
      {s t : ProvidenceLog × AnchorScheduler} → Steps sha256 s t → Remembers s → Remembers t
  Steps-Remembers here h = h
  Steps-Remembers (next before step) h = Step-Remembers step (Steps-Remembers before h)

  -- The head is anchored: an anchor over it, with its commitment, is in the anchor directory.
  abbrev pub Anchored : ProvidenceLog → Type 0
  Anchored log =
      (anchor : ProvidenceAnchor) × AnchorOver log.head anchor
      × HasFile (file_of anchor) log.disk.anchors

  Remembers-Anchored :
      (log : ProvidenceLog) (scheduler : AnchorScheduler)
      → Remembers (log, scheduler)
      → scheduler.last_anchored_seq ≡ some log.head.seq
      → (is_some log.failure ≡ true) ⊎ Anchored log
  unfolding Remembers
  Remembers-Anchored log scheduler (inl gone) e = inl gone
  Remembers-Anchored log scheduler (inr (_, last)) e =
      let (head, anchor, at, behind, over, there) = last log.head.seq e in
      elim behind [
        | inl less ↦ absurd (omega (arith, less, at))
        | inr same ↦ inr (anchor, subst (λ h. AnchorOver h anchor) same over, there)
      ]

  start_anchor-refusing :
      (signer : ProvidenceSigner) (log : ProvidenceLog) (scheduler : AnchorScheduler) (now : ℕ)
      → is_some log.failure ≡ true
      → is_some (start_anchor sha256 signer log scheduler now).0.failure ≡ true
  unfolding start_anchor
  start_anchor-refusing signer log scheduler now refused = ground (arith, refused)

  -- The start of a run on `log`, and its end on `later`.
  abbrev pub Run :
      ProvidenceSigner
      → ProvidenceLog
      → ProvidenceLog
      → AnchorScheduler
      → AnchorScheduler
      → ℕ
      → Write
      → Type 0
  Run signer log later scheduler scheduler' now write =
      let begun = start_anchor sha256 signer log scheduler now in
      (is_some begun.0.failure ≡ true)
      ⊎ (Anchored log
          ⊎ ((pending : Pending) × (begun.1.in_flight ≡ some pending)
              × (let (after, scheduler'') =
                    finish_anchor sha256 signer later scheduler' pending write in
                  (is_some after.failure ≡ true)
                  ⊎ ((anchor : ProvidenceAnchor) × IsAnchorOf sha256 signer log now anchor
                      × HasFile (file_of anchor) after.disk.anchors
                      × (scheduler''.last_anchored_seq ≡ some log.head.seq)))))

  -- After any appends, refusals, anchors and restarts of a writer and its scheduler, an anchor run is started, and it ends on any later log, whatever the disk does. At the start the log refuses, or the anchor directory already holds an anchor over its head, with the commitment of that head, or an anchor is in flight; and when that one ends, the log refuses, or the anchor directory holds an anchor over the head at the start, signed over the message of that head's commitment, and the scheduler remembers that position.
  pub anchored_or_refuses :
      (signer : ProvidenceSigner) (start log later : ProvidenceLog)
      (scheduler scheduler' : AnchorScheduler) (now : ℕ) (write : Write)
      → Steps sha256 (start, new_scheduler) (log, scheduler)
      → Run signer log later scheduler scheduler' now write
  anchored_or_refuses signer start log later scheduler scheduler' now write steps =
      elim (AnchorRun-cases sha256 signer log later scheduler scheduler' now write) [
        | inl refused ↦ inl refused
        | inr (inr flight) ↦ inr (inr flight)
        | inr (inl at_last) ↦
            elim (Remembers-Anchored log scheduler (Steps-Remembers steps (new-Remembers start))
              at_last) [
                | inl refused ↦ inl (start_anchor-refusing signer log scheduler now refused)
                | inr anchored ↦ inr (inl anchored)
              ]
      ]
