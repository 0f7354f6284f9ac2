-- ===== src/Providence/Anchors/Written.antt =====
-- What an anchor run leaves: a log that refuses, an anchor on disk, or the head that the scheduler remembers.
use openclaw_nie_guard.Common.{
  ℕ, ◌≡◌, refl, ap, ◌∙◌, subst, ◌⊎◌, inl, inr, String, Option, none, some, true, ◌&&◌, ◌||◌, List,
  [], ◌∷◌, ltb, ◌==◌, nat_eq, string_eq, arith, Option-cases, Bool-cases, is_some,
}
use openclaw_nie_guard.Providence.Encoding.{Bytes, head_commitment, anchor_message, hex_pairs}
use openclaw_nie_guard.Providence.Disk.{
  Attempt, given, throws, GuardHead, AnchorFile, ProvidenceAnchor, Write, durable, fails, nothing,
  part, whole,
}
use openclaw_nie_guard.Providence.Log.{ProvidenceLog, refuse_from}
use openclaw_nie_guard.Providence.Anchors.{
  ProvidenceSigner, Pending, AnchorScheduler, put_file, begin_anchor, anchor_of, stored, end_anchor,
  is_seq, started, finished, start_anchor, finish_anchor,
}

abbrev pub HasFile : AnchorFile → List AnchorFile → Type 0
HasFile f [] = ⊥
HasFile f (g ∷ files) = (f ≡ g) ⊎ HasFile f files

pub put_file-HasFile : (f : AnchorFile) (files : List AnchorFile) → HasFile f (put_file f files)
put_file-HasFile f [] = inl refl
put_file-HasFile f (g ∷ files) =
    elim (Bool-cases (f.position == g.position && f.timestamp == g.timestamp)) [
      | inl same ↦ rw same (inl refl)
      | inr other ↦
          elim (Bool-cases (
            ltb f.position g.position
            || (f.position == g.position && ltb f.timestamp g.timestamp))) [
              | inl before ↦ rw (other, before) (inl refl)
              | inr after ↦ rw (other, after) (inr (put_file-HasFile f files))
            ]
    ]

abbrev pub file_of : ProvidenceAnchor → AnchorFile
file_of anchor = record {
  position = anchor.head_seq;
  timestamp = anchor.timestamp_ms;
  content = some anchor;
}

is_seq-some : (last : Option ℕ) (n : ℕ) → is_seq last n ≡ true → last ≡ some n
is_seq-some none n e = absurd (ground arith)
is_seq-some (some m) n e = ground arith

started-cases :
    (log : ProvidenceLog) (scheduler : AnchorScheduler) (begun : Attempt Pending)
    → (is_some (started log scheduler begun).0.failure ≡ true)
      ⊎ ((scheduler.last_anchored_seq ≡ some log.head.seq)
          ⊎ ((pending : Pending) × (begun ≡ given pending)
              × ((started log scheduler begun).1.in_flight ≡ some pending)))
unfolding refuse_from
started-cases log scheduler (throws e) = inl refl
started-cases log scheduler (given pending) = inr (inr (pending, refl, refl))

module _ (sha256 : Bytes → String) (signer : ProvidenceSigner) where
  -- An anchor over this position, digest and chain, signed over the message of its commitment.
  abbrev pub IsAnchorOf : ProvidenceLog → ℕ → ProvidenceAnchor → Type 0
  IsAnchorOf log now anchor =
      (anchor.head_seq ≡ log.head.seq)
      × (anchor.head_digest ≡ log.head.head_digest)
      × (anchor.chain_id ≡ log.head.chain_id)
      × (head_commitment sha256 log.head.seq log.head.head_digest log.head.chain_id
          ≡ some anchor.commitment)
      × ((message : String) × (anchor_message sha256 anchor.commitment now signer.algorithm
              signer.key_id signer.public_key
            ≡ some message)
          × (signer.sign (hex_pairs message) ≡ given anchor.signature))

  abbrev pub Begun : ProvidenceLog → ℕ → Pending → Type 0
  Begun log now pending =
      (pending.head ≡ log.head)
      × (pending.timestamp ≡ now)
      × (head_commitment sha256 log.head.seq log.head.head_digest log.head.chain_id
          ≡ some pending.commitment)
      × (anchor_message sha256 pending.commitment now signer.algorithm signer.key_id
            signer.public_key
          ≡ some pending.message)

  pub begin_anchor-given :
      (log : ProvidenceLog) (now : ℕ) (pending : Pending)
      → begin_anchor sha256 signer log now ≡ given pending
      → Begun log now pending
  unfolding begin_anchor
  begin_anchor-given log now pending e = elim (Option-cases log.failure) [
    | inr (reason, refuses) ↦ absurd (ground (arith, refuses))
    | inl accepts ↦
        elim (Option-cases
          (head_commitment sha256 log.head.seq log.head.head_digest log.head.chain_id)) [
            | inl none_of ↦ absurd (ground (arith, accepts, none_of))
            | inr (commitment, hc) ↦
                elim (Option-cases (
                  anchor_message sha256 commitment now signer.algorithm signer.key_id
                    signer.public_key)) [
                      | inl none_of ↦ absurd (ground (arith, accepts, hc, none_of))
                      | inr (message, ha) ↦
                          let made : Pending = record {
                            head = log.head;
                            commitment = commitment;
                            timestamp = now;
                            message = message;
                          } in
                          let same : made ≡ pending = ground (arith, accepts, hc, ha) in
                          subst (Begun log now) same (refl, refl, hc, ha)
                    ]
          ]
  ]

  -- What starting leaves: the log refuses, its head is the one anchored last, or an anchor is in flight.
  pub start_anchor-cases :
      (log : ProvidenceLog) (scheduler : AnchorScheduler) (now : ℕ)
      → (is_some (start_anchor sha256 signer log scheduler now).0.failure ≡ true)
        ⊎ ((scheduler.last_anchored_seq ≡ some log.head.seq)
            ⊎ ((pending : Pending) × (begin_anchor sha256 signer log now ≡ given pending)
                × ((start_anchor sha256 signer log scheduler now).1.in_flight ≡ some pending)))
  unfolding start_anchor refuse_from
  start_anchor-cases log scheduler now = elim (Bool-cases (is_some log.failure)) [
    | inl refuses ↦ inl (ground (arith, refuses))
    | inr accepts ↦ elim (Bool-cases (is_seq scheduler.last_anchored_seq log.head.seq)) [
      | inl anchored ↦ inr (inl (is_seq-some scheduler.last_anchored_seq log.head.seq anchored))
      | inr due ↦
          rw (accepts, due) (started-cases log scheduler (begin_anchor sha256 signer log now))
    ]
  ]

  Done : AnchorScheduler → Pending → Attempt Bytes → ProvidenceLog × AnchorScheduler → Type 0
  Done scheduler pending signed (log', scheduler') =
      (is_some log'.failure ≡ true)
      ⊎ ((signature : Bytes) × (signed ≡ given signature)
          × HasFile (file_of (anchor_of sha256 signer pending signature)) log'.disk.anchors
          × (scheduler'.last_anchored_seq ≡ some pending.head.seq))

  stored-cases :
      (log : ProvidenceLog) (scheduler : AnchorScheduler) (pending : Pending) (write : Write)
      (signed : Attempt Bytes)
      → Done scheduler pending signed
          (finished scheduler pending (stored sha256 signer log pending write signed))
  unfolding refuse_from anchor_of Done
  stored-cases log scheduler pending write (throws e) = inl refl
  stored-cases log scheduler pending durable (given s) =
      inr (s, refl, put_file-HasFile _ log.disk.anchors, refl)
  stored-cases log scheduler pending (fails nothing e) (given s) = inl refl
  stored-cases log scheduler pending (fails part e) (given s) = inl refl
  stored-cases log scheduler pending (fails whole e) (given s) = inl refl

  finish_anchor-cases :
      (log : ProvidenceLog) (scheduler : AnchorScheduler) (pending : Pending) (write : Write)
      → Done scheduler pending
          (signer.sign (hex_pairs pending.message))
          (finish_anchor sha256 signer log scheduler pending write)
  unfolding finish_anchor end_anchor
  finish_anchor-cases log scheduler pending write =
      stored-cases log scheduler pending write (signer.sign (hex_pairs pending.message))

  -- The start of a run on `log`, and its end on `later`.
  abbrev pub AnchorRun :
      ProvidenceLog → ProvidenceLog → AnchorScheduler → AnchorScheduler → ℕ → Write → Type 0
  AnchorRun log later scheduler scheduler' now write =
      let begun = start_anchor sha256 signer log scheduler now in
      (is_some begun.0.failure ≡ true)
      ⊎ ((scheduler.last_anchored_seq ≡ some log.head.seq)
          ⊎ ((pending : Pending) × (begun.1.in_flight ≡ some pending)
              × (let (after, scheduler'') =
                    finish_anchor sha256 signer later scheduler' pending write in
                  (is_some after.failure ≡ true)
                  ⊎ ((anchor : ProvidenceAnchor) × IsAnchorOf log now anchor
                      × HasFile (file_of anchor) after.disk.anchors
                      × (scheduler''.last_anchored_seq ≡ some log.head.seq)))))

  -- What a run leaves, whatever the scheduler remembers.
  pub AnchorRun-cases :
      (log later : ProvidenceLog) (scheduler scheduler' : AnchorScheduler) (now : ℕ) (write : Write)
      → AnchorRun log later scheduler scheduler' now write
  unfolding Done anchor_of
  AnchorRun-cases log later scheduler scheduler' now write =
      elim (start_anchor-cases log scheduler now) [
        | inl refuses ↦ inl refuses
        | inr (inl anchored) ↦ inr (inl anchored)
        | inr (inr (pending, begins, in_flight)) ↦
            let (same, at, hc, ha) = begin_anchor-given log now pending begins in
            inr (
              inr (
                pending,
                in_flight,
                elim (finish_anchor-cases later scheduler' pending write) [
                  | inl refuses ↦ inl refuses
                  | inr (signature, signed, there, remembered) ↦ inr (
                    anchor_of sha256 signer pending signature,
                    (
                      ap (λ (h : GuardHead). h.seq) same,
                      ap (λ (h : GuardHead). h.head_digest) same,
                      ap (λ (h : GuardHead). h.chain_id) same,
                      hc,
                      (pending.message, ha, signed),
                    ),
                    there,
                    remembered ∙ ap (λ (h : GuardHead). some h.seq) same,
                  )
                ],
              ))
      ]
