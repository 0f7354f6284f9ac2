-- ===== src/Providence/Log/Opening.antt =====
-- Opening a sound directory: the log accepts with the head on disk, or it refuses and leaves the files. What a
-- failed append leaves behind its head is refused for ever.
use openclaw_nie_guard.Common.{
  ◌≡◌, refl, ap, ◌∙◌, ◌⊎◌, inl, inr, String, none, some, true, false, List, [], ◌∷◌, ◌++◌, ◌==◌,
  nat_eq, string_eq, if◌then◌else◌, Bool-cases, arith, eq_iff,
}
use openclaw_nie_guard.Providence.Records.{ProvidenceRecord, hex64, safe_int}
use openclaw_nie_guard.Providence.Encoding.{Bytes}
use openclaw_nie_guard.Providence.Disk.{
  Attempt, is_thrown, given, throws, GuardHead, HeadFile, missing, malformed, holds, Line,
  record_line, Disk, Write, is_missing, is_chain_id, parse_head, last_line, read_line, checked_last,
  checked_head, fresh_head, open_head,
}
use openclaw_nie_guard.Providence.Log.{ProvidenceLog, opened, indexed}
use openclaw_nie_guard.Providence.Chain.{Clean, Refuses, Stuck, SoundDisk}

HeadFile-cases :
    (file : HeadFile)
    → (file ≡ missing) ⊎ ((file ≡ malformed) ⊎ ((head : GuardHead) × (file ≡ holds head)))
HeadFile-cases missing = inl refl
HeadFile-cases malformed = inr (inl refl)
HeadFile-cases (holds head) = inr (inr (head, refl))

pub parse_head-holds :
    (head : GuardHead)
    → ((e : String) × (parse_head (holds head) ≡ throws e)) ⊎ (parse_head (holds head) ≡ given head)
unfolding parse_head
parse_head-holds head = elim (Bool-cases (is_chain_id head.chain_id)) [
  | inl named ↦ elim (Bool-cases (safe_int head.seq)) [
    | inl safe ↦ elim (Bool-cases (hex64 head.head_digest)) [
      | inl hex ↦ inr (ground arith)
      | inr wrong ↦ inl ("head digest is malformed", ground arith)
    ]
    | inr large ↦ inl ("head seq is malformed", ground arith)
  ]
  | inr wrong ↦ inl ("head chain_id is malformed", ground arith)
]

module _ (sha256 : Bytes → String) where
  pub data Sound (log : ProvidenceLog) : Type 0 where
    accepting :
        log.failure ≡ none
        → Clean sha256 log.disk log.head
        → log.line_count ≡ some log.head.seq
        → log.head.chain_id ≡ log.chain_id
        → Sound log
    refusing : (reason : String) → log.failure ≡ some reason → SoundDisk sha256 log.disk → Sound log

  -- An opening that ends in a refusal and leaves the files.
  abbrev Refused : String → Disk → Write → Type 0
  Refused chain_id disk write =
      ((opened sha256 chain_id disk write).0 ≡ disk)
      × (is_thrown (opened sha256 chain_id disk write).2 ≡ true)

  Refused-open_head :
      (chain_id : String) (disk : Disk) (write : Write)
      → (open_head sha256 chain_id disk write).0 ≡ disk
      → is_thrown (open_head sha256 chain_id disk write).1 ≡ true
      → Refused chain_id disk write
  unfolding opened
  Refused-open_head chain_id disk write same h =
      indexed-thrown (open_head sha256 chain_id disk write) same h
    where
      indexed-thrown :
          (found : Disk × Attempt GuardHead)
          → found.0 ≡ disk
          → is_thrown found.1 ≡ true
          → ((indexed (fresh_head chain_id) found).0 ≡ disk)
            × (is_thrown (indexed (fresh_head chain_id) found).2 ≡ true)
      indexed-thrown (d, throws e) same h = (same, refl)
      indexed-thrown (d, given head) same h = absurd (ground arith)

  pub open_head-holds :
      (chain_id : String) (disk : Disk) (write : Write) (head : GuardHead)
      → disk.head_file ≡ holds head
      → let found = open_head sha256 chain_id disk write in
        (found.0 ≡ disk)
        × ((is_thrown found.1 ≡ true)
            ⊎ ((head.chain_id ≡ chain_id) × (found.1 ≡ checked_head sha256 disk head)))
  unfolding open_head
  open_head-holds chain_id disk write head is_head = elim (parse_head-holds head) [
    | inl (e, bad) ↦ ground (arith, is_head, bad, is_missing)
    | inr good ↦ ground (arith, is_head, good, is_missing, eq_iff head.chain_id chain_id)
  ]

  -- A held head that does not fit the last record.
  Refuses-unfit :
      (disk : Disk) (head : GuardHead)
      → disk.head_file ≡ holds head
      → is_thrown (checked_head sha256 disk head) ≡ true
      → Refuses sha256 disk
  Refuses-unfit disk head is_head unfit chain_id write =
      let (same, end) = open_head-holds chain_id disk write head is_head in
      Refused-open_head chain_id disk write same
        (elim end [ inl bad ↦ bad | inr (_, checked) ↦ ap is_thrown checked ∙ unfit ])

  Refuses-malformed : (disk : Disk) → disk.head_file ≡ malformed → Refuses sha256 disk
  unfolding open_head
  Refuses-malformed disk e chain_id write =
      Refused-open_head chain_id disk write (ground (arith, e)) (ground (arith, e))

  Refused-headless :
      (chain_id : String) (disk : Disk) (write : Write)
      → disk.is_partial ≡ true
      → disk.head_file ≡ missing
      → Refused chain_id disk write
  unfolding open_head
  Refused-headless chain_id disk write e m =
      Refused-open_head chain_id disk write (ground (arith, e, m)) (ground (arith, e, m))

  checked_head-partial :
      (disk : Disk) (head : GuardHead)
      → disk.is_partial ≡ true
      → is_thrown (checked_head sha256 disk head) ≡ true
  unfolding checked_head
  checked_head-partial disk head e = ground (arith, e)

  -- A partial line is never opened.
  Refuses-partial : (disk : Disk) → disk.is_partial ≡ true → Refuses sha256 disk
  Refuses-partial disk e = elim (HeadFile-cases disk.head_file) [
    | inl m ↦ λ chain_id write. Refused-headless chain_id disk write e m
    | inr (inl bad) ↦ Refuses-malformed disk bad
    | inr (inr (head, is_head)) ↦ Refuses-unfit disk head is_head (checked_head-partial disk head e)
  ]

  last_line-append : (ls : List Line) (l : Line) → last_line (ls ++ l ∷ []) ≡ some l
  last_line-append [] l = refl
  last_line-append (x ∷ []) l = refl
  last_line-append (x ∷ y ∷ ls) l = last_line-append (y ∷ ls) l

  -- What is read from the line of a record is that record.
  read_line-given :
      (r q : ProvidenceRecord) (d : String)
      → read_line sha256 (record_line r) ≡ given (q, d)
      → r ≡ q
  unfolding read_line
  read_line-given r q d e = ground arith

  checked_last-behind :
      (head : GuardHead) (r : ProvidenceRecord)
      → r.seq ≡ head.seq
      → is_thrown (checked_last sha256 head (record_line r)) ≡ true
  unfolding checked_last read_line
  checked_last-behind head r at = ground arith

  pub checked_head-last :
      (disk : Disk) (head : GuardHead) (front : List Line) (l : Line)
      → disk.is_partial ≡ false
      → disk.lines ≡ front ++ l ∷ []
      → checked_head sha256 disk head ≡ (
          if head.seq == 0
          then throws "the head is at genesis and the chain holds records"
          else checked_last sha256 head l)
  unfolding checked_head
  checked_head-last disk head front l is_whole is_lines =
      ground (arith, is_whole, ap last_line is_lines, last_line-append front l)

  -- A record that is in the file, and the head is not past it.
  Refuses-behind :
      (disk : Disk) (head : GuardHead) (front : List Line) (r : ProvidenceRecord)
      → disk.head_file ≡ holds head
      → disk.is_partial ≡ false
      → disk.lines ≡ front ++ record_line r ∷ []
      → r.seq ≡ head.seq
      → Refuses sha256 disk
  Refuses-behind disk head front r is_head is_whole is_lines at = Refuses-unfit disk head is_head (
      ground (
        arith,
        checked_head-last disk head front (record_line r) is_whole is_lines,
        checked_last-behind head r at,
      ))

  pub Stuck-malformed : (disk : Disk) → disk.head_file ≡ malformed → Stuck sha256 disk
  Stuck-malformed disk e files = Refuses-malformed (record disk { anchors = files }) e

  pub Stuck-partial : (disk : Disk) → disk.is_partial ≡ true → Stuck sha256 disk
  Stuck-partial disk e files = Refuses-partial (record disk { anchors = files }) e

  -- A record that is in the file, and the head is not past it.
  pub Stuck-behind :
      (disk : Disk) (head : GuardHead) (front : List Line) (r : ProvidenceRecord)
      → disk.head_file ≡ holds head
      → disk.is_partial ≡ false
      → disk.lines ≡ front ++ record_line r ∷ []
      → r.seq ≡ head.seq
      → Stuck sha256 disk
  Stuck-behind disk head front r is_head is_whole is_lines at files =
      Refuses-behind (record disk { anchors = files }) head front r is_head is_whole is_lines at
