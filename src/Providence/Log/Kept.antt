-- ===== src/Providence/Log/Kept.antt =====
-- What opening a directory makes of it, and what an append makes of an open log.
use openclaw_nie_guard.Common.{
  ℕ, ◌≡◌, refl, sym, subst, ◌⊎◌, inl, inr, String, Option, some, true, false, [], nat_eq, string_eq,
  Bool-cases, Option-cases, arith,
}
use openclaw_nie_guard.Types.{Json}
use openclaw_nie_guard.Providence.Encoding.{Bytes}
use openclaw_nie_guard.Providence.Disk.{
  Attempt, is_thrown, given, throws, GuardHead, missing, malformed, holds, Line, Disk, Write,
  durable, fails, nothing, part, whole, last_line, checked_last, checked_head, fresh_head,
  write_fresh, open_head, index_lines,
}
use openclaw_nie_guard.Providence.Log.{ProvidenceLog, opened, open_log, log_of, indexed}
use openclaw_nie_guard.Providence.Log.Opening.{
  Sound, accepting, refusing, open_head-holds, Stuck-malformed,
}
use openclaw_nie_guard.Providence.Chain.{Clean, SoundDisk, blank, clean, stuck}

module _ (sha256 : Bytes → String) where
  checked_last-cases :
      (head : GuardHead) (line : Line)
      → (is_thrown (checked_last sha256 head line) ≡ true)
        ⊎ (checked_last sha256 head line ≡ given head)
  unfolding checked_last
  checked_last-cases head line = ground arith

  checked_head-cases :
      (disk : Disk) (head : GuardHead)
      → (is_thrown (checked_head sha256 disk head) ≡ true)
        ⊎ (checked_head sha256 disk head ≡ given head)
  unfolding checked_head
  checked_head-cases disk head = elim (Bool-cases disk.is_partial) [
    | inl torn ↦ inl (ground (arith, torn))
    | inr is_whole ↦ elim (Option-cases (last_line disk.lines)) [
      | inl empty ↦ ground (arith, is_whole, empty)
      | inr (line, is_last) ↦ ground (arith, is_whole, is_last, checked_last-cases head line)
    ]
  ]

  index_lines-given :
      (disk : Disk) (head : GuardHead)
      → (is_thrown (index_lines disk head) ≡ true) ⊎ (index_lines disk head ≡ given head.seq)
  unfolding index_lines
  index_lines-given disk head = ground arith

  -- A sound directory; a log that accepts with it has the head of its chain.
  abbrev GoodOpening : String → Disk × GuardHead × Attempt ℕ → Type 0
  GoodOpening chain_id (disk, head, count) =
      SoundDisk sha256 disk
      × ((is_thrown count ≡ true)
          ⊎ (Clean sha256 disk head × (head.chain_id ≡ chain_id) × (count ≡ given head.seq)))

  log_of-Sound :
      (chain_id : String) (legacy_file : Option Json) (found : Disk × GuardHead × Attempt ℕ)
      → GoodOpening chain_id found
      → Sound sha256 (log_of chain_id legacy_file found)
  log_of-Sound chain_id legacy_file (disk, head, throws e) (h, k) = refusing e refl h
  log_of-Sound chain_id legacy_file (disk, head, given n) (h, inl bad) = absurd (ground arith)
  log_of-Sound chain_id legacy_file (disk, head, given n) (h, inr (whole_chain, name, count)) =
      accepting refl whole_chain (ground (arith, count)) name

  fresh-Clean :
      (disk : Disk) (chain_id : String)
      → disk.lines ≡ []
      → disk.is_partial ≡ false
      → disk.head_file ≡ holds (fresh_head chain_id)
      → Clean sha256 disk (fresh_head chain_id)
  fresh-Clean disk chain_id l p h = record {
    records = [];
    are_lines = l;
    is_whole = p;
    is_head = h;
    at_end = refl;
    chained = refl;
  }

  fresh-GoodOpening :
      (chain_id : String) (disk : Disk) (write : Write)
      → disk.head_file ≡ missing
      → disk.lines ≡ []
      → disk.is_partial ≡ false
      → GoodOpening chain_id
          (indexed (fresh_head chain_id) (write_fresh disk (fresh_head chain_id) write))
  unfolding index_lines
  fresh-GoodOpening chain_id disk durable m l p =
      let done =
        fresh-Clean (record disk { head_file = holds (fresh_head chain_id) }) chain_id l p refl in
      (clean (fresh_head chain_id) done, inr (done, refl, ground (arith, l, p)))
  fresh-GoodOpening chain_id disk (fails nothing e) m l p = (blank m l p, inl refl)
  fresh-GoodOpening chain_id disk (fails part e) m l p =
      (stuck (Stuck-malformed sha256 (record disk { head_file = malformed }) refl), inl refl)
  fresh-GoodOpening chain_id disk (fails whole e) m l p =
      let done =
        fresh-Clean (record disk { head_file = holds (fresh_head chain_id) }) chain_id l p refl in
      (clean (fresh_head chain_id) done, inl refl)

  open_head-blank :
      (chain_id : String) (disk : Disk) (write : Write)
      → disk.head_file ≡ missing
      → disk.lines ≡ []
      → disk.is_partial ≡ false
      → open_head sha256 chain_id disk write ≡ write_fresh disk (fresh_head chain_id) write
  unfolding open_head
  open_head-blank chain_id disk write m l p = ground (arith, m, l, p)

  indexed-GoodOpening :
      (chain_id : String) (disk : Disk) (head : GuardHead)
      → Clean sha256 disk head
      → head.chain_id ≡ chain_id
      → GoodOpening chain_id (disk, head, index_lines disk head)
  indexed-GoodOpening chain_id disk head c name = (
    clean head c,
    elim (index_lines-given disk head) [ inl bad ↦ inl bad | inr counted ↦ inr (c, name, counted) ],
  )

  Clean-GoodOpening :
      (chain_id : String) (disk : Disk) (head : GuardHead) (found : Disk × Attempt GuardHead)
      → Clean sha256 disk head
      → found.0 ≡ disk
      → (is_thrown found.1 ≡ true)
        ⊎ ((head.chain_id ≡ chain_id) × (found.1 ≡ checked_head sha256 disk head))
      → GoodOpening chain_id (indexed (fresh_head chain_id) found)
  Clean-GoodOpening chain_id disk head (d, throws e) c same end =
      (subst (SoundDisk sha256) (sym same) (clean head c), inl refl)
  Clean-GoodOpening chain_id disk head (d, given g) c same (inl bad) = absurd (ground arith)
  Clean-GoodOpening chain_id disk head (d, given g) c same (inr (name, checked)) =
      let is_head : g ≡ head = elim (checked_head-cases disk head) [
        | inl bad ↦ absurd (ground (arith, checked))
        | inr good ↦ ground (arith, checked)
      ] in
      subst (λ (x : Disk). GoodOpening chain_id (x, g, index_lines x g)) (sym same)
        (subst (λ (x : GuardHead). GoodOpening chain_id (disk, x, index_lines disk x)) (sym is_head)
          (indexed-GoodOpening chain_id disk head c name))

  opened-GoodOpening :
      (chain_id : String) (disk : Disk) (write : Write)
      → SoundDisk sha256 disk
      → GoodOpening chain_id (opened sha256 chain_id disk write)
  unfolding opened
  opened-GoodOpening chain_id disk write (blank m l p) =
      subst (λ found. GoodOpening chain_id (indexed (fresh_head chain_id) found))
        (sym (open_head-blank chain_id disk write m l p))
        (fresh-GoodOpening chain_id disk write m l p)
  opened-GoodOpening chain_id disk write (clean head c) =
      let (same, end) = open_head-holds sha256 chain_id disk write head c.is_head in
      Clean-GoodOpening chain_id disk head (open_head sha256 chain_id disk write) c same end
  opened-GoodOpening chain_id disk write (stuck h) =
      let (same, bad) = h disk.anchors chain_id write in
      (subst (SoundDisk sha256) (sym same) (stuck h), inl bad)

  -- Opening a sound directory makes a sound log.
  pub open_log-Sound :
      (chain_id : String) (legacy_file : Option Json) (disk : Disk) (write : Write)
      (log : ProvidenceLog)
      → SoundDisk sha256 disk
      → open_log sha256 chain_id legacy_file disk write ≡ some log
      → Sound sha256 log
  unfolding open_log
  open_log-Sound chain_id legacy_file disk write log h e =
      let made : log_of chain_id legacy_file (opened sha256 chain_id disk write) ≡ log =
        ground arith in
      subst (Sound sha256) made
        (log_of-Sound chain_id legacy_file _ (opened-GoodOpening chain_id disk write h))
