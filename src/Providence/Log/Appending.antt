-- ===== src/Providence/Log/Appending.antt =====
-- An append keeps a log sound, whatever the disk does.
use openclaw_nie_guard.Common.{
  ℕ, ◌≡◌, refl, sym, ap, subst, ◌⊎◌, inl, inr, String, Option, none, some, Bool, true, false, ◌&&◌,
  List, [], ◌∷◌, ◌++◌, map, length-append, nat_eq, string_eq, Bool-cases, Option-cases, arith,
  beq_refl,
}
use openclaw_nie_guard.Providence.Records.{
  ProvidenceRecord, ProvidenceAppendInput, record_fits, input_fits,
}
use openclaw_nie_guard.Providence.Encoding.{Bytes, record_digest, has_line, genesis_digest}
use openclaw_nie_guard.Providence.Disk.{
  GuardHead, holds, record_line, Disk, Write, durable, fails, nothing, part, whole, Replace,
  replaced, not_renamed, not_synced, replace_head, append_durably, with_line, moved, same_head,
}
use openclaw_nie_guard.Providence.Log.{
  ProvidenceLog, Appended, unavailable, rejected, record_of, next_head, advanced, advance, written,
  append, settled,
}
use openclaw_nie_guard.Providence.Log.Opening.{
  Sound, accepting, refusing, Stuck-partial, Stuck-behind, parse_head-holds,
}
use openclaw_nie_guard.Providence.Chain.{Clean, Stuck, clean, stuck, Chained-end}

both_true : (a b : Bool) → (a && b) ≡ true → b ≡ true
both_true a b h = ground arith

pub same_head_refl : (head : GuardHead) → same_head head head ≡ true
same_head_refl head =
    ground (arith, beq_refl head.seq, beq_refl head.head_digest, beq_refl head.chain_id)

-- A replacement over the head that is held throws and leaves the disk, or goes on to the files.
replace_head-cases :
    (disk : Disk) (head next : GuardHead) (io : Replace)
    → disk.head_file ≡ holds head
    → ((e : String) × (replace_head disk head next io ≡ (disk, some e)))
      ⊎ (replace_head disk head next io ≡ moved disk next io)
unfolding replace_head
replace_head-cases disk head next io is_head = elim (parse_head-holds head) [
  | inl (e, bad) ↦ inl (e, ground (arith, is_head, bad))
  | inr good ↦ inr (ground (arith, is_head, good, same_head_refl head))
]

pub map_end :
    (rs : List ProvidenceRecord) (r : ProvidenceRecord)
    → map record_line (rs ++ r ∷ []) ≡ map record_line rs ++ record_line r ∷ []
map_end [] r = refl
map_end (x ∷ rs) r = ap (λ l. record_line x ∷ l) (map_end rs r)

-- A record that `append` writes: the guards before have let it through.
pub record Ready (sha256 : Bytes → String) (log : ProvidenceLog) (r : ProvidenceRecord)
    (digest : String) : Type 0 where
  pub at_head : r.seq ≡ log.head.seq
  pub linked : r.prev_digest ≡ log.head.head_digest
  pub fits : record_fits r ≡ true
  pub is_digest : record_digest sha256 r ≡ some digest

module _ (sha256 : Bytes → String) where
  record_of-Ready :
      (log : ProvidenceLog) (input : ProvidenceAppendInput) (now : ℕ) (digest : String)
      → (input_fits input && record_fits (record_of log input now)) ≡ true
      → record_digest sha256 (record_of log input now) ≡ some digest
      → Ready sha256 log (record_of log input now) digest
  unfolding record_of
  record_of-Ready log input now digest fit is_digest = record {
    at_head = refl;
    linked = refl;
    fits = both_true _ _ fit;
    is_digest = is_digest;
  }

  -- An append leaves the log and throws, or writes a record that is ready.
  pub append-cases :
      (log : ProvidenceLog) (input : ProvidenceAppendInput) (now : ℕ) (write : Write) (io : Replace)
      → let result = append sha256 log input now write io in
        ((result.0 ≡ log)
          × ((result.1 ≡ rejected)
              ⊎ ((e : String) × (result.1 ≡ unavailable e) × (log.failure ≡ some e))))
        ⊎ ((log.failure ≡ none)
            × ((digest : String) × Ready sha256 log (record_of log input now) digest
                × (result ≡ written log (record_of log input now) digest write io)))
  unfolding append
  append-cases log input now write io = elim (Option-cases log.failure) [
    | inr (reason, refuses) ↦
        inl (ground (arith, refuses), inr (reason, ground (arith, refuses), refuses))
    | inl accepts ↦ elim (Bool-cases (input_fits input && record_fits (record_of log input now))) [
      | inr unfit ↦ inl (ground (arith, accepts, unfit), inl (ground (arith, accepts, unfit)))
      | inl fit ↦ elim (Option-cases (record_digest sha256 (record_of log input now))) [
        | inl none_of ↦
            inl (ground (arith, accepts, fit, none_of), inl (ground (arith, accepts, fit, none_of)))
        | inr (digest, is_digest) ↦ elim (Bool-cases (has_line (record_of log input now))) [
          | inr no_line ↦ inl (
            ground (arith, accepts, fit, is_digest, no_line),
            inl (ground (arith, accepts, fit, is_digest, no_line)),
          )
          | inl line ↦ inr (
            accepts,
            (
              digest,
              record_of-Ready log input now digest fit is_digest,
              ground (arith, accepts, fit, is_digest, line),
            ),
          )
        ]
      ]
    ]
  ]

  lines_of-end :
      (disk : Disk) (rs : List ProvidenceRecord) (r : ProvidenceRecord)
      → disk.is_partial ≡ false
      → disk.lines ≡ map record_line rs
      → (with_line disk (record_line r)).lines ≡ map record_line (rs ++ r ∷ [])
  lines_of-end disk rs r is_whole e = simp (is_whole, e, map_end rs r)

  -- The directory once the record's line and the next head are in it.
  pub end-Clean :
      (log : ProvidenceLog) (r : ProvidenceRecord) (digest : String)
      → Clean sha256 log.disk log.head
      → Ready sha256 log r digest
      → Clean sha256
          (record (with_line log.disk (record_line r)) { head_file = holds (next_head log digest) })
          (next_head log digest)
  unfolding next_head
  end-Clean log r digest c ready = record {
    records = c.records ++ r ∷ [];
    are_lines = lines_of-end log.disk c.records r c.is_whole c.are_lines;
    is_whole = refl;
    is_head = refl;
    at_end = omega (arith, c.at_end, length-append c.records (r ∷ []));
    chained =
        Chained-end sha256 0 genesis_digest c.records log.head.head_digest r digest c.chained
          (omega (arith, ready.at_head, c.at_end)) ready.linked ready.fits ready.is_digest;
  }

  -- The line alone, with the old head, is refused by whoever opens it.
  line-Stuck :
      (log : ProvidenceLog) (r : ProvidenceRecord) (digest : String)
      → Clean sha256 log.disk log.head
      → Ready sha256 log r digest
      → Stuck sha256 (with_line log.disk (record_line r))
  line-Stuck log r digest c ready =
      Stuck-behind sha256 (with_line log.disk (record_line r)) log.head log.disk.lines r c.is_head
        refl (simp c.is_whole) ready.at_head

  abbrev with_next : ProvidenceLog → ProvidenceRecord → String → Disk
  with_next log r digest = record (with_line log.disk (record_line r)) {
    head_file = holds (next_head log digest);
  }

  settled-Sound :
      (log : ProvidenceLog) (r : ProvidenceRecord) (digest : String) (end : Option String)
      → log.failure ≡ none
      → Clean sha256 log.disk log.head
      → log.line_count ≡ some log.head.seq
      → Ready sha256 log r digest
      → Sound sha256 (settled log r digest (with_next log r digest, end)).0
  unfolding advanced next_head
  settled-Sound log r digest (some e) accepts c count ready =
      refusing _ refl (clean (next_head log digest) (end-Clean log r digest c ready))
  settled-Sound log r digest none accepts c count ready =
      accepting accepts (end-Clean log r digest c ready) (ground (arith, count)) refl

  moved-Sound :
      (log : ProvidenceLog) (r : ProvidenceRecord) (digest : String) (io : Replace)
      → log.failure ≡ none
      → Clean sha256 log.disk log.head
      → log.line_count ≡ some log.head.seq
      → Ready sha256 log r digest
      → Sound sha256
          (settled log r digest
            (moved (with_line log.disk (record_line r)) (next_head log digest) io)).0
  moved-Sound log r digest replaced accepts c count ready =
      settled-Sound log r digest none accepts c count ready
  moved-Sound log r digest (not_renamed e) accepts c count ready =
      refusing _ refl (stuck (line-Stuck log r digest c ready))
  moved-Sound log r digest (not_synced e) accepts c count ready =
      settled-Sound log r digest (some e) accepts c count ready

  advance-Sound :
      (log : ProvidenceLog) (r : ProvidenceRecord) (digest : String) (io : Replace)
      → log.failure ≡ none
      → Clean sha256 log.disk log.head
      → log.line_count ≡ some log.head.seq
      → Ready sha256 log r digest
      → Sound sha256 (advance log r digest (with_line log.disk (record_line r)) io).0
  unfolding advance
  advance-Sound log r digest io accepts c count ready =
      let after : Disk × Option String → Type 0 =
        λ found. Sound sha256 (settled log r digest found).0 in
      elim (replace_head-cases (with_line log.disk (record_line r)) log.head (next_head log digest)
        io c.is_head) [
          | inl (e, stays) ↦
              subst after (sym stays) (refusing _ refl (stuck (line-Stuck log r digest c ready)))
          | inr moves ↦ subst after (sym moves) (moved-Sound log r digest io accepts c count ready)
        ]

  written-Sound :
      (log : ProvidenceLog) (r : ProvidenceRecord) (digest : String) (write : Write) (io : Replace)
      → log.failure ≡ none
      → Clean sha256 log.disk log.head
      → log.line_count ≡ some log.head.seq
      → Ready sha256 log r digest
      → Sound sha256 (written log r digest write io).0
  unfolding written append_durably
  written-Sound log r digest durable io accepts c count ready =
      advance-Sound log r digest io accepts c count ready
  written-Sound log r digest (fails nothing e) io accepts c count ready =
      refusing _ refl (clean log.head c)
  written-Sound log r digest (fails part e) io accepts c count ready =
      refusing _ refl (stuck (Stuck-partial sha256 (record log.disk { is_partial = true }) refl))
  written-Sound log r digest (fails whole e) io accepts c count ready =
      refusing _ refl (stuck (line-Stuck log r digest c ready))

  -- An append keeps a log sound.
  pub append-Sound :
      (log : ProvidenceLog) (input : ProvidenceAppendInput) (now : ℕ) (write : Write) (io : Replace)
      → Sound sha256 log
      → Sound sha256 (append sha256 log input now write io).0
  append-Sound log input now write io h = elim (append-cases log input now write io) [
    | inl (stays, _) ↦ subst (Sound sha256) (sym stays) h
    | inr (accepts, (digest, ready, writes)) ↦
        subst (λ (x : ProvidenceLog × Appended). Sound sha256 x.0) (sym writes)
          (from_sound digest ready accepts h)
  ]
    where
      from_sound :
          (digest : String)
          → Ready sha256 log (record_of log input now) digest
          → log.failure ≡ none
          → Sound sha256 log
          → Sound sha256 (written log (record_of log input now) digest write io).0
      from_sound digest ready accepts (accepting _ c count name) =
          written-Sound log (record_of log input now) digest write io accepts c count ready
      from_sound digest ready accepts (refusing reason refuses _) =
          absurd (ground (arith, accepts, refuses))
