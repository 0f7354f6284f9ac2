-- ===== src/Providence/Page/Slices.antt =====
-- A page of a sound chain is a slice of it.
use openclaw_nie_guard.Common.{
  ℕ, zero, suc, ◌+◌, ◌-◌, ◌≤◌, ◌≡◌, refl, sym, ap, ap₂, ◌∙◌, subst, ◌⊎◌, inl, inr, String, none,
  some, true, false, List, [], ◌∷◌, map, length, take, drop, keep, All, ltb, ◌==◌, nat_eq, arith,
  Option-cases, Bool-cases, beq_refl, is_some,
}
use openclaw_nie_guard.Providence.Records.{ProvidenceRecord, safe_int}
use openclaw_nie_guard.Providence.Encoding.{Bytes, record_digest, head_commitment, genesis_digest}
use openclaw_nie_guard.Providence.Disk.{
  GuardHead, Disk, Line, record_line, AnchorFile, ProvidenceAnchor,
}
use openclaw_nie_guard.Providence.Log.{ProvidenceLog}
use openclaw_nie_guard.Providence.Log.Opening.{Sound, accepting, refusing}
use openclaw_nie_guard.Providence.Chain.{Chained, Clean}
use openclaw_nie_guard.Providence.Recovery.{length-map}
use openclaw_nie_guard.Providence.Recovery.Reopening.{read_line-record}
use openclaw_nie_guard.Providence.Page.{
  ServedRecord, ChainPage, end_of, in_page, parsed_anchors, served, read_range, page, page_of,
}

-- The end of a page: the start plus the limit, or the head's position, whichever is less.
end_of-least :
    (head from limit : ℕ)
    → ((end_of head from limit ≡ from + limit) × (from + limit ≤ head))
      ⊎ ((end_of head from limit ≡ head) × (head ≤ from + limit))
end_of-least head from limit = elim (Bool-cases (ltb head (from + limit))) [
  | inl past ↦ inr (ground (arith, past), ground (arith, past))
  | inr within ↦ inl (ground (arith, within), ground (arith, within))
]

drop-map :
    (n : ℕ) (rs : List ProvidenceRecord) → drop n (map record_line rs) ≡ map record_line (drop n rs)
drop-map zero rs = refl
drop-map (suc n) [] = refl
drop-map (suc n) (r ∷ rs) = drop-map n rs

take-map :
    (n : ℕ) (rs : List ProvidenceRecord) → take n (map record_line rs) ≡ map record_line (take n rs)
take-map zero rs = refl
take-map (suc n) [] = refl
take-map (suc n) (r ∷ rs) = ap (λ l. record_line r ∷ l) (take-map n rs)

abbrev pub HoldsAnchor : AnchorFile → Type 0
HoldsAnchor file = is_some file.content ≡ true

anchors_parse :
    (from to : ℕ) (files : List AnchorFile)
    → All HoldsAnchor files
    → (anchors : List ProvidenceAnchor) × (parsed_anchors (keep (in_page from to) files)
        ≡ some anchors)
anchors_parse from to [] h = ([], refl)
anchors_parse from to (file ∷ files) (here, h) =
    let (rest, e) = anchors_parse from to files h in
    elim (Bool-cases (in_page from to file)) [
      | inr out ↦ (rest, ground (arith, out, e))
      | inl inside ↦ elim (Option-cases file.content) [
        | inl broken ↦ absurd (ground (arith, broken))
        | inr (anchor, is_anchor) ↦ (anchor ∷ rest, ground (arith, inside, is_anchor, e))
      ]
    ]

module _ (sha256 : Bytes → String) where
  -- From position `n` on, each record served is the line's own, at its position, with its digest.
  abbrev pub Faithful : ℕ → List ServedRecord → Type 0
  Faithful n [] = Unit
  Faithful n (s ∷ ss) =
      (s.seq ≡ n)
      × ((r : ProvidenceRecord) × (s.line ≡ record_line r)
          × (r.seq ≡ n)
          × (record_digest sha256 r ≡ some s.digest))
      × Faithful (suc n) ss

  Chained-drop :
      (k n : ℕ) (before : String) (rs : List ProvidenceRecord) (final : String)
      → Chained sha256 n before rs final
      → k ≤ length rs
      → (middle : String) × Chained sha256 (n + k) middle (drop k rs) final
  Chained-drop zero n before rs final h le =
      (before, subst (λ m. Chained sha256 m before rs final) (omega arith) h)
  Chained-drop (suc k) n before [] final h le = absurd (omega arith)
  Chained-drop (suc k) n before (r ∷ rs) final (_, _, _, (d, _, h)) le =
      let (middle, rest) = Chained-drop k (suc n) d rs final h (omega arith) in
      (middle, subst (λ m. Chained sha256 m middle (drop k rs) final) (omega arith) rest)

  served-Chained :
      (k n : ℕ) (before : String) (rs : List ProvidenceRecord) (final : String)
      → Chained sha256 n before rs final
      → (records : List ServedRecord) × (served sha256 n (map record_line (take k rs))
          ≡ some records)
        × (map (λ (s : ServedRecord). s.line) records ≡ map record_line (take k rs))
        × Faithful n records
  unfolding served
  served-Chained zero n before rs final h = ([], refl, refl, tt)
  served-Chained (suc k) n before [] final h = ([], refl, refl, tt)
  served-Chained (suc k) n before (r ∷ rs) final (at, link, fits, (d, is_d, h)) =
      let (records, e, lines, faithful) = served-Chained k (suc n) d rs final h in
      (
        record { seq = r.seq; digest = d; line = record_line r } ∷ records,
        ground (arith, read_line-record sha256 r d fits is_d, at, e, beq_refl n),
        ap (λ l. record_line r ∷ l) lines,
        (at, (r, refl, at, is_d), faithful),
      )

  abbrev pub slice : Disk → ℕ → ℕ → List Line
  slice disk from to = take (to - from) (drop from disk.lines)

  slice-served :
      (disk : Disk) (head : GuardHead) (from to : ℕ)
      → Clean sha256 disk head
      → from ≤ to
      → to ≤ head.seq
      → (records : List ServedRecord) × (served sha256 from (slice disk from to) ≡ some records)
        × (map (λ (s : ServedRecord). s.line) records ≡ slice disk from to)
        × Faithful from records
  slice-served disk head from to c le bound =
      let (middle, h) =
        Chained-drop from 0 genesis_digest c.records head.head_digest c.chained
          (omega (arith, c.at_end)) in
      let (records, e, lines, faithful) =
        served-Chained (to - from) (0 + from) middle (drop from c.records) head.head_digest h in
      let is_slice : slice disk from to ≡ map record_line (take (to - from) (drop from c.records)) =
        ap (λ l. take (to - from) (drop from l)) c.are_lines
        ∙ ap (take (to - from)) (drop-map from c.records)
        ∙ take-map (to - from) (drop from c.records) in
      (
        records,
        ap₂ (served sha256) (omega arith) is_slice ∙ e,
        lines ∙ sym is_slice,
        subst (λ n. Faithful n records) (omega arith) faithful,
      )

  read_range-slice :
      (disk : Disk) (head : GuardHead) (from to : ℕ)
      → Clean sha256 disk head
      → to ≤ head.seq
      → (records : List ServedRecord) × (read_range sha256 disk from to ≡ some records)
        × (map (λ (s : ServedRecord). s.line) records ≡ slice disk from to)
        × Faithful from records
  unfolding read_range
  read_range-slice disk head from to c bound = elim (Bool-cases (ltb from to)) [
    | inr past ↦
        let none_left : to - from ≡ 0 = ground (arith, past) in
        ([], ground (arith, past), sym (ap (λ k. take k (drop from disk.lines)) none_left), tt)
    | inl inside ↦
        let (records, e, lines, faithful) =
          slice-served disk head from to c (ground (arith, inside)) bound in
        let counted : length disk.lines ≡ head.seq =
          ap (λ (l : List Line). length l) c.are_lines ∙ length-map c.records ∙ sym c.at_end in
        (records, ground (arith, inside, counted, e), lines, faithful)
  ]

  page-given :
      (log : ProvidenceLog) (from limit : ℕ) (commitment : String) (records : List ServedRecord)
      (anchors : List ProvidenceAnchor)
      → log.line_count ≡ some log.head.seq
      → safe_int from ≡ true
      → safe_int limit ≡ true
      → (limit == 0) ≡ false
      → head_commitment sha256 log.head.seq log.head.head_digest log.head.chain_id ≡ some commitment
      → read_range sha256 log.disk from (end_of log.head.seq from limit) ≡ some records
      → parsed_anchors (keep (in_page from (end_of log.head.seq from limit)) log.disk.anchors)
        ≡ some anchors
      → page sha256 log from limit
        ≡ page_of sha256 log from
            (end_of log.head.seq from limit)
            commitment
            (some records)
            (some anchors)
  unfolding page
  page-given log from limit commitment records anchors count sf sl nz hc hr ha =
      ground (arith, count, sf, sl, nz, hc, hr, ha)

  abbrev pub Answered : ProvidenceLog → ℕ → ℕ → String → Type 0
  Answered log from limit commitment =
      (p : ChainPage) × (page sha256 log from limit ≡ some p)
      × (p.head ≡ log.head)
      × (p.commitment ≡ commitment)
      × (((p.next ≡ from + limit) × (from + limit ≤ log.head.seq))
          ⊎ ((p.next ≡ log.head.seq) × (log.head.seq ≤ from + limit)))
      × (map (λ (s : ServedRecord). s.line) p.records ≡ slice log.disk from p.next)
      × Faithful from p.records

  -- A sound log that accepts appends, whose head has a commitment and whose anchor files all hold anchors, answers `page` for a safe start and a safe limit above 0. The page carries the head and its commitment; `next` is the start plus the limit or the head's position, whichever is less; the records are the lines of the chain file from the start up to `next`, each at its own position and with its own digest.
  pub page_of_chain :
      (log : ProvidenceLog) (from limit : ℕ) (commitment : String)
      → Sound sha256 log
      → log.failure ≡ none
      → All HoldsAnchor log.disk.anchors
      → head_commitment sha256 log.head.seq log.head.head_digest log.head.chain_id ≡ some commitment
      → safe_int from ≡ true
      → safe_int limit ≡ true
      → (limit == 0) ≡ false
      → Answered log from limit commitment
  page_of_chain log from limit commitment (refusing reason r _) accepts anchored hc sf sl nz =
      absurd (ground (arith, accepts, r))
  page_of_chain log from limit commitment (accepting _ c count _) accepts anchored hc sf sl nz =
      let to = end_of log.head.seq from limit in
      let (anchors, ha) = anchors_parse from to log.disk.anchors anchored in
      let (records, hr, lines, faithful) =
        read_range-slice log.disk log.head from to c (ground arith) in
      (
        record {
          head = log.head;
          commitment = commitment;
          records = records;
          anchors = anchors;
          next = to;
        },
        page-given log from limit commitment records anchors count sf sl nz hc hr ha,
        refl,
        refl,
        end_of-least log.head.seq from limit,
        lines,
        faithful,
      )
