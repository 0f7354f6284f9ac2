-- ===== src/Providence/Page.antt =====
-- `page` of log.ts in packages/providence-log: consecutive records with their digests, read from the chain file
-- and checked one by one. A line is found by its number here, and by its byte offset in the source.
pub mod Slices
use openclaw_nie_guard.Common.{
  ℕ, zero, suc, ◌+◌, ◌-◌, ◌≤◌, ◌<◌, ◌≡◌, refl, sym, ap, ap₂, ◌∙◌, subst, ◌⊎◌, inl, inr, String,
  Option, none, some, Bool, true, false, not, ◌&&◌, ◌||◌, List, [], ◌∷◌, ◌++◌, map, length, take,
  drop, keep, ltb, leb, ◌==◌, nat_eq, if◌then◌else◌, arith, Option-cases, Bool-cases, beq_refl,
}
use openclaw_nie_guard.Providence.Records.{ProvidenceRecord, record_fits, safe_int}
use openclaw_nie_guard.Providence.Encoding.{Bytes, record_digest, head_commitment, genesis_digest}
use openclaw_nie_guard.Providence.Disk.{
  Attempt, given, throws, GuardHead, Disk, Line, record_line, other_line, AnchorFile,
  ProvidenceAnchor, read_line,
}
use openclaw_nie_guard.Providence.Log.{ProvidenceLog}
use openclaw_nie_guard.Providence.Chain.{Chained, Clean}

pub record ServedRecord : Type 0 where
  pub seq : ℕ
  pub digest : String
  pub line : Line

pub record ChainPage : Type 0 where
  pub head : GuardHead
  pub commitment : String
  pub records : List ServedRecord
  pub anchors : List ProvidenceAnchor
  pub next : ℕ

abbrev pub end_of : ℕ → ℕ → ℕ → ℕ
end_of seq from limit = if ltb (from + limit) seq then from + limit else seq

-- The anchors of the page: `JSON.parse` throws on a text that is none.
abbrev pub in_page : ℕ → ℕ → AnchorFile → Bool
in_page from to file =
    (ltb from file.position || (from == 0 && file.position == 0)) && leb file.position to

abbrev pub parsed_anchors : List AnchorFile → Option (List ProvidenceAnchor)
parsed_anchors [] = some []
parsed_anchors (file ∷ files) = elim file.content [
  | none ↦ none
  | some anchor ↦ elim (parsed_anchors files) [ none ↦ none | some rest ↦ some (anchor ∷ rest) ]
]

module _ (sha256 : Bytes → String) where
  -- The lines of the page, each at its position.
  unfoldable pub served : ℕ → List Line → Option (List ServedRecord)
  served n [] = some []
  served n (line ∷ lines) =
      let rest = served (suc n) lines in
      elim (read_line sha256 line) [
        | throws e ↦ none
        | given (r, digest) ↦
            if r.seq == n
            then elim rest [
              | none ↦ none
              | some records ↦ some (record { seq = r.seq; digest = digest; line = line } ∷ records)
            ]
            else none
      ]

  unfoldable pub read_range : Disk → ℕ → ℕ → Option (List ServedRecord)
  unfolding served
  read_range disk from to =
      if not (ltb from to)
      then some []
      else if ltb (length disk.lines) to
      then none
      else served from (take (to - from) (drop from disk.lines))

  abbrev pub page_of :
      ProvidenceLog
      → ℕ
      → ℕ
      → String
      → Option (List ServedRecord)
      → Option (List ProvidenceAnchor)
      → Option ChainPage
  page_of log from to commitment (some records) (some anchors) = some (record {
    head = log.head;
    commitment = commitment;
    records = records;
    anchors = anchors;
    next = to;
  })
  page_of log from to commitment _ _ = none

  -- `none` where it throws.
  unfoldable pub page : ProvidenceLog → ℕ → ℕ → Option ChainPage
  unfolding read_range
  page log from limit =
      let to = end_of log.head.seq from limit in
      if not (safe_int from) || not (safe_int limit) || limit == 0
      then none
      else elim log.line_count [
        | none ↦ none
        | some n ↦
            elim (head_commitment sha256 log.head.seq log.head.head_digest log.head.chain_id) [
              | none ↦ none
              | some commitment ↦
                  page_of log from to commitment (read_range log.disk from to)
                    (parsed_anchors (keep (in_page from to) log.disk.anchors))
            ]
      ]
