-- ===== src/Providence/Disk.antt =====
-- The files of a chain directory, and what log.ts of packages/providence-log does with each. A line of the
-- chain file is what JSON and the schema read from it: a record, or anything else; `is_partial` says that
-- bytes follow the last newline. A chain file that is missing reads as an empty one. A write ends durably, or
-- throws with nothing, a part or the whole of its bytes in the file.
use Prim.Native.Char.{code}
use openclaw_nie_guard.Common.{
  ℕ, ◌+◌, String, Option, none, some, Bool, true, false, not, ◌&&◌, ◌||◌, List, [], ◌∷◌, ◌++◌, ltb,
  length, ◌==◌, nat_eq, string_eq, if◌then◌else◌, is_space,
}
use openclaw_nie_guard.Types.{concat, decimal}
use openclaw_nie_guard.Providence.Records.{ProvidenceRecord, record_fits, hex64, safe_int}
use openclaw_nie_guard.Providence.Encoding.{Bytes, record_digest, genesis_digest}

pub data Attempt (A : Type 0) : Type 0 where
  given : A → Attempt A
  throws : String → Attempt A

abbrev pub is_thrown : {A : Type 0} → Attempt A → Bool
is_thrown (given a) = false
is_thrown (throws e) = true

pub record GuardHead : Type 0 where
  pub chain_id : String
  pub seq : ℕ
  pub head_digest : String

-- `malformed` is a text that is no JSON object of exactly the three fields with their types.
pub data HeadFile : Type 0 where
  missing malformed : HeadFile
  holds : GuardHead → HeadFile

pub data Line : Type 0 where
  record_line : ProvidenceRecord → Line
  other_line : Line

pub record ProvidenceAnchor : Type 0 where
  pub chain_id : String
  pub head_seq : ℕ
  pub head_digest : String
  pub commitment : String
  pub timestamp_ms : ℕ
  pub algorithm : String
  pub key_id : String
  pub public_key : Bytes
  pub signature : Bytes

-- A file of the anchor directory: its name is the position and the time, and `none` is a text that is no
-- anchor. The files stand in the order of their names.
pub record AnchorFile : Type 0 where
  pub position : ℕ
  pub timestamp : ℕ
  pub content : Option ProvidenceAnchor

pub record Disk : Type 0 where
  pub head_file : HeadFile
  pub lines : List Line
  pub is_partial : Bool
  pub anchors : List AnchorFile

abbrev pub empty_disk : Disk
empty_disk = record { head_file = missing; lines = []; is_partial = false; anchors = [] }

pub data Left : Type 0 where
  nothing part whole : Left

pub data Write : Type 0 where
  durable : Write
  fails : Left → String → Write

-- The replacement of the head: done, or it throws before the rename or after it.
pub data Replace : Type 0 where
  replaced : Replace
  not_renamed not_synced : String → Replace

-- `CHAIN_ID`
has_no_space : String → Bool
has_no_space String.[] = true
has_no_space (String.◌∷◌ c s) = not (is_space c) && has_no_space s

after_prefix : String → String → Bool
after_prefix String.[] String.[] = false
after_prefix String.[] (String.◌∷◌ d s) = has_no_space (String.◌∷◌ d s)
after_prefix (String.◌∷◌ c p) String.[] = false
after_prefix (String.◌∷◌ c p) (String.◌∷◌ d s) = code c == code d && after_prefix p s

unfoldable pub is_chain_id : String → Bool
unfolding after_prefix has_no_space is_space
is_chain_id s = after_prefix "aida-guard/" s

-- `parseHead`, of a file that exists or not.
unfoldable pub parse_head : HeadFile → Attempt GuardHead
parse_head missing = throws "ENOENT: head-v3.json"
parse_head malformed = throws "head-v3.json is malformed"
parse_head (holds head) =
    if not (is_chain_id head.chain_id)
    then throws "head chain_id is malformed"
    else if not (safe_int head.seq)
    then throws "head seq is malformed"
    else if not (hex64 head.head_digest)
    then throws "head digest is malformed"
    else given head

abbrev pub last_line : List Line → Option Line
last_line [] = none
last_line (l ∷ []) = some l
last_line (_ ∷ l ∷ ls) = last_line (l ∷ ls)

-- `lastRecord`
abbrev pub last_record : Disk → Attempt (Option Line)
last_record disk =
    if disk.is_partial
    then throws "chain-v3.jsonl ends in a partial line"
    else given (last_line disk.lines)

-- `appendDurably` of one line to the chain file. Bytes after the last newline become a part of the line.
abbrev pub with_line : Disk → Line → Disk
with_line disk line = record disk {
  lines = disk.lines ++ (if disk.is_partial then other_line else line) ∷ [];
  is_partial = false;
}

unfoldable pub append_durably : Disk → Line → Write → Disk
append_durably disk line durable = with_line disk line
append_durably disk line (fails nothing _) = disk
append_durably disk line (fails part _) = record disk { is_partial = true }
append_durably disk line (fails whole _) = with_line disk line

abbrev pub fresh_head : String → GuardHead
fresh_head chain_id = record { chain_id = chain_id; seq = 0; head_digest = genesis_digest }

-- `writeDurably` of the fresh head, to a file that is missing.
abbrev pub write_fresh : Disk → GuardHead → Write → Disk × Attempt GuardHead
write_fresh disk head durable = (record disk { head_file = holds head }, given head)
write_fresh disk head (fails nothing e) = (disk, throws e)
write_fresh disk head (fails part e) = (record disk { head_file = malformed }, throws e)
write_fresh disk head (fails whole e) = (record disk { head_file = holds head }, throws e)

unfoldable pub is_missing : HeadFile → Bool
is_missing missing = true
is_missing _ = false

module _ (sha256 : Bytes → String) where
  -- `ProvidenceRecord.parse(JSON.parse(line))` and its digest.
  unfoldable pub read_line : Line → Attempt (ProvidenceRecord × String)
  read_line other_line = throws "the line is no record"
  read_line (record_line r) =
      if record_fits r
      then elim (record_digest sha256 r) [
        | none ↦ throws "the record has no encoding"
        | some digest ↦ given (r, digest)
      ]
      else throws "the line is no record"

  -- The last record's own digest must be the head.
  unfoldable pub checked_last : GuardHead → Line → Attempt GuardHead
  unfolding read_line
  checked_last head line = elim (read_line line) [
    | throws e ↦ throws e
    | given (r, digest) ↦
        if not (r.seq + 1 == head.seq)
        then throws (
            concat (
              "the last record is at "
              ∷ decimal r.seq
              ∷ " and the head names "
              ∷ decimal head.seq
              ∷ []))
        else if not (digest == head.head_digest)
        then throws (
            concat (
              "the last record computes to " ∷ digest ∷ " and the head holds " ∷ head.head_digest
              ∷ []))
        else given head
  ]

  unfoldable pub checked_head : Disk → GuardHead → Attempt GuardHead
  unfolding checked_last
  checked_head disk head = elim (last_record disk) [
    | throws e ↦ throws e
    | given none ↦
        if head.seq == 0
        then (if head.head_digest == genesis_digest
            then given head
            else throws "an empty head names a digest")
        else throws
            (concat ("the head is at " ∷ decimal head.seq ∷ " and the chain holds no records" ∷ []))
    | given (some line) ↦
        if head.seq == 0
        then throws "the head is at genesis and the chain holds records"
        else checked_last head line
  ]

  -- `openHead`
  unfoldable pub open_head : String → Disk → Write → Disk × Attempt GuardHead
  unfolding parse_head is_missing
  open_head chain_id disk write =
      if is_missing disk.head_file
      then (if ltb 0 (length disk.lines) || disk.is_partial
          then (disk, throws "chain-v3.jsonl holds records and head-v3.json is missing")
          else write_fresh disk (fresh_head chain_id) write)
      else elim (parse_head disk.head_file) [
        | throws e ↦ (disk, throws e)
        | given head ↦
            if not (head.chain_id == chain_id)
            then (
              disk,
              throws (concat ("the chain on disk is " ∷ head.chain_id ∷ ", not " ∷ chain_id ∷ [])),
            )
            else (disk, checked_head disk head)
      ]

-- `indexLines`: the number of lines, which are found by their number here instead of by offset.
unfoldable pub index_lines : Disk → GuardHead → Attempt ℕ
index_lines disk head =
    if disk.is_partial
    then throws "chain-v3.jsonl ends in a partial line"
    else if not (length disk.lines == head.seq)
    then throws (
        concat (
          "chain-v3.jsonl holds "
          ∷ decimal (length disk.lines)
          ∷ " lines and the head names "
          ∷ decimal head.seq
          ∷ []))
    else given (length disk.lines)

abbrev pub same_head : GuardHead → GuardHead → Bool
same_head a b = a.seq == b.seq && a.head_digest == b.head_digest && a.chain_id == b.chain_id

-- The write, the rename and the `fsync` of the directory.
abbrev pub moved : Disk → GuardHead → Replace → Disk × Option String
moved disk next replaced = (record disk { head_file = holds next }, none)
moved disk next (not_renamed e) = (disk, some e)
moved disk next (not_synced e) = (record disk { head_file = holds next }, some e)

-- `replaceHead`: the disk, and why it throws.
unfoldable pub replace_head : Disk → GuardHead → GuardHead → Replace → Disk × Option String
unfolding parse_head
replace_head disk expected next io = elim (parse_head disk.head_file) [
  | throws e ↦ (disk, some e)
  | given on_disk ↦
      if not (same_head on_disk expected)
      then (disk, some "the head on disk is not the one this writer last wrote")
      else moved disk next io
]
