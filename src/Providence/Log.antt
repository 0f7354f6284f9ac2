-- ===== src/Providence/Log.antt =====
-- log.ts of packages/providence-log: the writer of the chain. The disk is a part of the log here, and each
-- call takes the clock and what the disk does. The listeners of `onAppend` are called by the scheduler's model.
pub mod Opening
pub mod Kept
pub mod Appending
use openclaw_nie_guard.Common.{
  ℕ, ◌+◌, String, Option, none, some, Bool, true, false, not, ◌&&◌, List, [], ◌∷◌, ◌++◌, ◌==◌,
  nat_eq, string_eq, if◌then◌else◌, ◌or_else◌, insert, is_some,
}
use openclaw_nie_guard.Types.{Json, str, obj, Members, end, member, Metadata, concat, decimal}
use openclaw_nie_guard.Providence.Records.{
  ProvidenceAppendInput, ProvidenceRecord, input_fits, record_fits,
}
use openclaw_nie_guard.Providence.Encoding.{
  Bytes, record_digest, head_commitment, anchor_message, has_line, genesis_digest,
}
use openclaw_nie_guard.Providence.Disk.{
  Attempt, given, throws, GuardHead, Disk, Line, record_line, Write, durable, fails, Left, nothing,
  part, whole, Replace, ProvidenceAnchor, is_chain_id, append_durably, open_head, index_lines,
  replace_head, fresh_head,
}

pub record ProvidenceLog : Type 0 where
  pub chain_id : String
  pub legacy_head : Option String
  pub head : GuardHead
  pub failure : Option String
  pub records_since_start : ℕ
  pub line_count : Option ℕ
  pub disk : Disk

-- `readLegacyHead`, of the JSON on the last line of the earlier chain file: `none` where no such file is
-- named, it is missing or it is empty. A last line that is not JSON, or is `null`, is left out: on it the
-- constructor throws.
abbrev event_hash : Members → Option String
event_hash end = none
event_hash (member name (str s) rest) = if name == "eventHash" then some s else event_hash rest
event_hash (member name _ rest) = if name == "eventHash" then none else event_hash rest

unfoldable pub read_legacy_head : Option Json → Option String
read_legacy_head (some (obj members)) = event_hash members
read_legacy_head _ = none

-- What `append` returns or throws; `rejected` is an error of the schema or the encoding.
pub data Appended : Type 0 where
  appended : ProvidenceRecord → String → Appended
  unavailable : String → Appended
  rejected : Appended

-- The `try` block of the constructor: `openHead` and then `indexLines`.
abbrev pub indexed : GuardHead → Disk × Attempt GuardHead → Disk × GuardHead × Attempt ℕ
indexed unopened (disk, throws e) = (disk, unopened, throws e)
indexed unopened (disk, given head) = (disk, head, index_lines disk head)

abbrev pub log_of : String → Option Json → Disk × GuardHead × Attempt ℕ → ProvidenceLog
log_of chain_id legacy_file (disk, head, throws e) = record {
  chain_id = chain_id;
  legacy_head = none;
  head = head;
  failure = some e;
  records_since_start = 0;
  line_count = none;
  disk = disk;
}
log_of chain_id legacy_file (disk, head, given count) = record {
  chain_id = chain_id;
  legacy_head = if head.seq == 0 then read_legacy_head legacy_file else none;
  head = head;
  failure = none;
  records_since_start = 0;
  line_count = some count;
  disk = disk;
}

unfoldable pub metadata_of : ProvidenceLog → Option Metadata → Option Metadata
metadata_of log metadata =
    if log.head.seq == 0 && not ((log.legacy_head or_else "") == "")
    then some (insert "legacy_chain_head" (str (log.legacy_head or_else "")) (metadata or_else []))
    else metadata

unfoldable pub record_of : ProvidenceLog → ProvidenceAppendInput → ℕ → ProvidenceRecord
unfolding metadata_of
record_of log input now = record {
  seq = log.head.seq;
  timestamp_ms = now;
  event_type = input.event_type;
  correlation_id = input.correlation_id or_else "";
  device_fingerprint = input.device_fingerprint or_else "";
  session_handle = input.session_id or_else "";
  payload_digest = input.payload_digest or_else "";
  subject_id = input.subject_id or_else "";
  operation_class = input.operation_class or_else "";
  target_hash = input.target_hash or_else "";
  classification = input.classification or_else "";
  reason_code = input.reason_code or_else "";
  payload = input.payload;
  metadata = metadata_of log input.metadata;
  prev_digest = log.head.head_digest;
}

unfoldable pub next_head : ProvidenceLog → String → GuardHead
next_head log digest = record {
  chain_id = log.chain_id;
  seq = log.head.seq + 1;
  head_digest = digest;
}

unfoldable pub advanced : ProvidenceLog → Disk → ProvidenceRecord → String → ProvidenceLog
unfolding next_head
advanced log disk r digest = record log {
  head = next_head log digest;
  records_since_start = log.records_since_start + 1;
  line_count = elim log.line_count [ none ↦ none | some n ↦ some (n + 1) ];
  disk = disk;
}

abbrev failed : ProvidenceLog → Disk → String → ProvidenceLog × Appended
failed log disk reason = (record log { failure = some reason; disk = disk }, unavailable reason)

-- The second `try` of `append`: the record is in the file, and the head is to follow.
abbrev pub settled :
    ProvidenceLog → ProvidenceRecord → String → Disk × Option String → ProvidenceLog × Appended
settled log r digest (disk, some e) = failed log disk (concat ("head did not advance: " ∷ e ∷ []))
settled log r digest (disk, none) = (advanced log disk r digest, appended r digest)

unfoldable pub advance :
    ProvidenceLog → ProvidenceRecord → String → Disk → Replace → ProvidenceLog × Appended
advance log r digest disk io =
    settled log r digest (replace_head disk log.head (next_head log digest) io)

unfoldable pub written :
    ProvidenceLog → ProvidenceRecord → String → Write → Replace → ProvidenceLog × Appended
written log r digest durable io =
    advance log r digest (append_durably log.disk (record_line r) durable) io
written log r digest (fails left e) io =
    failed log (append_durably log.disk (record_line r) (fails left e))
      (concat ("append failed: " ∷ e ∷ []))

module _ (sha256 : Bytes → String) where
  unfoldable pub opened : String → Disk → Write → Disk × GuardHead × Attempt ℕ
  opened chain_id disk write = indexed (fresh_head chain_id) (open_head sha256 chain_id disk write)

  -- The constructor: `none` where it throws.
  unfoldable pub open_log : String → Option Json → Disk → Write → Option ProvidenceLog
  open_log chain_id legacy_file disk write =
      if is_chain_id chain_id
      then some (log_of chain_id legacy_file (opened chain_id disk write))
      else none

  unfoldable pub append :
      ProvidenceLog → ProvidenceAppendInput → ℕ → Write → Replace → ProvidenceLog × Appended
  append log input now write io = elim log.failure [
    | some reason ↦ (log, unavailable reason)
    | none ↦
        let r = record_of log input now in
        if not (input_fits input && record_fits r)
        then (log, rejected)
        else elim (record_digest sha256 r) [
          | none ↦ (log, rejected)
          | some digest ↦ if has_line r then written log r digest write io else (log, rejected)
        ]
  ]

-- `refuseFrom`
unfoldable pub refuse_from : ProvidenceLog → String → ProvidenceLog
refuse_from log reason = record log { failure = some (log.failure or_else reason) }
