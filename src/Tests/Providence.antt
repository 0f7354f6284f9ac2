-- ===== src/Tests/Providence.antt =====
-- The Providence log run on concrete inputs: a stand-in for SHA-256, a chain with one record, a signer.
use openclaw_nie_guard.Common.{
  inr, ◌≢◌, ap, sym, is_some, arith, ◌+◌, ◌≡◌, ◌≤◌, ◌↔◌, ◌⊎◌, refl, String, none, some, true, false,
  [], ◌∷◌, ◌++◌, ◌==◌, nat_eq, includes, string_eq, ◌or_else◌, All, length,
}
use openclaw_nie_guard.Types.{str, utf16_length}
use openclaw_nie_guard.Broker.Audit.{EventType, is_device_fingerprint, AuditLog, AppendInput}
use openclaw_nie_guard.Broker.Audit
use openclaw_nie_guard.Providence.Refines.{input_of, position_of, Refines}
use openclaw_nie_guard.Providence.Refines.Appends.{Both, append-Refines}
use openclaw_nie_guard.Providence.Records.{
  ProvidenceAppendInput, ProvidenceRecord, safe_int, hex64, input_fits, record_fits,
}
use openclaw_nie_guard.Providence.Encoding.{
  Bytes, preimage, genesis_digest, record_digest, key_id_of, has_line, head_commitment,
}
use openclaw_nie_guard.Providence.Canonical.{sort_members}
use openclaw_nie_guard.Providence.Encoding.Fields.{SameFields, preimage_injective}
use openclaw_nie_guard.Providence.Disk.{
  empty_disk, holds, durable, fails, nothing, replaced, record_line, given, is_chain_id, open_head,
  index_lines, checked_head, append_durably, replace_head,
}
use openclaw_nie_guard.Providence.Log.{
  Appended, rejected, ProvidenceLog, open_log, opened, append, record_of, written, advance,
  advanced, read_legacy_head,
}
use openclaw_nie_guard.Providence.Log.Opening.{Sound}
use openclaw_nie_guard.Providence.Chain.{Clean, Chained}
use openclaw_nie_guard.Providence.Reachable.{
  Steps, here, next, appends, new_scheduler, accepted_chain, reachable-Sound,
}
use openclaw_nie_guard.Providence.Reopened.{Grown, lines_only_grow}
use openclaw_nie_guard.Providence.Recovery.{append_then_reopen}
use openclaw_nie_guard.Providence.Recovery.Reopening.{reopened}
use openclaw_nie_guard.Providence.Tamper.{AllSame, Collision, head_determines_chain}
use openclaw_nie_guard.Providence.Page.Slices.{Answered, HoldsAnchor, page_of_chain}
use openclaw_nie_guard.Providence.Anchors.{
  ProvidenceSigner, anchor_interval_seconds, signer_self_test, self_test_message, altered,
}
use openclaw_nie_guard.Providence.Anchors.Remembered.{Run, anchored_or_refuses}
use openclaw_nie_guard.Providence.Anchors.Checks.{anchor_interval-Bound, signer_self_test_lem}

abbrev sha : Bytes → String
sha bytes = genesis_digest

abbrev chain : String
chain = "aida-guard/test"

abbrev start_log : ProvidenceLog
start_log = record {
  chain_id = chain;
  legacy_head = none;
  head = record { chain_id = chain; seq = 0; head_digest = genesis_digest };
  failure = none;
  records_since_start = 0;
  line_count = some 0;
  disk = record empty_disk {
    head_file = holds (record { chain_id = chain; seq = 0; head_digest = genesis_digest });
  };
}

opens : open_log sha chain none empty_disk durable ≡ some start_log
unfolding open_log opened open_head index_lines is_chain_id read_legacy_head checked_head
opens = refl

abbrev admit_input : ProvidenceAppendInput
admit_input = record {
  event_type = EventType.admit;
  correlation_id = some "c-1";
  session_id = none;
  subject_id = some "operator";
  device_fingerprint = none;
  payload_digest = none;
  operation_class = none;
  target_hash = none;
  classification = none;
  reason_code = none;
  payload = none;
  metadata = some (("role", str "analyst") ∷ []);
}

abbrev one_record : ProvidenceLog
one_record = (append sha start_log admit_input 1000 durable replaced).0

abbrev to_one : Steps sha (start_log, new_scheduler) (one_record, new_scheduler)
to_one = next here (appends start_log new_scheduler admit_input 1000 durable replaced)

one_record-accepts : one_record.failure ≡ none
unfolding append input_fits record_of record_fits record_digest has_line written append_durably
    advance advanced replace_head is_device_fingerprint utf16_length sort_members is_chain_id
one_record-accepts = refl

accepted_chain_example :
    Clean sha one_record.disk one_record.head × (one_record.head.chain_id ≡ one_record.chain_id)
accepted_chain_example =
    accepted_chain sha chain none durable start_log one_record new_scheduler opens to_one
      one_record-accepts

one_record-Sound : Sound sha one_record
one_record-Sound =
    reachable-Sound sha chain none durable start_log one_record new_scheduler opens to_one

lines_only_grow_example : Grown start_log.disk.lines one_record.disk.lines
lines_only_grow_example = lines_only_grow sha to_one

-- A second append whose line is cut off, and then the directory is opened again: it refuses.
abbrev first_record : ProvidenceRecord
first_record = record_of start_log admit_input 1000

abbrev cut_off : ProvidenceLog
cut_off = (append sha start_log admit_input 1000 (fails nothing "disk full") replaced).0

cut_off-opens : open_log sha chain none cut_off.disk durable ≡ some start_log
unfolding open_log opened open_head index_lines read_legacy_head checked_head append input_fits
    record_of record_fits record_digest has_line written append_durably advance advanced
    replace_head is_device_fingerprint utf16_length sort_members is_chain_id
cut_off-opens = refl

start_log-Sound : Sound sha start_log
start_log-Sound =
    reachable-Sound sha chain none durable start_log start_log new_scheduler opens here

append_then_reopen_example :
    ((start_log.disk.lines ≡ start_log.disk.lines)
      × (start_log.head.seq ≡ start_log.head.seq)
      × (start_log.head.head_digest ≡ start_log.head.head_digest))
    ⊎ ((start_log.disk.lines ≡ start_log.disk.lines ++ record_line first_record ∷ [])
        × (start_log.head.seq ≡ start_log.head.seq + 1)
        × (record_digest sha first_record ≡ some start_log.head.head_digest))
append_then_reopen_example =
    append_then_reopen sha start_log start_log admit_input 1000 (fails nothing "disk full") replaced
      chain none durable start_log-Sound refl cut_off-opens refl

sha_is_hex : (bytes : Bytes) → hex64 (sha bytes) ≡ true
unfolding is_device_fingerprint utf16_length
sha_is_hex bytes = refl

one_record-chain : is_chain_id one_record.chain_id ≡ true
unfolding open_log opened open_head index_lines read_legacy_head checked_head append input_fits
    record_of record_fits record_digest has_line written append_durably advance advanced
    replace_head is_device_fingerprint utf16_length sort_members is_chain_id
one_record-chain = refl

one_record-safe : safe_int one_record.head.seq ≡ true
unfolding append input_fits record_of record_fits record_digest has_line written append_durably
    advance advanced replace_head is_device_fingerprint utf16_length sort_members is_chain_id
one_record-safe = refl

reopened_example :
    (log' : ProvidenceLog) × (open_log sha one_record.chain_id none one_record.disk durable
      ≡ some log')
    × (log'.failure ≡ none)
    × (log'.head ≡ one_record.head)
reopened_example =
    reopened sha one_record none durable sha_is_hex one_record-Sound one_record-accepts
      one_record-chain one_record-safe

first_record-bytes : preimage first_record ≡ some (preimage first_record or_else [])
unfolding preimage record_of is_device_fingerprint utf16_length sort_members
first_record-bytes = refl

preimage_injective_example : SameFields first_record first_record
preimage_injective_example =
    preimage_injective first_record first_record (preimage first_record or_else [])
      first_record-bytes first_record-bytes

first_record-Chained : Chained sha 0 genesis_digest (first_record ∷ []) genesis_digest
unfolding record_of record_fits record_digest is_device_fingerprint utf16_length sort_members
first_record-Chained = (refl, refl, refl, (genesis_digest, refl, refl))

head_determines_chain_example : AllSame sha (first_record ∷ []) (first_record ∷ []) ⊎ Collision sha
head_determines_chain_example =
    head_determines_chain sha (first_record ∷ []) (first_record ∷ []) genesis_digest refl
      first_record-Chained first_record-Chained

one_record-commitment :
    head_commitment sha one_record.head.seq one_record.head.head_digest one_record.head.chain_id
    ≡ some genesis_digest
unfolding head_commitment append input_fits record_of record_fits record_digest has_line written
    append_durably advance advanced replace_head is_device_fingerprint utf16_length sort_members
    is_chain_id
one_record-commitment = refl

one_record-anchors : All HoldsAnchor one_record.disk.anchors
unfolding append input_fits record_of record_fits record_digest has_line written append_durably
    advance advanced replace_head is_device_fingerprint utf16_length sort_members is_chain_id
one_record-anchors = tt

small : safe_int 0 ≡ true
small = refl

page_of_chain_example : Answered sha one_record 0 10 genesis_digest
page_of_chain_example =
    page_of_chain sha one_record 0 10 genesis_digest one_record-Sound one_record-accepts
      one_record-anchors one_record-commitment refl refl refl

-- A signer whose signature is the message.
abbrev echo : ProvidenceSigner
echo = record {
  algorithm = "Ed25519";
  public_key = 1 ∷ 2 ∷ [];
  key_id = "0000000000000000";
  sign = λ message. given message;
  verify = λ message signature. length message == length signature;
}

anchored_or_refuses_example :
    Run sha echo one_record one_record new_scheduler new_scheduler 2000 durable
anchored_or_refuses_example =
    anchored_or_refuses sha echo start_log one_record one_record new_scheduler new_scheduler 2000
      durable to_one

one_minute : anchor_interval_seconds (some "60") ≡ some 60
unfolding anchor_interval_seconds
one_minute = refl

anchor_interval-Bound_example : (1 ≤ 60) × (60 ≤ 3600)
anchor_interval-Bound_example = anchor_interval-Bound (some "60") 60 one_minute

signer_self_test_lem_example : (signer_self_test sha echo (some ("Ed25519" ∷ [])) ≡ none) ↔ (
    (includes ("Ed25519" ∷ []) echo.algorithm ≡ true)
    × (echo.key_id ≡ key_id_of sha echo.public_key)
    × ((signature : Bytes) × (echo.sign self_test_message ≡ given signature)
        × (echo.verify self_test_message signature ≡ true)
        × (echo.verify (altered self_test_message) signature ≡ false)))
signer_self_test_lem_example = signer_self_test_lem sha echo ("Ed25519" ∷ [])

abbrev audit_log : AuditLog
audit_log = record { entries = []; refuses = false; is_durable = λ position. true }

abbrev admission : AppendInput
admission = record {
  event_type = EventType.admit;
  correlation_id = some "c-1";
  session_id = none;
  subject_id = some "operator";
  device_fingerprint = none;
  payload_digest = none;
  operation_class = none;
  target_hash = none;
  classification = none;
  reason_code = none;
  metadata = none;
}

start_log-Refines : Refines sha audit_log start_log
start_log-Refines = record { is_sound = start_log-Sound; refusal = refl; mirrored = inr tt }

abbrev admission_run : ProvidenceLog × Appended
admission_run = append sha start_log (input_of admission) 1000 durable replaced

admission_position : position_of admission_run.1 ≡ some 0
unfolding input_of append input_fits record_of record_fits record_digest has_line written
    append_durably advance advanced replace_head is_device_fingerprint utf16_length sort_members
    is_chain_id
admission_position = refl

admission_taken : admission_run.1 ≢ rejected
admission_taken e = absurd (ground (arith, ap position_of e, admission_position))

append-Refines_example : Both sha (Audit.append audit_log admission) admission_run
append-Refines_example =
    append-Refines sha audit_log start_log admission 1000 durable replaced start_log-Refines
      admission_taken (ap is_some (sym admission_position))
