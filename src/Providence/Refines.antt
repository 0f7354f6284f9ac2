-- ===== src/Providence/Refines.antt =====
-- The log that the routes rely on, Broker.Audit, and the writer of the chain behind it.
pub mod Appends
use openclaw_nie_guard.Common.{
  ℕ, zero, suc, ◌+◌, ◌≡◌, refl, sym, ap, ap₂, ◌∙◌, subst, ◌⊎◌, inl, inr, String, Option, none, some,
  Bool, true, false, List, [], ◌∷◌, ◌++◌, map, length, arith, is_some, ◌≢◌, if◌then◌else◌, ◌==◌,
  nat_eq, string_eq, not, ◌&&◌, insert, Bool-cases, Option-cases, ◌or_else◌,
}
use openclaw_nie_guard.Types.{str, operation_name, classification_name, error_name}
use openclaw_nie_guard.Broker.Audit.{AppendInput, AuditLog}
use openclaw_nie_guard.Broker.Audit
use openclaw_nie_guard.Providence.Records.{ProvidenceAppendInput, ProvidenceRecord, event_name}
use openclaw_nie_guard.Providence.Encoding.{Bytes, string_fields}
use openclaw_nie_guard.Providence.Disk.{
  Disk, Line, record_line, Write, durable, fails, Replace, append_durably, with_line, replace_head,
}
use openclaw_nie_guard.Providence.Log.{
  metadata_of, ProvidenceLog, Appended, appended, unavailable, rejected, append, record_of, written,
  advance, settled, advanced, next_head,
}
use openclaw_nie_guard.Providence.Log.Opening.{Sound}
use openclaw_nie_guard.Providence.Log.Appending.{append-cases, append-Sound, Ready}
use openclaw_nie_guard.Providence.Chain.{Clean}
use openclaw_nie_guard.Providence.Reachable.{accepting-Clean}
use openclaw_nie_guard.Providence.Reopened.{written-lines}
use openclaw_nie_guard.Providence.Recovery.{with_line-whole, length-map}

abbrev pub mapped : {A B : Type 0} → (A → B) → Option A → Option B
mapped f none = none
mapped f (some a) = some (f a)

-- The input of the log that a route's input is.
unfoldable pub input_of : AppendInput → ProvidenceAppendInput
input_of i = record {
  event_type = i.event_type;
  correlation_id = i.correlation_id;
  session_id = i.session_id;
  subject_id = i.subject_id;
  device_fingerprint = i.device_fingerprint;
  payload_digest = i.payload_digest;
  operation_class = mapped operation_name i.operation_class;
  target_hash = i.target_hash;
  classification = mapped classification_name i.classification;
  reason_code = mapped error_name i.reason_code;
  payload = none;
  metadata = i.metadata;
}

-- The metadata of a route's input, to which the first record of a chain may add the head of an earlier one.
abbrev pub MetadataOf : AppendInput → ProvidenceRecord → Type 0
MetadataOf i r =
    (r.metadata ≡ i.metadata)
    ⊎ ((r.seq ≡ 0)
        × ((head : String) × (r.metadata
              ≡ some (insert "legacy_chain_head" (str head) (i.metadata or_else [])))))

-- A line that holds a record of a route's input: its type, its texts, no payload, and its metadata.
abbrev pub Carries : AppendInput → Line → Type 0
Carries i line =
    (r : ProvidenceRecord) × (line ≡ record_line r)
    × (r.event_type ≡ i.event_type)
    × (r.correlation_id ≡ (i.correlation_id or_else ""))
    × (r.device_fingerprint ≡ (i.device_fingerprint or_else ""))
    × (r.session_handle ≡ (i.session_id or_else ""))
    × (r.payload_digest ≡ (i.payload_digest or_else ""))
    × (r.subject_id ≡ (i.subject_id or_else ""))
    × (r.operation_class ≡ (mapped operation_name i.operation_class or_else ""))
    × (r.target_hash ≡ (i.target_hash or_else ""))
    × (r.classification ≡ (mapped classification_name i.classification or_else ""))
    × (r.reason_code ≡ (mapped error_name i.reason_code or_else ""))
    × (r.payload ≡ none)
    × MetadataOf i r

abbrev pub Mirrors : List AppendInput → List Line → Type 0
Mirrors [] [] = Unit
Mirrors (i ∷ is) (line ∷ lines) = Carries i line × Mirrors is lines
Mirrors _ _ = ⊥

pub Mirrors-end :
    (is : List AppendInput) (lines : List Line) (i : AppendInput) (line : Line)
    → Mirrors is lines
    → Carries i line
    → Mirrors (is ++ i ∷ []) (lines ++ line ∷ [])
Mirrors-end [] [] i line h c = (c, tt)
Mirrors-end [] (l ∷ ls) i line h c = absurd h
Mirrors-end (j ∷ js) [] i line h c = absurd h
Mirrors-end (j ∷ js) (l ∷ ls) i line (here, h) c = (here, Mirrors-end js ls i line h c)

pub Mirrors-length :
    (is : List AppendInput) (lines : List Line) → Mirrors is lines → length is ≡ length lines
Mirrors-length [] [] h = refl
Mirrors-length [] (l ∷ ls) h = absurd h
Mirrors-length (j ∷ js) [] h = absurd h
Mirrors-length (j ∷ js) (l ∷ ls) (_, h) = ap suc (Mirrors-length js ls h)

record_of-MetadataOf :
    (log : ProvidenceLog) (i : AppendInput) (now : ℕ)
    → MetadataOf i (record_of log (input_of i) now)
unfolding record_of input_of metadata_of
record_of-MetadataOf log i now =
    elim (Bool-cases (log.head.seq == 0 && not ((log.legacy_head or_else "") == ""))) [
      | inr plain ↦ inl (ground (arith, plain))
      | inl first ↦ inr (ground (arith, first), (log.legacy_head or_else "", ground (arith, first)))
    ]

pub record_of-Carries :
    (log : ProvidenceLog) (i : AppendInput) (now : ℕ)
    → Carries i (record_line (record_of log (input_of i) now))
unfolding record_of input_of
record_of-Carries log i now = (
  record_of log (input_of i) now,
  refl,
  refl,
  refl,
  refl,
  refl,
  refl,
  refl,
  refl,
  refl,
  refl,
  refl,
  refl,
  record_of-MetadataOf log i now,
)

-- The position of a record, where the append returned.
abbrev pub position_of : Appended → Option ℕ
position_of (appended r digest) = some r.seq
position_of _ = none

-- The abstract log holds what the chain file holds while the writer accepts, and refuses when it refuses.
pub record Refines (sha256 : Bytes → String) (audit : AuditLog) (log : ProvidenceLog) : Type 0 where
  pub is_sound : Sound sha256 log
  pub refusal : audit.refuses ≡ is_some log.failure
  pub mirrored : (is_some log.failure ≡ true) ⊎ Mirrors audit.entries log.disk.lines
