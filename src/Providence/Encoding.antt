-- ===== src/Providence/Encoding.antt =====
-- packages/providence-log/src/encoding.ts: the bytes that a record, a head and an anchor are hashed over.
-- SHA-256 is a parameter, from bytes to the lowercase hexadecimal text of the digest. Each function that
-- may throw answers `none` there.
pub mod Hex
pub mod Pieces
pub mod Fields
use Prim.Native.Char.{Char, code}
use Prim.Native.String
use openclaw_nie_guard.Common.{
  ℕ, zero, suc, ◌+◌, ◌-◌, ◌*◌, ◌/◌, ◌%◌, ◌^◌, String, Option, none, some, Bool, true, false, ◌&&◌,
  List, [], ◌∷◌, ◌++◌, map, ltb, leb, length, ◌==◌, nat_eq, if◌then◌else◌, is_some,
}
use openclaw_nie_guard.Types.{Json, first_chars}
use openclaw_nie_guard.Providence.Records.{
  ProvidenceRecord, event_name, hex64, payload_json, metadata_json,
}
use openclaw_nie_guard.Providence.Canonical.{jcs}

abbrev pub Bytes : Type 0
Bytes = List ℕ

-- `Buffer.from(s, 'utf8')`, of one character before `rest`, and of a text.
abbrev pub utf8_char : ℕ → Bytes → Bytes
utf8_char n rest =
    if ltb n 128
    then n ∷ rest
    else if ltb n 2048
    then (192 + n / 64) ∷ (128 + n % 64) ∷ rest
    else if ltb n 65536
    then (224 + n / 4096) ∷ (128 + n / 64 % 64) ∷ (128 + n % 64) ∷ rest
    else (240 + n / 262144) ∷ (128 + n / 4096 % 64) ∷ (128 + n / 64 % 64) ∷ (128 + n % 64) ∷ rest

unfoldable pub utf8 : String → Bytes
utf8 String.[] = []
utf8 (String.◌∷◌ c s) = utf8_char (code c) (utf8 s)

-- The lowest `width` bytes of a number before `rest`, the highest first.
unfoldable pub big_endian : ℕ → ℕ → Bytes → Bytes
big_endian zero n rest = rest
big_endian (suc width) n rest = big_endian width (n / 256) ((n % 256) ∷ rest)

-- `lp`: the length in four bytes, and the bytes. A longer one is out of range of `writeUInt32BE`.
unfoldable pub lp : Bytes → Option Bytes
unfolding big_endian
lp bytes = if ltb (length bytes) (2 ^ 32) then some (big_endian 4 (length bytes) bytes) else none

unfoldable pub u64 : ℕ → Option Bytes
unfolding big_endian
u64 n = if ltb n (2 ^ 53) then some (big_endian 8 n []) else none

abbrev pub hex_value : Char → ℕ
hex_value c = if leb (code c) b'9' then code c - b'0' else code c - b'a' + 10

-- `Buffer.from(s, 'hex')`
unfoldable pub hex_pairs : String → Bytes
hex_pairs (String.◌∷◌ c (String.◌∷◌ d s)) = (16 * hex_value c + hex_value d) ∷ hex_pairs s
hex_pairs _ = []

unfoldable pub hex32 : String → Option Bytes
unfolding hex_pairs
hex32 s = if hex64 s then some (hex_pairs s) else none

-- `blob`
abbrev pub encoded : Option Json → Option Bytes
encoded none = some []
encoded (some v) = elim (jcs v) [ none ↦ none | some text ↦ some (utf8 text) ]

unfoldable pub blob : Option Json → Option Bytes
unfolding jcs utf8 lp
blob v = elim (encoded v) [ none ↦ none | some bytes ↦ lp bytes ]

-- `update` on each piece in order.
unfoldable pub joined : List (Option Bytes) → Option Bytes
joined [] = some []
joined (none ∷ pieces) = none
joined (some piece ∷ pieces) = elim (joined pieces) [
  | none ↦ none
  | some rest ↦ some (piece ++ rest)
]

-- `STRING_FIELDS`
abbrev pub string_fields : ProvidenceRecord → List String
string_fields r =
    event_name r.event_type
    ∷ r.correlation_id
    ∷ r.device_fingerprint
    ∷ r.session_handle
    ∷ r.payload_digest
    ∷ r.subject_id
    ∷ r.operation_class
    ∷ r.target_hash
    ∷ r.classification
    ∷ r.reason_code
    ∷ []

abbrev pub text_piece : String → Option Bytes
text_piece s = lp (utf8 s)

abbrev pub record_domain : String
record_domain = "xsoc-aida-guard:providence-record:v3"

abbrev pub head_domain : String
head_domain = "xsoc-aida-guard:providence-head:v1"

abbrev pub anchor_domain : String
anchor_domain = "xsoc-aida-guard:providence-anchor:v1"

abbrev pub json_of : {A : Type 0} → (A → Json) → Option A → Option Json
json_of to_json none = none
json_of to_json (some a) = some (to_json a)

unfoldable pub last_pieces : ProvidenceRecord → List (Option Bytes)
unfolding blob hex32
last_pieces r =
    blob (json_of payload_json r.payload)
    ∷ blob (json_of metadata_json r.metadata)
    ∷ hex32 r.prev_digest
    ∷ []

-- What `recordDigest` hashes, piece by piece.
unfoldable pub record_pieces : ProvidenceRecord → List (Option Bytes)
unfolding lp utf8 u64 big_endian last_pieces
record_pieces r =
    text_piece record_domain
      ∷ some (big_endian 2 2 [])
      ∷ u64 r.seq
      ∷ u64 r.timestamp_ms
      ∷ map text_piece (string_fields r)
    ++ last_pieces r

unfoldable pub preimage : ProvidenceRecord → Option Bytes
unfolding record_pieces joined
preimage r = joined (record_pieces r)

unfoldable pub head_pieces : ℕ → String → String → List (Option Bytes)
unfolding lp utf8 u64 hex32
head_pieces seq head_digest chain_id =
    text_piece head_domain ∷ u64 seq ∷ hex32 head_digest ∷ text_piece chain_id ∷ []

unfoldable pub anchor_pieces : String → ℕ → String → String → Bytes → List (Option Bytes)
unfolding lp utf8 u64 hex32
anchor_pieces commitment timestamp_ms algorithm key_id public_key =
    text_piece anchor_domain
    ∷ hex32 commitment
    ∷ u64 timestamp_ms
    ∷ text_piece algorithm
    ∷ text_piece key_id
    ∷ lp public_key
    ∷ []

-- `Buffer.alloc(32)` in hexadecimal
abbrev pub genesis_digest : String
genesis_digest = "0000000000000000000000000000000000000000000000000000000000000000"

-- `recordLine`, which throws where a blob has no encoding.
unfoldable pub has_line : ProvidenceRecord → Bool
unfolding jcs utf8
has_line r =
    is_some (encoded (json_of payload_json r.payload))
    && is_some (encoded (json_of metadata_json r.metadata))

module _ (sha256 : Bytes → String) where
  abbrev hashed : Option Bytes → Option String
  hashed none = none
  hashed (some bytes) = some (sha256 bytes)

  unfoldable pub record_digest : ProvidenceRecord → Option String
  unfolding preimage
  record_digest r = hashed (preimage r)

  unfoldable pub head_commitment : ℕ → String → String → Option String
  unfolding head_pieces joined
  head_commitment seq head_digest chain_id = hashed (joined (head_pieces seq head_digest chain_id))

  unfoldable pub anchor_message : String → ℕ → String → String → Bytes → Option String
  unfolding anchor_pieces joined
  anchor_message commitment timestamp_ms algorithm key_id public_key =
      hashed (joined (anchor_pieces commitment timestamp_ms algorithm key_id public_key))

  unfoldable pub key_id_of : Bytes → String
  unfolding first_chars
  key_id_of public_key = first_chars 16 (sha256 public_key)
