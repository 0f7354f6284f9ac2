-- ===== src/Providence/Encoding/Fields.antt =====
-- The bytes of a record determine its fields, and those of a head and of an anchor theirs.
use openclaw_nie_guard.Common.{
  ℕ, ◌≡◌, refl, sym, ap, ◌∙◌, String, Option, some, List, [], ◌∷◌, ◌++◌, map, length, ap₂,
  Option-cases, inl, inr, arith,
}
use openclaw_nie_guard.Types.{Json}
use openclaw_nie_guard.Providence.Records.{
  ProvidenceRecord, event_name, payload_json, metadata_json,
}
use openclaw_nie_guard.Providence.Encoding.{
  Bytes, utf8, lp, big_endian, blob, encoded, joined, text_piece, string_fields, last_pieces,
  json_of, record_pieces, preimage, head_pieces, anchor_pieces, record_domain, head_domain,
  anchor_domain,
}
use openclaw_nie_guard.Providence.Encoding.Pieces.{
  Splits, AllSplit, Agree, joined-Agree, lp-Splits, lp_injective, u64-Splits, u64_injective,
  constant-Splits, utf8_injective,
}
use openclaw_nie_guard.Providence.Encoding.Hex.{hex32-Splits, hex32_injective}

pub text_injective :
    (s t : String) → ((b : Bytes) × (text_piece s ≡ some b) × (text_piece t ≡ some b)) → s ≡ t
text_injective s t (b, pb, qb) = utf8_injective s t (lp_injective (utf8 s) (utf8 t) b pb qb)

blob-some :
    (v : Option Json) (a : Bytes)
    → blob v ≡ some a
    → (bytes : Bytes) × (encoded v ≡ some bytes) × (lp bytes ≡ some a)
unfolding blob
blob-some v a e = elim (Option-cases (encoded v)) [
  | inl stuck ↦ absurd (ground arith)
  | inr (bytes, is_bytes) ↦ (bytes, is_bytes, ground arith)
]

blob-Splits : (v w : Option Json) → Splits (blob v) (blob w)
blob-Splits v w a b xs ys pa qb e =
    let (x, _, is_a) = blob-some v a pa in
    let (y, _, is_b) = blob-some w b qb in lp-Splits x y a b xs ys is_a is_b e

-- Equal blobs are of values with the same canonical form, and both have one.
blob_injective :
    (v w : Option Json)
    → ((b : Bytes) × (blob v ≡ some b) × (blob w ≡ some b))
    → encoded v ≡ encoded w
blob_injective v w (b, pb, qb) =
    let (x, is_x, is_b) = blob-some v b pb in
    let (y, is_y, is_b') = blob-some w b qb in
    is_x ∙ ap some (lp_injective x y b is_b is_b') ∙ sym is_y

abbrev text_Splits : (s t : String) → Splits (text_piece s) (text_piece t)
text_Splits s t = lp-Splits (utf8 s) (utf8 t)

-- Two records have the same texts.
abbrev pub SameTexts : ProvidenceRecord → ProvidenceRecord → Type 0
SameTexts r q =
    (event_name r.event_type ≡ event_name q.event_type)
    × (r.correlation_id ≡ q.correlation_id)
    × (r.device_fingerprint ≡ q.device_fingerprint)
    × (r.session_handle ≡ q.session_handle)
    × (r.payload_digest ≡ q.payload_digest)
    × (r.subject_id ≡ q.subject_id)
    × (r.operation_class ≡ q.operation_class)
    × (r.target_hash ≡ q.target_hash)
    × (r.classification ≡ q.classification)
    × (r.reason_code ≡ q.reason_code)

string_fields-SameTexts :
    (r q : ProvidenceRecord) → string_fields r ≡ string_fields q → SameTexts r q
string_fields-SameTexts r q h = (
  ground (arith, h),
  ground (arith, h),
  ground (arith, h),
  ground (arith, h),
  ground (arith, h),
  ground (arith, h),
  ground (arith, h),
  ground (arith, h),
  ground (arith, h),
  ground (arith, h),
)

-- The fields of two records are equal, the payload and the metadata up to canonical form.
abbrev pub SameFields : ProvidenceRecord → ProvidenceRecord → Type 0
SameFields r q =
    (r.seq ≡ q.seq)
    × (r.timestamp_ms ≡ q.timestamp_ms)
    × SameTexts r q
    × (encoded (json_of payload_json r.payload) ≡ encoded (json_of payload_json q.payload))
    × (encoded (json_of metadata_json r.metadata) ≡ encoded (json_of metadata_json q.metadata))
    × (r.prev_digest ≡ q.prev_digest)

texts-AllSplit :
    (xs ys : List String) (ps qs : List (Option Bytes))
    → length xs ≡ length ys
    → AllSplit ps qs
    → AllSplit (map text_piece xs ++ ps) (map text_piece ys ++ qs)
texts-AllSplit [] [] ps qs same h = h
texts-AllSplit [] (y ∷ ys) ps qs same h = absurd (omega arith)
texts-AllSplit (x ∷ xs) [] ps qs same h = absurd (omega arith)
texts-AllSplit (x ∷ xs) (y ∷ ys) ps qs same h =
    (text_Splits x y, texts-AllSplit xs ys ps qs (omega arith) h)

texts-Agree :
    (xs ys : List String) (ps qs : List (Option Bytes))
    → length xs ≡ length ys
    → Agree (map text_piece xs ++ ps) (map text_piece ys ++ qs)
    → (xs ≡ ys) × Agree ps qs
texts-Agree [] [] ps qs same h = (refl, h)
texts-Agree [] (y ∷ ys) ps qs same h = absurd (omega arith)
texts-Agree (x ∷ xs) [] ps qs same h = absurd (omega arith)
texts-Agree (x ∷ xs) (y ∷ ys) ps qs same (here, h) =
    let (rest, after) = texts-Agree xs ys ps qs (omega arith) h in
    (ap₂ (λ z zs. z ∷ zs) (text_injective x y here) rest, after)

record_pieces-AllSplit : (r q : ProvidenceRecord) → AllSplit (record_pieces r) (record_pieces q)
unfolding record_pieces last_pieces
record_pieces-AllSplit r q = (
  text_Splits record_domain record_domain,
  (
    constant-Splits (big_endian 2 2 []),
    (
      u64-Splits r.seq q.seq,
      (
        u64-Splits r.timestamp_ms q.timestamp_ms,
        texts-AllSplit (string_fields r) (string_fields q) (last_pieces r) (last_pieces q) refl (
          blob-Splits (json_of payload_json r.payload) (json_of payload_json q.payload),
          (
            blob-Splits (json_of metadata_json r.metadata) (json_of metadata_json q.metadata),
            (hex32-Splits r.prev_digest q.prev_digest, tt),
          ),
        ),
      ),
    ),
  ),
)

pieces-SameFields :
    (r q : ProvidenceRecord) → Agree (record_pieces r) (record_pieces q) → SameFields r q
unfolding record_pieces last_pieces
pieces-SameFields r q (_, (_, ((b, ps, qs), ((b', pt, qt), fields)))) =
    let (texts, (payload, (metadata, ((b'', pp, qp), _)))) =
      texts-Agree (string_fields r) (string_fields q) (last_pieces r) (last_pieces q) refl fields in
    (
      u64_injective r.seq q.seq b ps qs,
      u64_injective r.timestamp_ms q.timestamp_ms b' pt qt,
      string_fields-SameTexts r q texts,
      blob_injective (json_of payload_json r.payload) (json_of payload_json q.payload) payload,
      blob_injective (json_of metadata_json r.metadata) (json_of metadata_json q.metadata) metadata,
      hex32_injective r.prev_digest q.prev_digest b'' pp qp,
    )

-- Two records that are hashed over the same bytes have the same position, time, texts and link, and payloads and metadata with the same canonical form.
pub preimage_injective :
    (r q : ProvidenceRecord) (bytes : Bytes)
    → preimage r ≡ some bytes
    → preimage q ≡ some bytes
    → SameFields r q
unfolding preimage
preimage_injective r q bytes e e' =
    pieces-SameFields r q
      (joined-Agree (record_pieces r) (record_pieces q) bytes (record_pieces-AllSplit r q) e e')

head_pieces-AllSplit :
    (seq seq' : ℕ) (head head' chain chain' : String)
    → AllSplit (head_pieces seq head chain) (head_pieces seq' head' chain')
unfolding head_pieces
head_pieces-AllSplit seq seq' head head' chain chain' = (
  text_Splits head_domain head_domain,
  (u64-Splits seq seq', (hex32-Splits head head', (text_Splits chain chain', tt))),
)

pieces_of_head :
    (seq seq' : ℕ) (head head' chain chain' : String)
    → Agree (head_pieces seq head chain) (head_pieces seq' head' chain')
    → (seq ≡ seq') × (head ≡ head') × (chain ≡ chain')
unfolding head_pieces
pieces_of_head seq seq' head head' chain chain' (_, ((b, ps, qs), ((b', ph, qh), (c, _)))) = (
  u64_injective seq seq' b ps qs,
  hex32_injective head head' b' ph qh,
  text_injective chain chain' c,
)

-- A head commitment is over the position, the digest and the chain's name: equal bytes, equal heads.
pub head_injective :
    (seq seq' : ℕ) (head head' chain chain' : String) (bytes : Bytes)
    → joined (head_pieces seq head chain) ≡ some bytes
    → joined (head_pieces seq' head' chain') ≡ some bytes
    → (seq ≡ seq') × (head ≡ head') × (chain ≡ chain')
head_injective seq seq' head head' chain chain' bytes e e' =
    pieces_of_head seq seq' head head' chain chain'
      (joined-Agree _ _ bytes (head_pieces-AllSplit seq seq' head head' chain chain') e e')

anchor_pieces-AllSplit :
    (c c' : String) (t t' : ℕ) (a a' k k' : String) (p p' : Bytes)
    → AllSplit (anchor_pieces c t a k p) (anchor_pieces c' t' a' k' p')
unfolding anchor_pieces
anchor_pieces-AllSplit c c' t t' a a' k k' p p' = (
  text_Splits anchor_domain anchor_domain,
  (
    hex32-Splits c c',
    (u64-Splits t t', (text_Splits a a', (text_Splits k k', (lp-Splits p p', tt)))),
  ),
)

pieces_of_anchor :
    (c c' : String) (t t' : ℕ) (a a' k k' : String) (p p' : Bytes)
    → Agree (anchor_pieces c t a k p) (anchor_pieces c' t' a' k' p')
    → (c ≡ c') × (t ≡ t') × (a ≡ a') × (k ≡ k') × (p ≡ p')
unfolding anchor_pieces
pieces_of_anchor c c' t t' a a' k k' p p'
      (_, ((b, pc, qc), ((b', pt, qt), (algorithm, (key, ((b'', pp, qp), _)))))) =
    (
      hex32_injective c c' b pc qc,
      u64_injective t t' b' pt qt,
      text_injective a a' algorithm,
      text_injective k k' key,
      lp_injective p p' b'' pp qp,
    )

-- What a signer signs for an anchor determines the commitment, the time, the algorithm, the key id and the public key.
pub anchor_injective :
    (c c' : String) (t t' : ℕ) (a a' k k' : String) (p p' : Bytes) (bytes : Bytes)
    → joined (anchor_pieces c t a k p) ≡ some bytes
    → joined (anchor_pieces c' t' a' k' p') ≡ some bytes
    → (c ≡ c') × (t ≡ t') × (a ≡ a') × (k ≡ k') × (p ≡ p')
anchor_injective c c' t t' a a' k k' p p' bytes e e' =
    pieces_of_anchor c c' t t' a a' k k' p p'
      (joined-Agree _ _ bytes (anchor_pieces-AllSplit c c' t t' a a' k k' p p') e e')
