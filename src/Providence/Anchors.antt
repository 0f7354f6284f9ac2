-- ===== src/Providence/Anchors.antt =====
-- Signed anchors: `exportAnchor` of log.ts, scheduler.ts and signer.ts of packages/providence-log. The signer is
-- a parameter. An export has two parts, before and after the signer is awaited; other calls run in between.
pub mod Written
pub mod Remembered
pub mod Checks
use openclaw_nie_guard.Common.{
  ℕ, zero, suc, ◌+◌, ◌-◌, ◌*◌, ◌≡◌, String, Option, none, some, Bool, true, false, not, ◌&&◌, ◌||◌,
  List, [], ◌∷◌, ◌++◌, ltb, leb, ◌==◌, nat_eq, string_eq, includes, if◌then◌else◌, is_some,
  ◌or_else◌,
}
use Prim.Native.Char.{Char, code}
use Prim.Native.String
use Prim.Native.Nat.{bit_xor}
use openclaw_nie_guard.Types.{concat, decimal, comma_separated}
use openclaw_nie_guard.Providence.Encoding.{
  Bytes, utf8, head_commitment, anchor_message, hex_pairs, key_id_of,
}
use openclaw_nie_guard.Providence.Disk.{
  Attempt, given, throws, GuardHead, Disk, AnchorFile, Write, durable, fails, Left, nothing, part,
  whole, ProvidenceAnchor,
}
use openclaw_nie_guard.Providence.Log.{ProvidenceLog, refuse_from}

pub record ProvidenceSigner : Type 0 where
  pub algorithm : String
  pub public_key : Bytes
  pub key_id : String
  pub sign : Bytes → Attempt Bytes
  pub verify : Bytes → Bytes → Bool

-- An anchor that waits for its signature.
pub record Pending : Type 0 where
  pub head : GuardHead
  pub commitment : String
  pub timestamp : ℕ
  pub message : String

-- A file written under its name, over an older file of that name.
abbrev pub put_file : AnchorFile → List AnchorFile → List AnchorFile
put_file f [] = f ∷ []
put_file f (g ∷ files) =
    if f.position == g.position && f.timestamp == g.timestamp
    then f ∷ files
    else if ltb f.position g.position || (f.position == g.position && ltb f.timestamp g.timestamp)
    then f ∷ g ∷ files
    else g ∷ put_file f files

-- `writeDurably` of an anchor
abbrev pub write_anchor : Disk → ProvidenceAnchor → Write → Disk × Option String
write_anchor disk anchor write = elim write [
  | durable ↦ (put (some anchor), none)
  | fails nothing e ↦ (disk, some e)
  | fails part e ↦ (put none, some e)
  | fails whole e ↦ (put (some anchor), some e)
]
  where
    put : Option ProvidenceAnchor → Disk
    put content = record disk {
      anchors =
          put_file
            (record {
              position = anchor.head_seq;
              timestamp = anchor.timestamp_ms;
              content = content;
            })
            disk.anchors;
    }

module _ (sha256 : Bytes → String) (signer : ProvidenceSigner) where
  -- `exportAnchor` up to `signer.sign`
  unfoldable pub begin_anchor : ProvidenceLog → ℕ → Attempt Pending
  begin_anchor log now = elim log.failure [
    | some reason ↦ throws reason
    | none ↦ elim (head_commitment sha256 log.head.seq log.head.head_digest log.head.chain_id) [
      | none ↦ throws "the head has no encoding"
      | some commitment ↦
          elim (anchor_message sha256 commitment now signer.algorithm signer.key_id
            signer.public_key) [
              | none ↦ throws "the anchor has no encoding"
              | some message ↦ given (record {
                head = log.head;
                commitment = commitment;
                timestamp = now;
                message = message;
              })
            ]
    ]
  ]

  unfoldable pub anchor_of : Pending → Bytes → ProvidenceAnchor
  anchor_of pending signature = record {
    chain_id = pending.head.chain_id;
    head_seq = pending.head.seq;
    head_digest = pending.head.head_digest;
    commitment = pending.commitment;
    timestamp_ms = pending.timestamp;
    algorithm = signer.algorithm;
    key_id = signer.key_id;
    public_key = signer.public_key;
    signature = signature;
  }

  abbrev pub stored :
      ProvidenceLog → Pending → Write → Attempt Bytes → ProvidenceLog × Option String
  stored log pending write (throws e) = (log, some e)
  stored log pending write (given signature) =
      let (disk, problem) = write_anchor log.disk (anchor_of pending signature) write in
      (record log { disk = disk }, problem)

  -- The rest of `exportAnchor`: why it throws, if it does.
  unfoldable pub end_anchor : ProvidenceLog → Pending → Write → ProvidenceLog × Option String
  unfolding anchor_of
  end_anchor log pending write = stored log pending write (signer.sign (hex_pairs pending.message))

-- `AnchorScheduler`: the last position that was anchored, and the anchor in flight.
pub record AnchorScheduler : Type 0 where
  pub last_anchored_seq : Option ℕ
  pub in_flight : Option Pending
  pub is_stopped : Bool

abbrev pub is_seq : Option ℕ → ℕ → Bool
is_seq none n = false
is_seq (some m) n = m == n

abbrev anchor_failed : ℕ → String → String
anchor_failed seq e = concat ("anchor at " ∷ decimal seq ∷ " failed: " ∷ e ∷ [])

abbrev pub started :
    ProvidenceLog → AnchorScheduler → Attempt Pending → ProvidenceLog × AnchorScheduler
started log scheduler (throws e) = (refuse_from log (anchor_failed log.head.seq e), scheduler)
started log scheduler (given pending) = (log, record scheduler { in_flight = some pending })

abbrev pub finished :
    AnchorScheduler → Pending → ProvidenceLog × Option String → ProvidenceLog × AnchorScheduler
finished scheduler pending (log, some e) =
    (refuse_from log (anchor_failed pending.head.seq e), record scheduler { in_flight = none })
finished scheduler pending (log, none) =
    (log, record scheduler { in_flight = none; last_anchored_seq = some pending.head.seq })

module _ (sha256 : Bytes → String) (signer : ProvidenceSigner) where
  -- `anchorNow`, when the call before it has ended: up to the signer, and from there on.
  unfoldable pub start_anchor :
      ProvidenceLog → AnchorScheduler → ℕ → ProvidenceLog × AnchorScheduler
  start_anchor log scheduler now =
      if is_some log.failure || is_seq scheduler.last_anchored_seq log.head.seq
      then (log, scheduler)
      else started log scheduler (begin_anchor sha256 signer log now)

  unfoldable pub finish_anchor :
      ProvidenceLog → AnchorScheduler → Pending → Write → ProvidenceLog × AnchorScheduler
  finish_anchor log scheduler pending write =
      finished scheduler pending (end_anchor sha256 signer log pending write)

  -- The listener of `start`, on each append, and `stop`.
  unfoldable pub on_append : ProvidenceLog → AnchorScheduler → ℕ → ProvidenceLog × AnchorScheduler
  unfolding start_anchor
  on_append log scheduler now =
      if log.records_since_start == 1 then start_anchor log scheduler now else (log, scheduler)

  unfoldable pub stop : ProvidenceLog → AnchorScheduler → ℕ → ProvidenceLog × AnchorScheduler
  unfolding start_anchor
  stop log scheduler now =
      if scheduler.is_stopped
      then (log, scheduler)
      else start_anchor log (record scheduler { is_stopped = true }) now

-- `anchorIntervalSeconds`, of the text of the variable: `none` where it throws.
abbrev pub decimal_value : ℕ → String → Option ℕ
decimal_value n String.[] = some n
decimal_value n (String.◌∷◌ c s) =
    let rest = decimal_value (n * 10 + (code c - b'0')) s in
    if leb b'0' (code c) && leb (code c) b'9' then rest else none

abbrev pub default_anchor_interval_seconds : ℕ
default_anchor_interval_seconds = 300

abbrev pub max_anchor_interval_seconds : ℕ
max_anchor_interval_seconds = 3600

unfoldable pub anchor_interval_seconds : Option String → Option ℕ
anchor_interval_seconds none = some default_anchor_interval_seconds
anchor_interval_seconds (some raw) =
    if raw == "" then some default_anchor_interval_seconds else elim (decimal_value 0 raw) [
      | none ↦ none
      | some n ↦ if n == 0 || ltb max_anchor_interval_seconds n then none else some n
    ]

-- `signerSelfTest`: the reason of the failure.
abbrev pub self_test_message : Bytes
self_test_message = utf8 "xsoc-aida-guard:providence-signer:self-test:v1"

abbrev pub altered : Bytes → Bytes
altered [] = []
altered (b ∷ bytes) = bit_xor b 1 ∷ bytes

unfoldable pub signer_self_test :
    (Bytes → String) → ProvidenceSigner → Option (List String) → Option String
unfolding key_id_of
signer_self_test sha256 signer allowed =
    if not (is_allowed allowed)
    then some (
        concat (
          "algorithm "
          ∷ signer.algorithm
          ∷ " is not one of "
          ∷ comma_separated (allowed or_else [])
          ∷ []))
    else if not (signer.key_id == key_id_of sha256 signer.public_key)
    then some (concat ("key id " ∷ signer.key_id ∷ " is not the id of the public key" ∷ []))
    else elim (signer.sign self_test_message) [
      | throws e ↦ some (concat ("sign threw: " ∷ e ∷ []))
      | given signature ↦
          if not (signer.verify self_test_message signature)
          then some "a fresh signature does not verify"
          else if signer.verify (altered self_test_message) signature
          then some "a signature verifies over a different message"
          else none
    ]
  where
    is_allowed : Option (List String) → Bool
    is_allowed none = true
    is_allowed (some algorithms) = includes algorithms signer.algorithm
