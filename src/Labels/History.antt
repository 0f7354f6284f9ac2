-- ===== src/Labels/History.antt =====
-- The labels after a whole history of registrations, against what the history itself says. Nothing in
-- the broker lowers a label: `forget` is not called by any route, so a history holds registrations only.
use openclaw_nie_guard.Common.{
  ℕ, ◌≡◌, refl, String, Option, none, some, Bool, ◌&&◌, ◌||◌, List, [], ◌∷◌, any, find, includes,
  ◌==◌, string_eq, if◌then◌else◌, is_some, lookup, arith, eq_iff,
}
use mathlib.Core.Option
use openclaw_nie_guard.Lineage.{is_tainted as label_is_tainted}
use openclaw_nie_guard.Lineage.Order.{is_tainted-join}
use openclaw_nie_guard.Labels.{
  SessionLabelEntry, SessionLabelStore, Element, get, label_or_bottom, existing_tainted_at,
  first_some, join_elements, ancestors, is_tainted, accumulate,
}
use openclaw_nie_guard.Labels.Joins.{
  is_untrusted, carries, registered_entry, tainted_at-registered_entry, lookup-join_elements,
  is_tainted-join_elements, ancestors-join_elements, is_tainted-get, label-registered_entry,
  is_tainted-accumulate,
}

pub record Registration : Type 0 where
  pub session_id : String
  pub elements : List Element
  pub correlation_id : Option String
  pub now : ℕ

abbrev pub register : SessionLabelStore → Registration → SessionLabelStore
register labels r = (join_elements labels r.session_id r.elements r.correlation_id r.now).0

unfoldable pub run : SessionLabelStore → List Registration → SessionLabelStore
run labels [] = labels
run labels (r ∷ rs) = run (register labels r) rs

-- A registration in the session with an element of an untrusted origin.
abbrev pub exposes : String → Registration → Bool
exposes session_id r = r.session_id == session_id && any is_untrusted r.elements

is_tainted-run :
    (labels : SessionLabelStore) (rs : List Registration) (session_id : String)
    → is_tainted (run labels rs) session_id
      ≡ (is_tainted labels session_id || any (exposes session_id) rs)
unfolding run
is_tainted-run labels [] session_id = ground arith
is_tainted-run labels (r ∷ rs) session_id = ground (
  arith,
  is_tainted-run (register labels r) rs session_id,
  is_tainted-join_elements labels r.session_id r.elements r.correlation_id r.now session_id,
)

ancestors-run :
    (labels : SessionLabelStore) (rs : List Registration) (session_id h : String)
    → includes (ancestors (run labels rs) session_id) h ≡ (
        includes (ancestors labels session_id) h
        || any (λ r. r.session_id == session_id && any (carries h) r.elements) rs)
unfolding run
ancestors-run labels [] session_id h = ground arith
ancestors-run labels (r ∷ rs) session_id h = ground (
  arith,
  ancestors-run (register labels r) rs session_id h,
  ancestors-join_elements labels r.session_id r.elements r.correlation_id r.now session_id h,
)

-- After any history of registrations, a session is tainted exactly if some registration of the history
-- in that session had an element of an untrusted origin, and its untrusted ancestors are exactly the
-- non-empty content hashes of such elements of such registrations.
pub taint_history :
    (rs : List Registration) (session_id : String)
    → (is_tainted (run [] rs) session_id ≡ any (exposes session_id) rs)
      × ((h : String)
          → includes (ancestors (run [] rs) session_id) h
            ≡ any (λ r. r.session_id == session_id && any (carries h) r.elements) rs)
taint_history rs session_id = (
  unfold is_tainted lookup in is_tainted-run [] rs session_id,
  λ h. unfold ancestors lookup in ancestors-run [] rs session_id h,
)

-- The stamp of a session is there exactly if the session is tainted.
abbrev IsStamped : SessionLabelStore → String → Type 0
IsStamped labels session_id =
    is_some (existing_tainted_at (lookup session_id labels)) ≡ is_tainted labels session_id

is_tainted-registered_entry :
    (existing : Option SessionLabelEntry) (elements : List Element) (correlation_id : Option String)
    (now : ℕ)
    → label_is_tainted (registered_entry existing elements correlation_id now).label
      ≡ (label_is_tainted (label_or_bottom existing) || any is_untrusted elements)
is_tainted-registered_entry existing elements correlation_id now =
    let before = label_or_bottom existing in
    ground (
      arith,
      label-registered_entry existing elements correlation_id now,
      is_tainted-join before (accumulate before [] elements).0,
      is_tainted-accumulate before [] elements,
    )

is_tainted-lookup :
    (labels : SessionLabelStore) (session_id : String)
    → is_tainted labels session_id ≡ label_is_tainted (label_or_bottom (lookup session_id labels))
unfolding get
is_tainted-lookup labels session_id = is_tainted-get labels session_id

-- The first exposing registration stamps the session, and no later one does.
tainted_at-register :
    (labels : SessionLabelStore) (r : Registration) (session_id : String)
    → IsStamped labels session_id
    → (existing_tainted_at (lookup session_id (register labels r))
        ≡ first_some
            (existing_tainted_at (lookup session_id labels))
            (if exposes session_id r then some r.now else none))
      × IsStamped (register labels r) session_id
tainted_at-register labels r session_id h =
    let old = lookup session_id labels in
    ground (
      arith,
      lookup-join_elements labels r.session_id session_id r.elements r.correlation_id r.now,
      eq_iff r.session_id session_id,
      tainted_at-registered_entry old r.elements r.correlation_id r.now,
      is_tainted-registered_entry old r.elements r.correlation_id r.now,
      is_tainted-lookup labels session_id,
      is_tainted-lookup (register labels r) session_id,
    )

tainted_at-run :
    (labels : SessionLabelStore) (rs : List Registration) (session_id : String)
    → IsStamped labels session_id
    → existing_tainted_at (lookup session_id (run labels rs))
      ≡ first_some
          (existing_tainted_at (lookup session_id labels))
          (Option.map (λ r. r.now) (find (exposes session_id) rs))
unfolding run
tainted_at-run labels [] session_id h = ground arith
tainted_at-run labels (r ∷ rs) session_id h =
    let (here, stamped) = tainted_at-register labels r session_id h in
    ground (arith, here, tainted_at-run (register labels r) rs session_id stamped)

-- After any history of registrations, the time at which a session is said to have become tainted is the
-- time of the first registration in it with an element of an untrusted origin; there is none if there
-- is no such registration.
pub taint_stamp_history :
    (rs : List Registration) (session_id : String)
    → existing_tainted_at (lookup session_id (run [] rs))
      ≡ Option.map (λ r. r.now) (find (exposes session_id) rs)
unfolding lookup
taint_stamp_history rs session_id = tainted_at-run [] rs session_id (unfold is_tainted in refl)
