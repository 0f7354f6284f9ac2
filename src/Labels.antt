-- ===== src/Labels.antt =====
-- apps/broker/src/services/labels.ts: the taint label of each session. The store is passed along; the
-- clock and the correlation id of a call are its arguments.
pub mod Joins
pub mod History
use openclaw_nie_guard.Common.{
  ℕ, zero, String, Option, none, some, Bool, true, false, ◌&&◌, not, List, [], ◌∷◌, ◌++◌, any,
  distinct, ◌==◌, string_eq, if◌then◌else◌, ◌or_else◌, Map, lookup, insert, retain, length, ltb,
}
use openclaw_nie_guard.Types.{Classification, Origin}
use openclaw_nie_guard.Lineage.{Label, bottom, is_untrusted_origin, join as join_labels}

pub record SessionLabelEntry : Type 0 where
  pub label : Label
  pub tainted_at : Option ℕ
  pub tainted_by : Option String
  pub untrusted_ancestors : List String

abbrev pub SessionLabelStore : Type 0
SessionLabelStore = Map String SessionLabelEntry

-- What `joinElements` reads of a registered element.
pub record Element : Type 0 where
  pub provenance : Origin
  pub classification : Classification
  pub content_hash : Option String

abbrev label_or_bottom : Option SessionLabelEntry → Label
label_or_bottom none = bottom
label_or_bottom (some entry) = entry.label

abbrev ancestors_or_empty : Option SessionLabelEntry → List String
ancestors_or_empty none = []
ancestors_or_empty (some entry) = entry.untrusted_ancestors

unfoldable pub get : SessionLabelStore → String → Label
get labels session_id = label_or_bottom (lookup session_id labels)

abbrev pub existing_tainted_at : Option SessionLabelEntry → Option ℕ
existing_tainted_at none = none
existing_tainted_at (some entry) = entry.tainted_at

abbrev existing_tainted_by : Option SessionLabelEntry → Option String
existing_tainted_by none = none
existing_tainted_by (some entry) = entry.tainted_by

-- `x ?? y` where `y` may be undefined too
abbrev first_some {ℓ} : {A : Type ℓ} → Option A → Option A → Option A
first_some none b = b
first_some (some a) b = some a

-- The entry that `join` stores, from the one it found.
joined_entry : Option SessionLabelEntry → Label → Option String → ℕ → SessionLabelEntry
joined_entry existing incoming correlation_id now =
    let before = label_or_bottom existing in
    let after = join_labels before incoming in
    let became_tainted =
      not (any is_untrusted_origin before.origins) && any is_untrusted_origin after.origins in
    record {
      label = after;
      tainted_at =
          first_some (existing_tainted_at existing) (if became_tainted then some now else none);
      tainted_by =
          first_some (existing_tainted_by existing)
            (if became_tainted then correlation_id else none);
      untrusted_ancestors = ancestors_or_empty existing;
    }

pub join : SessionLabelStore → String → Label → Option String → ℕ → SessionLabelStore × Label
unfolding joined_entry
join labels session_id incoming correlation_id now =
    let entry = joined_entry (lookup session_id labels) incoming correlation_id now in
    (insert session_id entry labels, entry.label)

abbrev non_empty : Option String → Bool
non_empty none = false
non_empty (some s) = not (s == "")

-- The hash of an untrusted element is kept, unless it is empty or absent.
next_ancestors : List String → Element → List String
next_ancestors new_ancestors e =
    if is_untrusted_origin e.provenance && non_empty e.content_hash
    then new_ancestors ++ (e.content_hash or_else "") ∷ []
    else new_ancestors

-- The loop of `joinElements`: the label, and the hashes of the untrusted elements in order.
pub accumulate : Label → List String → List Element → Label × List String
accumulate acc new_ancestors [] = (acc, new_ancestors)
accumulate acc new_ancestors (e ∷ elements) =
    accumulate
      (join_labels acc (record { classification = e.classification; origins = e.provenance ∷ [] }))
      (next_ancestors new_ancestors e) elements

abbrev add_ancestors : List String → SessionLabelEntry → SessionLabelEntry
add_ancestors new_ancestors entry = record entry {
  untrusted_ancestors = distinct (entry.untrusted_ancestors ++ new_ancestors);
}

record_ancestors : SessionLabelStore → String → List String → SessionLabelStore
record_ancestors labels session_id new_ancestors = elim (lookup session_id labels) [
  | none ↦ labels
  | some entry ↦ insert session_id (add_ancestors new_ancestors entry) labels
]

pub join_elements :
    SessionLabelStore → String → List Element → Option String → ℕ → SessionLabelStore × Label
unfolding accumulate record_ancestors
join_elements labels session_id elements correlation_id now =
    let (acc, new_ancestors) = accumulate (get labels session_id) [] elements in
    let (joined, label) = join labels session_id acc correlation_id now in
    (
      if ltb 0 (length new_ancestors)
          then record_ancestors joined session_id new_ancestors
          else joined,
      label,
    )

unfoldable pub ancestors : SessionLabelStore → String → List String
ancestors labels session_id = ancestors_or_empty (lookup session_id labels)

unfoldable pub is_tainted : SessionLabelStore → String → Bool
unfolding get
is_tainted labels session_id = any is_untrusted_origin (get labels session_id).origins

pub forget : SessionLabelStore → String → SessionLabelStore
forget labels session_id = retain (λ k _. not (k == session_id)) labels
