-- ===== src/Labels/Joins.antt =====
-- What one registration does to the labels: `join` and `joinElements`.
use openclaw_nie_guard.Common.{
  ℕ, ◌≡◌, refl, sym, ◌∙◌, ◌≢◌, String, Option, none, some, Bool, ◌&&◌, ◌||◌, not, List, [], ◌∷◌,
  ◌++◌, any, All, includes, distinct, includes-distinct, includes-append, ◌==◌, string_eq,
  if◌then◌else◌, ◌or_else◌, lookup, insert, lookup-insert, beq_refl, beq_ne, length, ltb, arith,
  eq_iff,
}
use openclaw_nie_guard.Lineage.{
  Label, is_untrusted_origin, join as join_labels, is_tainted as label_is_tainted,
}
use openclaw_nie_guard.Lineage.Order.{
  AtMost, AtMost-refl, AtMost-trans, left-AtMost-join, right-AtMost-join, join-AtMost,
  is_tainted-join,
}
use openclaw_nie_guard.Labels.{
  SessionLabelEntry, SessionLabelStore, Element, label_or_bottom, ancestors_or_empty, get,
  joined_entry, join, accumulate, next_ancestors, existing_tainted_at, existing_tainted_by,
  first_some, add_ancestors, record_ancestors, join_elements, ancestors, is_tainted, non_empty,
}

abbrev pub element_label : Element → Label
element_label e = record { classification = e.classification; origins = e.provenance ∷ [] }

-- The entry that a registration leaves at its session.
pub registered_entry :
    Option SessionLabelEntry → List Element → Option String → ℕ → SessionLabelEntry
unfolding accumulate joined_entry
registered_entry existing elements correlation_id now =
    let (acc, new_ancestors) = accumulate (label_or_bottom existing) [] elements in
    let entry = joined_entry existing acc correlation_id now in
    if ltb 0 (length new_ancestors) then add_ancestors new_ancestors entry else entry

lookup-record_ancestors :
    (labels : SessionLabelStore) (session_id other : String) (new_ancestors : List String)
    (entry : SessionLabelEntry)
    → lookup other (record_ancestors (insert session_id entry labels) session_id new_ancestors) ≡ (
        if session_id == other
        then some (add_ancestors new_ancestors entry)
        else lookup other labels)
unfolding record_ancestors
lookup-record_ancestors labels session_id other new_ancestors entry = ground (
  arith,
  lookup-insert session_id session_id entry labels,
  beq_refl session_id,
  lookup-insert session_id other entry labels,
  lookup-insert session_id other (add_ancestors new_ancestors entry)
      (insert session_id entry labels),
)

pub lookup-join_elements :
    (labels : SessionLabelStore) (session_id other : String) (elements : List Element)
    (correlation_id : Option String) (now : ℕ)
    → lookup other (join_elements labels session_id elements correlation_id now).0 ≡ (
        if session_id == other
        then some (registered_entry (lookup session_id labels) elements correlation_id now)
        else lookup other labels)
unfolding join_elements registered_entry join get
lookup-join_elements labels session_id other elements correlation_id now =
    let (acc, new_ancestors) = accumulate (get labels session_id) [] elements in
    let entry = joined_entry (lookup session_id labels) acc correlation_id now in
    ground (
      arith,
      lookup-record_ancestors labels session_id other new_ancestors entry,
      lookup-insert session_id other entry labels,
    )

accumulate_bounds :
    (acc : Label) (hs : List String) (elements : List Element)
    → AtMost acc (accumulate acc hs elements).0
      × All (λ e. AtMost (element_label e) (accumulate acc hs elements).0) elements
unfolding accumulate
accumulate_bounds acc hs [] = (AtMost-refl acc, tt)
accumulate_bounds acc hs (e ∷ elements) =
    let (low, rest) =
      accumulate_bounds (join_labels acc (element_label e)) (next_ancestors hs e) elements in
    (
      AtMost-trans acc (join_labels acc (element_label e)) _
          (left-AtMost-join acc (element_label e)) low,
      (
        AtMost-trans (element_label e) (join_labels acc (element_label e)) _
            (right-AtMost-join acc (element_label e)) low,
        rest,
      ),
    )

accumulate_least :
    (acc : Label) (hs : List String) (elements : List Element) (c : Label)
    → AtMost acc c
    → All (λ e. AtMost (element_label e) c) elements
    → AtMost (accumulate acc hs elements).0 c
unfolding accumulate
accumulate_least acc hs [] c h hs' = h
accumulate_least acc hs (e ∷ elements) c h (k, ks) =
    accumulate_least (join_labels acc (element_label e)) (next_ancestors hs e) elements c
      (join-AtMost acc (element_label e) c h k) ks

-- An element is untrusted by its declared origin.
abbrev pub is_untrusted : Element → Bool
is_untrusted e = is_untrusted_origin e.provenance

is_tainted-element_label : (e : Element) → label_is_tainted (element_label e) ≡ is_untrusted e
unfolding label_is_tainted
is_tainted-element_label e = ground arith

pub is_tainted-accumulate :
    (acc : Label) (hs : List String) (elements : List Element)
    → label_is_tainted (accumulate acc hs elements).0
      ≡ (label_is_tainted acc || any is_untrusted elements)
unfolding accumulate
is_tainted-accumulate acc hs [] = ground arith
is_tainted-accumulate acc hs (e ∷ elements) = ground (
  arith,
  is_tainted-accumulate (join_labels acc (element_label e)) (next_ancestors hs e) elements,
  is_tainted-join acc (element_label e),
  is_tainted-element_label e,
)

-- The element is untrusted, and its content hash is `h`.
abbrev pub carries : String → Element → Bool
carries h e =
    (is_untrusted_origin e.provenance && non_empty e.content_hash)
    && (e.content_hash or_else "") == h

includes-next_ancestors :
    (hs : List String) (e : Element) (h : String)
    → includes (next_ancestors hs e) h ≡ (includes hs h || carries h e)
unfolding next_ancestors
includes-next_ancestors hs e h =
    ground (arith, includes-append hs ((e.content_hash or_else "") ∷ []) h)

includes-accumulate :
    (acc : Label) (hs : List String) (elements : List Element) (h : String)
    → includes (accumulate acc hs elements).1 h ≡ (includes hs h || any (carries h) elements)
unfolding accumulate
includes-accumulate acc hs [] h = ground arith
includes-accumulate acc hs (e ∷ elements) h = ground (
  arith,
  includes-accumulate (join_labels acc (element_label e)) (next_ancestors hs e) elements h,
  includes-next_ancestors hs e h,
)

pub label-registered_entry :
    (existing : Option SessionLabelEntry) (elements : List Element) (correlation_id : Option String)
    (now : ℕ)
    → (registered_entry existing elements correlation_id now).label
      ≡ join_labels (label_or_bottom existing) (accumulate (label_or_bottom existing) [] elements).0
unfolding registered_entry
label-registered_entry existing elements correlation_id now = ground arith

includes-merge :
    (old new : List String) (h : String)
    → includes (if ltb 0 (length new) then distinct (old ++ new) else old) h
      ≡ (includes old h || includes new h)
includes-merge old [] h = ground arith
includes-merge old (x ∷ new) h =
    ground (arith, includes-distinct (old ++ x ∷ new) h, includes-append old (x ∷ new) h)

ancestors-registered_entry :
    (existing : Option SessionLabelEntry) (elements : List Element) (correlation_id : Option String)
    (now : ℕ) (h : String)
    → includes (registered_entry existing elements correlation_id now).untrusted_ancestors h
      ≡ (includes (ancestors_or_empty existing) h || any (carries h) elements)
unfolding registered_entry
ancestors-registered_entry existing elements correlation_id now h = ground (
  arith,
  includes-merge (ancestors_or_empty existing) (accumulate (label_or_bottom existing) [] elements).1
      h,
  includes-accumulate (label_or_bottom existing) [] elements h,
)

module _ (labels : SessionLabelStore) (session_id : String) (elements : List Element)
    (correlation_id : Option String) (now : ℕ) where
  abbrev after : SessionLabelStore
  after = (join_elements labels session_id elements correlation_id now).0

  get-join_elements :
      (other : String)
      → get after other ≡ (
          if session_id == other
          then join_labels
              (get labels session_id)
              (accumulate (get labels session_id) [] elements).0
          else get labels other)
  unfolding get
  get-join_elements other = ground (
    arith,
    lookup-join_elements labels session_id other elements correlation_id now,
    label-registered_entry (lookup session_id labels) elements correlation_id now,
  )

pub is_tainted-get :
    (labels : SessionLabelStore) (session_id : String)
    → is_tainted labels session_id ≡ label_is_tainted (get labels session_id)
unfolding is_tainted label_is_tainted
is_tainted-get labels session_id = refl

-- Taint after a registration: a session is tainted exactly if it was before, or if it is the session
-- of the registration and some element has an untrusted origin.
pub is_tainted-join_elements :
    (labels : SessionLabelStore) (session_id : String) (elements : List Element)
    (correlation_id : Option String) (now : ℕ) (other : String)
    → is_tainted (join_elements labels session_id elements correlation_id now).0 other
      ≡ (is_tainted labels other || (session_id == other && any is_untrusted elements))
is_tainted-join_elements labels session_id elements correlation_id now other = ground (
  arith,
  is_tainted-get (after labels session_id elements correlation_id now) other,
  is_tainted-get labels other,
  is_tainted-get labels session_id,
  get-join_elements labels session_id elements correlation_id now other,
  is_tainted-join (get labels session_id) (accumulate (get labels session_id) [] elements).0,
  is_tainted-accumulate (get labels session_id) [] elements,
  eq_iff session_id other,
)

-- The untrusted ancestors of a session after a registration are those before, and the non-empty
-- content hashes of the untrusted elements if it is the session of the registration.
pub ancestors-join_elements :
    (labels : SessionLabelStore) (session_id : String) (elements : List Element)
    (correlation_id : Option String) (now : ℕ) (other h : String)
    → includes (ancestors (join_elements labels session_id elements correlation_id now).0 other) h
      ≡ (includes (ancestors labels other) h || (session_id == other && any (carries h) elements))
unfolding ancestors
ancestors-join_elements labels session_id elements correlation_id now other h = ground (
  arith,
  lookup-join_elements labels session_id other elements correlation_id now,
  ancestors-registered_entry (lookup session_id labels) elements correlation_id now h,
  eq_iff session_id other,
)

All-AtMost_trans :
    (b c : Label) (elements : List Element)
    → AtMost b c
    → All (λ e. AtMost (element_label e) b) elements
    → All (λ e. AtMost (element_label e) c) elements
All-AtMost_trans b c [] h hs = tt
All-AtMost_trans b c (e ∷ elements) h (k, ks) =
    (AtMost-trans (element_label e) b c k h, All-AtMost_trans b c elements h ks)

returned-join_elements :
    (labels : SessionLabelStore) (session_id : String) (elements : List Element)
    (correlation_id : Option String) (now : ℕ)
    → (join_elements labels session_id elements correlation_id now).1
      ≡ join_labels (get labels session_id) (accumulate (get labels session_id) [] elements).0
unfolding join_elements join get
returned-join_elements labels session_id elements correlation_id now = refl

-- What a registration does to the labels: the label of its session is the least one that is at least
-- the label before and every element's label, it is the label returned, and no other session's label
-- changes.
pub join_elements_lem :
    (labels : SessionLabelStore) (session_id : String) (elements : List Element)
    (correlation_id : Option String) (now : ℕ)
    → let labels' = (join_elements labels session_id elements correlation_id now).0 in
      AtMost (get labels session_id) (get labels' session_id)
      × All (λ e. AtMost (element_label e) (get labels' session_id)) elements
      × ((c : Label)
          → AtMost (get labels session_id) c
          → All (λ e. AtMost (element_label e) c) elements
          → AtMost (get labels' session_id) c)
      × ((join_elements labels session_id elements correlation_id now).1 ≡ get labels' session_id)
      × ((other : String) → session_id ≢ other → get labels' other ≡ get labels other)
join_elements_lem labels session_id elements correlation_id now =
    let before = get labels session_id in
    let acc = (accumulate before [] elements).0 in
    let here : get (after labels session_id elements correlation_id now) session_id
        ≡ join_labels before acc =
      ground (
        arith,
        get-join_elements labels session_id elements correlation_id now session_id,
        beq_refl session_id,
      ) in
    let (low, each) = accumulate_bounds before [] elements in
    (
      rw here (left-AtMost-join before acc),
      rw here (
          All-AtMost_trans acc (join_labels before acc) elements (right-AtMost-join before acc)
            each),
      λ c h hs. rw here (join-AtMost before acc c h (accumulate_least before [] elements c h hs)),
      returned-join_elements labels session_id elements correlation_id now ∙ sym here,
      λ other ne. ground (
        arith,
        get-join_elements labels session_id elements correlation_id now other,
        beq_ne session_id other ne,
      ),
    )

pub tainted_at-registered_entry :
    (existing : Option SessionLabelEntry) (elements : List Element) (correlation_id : Option String)
    (now : ℕ)
    → let entry = registered_entry existing elements correlation_id now in
      let fresh =
        not (label_is_tainted (label_or_bottom existing)) && label_is_tainted entry.label in
      (entry.tainted_at
        ≡ first_some (existing_tainted_at existing) (if fresh then some now else none))
      × (entry.tainted_by
          ≡ first_some (existing_tainted_by existing) (if fresh then correlation_id else none))
unfolding registered_entry label_is_tainted
tainted_at-registered_entry existing elements correlation_id now = ground arith
