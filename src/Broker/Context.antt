-- ===== src/Broker/Context.antt =====
-- routes/context.ts: POST /v1/context/register. The order of element ids (`localeCompare`) and the text
-- of a list of strings (`JSON.stringify`) are parameters. The token is awaited without a deadline here, so
-- the answer `none` stands for bindings that never answer, too. The body of an answer of 200, less its
-- correlation id, stands in `result`.
use openclaw_nie_guard.Common.{
  ℕ, String, Option, none, some, Bool, not, List, [], ◌∷◌, ◌++◌, map, includes, length, string_eq,
  if◌then◌else◌, ◌or_else◌,
}
use openclaw_nie_guard.Types.{
  Classification, classification_name, Origin, origin_name, policy_violation, Json, bool, num, str,
  obj, member, end, strings, concat, ok, threw,
}
use openclaw_nie_guard.Lineage.{Label}
use openclaw_nie_guard.Labels.{Element, join_elements}
use openclaw_nie_guard.Labels
use openclaw_nie_guard.Bindings.{TokenVerificationResult}
use openclaw_nie_guard.Broker.Audit.{AppendInput, deny, invoke as invoke_event}
use openclaw_nie_guard.Broker.Services.{NieBindings, BrokerServices, Handled, refusal, record_then}
use openclaw_nie_guard.Broker.Request.{truthy}

-- `RegisterRequest`
pub record ManifestElement : Type 0 where
  pub element_id : String
  pub provenance : Origin
  pub classification : Classification
  pub content_hash : String

pub record RegisterRequest : Type 0 where
  pub capability_token : String
  pub elements : List ManifestElement

abbrev pub labelled : ManifestElement → Element
labelled e = record {
  provenance = e.provenance;
  classification = e.classification;
  content_hash = some e.content_hash;
}

module _ (at_most : String → String → Bool) where
  insert_element : ManifestElement → List ManifestElement → List ManifestElement
  insert_element e [] = e ∷ []
  insert_element e (x ∷ xs) =
      if at_most e.element_id x.element_id then e ∷ x ∷ xs else x ∷ insert_element e xs

  -- Stable, as the sort of an array is.
  sort_elements : List ManifestElement → List ManifestElement
  unfolding insert_element
  sort_elements [] = []
  sort_elements (e ∷ es) = insert_element e (sort_elements es)

abbrev element_text : ManifestElement → String
element_text e = concat (
    e.element_id
    ∷ ":"
    ∷ e.content_hash
    ∷ ":"
    ∷ classification_name e.classification
    ∷ ":"
    ∷ origin_name e.provenance
    ∷ [])

abbrev label_json : Label → Json
label_json label = obj (
    member "classification" (str (classification_name label.classification))
      (member "origins" (strings (map origin_name label.origins)) end))

-- A set of hashes, in the order in which they came.
abbrev pub add_manifest : List String → String → List String
add_manifest manifests h = if includes manifests h then manifests else manifests ++ h ∷ []

module _ {S : Type 0} (bindings : NieBindings S) (hash : String → String)
    (at_most : String → String → Bool) (stringify : List String → String) (correlation_id : String)
    (now : ℕ) where
  abbrev pub manifest_hash : List ManifestElement → String
  unfolding sort_elements
  manifest_hash elements = hash (stringify (map element_text (sort_elements at_most elements)))

  -- With a session, the labels and the manifests are raised first, and the record is written then.
  unfoldable pub register_in :
      BrokerServices S → RegisterRequest → TokenVerificationResult → String → Handled S
  unfolding sort_elements
  register_in s body token session_id =
      let manifest = manifest_hash body.elements in
      let (labels, label) =
        join_elements s.session_labels session_id (map labelled body.elements) (some correlation_id)
          now in
      let count = length (sort_elements at_most body.elements) in
      record_then
        (record s {
          registered_manifests = add_manifest s.registered_manifests manifest;
          session_labels = labels;
        })
        (record {
          event_type = invoke_event;
          correlation_id = some correlation_id;
          session_id = token.session_id;
          subject_id = token.subject_id;
          device_fingerprint = token.device_fingerprint;
          payload_digest = none;
          operation_class = none;
          target_hash = none;
          classification = none;
          reason_code = none;
          metadata = some (
              ("stage", str "context-register")
              ∷ ("manifestHash", str manifest)
              ∷ ("elementCount", num count)
              ∷ ("sessionLabel", label_json label)
              ∷ ("sessionTainted", bool (Labels.is_tainted labels session_id))
              ∷ []);
        })
        (record {
          status = 200;
          code = none;
          message = none;
          result =
              some (
                obj (member "manifestHash" (str manifest) (member "elementCount" (num count) end)));
          event = none;
        })

  abbrev no_session_record : TokenVerificationResult → AppendInput
  no_session_record token = record {
    event_type = deny;
    correlation_id = some correlation_id;
    session_id = none;
    subject_id = token.subject_id;
    device_fingerprint = token.device_fingerprint;
    payload_digest = none;
    operation_class = none;
    target_hash = none;
    classification = none;
    reason_code = some policy_violation;
    metadata =
        some
          (("stage", str "context-register") ∷ ("reason", str "token carries no session id") ∷ []);
  }

  unfoldable pub register_verified :
      BrokerServices S → RegisterRequest → TokenVerificationResult → Handled S
  unfolding register_in
  register_verified s body token =
      if not token.valid
      then (
        s,
        some (record {
          status = 401;
          code = token.reason_code;
          message = some "Invalid token.";
          result = none;
          event = none;
        }),
      )
      else if not (truthy token.session_id)
      then record_then s (no_session_record token) (
          refusal 403 policy_violation
            "Token carries no session identity; context cannot be labelled.")
      else register_in s body token (token.session_id or_else "")

  -- The handler, for a body that the schema parsed, or did not.
  unfoldable pub register : BrokerServices S → Option RegisterRequest → Handled S
  unfolding register_verified
  register s none = (s, some (refusal 400 policy_violation "Invalid register request."))
  register s (some body) =
      let work = bindings.verify_token s.bindings body.capability_token in
      elim work.settles_after [
        | none ↦ (s, none)
        | some elapsed ↦ elim work.result [
          | threw err ↦ (s, none)
          | ok token ↦ register_verified s body token
        ]
      ]
